-- ===== src/Lib.antt =====
-- The protorun library: a runtime that runs protocols in event loops, gives them messages from other
-- nodes, requests and notifications among themselves, timers and session events.
--
-- Parts, from the network up. A node's TCP layer (pkg/transport/tcp.go) keeps a table of connections and
-- cuts byte streams into frames. The session layer (pkg/transport/session.go) puts a Hello in front of
-- each connection, maps the host that a connection came from to the host that the peer calls its own,
-- and reports sessions. The runtime (pkg/protorun) turns those reports into events for its protocols,
-- dials lost hosts again, routes each payload by its wire id to the protocol that owns it, and carries
-- requests, notifications and timers. pkg/wire has the primitives of the formats.
--
-- Common, Errors: the shared names, Go maps as tables with the laws of lookup, int with its conversion to
-- uint16, error values with errors.Is.
-- Wire: pkg/wire/wire.go (WriteBytes as write_bytes, and so on). A writer is the list of bytes written.
-- Transport.Host: pkg/transport/host.go and address.go. Transport.Layer: layer.go.
-- Transport.Frame: encodeFrame, decodeFrames and the reads of one connection of tcp.go. decode_loop runs
-- on fuel, one more than the length of the buffer: a round that goes on takes four bytes at least.
-- Transport.Tcp: the table of tcp.go; `step` is one step of the handler loop, the accept loop or a
-- connection handler, with what the network did as its argument. A new connection comes into the table
-- and is reported in one step, or in two, between which other goroutines run.
-- Transport.Handshake: the payloads of session.go and its layer byte.
-- Transport.Session: sessionConn and its methods; Session/Steps: withSession, the dispatch functions and
-- the handler loop, whose inputs are taken one at a time. What goes out is logged. Session/Live: the calls
-- of other goroutines, their channels and Cancel, after which some of what goes out is given up.
-- Protorun.Retry: retry.go with connect and disconnect of runtime.go. Protorun.Floats: float64, of which
-- only four comparisons of constants are used. Protorun.Dispatch: dispatchSessionEvent and
-- fanoutSessionEvent of runtime.go. Protorun.Ipc: ipc.go with its ends in runtime.go and protocol.go;
-- Ipc/Steps puts them in one sequence. Protorun.Router: ipc_router.go. Protorun.Messages: message.go,
-- codec_registry.go, processMessage, and the registrations of protocol.go. Protorun.Timer: timer.go.
-- Protorun.Codec: codec.go (WireID as wire_id, wireIDOf as wire_id_of, and so on). Protorun.Lifecycle:
-- strict.go's phases, Start and Init of protocol.go; Lifecycle/Runs: New, Register, start, Cancel of
-- runtime.go and shutdown.go. Protorun.Loop: eventHandler, safeCall and reportPanic of protocol.go.
-- Protorun.Options: the With functions. Protorun.Logging: logging.go over any handler of log/slog.
-- Membership: cmd/gossip/membership/protocol.go. Gossip: cmd/gossip/gossip/protocol.go, the handlers of
-- the gossip protocol; Gossip/Codec: messages.go; Gossip/Network: several nodes and the messages in
-- flight between them, of which any may arrive next. PingPong: cmd/pingpong/protocol, on two nodes.
-- EndToEnd: the layers of two nodes one after the other, from Send to the mailboxes.
--
-- Channels are queues without a bound: a send that blocks is the same step taken later. A send that is
-- guarded by the runtime's context is told whether it won once the context is over. Functions, sockets,
-- protocols and handlers are numbers where only their identity matters. Request ids and the numbers of
-- timers do not wrap, which would take 2^64 of them.
--
-- Not modelled: metrics, which only report; the signals of Run; contexts other than whether they are
-- over; what reflection answers, which is data in Protorun.Codec; the layers that WithTCPTransport makes;
-- the flags, configuration and wiring of the programs under cmd.
pub mod Common
pub mod Errors
pub mod Wire
pub mod Transport
pub mod Protorun
pub mod EndToEnd
pub mod PingPong
pub mod Membership
pub mod Gossip
