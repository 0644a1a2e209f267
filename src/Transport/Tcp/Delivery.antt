-- ===== src/Transport/Tcp/Delivery.antt =====
-- pkg/transport/tcp.go: from Send on one node to the out channel of another.
use mathlib.Core.List.{append-nil, append_assoc, flatten}
use go_simple_protocol_runti.Common.{
  ℕ, ◌≡◌, refl, sym, ap, ◌∙◌, List, [], ◌∷◌, ◌++◌, map, length, true, Option, some, inl, inr,
  if◌then◌else◌, ◌==◌, nat_eq, lookup, insert, lookup-insert, All, arith, beq_refl,
}
use go_simple_protocol_runti.Errors.{ok}
use go_simple_protocol_runti.Transport.Host.{Host, host_eq}
use go_simple_protocol_runti.Transport.Layer.{Message}
use go_simple_protocol_runti.Transport.Frame.{
  put_uint32, decode_frames, decode_round, wait, frames, receive,
}
use go_simple_protocol_runti.Transport.Frame.Stream.{
  decode_frames-wait, decode_frames_waiting, decode_frames-ne-stuck,
}
use go_simple_protocol_runti.Transport.Frame.Reads.{
  IsSmall, encode_all, receive-encode_all, encode_frame_small, Decoded-cases, nothing_waits,
}
use go_simple_protocol_runti.Transport.Tcp.{
  TcpLayer, start_handler, accept, bytes, recv_buf, read_frames, deliver_all, write_frame, send,
  connection_round, Input, send_request, accepted, read, step, run,
}

-- The out channel after the payloads `fs` of `host` were sent on it.
abbrev pub push : Host → List (List ℕ) → List Message → List Message
push host [] log = log
push host (f ∷ fs) log = push host fs (record { host = host; msg = f } ∷ log)

push-append :
    (h : Host) (fs gs : List (List ℕ)) (log : List Message)
    → push h (fs ++ gs) log ≡ push h gs (push h fs log)
push-append h [] gs log = refl
push-append h (f ∷ fs) gs log = push-append h fs gs (record { host = h; msg = f } ∷ log)

deliver_all-push :
    (h : Host) (fs : List (List ℕ)) (t : TcpLayer)
    → deliver_all h fs t ≡ record t { out_channel = push h fs t.out_channel }
unfolding deliver_all
deliver_all-push h [] t = refl
deliver_all-push h (f ∷ fs) t =
    deliver_all-push h fs (record t { out_channel = record { host = h; msg = f } ∷ t.out_channel })

-- One read that completes the frames `fs`.
round_delivers :
    (conn : ℕ) (h : Host) (c kept rest : List ℕ) (fs : List (List ℕ)) (t : TcpLayer)
    → lookup conn t.recv_bufs ≡ some kept
    → decode_round kept ≡ wait
    → decode_frames (kept ++ c) ≡ frames fs rest
    → ((connection_round conn h (bytes c) t).out_channel ≡ push h fs t.out_channel)
      × (lookup conn (connection_round conn h (bytes c) t).recv_bufs ≡ some rest)
unfolding connection_round read_frames recv_buf
round_delivers conn h [] kept rest fs t buf waits e =
    let same : frames [] kept ≡ frames fs rest =
      sym (decode_frames_waiting kept waits) ∙ rw append-nil at e in
    ground (arith, deliver_all-push h [] t)
round_delivers conn h (b ∷ bs) kept rest fs t buf waits e = ground (
  arith,
  deliver_all-push h fs (record t { recv_bufs = insert conn rest t.recv_bufs }),
  lookup-insert conn conn rest t.recv_bufs,
)

abbrev pub reads : ℕ → Host → List (List ℕ) → List Input
reads conn h chunks = map (λ c. read conn h (bytes c)) chunks

-- The rounds of one connection handler deliver what `receive` does.
run-receive :
    (chunks : List (List ℕ)) (conn : ℕ) (h : Host) (kept rest : List ℕ) (fs : List (List ℕ))
    (t : TcpLayer)
    → lookup conn t.recv_bufs ≡ some kept
    → decode_round kept ≡ wait
    → receive kept chunks ≡ (fs, some rest)
    → (run (reads conn h chunks) t).out_channel ≡ push h fs t.out_channel
unfolding run receive step
run-receive [] conn h kept rest fs t buf waits e = ground arith
run-receive (c ∷ cs) conn h kept rest fs t buf waits e =
    elim (Decoded-cases (decode_frames (kept ++ c)) (decode_frames-ne-stuck (kept ++ c))) [
      | inl (gs, r, d) ↦
          let (made, left) = round_delivers conn h c kept r gs t buf waits d in
          let both : ◌≡◌ {A = List (List ℕ) × Option (List ℕ)}
              (gs ++ (receive r cs).0, (receive r cs).1) (fs, some rest) =
            rw (d, receive) at e in
          let later =
            run-receive cs conn h r rest (receive r cs).0 (connection_round conn h (bytes c) t) left
              (decode_frames-wait (kept ++ c) gs r d) (ground arith) in
          let joined : gs ++ (receive r cs).0 ≡ fs = ground arith in
          later ∙ rw (made, ← joined) (sym (push-append h gs (receive r cs).0 t.out_channel))
      | inr d ↦ ground arith
    ]

-- The bytes written on a connection, in the order of the writes.
abbrev pub stream_of : ℕ → List (ℕ × List ℕ) → List ℕ
stream_of conn [] = []
stream_of conn ((c, frame) ∷ earlier) =
    if c == conn then stream_of conn earlier ++ frame else stream_of conn earlier

abbrev pub sends : Host → List (List ℕ) → List Input
sends h = map (λ p. send_request (record { host = h; msg = p }) h true)

send_writes :
    (p : List ℕ) (h : Host) (conn : ℕ) (t : TcpLayer)
    → lookup h t.active_connections ≡ some conn
    → IsSmall p
    → step (send_request (record { host = h; msg = p }) h true) t
      ≡ record t { written = (conn, put_uint32 (length p) ++ p) ∷ t.written }
unfolding step send write_frame
send_writes p h conn t active small = ground (arith, encode_frame_small p small)

-- A run of sends writes the frames of its payloads one after the other.
sends-encode_all :
    (ps : List (List ℕ)) (h : Host) (conn : ℕ) (t : TcpLayer)
    → lookup h t.active_connections ≡ some conn
    → All IsSmall ps
    → (stream : List ℕ) × (encode_all ps ≡ ok stream)
      × (stream_of conn (run (sends h ps) t).written ≡ stream_of conn t.written ++ stream)
unfolding run encode_all
sends-encode_all [] h conn t active small = ([], refl, sym (append-nil _))
sends-encode_all (p ∷ ps) h conn t active (one, small) =
    let sent = send_writes p h conn t active one in
    let t' = record t { written = (conn, put_uint32 (length p) ++ p) ∷ t.written } in
    let (stream, encoded, later) = sends-encode_all ps h conn t' active small in
    (
      (put_uint32 (length p) ++ p) ++ stream,
      rw (encode_frame_small p one, encoded),
      ap (λ (x : TcpLayer). stream_of conn (run (sends h ps) x).written) sent
          ∙ later
          ∙ rw (beq_refl conn)
              (append_assoc (stream_of conn t.written) (put_uint32 (length p) ++ p) stream),
    )

-- One node sends payloads within the frame limit over a connection on which nothing was written
-- before; another accepts the connection, and its reads return those bytes, cut anywhere. Then its
-- out channel has exactly those payloads, in order, under the host that it accepted.
pub sends_are_delivered :
    (ps chunks : List (List ℕ)) (h peer : Host) (conn conn' : ℕ) (t u : TcpLayer)
    → lookup h t.active_connections ≡ some conn
    → stream_of conn t.written ≡ []
    → All IsSmall ps
    → flatten chunks ≡ stream_of conn (run (sends h ps) t).written
    → (run (accepted conn' peer ∷ reads conn' peer chunks) u).out_channel
      ≡ push peer ps u.out_channel
unfolding run step accept start_handler
sends_are_delivered ps chunks h peer conn conn' t u active nothing small cuts =
    let (stream, encoded, wrote) = sends-encode_all ps h conn t active small in
    run-receive chunks conn' peer [] [] ps (accept conn' peer u)
      (rw (lookup-insert conn' conn' [] u.recv_bufs, beq_refl conn')) nothing_waits
      (receive-encode_all ps chunks stream small encoded (cuts ∙ wrote ∙ rw nothing))
