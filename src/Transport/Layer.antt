-- ===== src/Transport/Layer.antt =====
-- pkg/transport/layer.go: what a transport Layer hands to the session layer.
use go_simple_protocol_runti.Common.{ℕ, List}
use go_simple_protocol_runti.Transport.Host.{Host}

-- Who a message is from or for, and its bytes.
pub record Message : Type 0 where
  pub host : Host
  pub msg : List ℕ

-- The events Connected, Disconnected and Failed.
pub data TransportEvent : Type 0 where
  transport_connected transport_disconnected transport_failed : Host → TransportEvent
