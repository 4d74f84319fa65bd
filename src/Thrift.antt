-- ===== src/Thrift.antt =====
-- src/application_protocols/thrift: the codec of Thrift messages and its state machine. The protocol
-- and the transport, which the codec shares with Envoy's Thrift proxy, are interfaces.
pub mod Protocol
pub mod State
pub mod Machine
pub mod Codec
