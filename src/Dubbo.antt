-- ===== src/Dubbo.antt =====
-- src/application_protocols/dubbo: the messages (message_impl.cc, metadata.h), the serializer, the
-- protocol and the codec of Dubbo. The library Hessian2 is an interface.
pub mod Message
pub mod Serializer
pub mod Protocol
pub mod State
pub mod Machine
pub mod Codec
pub mod Encode
