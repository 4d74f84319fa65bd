-- ===== src/Dubbo/Encode/Errors.antt =====
-- What DubboCodec::onError writes.
use text.Mathlib.Text.{◌==◌ as str_eq}
use meta_protocol_proxy.Base.{◌≡◌, refl, false, ok}
use meta_protocol_proxy.Codec.{Error}
use meta_protocol_proxy.Buffer.{BufferApi}
use meta_protocol_proxy.Metadata.{HeaderMapApi, Metadata}
use meta_protocol_proxy.Dubbo.Message.{HessianApi, MessageMetadata}
use meta_protocol_proxy.Dubbo.Protocol.Written.{encode_response_silent}
use meta_protocol_proxy.Dubbo.Encode.{to_msg_metadata, on_error}

module _ (B : BufferApi) (H : HeaderMapApi) (X : HessianApi) where
  -- Whatever the error and its message, but for the message "addheader", and however the request
  -- was: onError leaves the buffer as it is.
  pub on_error-silent :
      (m : Metadata B H) (g q : MessageMetadata H X) (e : Error) (buffer : B.Buffer)
      → to_msg_metadata B H X m g ≡ ok q
      → str_eq e.message "addheader" ≡ false
      → on_error B H X m g e buffer ≡ ok buffer
  unfolding on_error
  on_error-silent m g q e buffer read other =
      rw read (encode_response_silent B H X _ _ buffer e.message refl other)
