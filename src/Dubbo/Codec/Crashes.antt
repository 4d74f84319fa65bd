-- ===== src/Dubbo/Codec/Crashes.antt =====
-- Responses without an attachment.
use meta_protocol_proxy.Base.{ℕ, ◌≡◌, ◌⊎◌, none, some, List, ok, panics}
use meta_protocol_proxy.Buffer.{BufferApi}
use meta_protocol_proxy.Metadata.{HeaderMapApi, Metadata}
use meta_protocol_proxy.Dubbo.Message.{HessianApi, MessageMetadata, RpcResult}
use meta_protocol_proxy.Dubbo.Serializer.{deserialize_rpc_result}
use meta_protocol_proxy.Dubbo.Serializer.Returns.{value_result-NoAttachment}
use meta_protocol_proxy.Dubbo.Codec.{
  with_invocation, put_result, put_result_attachment, to_metadata,
}

module _ (B : BufferApi) (H : HeaderMapApi) (X : HessianApi) where
  put_nothing :
      (g : MessageMetadata H X) (m : Metadata B H) (r : RpcResult H X) (origin : List ℕ)
      → g.invocation_info ≡ none
      → g.result_info ≡ some r
      → r.result_attachment ≡ none
      → to_metadata B H X origin g m ≡ panics
  unfolding to_metadata with_invocation put_result put_result_attachment
  put_nothing g m r origin ei er ea =
      simp (ei, er, ea, to_metadata, with_invocation, put_result, put_result_attachment)

  -- A response whose type is an exception or a value, without attachments, cannot be handed on:
  -- toMetadata reads the attachment of every result, and that of such a result is null.
  pub to_metadata_crashes :
      (header_size body_size t : ℕ) (body origin : List ℕ) (r : RpcResult H X)
      (g : MessageMetadata H X) (m : Metadata B H)
      → (X.decode_int body 0).0 ≡ some t
      → (t ≡ 0) ⊎ (t ≡ 1)
      → deserialize_rpc_result H X header_size body_size body ≡ ok r
      → g.invocation_info ≡ none
      → g.result_info ≡ some r
      → to_metadata B H X origin g m ≡ panics
  to_metadata_crashes header_size body_size t body origin r g m et plain er ei eg =
      put_nothing g m r origin ei eg
        (value_result-NoAttachment H X header_size body_size t body r et plain er)
