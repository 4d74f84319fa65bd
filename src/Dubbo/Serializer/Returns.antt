-- ===== src/Dubbo/Serializer/Returns.antt =====
-- The serializer comes back: it returns, throws or crashes.
use Prim.Native.String.{String}
use meta_protocol_proxy.Base.{
  ℕ, zero, suc, ◌≡◌, Bool, true, false, Option, none, some, List, ltb, not, ◌&&◌, ◌==◌, Ends,
  returns, raises, crashes, Ends-bind, Ends-if, Ends-ok, subst, refl, ok, AnyValue, Option-cases,
  ◌≢◌, ◌⊎◌, inl, inr,
}
use meta_protocol_proxy.Metadata.{HeaderMapApi}
use meta_protocol_proxy.Dubbo.Message.{HessianApi, Attachment, RpcInvocation, RpcResult}
use meta_protocol_proxy.Dubbo.Serializer.{
  Shape, exception_shape, value_shape, new_invocation, deserialize_rpc_invocation, parameters,
  read_attachment, assign_attachment, shape_of, read_body, result_attachment_of, result_of, shaped,
  deserialize_rpc_result,
}

module _ (H : HeaderMapApi) (X : HessianApi) where
  open X use {decode_string, decode_int, decode_object}

  new_invocation-Ends :
      (header_size offset : ℕ) (d s v m : Option String)
      → Ends AnyValue (new_invocation H X header_size offset d s v m)
  unfolding new_invocation
  new_invocation-Ends header_size offset (some d) (some s) (some v) (some m) = returns tt
  new_invocation-Ends header_size offset none s v m = raises
  new_invocation-Ends header_size offset (some d) none v m = raises
  new_invocation-Ends header_size offset (some d) (some s) none m = raises
  new_invocation-Ends header_size offset (some d) (some s) (some v) none = raises

  pub deserialize_rpc_invocation-Ends :
      (header_size body_size : ℕ) (bytes : List ℕ)
      → Ends AnyValue (deserialize_rpc_invocation H X header_size body_size bytes)
  unfolding deserialize_rpc_invocation
  deserialize_rpc_invocation-Ends header_size body_size bytes =
      let (dubbo, o₁) = decode_string bytes 0 in
      let (service, o₂) = decode_string bytes o₁ in
      let (version, o₃) = decode_string bytes o₂ in
      let (method, o₄) = decode_string bytes o₃ in
      Ends-if {b = ltb body_size o₄} (λ _. raises)
        (λ _. new_invocation-Ends header_size o₄ dubbo service version method)

  parameters-Ends : (bytes : List ℕ) (n offset : ℕ) → Ends AnyValue (parameters H X bytes n offset)
  unfolding parameters
  parameters-Ends bytes zero offset = returns tt
  parameters-Ends bytes (suc n) offset = elim (Option-cases (decode_object bytes offset).0) [
    | inl e ↦ rw (e, parameters) raises
    | inr (_, e) ↦ rw (e, parameters) (parameters-Ends bytes n (decode_object bytes offset).1)
  ]

  -- The attachment is there.
  abbrev pub HasAttachment : RpcInvocation H X → Type 0
  HasAttachment i = i.attachment ≢ none

  read_attachment-HasAttachment :
      (bytes : List ℕ) (i : RpcInvocation H X) (offset : ℕ)
      → HasAttachment (read_attachment H X bytes i offset)
  unfolding read_attachment
  read_attachment-HasAttachment bytes i offset = λ (q : _ ≡ none). cc

  already-HasAttachment :
      (i : RpcInvocation H X) (a : Attachment H X) → i.attachment ≡ some a → HasAttachment i
  already-HasAttachment i a e = λ (q : i.attachment ≡ none). cc

  pub assign_attachment-Ends :
      (bytes : List ℕ) (i : RpcInvocation H X) → Ends HasAttachment (assign_attachment H X bytes i)
  unfolding assign_attachment
  assign_attachment-Ends bytes i = elim (Option-cases i.attachment) [
    | inl e ↦
        rw (e, assign_attachment)
          (Ends-bind (parameters-Ends bytes _ _) (λ next _.
            returns {a = read_attachment H X bytes i next}
              (read_attachment-HasAttachment bytes i next)))
    | inr (a, e) ↦ rw (e, assign_attachment) (returns (already-HasAttachment i a e))
  ]

  read_body-Ends :
      (bytes : List ℕ) (b : Bool) (offset : ℕ) → Ends AnyValue (read_body H X bytes b offset)
  unfolding read_body
  read_body-Ends bytes false offset = returns tt
  read_body-Ends bytes true offset = elim (Option-cases (decode_string bytes offset).0) [
    | inl e ↦ rw (e, read_body) crashes
    | inr (_, e) ↦ rw (e, read_body) (returns tt)
  ]

  shaped-Ends :
      (header_size body_size : ℕ) (bytes : List ℕ) (offset : ℕ) (s : Option Shape)
      → Ends AnyValue (shaped H X header_size body_size bytes offset s)
  unfolding shaped result_of
  shaped-Ends header_size body_size bytes offset none = raises
  shaped-Ends header_size body_size bytes offset (some s) =
      Ends-bind (read_body-Ends bytes s.value offset) (λ t _.
        Ends-if {b = ltb body_size offset} (λ _. raises)
          (λ _.
            Ends-if {b = not s.value_or_attachment && not (body_size == offset)} (λ _. raises)
              (λ _. returns tt)))

  pub deserialize_rpc_result-Ends :
      (header_size body_size : ℕ) (bytes : List ℕ)
      → Ends AnyValue (deserialize_rpc_result H X header_size body_size bytes)
  unfolding deserialize_rpc_result
  deserialize_rpc_result-Ends header_size body_size bytes =
      elim (Option-cases (decode_int bytes 0).0) [
        | inl e ↦ rw (e, deserialize_rpc_result) raises
        | inr (n, e) ↦
            rw (e, deserialize_rpc_result) (shaped-Ends header_size body_size bytes _ (shape_of n))
      ]

  abbrev pub NoAttachment : RpcResult H X → Type 0
  NoAttachment r = r.result_attachment ≡ none

  unattached :
      (bytes : List ℕ) (header_size : ℕ) (b : Bool) (offset : ℕ)
      → b ≡ false
      → result_attachment_of H X bytes header_size b offset ≡ none
  unattached bytes header_size false offset e = refl
  unattached bytes header_size true offset e = cc

  shaped-NoAttachment :
      (header_size body_size : ℕ) (bytes : List ℕ) (offset : ℕ) (s : Shape)
      → s.has_attachment ≡ false
      → Ends NoAttachment (shaped H X header_size body_size bytes offset (some s))
  unfolding shaped result_of
  shaped-NoAttachment header_size body_size bytes offset s e =
      Ends-bind (read_body-Ends bytes s.value offset) (λ t _.
        Ends-if {b = ltb body_size offset} (λ _. raises)
          (λ _.
            Ends-if {b = not s.value_or_attachment && not (body_size == offset)} (λ _. raises)
              (λ _. returns (unattached bytes header_size s.has_attachment t.1 e))))

  typed-NoAttachment :
      (header_size body_size t : ℕ) (bytes : List ℕ)
      → (decode_int bytes 0).0 ≡ some t
      → (t ≡ 0) ⊎ (t ≡ 1)
      → Ends NoAttachment (deserialize_rpc_result H X header_size body_size bytes)
  unfolding deserialize_rpc_result shape_of
  typed-NoAttachment header_size body_size t bytes e (inl z) =
      rw (deserialize_rpc_result, e, z)
        (shaped-NoAttachment header_size body_size bytes (decode_int bytes 0).1 exception_shape
          refl)
  typed-NoAttachment header_size body_size t bytes e (inr z) =
      rw (deserialize_rpc_result, e, z)
        (shaped-NoAttachment header_size body_size bytes (decode_int bytes 0).1 value_shape refl)

  -- The types of an exception and of a value have none.
  pub value_result-NoAttachment :
      (header_size body_size t : ℕ) (bytes : List ℕ) (r : RpcResult H X)
      → (decode_int bytes 0).0 ≡ some t
      → (t ≡ 0) ⊎ (t ≡ 1)
      → deserialize_rpc_result H X header_size body_size bytes ≡ ok r
      → NoAttachment r
  value_result-NoAttachment header_size body_size t bytes r e plain er =
      Ends-ok
        (subst (Ends NoAttachment) er (typed-NoAttachment header_size body_size t bytes e plain))
