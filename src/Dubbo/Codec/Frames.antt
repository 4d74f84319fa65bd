-- ===== src/Dubbo/Codec/Frames.antt =====
-- How DubboCodec::decode takes messages out of a stream that arrives in pieces.
use meta_protocol_proxy.Base.{
  ℕ, ◌+◌, ◌≡◌, refl, sym, ap, subst, ◌∙◌, ◌⊎◌, inl, inr, Bool, true, false, if◌then◌else◌, Option,
  none, some, List, [], ◌∷◌, ◌++◌, length, Ends, returns, crashes, Ends-bind, arith,
}
use meta_protocol_proxy.Codec.{DecodeStatus}
use meta_protocol_proxy.Buffer.{BufferApi}
use meta_protocol_proxy.Buffer.Moves.{bytes-move_all}
use meta_protocol_proxy.Metadata.{HeaderMapApi, Metadata, put, put_string}
use meta_protocol_proxy.Dubbo.Message.{
  HessianApi, Attachment, MessageMetadata, Context, RpcInvocation, RpcResult,
}
use meta_protocol_proxy.Dubbo.State.{ProtocolState}
use meta_protocol_proxy.Dubbo.Serializer.Returns.{assign_attachment-Ends}
use meta_protocol_proxy.Dubbo.Machine.{Machine, new_machine}
use meta_protocol_proxy.Dubbo.Machine.Conserves.{
  stated_size, Short, Took, TakenAt, WaitsAt, Leaves, Finished, run-Finished,
}
use meta_protocol_proxy.Dubbo.Codec.{
  DubboCodec, put_text, put_entries, put_invocation, with_attachment, put_result_attachment,
  with_invocation, put_if, put_values, put_head, put_flags, has, timeout_any, response_status_any,
  put_result, to_metadata, to_metadata_with, complete, start, filled, decoded, finish_with, finish,
  run_codec, decode, Decoded,
}

module _ (B : BufferApi) (H : HeaderMapApi) (X : HessianApi) where
  open B use {Buffer, bytes, empty, size, move}

  -- What toMetadata leaves alone of the metadata.
  abbrev SameOrigin : Metadata B H → Metadata B H → Type 0
  SameOrigin m n = n.origin_message ≡ m.origin_message

  put_text-SameOrigin : (k v : Option _) (m : Metadata B H) → SameOrigin m (put_text B H X k v m)
  unfolding put_text put_string put
  put_text-SameOrigin none v m = refl
  put_text-SameOrigin (some k) none m = refl
  put_text-SameOrigin (some k) (some v) m = refl

  put_entries-SameOrigin :
      (es : List (X.Object × X.Object)) (m : Metadata B H) → SameOrigin m (put_entries B H X es m)
  unfolding put_entries
  put_entries-SameOrigin [] m = refl
  put_entries-SameOrigin ((k, v) ∷ es) m =
      put_entries-SameOrigin es (put_text B H X (X.text_of k) (X.text_of v) m)
      ∙ put_text-SameOrigin (X.text_of k) (X.text_of v) m

  put_invocation-SameOrigin :
      (i : RpcInvocation H X) (m : Metadata B H) → SameOrigin m (put_invocation B H X i m)
  unfolding put_invocation put_string put
  put_invocation-SameOrigin i m = refl

  abbrev Second {ℓ} : {A : Type ℓ} → Metadata B H → A × Metadata B H → Type 0
  Second m t = SameOrigin m t.1

  attached-Ends :
      (i j : RpcInvocation H X) (m : Metadata B H) (a : Option (Attachment H X))
      → Ends (Second m) (with_attachment B H X i j m a)
  unfolding with_attachment
  attached-Ends i j m none = crashes
  attached-Ends i j m (some a) =
      returns (
        put_entries-SameOrigin a.entries (put_invocation B H X i m) ∙ put_invocation-SameOrigin i m)

  with_invocation-Ends :
      (origin : List ℕ) (i : Option (RpcInvocation H X)) (m : Metadata B H)
      → Ends (Second m) (with_invocation B H X origin i m)
  unfolding with_invocation
  with_invocation-Ends origin none m = returns refl
  with_invocation-Ends origin (some i) m =
      Ends-bind (assign_attachment-Ends H X origin i) (λ j _. attached-Ends i j m j.attachment)

  put_if-SameOrigin :
      (b : Bool) (k : _) (v : _) (m : Metadata B H) → SameOrigin m (put_if B H X b k v m)
  unfolding put_if put
  put_if-SameOrigin true k v m = refl
  put_if-SameOrigin false k v m = refl

  put_values-SameOrigin :
      (g : MessageMetadata H X) (m : Metadata B H) → SameOrigin m (put_values B H X g m)
  unfolding put_values put_head put_flags put
  put_values-SameOrigin g m =
      let m' = put_if B H X (has g.timeout) "Timeout" timeout_any (put_head B H X g m) in
      put_if-SameOrigin (has g.response_status) "ResponseStatus" response_status_any
        (put_flags B H X g m')
      ∙ put_if-SameOrigin (has g.timeout) "Timeout" timeout_any (put_head B H X g m)

  result_attached-Ends :
      (a : Option (Attachment H X)) (m : Metadata B H)
      → Ends (SameOrigin m) (put_result_attachment B H X a m)
  unfolding put_result_attachment put
  result_attached-Ends none m = crashes
  result_attached-Ends (some a) m = returns (put_entries-SameOrigin a.entries m)

  put_result-Ends :
      (r : Option (RpcResult H X)) (m : Metadata B H) → Ends (SameOrigin m) (put_result B H X r m)
  unfolding put_result
  put_result-Ends none m = returns refl
  put_result-Ends (some r) m = result_attached-Ends r.result_attachment m

  to_metadata-Ends :
      (origin : List ℕ) (g : MessageMetadata H X) (m : Metadata B H)
      → Ends (Second m) (to_metadata B H X origin g m)
  unfolding to_metadata
  to_metadata-Ends origin g m =
      Ends-bind (with_invocation-Ends origin g.invocation_info m) (λ t same.
        Ends-bind (put_result-Ends g.result_info (put_values B H X g t.1)) (λ m' same'.
          returns {a = (record g { invocation_info = t.0 }, filled B H X g m')}
            (same' ∙ put_values-SameOrigin g t.1 ∙ same)))

  -- The codec has taken `taken` of the message that it is in.
  abbrev pub Holds : DubboCodec B H X → List ℕ → Type 0
  Holds c taken =
      ((c.decode_started ≡ false) × (taken ≡ []))
      ⊎ ((c.decode_started ≡ true)
          × (s : Machine B H X) × (c.state_machine ≡ some s)
          × WaitsAt B H X s.state s.context taken)

  pub record Asks (all : List ℕ) (c : DubboCodec B H X) (b : Buffer) : Type 0 where
    pub taken : List ℕ
    pub holds : Holds c taken
    pub rest : taken ++ bytes b ≡ all
    pub short : Short all

  -- `frame` is one whole message, and in front of `all`.
  pub record Gives (all : List ℕ) (m m' : Metadata B H) (c : DubboCodec B H X) (b : Buffer)
      : Type 0 where
    pub frame : List ℕ
    pub length-frame : length frame ≡ 16 + stated_size frame
    pub rest : frame ++ bytes b ≡ all
    pub holds : Holds c []
    pub origin : bytes m'.origin_message ≡ bytes m.origin_message ++ frame
    pub header_size : m'.header_size ≡ 16
    pub body_size : m'.body_size ≡ stated_size frame

  abbrev pub Decodes : List ℕ → Metadata B H → Decoded B H X → Type 0
  Decodes all m (DecodeStatus.wait_for_data, c, b, m', g) = Asks all c b × (m' ≡ m)
  Decodes all m (DecodeStatus.done, c, b, m', g) = Gives all m m' c b

  done-Decodes :
      (c : DubboCodec B H X) (all : List ℕ) (m : Metadata B H) (s : Machine B H X) (b : Buffer)
      (ctx : Context Buffer) (l : Leaves B H X all ProtocolState.done s b)
      → Took B H X ctx l.taken (16 + ctx.body_size)
      → (t : MessageMetadata H X × Metadata B H) → Second m t
      → Ends (Decodes all m) (decoded B H X c b ctx t)
  unfolding decoded to_metadata_with complete
  done-Decodes c all m s b ctx l k (g, m') same = returns (record {
    frame = l.taken;
    length-frame = omega (arith, k.count, k.body);
    rest = l.rest;
    holds = inl (refl, refl);
    origin = bytes-move_all B m'.origin_message ctx.origin_message ∙ rw (same, k.origin) refl;
    header_size = k.header;
    body_size = k.body;
  })

  finish_with-Decodes :
      (c : DubboCodec B H X) (all : List ℕ) (m : Metadata B H) (s : Machine B H X) (b : Buffer)
      (x : Option (Context Buffer)) (l : Leaves B H X all ProtocolState.done s b)
      → TakenAt B H X ProtocolState.done x l.taken
      → Ends (Decodes all m) (finish_with B H X x c m s b)
  unfolding finish_with
  finish_with-Decodes c all m s b none l k = absurd k
  finish_with-Decodes c all m s b (some ctx) l k =
      Ends-bind (to_metadata-Ends (bytes ctx.origin_message) s.metadata m)
        (done-Decodes c all m s b ctx l k)

  finish-Decodes :
      (c : DubboCodec B H X) (all : List ℕ) (m : Metadata B H)
      → c.decode_started ≡ true
      → (t : ProtocolState × Machine B H X × Buffer) → Finished B H X all t
      → Ends (Decodes all m) (finish B H X c m t)
  unfolding finish
  finish-Decodes c all m e (ProtocolState.wait_for_data, s, b) w = returns (
    record { taken = w.taken; holds = inr (e, s, refl, w.at); rest = w.rest; short = w.short },
    refl,
  )
  finish-Decodes c all m e (ProtocolState.done, s, b) l =
      finish_with-Decodes c all m s b s.context l l.at
  finish-Decodes c all m e (ProtocolState.stop_iteration, s, b) l = absurd l
  finish-Decodes c all m e (ProtocolState.on_decode_stream_header, s, b) l = absurd l
  finish-Decodes c all m e (ProtocolState.on_decode_stream_data, s, b) l = absurd l

  waiting-TakenAt :
      (state : ProtocolState) (x : Option (Context Buffer)) (taken : List ℕ)
      → WaitsAt B H X state x taken
      → TakenAt B H X state x taken
  waiting-TakenAt ProtocolState.on_decode_stream_header x taken w = w
  waiting-TakenAt ProtocolState.on_decode_stream_data (some ctx) taken w = w.0
  waiting-TakenAt ProtocolState.on_decode_stream_data none taken w = absurd w
  waiting-TakenAt ProtocolState.stop_iteration x taken w = absurd w
  waiting-TakenAt ProtocolState.wait_for_data x taken w = absurd w
  waiting-TakenAt ProtocolState.done x taken w = absurd w

  run_codec-Decodes :
      (c : DubboCodec B H X) (s : Machine B H X) (b : Buffer) (m : Metadata B H) (taken : List ℕ)
      → c.decode_started ≡ true
      → TakenAt B H X s.state s.context taken
      → Ends (Decodes (taken ++ bytes b) m) (run_codec B H X (some s) c b m)
  unfolding run_codec
  run_codec-Decodes c s b m taken e at =
      Ends-bind (run-Finished B H X s b taken at) (finish-Decodes c (taken ++ bytes b) m e)

  -- A codec that has taken the beginning `taken` of a message, as one between messages has taken
  -- nothing: decode comes back. When it asks for more, no whole message stands in what was taken and
  -- in the buffer, the metadata is as before, and the codec has taken more of it without loss. When
  -- it returns a message, that is one frame, sixteen bytes and the body that they state, the first of
  -- what was taken and the buffer; its bytes are behind those of the metadata, the rest is in the
  -- buffer, and the codec is between messages.
  pub decode-Decodes :
      (c : DubboCodec B H X) (b : Buffer) (m : Metadata B H) (taken : List ℕ)
      → Holds c taken
      → Ends (Decodes (taken ++ bytes b) m) (decode B H X c b m)
  unfolding decode start
  decode-Decodes c b m taken (inl (e, none_taken)) =
      rw (e, none_taken) (run_codec-Decodes (start B H X c) (new_machine B H X) b m [] refl refl)
  decode-Decodes c b m taken (inr (e, s, es, w)) =
      let all = taken ++ bytes b in
      subst (λ (k : DubboCodec B H X). Ends (Decodes all m) (run_codec B H X k.state_machine k b m))
        (sym (ap (λ (f : Bool). if f then c else start B H X c) e))
        (subst (λ (x : Option (Machine B H X)). Ends (Decodes all m) (run_codec B H X x c b m))
          (sym es) (run_codec-Decodes c s b m taken e (waiting-TakenAt s.state s.context taken w)))
