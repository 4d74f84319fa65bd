-- ===== src/Dubbo/Codec/Dispatch.antt =====
-- DubboCodec under the dispatch loop of the connection: the codec of a decoder is always one that
-- has taken the beginning of a message.
use meta_protocol_proxy.Base.{
  ℕ, ◌<◌, ◌≡◌, ◌≢◌, refl, sym, ap, subst, ◌∙◌, inl, inr, Option, none, some, List, [], ◌++◌, length,
  Outcome, ok, throws, panics, stuck, Ends, returns, raises, crashes, arith, length-append,
}
use meta_protocol_proxy.Codec.{DecodeStatus}
use meta_protocol_proxy.Buffer.{BufferApi}
use meta_protocol_proxy.Metadata.{HeaderMapApi, Metadata}
use meta_protocol_proxy.Decoder.{CodecApi, Callbacks, Run, dispatch_loop}
use meta_protocol_proxy.Decoder.Dispatch.{Progresses, dispatch_loop_ends}
use meta_protocol_proxy.Dubbo.Message.{HessianApi, Context}
use meta_protocol_proxy.Dubbo.State.{ProtocolState}
use meta_protocol_proxy.Dubbo.Machine.Conserves.{stated_size, stated_size-append, WaitsAt}
use meta_protocol_proxy.Dubbo.Codec.{DubboCodec, Decoded, decode}
use meta_protocol_proxy.Dubbo.Codec.Frames.{Holds, Gives, Decodes, decode-Decodes}

module _ (B : BufferApi) (H : HeaderMapApi) (X : HessianApi) where
  open B use {Buffer, bytes, size}

  -- A codec with what it has taken.
  pub record Holder : Type 0 where
    pub codec : DubboCodec B H X
    pub taken : List ℕ
    pub holds : Holds B H X codec taken

  abbrev Result : Type 0
  Result = DecodeStatus × Holder × Buffer × Metadata B H

  held_value :
      (all : List ℕ) (m : Metadata B H) (t : Decoded B H X) → Decodes B H X all m t → Result
  held_value all m (DecodeStatus.wait_for_data, c, b, m', g) (a, same) =
      (DecodeStatus.wait_for_data, record { codec = c; taken = a.taken; holds = a.holds }, b, m')
  held_value all m (DecodeStatus.done, c, b, m', g) d =
      (DecodeStatus.done, record { codec = c; taken = []; holds = d.holds }, b, m')

  held :
      (all : List ℕ) (m : Metadata B H) (o : Outcome (Decoded B H X))
      → Ends (Decodes B H X all m) o
      → Outcome Result
  unfolding held_value
  held all m (ok t) (returns p) = ok (held_value all m t p)
  held all m (throws x) raises = throws x
  held all m panics crashes = panics
  held all m stuck p = elim p [ ]

  -- The call with the codec of the holder.
  unfoldable pub decode_held : Holder → Buffer → Metadata B H → Outcome Result
  unfolding held
  decode_held k b m =
      held (k.taken ++ bytes b) m (decode B H X k.codec b m)
        (decode-Decodes B H X k.codec b m k.taken k.holds)

  abbrev pub dubbo_api : CodecApi B H
  dubbo_api = record { State = Holder; decode = decode_held }

  -- A frame that is given is longer than what was taken of it.
  longer :
      (all : List ℕ) (m m' : Metadata B H) (c c' : DubboCodec B H X) (b b' : Buffer)
      (taken : List ℕ)
      → Holds B H X c taken
      → taken ++ bytes b ≡ all
      → (g : Gives B H X all m m' c' b') → length taken < length g.frame
  longer all m m' c c' b b' taken (inl (_, e)) front g = rw e (omega (arith, g.length-frame))
  longer all m m' c c' b b' taken (inr (_, s, _, w)) front g = begun s.state s.context w
    where
      begun :
          (q : ProtocolState) (x : Option (Context Buffer))
          → WaitsAt B H X q x taken
          → length taken < length g.frame
      begun ProtocolState.on_decode_stream_header x e = rw e (omega (arith, g.length-frame))
      begun ProtocolState.on_decode_stream_data (some ctx) (t, some_body) =
          let stated : stated_size g.frame ≡ stated_size taken =
            sym (stated_size-append B H X g.frame (bytes b') (omega (arith, g.length-frame)))
            ∙ ap stated_size (g.rest ∙ sym front)
            ∙ stated_size-append B H X taken (bytes b) (omega (arith, t.count)) in
          omega (arith, g.length-frame, t.count, t.body, some_body, stated)
      begun ProtocolState.on_decode_stream_data none e = absurd e
      begun ProtocolState.stop_iteration x e = absurd e
      begun ProtocolState.wait_for_data x e = absurd e
      begun ProtocolState.done x e = absurd e

  shorter :
      (k : Holder) (b b' : Buffer) (m m' : Metadata B H) (c' : DubboCodec B H X)
      → Gives B H X (k.taken ++ bytes b) m m' c' b'
      → size b' < size b
  shorter k b b' m m' c' g = omega (
    arith,
    longer (k.taken ++ bytes b) m m' k.codec c' b b' k.taken k.holds refl g,
    B.size-bytes b,
    B.size-bytes b',
    ap (λ (l : List ℕ). length l) g.rest,
    length-append k.taken (bytes b),
    length-append g.frame (bytes b'),
  )

  takes_value :
      (k k' : Holder) (b b' : Buffer) (m m' : Metadata B H) (t : Decoded B H X)
      (d : Decodes B H X (k.taken ++ bytes b) m t)
      → held_value (k.taken ++ bytes b) m t d ≡ (DecodeStatus.done, k', b', m')
      → size b' < size b
  unfolding held_value
  takes_value k k' b b' m m' (DecodeStatus.wait_for_data, c, b₁, m₁, g) d e = cc
  takes_value k k' b b' m m' (DecodeStatus.done, c, b₁, m₁, g) d e =
      subst (λ (x : Buffer). size x < size b) (ap (λ (r : Result). r.2) e) (shorter k b b₁ m m₁ c d)

  takes :
      (k k' : Holder) (b b' : Buffer) (m m' : Metadata B H) (o : Outcome (Decoded B H X))
      (p : Ends (Decodes B H X (k.taken ++ bytes b) m) o)
      → held (k.taken ++ bytes b) m o p ≡ ok (DecodeStatus.done, k', b', m')
      → size b' < size b
  unfolding held
  takes k k' b b' m m' (ok t) (returns d) e = takes_value k k' b b' m m' t d cc
  takes k k' b b' m m' (throws x) raises e = cc
  takes k k' b b' m m' panics crashes e = cc
  takes k k' b b' m m' stuck p e = elim p [ ]

  comes_back :
      (all : List ℕ) (m : Metadata B H) (o : Outcome (Decoded B H X))
      (p : Ends (Decodes B H X all m) o)
      → held all m o p ≢ stuck
  unfolding held
  comes_back all m (ok t) (returns d) = λ (e : ok _ ≡ stuck). cc
  comes_back all m (throws x) raises = λ (e : throws x ≡ stuck). cc
  comes_back all m panics crashes = λ (e : panics ≡ stuck). cc
  comes_back all m stuck p = elim p [ ]

  module _ {W : Type 0} (C : Callbacks B H W)
      (handles : (h : C.Handler) (m : Metadata B H) (w : W) → C.on_message_decoded h m [] w ≢ stuck)
      (beats : (m : Metadata B H) (w : W) → C.on_heartbeat m w ≢ stuck) where
    progresses : Progresses B H dubbo_api C
    unfolding decode_held
    progresses = record {
      takes = λ k k' b b' m m' e.
          takes k k' b b' m m' (decode B H X k.codec b m)
            (decode-Decodes B H X k.codec b m k.taken k.holds) e;
      decodes = λ k b m.
          comes_back (k.taken ++ bytes b) m (decode B H X k.codec b m)
            (decode-Decodes B H X k.codec b m k.taken k.holds);
      handles = handles;
      beats = beats;
    }

    -- When the callbacks come back, the dispatch loop of a connection that speaks Dubbo ends, on any
    -- bytes whatever: one round more than the buffer has bytes is enough.
    pub dubbo_dispatch_ends :
        (fuel : ℕ) (r : Run B H dubbo_api C)
        → size r.buffer < fuel
        → dispatch_loop B H dubbo_api C fuel r ≢ stuck
    dubbo_dispatch_ends fuel r lt = dispatch_loop_ends B H dubbo_api C progresses fuel r lt
