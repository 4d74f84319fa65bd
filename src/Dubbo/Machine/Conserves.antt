-- ===== src/Dubbo/Machine/Conserves.antt =====
-- The bytes that the state machine has taken, and those that it leaves in the buffer.
use meta_protocol_proxy.Base.{
  ℕ, zero, suc, ◌+◌, ◌≤◌, ◌<◌, ◌≡◌, ◌≢◌, refl, sym, ap, subst, ◌∙◌, ◌⊎◌, inl, inr, Bool, true,
  false, ltb, Option, none, some, List, [], ◌++◌, length, take, drop, Outcome, ◌>>=◌, Ends, returns,
  Ends-bind, Ends-if, arith, ltb→lt, ltb→le, append_assoc, take-append-drop, length-append,
  length-take, take-drop_append,
}
use meta_protocol_proxy.Buffer.{BufferApi, be_value}
use meta_protocol_proxy.Metadata.{HeaderMapApi}
use meta_protocol_proxy.Dubbo.Message.{HessianApi, MessageMetadata, Context}
use meta_protocol_proxy.Dubbo.State.{ProtocolState}
use meta_protocol_proxy.Dubbo.Protocol.Headers.{
  IsContext, HeaderRead, decode_header-Ends, DataRead, decode_data-Ends,
}
use meta_protocol_proxy.Dubbo.Machine.{
  Machine, is_heartbeat_type, after_header, on_decode_stream_header, after_data, data_with,
  on_decode_stream_data, by_state, handle_state, continue, round, run_loop, run,
}

-- The body size that the header in front of a sequence of bytes says.
abbrev pub stated_size : List ℕ → ℕ
stated_size bytes = be_value (take 4 (drop 12 bytes))

-- No whole message stands in front.
abbrev pub Short : List ℕ → Type 0
Short all = (length all < 16) ⊎ (length all < 16 + stated_size all)

module _ (B : BufferApi) (H : HeaderMapApi) (X : HessianApi) where
  open B use {Buffer, bytes, empty, size, peek_be, move}

  -- The context has taken `taken`, of which `n` bytes are the header and what is read of the body.
  pub record Took (ctx : Context Buffer) (taken : List ℕ) (n : ℕ) : Type 0 where
    pub header : ctx.header_size ≡ 16
    pub body : ctx.body_size ≡ stated_size taken
    pub origin : bytes ctx.origin_message ≡ taken
    pub count : length taken ≡ n

  recount :
      {ctx : Context Buffer} {taken : List ℕ} {n k : ℕ}
      → Took ctx taken n
      → n ≡ k
      → Took ctx taken k
  recount t e = record { header = t.header; body = t.body; origin = t.origin; count = t.count ∙ e }

  -- What the machine has taken when it is in a state.
  abbrev pub TakenAt : ProtocolState → Option (Context Buffer) → List ℕ → Type 0
  TakenAt ProtocolState.on_decode_stream_header c taken = taken ≡ []
  TakenAt ProtocolState.on_decode_stream_data (some ctx) taken = Took ctx taken 16
  TakenAt ProtocolState.done (some ctx) taken = Took ctx taken (16 + ctx.body_size)
  TakenAt _ _ _ = ⊥

  -- The same, of a machine that waits: a body that it waits for has a byte.
  abbrev pub WaitsAt : ProtocolState → Option (Context Buffer) → List ℕ → Type 0
  WaitsAt ProtocolState.on_decode_stream_header c taken = taken ≡ []
  WaitsAt ProtocolState.on_decode_stream_data (some ctx) taken =
      Took ctx taken 16 × (0 < ctx.body_size)
  WaitsAt _ _ _ = ⊥

  pub record Leaves (all : List ℕ) (state : ProtocolState) (s : Machine B H X) (b : Buffer)
      : Type 0 where
    pub taken : List ℕ
    pub at : TakenAt state s.context taken
    pub rest : taken ++ bytes b ≡ all

  pub record Waits (all : List ℕ) (s : Machine B H X) (b : Buffer) : Type 0 where
    pub taken : List ℕ
    pub at : WaitsAt s.state s.context taken
    pub rest : taken ++ bytes b ≡ all
    pub short : Short all

  -- Rounds of the loop. Two are enough from the header, one from the body, none at the end.
  abbrev rounds : ProtocolState → ℕ
  rounds ProtocolState.on_decode_stream_header = 2
  rounds ProtocolState.on_decode_stream_data = 1
  rounds _ = 0

  -- After a step: all bytes are in what was taken and in the buffer, and it has come further.
  abbrev pub Keeps : ℕ → List ℕ → ProtocolState × Machine B H X × Buffer → Type 0
  Keeps k all (ProtocolState.wait_for_data, s, b) = Waits all s b
  Keeps k all (next, s, b) = Leaves all next s b × (rounds next < k)

  -- Taking `n` bytes more.
  took_more :
      (s : Machine B H X) (ctx : Context Buffer) (b : Buffer) (taken : List ℕ) (n : ℕ)
      → n ≤ length (bytes b)
      → bytes ctx.origin_message ≡ taken
      → (bytes (move ctx.origin_message b n).0 ≡ taken ++ take n (bytes b))
        × ((taken ++ take n (bytes b)) ++ bytes (move ctx.origin_message b n).1 ≡ taken ++ bytes b)
  took_more s ctx b taken n le e = (
    B.bytes-move_to ctx.origin_message b n le ∙ rw e refl,
    rw (B.bytes-move_from ctx.origin_message b n le) (
        append_assoc taken (take n (bytes b)) (drop n (bytes b))
        ∙ ap (λ (l : List ℕ). taken ++ l) (take-append-drop n (bytes b))),
  )

  pub stated_size-append :
      (xs ys : List ℕ) → 16 ≤ length xs → stated_size (xs ++ ys) ≡ stated_size xs
  stated_size-append xs ys le = ap be_value (take-drop_append 4 12 xs ys (omega arith))

  stated_size-take :
      (n : ℕ) (xs : List ℕ) → 16 ≤ n → n ≤ length xs → stated_size (take n xs) ≡ stated_size xs
  stated_size-take n xs le le' =
      sym (stated_size-append (take n xs) (drop n xs) (omega (arith, length-take n xs)))
      ∙ ap stated_size (take-append-drop n xs)

  -- A header read from a buffer: its sizes, and the bytes taken by it.
  module _ (s : Machine B H X) (ctx : Context Buffer) (b : Buffer) (c : IsContext B H X b ctx) where
    long : 16 ≤ length (bytes b)
    long = omega (arith, c.whole, B.size-bytes b)

    stated : ctx.body_size ≡ stated_size (bytes b)
    stated = c.body ∙ B.peek_be-bytes 4 12 b long

    takes_frame :
        (n : ℕ)
        → 16 ≤ n
        → n ≤ length (bytes b)
        → (t : List ℕ) × Took (record ctx { origin_message = (move ctx.origin_message b n).0 }) t n
          × (t ++ bytes (move ctx.origin_message b n).1 ≡ bytes b)
    takes_frame n lo hi =
        let (o, r) =
          took_more s ctx b [] n hi (ap (λ (x : Buffer). bytes x) c.fresh ∙ B.bytes-empty) in
        (
          take n (bytes b),
          record {
            header = c.header;
            body = stated ∙ sym (stated_size-take n (bytes b) lo hi);
            origin = o;
            count = omega (arith, length-take n (bytes b), hi);
          },
          r,
        )

  after_header-Keeps :
      (s : Machine B H X) (b : Buffer)
      → s.state ≡ ProtocolState.on_decode_stream_header
      → (t : MessageMetadata H X × Option (Context Buffer)) → HeaderRead B H X b t
      → Ends (Keeps 2 (bytes b)) (after_header B H X s b t)
  unfolding after_header
  after_header-Keeps s b e (m, none) short = returns (record {
    taken = [];
    at = rw e refl;
    rest = refl;
    short = inl (omega (arith, short, B.size-bytes b));
  })
  after_header-Keeps s b e (m, some ctx) c =
      Ends-if {b = is_heartbeat_type B H X m.message_type}
        (λ _.
          Ends-if {b = ltb (size b) (ctx.header_size + ctx.body_size)}
            (λ lt. returns (record {
              taken = [];
              at = rw e refl;
              rest = refl;
              short = inr (
                  omega (
                    arith,
                    ltb→lt (size b) (ctx.header_size + ctx.body_size) lt,
                    c.header,
                    B.size-bytes b,
                    stated s ctx b c,
                  ));
            }))
            (λ ge.
              let n = ctx.header_size + ctx.body_size in
              let (t, k, r) =
                takes_frame s ctx b c n (omega (arith, c.header))
                  (omega (arith, ltb→le (size b) n ge, B.size-bytes b)) in
              returns (
                record { taken = t; at = recount k (omega (arith, c.header)); rest = r },
                omega arith,
              )))
        (λ _.
          let (t, k, r) =
            takes_frame s ctx b c ctx.header_size (omega (arith, c.header))
              (omega (arith, c.whole, c.header, B.size-bytes b)) in
          returns (record { taken = t; at = recount k c.header; rest = r }, omega arith))

  after_data-Keeps :
      (s : Machine B H X) (ctx : Context Buffer) (b : Buffer) (taken : List ℕ)
      → s.state ≡ ProtocolState.on_decode_stream_data
      → s.context ≡ some ctx
      → Took ctx taken 16
      → (t : MessageMetadata H X × Bool) → DataRead B H X b ctx t
      → Ends (Keeps 1 (taken ++ bytes b)) (after_data B H X s ctx b t)
  unfolding after_data
  after_data-Keeps s ctx b taken e ec k (m, false) short = returns (record {
    taken = taken;
    at = rw (e, ec) (k, omega (arith, short));
    rest = refl;
    short = inr (
        omega (
          arith,
          short,
          k.count,
          k.body,
          B.size-bytes b,
          length-append taken (bytes b),
          stated_size-append taken (bytes b) (omega (arith, k.count)),
        ));
  })
  after_data-Keeps s ctx b taken e ec k (m, true) whole =
      let n = ctx.body_size in
      let le : n ≤ length (bytes b) = omega (arith, whole, B.size-bytes b) in
      let (o, r) = took_more s ctx b taken n le k.origin in
      returns (
        record {
          taken = taken ++ take n (bytes b);
          at = record {
            header = k.header;
            body =
                k.body ∙ sym (stated_size-append taken (take n (bytes b)) (omega (arith, k.count)));
            origin = o;
            count =
                length-append taken (take n (bytes b))
                ∙ omega (arith, k.count, length-take n (bytes b), le);
          };
          rest = r;
        },
        omega arith,
      )

  handle_state-Keeps :
      (state : ProtocolState) (s : Machine B H X) (c : Option (Context Buffer)) (b : Buffer)
      (taken : List ℕ)
      → s.state ≡ state
      → s.context ≡ c
      → TakenAt state c taken
      → state ≢ ProtocolState.done
      → Ends (Keeps (rounds state) (taken ++ bytes b)) (by_state B H X state s b)
  unfolding by_state on_decode_stream_header on_decode_stream_data data_with
  handle_state-Keeps ProtocolState.on_decode_stream_header s c b taken e ec at go =
      rw at (Ends-bind (decode_header-Ends B H X b s.metadata) (after_header-Keeps s b e))
  handle_state-Keeps ProtocolState.on_decode_stream_data s (some ctx) b taken e ec at go =
      subst (λ o. Ends (Keeps 1 (taken ++ bytes b)) (data_with B H X o s b)) (sym ec)
        (Ends-bind (decode_data-Ends B H X b ctx s.metadata)
          (after_data-Keeps s ctx b taken e ec at))
  handle_state-Keeps ProtocolState.on_decode_stream_data s none b taken e ec at go = absurd at
  handle_state-Keeps ProtocolState.stop_iteration s c b taken e ec at go = absurd at
  handle_state-Keeps ProtocolState.wait_for_data s c b taken e ec at go = absurd at
  handle_state-Keeps ProtocolState.done s c b taken e ec at go = absurd (go refl)

  -- What the loop leaves: it waits, or is done.
  abbrev pub Finished : List ℕ → ProtocolState × Machine B H X × Buffer → Type 0
  Finished all (ProtocolState.wait_for_data, s, b) = Waits all s b
  Finished all (ProtocolState.done, s, b) = Leaves all ProtocolState.done s b
  Finished all _ = ⊥

  module _ (f : ℕ)
      (again : Machine B H X → Buffer → Outcome (ProtocolState × Machine B H X × Buffer))
      (rest : (s : Machine B H X) (b : Buffer) (taken : List ℕ)
        → rounds s.state < f
        → TakenAt s.state s.context taken
        → Ends (Finished (taken ++ bytes b)) (again s b)) where
    again_from :
        (next : ProtocolState) (s : Machine B H X) (b : Buffer) (all : List ℕ)
        → Leaves all next s b
        → rounds next < f
        → Ends (Finished all) (again (record s { state = next }) b)
    again_from next s b all l lt =
        subst (λ (xs : List ℕ). Ends (Finished xs) (again (record s { state = next }) b)) l.rest
          (rest (record s { state = next }) b l.taken lt l.at)

    continue-Finished :
        (k : ℕ) (all : List ℕ)
        → k ≤ f
        → (t : ProtocolState × Machine B H X × Buffer) → Keeps k all t
        → Ends (Finished all) (continue B H X again t)
    unfolding continue
    continue-Finished k all le (ProtocolState.wait_for_data, s, b) w = returns w
    continue-Finished k all le (ProtocolState.done, s, b) (l, lt) =
        again_from _ s b all l (omega arith)
    continue-Finished k all le (ProtocolState.on_decode_stream_data, s, b) (l, lt) =
        again_from _ s b all l (omega arith)
    continue-Finished k all le (ProtocolState.on_decode_stream_header, s, b) (l, lt) =
        again_from _ s b all l (omega arith)
    continue-Finished k all le (ProtocolState.stop_iteration, s, b) (l, lt) = absurd l.at

    stepped :
        (state : ProtocolState) (s : Machine B H X) (b : Buffer) (taken : List ℕ)
        → s.state ≡ state
        → TakenAt state s.context taken
        → rounds state ≤ f
        → state ≢ ProtocolState.done
        → Ends (Finished (taken ++ bytes b)) (handle_state B H X s b >>= continue B H X again)
    unfolding handle_state
    stepped state s b taken e at le go =
        Ends-bind
          (subst
            (λ (q : ProtocolState).
              Ends (Keeps (rounds state) (taken ++ bytes b)) (by_state B H X q s b))
            (sym e) (handle_state-Keeps state s s.context b taken e refl at go))
          (continue-Finished (rounds state) (taken ++ bytes b) le)

    round-Finished :
        (state : ProtocolState) (s : Machine B H X) (b : Buffer) (taken : List ℕ)
        → s.state ≡ state
        → TakenAt state s.context taken
        → rounds state ≤ f
        → Ends (Finished (taken ++ bytes b)) (round B H X again state s b)
    unfolding round
    round-Finished ProtocolState.done s b taken e at le =
        returns (record { taken = taken; at = at; rest = refl })
    round-Finished ProtocolState.on_decode_stream_header s b taken e at le =
        stepped _ s b taken e at le (λ (q : _ ≡ ProtocolState.done). cc)
    round-Finished ProtocolState.on_decode_stream_data s b taken e at le =
        stepped _ s b taken e at le (λ (q : _ ≡ ProtocolState.done). cc)
    round-Finished ProtocolState.stop_iteration s b taken e at le = absurd at
    round-Finished ProtocolState.wait_for_data s b taken e at le = absurd at

  run_loop-Finished :
      (fuel : ℕ) (s : Machine B H X) (b : Buffer) (taken : List ℕ)
      → rounds s.state < fuel
      → TakenAt s.state s.context taken
      → Ends (Finished (taken ++ bytes b)) (run_loop B H X fuel s b)
  unfolding run_loop
  run_loop-Finished zero s b taken lt at = absurd (omega arith)
  run_loop-Finished (suc f) s b taken lt at =
      round-Finished f (run_loop B H X f) (run_loop-Finished f) s.state s b taken refl at
        (omega arith)

  rounds_few : (q : ProtocolState) → rounds q < 3
  rounds_few ProtocolState.stop_iteration = omega arith
  rounds_few ProtocolState.wait_for_data = omega arith
  rounds_few ProtocolState.on_decode_stream_header = omega arith
  rounds_few ProtocolState.on_decode_stream_data = omega arith
  rounds_few ProtocolState.done = omega arith

  pub run-Finished :
      (s : Machine B H X) (b : Buffer) (taken : List ℕ)
      → TakenAt s.state s.context taken
      → Ends (Finished (taken ++ bytes b)) (run B H X s b)
  unfolding run
  run-Finished s b taken at = run_loop-Finished 3 s b taken (rounds_few s.state) at
