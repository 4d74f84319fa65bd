-- ===== src/Thrift/Machine/Lasting.antt =====
-- A handler on a buffer with more bytes behind it.
use meta_protocol_proxy.Base.{
  ℕ, ◌≡◌, refl, false, Option, none, some, List, [], ◌∷◌, if◌then◌else◌, Outcome, ok, throws,
  panics, stuck, ◌>>=◌,
}
use meta_protocol_proxy.Buffer.{BufferApi}
use meta_protocol_proxy.Thrift.Protocol.{FieldType, MessageMetadata, ProtocolApi, Reader, Writer}
use meta_protocol_proxy.Thrift.State.{ProtocolState, is_waiting, Frame}
use meta_protocol_proxy.Thrift.Machine.{
  Machine, Step, on_value, reading, writing, go, push, popped, pop_return_state, copied,
  handle_value,
}
use meta_protocol_proxy.Thrift.Machine.Ready.{Returns, return_states, Ready-busy}

module _ (B : BufferApi) (P : ProtocolApi B) (more : List ℕ) where
  open B use {Buffer, add}
  open P use {State}

  abbrev pub grown : Machine B P → Machine B P
  grown w = record w { buffer = add w.buffer more }

  -- A read on a buffer and the same read with more behind it: a value and an exception are the same,
  -- and where there was not enough nothing has changed.
  abbrev pub ReadAlike :
      {V : Type 0}
      → State
      → Buffer
      → Outcome (Option V × State × Buffer)
      → Outcome (Option V × State × Buffer)
      → Type 0
  ReadAlike p b (ok (some v, p', b')) y = y ≡ ok (some v, p', add b' more)
  ReadAlike p b (ok (none, p', b')) y = (p' ≡ p) × (b' ≡ b)
  ReadAlike p b (throws e) y = y ≡ throws e
  ReadAlike p b panics y = y ≡ panics
  ReadAlike p b stuck y = y ≡ stuck

  abbrev pub Lasts : {V : Type 0} → Reader B State V → Type 0
  Lasts r = (p : State) (b : Buffer) → ReadAlike p b (r p b) (r p (add b more))

  -- Reads that look at what they take only.
  pub record Incremental : Type 0 where
    pub message_begin : (m : MessageMetadata P.Others) → Lasts (P.read_message_begin m)
    pub message_end : Lasts P.read_message_end
    pub struct_begin : Lasts P.read_struct_begin
    pub struct_end : Lasts P.read_struct_end
    pub field_begin : Lasts P.read_field_begin
    pub field_end : Lasts P.read_field_end
    pub map_begin : Lasts P.read_map_begin
    pub map_end : Lasts P.read_map_end
    pub list_begin : Lasts P.read_list_begin
    pub list_end : Lasts P.read_list_end
    pub set_begin : Lasts P.read_set_begin
    pub set_end : Lasts P.read_set_end
    pub bool : Lasts P.read_bool
    pub byte : Lasts P.read_byte
    pub int16 : Lasts P.read_int16
    pub int32 : Lasts P.read_int32
    pub int64 : Lasts P.read_int64
    pub double : Lasts P.read_double
    pub string : Lasts P.read_string

  -- Two steps that move, or fail, alike.
  abbrev pub Alike : Step B P → Step B P → Type 0
  Alike (ok (s, w)) y = (is_waiting s ≡ false) × (y ≡ ok (s, grown w))
  Alike (throws e) y = y ≡ throws e
  Alike panics y = y ≡ panics
  Alike stuck y = y ≡ stuck

  abbrev pub Stays : Machine B P → ProtocolState × Machine B P → Step B P → Type 0
  Stays w (s, w') y = if is_waiting s then w' ≡ w else (y ≡ ok (s, grown w'))

  -- Two steps of the machine `w`, where the first may also wait, and leaves `w` as it is.
  abbrev pub Extends : Machine B P → Step B P → Step B P → Type 0
  Extends w (ok t) y = Stays w t y
  Extends w (throws e) y = y ≡ throws e
  Extends w panics y = y ≡ panics
  Extends w stuck y = y ≡ stuck

  pub Alike-Extends : (w : Machine B P) (x y : Step B P) → Alike x y → Extends w x y
  Alike-Extends w (ok (s, w')) y a = rw a.0 a.1
  Alike-Extends w (throws e) y a = a
  Alike-Extends w panics y a = a
  Alike-Extends w stuck y a = a

  pub reading-Extends :
      {V : Type 0} (r : Reader B State V) (next next' : V → Machine B P → Step B P)
      (w : Machine B P)
      → Lasts r
      → ((v : V) (p : State) (b : Buffer)
          → Alike
              (next v (record w { protocol = p; buffer = b }))
              (next' v (record w { protocol = p; buffer = add b more })))
      → Extends w (reading B P r next w) (reading B P r next' (grown w))
  unfolding reading
  reading-Extends {V} r next next' w lasts alike =
      by_read (r w.protocol w.buffer) (r w.protocol (add w.buffer more)) (lasts w.protocol w.buffer)
    where
      go_on : (V → Machine B P → Step B P) → Machine B P → Option V × State × Buffer → Step B P
      go_on next w t = on_value B P next t.0 (record w { protocol = t.1; buffer = t.2 })

      by_read :
          (x y : Outcome (Option V × State × Buffer))
          → ReadAlike w.protocol w.buffer x y
          → Extends w (x >>= go_on next w) (y >>= go_on next' (grown w))
      by_read (ok (some v, p, b)) y e = rw e (Alike-Extends w _ _ (alike v p b))
      by_read (ok (none, p, b)) y (ep, eb) = λ i. record w { protocol = ep i; buffer = eb i }
      by_read (throws x) y e = rw e refl
      by_read panics y e = rw e refl
      by_read stuck y e = rw e refl

  pub writing-Alike :
      {V : Type 0} (wr : Writer B State V) (v : V) (next : Machine B P → Step B P) (w : Machine B P)
      → ((p : State) (o : Buffer)
          → Alike
              (next (record w { protocol = p; origin_message = o }))
              (next (grown (record w { protocol = p; origin_message = o }))))
      → Alike (writing B P wr v next w) (writing B P wr v next (grown w))
  unfolding writing
  writing-Alike wr v next w alike = by_write (wr v w.protocol w.origin_message)
    where
      by_write :
          (x : Outcome (State × Buffer))
          → Alike
              (x >>= λ (t : State × Buffer).
                next (record w { protocol = t.0; origin_message = t.1 }))
              (x >>= λ (t : State × Buffer).
                next (record (grown w) { protocol = t.0; origin_message = t.1 }))
      by_write (ok (p, o)) = alike p o
      by_write (throws e) = refl
      by_write panics = refl
      by_write stuck = refl

  pub pop-Alike :
      (w : Machine B P)
      → Returns (return_states w.stack)
      → Alike (pop_return_state B P w) (pop_return_state B P (grown w))
  unfolding pop_return_state
  pop-Alike w ready = by_stack w.stack ready
    where
      by_stack :
          (s : List Frame)
          → Returns (return_states s)
          → Alike (popped B P s w) (popped B P s (grown w))
      by_stack [] ready = absurd ready
      by_stack (f ∷ s) ready = (Ready-busy f.return_state s ready, refl)

  -- A read, a write and the next state.
  pub copied-Extends :
      {V : Type 0} (r : Reader B State V) (wr : Writer B State V) (s : ProtocolState)
      (w : Machine B P)
      → Lasts r
      → is_waiting s ≡ false
      → Extends w (copied B P r wr s w) (copied B P r wr s (grown w))
  copied-Extends r wr s w lasts busy = reading-Extends r _ _ w lasts (λ v p b.
      writing-Alike wr v (go B P s) (record w { protocol = p; buffer = b }) (λ p o. (busy, refl)))

  -- The end of a container: a read, a write and a return.
  pub ends-Extends :
      {V : Type 0} (r : Reader B State V) (wr : Writer B State V) (w : Machine B P)
      → Lasts r
      → Returns (return_states w.stack)
      → Extends w
          (reading B P r (λ v. writing B P wr v (pop_return_state B P)) w)
          (reading B P r (λ v. writing B P wr v (pop_return_state B P)) (grown w))
  ends-Extends r wr w lasts ready = reading-Extends r _ _ w lasts (λ v p b.
      writing-Alike wr v _ (record w { protocol = p; buffer = b })
        (λ p o. pop-Alike (record w { protocol = p; buffer = b; origin_message = o }) ready))

  -- The begin of a container: a read, a frame, a write and the next state.
  pub begins-Extends :
      {V : Type 0} (r : Reader B State V) (wr : Writer B State V) (f : V → Frame)
      (s : ProtocolState) (w : Machine B P)
      → Lasts r
      → is_waiting s ≡ false
      → Extends w
          (reading B P r (λ v w. writing B P wr v (go B P s) (push B P (f v) w)) w)
          (reading B P r (λ v w. writing B P wr v (go B P s) (push B P (f v) w)) (grown w))
  begins-Extends r wr f s w lasts busy = reading-Extends r _ _ w lasts (λ v p b.
      writing-Alike wr v (go B P s) (record w { protocol = p; buffer = b; stack = f v ∷ w.stack })
        (λ p o. (busy, refl)))

  module _ (h : Incremental) where
    pub handle_value-Extends :
        (t : FieldType) (s : ProtocolState) (w : Machine B P)
        → is_waiting s ≡ false
        → Extends w (handle_value B P t s w) (handle_value B P t s (grown w))
    unfolding handle_value
    handle_value-Extends FieldType.bool s w busy = copied-Extends _ _ s w h.bool busy
    handle_value-Extends FieldType.byte s w busy = copied-Extends _ _ s w h.byte busy
    handle_value-Extends FieldType.i16 s w busy = copied-Extends _ _ s w h.int16 busy
    handle_value-Extends FieldType.i32 s w busy = copied-Extends _ _ s w h.int32 busy
    handle_value-Extends FieldType.i64 s w busy = copied-Extends _ _ s w h.int64 busy
    handle_value-Extends FieldType.double s w busy = copied-Extends _ _ s w h.double busy
    handle_value-Extends FieldType.string s w busy = copied-Extends _ _ s w h.string busy
    handle_value-Extends FieldType.struct s w busy = refl
    handle_value-Extends FieldType.map s w busy = refl
    handle_value-Extends FieldType.list s w busy = refl
    handle_value-Extends FieldType.set s w busy = refl
    handle_value-Extends FieldType.stop s w busy = refl
    handle_value-Extends (FieldType.unknown k) s w busy = refl
