-- ===== src/Thrift/Machine/Steps.antt =====
-- What a read, a write, a return and a value do to the machine, over the laws of the protocol.
use meta_protocol_proxy.Base.{
  ℕ, ◌+◌, ◌*◌, ◌≤◌, ◌<◌, ◌≡◌, refl, ◌⊎◌, inl, inr, false, Option, none, some, List, [], ◌∷◌, length,
  AnyValue, Safely, gives, fails, Safely-bind, arith,
}
use meta_protocol_proxy.Buffer.{BufferApi}
use meta_protocol_proxy.Thrift.Protocol.{FieldType, MessageMetadata, ProtocolApi, Reader, Writer}
use meta_protocol_proxy.Thrift.State.{ProtocolState, is_done, Frame}
use meta_protocol_proxy.Thrift.Machine.{
  Machine, Step, on_value, reading, writing, popped, pop_return_state, copied, handle_value,
}
use meta_protocol_proxy.Thrift.Machine.Ready.{Returns, Ready, return_states, rank, rank_le}

module _ (B : BufferApi) (P : ProtocolApi B) where
  open B use {Buffer, size}
  open P use {State}

  -- A read that leaves no more data than there is.
  abbrev pub Keeps : {V : Type 0} → Reader B State V → Type 0
  Keeps {V} r =
      (p : State) (b : Buffer)
      → Safely (λ (t : Option V × State × Buffer). size t.2 ≤ size b) (r p b)

  abbrev pub Shrinks : {V : Type 0} → Option V → ℕ → ℕ → Type 0
  Shrinks none rest all = rest ≤ all
  Shrinks (some v) rest all = rest < all

  -- A read that takes a byte at least when it succeeds.
  abbrev pub Takes : {V : Type 0} → Reader B State V → Type 0
  Takes {V} r =
      (p : State) (b : Buffer)
      → Safely (λ (t : Option V × State × Buffer). Shrinks t.0 (size t.2) (size b)) (r p b)

  abbrev pub Writes : {V : Type 0} → Writer B State V → Type 0
  Writes {V} wr = (v : V) (p : State) (b : Buffer) → Safely AnyValue (wr v p b)

  -- Reads and writes that return or throw, where a field, a container and a value take a byte.
  pub record Behaves : Type 0 where
    pub message_begin : (m : MessageMetadata P.Others) → Keeps (P.read_message_begin m)
    pub message_end : Keeps P.read_message_end
    pub struct_begin : Keeps P.read_struct_begin
    pub struct_end : Keeps P.read_struct_end
    pub field_begin : Takes P.read_field_begin
    pub field_end : Keeps P.read_field_end
    pub map_begin : Takes P.read_map_begin
    pub map_end : Keeps P.read_map_end
    pub list_begin : Takes P.read_list_begin
    pub list_end : Keeps P.read_list_end
    pub set_begin : Takes P.read_set_begin
    pub set_end : Keeps P.read_set_end
    pub bool : Takes P.read_bool
    pub byte : Takes P.read_byte
    pub int16 : Takes P.read_int16
    pub int32 : Takes P.read_int32
    pub int64 : Takes P.read_int64
    pub double : Takes P.read_double
    pub string : Takes P.read_string
    pub writes_message_begin : Writes P.write_message_begin
    pub writes_message_end : Writes P.write_message_end
    pub writes_struct_begin : Writes P.write_struct_begin
    pub writes_struct_end : Writes P.write_struct_end
    pub writes_field_begin : Writes P.write_field_begin
    pub writes_field_end : Writes P.write_field_end
    pub writes_map_begin : Writes P.write_map_begin
    pub writes_map_end : Writes P.write_map_end
    pub writes_list_begin : Writes P.write_list_begin
    pub writes_list_end : Writes P.write_list_end
    pub writes_set_begin : Writes P.write_set_begin
    pub writes_set_end : Writes P.write_set_end
    pub writes_bool : Writes P.write_bool
    pub writes_byte : Writes P.write_byte
    pub writes_int16 : Writes P.write_int16
    pub writes_int32 : Writes P.write_int32
    pub writes_int64 : Writes P.write_int64
    pub writes_double : Writes P.write_double
    pub writes_string : Writes P.write_string

  -- What is left to do in a state.
  abbrev pub weight : ProtocolState → Machine B P → ℕ
  weight s w = 5 * size w.buffer + length w.stack + rank s

  -- What a handler leaves, of the machine before it and a bound on what was left to do.
  abbrev pub Waits : Machine B P → ProtocolState × Machine B P → Type 0
  Waits w (s, w') =
      (s ≡ ProtocolState.wait_for_data)
      × (w'.state ≡ w.state)
      × (w'.stack ≡ w.stack)
      × (w'.passthrough_enabled ≡ false)

  abbrev pub Moves : ℕ → ProtocolState × Machine B P → Type 0
  Moves n (s, w') = Ready s w'.stack × (weight s w' < n) × (w'.passthrough_enabled ≡ false)

  abbrev pub Advances : ℕ → Machine B P → ProtocolState × Machine B P → Type 0
  Advances n w t = Waits w t ⊎ Moves n t

  -- What the loop leaves: the message at its end, or a machine that waits and can go on.
  abbrev pub Settled : ProtocolState × Machine B P → Type 0
  Settled (s, w) =
      ((s ≡ ProtocolState.done) × (w.state ≡ ProtocolState.done) × (w.passthrough_enabled ≡ false))
      ⊎ ((s ≡ ProtocolState.wait_for_data)
          × Ready w.state w.stack
          × (is_done w.state ≡ false)
          × (w.passthrough_enabled ≡ false))

  pub reading-Keeps :
      {V : Type 0} {Q : ProtocolState × Machine B P → Type 0} (r : Reader B State V)
      (next : V → Machine B P → Step B P) (w : Machine B P)
      → Keeps r
      → ((p : State) (b : Buffer)
          → Q (ProtocolState.wait_for_data, record w { protocol = p; buffer = b }))
      → ((v : V) (p : State) (b : Buffer)
          → size b ≤ size w.buffer
          → Safely Q (next v (record w { protocol = p; buffer = b })))
      → Safely Q (reading B P r next w)
  unfolding reading
  reading-Keeps {V} {Q} r next w keeps waits moves =
      Safely-bind (keeps w.protocol w.buffer) (λ t le. value t.0 t.1 t.2 le)
    where
      value :
          (o : Option V) (p : State) (b : Buffer)
          → size b ≤ size w.buffer
          → Safely Q (on_value B P next o (record w { protocol = p; buffer = b }))
      value none p b le = gives (waits p b)
      value (some v) p b le = moves v p b le

  pub reading-Takes :
      {V : Type 0} {Q : ProtocolState × Machine B P → Type 0} (r : Reader B State V)
      (next : V → Machine B P → Step B P) (w : Machine B P)
      → Takes r
      → ((p : State) (b : Buffer)
          → Q (ProtocolState.wait_for_data, record w { protocol = p; buffer = b }))
      → ((v : V) (p : State) (b : Buffer)
          → size b < size w.buffer
          → Safely Q (next v (record w { protocol = p; buffer = b })))
      → Safely Q (reading B P r next w)
  unfolding reading
  reading-Takes {V} {Q} r next w takes waits moves =
      Safely-bind (takes w.protocol w.buffer) (λ t le. value t.0 t.1 t.2 le)
    where
      value :
          (o : Option V) (p : State) (b : Buffer)
          → Shrinks o (size b) (size w.buffer)
          → Safely Q (on_value B P next o (record w { protocol = p; buffer = b }))
      value none p b le = gives (waits p b)
      value (some v) p b le = moves v p b le

  pub writing-Safely :
      {V : Type 0} {Q : ProtocolState × Machine B P → Type 0} (wr : Writer B State V) (v : V)
      (next : Machine B P → Step B P) (w : Machine B P)
      → Writes wr
      → ((p : State) (o : Buffer) → Safely Q (next (record w { protocol = p; origin_message = o })))
      → Safely Q (writing B P wr v next w)
  unfolding writing
  writing-Safely wr v next w writes after =
      Safely-bind (writes v w.protocol w.origin_message) (λ t _. after t.0 t.1)

  -- A value on the way to a state.
  copied-Advances :
      {V : Type 0} (r : Reader B State V) (wr : Writer B State V) (s : ProtocolState) (n : ℕ)
      (w : Machine B P)
      → Takes r
      → Writes wr
      → Ready s w.stack
      → w.passthrough_enabled ≡ false
      → 5 * size w.buffer + length w.stack ≤ n
      → Safely (Advances n w) (copied B P r wr s w)
  copied-Advances r wr s n w takes writes ready off le =
      reading-Takes r _ w takes (λ p b. inl (refl, refl, refl, off))
        (λ v p b lt.
          writing-Safely wr v _ _ writes
            (λ p o. gives (inr (ready, omega (arith, rank_le s), off))))

  pub pop-Advances :
      (n : ℕ) (w w' : Machine B P)
      → Returns (return_states w'.stack)
      → w'.passthrough_enabled ≡ false
      → 5 * size w'.buffer + length w'.stack + 2 < n
      → Safely (Advances n w) (pop_return_state B P w')
  unfolding pop_return_state
  pop-Advances n w w' ready off le = by_stack w'.stack ready le
    where
      by_stack :
          (s : List Frame)
          → Returns (return_states s)
          → 5 * size w'.buffer + length s + 2 < n
          → Safely (Advances n w) (popped B P s w')
      by_stack [] ready le = absurd ready
      by_stack (f ∷ s) ready le = gives (inr (ready, omega (arith, rank_le f.return_state), off))

  -- The end of a container: a read, a write and a return.
  pub ends-Advances :
      {V : Type 0} (r : Reader B State V) (wr : Writer B State V) (n : ℕ) (w : Machine B P)
      → Keeps r
      → Writes wr
      → Returns (return_states w.stack)
      → w.passthrough_enabled ≡ false
      → 5 * size w.buffer + length w.stack + 2 < n
      → Safely (Advances n w) (reading B P r (λ v. writing B P wr v (pop_return_state B P)) w)
  ends-Advances r wr n w keeps writes ready off le =
      reading-Keeps r _ w keeps (λ p b. inl (refl, refl, refl, off))
        (λ v p b lt. writing-Safely wr v _ _ writes (λ p o.
          pop-Advances n w (record w { protocol = p; buffer = b; origin_message = o }) ready off
            (omega arith)))

  pub handle_value-Advances :
      Behaves
      → (t : FieldType) (s : ProtocolState) (n : ℕ) (w : Machine B P) → Ready s w.stack
      → w.passthrough_enabled ≡ false
      → 5 * size w.buffer + length w.stack + 2 < n
      → Safely (Advances n w) (handle_value B P t s w)
  unfolding handle_value
  handle_value-Advances h FieldType.bool s n w ready off le =
      copied-Advances _ _ s n w h.bool h.writes_bool ready off (omega arith)
  handle_value-Advances h FieldType.byte s n w ready off le =
      copied-Advances _ _ s n w h.byte h.writes_byte ready off (omega arith)
  handle_value-Advances h FieldType.i16 s n w ready off le =
      copied-Advances _ _ s n w h.int16 h.writes_int16 ready off (omega arith)
  handle_value-Advances h FieldType.i32 s n w ready off le =
      copied-Advances _ _ s n w h.int32 h.writes_int32 ready off (omega arith)
  handle_value-Advances h FieldType.i64 s n w ready off le =
      copied-Advances _ _ s n w h.int64 h.writes_int64 ready off (omega arith)
  handle_value-Advances h FieldType.double s n w ready off le =
      copied-Advances _ _ s n w h.double h.writes_double ready off (omega arith)
  handle_value-Advances h FieldType.string s n w ready off le =
      copied-Advances _ _ s n w h.string h.writes_string ready off (omega arith)
  handle_value-Advances h FieldType.struct s n w ready off le =
      gives (inr (ready, omega arith, off))
  handle_value-Advances h FieldType.map s n w ready off le = gives (inr (ready, omega arith, off))
  handle_value-Advances h FieldType.list s n w ready off le = gives (inr (ready, omega arith, off))
  handle_value-Advances h FieldType.set s n w ready off le = gives (inr (ready, omega arith, off))
  handle_value-Advances h FieldType.stop s n w ready off le = fails
  handle_value-Advances h (FieldType.unknown k) s n w ready off le = fails
