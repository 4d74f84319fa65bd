-- ===== src/Thrift/Machine.antt =====
-- The class DecoderStateMachine of src/application_protocols/thrift/thrift_codec.h and thrift_codec.cc.
-- The top of the stack is the head of the list.
pub mod Ready
pub mod Steps
pub mod Handlers
pub mod Safety
pub mod Lasting
pub mod Resume
pub mod Rounds
pub mod Chunks
use Prim.Native.String.{String}
use meta_protocol_proxy.Base.{
  ℕ, zero, suc, ◌+◌, ◌*◌, ◌-◌, ◌%◌, ◌^◌, Bool, true, false, Option, none, some, List, [], ◌∷◌,
  length, ltb, ◌==◌, if◌then◌else◌, Outcome, ok, throws, panics, stuck, Exception, ◌>>=◌,
}
use meta_protocol_proxy.Buffer.{BufferApi}
use meta_protocol_proxy.Thrift.State.{
  ProtocolState, is_waiting, is_done, Frame, frame, field_frame, list_frame, map_frame, count_down,
}
use meta_protocol_proxy.Thrift.Protocol.{FieldType, MessageMetadata, ProtocolApi, Reader, Writer}

module _ (B : BufferApi) (P : ProtocolApi B) where
  open B use {Buffer, empty, size, move}
  open P use {State, Others}

  -- The machine, with the protocol and the metadata that it refers to, and the buffer.
  pub record Machine : Type 0 where
    pub protocol : State
    pub metadata : MessageMetadata Others
    pub state : ProtocolState
    pub stack : List Frame
    pub body_bytes : ℕ
    pub passthrough_enabled : Bool
    pub origin_message : Buffer
    pub buffer : Buffer

  abbrev pub Step : Type 0
  Step = Outcome (ProtocolState × Machine)

  abbrev pub new_machine : State → MessageMetadata Others → Buffer → Machine
  new_machine p m b = record {
    protocol = p;
    metadata = m;
    state = ProtocolState.message_begin;
    stack = [];
    body_bytes = 0;
    passthrough_enabled = false;
    origin_message = empty;
    buffer = b;
  }

  -- `if (!proto_.read…(buffer, value)) return WaitForData;` with what follows.
  abbrev pub on_value : {V : Type 0} → (V → Machine → Step) → Option V → Machine → Step
  on_value next none w = ok (ProtocolState.wait_for_data, w)
  on_value next (some v) w = next v w

  unfoldable pub reading : {V : Type 0} → Reader B State V → (V → Machine → Step) → Machine → Step
  reading {V} r next w = r w.protocol w.buffer >>= λ (t : Option V × State × Buffer).
      on_value next t.0 (record w { protocol = t.1; buffer = t.2 })

  -- `proto_.write…(origin_message_, value);` with what follows.
  unfoldable pub writing : {V : Type 0} → Writer B State V → V → (Machine → Step) → Machine → Step
  writing wr v next w = wr v w.protocol w.origin_message >>= λ (t : State × Buffer).
      next (record w { protocol = t.0; origin_message = t.1 })

  abbrev pub go : ProtocolState → Machine → Step
  go s w = ok (s, w)

  abbrev pub push : Frame → Machine → Machine
  push f w = record w { stack = f ∷ w.stack }

  abbrev popped : List Frame → Machine → Step
  popped [] w = panics
  popped (f ∷ s) w = ok (f.return_state, record w { stack = s })

  unfoldable pub pop_return_state : Machine → Step
  pop_return_state w = popped w.stack w

  -- A read and a write of one value, on the way to the return state.
  abbrev copied :
      {V : Type 0} → Reader B State V → Writer B State V → ProtocolState → Machine → Step
  copied r wr return_state = reading r (λ v. writing wr v (go return_state))

  -- The message of the exception, less the number of the type.
  abbrev unknown_field_type : Step
  unknown_field_type = throws (Exception.envoy_exception "unknown field type")

  unfoldable pub handle_value : FieldType → ProtocolState → Machine → Step
  handle_value FieldType.bool r = copied P.read_bool P.write_bool r
  handle_value FieldType.byte r = copied P.read_byte P.write_byte r
  handle_value FieldType.i16 r = copied P.read_int16 P.write_int16 r
  handle_value FieldType.i32 r = copied P.read_int32 P.write_int32 r
  handle_value FieldType.i64 r = copied P.read_int64 P.write_int64 r
  handle_value FieldType.double r = copied P.read_double P.write_double r
  handle_value FieldType.string r = copied P.read_string P.write_string r
  handle_value FieldType.struct r = λ w. go ProtocolState.struct_begin (push (frame r) w)
  handle_value FieldType.map r = λ w. go ProtocolState.map_begin (push (frame r) w)
  handle_value FieldType.list r = λ w. go ProtocolState.list_begin (push (frame r) w)
  handle_value FieldType.set r = λ w. go ProtocolState.set_begin (push (frame r) w)
  handle_value _ r = λ w. unknown_field_type

  unfoldable pub passthrough_data : Machine → Step
  passthrough_data w =
      if ltb (size w.buffer) w.body_bytes
      then go ProtocolState.wait_for_data w
      else let (origin, rest) = move w.origin_message w.buffer w.body_bytes in
        go ProtocolState.message_end (record w { origin_message = origin; buffer = rest })

  begin_passthrough : ℕ → Option ℕ → Machine → Step
  begin_passthrough total none w = throws Exception.bad_optional_access
  begin_passthrough total (some frame_size) w =
      let taken = total - size w.buffer in
      go ProtocolState.passthrough_data
        (record w { body_bytes = (frame_size + 2 ^ 32 - taken) % 2 ^ 32 })

  after_message_begin : ℕ → Machine → Step
  unfolding begin_passthrough
  after_message_begin total w =
      let w' = record w { stack = frame ProtocolState.message_end ∷ [] } in
      if w'.passthrough_enabled
      then begin_passthrough total w'.metadata.frame_size w'
      else writing P.write_message_begin w'.metadata (go ProtocolState.struct_begin) w'

  unfoldable pub message_begin : Machine → Step
  unfolding after_message_begin
  message_begin w =
      reading (P.read_message_begin w.metadata)
        (λ m w'. after_message_begin (size w.buffer) (record w' { metadata = m })) w

  unfoldable pub message_end : Machine → Step
  message_end =
      reading P.read_message_end (λ v. writing P.write_message_end v (go ProtocolState.done))

  unfoldable pub struct_begin : Machine → Step
  struct_begin =
      reading P.read_struct_begin
        (λ name. writing P.write_struct_begin name (go ProtocolState.field_begin))

  unfoldable pub struct_end : Machine → Step
  unfolding pop_return_state
  struct_end = reading P.read_struct_end (λ v.
      writing P.write_field_begin ("", FieldType.stop, 0)
        (writing P.write_struct_end v pop_return_state))

  after_field_begin : String → FieldType → ℕ → Machine → Step
  after_field_begin name FieldType.stop id = go ProtocolState.struct_end
  after_field_begin name type id = λ w.
      writing P.write_field_begin (name, type, id) (go ProtocolState.field_value)
        (push (field_frame ProtocolState.field_end type) w)

  unfoldable pub field_begin : Machine → Step
  unfolding after_field_begin
  field_begin = reading P.read_field_begin (λ t. after_field_begin t.0 t.1 t.2)

  -- `stack_.back()` and `stack_[stack_.size() - 1]`.
  abbrev with_top : (Frame → ℕ → Machine → Step) → List Frame → Machine → Step
  with_top next [] w = panics
  with_top next (f ∷ s) w = next f (length s) w

  abbrev field_of : Frame → ℕ → Machine → Step
  field_of f index = handle_value f.elem_type f.return_state

  unfoldable pub field_value : Machine → Step
  unfolding handle_value
  field_value w = with_top field_of w.stack w

  unfoldable pub field_end : Machine → Step
  unfolding pop_return_state
  field_end = reading P.read_field_end (λ v w.
      pop_return_state w >>= λ (t : ProtocolState × Machine).
      writing P.write_field_end v (go ProtocolState.field_begin) t.1)

  unfoldable pub list_begin : Machine → Step
  list_begin = reading P.read_list_begin (λ t w.
      writing P.write_list_begin t (go ProtocolState.list_value)
        (push (list_frame ProtocolState.list_end t.0 t.1) w))

  -- The count of the frame, unless the state is WaitForData.
  abbrev counted : ℕ → ProtocolState × Machine → Step
  counted index (s, w) =
      ok (s, if is_waiting s then w else record w { stack = count_down index w.stack })

  -- listValue and setValue: a value, or the end when none remain.
  abbrev element : ProtocolState → Frame → ℕ → Machine → Step
  element again f index w =
      if f.remaining == 0
      then pop_return_state w
      else (handle_value f.elem_type again w >>= counted index)

  unfoldable pub list_value : Machine → Step
  unfolding handle_value pop_return_state
  list_value w = with_top (element ProtocolState.list_value) w.stack w

  unfoldable pub list_end : Machine → Step
  unfolding pop_return_state
  list_end = reading P.read_list_end (λ v. writing P.write_list_end v pop_return_state)

  unfoldable pub map_begin : Machine → Step
  map_begin = reading P.read_map_begin (λ t w.
      writing P.write_map_begin t (go ProtocolState.map_key)
        (push (map_frame ProtocolState.map_end t.0 t.1 t.2) w))

  abbrev key_of : Frame → ℕ → Machine → Step
  key_of f index w =
      if f.remaining == 0
      then pop_return_state w
      else handle_value f.elem_type ProtocolState.map_value w

  unfoldable pub map_key : Machine → Step
  unfolding handle_value pop_return_state
  map_key w = with_top key_of w.stack w

  abbrev value_of : Frame → ℕ → Machine → Step
  value_of f index w = handle_value f.value_type ProtocolState.map_key w >>= counted index

  unfoldable pub map_value : Machine → Step
  unfolding handle_value
  map_value w = with_top value_of w.stack w

  unfoldable pub map_end : Machine → Step
  unfolding pop_return_state
  map_end = reading P.read_map_end (λ v. writing P.write_map_end v pop_return_state)

  unfoldable pub set_begin : Machine → Step
  set_begin = reading P.read_set_begin (λ t w.
      writing P.write_set_begin t (go ProtocolState.set_value)
        (push (list_frame ProtocolState.set_end t.0 t.1) w))

  unfoldable pub set_value : Machine → Step
  unfolding handle_value pop_return_state
  set_value w = with_top (element ProtocolState.set_value) w.stack w

  unfoldable pub set_end : Machine → Step
  unfolding pop_return_state
  set_end = reading P.read_set_end (λ v. writing P.write_set_end v pop_return_state)

  unfoldable pub by_state : ProtocolState → Machine → Step
  by_state ProtocolState.passthrough_data = passthrough_data
  by_state ProtocolState.message_begin = message_begin
  by_state ProtocolState.struct_begin = struct_begin
  by_state ProtocolState.struct_end = struct_end
  by_state ProtocolState.field_begin = field_begin
  by_state ProtocolState.field_value = field_value
  by_state ProtocolState.field_end = field_end
  by_state ProtocolState.list_begin = list_begin
  by_state ProtocolState.list_value = list_value
  by_state ProtocolState.list_end = list_end
  by_state ProtocolState.map_begin = map_begin
  by_state ProtocolState.map_key = map_key
  by_state ProtocolState.map_value = map_value
  by_state ProtocolState.map_end = map_end
  by_state ProtocolState.set_begin = set_begin
  by_state ProtocolState.set_value = set_value
  by_state ProtocolState.set_end = set_end
  by_state ProtocolState.message_end = message_end
  by_state _ = λ w. panics

  unfoldable pub handle_state : Machine → Step
  unfolding by_state
  handle_state w = by_state w.state w

  continue : (Machine → Step) → ProtocolState × Machine → Step
  continue again (s, w) = elim (is_waiting s) [
    | true ↦ ok (ProtocolState.wait_for_data, w)
    | false ↦ again (record w { state = s })
  ]

  round : (Machine → Step) → Machine → Step
  unfolding continue handle_state
  round again w = elim (is_done w.state) [
    | true ↦ ok (w.state, w)
    | false ↦ handle_state w >>= continue again
  ]

  unfoldable pub run_loop : ℕ → Machine → Step
  unfolding round
  run_loop zero w = stuck
  run_loop (suc fuel) w = round (run_loop fuel) w

  -- Five rounds for a byte, one for a frame and four more.
  abbrev pub rounds : Machine → ℕ
  rounds w = 5 * size w.buffer + length w.stack + 4

  unfoldable pub run : Machine → Step
  unfolding run_loop
  run w = run_loop (rounds w) w
