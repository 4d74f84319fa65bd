-- ===== src/Thrift/State.antt =====
-- ProtocolState and the frames of the stack, of src/application_protocols/thrift/thrift_codec.h.
use meta_protocol_proxy.Base.{
  ℕ, ◌+◌, ◌-◌, ◌%◌, ◌^◌, Bool, true, false, List, [], ◌∷◌, length, ◌==◌, if◌then◌else◌,
}
use meta_protocol_proxy.Thrift.Protocol.{FieldType}

-- StopIteration is named and never used.
pub data ProtocolState : Type 0 where
  stop_iteration wait_for_data passthrough_data message_begin message_end : ProtocolState
  struct_begin struct_end field_begin field_value field_end : ProtocolState
  map_begin map_key map_value map_end list_begin list_value list_end : ProtocolState
  set_begin set_value set_end done : ProtocolState

abbrev pub is_waiting : ProtocolState → Bool
is_waiting wait_for_data = true
is_waiting _ = false

abbrev pub is_done : ProtocolState → Bool
is_done done = true
is_done _ = false

pub record Frame : Type 0 where
  pub return_state : ProtocolState
  pub elem_type : FieldType
  pub value_type : FieldType
  pub remaining : ℕ

-- The four constructors of Frame.
abbrev pub frame : ProtocolState → Frame
frame r = record {
  return_state = r;
  elem_type = FieldType.stop;
  value_type = FieldType.stop;
  remaining = 0;
}

abbrev pub field_frame : ProtocolState → FieldType → Frame
field_frame r t = record (frame r) { elem_type = t }

abbrev pub list_frame : ProtocolState → FieldType → ℕ → Frame
list_frame r t n = record (frame r) { elem_type = t; remaining = n }

abbrev pub map_frame : ProtocolState → FieldType → FieldType → ℕ → Frame
map_frame r k v n = record { return_state = r; elem_type = k; value_type = v; remaining = n }

-- `stack_[index].remaining_--`; the index counts from the bottom, which is the end of the list.
unfoldable pub count_down : ℕ → List Frame → List Frame
count_down index [] = []
count_down index (f ∷ s) =
    if length s == index
    then record f { remaining = (f.remaining + 2 ^ 32 - 1) % 2 ^ 32 } ∷ s
    else f ∷ count_down index s
