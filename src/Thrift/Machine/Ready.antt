-- ===== src/Thrift/Machine/Ready.antt =====
-- Which stacks fit which state of the machine.
use meta_protocol_proxy.Base.{ℕ, ◌≤◌, ◌≡◌, refl, true, false, List, [], ◌∷◌, length, arith}
use meta_protocol_proxy.Thrift.State.{ProtocolState, is_waiting, is_done, Frame, count_down}

-- What a state asks of the stack, from what the frames below promise: `below` when the state ends by
-- a return to the top frame, and `top` of the return state that the top frame must have.
abbrev Asks : ProtocolState → Type 0 → (ProtocolState → Type 0) → Type 0
Asks ProtocolState.message_begin below top = Unit
Asks ProtocolState.message_end below top = Unit
Asks ProtocolState.done below top = Unit
Asks ProtocolState.field_value below top = top ProtocolState.field_end
Asks ProtocolState.field_end below top = top ProtocolState.field_end
Asks ProtocolState.list_value below top = top ProtocolState.list_end
Asks ProtocolState.set_value below top = top ProtocolState.set_end
Asks ProtocolState.map_key below top = top ProtocolState.map_end
Asks ProtocolState.map_value below top = top ProtocolState.map_end
Asks ProtocolState.stop_iteration below top = ⊥
Asks ProtocolState.wait_for_data below top = ⊥
Asks ProtocolState.passthrough_data below top = ⊥
Asks _ below top = below

abbrev mutual
  -- A return to the top frame is possible.
  pub Returns : List ProtocolState → Type 0
  Returns [] = ⊥
  Returns (r ∷ s) = Asks r (Returns s) (λ e. OnTop e s)

  pub OnTop : ProtocolState → List ProtocolState → Type 0
  OnTop e [] = ⊥
  OnTop e (r ∷ s) = (r ≡ e) × Returns s

abbrev pub return_states : List Frame → List ProtocolState
return_states [] = []
return_states (f ∷ s) = f.return_state ∷ return_states s

abbrev pub Fits : ProtocolState → List ProtocolState → Type 0
Fits state s = Asks state (Returns s) (λ e. OnTop e s)

abbrev pub Ready : ProtocolState → List Frame → Type 0
Ready state stack = Fits state (return_states stack)

pub return_states-count_down :
    (index : ℕ) (s : List Frame) → return_states (count_down index s) ≡ return_states s
unfolding count_down
return_states-count_down index [] = refl
return_states-count_down index (f ∷ s) = ground (arith, return_states-count_down index s)

pub length-count_down : (index : ℕ) (s : List Frame) → length (count_down index s) ≡ length s
unfolding count_down
length-count_down index [] = refl
length-count_down index (f ∷ s) = ground (arith, length-count_down index s)

-- How many rounds a state may take before it reads or returns.
abbrev pub rank : ProtocolState → ℕ
rank ProtocolState.message_begin = 3
rank ProtocolState.message_end = 1
rank ProtocolState.struct_begin = 1
rank ProtocolState.struct_end = 3
rank ProtocolState.field_value = 3
rank ProtocolState.field_end = 1
rank ProtocolState.map_key = 3
rank ProtocolState.map_value = 3
rank ProtocolState.map_end = 3
rank ProtocolState.list_value = 3
rank ProtocolState.list_end = 3
rank ProtocolState.set_value = 3
rank ProtocolState.set_end = 3
rank _ = 0

pub rank_le : (s : ProtocolState) → rank s ≤ 3
rank_le s = ground arith

pub is_done_eq : (s : ProtocolState) → is_done s ≡ true → s ≡ ProtocolState.done
is_done_eq s e = ground arith

pub Ready-busy : (s : ProtocolState) (stack : List Frame) → Ready s stack → is_waiting s ≡ false
Ready-busy ProtocolState.wait_for_data stack ready = absurd ready
Ready-busy _ stack ready = refl
