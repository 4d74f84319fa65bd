-- ===== src/Thrift/Machine/Handlers.antt =====
-- Every handler on a stack that fits its state.
use Prim.Native.String.{String}
use meta_protocol_proxy.Base.{
  ℕ, ◌+◌, ◌*◌, ◌<◌, ◌≡◌, refl, sym, subst, inl, inr, Bool, true, false, List, [], ◌∷◌, length, ◌==◌,
  if◌then◌else◌, ◌>>=◌, Safely, gives, Safely-bind, Safely-if, arith,
}
use meta_protocol_proxy.Buffer.{BufferApi}
use meta_protocol_proxy.Thrift.Protocol.{FieldType, ProtocolApi}
use meta_protocol_proxy.Thrift.State.{ProtocolState, is_waiting, is_done, Frame, count_down}
use meta_protocol_proxy.Thrift.Machine.{
  Machine, Step, popped, field_of, key_of, value_of, pop_return_state, message_begin,
  after_message_begin, message_end, struct_begin, struct_end, field_begin, after_field_begin,
  field_value, field_end, list_begin, list_value, list_end, map_begin, map_key, map_value, map_end,
  set_begin, set_value, set_end, with_top, counted, element, by_state,
}
use meta_protocol_proxy.Thrift.Machine.Ready.{
  Returns, OnTop, Fits, Ready, return_states, return_states-count_down, length-count_down,
}
use meta_protocol_proxy.Thrift.Machine.Steps.{
  Behaves, weight, Moves, Advances, reading-Keeps, reading-Takes, writing-Safely, pop-Advances,
  ends-Advances, handle_value-Advances,
}

module _ (B : BufferApi) (P : ProtocolApi B) (h : Behaves B P) where
  open B use {size}

  -- What the handler of a state promises.
  abbrev pub Handles : ProtocolState → (Machine B P → Step B P) → Type 0
  Handles s f =
      (w : Machine B P)
      → Ready s w.stack
      → w.passthrough_enabled ≡ false
      → Safely (Advances B P (weight B P s w) w) (f w)

  message_begin-Handles : Handles ProtocolState.message_begin (message_begin B P)
  unfolding message_begin after_message_begin
  message_begin-Handles w ready off =
      reading-Keeps B P _ _ w (h.message_begin w.metadata) (λ p b. inl (refl, refl, refl, off))
        (λ m p b le.
          Safely-if (λ (on : w.passthrough_enabled ≡ true). absurd (cc))
            (λ _.
              writing-Safely B P P.write_message_begin m _ _ h.writes_message_begin
                (λ p o. gives (inr (tt, omega arith, off)))))

  message_end-Handles : Handles ProtocolState.message_end (message_end B P)
  unfolding message_end
  message_end-Handles w ready off =
      reading-Keeps B P _ _ w h.message_end (λ p b. inl (refl, refl, refl, off))
        (λ v p b le.
          writing-Safely B P _ v _ _ h.writes_message_end
            (λ p o. gives (inr (tt, omega arith, off))))

  struct_begin-Handles : Handles ProtocolState.struct_begin (struct_begin B P)
  unfolding struct_begin
  struct_begin-Handles w ready off =
      reading-Keeps B P _ _ w h.struct_begin (λ p b. inl (refl, refl, refl, off))
        (λ v p b le.
          writing-Safely B P _ v _ _ h.writes_struct_begin
            (λ p o. gives (inr (ready, omega arith, off))))

  struct_end-Handles : Handles ProtocolState.struct_end (struct_end B P)
  unfolding struct_end
  struct_end-Handles w ready off =
      reading-Keeps B P _ _ w h.struct_end (λ p b. inl (refl, refl, refl, off))
        (λ v p b le.
          writing-Safely B P _ ("", FieldType.stop, 0) _ _ h.writes_field_begin
            (λ p o. writing-Safely B P _ v _ _ h.writes_struct_end (λ p o.
              pop-Advances B P _ w (record w { protocol = p; buffer = b; origin_message = o }) ready
                off (omega arith))))

  after_field_begin-Advances :
      (name : String) (type : FieldType) (id n : ℕ) (w w' : Machine B P)
      → Returns (return_states w'.stack)
      → w'.passthrough_enabled ≡ false
      → 5 * size w'.buffer + length w'.stack + 4 < n
      → Safely (Advances B P n w) (after_field_begin B P name type id w')
  unfolding after_field_begin
  after_field_begin-Advances name FieldType.stop id n w w' ready off le =
      gives (inr (ready, omega arith, off))
  after_field_begin-Advances name _ id n w w' ready off le =
      writing-Safely B P _ _ _ _ h.writes_field_begin
        (λ p o. gives (inr ((refl, ready), omega arith, off)))

  field_begin-Handles : Handles ProtocolState.field_begin (field_begin B P)
  unfolding field_begin
  field_begin-Handles w ready off =
      reading-Takes B P _ _ w h.field_begin (λ p b. inl (refl, refl, refl, off))
        (λ t p b lt. after_field_begin-Advances t.0 t.1 t.2 _ w _ ready off (omega arith))

  list_end-Handles : Handles ProtocolState.list_end (list_end B P)
  unfolding list_end
  list_end-Handles w ready off =
      ends-Advances B P _ _ _ w h.list_end h.writes_list_end ready off (omega arith)

  map_end-Handles : Handles ProtocolState.map_end (map_end B P)
  unfolding map_end
  map_end-Handles w ready off =
      ends-Advances B P _ _ _ w h.map_end h.writes_map_end ready off (omega arith)

  set_end-Handles : Handles ProtocolState.set_end (set_end B P)
  unfolding set_end
  set_end-Handles w ready off =
      ends-Advances B P _ _ _ w h.set_end h.writes_set_end ready off (omega arith)

  popped-Safely :
      {Q : ProtocolState × Machine B P → Type 0} (e : ProtocolState)
      (next : ProtocolState × Machine B P → Step B P) (w : Machine B P) (s : List Frame)
      → OnTop e (return_states s)
      → ((r : ProtocolState) (s' : List Frame)
          → Returns (return_states s')
          → length s' < length s
          → Safely Q (next (r, record w { stack = s' })))
      → Safely Q (popped B P s w >>= next)
  popped-Safely e next w [] ready each = absurd ready
  popped-Safely e next w (f ∷ s) ready each = each f.return_state s ready.1 (omega arith)

  field_end-Handles : Handles ProtocolState.field_end (field_end B P)
  unfolding field_end pop_return_state
  field_end-Handles w ready off =
      reading-Keeps B P _ _ w h.field_end (λ p b. inl (refl, refl, refl, off))
        (λ v p b le. popped-Safely ProtocolState.field_end _ _ w.stack ready (λ r s below lt.
          writing-Safely B P _ v _ _ h.writes_field_end
            (λ p o. gives (inr (below, omega arith, off)))))

  list_begin-Handles : Handles ProtocolState.list_begin (list_begin B P)
  unfolding list_begin
  list_begin-Handles w ready off =
      reading-Takes B P _ _ w h.list_begin (λ p b. inl (refl, refl, refl, off))
        (λ t p b lt.
          writing-Safely B P _ t _ _ h.writes_list_begin
            (λ p o. gives (inr ((refl, ready), omega arith, off))))

  map_begin-Handles : Handles ProtocolState.map_begin (map_begin B P)
  unfolding map_begin
  map_begin-Handles w ready off =
      reading-Takes B P _ _ w h.map_begin (λ p b. inl (refl, refl, refl, off))
        (λ t p b lt.
          writing-Safely B P _ t _ _ h.writes_map_begin
            (λ p o. gives (inr ((refl, ready), omega arith, off))))

  set_begin-Handles : Handles ProtocolState.set_begin (set_begin B P)
  unfolding set_begin
  set_begin-Handles w ready off =
      reading-Takes B P _ _ w h.set_begin (λ p b. inl (refl, refl, refl, off))
        (λ t p b lt.
          writing-Safely B P _ t _ _ h.writes_set_begin
            (λ p o. gives (inr ((refl, ready), omega arith, off))))

  -- A handler that looks at the top of the stack.
  with_top-Advances :
      (e : ProtocolState) (next : Frame → ℕ → Machine B P → Step B P) (n : ℕ) (w : Machine B P)
      (s : List Frame)
      → OnTop e (return_states s)
      → ((f : Frame) (s' : List Frame)
          → s ≡ f ∷ s'
          → f.return_state ≡ e
          → Returns (return_states s')
          → Safely (Advances B P n w) (next f (length s') w))
      → Safely (Advances B P n w) (with_top B P next s w)
  with_top-Advances e next n w [] ready each = absurd ready
  with_top-Advances e next n w (f ∷ s) ready each = each f s refl ready.0 ready.1

  counted-Advances :
      (index n : ℕ) (w : Machine B P) (t : ProtocolState × Machine B P)
      → Advances B P n w t
      → Safely (Advances B P n w) (counted B P index t)
  counted-Advances index n w (s, w') (inl waits) =
      gives (inl (rw waits.0 (refl, waits.1, waits.2, waits.3)))
  counted-Advances index n w (s, w') (inr (ready, lt, off)) = gives (inr (moved (is_waiting s)))
    where
      moved :
          (b : Bool)
          → Moves B P n (s, if b then w' else record w' { stack = count_down index w'.stack })
      moved true = (ready, lt, off)
      moved false = (
        subst (Fits s) (sym (return_states-count_down index w'.stack)) ready,
        omega (arith, length-count_down index w'.stack),
        off,
      )

  -- The elements of a list or a set, whose frame returns to `e`.
  element-Advances :
      (again e : ProtocolState) (n : ℕ) (w : Machine B P) (f : Frame) (s : List Frame)
      → w.stack ≡ f ∷ s
      → Ready again w.stack
      → Ready f.return_state s
      → w.passthrough_enabled ≡ false
      → 5 * size w.buffer + length w.stack + 2 < n
      → Safely (Advances B P n w) (element B P again f (length s) w)
  element-Advances again e n w f s shape ready back off lt =
      Safely-if {b = f.remaining == 0}
        (λ _.
          pop-Advances B P n w w
            (subst (λ (l : List Frame). Returns (return_states l)) (sym shape) back) off lt)
        (λ _.
          Safely-bind (handle_value-Advances B P h f.elem_type again n w ready off lt)
            (counted-Advances (length s) n w))

  list_value-Handles : Handles ProtocolState.list_value (list_value B P)
  unfolding list_value
  list_value-Handles w ready off =
      with_top-Advances ProtocolState.list_end (element B P ProtocolState.list_value) _ w w.stack
        ready
        (λ f s shape back below.
          element-Advances ProtocolState.list_value ProtocolState.list_end _ w f s shape ready
            (subst (λ (r : ProtocolState). Ready r s) (sym back) below) off (omega arith))

  set_value-Handles : Handles ProtocolState.set_value (set_value B P)
  unfolding set_value
  set_value-Handles w ready off =
      with_top-Advances ProtocolState.set_end (element B P ProtocolState.set_value) _ w w.stack
        ready
        (λ f s shape back below.
          element-Advances ProtocolState.set_value ProtocolState.set_end _ w f s shape ready
            (subst (λ (r : ProtocolState). Ready r s) (sym back) below) off (omega arith))

  field_value-Handles : Handles ProtocolState.field_value (field_value B P)
  unfolding field_value
  field_value-Handles w ready off =
      with_top-Advances ProtocolState.field_end (field_of B P) _ w w.stack ready
        (λ f s shape back below.
          handle_value-Advances B P h f.elem_type f.return_state _ w
            (subst (λ (r : ProtocolState). Ready r w.stack) (sym back) ready) off (omega arith))

  map_key-Handles : Handles ProtocolState.map_key (map_key B P)
  unfolding map_key
  map_key-Handles w ready off =
      with_top-Advances ProtocolState.map_end (key_of B P) _ w w.stack ready
        (λ f s shape back below.
          Safely-if {b = f.remaining == 0}
            (λ _.
              pop-Advances B P _ w w
                (subst (λ (l : List Frame). Returns (return_states l)) (sym shape)
                  (subst (λ (r : ProtocolState). Ready r s) (sym back) below))
                off (omega arith))
            (λ _.
              handle_value-Advances B P h f.elem_type ProtocolState.map_value _ w ready off
                (omega arith)))

  map_value-Handles : Handles ProtocolState.map_value (map_value B P)
  unfolding map_value
  map_value-Handles w ready off =
      with_top-Advances ProtocolState.map_end (value_of B P) _ w w.stack ready
        (λ f s shape back below.
          Safely-bind
            (handle_value-Advances B P h f.value_type ProtocolState.map_key _ w ready off
              (omega arith))
            (counted-Advances (length s) _ w))

  pub by_state-Handles : (s : ProtocolState) → is_done s ≡ false → Handles s (by_state B P s)
  unfolding by_state
  by_state-Handles ProtocolState.stop_iteration t w ready off = absurd ready
  by_state-Handles ProtocolState.wait_for_data t w ready off = absurd ready
  by_state-Handles ProtocolState.passthrough_data t w ready off = absurd ready
  by_state-Handles ProtocolState.done t w ready off = absurd (cc)
  by_state-Handles ProtocolState.message_begin t w ready off = message_begin-Handles w ready off
  by_state-Handles ProtocolState.message_end t w ready off = message_end-Handles w ready off
  by_state-Handles ProtocolState.struct_begin t w ready off = struct_begin-Handles w ready off
  by_state-Handles ProtocolState.struct_end t w ready off = struct_end-Handles w ready off
  by_state-Handles ProtocolState.field_begin t w ready off = field_begin-Handles w ready off
  by_state-Handles ProtocolState.field_value t w ready off = field_value-Handles w ready off
  by_state-Handles ProtocolState.field_end t w ready off = field_end-Handles w ready off
  by_state-Handles ProtocolState.list_begin t w ready off = list_begin-Handles w ready off
  by_state-Handles ProtocolState.list_value t w ready off = list_value-Handles w ready off
  by_state-Handles ProtocolState.list_end t w ready off = list_end-Handles w ready off
  by_state-Handles ProtocolState.map_begin t w ready off = map_begin-Handles w ready off
  by_state-Handles ProtocolState.map_key t w ready off = map_key-Handles w ready off
  by_state-Handles ProtocolState.map_value t w ready off = map_value-Handles w ready off
  by_state-Handles ProtocolState.map_end t w ready off = map_end-Handles w ready off
  by_state-Handles ProtocolState.set_begin t w ready off = set_begin-Handles w ready off
  by_state-Handles ProtocolState.set_value t w ready off = set_value-Handles w ready off
  by_state-Handles ProtocolState.set_end t w ready off = set_end-Handles w ready off
