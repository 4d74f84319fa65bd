-- ===== src/Thrift/Machine/Resume.antt =====
-- Every handler on a buffer with more bytes behind it.
use Prim.Native.String.{String}
use meta_protocol_proxy.Base.{
  ℕ, ◌≡◌, refl, sym, subst, Bool, true, false, List, [], ◌∷◌, length, ◌==◌, if◌then◌else◌, ok,
  throws, panics, stuck, ◌>>=◌,
}
use meta_protocol_proxy.Buffer.{BufferApi}
use meta_protocol_proxy.Thrift.Protocol.{FieldType, ProtocolApi}
use meta_protocol_proxy.Thrift.State.{
  ProtocolState, is_waiting, is_done, Frame, count_down, frame, list_frame, map_frame,
}
use meta_protocol_proxy.Thrift.Machine.{
  Machine, Step, writing, go, popped, pop_return_state, field_of, key_of, value_of, message_begin,
  after_message_begin, begin_passthrough, message_end, struct_begin, struct_end, field_begin,
  after_field_begin, field_value, field_end, list_begin, list_value, list_end, map_begin, map_key,
  map_value, map_end, set_begin, set_value, set_end, with_top, counted, element, by_state,
}
use meta_protocol_proxy.Thrift.Machine.Ready.{Returns, OnTop, Ready, return_states}
use meta_protocol_proxy.Thrift.Machine.Lasting.{
  grown, Incremental, Alike, Extends, Alike-Extends, reading-Extends, writing-Alike, pop-Alike,
  copied-Extends, ends-Extends, begins-Extends, handle_value-Extends,
}

module _ (B : BufferApi) (P : ProtocolApi B) (more : List ℕ) (h : Incremental B P more) where
  open B use {Buffer}
  open P use {State}

  -- What the handler of a state promises.
  abbrev pub Keeps : ProtocolState → (Machine B P → Step B P) → Type 0
  Keeps s f =
      (w : Machine B P)
      → Ready s w.stack
      → w.passthrough_enabled ≡ false
      → Extends B P more w (f w) (f (grown B P more w))

  after_message_begin-Alike :
      (m n : ℕ) (w : Machine B P)
      → w.passthrough_enabled ≡ false
      → Alike B P more (after_message_begin B P m w) (after_message_begin B P n (grown B P more w))
  unfolding after_message_begin
  after_message_begin-Alike m n w off = by_flag w.passthrough_enabled off
    where
      w' : Machine B P
      w' = record w { stack = frame ProtocolState.message_end ∷ [] }

      by_flag :
          (b : Bool)
          → b ≡ false
          → Alike B P more
              (if b
                then begin_passthrough B P m w'.metadata.frame_size w'
                else writing B P P.write_message_begin w'.metadata
                    (go B P ProtocolState.struct_begin)
                    w')
              (if b
                then begin_passthrough B P n w'.metadata.frame_size (grown B P more w')
                else writing B P P.write_message_begin w'.metadata
                    (go B P ProtocolState.struct_begin)
                    (grown B P more w'))
      by_flag true e = absurd (cc)
      by_flag false e =
          writing-Alike B P more P.write_message_begin w'.metadata
            (go B P ProtocolState.struct_begin) w' (λ p o. (refl, refl))

  message_begin-Keeps : Keeps ProtocolState.message_begin (message_begin B P)
  unfolding message_begin
  message_begin-Keeps w ready off =
      reading-Extends B P more _ _ _ w (h.message_begin w.metadata) (λ m p b.
        after_message_begin-Alike _ _ (record w { protocol = p; buffer = b; metadata = m }) off)

  message_end-Keeps : Keeps ProtocolState.message_end (message_end B P)
  unfolding message_end
  message_end-Keeps w ready off =
      copied-Extends B P more _ P.write_message_end ProtocolState.done w h.message_end refl

  struct_begin-Keeps : Keeps ProtocolState.struct_begin (struct_begin B P)
  unfolding struct_begin
  struct_begin-Keeps w ready off =
      copied-Extends B P more _ P.write_struct_begin ProtocolState.field_begin w h.struct_begin refl

  struct_end-Keeps : Keeps ProtocolState.struct_end (struct_end B P)
  unfolding struct_end
  struct_end-Keeps w ready off = reading-Extends B P more _ _ _ w h.struct_end (λ v p b.
      writing-Alike B P more _ _ _ (record w { protocol = p; buffer = b })
        (λ p o.
          writing-Alike B P more _ v _ (record w { protocol = p; buffer = b; origin_message = o })
            (λ p o.
              pop-Alike B P more (record w { protocol = p; buffer = b; origin_message = o })
                ready)))

  after_field_begin-Alike :
      (name : String) (type : FieldType) (id : ℕ) (w : Machine B P)
      → Alike B P more
          (after_field_begin B P name type id w)
          (after_field_begin B P name type id (grown B P more w))
  unfolding after_field_begin
  after_field_begin-Alike name FieldType.stop id w = (refl, refl)
  after_field_begin-Alike name _ id w =
      writing-Alike B P more P.write_field_begin _ (go B P ProtocolState.field_value) _
        (λ p o. (refl, refl))

  field_begin-Keeps : Keeps ProtocolState.field_begin (field_begin B P)
  unfolding field_begin
  field_begin-Keeps w ready off =
      reading-Extends B P more _ _ _ w h.field_begin
        (λ t p b. after_field_begin-Alike t.0 t.1 t.2 (record w { protocol = p; buffer = b }))

  list_end-Keeps : Keeps ProtocolState.list_end (list_end B P)
  unfolding list_end
  list_end-Keeps w ready off = ends-Extends B P more _ P.write_list_end w h.list_end ready

  map_end-Keeps : Keeps ProtocolState.map_end (map_end B P)
  unfolding map_end
  map_end-Keeps w ready off = ends-Extends B P more _ P.write_map_end w h.map_end ready

  set_end-Keeps : Keeps ProtocolState.set_end (set_end B P)
  unfolding set_end
  set_end-Keeps w ready off = ends-Extends B P more _ P.write_set_end w h.set_end ready

  -- A pop whose return state is not used.
  popped-Alike :
      (e : ProtocolState) (next : ProtocolState × Machine B P → Step B P) (w : Machine B P)
      (s : List Frame)
      → OnTop e (return_states s)
      → ((r : ProtocolState) (s' : List Frame)
          → Alike B P more
              (next (r, record w { stack = s' }))
              (next (r, grown B P more (record w { stack = s' }))))
      → Alike B P more (popped B P s w >>= next) (popped B P s (grown B P more w) >>= next)
  popped-Alike e next w [] ready each = absurd ready
  popped-Alike e next w (f ∷ s) ready each = each f.return_state s

  field_end-Keeps : Keeps ProtocolState.field_end (field_end B P)
  unfolding field_end pop_return_state
  field_end-Keeps w ready off = reading-Extends B P more _ _ _ w h.field_end (λ v p b.
      popped-Alike ProtocolState.field_end _ (record w { protocol = p; buffer = b }) w.stack ready
        (λ r s.
          writing-Alike B P more _ v (go B P ProtocolState.field_begin)
            (record w { protocol = p; buffer = b; stack = s }) (λ p o. (refl, refl))))

  list_begin-Keeps : Keeps ProtocolState.list_begin (list_begin B P)
  unfolding list_begin
  list_begin-Keeps w ready off =
      begins-Extends B P more _ P.write_list_begin (λ t. list_frame ProtocolState.list_end t.0 t.1)
        ProtocolState.list_value w h.list_begin refl

  map_begin-Keeps : Keeps ProtocolState.map_begin (map_begin B P)
  unfolding map_begin
  map_begin-Keeps w ready off =
      begins-Extends B P more _ P.write_map_begin (λ t. map_frame ProtocolState.map_end t.0 t.1 t.2)
        ProtocolState.map_key w h.map_begin refl

  set_begin-Keeps : Keeps ProtocolState.set_begin (set_begin B P)
  unfolding set_begin
  set_begin-Keeps w ready off =
      begins-Extends B P more _ P.write_set_begin (λ t. list_frame ProtocolState.set_end t.0 t.1)
        ProtocolState.set_value w h.set_begin refl

  -- A handler that looks at the top of the stack.
  with_top-Extends :
      (e : ProtocolState) (next : Frame → ℕ → Machine B P → Step B P) (w : Machine B P)
      (s : List Frame)
      → OnTop e (return_states s)
      → ((f : Frame) (s' : List Frame)
          → s ≡ f ∷ s'
          → f.return_state ≡ e
          → Returns (return_states s')
          → Extends B P more w (next f (length s') w) (next f (length s') (grown B P more w)))
      → Extends B P more w (with_top B P next s w) (with_top B P next s (grown B P more w))
  with_top-Extends e next w [] ready each = absurd ready
  with_top-Extends e next w (f ∷ s) ready each = each f s refl ready.0 ready.1

  counted-Extends :
      (index : ℕ) (w : Machine B P) (x y : Step B P)
      → Extends B P more w x y
      → Extends B P more w (x >>= counted B P index) (y >>= counted B P index)
  counted-Extends index w (ok (s, w')) y a = by_test (is_waiting s) refl a
    where
      by_test :
          (b : Bool)
          → is_waiting s ≡ b
          → (if b then w' ≡ w else (y ≡ ok (s, grown B P more w')))
          → (if b
              then (if b then w' else record w' { stack = count_down index w'.stack }) ≡ w
              else ((y >>= counted B P index)
                  ≡ ok (
                    s,
                    grown B P more
                        (if b then w' else record w' { stack = count_down index w'.stack }),
                  )))
      by_test true e a = a
      by_test false e a = rw (a, e) refl
  counted-Extends index w (throws e) y a = rw a refl
  counted-Extends index w panics y a = rw a refl
  counted-Extends index w stuck y a = rw a refl

  if-Extends :
      (b : Bool) (w : Machine B P) (x x' y y' : Step B P)
      → Extends B P more w x x'
      → Extends B P more w y y'
      → Extends B P more w (if b then x else y) (if b then x' else y')
  if-Extends true w x x' y y' p q = p
  if-Extends false w x x' y y' p q = q

  -- The frame of a container that ends.
  back-Extends :
      (e : ProtocolState) (w : Machine B P) (f : Frame) (s : List Frame)
      → w.stack ≡ f ∷ s
      → f.return_state ≡ e
      → Ready e s
      → Extends B P more w (pop_return_state B P w) (pop_return_state B P (grown B P more w))
  back-Extends e w f s shape back below = Alike-Extends B P more w _ _ (
      pop-Alike B P more w (
        subst (λ (l : List Frame). Returns (return_states l)) (sym shape)
          (subst (λ (r : ProtocolState). Ready r s) (sym back) below)))

  list_value-Keeps : Keeps ProtocolState.list_value (list_value B P)
  unfolding list_value
  list_value-Keeps w ready off =
      with_top-Extends ProtocolState.list_end (element B P ProtocolState.list_value) w w.stack ready
        (λ f s shape back below.
          if-Extends (f.remaining == 0) w _ _ _ _
            (back-Extends ProtocolState.list_end w f s shape back below)
            (counted-Extends (length s) w _ _
              (handle_value-Extends B P more h f.elem_type ProtocolState.list_value w refl)))

  set_value-Keeps : Keeps ProtocolState.set_value (set_value B P)
  unfolding set_value
  set_value-Keeps w ready off =
      with_top-Extends ProtocolState.set_end (element B P ProtocolState.set_value) w w.stack ready
        (λ f s shape back below.
          if-Extends (f.remaining == 0) w _ _ _ _
            (back-Extends ProtocolState.set_end w f s shape back below)
            (counted-Extends (length s) w _ _
              (handle_value-Extends B P more h f.elem_type ProtocolState.set_value w refl)))

  field_value-Keeps : Keeps ProtocolState.field_value (field_value B P)
  unfolding field_value
  field_value-Keeps w ready off =
      with_top-Extends ProtocolState.field_end (field_of B P) w w.stack ready
        (λ f s shape back below.
          handle_value-Extends B P more h f.elem_type f.return_state w
            (subst (λ (r : ProtocolState). is_waiting r ≡ false) (sym back) refl))

  map_key-Keeps : Keeps ProtocolState.map_key (map_key B P)
  unfolding map_key
  map_key-Keeps w ready off =
      with_top-Extends ProtocolState.map_end (key_of B P) w w.stack ready (λ f s shape back below.
        if-Extends (f.remaining == 0) w _ _ _ _
          (back-Extends ProtocolState.map_end w f s shape back below)
          (handle_value-Extends B P more h f.elem_type ProtocolState.map_value w refl))

  map_value-Keeps : Keeps ProtocolState.map_value (map_value B P)
  unfolding map_value
  map_value-Keeps w ready off =
      with_top-Extends ProtocolState.map_end (value_of B P) w w.stack ready (λ f s shape back below.
        counted-Extends (length s) w _ _
          (handle_value-Extends B P more h f.value_type ProtocolState.map_key w refl))

  pub by_state-Keeps : (s : ProtocolState) → is_done s ≡ false → Keeps s (by_state B P s)
  unfolding by_state
  by_state-Keeps ProtocolState.stop_iteration t w ready off = absurd ready
  by_state-Keeps ProtocolState.wait_for_data t w ready off = absurd ready
  by_state-Keeps ProtocolState.passthrough_data t w ready off = absurd ready
  by_state-Keeps ProtocolState.done t w ready off = absurd (cc)
  by_state-Keeps ProtocolState.message_begin t w ready off = message_begin-Keeps w ready off
  by_state-Keeps ProtocolState.message_end t w ready off = message_end-Keeps w ready off
  by_state-Keeps ProtocolState.struct_begin t w ready off = struct_begin-Keeps w ready off
  by_state-Keeps ProtocolState.struct_end t w ready off = struct_end-Keeps w ready off
  by_state-Keeps ProtocolState.field_begin t w ready off = field_begin-Keeps w ready off
  by_state-Keeps ProtocolState.field_value t w ready off = field_value-Keeps w ready off
  by_state-Keeps ProtocolState.field_end t w ready off = field_end-Keeps w ready off
  by_state-Keeps ProtocolState.list_begin t w ready off = list_begin-Keeps w ready off
  by_state-Keeps ProtocolState.list_value t w ready off = list_value-Keeps w ready off
  by_state-Keeps ProtocolState.list_end t w ready off = list_end-Keeps w ready off
  by_state-Keeps ProtocolState.map_begin t w ready off = map_begin-Keeps w ready off
  by_state-Keeps ProtocolState.map_key t w ready off = map_key-Keeps w ready off
  by_state-Keeps ProtocolState.map_value t w ready off = map_value-Keeps w ready off
  by_state-Keeps ProtocolState.map_end t w ready off = map_end-Keeps w ready off
  by_state-Keeps ProtocolState.set_begin t w ready off = set_begin-Keeps w ready off
  by_state-Keeps ProtocolState.set_value t w ready off = set_value-Keeps w ready off
  by_state-Keeps ProtocolState.set_end t w ready off = set_end-Keeps w ready off
