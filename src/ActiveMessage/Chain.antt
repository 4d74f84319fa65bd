-- ===== src/ActiveMessage/Chain.antt =====
-- In what order the filters of a message run, and how far: active_message.cc, applyDecoderFilters,
-- applyEncoderFilters and the two prefix functions.
use meta_protocol_proxy.Base.{
  ℕ, suc, ◌+◌, ◌≡◌, ◌≢◌, refl, ap, ◌∙◌, true, false, Option, none, some, List, [], ◌∷◌, ◌++◌,
  length, drop, drop-append_length, if◌then◌else◌, arith,
}
use meta_protocol_proxy.Buffer.{BufferApi}
use meta_protocol_proxy.Metadata.{HeaderMapApi}
use meta_protocol_proxy.Decoder.{CodecApi}
use meta_protocol_proxy.Filters.{FilterStatus}
use meta_protocol_proxy.ActiveMessage.{
  Call, returns, ◌then_call◌, World, Filter, FilterIterationStartState, after_filter, iterate,
  prefix, apply_filters,
}

suc_add : (n : ℕ) → suc n + 1 ≡ suc (n + 1)
suc_add n = omega arith

drop_next {ℓ} :
    {A : Type ℓ} (xs : List A) (y : A) (ys : List A) → drop (length xs + 1) (xs ++ y ∷ ys) ≡ ys
drop_next [] y ys = refl
drop_next (x ∷ xs) y ys =
    ap (λ n. drop n (x ∷ (xs ++ y ∷ ys))) (suc_add (length xs)) ∙ drop_next xs y ys

module _ (B : BufferApi) (H : HeaderMapApi) (K : CodecApi B H) (E : Type 0) where
  -- Filters that all let the message through, from the first world to the second.
  pub data Passed : List (Filter B H K E) → World B H K E → World B H K E → Type 0 where
    all_passed : {w : World B H K E} → Passed [] w w
    one_passed :
        {f : Filter B H K E} {fs : List (Filter B H K E)} {u v w : World B H K E}
        → f u ≡ returns FilterStatus.continue_iteration v
        → v.local_response_sent ≡ false
        → Passed fs v w
        → Passed (f ∷ fs) u w

  iterate-Passed :
      {fs : List (Filter B H K E)} {u v : World B H K E} (gs : List (Filter B H K E))
      → Passed fs u v
      → iterate B H K E (fs ++ gs) u ≡ iterate B H K E gs v
  unfolding iterate after_filter
  iterate-Passed gs all_passed = refl
  iterate-Passed gs (one_passed {f = f} {fs = fs} {v = v} e h p) =
      ap (λ c. c then_call after_filter B H K E (iterate B H K E (fs ++ gs))) e
      ∙ ap
          (λ b.
            if b then returns FilterStatus.continue_iteration v else iterate B H K E (fs ++ gs) v)
          h
      ∙ iterate-Passed gs p

  after_filter_stops :
      (rest : World B H K E → Call (World B H K E) FilterStatus) (status : FilterStatus)
      (w : World B H K E)
      → status ≢ FilterStatus.continue_iteration
      → w.local_response_sent ≡ false
      → after_filter B H K E rest status w ≡ returns status w
  unfolding after_filter
  after_filter_stops rest FilterStatus.continue_iteration w ne h = absurd (ne refl)
  after_filter_stops rest FilterStatus.pause_iteration w ne h = rw h refl
  after_filter_stops rest FilterStatus.abort_iteration w ne h = rw h refl
  after_filter_stops rest FilterStatus.retry w ne h = rw h refl

  after_filter_replied :
      (rest : World B H K E → Call (World B H K E) FilterStatus) (status : FilterStatus)
      (w : World B H K E)
      → w.local_response_sent ≡ true
      → after_filter B H K E rest status w ≡ returns FilterStatus.continue_iteration w
  unfolding after_filter
  after_filter_replied rest FilterStatus.continue_iteration w h = rw h refl
  after_filter_replied rest FilterStatus.pause_iteration w h = rw h refl
  after_filter_replied rest FilterStatus.abort_iteration w h = rw h refl
  after_filter_replied rest FilterStatus.retry w h = rw h refl

  apply_filters_open :
      (filters : List (Filter B H K E)) (entry : Option ℕ) (state : FilterIterationStartState)
      (w : World B H K E)
      → w.local_response_sent ≡ false
      → apply_filters B H K E filters entry state w
        ≡ iterate B H K E (drop (prefix B H K E entry state) filters) w
  unfolding apply_filters
  apply_filters_open filters entry state w h = rw h refl

  apply_filters_closed :
      (filters : List (Filter B H K E)) (entry : Option ℕ) (state : FilterIterationStartState)
      (w : World B H K E)
      → w.local_response_sent ≡ true
      → apply_filters B H K E filters entry state w ≡ returns FilterStatus.continue_iteration w
  unfolding apply_filters
  apply_filters_closed filters entry state w h = rw h refl

  -- A filter that answers anything but ContinueIteration ends the iteration with its answer, and the
  -- filters behind it are not called; resuming at that filter with AlwaysStartFromNext runs
  -- just the filters behind it, and with CanStartFromCurrent the filter and those behind it.
  pub apply_filters_resumes :
      (before after : List (Filter B H K E)) (f : Filter B H K E) (status : FilterStatus)
      (state : FilterIterationStartState) (u v w x : World B H K E)
      → u.local_response_sent ≡ false
      → Passed before u v
      → f v ≡ returns status w
      → status ≢ FilterStatus.continue_iteration
      → w.local_response_sent ≡ false
      → x.local_response_sent ≡ false
      → (apply_filters B H K E (before ++ f ∷ after) none state u ≡ returns status w)
        × (apply_filters B H K E
              (before ++ f ∷ after)
              (some (length before))
              FilterIterationStartState.always_start_from_next
              x
            ≡ iterate B H K E after x)
        × (apply_filters B H K E
              (before ++ f ∷ after)
              (some (length before))
              FilterIterationStartState.can_start_from_current
              x
            ≡ iterate B H K E (f ∷ after) x)
  unfolding apply_filters prefix iterate
  apply_filters_resumes before after f status state u v w x hu p e ne hw hx = (
    apply_filters_open (before ++ f ∷ after) none state u hu
        ∙ iterate-Passed (f ∷ after) p
        ∙ ap (λ c. c then_call after_filter B H K E (iterate B H K E after)) e
        ∙ after_filter_stops (iterate B H K E after) status w ne hw,
    apply_filters_open (before ++ f ∷ after) (some (length before))
          FilterIterationStartState.always_start_from_next x hx
        ∙ ap (λ fs. iterate B H K E fs x) (drop_next before f after),
    apply_filters_open (before ++ f ∷ after) (some (length before))
          FilterIterationStartState.can_start_from_current x hx
        ∙ ap (λ fs. iterate B H K E fs x)
            (drop-append_length (length before) before (f ∷ after) refl),
  )

  -- A filter that has sent a local reply ends the iteration, whatever it answers, and the iteration
  -- reads as passed; from then on no filter is called.
  pub apply_filters_replied :
      (before after : List (Filter B H K E)) (f : Filter B H K E) (status : FilterStatus)
      (state : FilterIterationStartState) (entry : Option ℕ) (u v w : World B H K E)
      → u.local_response_sent ≡ false
      → Passed before u v
      → f v ≡ returns status w
      → w.local_response_sent ≡ true
      → (apply_filters B H K E (before ++ f ∷ after) none state u
          ≡ returns FilterStatus.continue_iteration w)
        × (apply_filters B H K E (before ++ f ∷ after) entry state w
            ≡ returns FilterStatus.continue_iteration w)
  unfolding apply_filters prefix iterate
  apply_filters_replied before after f status state entry u v w hu p e hw = (
    apply_filters_open (before ++ f ∷ after) none state u hu
        ∙ iterate-Passed (f ∷ after) p
        ∙ ap (λ c. c then_call after_filter B H K E (iterate B H K E after)) e
        ∙ after_filter_replied (iterate B H K E after) status w hw,
    apply_filters_closed _ entry state w hw,
  )
