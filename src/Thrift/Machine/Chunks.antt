-- ===== src/Thrift/Machine/Chunks.antt =====
-- The loop on a message that comes in pieces.
use meta_protocol_proxy.Base.{
  ℕ, zero, suc, ◌≡◌, ◌≢◌, refl, sym, ap, subst, ◌∙◌, Bool, true, false, List, if◌then◌else◌, ok,
  throws, panics, stuck, ◌>>=◌, inl, inr, Safely, Safely-ok,
}
use meta_protocol_proxy.Buffer.{BufferApi}
use meta_protocol_proxy.Thrift.Protocol.{ProtocolApi}
use meta_protocol_proxy.Thrift.State.{ProtocolState, is_waiting, is_done}
use meta_protocol_proxy.Thrift.Machine.{
  Machine, Step, by_state, handle_state, continue, round, run_loop, rounds, run,
}
use meta_protocol_proxy.Thrift.Machine.Ready.{Ready, is_done_eq}
use meta_protocol_proxy.Thrift.Machine.Steps.{Behaves, weight, Advances, Settled}
use meta_protocol_proxy.Thrift.Machine.Safety.{run-Settled}
use meta_protocol_proxy.Thrift.Machine.Handlers.{by_state-Handles}
use meta_protocol_proxy.Thrift.Machine.Lasting.{grown, Incremental, Extends}
use meta_protocol_proxy.Thrift.Machine.Resume.{by_state-Keeps}
use meta_protocol_proxy.Thrift.Machine.Rounds.{run_loop_more, run_loop_agree, Safely-ends}

module _ (B : BufferApi) (P : ProtocolApi B) where
  module _ (more : List ℕ) where
    -- What the loop does with more data behind, of what it does without.
    abbrev Follows : ℕ → Step B P → Step B P → Type 0
    Follows m (ok (s, w)) y =
        if is_waiting s
        then (y ≡ run_loop B P m (grown B P more w))
        else (y ≡ ok (s, grown B P more w))
    Follows m (throws e) y = y ≡ throws e
    Follows m panics y = y ≡ panics
    Follows m stuck y = Unit

    Follows-suc : (m : ℕ) (x y : Step B P) → y ≢ stuck → Follows m x y → Follows (suc m) x y
    Follows-suc m (ok (s, w)) y ends f = by_test (is_waiting s) f
      where
        by_test :
            (b : Bool)
            → (if b
                then (y ≡ run_loop B P m (grown B P more w))
                else (y ≡ ok (s, grown B P more w)))
            → if b
              then (y ≡ run_loop B P (suc m) (grown B P more w))
              else (y ≡ ok (s, grown B P more w))
        by_test true e =
            e ∙ sym (run_loop_more B P m (grown B P more w) (λ stops. ends (e ∙ stops)))
        by_test false e = e
    Follows-suc m (throws e) y ends f = f
    Follows-suc m panics y ends f = f
    Follows-suc m stuck y ends f = f

    -- What `run` gives with more bytes behind the buffer, of what it gives without.
    abbrev pub Resumes : Machine B P → Step B P → Type 0
    Resumes w (ok (s, w')) =
        if is_waiting s
        then (run B P (grown B P more w) ≡ run B P (grown B P more w'))
        else (run B P (grown B P more w) ≡ ok (s, grown B P more w'))
    Resumes w (throws e) = run B P (grown B P more w) ≡ throws e
    Resumes w panics = ⊥
    Resumes w stuck = ⊥

    module _ (h : Behaves B P) (i : Incremental B P more) where
      -- A round and what comes behind it, where the machine is not done.
      round-Follows :
          (f m : ℕ) (w : Machine B P) (x y : Step B P)
          → is_done w.state ≡ false
          → run_loop B P (suc m) (grown B P more w) ≡ (y >>= continue B P (run_loop B P m))
          → ((w' : Machine B P)
              → Ready w'.state w'.stack
              → w'.passthrough_enabled ≡ false
              → run_loop B P m (grown B P more w') ≢ stuck
              → Follows m (run_loop B P f w') (run_loop B P m (grown B P more w')))
          → Safely (Advances B P (weight B P w.state w) w) x
          → Extends B P more w x y
          → (y >>= continue B P (run_loop B P m)) ≢ stuck
          → Follows
              (suc m)
              (x >>= continue B P (run_loop B P f))
              (y >>= continue B P (run_loop B P m))
      unfolding continue
      round-Follows f m w (ok (s, w')) y busy same ih safe e ends = by_test (is_waiting s) refl e
        where
          moved : Machine B P
          moved = record w' { state = s }

          fits :
              Advances B P (weight B P w.state w) w (s, w')
              → is_waiting s ≡ false
              → Ready s w'.stack × (w'.passthrough_enabled ≡ false)
          fits (inl waits) eb = absurd (cc)
          fits (inr moves) eb = (moves.0, moves.2)

          by_test :
              (b : Bool)
              → is_waiting s ≡ b
              → (if b then w' ≡ w else (y ≡ ok (s, grown B P more w')))
              → Follows
                  (suc m)
                  (elim b [
                    | true ↦ ok (ProtocolState.wait_for_data, w')
                    | false ↦ run_loop B P f moved
                  ])
                  (y >>= continue B P (run_loop B P m))
          by_test true eb e =
              sym same ∙ ap (λ (v : Machine B P). run_loop B P (suc m) (grown B P more v)) (sym e)
          by_test false eb e =
              let goes : (y >>= continue B P (run_loop B P m))
                  ≡ run_loop B P m (grown B P more moved) =
                ap (λ (t : Step B P). t >>= continue B P (run_loop B P m)) e
                ∙ rw (eb, continue) refl in
              let on =
                λ (stops : run_loop B P m (grown B P more moved) ≡ stuck). ends (goes ∙ stops) in
              let (ready, off) = fits (Safely-ok safe) eb in
              subst (Follows (suc m) (run_loop B P f moved)) (sym goes) (
                Follows-suc m (run_loop B P f moved) (run_loop B P m (grown B P more moved)) on
                  (ih moved ready off on))
      round-Follows f m w (throws x) y busy same ih safe e ends = rw e refl
      round-Follows f m w panics y busy same ih safe e ends = rw e refl
      round-Follows f m w stuck y busy same ih safe e ends = tt

      run_loop-Follows :
          (f m : ℕ) (w : Machine B P)
          → Ready w.state w.stack
          → w.passthrough_enabled ≡ false
          → run_loop B P m (grown B P more w) ≢ stuck
          → Follows m (run_loop B P f w) (run_loop B P m (grown B P more w))
      unfolding run_loop round handle_state
      run_loop-Follows zero m w ready off ends = tt
      run_loop-Follows (suc f) zero w ready off ends = absurd (ends refl)
      run_loop-Follows (suc f) (suc m) w ready off ends =
          by_test (run_loop-Follows f m) (is_done w.state) refl ends
        where
          by_test :
              ((w' : Machine B P)
                → Ready w'.state w'.stack
                → w'.passthrough_enabled ≡ false
                → run_loop B P m (grown B P more w') ≢ stuck
                → Follows m (run_loop B P f w') (run_loop B P m (grown B P more w')))
              → (b : Bool) → is_done w.state ≡ b
              → (elim b [
                | true ↦ ok (w.state, grown B P more w)
                | false ↦ by_state B P w.state (grown B P more w) >>= continue B P (run_loop B P m)
              ])
                ≢ stuck
              → Follows
                  (suc m)
                  (elim b [
                    | true ↦ ok (w.state, w)
                    | false ↦ by_state B P w.state w >>= continue B P (run_loop B P f)
                  ])
                  (elim b [
                    | true ↦ ok (w.state, grown B P more w)
                    | false ↦
                        by_state B P w.state (grown B P more w) >>= continue B P (run_loop B P m)
                  ])
          by_test ih true e ends =
              subst (λ s. Follows (suc m) (ok (s, w)) (ok (s, grown B P more w)))
                (sym (is_done_eq w.state e)) refl
          by_test ih false e ends =
              round-Follows f m w (by_state B P w.state w) (by_state B P w.state (grown B P more w))
                e
                (ap
                  (λ (b : Bool). elim b [
                    | true ↦ ok (w.state, grown B P more w)
                    | false ↦
                        by_state B P w.state (grown B P more w) >>= continue B P (run_loop B P m)
                  ])
                  e)
                ih (by_state-Handles B P h w.state e w ready off)
                (by_state-Keeps B P more i w.state e w ready off) ends

      -- In a state whose stack fits, over reads and writes that return or throw, take a byte for a
      -- field, a container and a value, and look at what they take only: a run that waits has lost
      -- nothing, since a run on the buffer with more bytes behind it is the run that goes on from
      -- where it waits with these bytes; a run that ends the message, and one that throws, do the same
      -- with more bytes behind, which stay in the buffer. No run crashes.
      pub run-Resumes :
          (w : Machine B P)
          → Ready w.state w.stack
          → w.passthrough_enabled ≡ false
          → Resumes w (run B P w)
      unfolding run
      run-Resumes w ready off =
          by_run (run B P w) (run-Settled B P h w ready off)
            (run_loop-Follows (rounds B P w) (rounds B P (grown B P more w)) w ready off ends)
        where
          ends : run B P (grown B P more w) ≢ stuck
          ends =
              Safely-ends B P (run B P (grown B P more w))
                (run-Settled B P h (grown B P more w) ready off)

          by_run :
              (x : Step B P)
              → Safely (Settled B P) x
              → Follows (rounds B P (grown B P more w)) x (run B P (grown B P more w))
              → Resumes w x
          by_run (ok (s, w')) safe f = by_test (is_waiting s) refl f
            where
              again :
                  Settled B P (s, w') → is_waiting s ≡ true → run B P (grown B P more w') ≢ stuck
              again (inl finished) eb = absurd (cc)
              again (inr (_, ready', _, off')) eb =
                  Safely-ends B P _ (run-Settled B P h (grown B P more w') ready' off')

              by_test :
                  (b : Bool)
                  → is_waiting s ≡ b
                  → (if b
                      then (run B P (grown B P more w)
                          ≡ run_loop B P (rounds B P (grown B P more w)) (grown B P more w'))
                      else (run B P (grown B P more w) ≡ ok (s, grown B P more w')))
                  → if b
                    then (run B P (grown B P more w) ≡ run B P (grown B P more w'))
                    else (run B P (grown B P more w) ≡ ok (s, grown B P more w'))
              by_test true eb g =
                  g
                  ∙ run_loop_agree B P _ _ (grown B P more w') (λ e. ends (g ∙ e))
                      (again (Safely-ok safe) eb)
              by_test false eb g = g
          by_run (throws e) safe f = f
          by_run panics safe f = elim safe [ ]
          by_run stuck safe f = elim safe [ ]
