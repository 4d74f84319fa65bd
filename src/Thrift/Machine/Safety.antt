-- ===== src/Thrift/Machine/Safety.antt =====
-- The machine never returns to a frame that is not there, and its loop ends.
use meta_protocol_proxy.Base.{
  ℕ, zero, suc, ◌<◌, ◌≡◌, refl, inl, inr, Bool, true, false, ok, ◌>>=◌, Safely, gives, Safely-bind,
  arith,
}
use meta_protocol_proxy.Buffer.{BufferApi}
use meta_protocol_proxy.Thrift.Protocol.{ProtocolApi}
use meta_protocol_proxy.Thrift.State.{ProtocolState, is_done}
use meta_protocol_proxy.Thrift.Machine.{
  Machine, Step, by_state, handle_state, continue, round, run_loop, rounds, run,
}
use meta_protocol_proxy.Thrift.Machine.Ready.{Ready, rank_le, is_done_eq, Ready-busy}
use meta_protocol_proxy.Thrift.Machine.Steps.{Behaves, weight, Advances, Settled}
use meta_protocol_proxy.Thrift.Machine.Handlers.{by_state-Handles}

module _ (B : BufferApi) (P : ProtocolApi B) (h : Behaves B P) where
  open B use {size}

  -- A round that waits ends the loop, and one that moves goes on with less to do.
  continue-Settled :
      (again : Machine B P → Step B P) (n : ℕ) (w : Machine B P) (t : ProtocolState × Machine B P)
      → Ready w.state w.stack
      → is_done w.state ≡ false
      → ((w' : Machine B P)
          → Ready w'.state w'.stack
          → w'.passthrough_enabled ≡ false
          → weight B P w'.state w' < n
          → Safely (Settled B P) (again w'))
      → Advances B P n w t
      → Safely (Settled B P) (continue B P again t)
  unfolding continue
  continue-Settled again n w (s, w') ready busy go_on (inl (e, same, stack, off)) =
      rw e (gives (inr (refl, rw (same, stack) ready, rw same busy, off)))
  continue-Settled again n w (s, w') ready busy go_on (inr (ready', lt, off)) =
      rw (Ready-busy s w'.stack ready', continue) (go_on (record w' { state = s }) ready' off lt)

  run_loop-Settled :
      (fuel : ℕ) (w : Machine B P)
      → Ready w.state w.stack
      → w.passthrough_enabled ≡ false
      → weight B P w.state w < fuel
      → Safely (Settled B P) (run_loop B P fuel w)
  unfolding run_loop round handle_state
  run_loop-Settled zero w ready off lt = absurd (omega arith)
  run_loop-Settled (suc fuel) w ready off lt =
      by_test (λ w' ready' off' lt'. run_loop-Settled fuel w' ready' off' (omega arith))
        (is_done w.state) refl
    where
      by_test :
          ((w' : Machine B P)
            → Ready w'.state w'.stack
            → w'.passthrough_enabled ≡ false
            → weight B P w'.state w' < weight B P w.state w
            → Safely (Settled B P) (run_loop B P fuel w'))
          → (b : Bool) → is_done w.state ≡ b
          → Safely (Settled B P) (elim b [
            | true ↦ ok (w.state, w)
            | false ↦ by_state B P w.state w >>= continue B P (run_loop B P fuel)
          ])
      by_test go_on true e = gives (inl (is_done_eq w.state e, is_done_eq w.state e, off))
      by_test go_on false e =
          Safely-bind (by_state-Handles B P h w.state e w ready off)
            (λ t a. continue-Settled (run_loop B P fuel) (weight B P w.state w) w t ready e go_on a)

  -- In a state whose stack fits, over reads and writes that return or throw, where a field, a
  -- container and a value take a byte each: `run`, with its rounds, returns or throws. It never asks
  -- an empty stack for a frame and never comes to a state without a handler. Where it returns, the
  -- message is at its end, or it waits for data in a state whose stack fits again.
  pub run-Settled :
      (w : Machine B P)
      → Ready w.state w.stack
      → w.passthrough_enabled ≡ false
      → Safely (Settled B P) (run B P w)
  unfolding run
  run-Settled w ready off =
      run_loop-Settled (rounds B P w) w ready off (omega (arith, rank_le w.state))
