-- ===== src/Thrift/Machine/Rounds.antt =====
-- Rounds of the loop: more of them than are enough change nothing.
use meta_protocol_proxy.Base.{
  ℕ, zero, suc, ◌≤◌, ◌≡◌, ◌≢◌, refl, sym, ap, subst, ◌∙◌, Bool, true, false, ok, throws, panics,
  stuck, ◌>>=◌, arith, Bool-cases, inl, inr, ltb, ltb→lt, ltb→le, Safely,
}
use meta_protocol_proxy.Buffer.{BufferApi}
use meta_protocol_proxy.Thrift.Protocol.{ProtocolApi}
use meta_protocol_proxy.Thrift.State.{ProtocolState, is_waiting, is_done}
use meta_protocol_proxy.Thrift.Machine.{Machine, Step, handle_state, continue, round, run_loop}
use meta_protocol_proxy.Thrift.Machine.Steps.{Settled}

module _ (B : BufferApi) (P : ProtocolApi B) where
  continue_more :
      (n : ℕ) (x : Step B P)
      → ((w : Machine B P) → run_loop B P n w ≢ stuck → run_loop B P (suc n) w ≡ run_loop B P n w)
      → (x >>= continue B P (run_loop B P n)) ≢ stuck
      → (x >>= continue B P (run_loop B P (suc n))) ≡ (x >>= continue B P (run_loop B P n))
  unfolding continue
  continue_more n (ok (s, w)) more ends = by_test (is_waiting s) ends
    where
      by_test :
          (b : Bool)
          → (elim b [
            | true ↦ ok (ProtocolState.wait_for_data, w)
            | false ↦ run_loop B P n (record w { state = s })
          ])
            ≢ stuck
          → (elim b [
            | true ↦ ok (ProtocolState.wait_for_data, w)
            | false ↦ run_loop B P (suc n) (record w { state = s })
          ])
            ≡ (elim b [
              | true ↦ ok (ProtocolState.wait_for_data, w)
              | false ↦ run_loop B P n (record w { state = s })
            ])
      by_test true ends = refl
      by_test false ends = more (record w { state = s }) ends
  continue_more n (throws e) more ends = refl
  continue_more n panics more ends = refl
  continue_more n stuck more ends = refl

  -- One more round does not change what has come to an end.
  pub run_loop_more :
      (n : ℕ) (w : Machine B P)
      → run_loop B P n w ≢ stuck
      → run_loop B P (suc n) w ≡ run_loop B P n w
  unfolding run_loop round
  run_loop_more zero w ends = absurd (ends refl)
  run_loop_more (suc n) w ends = by_test (run_loop_more n) (is_done w.state) ends
    where
      by_test :
          ((w : Machine B P) → run_loop B P n w ≢ stuck → run_loop B P (suc n) w ≡ run_loop B P n w)
          → (b : Bool)
          → (elim b [
            | true ↦ ok (w.state, w)
            | false ↦ handle_state B P w >>= continue B P (run_loop B P n)
          ])
            ≢ stuck
          → (elim b [
            | true ↦ ok (w.state, w)
            | false ↦ handle_state B P w >>= continue B P (run_loop B P (suc n))
          ])
            ≡ (elim b [
              | true ↦ ok (w.state, w)
              | false ↦ handle_state B P w >>= continue B P (run_loop B P n)
            ])
      by_test more true ends = refl
      by_test more false ends = continue_more n (handle_state B P w) more ends

  run_loop_le :
      (m n : ℕ) (w : Machine B P)
      → n ≤ m
      → run_loop B P n w ≢ stuck
      → run_loop B P m w ≡ run_loop B P n w
  run_loop_le zero n w le ends = ap (λ (k : ℕ). run_loop B P k w) (omega arith)
  run_loop_le (suc m) n w le ends = elim (Bool-cases (ltb n (suc m))) [
    | inl lt ↦
        let same = run_loop_le m n w (omega (arith, ltb→lt n (suc m) lt)) ends in
        run_loop_more m w (λ e. ends (sym same ∙ e)) ∙ same
    | inr ge ↦ ap (λ (k : ℕ). run_loop B P k w) (omega (arith, ltb→le n (suc m) ge))
  ]

  -- Any two numbers of rounds that are enough give the same.
  pub run_loop_agree :
      (m n : ℕ) (w : Machine B P)
      → run_loop B P m w ≢ stuck
      → run_loop B P n w ≢ stuck
      → run_loop B P m w ≡ run_loop B P n w
  run_loop_agree m n w em en = elim (Bool-cases (ltb m n)) [
    | inl lt ↦ sym (run_loop_le n m w (omega (arith, ltb→lt m n lt)) em)
    | inr ge ↦ run_loop_le m n w (ltb→le m n ge) en
  ]

  pub Safely-ends : (x : Step B P) → Safely (Settled B P) x → x ≢ stuck
  Safely-ends x s e = elim (subst (Safely (Settled B P)) e s) [ ]
