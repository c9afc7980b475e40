-- ===== src/Runtime/Lifecycle/Results.antt =====
-- main/app_runtime.c: what the results of a start and of a stop mean.
use mathlib.Core.Bool.{false≢true}
use micro_tech.Prelude.{
  ◌≡◌, refl, sym, ap, ◌∙◌, ◌↔◌, ◌⊎◌, true, false, inl, inr, if◌then◌else◌, Bool-cases, EspErr, ok,
  invalid_state, is_ok, is_ok→eq,
}
use micro_tech.Runtime.State.{stopped, ready, cleanup_pending, Product, Host, Lifecycle}
use micro_tech.Runtime.Stop.{unwind}
use micro_tech.Runtime.Stop.Unwind.{unwind_result}
use micro_tech.Runtime.Start.{start_phases}
use micro_tech.Runtime.Lifecycle.{
  fresh, start_failed, launch, app_runtime_stop, app_runtime_start, app_runtime_is_running,
}
use micro_tech.Runtime.Lifecycle.Cases.{
  not_running, is_settled, busy_not_running, ready_running, stop-cases, start-cases,
}

module _ (product : Product) (host : Host) where
  -- A stop succeeds exactly when it ends in the state `stopped`.
  pub stop_ok_iff :
      (l : Lifecycle)
      → ((app_runtime_stop product host l).0 ≡ ok)
        ↔ ((app_runtime_stop product host l).1.state ≡ stopped)
  stop_ok_iff l =
      stop-cases product host l (λ x. (x.0 ≡ ok) ↔ (x.1.state ≡ stopped)) (λ e. (λ _. e, λ _. refl))
        (λ n. (
          λ e. absurd (false≢true (ap is_ok e)),
          λ e. absurd (false≢true (sym n ∙ ap is_settled e)),
        ))
        (unwind_result product host l).2

  -- After a stop the runtime does not run.
  pub stop_not_running :
      (l : Lifecycle) → app_runtime_is_running (app_runtime_stop product host l).1 ≡ false
  stop_not_running l =
      stop-cases product host l (λ x. app_runtime_is_running x.1 ≡ false)
        (λ e. not_running l (inl e)) (busy_not_running l)
        (not_running (unwind product host l).1 (unwind_result product host l).1)

  launch_result :
      (l : Lifecycle)
      → (is_ok (launch product host l).0 ≡ true) × ((launch product host l).1.state ≡ ready)
        ⊎ (is_ok (launch product host l).0 ≡ false)
          × (((launch product host l).1.state ≡ stopped)
              ⊎ ((launch product host l).1.state ≡ cleanup_pending))
  unfolding launch start_failed
  launch_result l = elim (Bool-cases (is_ok (start_phases product host (fresh l.runtime)).0)) [
    | inl y ↦ rw (y, if◌then◌else◌) (inl (y, refl))
    | inr e ↦ rw (e, if◌then◌else◌) (inr (e, (unwind_result product host _).1))
  ]

  -- A start succeeds exactly when the runtime runs after it.
  pub start_ok_iff :
      (l : Lifecycle)
      → ((app_runtime_start product host l).0 ≡ ok)
        ↔ (app_runtime_is_running (app_runtime_start product host l).1 ≡ true)
  start_ok_iff l =
      start-cases product host l Sound (λ e. (λ _. ready_running l e, λ _. refl))
        (λ n. failed (invalid_state, l) refl (busy_not_running l n)) (λ _. launched l)
        (λ _. launched (app_runtime_stop product host l).1)
        (λ _ n. failed (app_runtime_stop product host l) n (stop_not_running l))
    where
      Sound : EspErr × Lifecycle → Type 0
      Sound x = (x.0 ≡ ok) ↔ (app_runtime_is_running x.1 ≡ true)

      failed :
          (x : EspErr × Lifecycle)
          → is_ok x.0 ≡ false
          → app_runtime_is_running x.1 ≡ false
          → Sound x
      failed x n d =
          (λ e. absurd (false≢true (sym n ∙ ap is_ok e)), λ e. absurd (false≢true (sym d ∙ e)))

      launched : (k : Lifecycle) → Sound (launch product host k)
      launched k = elim (launch_result k) [
        | inl (y, e) ↦ (λ _. ready_running _ e, λ _. is_ok→eq _ y)
        | inr (n, e) ↦ failed (launch product host k) n (not_running _ e)
      ]
