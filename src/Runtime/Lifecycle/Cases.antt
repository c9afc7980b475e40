-- ===== src/Runtime/Lifecycle/Cases.antt =====
-- main/app_runtime.c: the ways through a start and a stop.
use mathlib.Core.Bool.{false≢true}
use micro_tech.Prelude.{
  ◌≡◌, refl, sym, ap, ◌∙◌, ◌⊎◌, Bool, true, false, not, inl, inr, if◌then◌else◌, Bool-cases, EspErr,
  ok, invalid_state, is_ok,
}
use micro_tech.Runtime.State.{
  RuntimeState, stopped, starting, ready, stopping, cleanup_pending, Product, Host, Lifecycle,
}
use micro_tech.Runtime.Stop.{has_owned_resources, unwind}
use micro_tech.Runtime.Lifecycle.{
  launch, app_runtime_stop, app_runtime_start, app_runtime_is_running,
}

pub not_running :
    (l : Lifecycle)
    → (l.state ≡ stopped) ⊎ (l.state ≡ cleanup_pending)
    → app_runtime_is_running l ≡ false
unfolding app_runtime_is_running
not_running l (inl e) = rw e refl
not_running l (inr e) = rw e refl

by_state {ℓ κ} :
    {A : Type κ} (P : A → Type ℓ) (x : RuntimeState) (a b c d e : A)
    → (x ≡ stopped → P a)
    → (x ≡ starting → P b)
    → (x ≡ ready → P c)
    → (x ≡ stopping → P d)
    → (x ≡ cleanup_pending → P e)
    → P (elim x [ stopped ↦ a | starting ↦ b | ready ↦ c | stopping ↦ d | cleanup_pending ↦ e ])
by_state P stopped a b c d e p q r s t = p refl
by_state P starting a b c d e p q r s t = q refl
by_state P ready a b c d e p q r s t = r refl
by_state P stopping a b c d e p q r s t = s refl
by_state P cleanup_pending a b c d e p q r s t = t refl

-- Neither a start nor a stop is running.
abbrev pub is_settled : RuntimeState → Bool
is_settled starting = false
is_settled stopping = false
is_settled _ = true

pub busy_not_running :
    (l : Lifecycle) → is_settled l.state ≡ false → app_runtime_is_running l ≡ false
unfolding app_runtime_is_running
busy_not_running l n =
    by_state (λ b. b ≡ false) l.state false false true false false (λ _. refl) (λ _. refl)
      (λ e. absurd (false≢true (sym n ∙ ap is_settled e))) (λ _. refl) (λ _. refl)

pub ready_running : (l : Lifecycle) → l.state ≡ ready → app_runtime_is_running l ≡ true
unfolding app_runtime_is_running
ready_running l e = rw e refl

module _ (product : Product) (host : Host) where
  -- The three ways through a stop.
  pub stop-cases {ℓ} :
      (l : Lifecycle) (P : EspErr × Lifecycle → Type ℓ)
      → (l.state ≡ stopped → P (ok, l))
      → (is_settled l.state ≡ false → P (invalid_state, l))
      → P (unwind product host l)
      → P (app_runtime_stop product host l)
  unfolding app_runtime_stop
  stop-cases l P idle busy unwound =
      by_state P l.state _ _ _ _ _
        (λ e. elim (Bool-cases (has_owned_resources product l.runtime)) [
          | inl y ↦ rw (y, not, if◌then◌else◌) unwound
          | inr n ↦ rw (n, not, if◌then◌else◌) (idle e)
        ])
        (λ e. busy (ap is_settled e)) (λ _. unwound) (λ e. busy (ap is_settled e)) (λ _. unwound)

  -- The five ways through a start.
  pub start-cases {ℓ} :
      (l : Lifecycle) (P : EspErr × Lifecycle → Type ℓ)
      → (l.state ≡ ready → P (ok, l))
      → (is_settled l.state ≡ false → P (invalid_state, l))
      → (l.state ≡ stopped → P (launch product host l))
      → (is_ok (app_runtime_stop product host l).0 ≡ true
          → P (launch product host (app_runtime_stop product host l).1))
      → (l.state ≡ cleanup_pending
          → is_ok (app_runtime_stop product host l).0 ≡ false
          → P (app_runtime_stop product host l))
      → P (app_runtime_start product host l)
  unfolding app_runtime_start
  start-cases l P running busy first again left =
      by_state P l.state _ _ _ _ _ first (λ e. busy (ap is_settled e)) running
        (λ e. busy (ap is_settled e))
        (λ e. elim (Bool-cases (is_ok (app_runtime_stop product host l).0)) [
          | inl y ↦ rw (y, if◌then◌else◌) (again y)
          | inr n ↦ rw (n, if◌then◌else◌) (left e n)
        ])
