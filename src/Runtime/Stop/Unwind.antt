-- ===== src/Runtime/Stop/Unwind.antt =====
-- main/app_runtime.c: the outcome of `_app_runtime_unwind`.
use mathlib.Core.Bool.{false≢true}
use micro_tech.Prelude.{
  ◌≡◌, refl, sym, ap, ◌∙◌, ◌≢◌, ◌↔◌, ◌⊎◌, Bool, true, false, not, inl, inr, List, [], ◌∷◌, arith,
  if◌then◌else◌, Bool-cases, EspErr, ok, invalid_state, is_ok, is_ok→eq, ◌||◌, ◌&&◌,
}
use micro_tech.Runtime.State.{
  RuntimeState, stopped, cleanup_pending, Flag, nv, factory_reset, onboarding, fs, bsp,
  display_lease, time_subscription, display_benchmark, Product, Host, Runtime, Lifecycle, same,
  same_refl, held, Accounted,
}
use micro_tech.Runtime.Stop.Attempt.{none_owned}
use micro_tech.Runtime.Stop.Release.{is_service, stop_services-Clears, stop_services-benchmark}
use micro_tech.Runtime.Stop.Kept.{stop_services-Keeps, stop_services-Shrinks}
use micro_tech.Runtime.Stop.Foundations.{
  stop_foundations-Accounted, stop_foundations-Shrinks, stop_foundations-ok,
  stop_foundations-Blames,
}
use micro_tech.Runtime.Stop.{
  counted_flags, any_owned, has_owned_resources, forget, stop_services, stop_foundations, unwind,
}

-- A build without the benchmark has no flag for it.
abbrev pub Benchmarked : Product → Runtime → Type 0
Benchmarked product s = product.benchmark ≡ false → s.owned display_benchmark ≡ false

unowned :
    (o : Flag → Bool)
    → any_owned o counted_flags ≡ false
    → o time_subscription ≡ false
    → o display_benchmark ≡ false
    → (f : Flag) → o f ≡ false
unfolding any_owned same
unowned o h t b time_subscription = t
unowned o h t b display_benchmark = b
unowned o h t b f = none_owned o counted_flags h f refl

not_held :
    (s : Runtime)
    → Accounted s
    → ((f : Flag) → s.owned f ≡ false)
    → (f : Flag) → held f s.log ≡ false
not_held s a n f = elim (Bool-cases (held f s.log)) [
  | inl y ↦ absurd (false≢true (sym (n f) ∙ a f y))
  | inr h ↦ h
]

or_split : (a b : Bool) → (a || b) ≡ true → (a ≡ true) ⊎ (b ≡ true)
or_split true b h = inl refl
or_split false b h = inr h

all_clear :
    (o : Flag → Bool) (fl : List Flag)
    → ((f : Flag) → any_owned (same f) fl ≡ true → o f ≡ false)
    → any_owned o fl ≡ false
unfolding any_owned
all_clear o [] h = refl
all_clear o (g ∷ fl) h =
    rw (h g (rw (same_refl g) refl), all_clear o fl (λ f m. h f (rw m (ground arith)))) refl

foundations_unowned :
    (o : Flag → Bool)
    → any_owned o counted_flags ≡ false
    → any_owned o (nv ∷ factory_reset ∷ onboarding ∷ fs ∷ bsp ∷ display_lease ∷ []) ≡ false
unfolding any_owned same
foundations_unowned o h =
    rw
      (
        none_owned o counted_flags h nv refl,
        none_owned o counted_flags h factory_reset refl,
        none_owned o counted_flags h onboarding refl,
        none_owned o counted_flags h fs refl,
        none_owned o counted_flags h bsp refl,
        none_owned o counted_flags h display_lease refl,
      )
      refl

abbrev is_stopped : RuntimeState → Bool
is_stopped stopped = true
is_stopped _ = false

pending_stopped : cleanup_pending ≢ stopped
pending_stopped e = false≢true (ap is_stopped e)

left_error : (e : EspErr) → (if is_ok e then invalid_state else e) ≢ ok
left_error e h = ground arith

module _ (product : Product) (host : Host) where
  -- Each flag that counts is released by the service phases or by the foundations.
  counted_split :
      (f : Flag)
      → any_owned (same f) counted_flags ≡ true
      → (is_service product host f
          || any_owned (same f) (nv ∷ factory_reset ∷ onboarding ∷ fs ∷ bsp ∷ display_lease ∷ []))
        ≡ true
  unfolding any_owned same
  counted_split display_benchmark h = absurd (false≢true h)
  counted_split _ h = refl

  abbrev pub served : Runtime → EspErr × Runtime
  served s = stop_services product host s

  abbrev pub ended : Runtime → EspErr × Runtime
  ended s = stop_foundations host (served s).1

  -- The three ways through the unwinding.
  pub unwind-cases {ℓ} :
      (l : Lifecycle) (P : EspErr × Lifecycle → Type ℓ)
      → (is_ok (served l.runtime).0 ≡ false
          → P (
            (served l.runtime).0,
            record l { state = cleanup_pending; admitted = false; runtime = (served l.runtime).1 },
          ))
      → (is_ok (served l.runtime).0 ≡ true
          → has_owned_resources product (ended l.runtime).1 ≡ false
          → P (
            (ended l.runtime).0,
            record l { state = stopped; admitted = false; runtime = forget (ended l.runtime).1 },
          ))
      → (is_ok (served l.runtime).0 ≡ true
          → has_owned_resources product (ended l.runtime).1 ≡ true
          → P (
            if is_ok (ended l.runtime).0 then invalid_state else (ended l.runtime).0,
            record l { state = cleanup_pending; admitted = false; runtime = (ended l.runtime).1 },
          ))
      → P (unwind product host l)
  unfolding unwind
  unwind-cases l P blocked clean left = elim (Bool-cases (is_ok (served l.runtime).0)) [
    | inr n ↦ rw (n, if◌then◌else◌) (blocked n)
    | inl y ↦ elim (Bool-cases (has_owned_resources product (ended l.runtime).1)) [
      | inl o ↦ rw (y, o, not, if◌then◌else◌) (left y o)
      | inr o ↦ rw (y, o, not, if◌then◌else◌) (clean y o)
    ]
  ]

  ended-Accounted : (s : Runtime) → Accounted s → Accounted (ended s).1
  ended-Accounted s a = stop_foundations-Accounted host _ (stop_services-Keeps product host s a)

  -- When the service phases have succeeded and no counted flag is left, no flag is left.
  ended-unowned :
      (s : Runtime)
      → Benchmarked product s
      → is_ok (served s).0 ≡ true
      → has_owned_resources product (ended s).1 ≡ false
      → (f : Flag) → (ended s).1.owned f ≡ false
  unfolding has_owned_resources same
  ended-unowned s b y o =
      unowned (ended s).1.owned (ground arith)
        (stop_foundations-Shrinks host time_subscription _
          (stop_services-Clears product host time_subscription refl s y))
        (elim (Bool-cases product.benchmark) [
          | inl on ↦ ground (arith, rw on at o)
          | inr off ↦
              stop_foundations-Shrinks host display_benchmark _
                (stop_services-Shrinks product host s display_benchmark (b off))
        ])

  -- When neither the service phases nor the foundations fail, nothing that counts is left.
  pub ended_clear :
      (s : Runtime)
      → is_ok (served s).0 ≡ true
      → (ended s).0 ≡ ok
      → has_owned_resources product (ended s).1 ≡ false
  unfolding has_owned_resources
  ended_clear s y e =
      rw
        (all_clear (ended s).1.owned counted_flags (λ f m.
          elim (or_split (is_service product host f) _ (counted_split f m)) [
            | inl i ↦ stop_foundations-Shrinks host f _ (stop_services-Clears product host f i s y)
            | inr h ↦ none_owned (ended s).1.owned _ (stop_foundations-ok host (served s).1 e) f h
          ]))
        (benchmark_clear product.benchmark refl)
    where
      benchmark_clear :
          (b : Bool) → product.benchmark ≡ b → (b && (ended s).1.owned display_benchmark) ≡ false
      benchmark_clear false _ = refl
      benchmark_clear true on =
          stop_foundations-Shrinks host display_benchmark _
            (stop_services-benchmark product host on s y)

  -- An error of the foundations is to blame on a flag that is left.
  clean_ok : (s : Runtime) → has_owned_resources product (ended s).1 ≡ false → (ended s).0 ≡ ok
  unfolding has_owned_resources
  clean_ok s o = elim (Bool-cases (is_ok (ended s).0)) [
    | inl y ↦ is_ok→eq (ended s).0 y
    | inr n ↦ absurd (
        false≢true (
          sym (foundations_unowned (ended s).1.owned (ground arith))
          ∙ stop_foundations-Blames host (served s).1 n))
  ]

  -- The unwinding keeps every service that is held accounted for.
  pub unwind-Accounted :
      (l : Lifecycle)
      → Accounted l.runtime
      → Benchmarked product l.runtime
      → Accounted (unwind product host l).1.runtime
  unfolding forget
  unwind-Accounted l a b =
      unwind-cases l (λ x. Accounted x.1.runtime)
        (λ _. stop_services-Keeps product host l.runtime a)
        (λ y o f h. absurd (
          false≢true (
            sym (
              not_held (ended l.runtime).1 (ended-Accounted l.runtime a)
                (ended-unowned l.runtime b y o) f)
            ∙ h)))
        (λ _ _. ended-Accounted l.runtime a)

  pub unwind-Benchmarked :
      (l : Lifecycle)
      → Benchmarked product l.runtime
      → Benchmarked product (unwind product host l).1.runtime
  unfolding forget
  unwind-Benchmarked l b off =
      unwind-cases l (λ x. x.1.runtime.owned display_benchmark ≡ false)
        (λ _. stop_services-Shrinks product host l.runtime display_benchmark (b off)) (λ _ _. refl)
        (λ _ _.
          stop_foundations-Shrinks host display_benchmark _
            (stop_services-Shrinks product host l.runtime display_benchmark (b off)))

  -- The unwinding closes the admission of standby and ends in the state `stopped` or
  -- `cleanup_pending`; and its result is `ok` exactly when it ends in `stopped`.
  pub unwind_result :
      (l : Lifecycle)
      → ((unwind product host l).1.admitted ≡ false)
        × (((unwind product host l).1.state ≡ stopped)
            ⊎ ((unwind product host l).1.state ≡ cleanup_pending))
        × (((unwind product host l).0 ≡ ok) ↔ ((unwind product host l).1.state ≡ stopped))
  unwind_result l =
      unwind-cases l
        (λ x.
          (x.1.admitted ≡ false)
          × ((x.1.state ≡ stopped) ⊎ (x.1.state ≡ cleanup_pending))
          × ((x.0 ≡ ok) ↔ (x.1.state ≡ stopped)))
        (λ n. (
          refl,
          inr refl,
          (λ e. absurd (false≢true (sym n ∙ ap is_ok e)), λ e. absurd (pending_stopped e)),
        ))
        (λ _ o. (refl, inl refl, (λ _. refl, λ _. clean_ok l.runtime o)))
        (λ _ _. (
          refl,
          inr refl,
          (λ e. absurd (left_error (ended l.runtime).0 e), λ e. absurd (pending_stopped e)),
        ))

  -- When the unwinding ends in `stopped`, no service is held any more, provided that those held
  -- before were accounted for and a build without the benchmark had no flag for it.
  pub unwind_releases :
      (l : Lifecycle)
      → Accounted l.runtime
      → Benchmarked product l.runtime
      → (unwind product host l).1.state ≡ stopped
      → (f : Flag) → held f (unwind product host l).1.runtime.log ≡ false
  unfolding forget
  unwind_releases l a b =
      unwind-cases l (λ x. x.1.state ≡ stopped → (f : Flag) → held f x.1.runtime.log ≡ false)
        (λ _ e. absurd (pending_stopped e))
        (λ y o _.
          not_held (ended l.runtime).1 (ended-Accounted l.runtime a)
            (ended-unowned l.runtime b y o))
        (λ _ _ e. absurd (pending_stopped e))
