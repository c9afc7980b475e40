-- ===== src/Runtime/Stop/Storage.antt =====
-- main/app_runtime.c: the file system, the onboarding, the factory reset and the non-volatile storage
-- in `_app_runtime_stop_foundations`.
use micro_tech.Prelude.{
  ◌≡◌, refl, false, not, ◌&&◌, inl, inr, List, [], ◌∷◌, arith, if◌then◌else◌, Bool-cases, EspErr,
  ok,
}
use micro_tech.Runtime.State.{
  Flag, nv, factory_reset, fs, bsp, display_lease, onboarding, fs_deinit, onboarding_deinit,
  reset_service_deinit, nv_deinit, Host, Runtime, same, Accounted,
}
use micro_tech.Runtime.Stop.Attempt.{
  Blames, attempt-Accounted, attempt-Shrinks, attempt-ok, attempt-Blames,
}
use micro_tech.Runtime.Stop.{any_owned, attempt, stop_storage, stop_nv}

module _ (host : Host) where
  -- The blocks of the storage: file system, onboarding and factory reset.
  pub stop_storage-Accounted :
      (acc : EspErr × Runtime) → Accounted acc.1 → Accounted (stop_storage host acc).1
  unfolding stop_storage same
  stop_storage-Accounted acc a =
      attempt-Accounted host factory_reset reset_service_deinit (λ _. refl) (λ r h. ground arith) _
        (attempt-Accounted host onboarding onboarding_deinit (λ _. refl) (λ r h. ground arith) _
          (attempt-Accounted host fs fs_deinit (λ _. refl) (λ r h. ground arith) acc a))

  pub stop_storage-Shrinks :
      (g : Flag) (acc : EspErr × Runtime)
      → acc.1.owned g ≡ false
      → (stop_storage host acc).1.owned g ≡ false
  unfolding stop_storage
  stop_storage-Shrinks g acc e = attempt-Shrinks host factory_reset g reset_service_deinit _ (
      attempt-Shrinks host onboarding g onboarding_deinit _
        (attempt-Shrinks host fs g fs_deinit acc e))

  pub stop_storage-ok :
      (acc : EspErr × Runtime)
      → (stop_storage host acc).0 ≡ ok
      → (acc.0 ≡ ok)
        × ((stop_storage host acc).1.owned fs ≡ false)
        × ((stop_storage host acc).1.owned onboarding ≡ false)
        × ((stop_storage host acc).1.owned factory_reset ≡ false)
  unfolding stop_storage
  stop_storage-ok acc h =
      let (h₁, gone₁) = attempt-ok host factory_reset reset_service_deinit _ h in
      let (h₂, gone₂) = attempt-ok host onboarding onboarding_deinit _ h₁ in
      let (h₃, gone₃) = attempt-ok host fs fs_deinit acc h₂ in
      (
        h₃,
        attempt-Shrinks host factory_reset fs reset_service_deinit _
            (attempt-Shrinks host onboarding fs onboarding_deinit _ gone₃),
        attempt-Shrinks host factory_reset onboarding reset_service_deinit _ gone₂,
        gone₁,
      )

  pub stop_storage-Blames :
      (acc : EspErr × Runtime)
      → Blames (bsp ∷ display_lease ∷ []) acc
      → Blames (factory_reset ∷ onboarding ∷ fs ∷ bsp ∷ display_lease ∷ []) (stop_storage host acc)
  unfolding stop_storage any_owned same
  stop_storage-Blames acc h =
      attempt-Blames host factory_reset reset_service_deinit
        (onboarding ∷ fs ∷ bsp ∷ display_lease ∷ []) _ refl
        (attempt-Blames host onboarding onboarding_deinit (fs ∷ bsp ∷ display_lease ∷ []) _ refl
          (attempt-Blames host fs fs_deinit (bsp ∷ display_lease ∷ []) acc refl h))

  -- `nv_storage_deinit` runs only once the factory-reset service is gone.
  stop_nv-cases {ℓ} :
      (first : EspErr) (s : Runtime) (P : EspErr × Runtime → Type ℓ)
      → P (attempt host nv nv_deinit (first, s))
      → ((s.owned nv && not (s.owned factory_reset)) ≡ false → P (first, s))
      → P (stop_nv host (first, s))
  unfolding stop_nv
  stop_nv-cases first s P runs skipped =
      elim (Bool-cases (s.owned nv && not (s.owned factory_reset))) [
        | inl y ↦ rw (y, if◌then◌else◌) runs
        | inr n ↦ rw (n, if◌then◌else◌) (skipped n)
      ]

  pub stop_nv-Accounted :
      (acc : EspErr × Runtime) → Accounted acc.1 → Accounted (stop_nv host acc).1
  unfolding same
  stop_nv-Accounted (first, s) a =
      stop_nv-cases first s (λ x. Accounted x.1)
        (attempt-Accounted host nv nv_deinit (λ _. refl) (λ r h. ground arith) (first, s) a)
        (λ _. a)

  pub stop_nv-Shrinks :
      (g : Flag) (acc : EspErr × Runtime)
      → acc.1.owned g ≡ false
      → (stop_nv host acc).1.owned g ≡ false
  stop_nv-Shrinks g (first, s) e =
      stop_nv-cases first s (λ x. x.1.owned g ≡ false)
        (attempt-Shrinks host nv g nv_deinit (first, s) e) (λ _. e)

  pub stop_nv-ok :
      (acc : EspErr × Runtime)
      → (stop_nv host acc).0 ≡ ok
      → (acc.0 ≡ ok) × (acc.1.owned factory_reset ≡ false → (stop_nv host acc).1.owned nv ≡ false)
  stop_nv-ok (first, s) =
      stop_nv-cases first s
        (λ x. x.0 ≡ ok → (first ≡ ok) × (s.owned factory_reset ≡ false → x.1.owned nv ≡ false))
        (λ e. let (h, gone) = attempt-ok host nv nv_deinit (first, s) e in (h, λ _. gone))
        (λ n e. (e, λ gone. ground arith))

  pub stop_nv-Blames :
      (fl : List Flag) (acc : EspErr × Runtime)
      → any_owned (same nv) fl ≡ false
      → Blames fl acc
      → Blames (nv ∷ fl) (stop_nv host acc)
  unfolding any_owned
  stop_nv-Blames fl (first, s) d h =
      stop_nv-cases first s (Blames (nv ∷ fl)) (attempt-Blames host nv nv_deinit fl (first, s) d h)
        (λ _ e. rw (h e) (ground arith))
