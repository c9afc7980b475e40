-- ===== src/Runtime/Stop/Foundations.antt =====
-- main/app_runtime.c: `_app_runtime_stop_foundations`.
use micro_tech.Prelude.{◌≡◌, refl, false, [], ◌∷◌, ok}
use micro_tech.Runtime.State.{
  Flag, nv, factory_reset, fs, bsp, display_lease, onboarding, Host, Runtime, same, Accounted,
}
use micro_tech.Runtime.Stop.Attempt.{Blames}
use micro_tech.Runtime.Stop.{any_owned, stop_display, stop_storage, stop_foundations}
use micro_tech.Runtime.Stop.Storage.{
  stop_storage-Accounted, stop_storage-Shrinks, stop_storage-ok, stop_storage-Blames,
  stop_nv-Accounted, stop_nv-Shrinks, stop_nv-ok, stop_nv-Blames,
}
use micro_tech.Runtime.Stop.Display.{
  stop_display-Accounted, stop_display-Shrinks, stop_display-ok, stop_display-Blames,
}

module _ (host : Host) where
  pub stop_foundations-Accounted :
      (s : Runtime) → Accounted s → Accounted (stop_foundations host s).1
  unfolding stop_foundations
  stop_foundations-Accounted s a =
      stop_nv-Accounted host _ (stop_storage-Accounted host _ (stop_display-Accounted host s a))

  pub stop_foundations-Shrinks :
      (g : Flag) (s : Runtime) → s.owned g ≡ false → (stop_foundations host s).1.owned g ≡ false
  unfolding stop_foundations
  stop_foundations-Shrinks g s e =
      stop_nv-Shrinks host g _ (stop_storage-Shrinks host g _ (stop_display-Shrinks host g s e))

  -- Without an error, all six resources have been released.
  pub stop_foundations-ok :
      (s : Runtime)
      → (stop_foundations host s).0 ≡ ok
      → any_owned
          (stop_foundations host s).1.owned
          (nv ∷ factory_reset ∷ onboarding ∷ fs ∷ bsp ∷ display_lease ∷ [])
        ≡ false
  unfolding stop_foundations any_owned
  stop_foundations-ok s h =
      let shown = stop_display host s in
      let stored = stop_storage host shown in
      let (h₁, nv_gone) = stop_nv-ok host stored h in
      let (h₂, fs_gone, onboarding_gone, reset_gone) = stop_storage-ok host shown h₁ in
      let (board_free, lease_free) = stop_display-ok host s h₂ in
      rw
        (
          nv_gone reset_gone,
          stop_nv-Shrinks host factory_reset stored reset_gone,
          stop_nv-Shrinks host onboarding stored onboarding_gone,
          stop_nv-Shrinks host fs stored fs_gone,
          stop_nv-Shrinks host bsp stored (stop_storage-Shrinks host bsp shown board_free),
          stop_nv-Shrinks host display_lease stored
              (stop_storage-Shrinks host display_lease shown lease_free),
        )
        refl

  -- An error means that one of the six is still owned.
  pub stop_foundations-Blames :
      (s : Runtime)
      → Blames
          (nv ∷ factory_reset ∷ onboarding ∷ fs ∷ bsp ∷ display_lease ∷ [])
          (stop_foundations host s)
  unfolding stop_foundations any_owned same
  stop_foundations-Blames s =
      stop_nv-Blames host (factory_reset ∷ onboarding ∷ fs ∷ bsp ∷ display_lease ∷ []) _ refl
        (stop_storage-Blames host _ (stop_display-Blames host s))
