-- ===== src/FsStorage/Mount.antt =====
-- main/fs_storage/fs_storage.c: which partitions are mounted.
use mathlib.Core.Bool.{false≢true}
use micro_tech.Prelude.{
  ◌≡◌, refl, sym, ap, ◌∙◌, Bool, true, false, inl, inr, [], ◌∷◌, arith, if◌then◌else◌, Bool-cases,
  Log, EspErr, is_ok,
}
use micro_tech.FsStorage.{
  State, uninitialized, initializing, ready, deinitializing, Call, mount_res, register_data,
  unregister_data, unmount_res, Storage, Host, call, mount_data, unmount_data, unmount_owned,
  mount_resources, fs_storage_is_initialized, launch, fs_storage_init, release, fs_storage_deinit,
}

-- Whether a partition is mounted after a history of calls.
unfoldable pub data_held : Log Call EspErr → Bool
data_held [] = false
data_held ((c, r) ∷ log) =
    let before = data_held log in
    if is_ok r
    then elim c [ register_data ↦ true | unregister_data ↦ false | _ ↦ before ]
    else before

unfoldable pub res_held : Log Call EspErr → Bool
res_held [] = false
res_held ((c, r) ∷ log) =
    let before = res_held log in
    if is_ok r then elim c [ mount_res ↦ true | unmount_res ↦ false | _ ↦ before ] else before

-- The two flags tell what is mounted.
pub record Told (s : Storage) : Type 0 where
  pub data_told : s.data_mounted ≡ data_held s.log
  pub res_told : s.res_mounted ≡ res_held s.log

module _ (host : Host) where
  unmount_data-Told : (s : Storage) → Told s → Told (unmount_data host s).1
  unfolding unmount_data call data_held res_held
  unmount_data-Told s h = record {
    data_told = ground (arith, h.data_told);
    res_told = ground (arith, h.res_told);
  }

  unmount_owned-Told : (s : Storage) → Told s → Told (unmount_owned host s).1
  unfolding unmount_owned call data_held res_held
  unmount_owned-Told s h =
      let k = unmount_data-Told s h in
      record { data_told = ground (arith, k.data_told); res_told = ground (arith, k.res_told) }

  mount_resources-Told :
      (adapter : Bool) (s : Storage)
      → s.res_mounted ≡ false
      → Told s
      → Told (mount_resources host adapter s)
  unfolding mount_resources call data_held res_held
  mount_resources-Told adapter s n h = record {
    data_told = ground (arith, h.data_told);
    res_told = ground (arith, h.res_told);
  }

  -- Mounting the data partition leaves it mounted exactly when it succeeds.
  mount_data_result :
      (s : Storage)
      → data_held s.log ≡ false
      → ((mount_data host s).1.data_mounted ≡ s.data_mounted)
        × ((mount_data host s).1.res_mounted ≡ s.res_mounted)
        × (res_held (mount_data host s).1.log ≡ res_held s.log)
        × (data_held (mount_data host s).1.log ≡ is_ok (mount_data host s).0)
  unfolding mount_data call data_held res_held
  mount_data_result s h = ground arith

  unmount_owned_ok :
      (s : Storage)
      → is_ok (unmount_owned host s).0 ≡ true
      → ((unmount_owned host s).1.data_mounted ≡ false)
        × ((unmount_owned host s).1.res_mounted ≡ false)
  unfolding unmount_owned unmount_data call
  unmount_owned_ok s h = ground arith

abbrev pub is_state : State → State → Bool
is_state uninitialized uninitialized = true
is_state initializing initializing = true
is_state ready ready = true
is_state deinitializing deinitializing = true
is_state _ _ = false

-- The flags tell what is mounted; nothing is mounted in the state `uninitialized`, and the data
-- partition is in the state `ready`.
pub record Valid (s : Storage) : Type 0 where
  pub told : Told s
  pub data_clear : is_state uninitialized s.state ≡ true → s.data_mounted ≡ false
  pub res_clear : is_state uninitialized s.state ≡ true → s.res_mounted ≡ false
  pub mounted : is_state ready s.state ≡ true → s.data_mounted ≡ true

by_state {ℓ κ} :
    {A : Type κ} (P : A → Type ℓ) (x : State) (a b c d : A)
    → (x ≡ uninitialized → P a)
    → (x ≡ initializing → P b)
    → (x ≡ ready → P c)
    → (x ≡ deinitializing → P d)
    → P (elim x [ uninitialized ↦ a | initializing ↦ b | ready ↦ c | deinitializing ↦ d ])
by_state P uninitialized a b c d p q r s = p refl
by_state P initializing a b c d p q r s = q refl
by_state P ready a b c d p q r s = r refl
by_state P deinitializing a b c d p q r s = s refl

module _ (host : Host) where
  state-unmount_owned : (s : Storage) → (unmount_owned host s).1.state ≡ s.state
  unfolding unmount_owned unmount_data call
  state-unmount_owned s = ground arith

  state-mount_data : (s : Storage) → (mount_data host s).1.state ≡ s.state
  unfolding mount_data call
  state-mount_data s = ground arith

  -- Behind an attempt to unmount: the new state is `uninitialized` when it has succeeded.
  unmounted-Valid :
      (s : Storage)
      → Told s
      → Valid (record (unmount_owned host s).1 {
        state = if is_ok (unmount_owned host s).0 then uninitialized else deinitializing;
      })
  unmounted-Valid s t =
      let u = unmount_owned-Told host s t in
      elim (Bool-cases (is_ok (unmount_owned host s).0)) [
        | inl y ↦
            rw (y, if◌then◌else◌)
              (record {
                told = record { data_told = u.data_told; res_told = u.res_told };
                data_clear = λ _. (unmount_owned_ok host s y).0;
                res_clear = λ _. (unmount_owned_ok host s y).1;
                mounted = λ e. absurd (false≢true e);
              })
        | inr n ↦
            rw (n, if◌then◌else◌)
              (record {
                told = record { data_told = u.data_told; res_told = u.res_told };
                data_clear = λ e. absurd (false≢true e);
                res_clear = λ e. absurd (false≢true e);
                mounted = λ e. absurd (false≢true e);
              })
      ]

  release_state :
      (s : Storage)
      → (release host s).1 ≡ record (unmount_owned host (record s { state = deinitializing })).1 {
        state =
            if is_ok (unmount_owned host (record s { state = deinitializing })).0
            then uninitialized
            else deinitializing;
      }
  unfolding release unmount_owned unmount_data call
  release_state s = ground arith

  release-Valid : (s : Storage) → Told s → Valid (release host s).1
  release-Valid s t = rw (release_state s) (
      unmounted-Valid (record s { state = deinitializing })
        (record { data_told = t.data_told; res_told = t.res_told }))

  data_mounted-mount_resources :
      (adapter : Bool) (s : Storage)
      → (mount_resources host adapter s).data_mounted ≡ s.data_mounted
  unfolding mount_resources call
  data_mounted-mount_resources adapter s = ground arith

  launch-Valid :
      (adapter : Bool) (s : Storage)
      → data_held s.log ≡ false
      → res_held s.log ≡ false
      → Valid (launch host adapter s).1
  unfolding launch
  launch-Valid adapter s d r =
      let begun : Storage = record s {
        state = initializing;
        res_mounted = false;
        data_mounted = false;
      } in
      let t =
        mount_resources-Told host adapter begun refl
          (record { data_told = sym d; res_told = sym r }) in
      let s₁ = mount_resources host adapter begun in
      let (e, f, g, h) =
        mount_data_result host s₁ (sym t.data_told ∙ data_mounted-mount_resources adapter begun) in
      elim (Bool-cases (is_ok (mount_data host s₁).0)) [
        | inl y ↦
            rw (y, if◌then◌else◌)
              (record {
                told = record { data_told = sym (h ∙ y); res_told = f ∙ t.res_told ∙ sym g };
                data_clear = λ e. absurd (false≢true e);
                res_clear = λ e. absurd (false≢true e);
                mounted = λ _. refl;
              })
        | inr n ↦
            rw (n, if◌then◌else◌)
              (unmounted-Valid (mount_data host s₁).1 (record {
                data_told = e ∙ data_mounted-mount_resources adapter begun ∙ sym n ∙ sym h;
                res_told = f ∙ t.res_told ∙ sym g;
              }))
      ]

  launch_running :
      (adapter : Bool) (s : Storage)
      → fs_storage_is_initialized (launch host adapter s).1 ≡ is_ok (launch host adapter s).0
  unfolding launch
  launch_running adapter s = ground arith

  release_running : (s : Storage) → fs_storage_is_initialized (release host s).1 ≡ false
  release_running s = rw (release_state s) (ground arith)

  pub fs_storage_init-Valid :
      (adapter : Bool) (s : Storage) → Valid s → Valid (fs_storage_init host adapter s).1
  unfolding fs_storage_init
  fs_storage_init-Valid adapter s v =
      by_state {A = EspErr × Storage} (λ x. Valid x.1) s.state _ _ _ _
        (λ e.
          launch-Valid adapter s
            (sym v.told.data_told ∙ v.data_clear (ap (is_state uninitialized) e))
            (sym v.told.res_told ∙ v.res_clear (ap (is_state uninitialized) e)))
        (λ _. v) (λ _. v) (λ _. v)

  pub fs_storage_deinit-Valid : (s : Storage) → Valid s → Valid (fs_storage_deinit host s).1
  unfolding fs_storage_deinit
  fs_storage_deinit-Valid s v =
      by_state {A = EspErr × Storage} (λ x. Valid x.1) s.state _ _ _ _ (λ _. v) (λ _. v)
        (λ _. release-Valid s v.told) (λ _. release-Valid s v.told)

  pub init_running :
      (adapter : Bool) (s : Storage)
      → fs_storage_is_initialized (fs_storage_init host adapter s).1
        ≡ is_ok (fs_storage_init host adapter s).0
  unfolding fs_storage_init
  init_running adapter s =
      by_state {A = EspErr × Storage} (λ x. fs_storage_is_initialized x.1 ≡ is_ok x.0) s.state _ _ _
        _ (λ _. launch_running adapter s) (λ e. rw e refl) (λ e. rw e refl) (λ e. rw e refl)
