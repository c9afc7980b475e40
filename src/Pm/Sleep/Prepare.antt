-- ===== src/Pm/Sleep/Prepare.antt =====
-- main/app_runtime_pm.c: `_app_runtime_pm_prepare_sleep` on its branches.
use mathlib.Core.Bool.{false≢true}
use micro_tech.Prelude.{
  ◌≡◌, ◌≢◌, refl, ap, sym, ◌∙◌, ◌⊎◌, true, false, inl, inr, [], map, arith, push_all, if◌then◌else◌,
  EspErr, ok, invalid_state, is_ok, is_ok→eq, Bool-cases,
}
use micro_tech.Pm.Context.{Participant, required, any_required, same, not-any_required}
use micro_tech.Pm.Sleep.{
  resume, Host, Sleep, recorder_busy, prepare_guard, resume_order, suspend_order, suspend_each,
  prepare_failed, recover, suspend_all, prepare_sleep,
}
use micro_tech.Pm.Sleep.Complete.{complete_sleep_result}
use micro_tech.Pm.Sleep.Calls.{calls, armed_of, calls-complete_sleep}
use micro_tech.Pm.Sleep.Pending.{pending, Tracked, complete_sleep-Tracked, suspend_each-Tracked}

pub not_pending :
    (s : Sleep)
    → Tracked s
    → (p : Participant) → required p s.context ≡ false
    → pending p s.log ≡ false
not_pending s h p n = elim (Bool-cases (pending p s.log)) [
  | inl y ↦ absurd (false≢true (sym n ∙ h p y))
  | inr f ↦ f
]

module _ (host : Host) where
  recover-Tracked : (s : Sleep) → Tracked s → Tracked (recover host s).1
  unfolding recover
  recover-Tracked s h = elim (Bool-cases (any_required s.context)) [
    | inl y ↦ rw (y, if◌then◌else◌) (complete_sleep-Tracked host s h)
    | inr n ↦ rw (n, if◌then◌else◌) h
  ]

  -- After a recovery that succeeds no participant has to be resumed.
  pub recover-clear :
      (s : Sleep)
      → is_ok (recover host s).0 ≡ true
      → (p : Participant) → required p (recover host s).1.context ≡ false
  unfolding recover
  recover-clear s h p = elim (Bool-cases (any_required s.context)) [
    | inl y ↦
        rw (y, if◌then◌else◌)
          ((complete_sleep_result host s).0 (is_ok→eq _ (rw (y, if◌then◌else◌) at h)) p)
    | inr n ↦ rw (n, if◌then◌else◌) (not-any_required p s.context n)
  ]

  suspend_all-Tracked :
      (s : Sleep)
      → Tracked s
      → ((p : Participant) → required p s.context ≡ false)
      → Tracked (suspend_all host s).1
  unfolding suspend_all prepare_failed same
  suspend_all-Tracked s h clear = elim (Bool-cases (is_ok (suspend_each host suspend_order s).0)) [
    | inl y ↦
        elim (Bool-cases (host.answer (suspend_each host suspend_order s).1.log prepare_guard)) [
          | inl g ↦ rw (y, if◌then◌else◌) (rw (g, if◌then◌else◌) kept)
          | inr g ↦
              rw (y, if◌then◌else◌) (rw (g, if◌then◌else◌) (complete_sleep-Tracked host _ kept))
        ]
    | inr n ↦ rw (n, if◌then◌else◌) (complete_sleep-Tracked host _ kept)
  ]
    where
      kept : Tracked (suspend_each host suspend_order s).1
      kept = suspend_each-Tracked host suspend_order s refl h (λ q _. not_pending s h q (clear q))

  -- The three ways through prepare: the recovery failed, the recorder was busy, or the suspend
  -- sequence ran.
  pub prepare_sleep-cases :
      (s : Sleep)
      → ((is_ok (recover host s).0 ≡ false) × (prepare_sleep host s ≡ recover host s))
        ⊎ (((is_ok (recover host s).0 ≡ true)
              × (host.answer (recover host s).1.log recorder_busy ≡ true)
              × (prepare_sleep host s ≡ (invalid_state, (recover host s).1)))
            ⊎ ((is_ok (recover host s).0 ≡ true)
                × (host.answer (recover host s).1.log recorder_busy ≡ false)
                × (prepare_sleep host s ≡ suspend_all host (recover host s).1)))
  unfolding prepare_sleep
  prepare_sleep-cases s = elim (Bool-cases (is_ok (recover host s).0)) [
    | inl y ↦ inr (elim (Bool-cases (host.answer (recover host s).1.log recorder_busy)) [
      | inl b ↦ inl (y, b, rw (y, if◌then◌else◌) (rw (b, if◌then◌else◌) refl))
      | inr b ↦ inr (y, b, rw (y, if◌then◌else◌) (rw (b, if◌then◌else◌) refl))
    ])
    | inr n ↦ inl (n, rw (n, if◌then◌else◌) refl)
  ]

  -- Prepare, on every branch and with every rollback, keeps the obligation of each participant
  -- that may still be suspended.
  pub prepare_sleep-Tracked : (s : Sleep) → Tracked s → Tracked (prepare_sleep host s).1
  prepare_sleep-Tracked s h = elim (prepare_sleep-cases s) [
    | inl (_, e) ↦ rw e (recover-Tracked s h)
    | inr (inl (_, _, e)) ↦ rw e (recover-Tracked s h)
    | inr (inr (y, _, e)) ↦
        rw e (suspend_all-Tracked (recover host s).1 (recover-Tracked s h) (recover-clear s y))
  ]

  pub calls-recover :
      (s : Sleep)
      → calls (recover host s).1.log
        ≡ push_all (map resume (armed_of s.context resume_order)) (calls s.log)
  unfolding recover
  calls-recover s = elim (Bool-cases (any_required s.context)) [
    | inl y ↦ rw (y, if◌then◌else◌) (calls-complete_sleep host s)
    | inr n ↦ rw (n, if◌then◌else◌) (rw (none_armed s n) refl)
  ]
    where
      none_armed :
          (t : Sleep) → any_required t.context ≡ false → armed_of t.context resume_order ≡ []
      none_armed t n = ground arith

  -- While the recorder is busy prepare suspends nobody: it resumes what an earlier attempt left
  -- armed, and refuses.
  pub prepare_sleep_busy :
      (s : Sleep)
      → host.answer (recover host s).1.log recorder_busy ≡ true
      → ((prepare_sleep host s).0 ≢ ok)
        × (calls (prepare_sleep host s).1.log
            ≡ push_all (map resume (armed_of s.context resume_order)) (calls s.log))
  prepare_sleep_busy s busy = elim (prepare_sleep-cases s) [
    | inl (n, e) ↦ (
      λ o. false≢true (sym n ∙ rw (sym (ap (λ (x : EspErr × Sleep). x.0) e) ∙ o) refl),
      rw e (calls-recover s),
    )
    | inr (inl (_, _, e)) ↦ (λ o. cc, rw e (calls-recover s))
    | inr (inr (_, b, _)) ↦ absurd (false≢true (sym b ∙ busy))
  ]
