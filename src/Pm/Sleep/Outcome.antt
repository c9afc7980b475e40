-- ===== src/Pm/Sleep/Outcome.antt =====
-- main/app_runtime_pm.c: the state in which `_app_runtime_pm_prepare_sleep` leaves the participants,
-- after a success and after a rollback.
use mathlib.Core.Bool.{false≢true}
use micro_tech.Prelude.{
  ◌≡◌, ◌≢◌, refl, ap, ap₂, sym, ◌∙◌, ◌⊎◌, true, false, inl, inr, List, [], ◌∷◌, map, arith,
  push_all, if◌then◌else◌, EspErr, ok, is_ok, Bool-cases,
}
use micro_tech.Pm.Context.{
  Participant, chore, file, device_link, weather, connectivity, audio, imu, time, power, input,
  required, engaged, any_required, engaged-set_required,
}
use micro_tech.Pm.Sleep.{
  suspend, resume, Host, Sleep, recorder_busy, prepare_guard, resume_order, suspend_order,
  record_first_error, resume_block, resume_each, complete_sleep, suspend_each, prepare_failed,
  recover, suspend_all, prepare_sleep,
}
use micro_tech.Pm.Sleep.Complete.{complete_sleep_result}
use micro_tech.Pm.Sleep.Calls.{calls, armed_of, engaged_of, calls-suspend_each}
use micro_tech.Pm.Sleep.Pending.{pending, Tracked}
use micro_tech.Pm.Sleep.Prepare.{
  prepare_sleep-cases, prepare_sleep-Tracked, recover-clear, calls-recover, not_pending,
}

-- Every resume call succeeds.
abbrev pub Resumes : Host → Type 0
Resumes host = (p : Participant) (log : _) → is_ok (host.reply log (resume p)).result ≡ true

record_first_error_ok : (r : EspErr) → is_ok r ≡ true → record_first_error ok r ≡ ok
unfolding record_first_error
record_first_error_ok r h = ground arith

module _ (host : Host) where
  resume_block-Resumes :
      (p : Participant) (first : EspErr) (s : Sleep)
      → Resumes host
      → first ≡ ok
      → (resume_block host p (first, s)).0 ≡ ok
  unfolding resume_block
  resume_block-Resumes p first s all e = elim (Bool-cases (required p s.context)) [
    | inl y ↦ rw (y, if◌then◌else◌) (rw e (record_first_error_ok _ (all p s.log)))
    | inr n ↦ rw (n, if◌then◌else◌) e
  ]

  resume_each-Resumes :
      (ps : List Participant) (acc : EspErr × Sleep)
      → Resumes host
      → acc.0 ≡ ok
      → (resume_each host ps acc).0 ≡ ok
  unfolding resume_each
  resume_each-Resumes [] acc all e = e
  resume_each-Resumes (p ∷ ps) (first, s) all e =
      resume_each-Resumes ps (resume_block host p (first, s)) all
        (resume_block-Resumes p first s all e)

  complete_sleep-Resumes :
      (s : Sleep)
      → Resumes host
      → (p : Participant) → required p (complete_sleep host s).1.context ≡ false
  complete_sleep-Resumes s all = (complete_sleep_result host s).0 ok_at_end
    where
      ok_at_end : (complete_sleep host s).0 ≡ ok
      ok_at_end = unfold complete_sleep in resume_each-Resumes resume_order (ok, s) all refl

  -- The suspend sequence ends with all participants suspended, or in a rollback.
  suspend_all-cases :
      (s : Sleep)
      → ((is_ok (suspend_each host suspend_order s).0 ≡ true)
          × (host.answer (suspend_each host suspend_order s).1.log prepare_guard ≡ true)
          × (suspend_all host s ≡ (ok, (suspend_each host suspend_order s).1)))
        ⊎ (((suspend_all host s).0 ≢ ok)
            × ((suspend_all host s).1
                ≡ (complete_sleep host (suspend_each host suspend_order s).1).1))
  unfolding suspend_all prepare_failed
  suspend_all-cases s = elim (Bool-cases (is_ok (suspend_each host suspend_order s).0)) [
    | inl y ↦
        elim (Bool-cases (host.answer (suspend_each host suspend_order s).1.log prepare_guard)) [
          | inl g ↦ inl (y, g, rw (y, if◌then◌else◌) (rw (g, if◌then◌else◌) refl))
          | inr g ↦ inr (
            rw (y, if◌then◌else◌) (rw (g, if◌then◌else◌) (λ e. cc)),
            rw (y, if◌then◌else◌) (rw (g, if◌then◌else◌) refl),
          )
        ]
    | inr n ↦
        inr
          (rw (n, if◌then◌else◌) (λ e. false≢true (sym n ∙ rw e refl)), rw (n, if◌then◌else◌) refl)
  ]

  suspend_all-rollback :
      (s : Sleep)
      → Resumes host
      → (suspend_all host s).0 ≢ ok
      → (p : Participant) → required p (suspend_all host s).1.context ≡ false
  suspend_all-rollback s all fails p = elim (suspend_all-cases s) [
    | inl (_, _, e) ↦ absurd (fails (rw e refl))
    | inr (_, e) ↦ rw e (complete_sleep-Resumes _ all p)
  ]

  recover-Resumes : (s : Sleep) → Resumes host → is_ok (recover host s).0 ≡ true
  unfolding recover
  recover-Resumes s all = elim (Bool-cases (any_required s.context)) [
    | inl y ↦
        rw (y, if◌then◌else◌)
          (rw ((complete_sleep_result host s).1 (complete_sleep-Resumes s all)) refl)
    | inr n ↦ rw (n, if◌then◌else◌) refl
  ]

  -- Where every resume succeeds, and each participant that may be suspended has its resume flag
  -- before, a prepare that fails leaves nobody to be resumed and nobody suspended.
  pub prepare_sleep_rollback :
      (s : Sleep)
      → Resumes host
      → Tracked s
      → (prepare_sleep host s).0 ≢ ok
      → (p : Participant)
      → (required p (prepare_sleep host s).1.context ≡ false)
        × (pending p (prepare_sleep host s).1.log ≡ false)
  prepare_sleep_rollback s all h fails p =
      (clear, not_pending (prepare_sleep host s).1 (prepare_sleep-Tracked host s h) p clear)
    where
      clear : required p (prepare_sleep host s).1.context ≡ false
      clear = elim (prepare_sleep-cases host s) [
        | inl (n, _) ↦ absurd (false≢true (sym n ∙ recover-Resumes s all))
        | inr (inl (y, _, e)) ↦ rw e (recover-clear host s y p)
        | inr (inr (_, _, e)) ↦ rw e (suspend_all-rollback (recover host s).1 all (rw e at fails) p)
      ]

  engaged-resume_block :
      (p q : Participant) (first : EspErr) (s : Sleep)
      → engaged q (resume_block host p (first, s)).1.context ≡ engaged q s.context
  unfolding resume_block
  engaged-resume_block p q first s = elim (Bool-cases (required p s.context)) [
    | inl y ↦
        rw (y, if◌then◌else◌)
          (elim (Bool-cases (is_ok (host.reply s.log (resume p)).result)) [
            | inl z ↦ rw (z, if◌then◌else◌) (engaged-set_required p q false s.context)
            | inr z ↦ rw (z, if◌then◌else◌) refl
          ])
    | inr n ↦ rw n refl
  ]

  engaged-resume_each :
      (q : Participant) (ps : List Participant) (acc : EspErr × Sleep)
      → engaged q (resume_each host ps acc).1.context ≡ engaged q acc.1.context
  unfolding resume_each
  engaged-resume_each q [] acc = refl
  engaged-resume_each q (p ∷ ps) (first, s) =
      engaged-resume_each q ps (resume_block host p (first, s)) ∙ engaged-resume_block p q first s

  engaged-recover :
      (s : Sleep) (q : Participant) → engaged q (recover host s).1.context ≡ engaged q s.context
  unfolding recover complete_sleep
  engaged-recover s q = elim (Bool-cases (any_required s.context)) [
    | inl y ↦ rw (y, if◌then◌else◌) (engaged-resume_each q resume_order (ok, s))
    | inr n ↦ rw (n, if◌then◌else◌) refl
  ]

  engaged_of-recover :
      (s : Sleep) (ps : List Participant)
      → engaged_of (recover host s).1.context ps ≡ engaged_of s.context ps
  engaged_of-recover s [] = refl
  engaged_of-recover s (p ∷ ps) = rw (engaged-recover s p, engaged_of-recover s ps) refl

  -- A prepare that succeeds has found the recorder idle and the guard open, and has made exactly
  -- these calls: a resume for each participant that was left armed, then a suspend for each
  -- participant that takes part, in the order chore worker, file, device link, weather,
  -- connectivity, audio, IMU, time, power, input.
  pub prepare_sleep_success :
      (s : Sleep)
      → (prepare_sleep host s).0 ≡ ok
      → (host.answer (recover host s).1.log recorder_busy ≡ false)
        × (host.answer (prepare_sleep host s).1.log prepare_guard ≡ true)
        × (calls (prepare_sleep host s).1.log
            ≡ push_all
                (map suspend (
                  engaged_of s.context (
                    chore ∷ file ∷ device_link ∷ weather ∷ connectivity ∷ audio ∷ imu ∷ time ∷ power
                    ∷ input ∷ [])))
                (push_all
                  (map resume (
                    armed_of s.context (
                      input ∷ file ∷ power ∷ time ∷ imu ∷ audio ∷ connectivity ∷ weather
                      ∷ device_link ∷ chore ∷ [])))
                  (calls s.log)))
  prepare_sleep_success s h = elim (prepare_sleep-cases host s) [
    | inl (n, e) ↦
        absurd (false≢true (sym n ∙ rw (sym (ap (λ (x : EspErr × Sleep). x.0) e) ∙ h) refl))
    | inr (inl (_, _, e)) ↦ cc
    | inr (inr (_, b, e)) ↦ elim (suspend_all-cases (recover host s).1) [
      | inl (y, g, f) ↦ (b, rw (e, f) g, rw (e, f) (calls_made y))
      | inr (n, _) ↦ absurd (n (rw e at h))
    ]
  ]
    where
      calls_made :
          is_ok (suspend_each host suspend_order (recover host s).1).0 ≡ true
          → calls (suspend_each host suspend_order (recover host s).1).1.log
            ≡ push_all
                (map suspend (engaged_of s.context suspend_order))
                (push_all (map resume (armed_of s.context resume_order)) (calls s.log))
      calls_made y =
          calls-suspend_each host suspend_order (recover host s).1 y
          ∙ ap₂ (λ ps log. push_all (map suspend ps) log) (engaged_of-recover s suspend_order)
              (calls-recover host s)
