-- ===== src/Pm/Sleep/Calls.antt =====
-- main/app_runtime_pm.c: which calls `_app_runtime_pm_complete_sleep` and the suspend sequence of
-- `_app_runtime_pm_prepare_sleep` make, and in which order.
use mathlib.Core.Bool.{false≢true}
use micro_tech.Prelude.{
  ◌≡◌, refl, sym, ◌∙◌, true, false, not, inl, inr, List, [], ◌∷◌, map, arith, keep, push_all,
  if◌then◌else◌, EspErr, ok, is_ok, Log, Bool-cases,
}
use micro_tech.Pm.Context.{
  Participant, chore, file, device_link, weather, connectivity, audio, imu, time, power, input,
  SleepContext, required, engaged, same, listed, distinct, same_refl, engaged-set_required,
}
use micro_tech.Pm.Sleep.{
  Call, suspend, resume, Reply, Host, Sleep, resume_order, resume_block, resume_each,
  complete_sleep, suspend_block, suspend_each,
}
use micro_tech.Pm.Sleep.Complete.{required-resume_block, and-eq-true, same-of-listed}

-- The calls of a log, without their answers.
abbrev pub calls : Log Call Reply → List Call
calls [] = []
calls (e ∷ log) = e.0 ∷ calls log

-- The participants of a list whose flag is armed.
abbrev pub armed_of : SleepContext → List Participant → List Participant
armed_of c = keep (λ p. required p c)

-- Two tests that agree on the list keep the same items.
armed_of-cong :
    (c d : SleepContext) (ps : List Participant)
    → ((q : Participant) → listed q ps ≡ true → required q c ≡ required q d)
    → armed_of c ps ≡ armed_of d ps
armed_of-cong c d [] h = refl
armed_of-cong c d (p ∷ ps) h =
    rw (h p (rw (same_refl p) refl), armed_of-cong c d ps (λ q m. h q (ground (arith, m)))) refl

module _ (host : Host) where
  calls-resume_block :
      (p : Participant) (first : EspErr) (s : Sleep)
      → calls (resume_block host p (first, s)).1.log
        ≡ (if required p s.context then resume p ∷ calls s.log else calls s.log)
  unfolding resume_block
  calls-resume_block p first s = elim (Bool-cases (required p s.context)) [
    | inl y ↦ rw (y, if◌then◌else◌) refl
    | inr n ↦ rw n refl
  ]

  armed_of-resume_block :
      (p : Participant) (first : EspErr) (s : Sleep) (ps : List Participant)
      → listed p ps ≡ false
      → armed_of (resume_block host p (first, s)).1.context ps ≡ armed_of s.context ps
  armed_of-resume_block p first s ps h =
      armed_of-cong _ _ ps (λ q m.
        rw (required-resume_block host p q first s, same-of-listed p q ps h m) (ground arith))

  calls-resume_each :
      (ps : List Participant) (acc : EspErr × Sleep)
      → distinct ps ≡ true
      → calls (resume_each host ps acc).1.log
        ≡ push_all (map resume (armed_of acc.1.context ps)) (calls acc.1.log)
  unfolding resume_each
  calls-resume_each [] acc d = refl
  calls-resume_each (p ∷ ps) (first, s) d =
      let (apart, d') = and-eq-true (not (listed p ps)) (distinct ps) d in
      let alone : listed p ps ≡ false = ground arith in
      rw
        (
          calls-resume_each ps (resume_block host p (first, s)) d',
          armed_of-resume_block p first s ps alone,
          calls-resume_block p first s,
        )
        (elim (Bool-cases (required p s.context)) [ inl y ↦ rw y refl | inr n ↦ rw n refl ])

-- Complete resumes exactly the participants whose flag is armed, each once and in the
-- order input, file, power, time, IMU, audio, connectivity, weather, device link, chore worker,
-- whichever of the calls fail.
pub calls-complete_sleep :
    (host : Host) (s : Sleep)
    → calls (complete_sleep host s).1.log
      ≡ push_all
          (map resume (
            armed_of s.context (
              input ∷ file ∷ power ∷ time ∷ imu ∷ audio ∷ connectivity ∷ weather ∷ device_link
              ∷ chore ∷ [])))
          (calls s.log)
unfolding complete_sleep same
calls-complete_sleep host s = calls-resume_each host resume_order (ok, s) refl

-- The participants of a list that take part.
abbrev pub engaged_of : SleepContext → List Participant → List Participant
engaged_of c = keep (λ p. engaged p c)

module _ (host : Host) where
  engaged-suspend_block :
      (p q : Participant) (s : Sleep)
      → engaged q (suspend_block host p s).1.context ≡ engaged q s.context
  unfolding suspend_block
  engaged-suspend_block p q s = elim (Bool-cases (engaged p s.context)) [
    | inl y ↦ rw (y, if◌then◌else◌) (engaged-set_required p q _ s.context)
    | inr n ↦ rw n refl
  ]

  engaged_of-suspend_block :
      (p : Participant) (s : Sleep) (ps : List Participant)
      → engaged_of (suspend_block host p s).1.context ps ≡ engaged_of s.context ps
  engaged_of-suspend_block p s [] = refl
  engaged_of-suspend_block p s (q ∷ qs) =
      rw (engaged-suspend_block p q s, engaged_of-suspend_block p s qs) refl

  calls-suspend_block :
      (p : Participant) (s : Sleep)
      → calls (suspend_block host p s).1.log
        ≡ (if engaged p s.context then suspend p ∷ calls s.log else calls s.log)
  unfolding suspend_block
  calls-suspend_block p s = elim (Bool-cases (engaged p s.context)) [
    | inl y ↦ rw (y, if◌then◌else◌) refl
    | inr n ↦ rw n refl
  ]

  -- A suspend sequence that reaches its end has suspended every participant that takes part.
  pub calls-suspend_each :
      (ps : List Participant) (s : Sleep)
      → is_ok (suspend_each host ps s).0 ≡ true
      → calls (suspend_each host ps s).1.log
        ≡ push_all (map suspend (engaged_of s.context ps)) (calls s.log)
  unfolding suspend_each
  calls-suspend_each [] s h = refl
  calls-suspend_each (p ∷ ps) s h = elim (Bool-cases (is_ok (suspend_block host p s).0)) [
    | inl y ↦
        rw (y, if◌then◌else◌)
          (rw
            (
              calls-suspend_each ps (suspend_block host p s).1 (rw (y, if◌then◌else◌) at h),
              engaged_of-suspend_block p s ps,
              calls-suspend_block p s,
            )
            (elim (Bool-cases (engaged p s.context)) [ inl e ↦ rw e refl | inr e ↦ rw e refl ]))
    | inr n ↦ absurd (false≢true (sym n ∙ (rw (n, if◌then◌else◌) at h)))
  ]
