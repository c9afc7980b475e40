-- ===== src/Pm/Sleep/Pending.antt =====
-- main/app_runtime_pm.c: the resume obligations. A participant is pending when its last suspend
-- call may have taken effect and no resume call has succeeded since.
use micro_tech.Prelude.{
  ◌≡◌, refl, subst, ◌∙◌, Bool, true, false, not, ◌&&◌, ◌||◌, inl, inr, List, [], ◌∷◌, arith,
  if◌then◌else◌, EspErr, ok, is_ok, is_timeout, Log, Bool-cases,
}
use micro_tech.Pm.Context.{
  Participant, audio, required, engaged, same, listed, distinct, same_refl, same→eq,
  required-set_required,
}
use micro_tech.Pm.Sleep.{
  Call, suspend, resume, Reply, Host, Sleep, armed, resume_order, resume_block, resume_each,
  complete_sleep, suspend_block, suspend_each,
}
use micro_tech.Pm.Sleep.Complete.{required-resume_block, and-eq-true, same-of-listed}

-- A suspend that answers `ok` has taken effect, and one that times out may still do so; the audio
-- service says itself whether it has to be resumed.
abbrev pub may_apply : Participant → Reply → Bool
may_apply audio r = r.resume_required
may_apply p r = is_ok r.result || is_timeout r.result

unfoldable pub pending : Participant → Log Call Reply → Bool
pending q [] = false
pending q ((suspend p, r) ∷ log) =
    let before = pending q log in if same p q && may_apply p r then true else before
pending q ((resume p, r) ∷ log) =
    let before = pending q log in if same p q && is_ok r.result then false else before

-- No participant that may be suspended has lost its resume obligation.
abbrev pub Tracked : Sleep → Type 0
Tracked s = (p : Participant) → pending p s.log ≡ true → required p s.context ≡ true

may_apply-armed : (p : Participant) (r : Reply) → may_apply p r ≡ true → armed p r ≡ true
may_apply-armed p r h = ground arith

module _ (host : Host) where
  resume_block-idle :
      (p : Participant) (first : EspErr) (s : Sleep)
      → required p s.context ≡ false
      → resume_block host p (first, s) ≡ (first, s)
  unfolding resume_block
  resume_block-idle p first s n = rw n refl

  pending-resume_block :
      (p q : Participant) (first : EspErr) (s : Sleep)
      → required p s.context ≡ true
      → pending q (resume_block host p (first, s)).1.log ≡ (
          if same p q && is_ok (host.reply s.log (resume p)).result then false else pending q s.log)
  unfolding resume_block pending
  pending-resume_block p q first s y = rw (y, if◌then◌else◌) refl

  resume_block-Tracked :
      (p : Participant) (first : EspErr) (s : Sleep)
      → Tracked s
      → Tracked (resume_block host p (first, s)).1
  resume_block-Tracked p first s h q w = elim (Bool-cases (required p s.context)) [
    | inl y ↦
        rw (required-resume_block host p q first s)
          (ground (arith, rw (pending-resume_block p q first s y) at w, h q))
    | inr n ↦ rw (resume_block-idle p first s n) (h q (rw (resume_block-idle p first s n) at w))
  ]

  resume_each-Tracked :
      (ps : List Participant) (acc : EspErr × Sleep)
      → Tracked acc.1
      → Tracked (resume_each host ps acc).1
  unfolding resume_each
  resume_each-Tracked [] acc h = h
  resume_each-Tracked (p ∷ ps) (first, s) h =
      resume_each-Tracked ps (resume_block host p (first, s)) (resume_block-Tracked p first s h)

  -- Complete keeps the obligation of every participant that may still be suspended.
  pub complete_sleep-Tracked : (s : Sleep) → Tracked s → Tracked (complete_sleep host s).1
  unfolding complete_sleep
  complete_sleep-Tracked s h = resume_each-Tracked resume_order (ok, s) h

  suspend_block-idle :
      (p : Participant) (s : Sleep) → engaged p s.context ≡ false → suspend_block host p s ≡ (ok, s)
  unfolding suspend_block
  suspend_block-idle p s n = rw n refl

  pending-suspend_block :
      (p q : Participant) (s : Sleep)
      → engaged p s.context ≡ true
      → pending q (suspend_block host p s).1.log
        ≡ (if same p q && may_apply p (host.reply s.log (suspend p)) then true else pending q s.log)
  unfolding suspend_block pending
  pending-suspend_block p q s y = rw (y, if◌then◌else◌) refl

  required-suspend_block :
      (p q : Participant) (s : Sleep)
      → engaged p s.context ≡ true
      → required q (suspend_block host p s).1.context
        ≡ (if same p q then armed p (host.reply s.log (suspend p)) else required q s.context)
  unfolding suspend_block
  required-suspend_block p q s y =
      rw (y, if◌then◌else◌)
        (required-set_required p q (armed p (host.reply s.log (suspend p))) s.context)

  suspend_block-Tracked :
      (p : Participant) (s : Sleep)
      → Tracked s
      → pending p s.log ≡ false
      → Tracked (suspend_block host p s).1
  suspend_block-Tracked p s h clear q w = elim (Bool-cases (engaged p s.context)) [
    | inl y ↦ elim (Bool-cases (same p q)) [
      | inl e ↦ rw (required-suspend_block p q s y, e) (may_apply-armed p _ (applied y e))
      | inr d ↦
          rw (required-suspend_block p q s y, d) (h q (rw (pending-suspend_block p q s y, d) at w))
    ]
    | inr n ↦ rw (suspend_block-idle p s n) (h q (rw (suspend_block-idle p s n) at w))
  ]
    where
      was_clear : same p q ≡ true → pending q s.log ≡ false
      was_clear e = subst (λ x. pending x s.log ≡ false) (same→eq p q e) clear

      applied :
          engaged p s.context ≡ true
          → same p q ≡ true
          → may_apply p (host.reply s.log (suspend p)) ≡ true
      applied y e = ground (arith, was_clear e, rw (pending-suspend_block p q s y) at w)

  suspend_block-others :
      (p q : Participant) (s : Sleep)
      → same p q ≡ false
      → pending q (suspend_block host p s).1.log ≡ pending q s.log
  suspend_block-others p q s d = elim (Bool-cases (engaged p s.context)) [
    | inl y ↦ rw (pending-suspend_block p q s y, d) refl
    | inr n ↦ rw (suspend_block-idle p s n) refl
  ]

  -- A suspend sequence over participants that are not pending keeps every obligation.
  pub suspend_each-Tracked :
      (ps : List Participant) (s : Sleep)
      → distinct ps ≡ true
      → Tracked s
      → ((q : Participant) → listed q ps ≡ true → pending q s.log ≡ false)
      → Tracked (suspend_each host ps s).1
  unfolding suspend_each
  suspend_each-Tracked [] s d h clear = h
  suspend_each-Tracked (p ∷ ps) s d h clear =
      let (apart, d') = and-eq-true (not (listed p ps)) (distinct ps) d in
      let alone : listed p ps ≡ false = ground arith in
      let here : Tracked (suspend_block host p s).1 =
        suspend_block-Tracked p s h (clear p (rw (same_refl p) refl)) in
      elim (Bool-cases (is_ok (suspend_block host p s).0)) [
        | inl y ↦
            rw (y, if◌then◌else◌)
              (suspend_each-Tracked ps (suspend_block host p s).1 d' here (λ q m.
                suspend_block-others p q s (same-of-listed p q ps alone m)
                ∙ clear q (rw m (ground arith))))
        | inr n ↦ rw (n, if◌then◌else◌) here
      ]
