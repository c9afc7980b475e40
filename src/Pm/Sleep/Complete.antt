-- ===== src/Pm/Sleep/Complete.antt =====
-- main/app_runtime_pm.c: `_app_runtime_pm_complete_sleep`.
use mathlib.Core.Bool.{false≢true}
use micro_tech.Prelude.{
  ◌≡◌, refl, ap, sym, subst, ◌∙◌, ◌||◌, ◌↔◌, Bool, true, false, not, ◌&&◌, inl, inr, List, [], ◌∷◌,
  arith, if◌then◌else◌, EspErr, ok, is_ok, is_ok→eq, Bool-cases,
}
use micro_tech.Pm.Context.{
  Participant, required, same, same→eq, same_refl, listed, distinct, required-set_required,
}
use micro_tech.Pm.Sleep.{
  resume, Host, Sleep, resume_order, record_first_error, resume_block, resume_each, complete_sleep,
}

record_first_error-eq-ok :
    (first r : EspErr) → record_first_error first r ≡ ok → (first ≡ ok) × (r ≡ ok)
unfolding record_first_error
record_first_error-eq-ok first r h = ground arith

pub or-eq-false : (a b : Bool) → (a || b) ≡ false → (a ≡ false) × (b ≡ false)
or-eq-false a b h = ground arith

pub and-eq-true : (a b : Bool) → (a && b) ≡ true → (a ≡ true) × (b ≡ true)
and-eq-true a b h = ground arith

pub same-of-listed :
    (p q : Participant) (ps : List Participant)
    → listed p ps ≡ false
    → listed q ps ≡ true
    → same p q ≡ false
same-of-listed p q ps h m = elim (Bool-cases (same p q)) [
  | inl e ↦ absurd (false≢true (sym h ∙ subst (λ x. listed x ps ≡ true) (sym (same→eq p q e)) m))
  | inr e ↦ e
]

module _ (host : Host) where
  resume_block_armed :
      (p q : Participant) (first : EspErr) (s : Sleep)
      → required p s.context ≡ true
      → required q (resume_block host p (first, s)).1.context
        ≡ (required q s.context && not (same p q && is_ok (host.reply s.log (resume p)).result))
  unfolding resume_block
  resume_block_armed p q first s y =
      elim (Bool-cases (is_ok (host.reply s.log (resume p)).result)) [
        | inl z ↦
            rw (y, if◌then◌else◌)
              (rw (z, if◌then◌else◌)
                (rw (required-set_required p q false s.context) (ground arith)))
        | inr z ↦ rw (y, if◌then◌else◌) (rw (z, if◌then◌else◌) (ground arith))
      ]

  resume_block_idle :
      (p q : Participant) (first : EspErr) (s : Sleep)
      → required p s.context ≡ false
      → required q (resume_block host p (first, s)).1.context
        ≡ (required q s.context && not (same p q && is_ok (host.reply s.log (resume p)).result))
  unfolding resume_block
  resume_block_idle p q first s n = elim (Bool-cases (same p q)) [
    | inl e ↦ rw n (ground (arith, ap (λ (x : Participant). required x s.context) (same→eq p q e)))
    | inr d ↦ rw (n, d) (ground arith)
  ]

  -- What one block does to the flag of any participant.
  pub required-resume_block :
      (p q : Participant) (first : EspErr) (s : Sleep)
      → required q (resume_block host p (first, s)).1.context
        ≡ (required q s.context && not (same p q && is_ok (host.reply s.log (resume p)).result))
  required-resume_block p q first s = elim (Bool-cases (required p s.context)) [
    | inl y ↦ resume_block_armed p q first s y
    | inr n ↦ resume_block_idle p q first s n
  ]

  resume_block-ok_armed :
      (p : Participant) (first : EspErr) (s : Sleep)
      → required p s.context ≡ true
      → (resume_block host p (first, s)).0 ≡ ok
      → (first ≡ ok) × (is_ok (host.reply s.log (resume p)).result ≡ true)
  unfolding resume_block
  resume_block-ok_armed p first s y h =
      let e = record_first_error-eq-ok first _ (rw (y, if◌then◌else◌) at h) in (e.0, rw e.1)

  resume_block-ok_idle :
      (p : Participant) (first : EspErr) (s : Sleep)
      → required p s.context ≡ false
      → (resume_block host p (first, s)).0 ≡ ok
      → first ≡ ok
  unfolding resume_block
  resume_block-ok_idle p first s n h = rw (n, if◌then◌else◌) at h

  -- A block that leaves the first error at `ok` has cleared its flag, or found it clear.
  resume_block-ok :
      (p : Participant) (first : EspErr) (s : Sleep)
      → (resume_block host p (first, s)).0 ≡ ok
      → (first ≡ ok) × (required p (resume_block host p (first, s)).1.context ≡ false)
  resume_block-ok p first s h = elim (Bool-cases (required p s.context)) [
    | inl y ↦
        (let (e, r) = resume_block-ok_armed p first s y h in
          (e, rw (required-resume_block p p first s, same_refl p, r) (ground arith)))
    | inr n ↦ (resume_block-ok_idle p first s n h, rw (required-resume_block p p first s, n) refl)
  ]

  -- Going on never arms a flag.
  pub resume_each-keeps :
      (q : Participant) (ps : List Participant) (acc : EspErr × Sleep)
      → required q acc.1.context ≡ false
      → required q (resume_each host ps acc).1.context ≡ false
  unfolding resume_each
  resume_each-keeps q [] acc h = h
  resume_each-keeps q (p ∷ ps) (first, s) h =
      resume_each-keeps q ps (resume_block host p (first, s))
        (rw (required-resume_block p q first s, h) refl)

  -- A run that ends with no error has cleared the flag of each participant that it went through.
  pub resume_each-ok :
      (q : Participant) (ps : List Participant) (acc : EspErr × Sleep)
      → (resume_each host ps acc).0 ≡ ok
      → (acc.0 ≡ ok) × (listed q ps ≡ true → required q (resume_each host ps acc).1.context ≡ false)
  unfolding resume_each
  resume_each-ok q [] acc h = (h, λ m. cc)
  resume_each-ok q (p ∷ ps) (first, s) h =
      let (mid, later) = resume_each-ok q ps (resume_block host p (first, s)) h in
      let (e, cleared) = resume_block-ok p first s mid in
      (
        e,
        λ m. elim (Bool-cases (same p q)) [
          | inl here ↦ resume_each-keeps q ps (resume_block host p (first, s)) (
              subst (λ x. required x (resume_block host p (first, s)).1.context ≡ false)
                (same→eq p q here) cleared)
          | inr there ↦ later (rw there at m)
        ],
      )

  -- A participant that is not in the list keeps its flag.
  pub resume_each-others :
      (q : Participant) (ps : List Participant) (acc : EspErr × Sleep)
      → listed q ps ≡ false
      → required q (resume_each host ps acc).1.context ≡ required q acc.1.context
  unfolding resume_each
  resume_each-others q [] acc h = refl
  resume_each-others q (p ∷ ps) (first, s) h =
      let (apart, rest) = or-eq-false (same p q) (listed q ps) h in
      resume_each-others q ps (resume_block host p (first, s)) rest
      ∙ rw (required-resume_block p q first s, apart) (ground arith)

  pub resume_block-first_armed :
      (p : Participant) (s : Sleep)
      → required p s.context ≡ true
      → (resume_block host p (ok, s)).0 ≡ (host.reply s.log (resume p)).result
  unfolding resume_block
  resume_block-first_armed p s y = rw (y, if◌then◌else◌) refl

  resume_block-first_idle :
      (p : Participant) (s : Sleep)
      → required p s.context ≡ false
      → (resume_block host p (ok, s)).0 ≡ ok
  unfolding resume_block
  resume_block-first_idle p s n = rw n refl

  -- A block that changes the first error from `ok` leaves its flag armed.
  resume_block-fails :
      (p : Participant) (first : EspErr) (s : Sleep)
      → first ≡ ok
      → is_ok (resume_block host p (first, s)).0 ≡ false
      → required p (resume_block host p (first, s)).1.context ≡ true
  resume_block-fails p first s e h = elim (Bool-cases (required p s.context)) [
    | inl y ↦ elim (Bool-cases (is_ok (host.reply s.log (resume p)).result)) [
      | inl z ↦ absurd (false≢true (sym h ∙ rw (e, resume_block-first_armed p s y) z))
      | inr z ↦ rw (required-resume_block p p first s, y, z) (ground arith)
    ]
    | inr n ↦ absurd (false≢true (sym h ∙ rw (e, resume_block-first_idle p s n) refl))
  ]

  -- If every flag of the list is clear at the end, no call of the run failed.
  resume_each-clear :
      (ps : List Participant) (acc : EspErr × Sleep)
      → distinct ps ≡ true
      → acc.0 ≡ ok
      → ((q : Participant)
          → listed q ps ≡ true
          → required q (resume_each host ps acc).1.context ≡ false)
      → (resume_each host ps acc).0 ≡ ok
  unfolding resume_each
  resume_each-clear [] acc d e h = e
  resume_each-clear (p ∷ ps) (first, s) d e h =
      let (apart, d') = and-eq-true (not (listed p ps)) (distinct ps) d in
      let alone : listed p ps ≡ false = ground arith in
      elim (Bool-cases (is_ok (resume_block host p (first, s)).0)) [
        | inl z ↦
            resume_each-clear ps (resume_block host p (first, s)) d' (is_ok→eq _ z)
              (λ q m. h q (rw m (ground arith)))
        | inr z ↦ absurd (
            false≢true (
              sym (h p (rw (same_refl p) refl))
              ∙ rw (resume_each-others p ps (resume_block host p (first, s)) alone)
                  (resume_block-fails p first s e z)))
      ]

pub everyone : (p : Participant) → listed p resume_order ≡ true
unfolding same
everyone p = ground arith

-- Complete answers `ok` exactly when it leaves no participant to be resumed.
pub complete_sleep_result :
    (host : Host) (s : Sleep)
    → ((complete_sleep host s).0 ≡ ok)
      ↔ ((p : Participant) → required p (complete_sleep host s).1.context ≡ false)
unfolding complete_sleep same
complete_sleep_result host s = (
  λ h p. (resume_each-ok host p resume_order (ok, s) h).1 (everyone p),
  λ h. resume_each-clear host resume_order (ok, s) refl refl (λ q m. h q),
)
