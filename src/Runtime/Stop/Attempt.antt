-- ===== src/Runtime/Stop/Attempt.antt =====
-- main/app_runtime.c: the block of `_app_runtime_stop_foundations` that releases one resource.
use mathlib.Core.Bool.{false≢true}
use micro_tech.Prelude.{
  ◌≡◌, refl, sym, ◌∙◌, subst, Bool, true, false, ◌||◌, inl, inr, List, [], ◌∷◌, arith,
  if◌then◌else◌, Bool-cases, EspErr, ok, is_ok,
}
use micro_tech.Pm.Sleep.{record_first_error}
use micro_tech.Runtime.State.{Flag, Call, Host, Runtime, same, same→eq, same_refl, held, Accounted}
use micro_tech.Runtime.Action.{set_owned}
use micro_tech.Runtime.Rules.{set_owned-false-Accounted, set_owned-Shrinks}
use micro_tech.Runtime.Rules.Calls.{AcquiresNothing, Frees, held-plain, held-freed}
use micro_tech.Runtime.Stop.{any_owned, attempt}

pub first_error-ok : (a b : EspErr) → record_first_error a b ≡ ok → (a ≡ ok) × (is_ok b ≡ true)
unfolding record_first_error
first_error-ok a b h = ground arith

pub first_error-fails :
    (a b : EspErr) → is_ok (record_first_error a b) ≡ false → is_ok b ≡ true → is_ok a ≡ false
unfolding record_first_error
first_error-fails a b h o = ground arith

-- An error is on record only while a resource of the list is still owned.
abbrev pub Blames : List Flag → EspErr × Runtime → Type 0
Blames fl acc = is_ok acc.0 ≡ false → any_owned acc.1.owned fl ≡ true

-- When none of a list is owned, each of its flags is clear.
pub none_owned :
    (o : Flag → Bool) (fl : List Flag)
    → any_owned o fl ≡ false
    → (f : Flag) → any_owned (same f) fl ≡ true
    → o f ≡ false
unfolding any_owned
none_owned o [] h f m = absurd (false≢true m)
none_owned o (g ∷ fl) h f m = elim (Bool-cases (same f g)) [
  | inl y ↦ subst (λ x. o x ≡ false) (sym (same→eq f g y)) (ground arith)
  | inr n ↦ none_owned o fl (ground arith) f (rw (n, ◌||◌) at m)
]

pub any_owned-cong :
    (o o' : Flag → Bool) (fl : List Flag)
    → ((g : Flag) → any_owned (same g) fl ≡ true → o' g ≡ o g)
    → any_owned o' fl ≡ any_owned o fl
unfolding any_owned
any_owned-cong o o' [] h = refl
any_owned-cong o o' (f ∷ fl) h =
    rw (h f (rw (same_refl f) refl), any_owned-cong o o' fl (λ g m. h g (rw m (ground arith)))) refl

pub apart :
    (f g : Flag) (fl : List Flag)
    → any_owned (same f) fl ≡ false
    → any_owned (same g) fl ≡ true
    → same f g ≡ false
apart f g fl d m = elim (Bool-cases (same f g)) [
  | inl y ↦
      absurd
        (false≢true (sym d ∙ subst (λ x. any_owned (same x) fl ≡ true) (sym (same→eq f g y)) m))
  | inr n ↦ n
]

module _ (host : Host) where
  attempt_idle :
      (f : Flag) (c : Call) (first : EspErr) (s : Runtime)
      → s.owned f ≡ false
      → attempt host f c (first, s) ≡ (first, s)
  unfolding attempt
  attempt_idle f c first s n = rw (n, if◌then◌else◌) refl

  attempt_ok :
      (f : Flag) (c : Call) (first : EspErr) (s : Runtime)
      → s.owned f ≡ true
      → is_ok (host.reply s.log c) ≡ true
      → attempt host f c (first, s) ≡ (
        record_first_error first (host.reply s.log c),
        (set_owned f false (record s { log = (c, host.reply s.log c) ∷ s.log })).1,
      )
  unfolding attempt
  attempt_ok f c first s y o = rw (y, if◌then◌else◌) (rw (o, if◌then◌else◌) refl)

  attempt_error :
      (f : Flag) (c : Call) (first : EspErr) (s : Runtime)
      → s.owned f ≡ true
      → is_ok (host.reply s.log c) ≡ false
      → attempt host f c (first, s) ≡ (
        record_first_error first (host.reply s.log c),
        record s { log = (c, host.reply s.log c) ∷ s.log },
      )
  unfolding attempt
  attempt_error f c first s y n = rw (y, if◌then◌else◌) (rw (n, if◌then◌else◌) refl)

  -- A property of the result that holds in each of the three ways through a block.
  pub attempt-cases {ℓ} :
      (f : Flag) (c : Call) (first : EspErr) (s : Runtime) (P : EspErr × Runtime → Type ℓ)
      → (s.owned f ≡ false → P (first, s))
      → (s.owned f ≡ true
          → is_ok (host.reply s.log c) ≡ true
          → P (
            record_first_error first (host.reply s.log c),
            (set_owned f false (record s { log = (c, host.reply s.log c) ∷ s.log })).1,
          ))
      → (s.owned f ≡ true
          → is_ok (host.reply s.log c) ≡ false
          → P (
            record_first_error first (host.reply s.log c),
            record s { log = (c, host.reply s.log c) ∷ s.log },
          ))
      → P (attempt host f c (first, s))
  attempt-cases f c first s P idle good bad = elim (Bool-cases (s.owned f)) [
    | inl y ↦ elim (Bool-cases (is_ok (host.reply s.log c))) [
      | inl o ↦ subst P (sym (attempt_ok f c first s y o)) (good y o)
      | inr e ↦ subst P (sym (attempt_error f c first s y e)) (bad y e)
    ]
    | inr n ↦ subst P (sym (attempt_idle f c first s n)) (idle n)
  ]

  pub attempt-Accounted :
      (f : Flag) (c : Call)
      → AcquiresNothing c
      → Frees (λ _. false) c f
      → (acc : EspErr × Runtime) → Accounted acc.1
      → Accounted (attempt host f c acc).1
  attempt-Accounted f c n h (first, s) a =
      attempt-cases f c first s (λ x. Accounted x.1) (λ _. a)
        (λ _ o.
          set_owned-false-Accounted f (record s { log = (c, host.reply s.log c) ∷ s.log }) called
            (held-freed (λ _. false) c (host.reply s.log c) f s.log (n f) h (rw o refl)))
        (λ _ _. called)
    where
      called : (g : Flag) → held g ((c, host.reply s.log c) ∷ s.log) ≡ true → s.owned g ≡ true
      called g e = a g (held-plain c (host.reply s.log c) g s.log (n g) e)

  pub attempt-Shrinks :
      (f g : Flag) (c : Call) (acc : EspErr × Runtime)
      → acc.1.owned g ≡ false
      → (attempt host f c acc).1.owned g ≡ false
  attempt-Shrinks f g c (first, s) e =
      attempt-cases f c first s (λ x. x.1.owned g ≡ false) (λ _. e)
        (λ _ _. set_owned-Shrinks f (record s { log = (c, host.reply s.log c) ∷ s.log }) g e)
        (λ _ _. e)

  pub attempt-others :
      (f g : Flag) (c : Call) (acc : EspErr × Runtime)
      → same f g ≡ false
      → (attempt host f c acc).1.owned g ≡ acc.1.owned g
  unfolding set_owned
  attempt-others f g c (first, s) d =
      attempt-cases f c first s (λ x. x.1.owned g ≡ s.owned g) (λ _. refl)
        (λ _ _. rw (d, if◌then◌else◌) refl) (λ _ _. refl)

  pub attempt-ok :
      (f : Flag) (c : Call) (acc : EspErr × Runtime)
      → (attempt host f c acc).0 ≡ ok
      → (acc.0 ≡ ok) × ((attempt host f c acc).1.owned f ≡ false)
  unfolding set_owned
  attempt-ok f c (first, s) =
      attempt-cases f c first s (λ x. x.0 ≡ ok → (first ≡ ok) × (x.1.owned f ≡ false))
        (λ n e. (e, n)) (λ _ _ e. ((first_error-ok first _ e).0, rw (same_refl f) refl))
        (λ _ n e. absurd (false≢true (sym n ∙ (first_error-ok first _ e).1)))

  -- A block whose flag is not in the list adds itself to those that may be to blame.
  pub attempt-Blames :
      (f : Flag) (c : Call) (fl : List Flag) (acc : EspErr × Runtime)
      → any_owned (same f) fl ≡ false
      → Blames fl acc
      → Blames (f ∷ fl) (attempt host f c acc)
  unfolding any_owned set_owned
  attempt-Blames f c fl (first, s) d h =
      attempt-cases f c first s (Blames (f ∷ fl)) (λ _ e. rw (h e) (ground arith))
        (λ y o e.
          rw
            (
              any_owned-cong s.owned (λ g. if same f g then false else s.owned g) fl
                  (λ g m. rw (apart f g fl d m, if◌then◌else◌) refl),
              h (first_error-fails first _ e o),
            )
            (ground arith))
        (λ y _ _. rw y refl)
