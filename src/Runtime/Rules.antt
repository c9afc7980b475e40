-- ===== src/Runtime/Rules.antt =====
-- main/app_runtime.c: rules for what an action keeps and what it clears, by the form of the action.
pub mod Calls
use mathlib.Core.Bool.{false≢true}
use micro_tech.Prelude.{
  ◌≡◌, refl, sym, ◌∙◌, subst, Bool, true, false, ◌||◌, Option, none, some, length, inl, inr, List,
  [], ◌∷◌, arith, if◌then◌else◌, Bool-cases, EspErr, ok, is_ok,
}
use micro_tech.Pm.Context.{Participant}
use micro_tech.Runtime.State.{
  Flag, Aux, Call, Host, Runtime, same, same→eq, same_refl, acquired_by, is_flag, gives_back, held,
  Accounted,
}
use micro_tech.Runtime.Action.{
  Action, set_result, return_result, sequence, when, if_owned, set_owned, set_aux, set_sleeps,
  set_reset_pending, must, tolerate,
}

abbrev pub All {ℓ κ} : {A : Type ℓ} → (A → Type κ) → List A → Type κ
All P [] = Unit
All P (x ∷ xs) = P x × All P xs

-- A pair, so that a proof of `All P` is written as a list.
infixr 20 ◌&◌
abbrev pub ◌&◌ {ℓ κ} : {A : Type ℓ} {B : Type κ} → A → B → A × B
a & b = (a, b)

-- A flag that is clear stays clear.
abbrev pub Shrinks : Action → Type 0
Shrinks m = (s : Runtime) (f : Flag) → s.owned f ≡ false → (m s).1.owned f ≡ false

-- After a success the flag is clear.
abbrev pub Clears : Flag → Action → Type 0
Clears f m = (s : Runtime) → is_ok (m s).0 ≡ true → (m s).1.owned f ≡ false

-- Every service that is held stays accounted for.
abbrev pub Keeps : Action → Type 0
Keeps m = (s : Runtime) → Accounted s → Accounted (m s).1

pub sequence-Shrinks : (ms : List Action) → All Shrinks ms → Shrinks (sequence ms)
unfolding sequence
sequence-Shrinks [] h s f e = e
sequence-Shrinks (m ∷ ms) h s f e = elim (Bool-cases (is_ok (m s).0)) [
  | inl y ↦ rw (y, if◌then◌else◌) (sequence-Shrinks ms h.1 (m s).1 f (h.0 s f e))
  | inr n ↦ rw (n, if◌then◌else◌) (h.0 s f e)
]

pub sequence-Keeps : (ms : List Action) → All Keeps ms → Keeps (sequence ms)
unfolding sequence
sequence-Keeps [] h s a = a
sequence-Keeps (m ∷ ms) h s a = elim (Bool-cases (is_ok (m s).0)) [
  | inl y ↦ rw (y, if◌then◌else◌) (sequence-Keeps ms h.1 (m s).1 (h.0 s a))
  | inr n ↦ rw (n, if◌then◌else◌) (h.0 s a)
]

pub sequence-cons_Keeps :
    (m : Action) (ms : List Action) → Keeps m → Keeps (sequence ms) → Keeps (sequence (m ∷ ms))
unfolding sequence
sequence-cons_Keeps m ms h k s a = elim (Bool-cases (is_ok (m s).0)) [
  | inl y ↦ rw (y, if◌then◌else◌) (k (m s).1 (h s a))
  | inr n ↦ rw (n, if◌then◌else◌) (h s a)
]

-- A sequence that succeeds has been run to its end, one action after the other.
pub sequence-ok :
    (m : Action) (ms : List Action) (s : Runtime)
    → is_ok (sequence (m ∷ ms) s).0 ≡ true
    → (is_ok (m s).0 ≡ true)
      × (is_ok (sequence ms (m s).1).0 ≡ true)
      × (sequence (m ∷ ms) s ≡ sequence ms (m s).1)
unfolding sequence
sequence-ok m ms s h = elim (Bool-cases (is_ok (m s).0)) [
  | inl y ↦ (y, rw (y, if◌then◌else◌) at h, rw (y, if◌then◌else◌) refl)
  | inr n ↦ absurd (false≢true (sym n ∙ (rw (n, if◌then◌else◌) at h)))
]

-- What the first action clears stays clear; and what a later one clears is clear.
pub sequence-Clears_here :
    (f : Flag) (m : Action) (ms : List Action)
    → Clears f m
    → All Shrinks ms
    → Clears f (sequence (m ∷ ms))
sequence-Clears_here f m ms c h s o =
    let (y, _, e) = sequence-ok m ms s o in rw e (sequence-Shrinks ms h (m s).1 f (c s y))

pub sequence-Clears_there :
    (f : Flag) (m : Action) (ms : List Action)
    → Clears f (sequence ms)
    → Clears f (sequence (m ∷ ms))
sequence-Clears_there f m ms c s o = let (_, y, e) = sequence-ok m ms s o in rw e (c (m s).1 y)

pub set_owned-Clears : (f : Flag) → Clears f (set_owned f false)
unfolding set_owned
set_owned-Clears f s h = rw (same_refl f) refl

pub set_owned-Shrinks : (f : Flag) → Shrinks (set_owned f false)
unfolding set_owned
set_owned-Shrinks f s g e = ground arith

pub if_owned-Clears : (f : Flag) (m : Action) → Clears f m → Clears f (if_owned f m)
unfolding if_owned
if_owned-Clears f m c s h = elim (Bool-cases (s.owned f)) [
  | inl y ↦ rw (y, if◌then◌else◌) (c s (rw (y, if◌then◌else◌) at h))
  | inr n ↦ rw (n, if◌then◌else◌) n
]

pub if_owned-Shrinks : (f : Flag) (m : Action) → Shrinks m → Shrinks (if_owned f m)
unfolding if_owned
if_owned-Shrinks f m h s g e = elim (Bool-cases (s.owned f)) [
  | inl y ↦ rw (y, if◌then◌else◌) (h s g e)
  | inr n ↦ rw (n, if◌then◌else◌) e
]

pub if_owned-Keeps : (f : Flag) (m : Action) → Keeps m → Keeps (if_owned f m)
unfolding if_owned
if_owned-Keeps f m h s a = elim (Bool-cases (s.owned f)) [
  | inl y ↦ rw (y, if◌then◌else◌) (h s a)
  | inr n ↦ rw (n, if◌then◌else◌) a
]

pub when-Shrinks : (b : Bool) (m : Action) → Shrinks m → Shrinks (when b m)
unfolding when
when-Shrinks true m h s f e = h s f e
when-Shrinks false m h s f e = e

pub when-Clears : (f : Flag) (b : Bool) (m : Action) → b ≡ true → Clears f m → Clears f (when b m)
unfolding when
when-Clears f b m y c s h = rw (y, if◌then◌else◌) (c s (rw (y, if◌then◌else◌) at h))

pub when-Keeps : (b : Bool) (m : Action) → Keeps m → Keeps (when b m)
unfolding when
when-Keeps true m h s a = h s a
when-Keeps false m h s a = a

pub set_result-Shrinks : (e : EspErr) → Shrinks (set_result e)
unfolding set_result
set_result-Shrinks e s f h = h

pub set_result-Keeps : (e : EspErr) → Keeps (set_result e)
unfolding set_result
set_result-Keeps e s h = h

pub return_result-Shrinks : Shrinks return_result
unfolding return_result
return_result-Shrinks s f h = h

pub return_result-Keeps : Keeps return_result
unfolding return_result
return_result-Keeps s h = h

pub set_aux-Shrinks : (a : Aux) (b : Bool) → Shrinks (set_aux a b)
unfolding set_aux
set_aux-Shrinks a b s f e = e

pub set_sleeps-Shrinks : (p : Participant) (b : Bool) → Shrinks (set_sleeps p b)
unfolding set_sleeps
set_sleeps-Shrinks p b s f e = e

pub set_aux-Keeps : (a : Aux) (b : Bool) → Keeps (set_aux a b)
unfolding set_aux
set_aux-Keeps a b s h = h

pub set_sleeps-Keeps : (p : Participant) (b : Bool) → Keeps (set_sleeps p b)
unfolding set_sleeps
set_sleeps-Keeps p b s h = h

pub set_reset_pending-Keeps : (b : Bool) → Keeps (set_reset_pending b)
unfolding set_reset_pending
set_reset_pending-Keeps b s h = h

pub set_owned-true-Keeps : (f : Flag) → Keeps (set_owned f true)
unfolding set_owned
set_owned-true-Keeps f s h g e = ground (arith, h g)

-- A flag may be cleared once its service is no longer held.
pub set_owned-false-Accounted :
    (f : Flag) (s : Runtime)
    → Accounted s
    → held f s.log ≡ false
    → Accounted (set_owned f false s).1
unfolding set_owned
set_owned-false-Accounted f s h n g e = elim (Bool-cases (same f g)) [
  | inl y ↦ absurd (false≢true (sym (subst (λ x. held x s.log ≡ false) (same→eq f g y) n) ∙ e))
  | inr d ↦ rw (d, if◌then◌else◌) (h g e)
]

-- `m; owned = false; more`, left at the first error.
pub clear_second :
    (f : Flag) (m : Action) (more : List Action)
    → All Shrinks more
    → Clears f (sequence (m ∷ set_owned f false ∷ more))
clear_second f m more h =
    sequence-Clears_there f m (set_owned f false ∷ more)
      (sequence-Clears_here f (set_owned f false) more (set_owned-Clears f) h)

-- Each action of a list clears the flag that stands at its place, if one does.
abbrev pub EachClears : List (Option Flag) → List Action → Type 0
EachClears [] ms = Unit
EachClears (o ∷ os) [] = Unit
EachClears (none ∷ os) (m ∷ ms) = EachClears os ms
EachClears (some f ∷ os) (m ∷ ms) = Clears f m × EachClears os ms

abbrev pub among : Flag → List (Option Flag) → Bool
among f [] = false
among f (o ∷ os) = is_flag o f || among f os

-- A sequence that succeeds has cleared the flag of each of its actions.
pub sequence-Clears :
    (os : List (Option Flag)) (ms : List Action)
    → length os ≡ length ms
    → EachClears os ms
    → All Shrinks ms
    → (f : Flag) → among f os ≡ true
    → Clears f (sequence ms)
sequence-Clears [] ms n c h f e = absurd (false≢true e)
sequence-Clears (o ∷ os) [] n c h f e = absurd (omega arith)
sequence-Clears (none ∷ os) (m ∷ ms) n c h f e =
    sequence-Clears_there f m ms (sequence-Clears os ms (omega arith) c h.1 f e)
sequence-Clears (some g ∷ os) (m ∷ ms) n c h f e = elim (Bool-cases (same g f)) [
  | inl y ↦ sequence-Clears_here f m ms (subst (λ x. Clears x m) (same→eq g f y) c.0) h.1
  | inr d ↦
      sequence-Clears_there f m ms
        (sequence-Clears os ms (omega arith) c.1 h.1 f (rw (d, ◌||◌) at e))
]
