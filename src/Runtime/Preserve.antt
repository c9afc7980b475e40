-- ===== src/Runtime/Preserve.antt =====
-- main/app_runtime.c: rules for the conditions before and after an action of the start, by the form
-- of the action.
pub mod Calls
pub mod Flags
use mathlib.Core.Bool.{false≢true}
use micro_tech.Prelude.{
  ◌≡◌, refl, sym, ap, ◌∙◌, ◌⊎◌, subst, Bool, true, false, Option, some, inl, inr, List, [], ◌∷◌,
  arith, if◌then◌else◌, Bool-cases, Log, EspErr, is_ok,
}
use micro_tech.Runtime.State.{
  Flag, Call, Query, Host, Runtime, same, same→eq, same_refl, acquired_by, is_flag, held, Accounted,
}
use micro_tech.Runtime.Action.{
  Action, succeed, return_error, sequence, when, choose, if_owned, set_owned, must, tolerate,
  try_call, ask, check, if_reset_pending, claim, acquire,
}
use micro_tech.Runtime.Rules.{
  All, ◌&◌, Keeps, sequence-Keeps, set_owned-true-Keeps, set_owned-false-Accounted,
}
use micro_tech.Runtime.Rules.Calls.{AcquiresNothing, Frees, held-plain, held-freed, must-Keeps}

-- From a state in which `P` holds the action ends in one in which `Q` holds.
pub record Takes (P Q : Runtime → Type 0) (m : Action) : Type 0 where
  pub at : (s : Runtime) → P s → Q (m s).1

abbrev pub Preserves : (Runtime → Type 0) → Action → Type 0
Preserves P m = Takes P P m

pub succeed-Preserves : (P : Runtime → Type 0) → Preserves P succeed
succeed-Preserves P = record { at = λ s p. p }

pub return_error-Preserves : (P : Runtime → Type 0) (e : EspErr) → Preserves P (return_error e)
return_error-Preserves P e = record { at = λ s p. p }

pub sequence_nil : (P : Runtime → Type 0) → Preserves P (sequence [])
unfolding sequence
sequence_nil P = record { at = λ s p. p }

-- A row of actions, with a condition of its own behind the first.
pub sequence_change :
    (P R Q : Runtime → Type 0) (m : Action) (ms : List Action)
    → Takes P R m
    → ((s : Runtime) → R s → Q s)
    → Takes R Q (sequence ms)
    → Takes P Q (sequence (m ∷ ms))
unfolding sequence
sequence_change P R Q m ms h w k = record {
  at = λ s p. elim (Bool-cases (is_ok (m s).0)) [
    | inl y ↦ rw (y, if◌then◌else◌) (k.at (m s).1 (h.at s p))
    | inr n ↦ rw (n, if◌then◌else◌) (w (m s).1 (h.at s p))
  ];
}

pub sequence-Takes :
    (P Q : Runtime → Type 0) (m : Action) (ms : List Action)
    → Preserves P m
    → ((s : Runtime) → P s → Q s)
    → Takes P Q (sequence ms)
    → Takes P Q (sequence (m ∷ ms))
sequence-Takes P Q m ms h w k = sequence_change P P Q m ms h w k

pub sequence-Preserves :
    (P : Runtime → Type 0) (m : Action) (ms : List Action)
    → Preserves P m
    → Preserves P (sequence ms)
    → Preserves P (sequence (m ∷ ms))
sequence-Preserves P m ms h k = sequence-Takes P P m ms h (λ s p. p) k

pub either :
    (P : Runtime → Type 0) (b : Bool) (x y : EspErr × Runtime)
    → (b ≡ true → P x.1)
    → (b ≡ false → P y.1)
    → P (if b then x else y).1
either P true x y p q = p refl
either P false x y p q = q refl

pub choose-Takes :
    (P Q : Runtime → Type 0) (b : Bool) (m n : Action)
    → Takes P Q m
    → Takes P Q n
    → Takes P Q (choose b m n)
unfolding choose
choose-Takes P Q b m n h k = record {
  at = λ s p. either Q b (m s) (n s) (λ _. h.at s p) (λ _. k.at s p);
}

pub ask-Takes :
    (P Q : Runtime → Type 0) (host : Host) (q : Query) (m n : Action)
    → Takes P Q m
    → Takes P Q n
    → Takes P Q (ask host q m n)
unfolding ask
ask-Takes P Q host q m n h k = record {
  at = λ s p. either Q (host.answer s.log q) (m s) (n s) (λ _. h.at s p) (λ _. k.at s p);
}

-- A call that can fail, with a condition of its own in between.
pub try_call-Takes :
    (P R Q : Runtime → Type 0) (host : Host) (c : Call) (m : Action) (n : EspErr → Action)
    → Takes P R (must host c)
    → Takes R Q m
    → ((e : EspErr) → Takes R Q (n e))
    → Takes P Q (try_call host c m n)
unfolding try_call must
try_call-Takes P R Q host c m n h k l = record {
  at = λ s p.
      either Q (is_ok (host.reply s.log c)) (m (must host c s).1)
        (n (host.reply s.log c) (must host c s).1) (λ _. k.at (must host c s).1 (h.at s p))
        (λ _. (l (host.reply s.log c)).at (must host c s).1 (h.at s p));
}

pub try_call-Preserves :
    (P : Runtime → Type 0) (host : Host) (c : Call) (m : Action) (n : EspErr → Action)
    → Preserves P (must host c)
    → Preserves P m
    → ((e : EspErr) → Preserves P (n e))
    → Preserves P (try_call host c m n)
try_call-Preserves P = try_call-Takes P P P

pub when-Preserves :
    (P : Runtime → Type 0) (b : Bool) (m : Action) → Preserves P m → Preserves P (when b m)
unfolding when
when-Preserves P b m h = record {
  at = λ s p. either P b (m s) (succeed s) (λ _. h.at s p) (λ _. p);
}

pub when_off : (P : Runtime → Type 0) (b : Bool) (m : Action) → b ≡ false → Preserves P (when b m)
unfolding when
when_off P b m n = record { at = λ s p. rw (n, if◌then◌else◌) p }

pub check-Preserves :
    (P : Runtime → Type 0) (host : Host) (q : Query) (e : EspErr) → Preserves P (check host q e)
unfolding check
check-Preserves P host q e = record {
  at = λ s p. either P (host.answer s.log q) (succeed s) (return_error e s) (λ _. p) (λ _. p);
}

pub if_owned-Preserves :
    (P : Runtime → Type 0) (f : Flag) (m : Action) → Preserves P m → Preserves P (if_owned f m)
unfolding if_owned
if_owned-Preserves P f m h = record {
  at = λ s p. either P (s.owned f) (m s) (succeed s) (λ _. h.at s p) (λ _. p);
}

pub if_reset_pending-Preserves :
    (P : Runtime → Type 0) (m : Action) → Preserves P m → Preserves P (if_reset_pending m)
unfolding if_reset_pending
if_reset_pending-Preserves P m h = record {
  at = λ s p. either P s.factory_reset_pending (m s) (succeed s) (λ _. h.at s p) (λ _. p);
}

pub ruleset flow_rules = (
  succeed-Preserves, return_error-Preserves, sequence_nil, sequence-Preserves, choose-Takes,
  ask-Takes, try_call-Preserves, when-Preserves, check-Preserves, if_owned-Preserves,
  if_reset_pending-Preserves,
)

-- The call acquires the service of the flag, and nothing else.
abbrev pub Acquires : Flag → Call → Type 0
Acquires f c = (g : Flag) → is_flag (acquired_by c) g ≡ same f g

-- Every service that is held is accounted for, and the flag is set.
abbrev pub Claimed : Flag → Runtime → Type 0
Claimed f s = Accounted s × (s.owned f ≡ true)

-- Every service that is held is accounted for, and the flag's is not held.
abbrev pub Spare : Flag → Runtime → Type 0
Spare f s = Accounted s × (held f s.log ≡ false)

-- A call adds to what is held at most what it acquires, and nothing when it fails.
pub held-grown :
    (c : Call) (r : EspErr) (f g : Flag) (log : Log Call EspErr)
    → Acquires f c
    → held g ((c, r) ∷ log) ≡ true
    → (same f g ≡ true) ⊎ (held g log ≡ true)
unfolding held
held-grown c r f g log a h = ground (arith, a g)

pub held-failed :
    (c : Call) (r : EspErr) (g : Flag) (log : Log Call EspErr)
    → is_ok r ≡ false
    → held g ((c, r) ∷ log) ≡ true
    → held g log ≡ true
unfolding held
held-failed c r g log n h = ground (arith, rw n at h)
