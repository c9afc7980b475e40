-- ===== src/Runtime/Preserve/Calls.antt =====
-- main/app_runtime.c: rules for the calls of the start, by what they acquire and release.
use mathlib.Core.Bool.{false≢true}
use micro_tech.Prelude.{
  ◌≡◌, refl, sym, ◌∙◌, subst, Bool, true, false, inl, inr, List, [], ◌∷◌, arith, if◌then◌else◌,
  Bool-cases, EspErr, ok, is_ok,
}
use micro_tech.Pm.Context.{Participant}
use micro_tech.Runtime.State.{Flag, Aux, Call, Host, Runtime, same→eq, same_refl, held, Accounted}
use micro_tech.Runtime.Action.{
  Action, return_result, sequence, set_owned, set_aux, set_sleeps, set_reset_pending, must,
  tolerate, try_call,
}
use micro_tech.Runtime.Rules.{set_owned-true-Keeps, set_owned-false-Accounted}
use micro_tech.Runtime.Rules.Calls.{
  AcquiresNothing, Frees, held-plain, held-freed, must-Keeps, tolerate-Keeps,
}
use micro_tech.Runtime.Preserve.{
  Takes, Preserves, Acquires, Claimed, Spare, flow_rules, either, sequence-Takes, try_call-Takes,
  held-grown, held-failed,
}

not_true : (b : Bool) → (b ≡ true → false ≡ true) → b ≡ false
not_true b h = elim (Bool-cases b) [ inl y ↦ absurd (false≢true (h y)) | inr n ↦ n ]

pub set_owned-true-Claimed :
    (f : Flag) (s : Runtime) → Accounted s → Claimed f (set_owned f true s).1
unfolding set_owned
set_owned-true-Claimed f s a = (set_owned-true-Keeps f s a, rw (same_refl f) refl)

pub set_owned-true-Accounted : (f : Flag) → Preserves Accounted (set_owned f true)
set_owned-true-Accounted f = record { at = set_owned-true-Keeps f }

pub set_owned-true-Spare : (f g : Flag) → Preserves (Spare f) (set_owned g true)
unfolding set_owned
set_owned-true-Spare f g = record { at = λ s p. (set_owned-true-Keeps g s p.0, p.1) }

-- The flag of a service that is not held may be cleared.
pub set_owned-false-Spare : (f : Flag) → Takes (Spare f) Accounted (set_owned f false)
set_owned-false-Spare f = record { at = λ s p. set_owned-false-Accounted f s p.0 p.1 }

pub set_aux-Accounted : (a : Aux) (b : Bool) → Preserves Accounted (set_aux a b)
unfolding set_aux
set_aux-Accounted a b = record { at = λ s h. h }

pub set_sleeps-Accounted : (p : Participant) (b : Bool) → Preserves Accounted (set_sleeps p b)
unfolding set_sleeps
set_sleeps-Accounted p b = record { at = λ s h. h }

pub set_reset_pending-Accounted : (b : Bool) → Preserves Accounted (set_reset_pending b)
unfolding set_reset_pending
set_reset_pending-Accounted b = record { at = λ s h. h }

pub return_result-Accounted : Preserves Accounted return_result
unfolding return_result
return_result-Accounted = record { at = λ s h. h }

pub set_aux-Claimed : (f : Flag) (a : Aux) (b : Bool) → Preserves (Claimed f) (set_aux a b)
unfolding set_aux
set_aux-Claimed f a b = record { at = λ s h. h }

pub set_reset_pending-Claimed : (f : Flag) (b : Bool) → Preserves (Claimed f) (set_reset_pending b)
unfolding set_reset_pending
set_reset_pending-Claimed f b = record { at = λ s h. h }

pub set_aux-Spare : (f : Flag) (a : Aux) (b : Bool) → Preserves (Spare f) (set_aux a b)
unfolding set_aux
set_aux-Spare f a b = record { at = λ s h. h }

pub sequence_one :
    (P Q : Runtime → Type 0) (m : Action) → Takes P Q m → Takes P Q (sequence (m ∷ []))
unfolding sequence
sequence_one P Q m h = record {
  at = λ s p. either Q (is_ok (m s).0) (ok, (m s).1) (m s) (λ _. h.at s p) (λ _. h.at s p);
}

-- A block that begins by setting the flag.
pub claim_block :
    (f : Flag) (ms : List Action)
    → Takes (Claimed f) Accounted (sequence ms)
    → Preserves Accounted (sequence (set_owned f true ∷ ms))
unfolding sequence set_owned
claim_block f ms h = record {
  at = λ s a. h.at (set_owned f true s).1 (set_owned-true-Claimed f s a);
}

pub claimed : (f : Flag) (m : Action) → Preserves (Claimed f) m → Takes (Claimed f) Accounted m
claimed f m h = record { at = λ s p. (h.at s p).0 }

module _ (host : Host) where
  -- A call that acquires the flag's service leaves it accounted for where the flag is set.
  pub must_acquiring-Claimed :
      (f : Flag) (c : Call) → Acquires f c → Preserves (Claimed f) (must host c)
  unfolding must
  must_acquiring-Claimed f c q = record {
    at = λ s p. (
      λ g h. elim (held-grown c (host.reply s.log c) f g s.log q h) [
        | inl y ↦ subst (λ x. s.owned x ≡ true) (same→eq f g y) p.1
        | inr k ↦ p.0 g k
      ],
      p.1,
    );
  }

  pub must-Accounted : (c : Call) → AcquiresNothing c → Preserves Accounted (must host c)
  must-Accounted c n = record { at = must-Keeps host c n }

  pub tolerate-Accounted :
      (test : EspErr → Bool) (c : Call)
      → AcquiresNothing c
      → Preserves Accounted (tolerate host test c)
  tolerate-Accounted test c n = record { at = tolerate-Keeps host test c n }

  pub must-Claimed : (f : Flag) (c : Call) → AcquiresNothing c → Preserves (Claimed f) (must host c)
  unfolding must
  must-Claimed f c n = record { at = λ s p. (must-Keeps host c n s p.0, p.1) }

  pub must-Spare : (f : Flag) (c : Call) → AcquiresNothing c → Preserves (Spare f) (must host c)
  unfolding must
  must-Spare f c n = record {
    at = λ s p. (
      must-Keeps host c n s p.0,
      not_true (held f (must host c s).1.log)
          (λ h. sym p.1 ∙ held-plain c (host.reply s.log c) f s.log (n f) h),
    );
  }

  pub tolerate-Spare :
      (test : EspErr → Bool) (f : Flag) (c : Call)
      → AcquiresNothing c
      → Preserves (Spare f) (tolerate host test c)
  unfolding tolerate
  tolerate-Spare test f c n = record {
    at = λ s p. (
      tolerate-Keeps host test c n s p.0,
      not_true (held f (tolerate host test c s).1.log)
          (λ h. sym p.1 ∙ held-plain c (host.reply s.log c) f s.log (n f) h),
    );
  }

  acquired :
      (f : Flag) (c : Call)
      → Acquires f c
      → (s : Runtime) → Accounted s
      → Accounted (set_owned f true (must host c s).1).1
  unfolding must set_owned
  acquired f c q s a g e = elim (held-grown c (host.reply s.log c) f g s.log q e) [
    | inl y ↦ rw (y, if◌then◌else◌) refl
    | inr h ↦ ground (arith, a g h)
  ]

  -- A call whose flag is set after it has succeeded.
  pub try_acquire-Accounted :
      (f : Flag) (c : Call) (more : List Action) (n : EspErr → Action)
      → Acquires f c
      → Preserves Accounted (sequence more)
      → ((e : EspErr) → Preserves Accounted (n e))
      → Preserves Accounted (try_call host c (sequence (set_owned f true ∷ more)) n)
  unfolding try_call sequence set_owned must
  try_acquire-Accounted f c more n q h k = record {
    at = λ s a.
        either Accounted (is_ok (host.reply s.log c)) _ _
          (λ _. h.at (set_owned f true (must host c s).1).1 (acquired f c q s a))
          (λ o.
            (k (host.reply s.log c)).at (must host c s).1
              (λ g e. a g (held-failed c (host.reply s.log c) g s.log o e)));
  }

  pub acquire-Accounted :
      (f : Flag) (c : Call) (more : List Action)
      → Acquires f c
      → Preserves Accounted (sequence more)
      → Preserves Accounted (sequence (must host c ∷ set_owned f true ∷ more))
  unfolding sequence set_owned must
  acquire-Accounted f c more q h = record {
    at = λ s a.
        either Accounted (is_ok (host.reply s.log c)) _ _
          (λ _. h.at (set_owned f true (must host c s).1).1 (acquired f c q s a))
          (λ o g e. a g (held-failed c (host.reply s.log c) g s.log o e));
  }

  -- A call behind which the flag is cleared when it succeeds.
  pub try_release-Accounted :
      (f : Flag) (c : Call) (more : List Action) (n : EspErr → Action)
      → AcquiresNothing c
      → Frees (λ _. false) c f
      → Preserves Accounted (sequence more)
      → ((e : EspErr) → Preserves Accounted (n e))
      → Preserves Accounted (try_call host c (sequence (set_owned f false ∷ more)) n)
  unfolding try_call sequence set_owned must
  try_release-Accounted f c more n q g h k = record {
    at = λ s a.
        either Accounted (is_ok (host.reply s.log c)) _ _
          (λ y. h.at (set_owned f false (must host c s).1).1 (
            set_owned-false-Accounted f (must host c s).1 (must-Keeps host c q s a)
              (held-freed (λ _. false) c (host.reply s.log c) f s.log (q f) g (rw y refl))))
          (λ _. (k (host.reply s.log c)).at (must host c s).1 (must-Keeps host c q s a));
  }

  -- A call that acquires a service whose flag is set.
  pub try_call-Claimed-Accounted :
      (f : Flag) (c : Call) (m : Action) (n : EspErr → Action)
      → Acquires f c
      → Preserves Accounted m
      → ((e : EspErr) → Preserves Accounted (n e))
      → Takes (Claimed f) Accounted (sequence (try_call host c m n ∷ []))
  try_call-Claimed-Accounted f c m n q h k = sequence_one (Claimed f) Accounted _ (
      try_call-Takes (Claimed f) (Claimed f) Accounted host c m n (must_acquiring-Claimed f c q)
        (record { at = λ s p. h.at s p.0 }) (λ e. record { at = λ s p. (k e).at s p.0 }))

  Spare-called :
      (f : Flag) (c : Call) (m : Action) (n : EspErr → Action)
      → Acquires f c
      → Preserves Accounted m
      → ((e : EspErr) → Takes (Spare f) Accounted (n e))
      → (s : Runtime) → Claimed f s
      → held f s.log ≡ false
      → Accounted (try_call host c m n s).1
  unfolding try_call must
  Spare-called f c m n q h k s p o =
      either Accounted (is_ok (host.reply s.log c)) (m (must host c s).1)
        (n (host.reply s.log c) (must host c s).1)
        (λ _. h.at (must host c s).1 ((must_acquiring-Claimed f c q).at s p).0)
        (λ e. (k (host.reply s.log c)).at (must host c s).1 (
          ((must_acquiring-Claimed f c q).at s p).0,
          not_true (held f (must host c s).1.log)
              (λ y. sym o ∙ held-failed c (host.reply s.log c) f s.log e y),
        ))

  -- A call whose service is not held before: when it fails, the service is still not held.
  pub try_fresh-Accounted :
      (f : Flag) (c : Call) (m : Action) (n : EspErr → Action)
      → Acquires f c
      → Preserves Accounted m
      → ((e : EspErr) → Takes (Spare f) Accounted (n e))
      → Takes (Spare f) Accounted (sequence (set_owned f true ∷ try_call host c m n ∷ []))
  unfolding sequence set_owned
  try_fresh-Accounted f c m n q h k = record {
    at = λ s p.
        (sequence_one (λ x. Claimed f x × (held f x.log ≡ false)) Accounted (try_call host c m n)
            (record { at = λ x y. Spare-called f c m n q h k x y.0 y.1 })).at
          (set_owned f true s).1 (set_owned-true-Claimed f s p.0, p.1);
  }

-- A row in which a flag stays spare until the rest of it takes over.
pub sequence-Spare :
    (f : Flag) (m : Action) (ms : List Action)
    → Preserves (Spare f) m
    → Takes (Spare f) Accounted (sequence ms)
    → Takes (Spare f) Accounted (sequence (m ∷ ms))
sequence-Spare f m ms = λ h k. sequence-Takes (Spare f) Accounted m ms h (λ s p. p.0) k

pub spare : (f : Flag) (m : Action) → Preserves Accounted m → Takes (Spare f) Accounted m
spare f m h = record { at = λ s p. h.at s p.0 }

-- What is held is accounted for, and the flag is clear, so that its service is not held.
abbrev pub Fresh : Flag → Runtime → Type 0
Fresh f s = Accounted s × (s.owned f ≡ false)

pub Fresh→Spare : (f : Flag) (s : Runtime) → Fresh f s → Spare f s
Fresh→Spare f s p = (p.0, not_true (held f s.log) (λ h. sym p.1 ∙ p.0 f h))

pub sequence-Fresh :
    (f : Flag) (m : Action) (ms : List Action)
    → Preserves Accounted m
    → Preserves (λ s. s.owned f ≡ false) m
    → Takes (Fresh f) Accounted (sequence ms)
    → Takes (Fresh f) Accounted (sequence (m ∷ ms))
sequence-Fresh f m ms h g k =
    sequence-Takes (Fresh f) Accounted m ms (record { at = λ s p. (h.at s p.0, g.at s p.1) })
      (λ s p. p.0) k

pub forget-Fresh :
    (f : Flag) (ms : List Action)
    → Preserves Accounted (sequence ms)
    → Takes (Fresh f) Accounted (sequence (set_owned f false ∷ ms))
unfolding sequence set_owned
forget-Fresh f ms h = record {
  at = λ s p. h.at (set_owned f false s).1 ((set_owned-false-Spare f).at s (Fresh→Spare f s p));
}

pub ruleset account_rules = (
  flow_rules, set_owned-true-Accounted, set_aux-Accounted, set_sleeps-Accounted,
  set_reset_pending-Accounted, return_result-Accounted, must-Accounted, tolerate-Accounted,
  try_acquire-Accounted, acquire-Accounted, claim_block, claimed, must_acquiring-Claimed,
  must-Claimed, set_aux-Claimed, set_reset_pending-Claimed,
)
