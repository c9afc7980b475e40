-- ===== src/Runtime/Rules/Calls.antt =====
-- main/app_runtime.c: rules for the calls of an action, and for a flag that is cleared behind a call.
use micro_tech.Prelude.{
  ◌≡◌, refl, Bool, true, false, ◌||◌, inl, inr, List, ◌∷◌, arith, if◌then◌else◌, Bool-cases, EspErr,
  ok, is_ok,
}
use micro_tech.Runtime.State.{Flag, Call, Host, Runtime, acquired_by, is_flag, gives_back, held}
use micro_tech.Runtime.Action.{Action, sequence, set_owned, must, tolerate}
use micro_tech.Runtime.Rules.{Shrinks, Keeps, set_owned-false-Accounted}

-- The call acquires nothing.
abbrev pub AcquiresNothing : Call → Type 0
AcquiresNothing c = (f : Flag) → is_flag (acquired_by c) f ≡ false

-- A call after which the test holds has given the service back.
abbrev pub Frees : (EspErr → Bool) → Call → Flag → Type 0
Frees test c f = (r : EspErr) → (is_ok r || test r) ≡ true → gives_back c r f ≡ true

pub held-plain :
    (c : Call) (r : EspErr) (f : Flag) (log : _)
    → is_flag (acquired_by c) f ≡ false
    → held f ((c, r) ∷ log) ≡ true
    → held f log ≡ true
unfolding held
held-plain c r f log n h = ground (arith, rw n at h)

pub held-freed :
    (test : EspErr → Bool) (c : Call) (r : EspErr) (f : Flag) (log : _)
    → is_flag (acquired_by c) f ≡ false
    → Frees test c f
    → (is_ok r || test r) ≡ true
    → held f ((c, r) ∷ log) ≡ false
unfolding held
held-freed test c r f log n h o = rw (n, h r o) (ground arith)

-- The flag of a service may be cleared behind a call that has given it back.
pub clear_behind-Keeps :
    (m : Action) (f : Flag) (more : List Action)
    → Keeps m
    → ((s : Runtime) → is_ok (m s).0 ≡ true → held f (m s).1.log ≡ false)
    → Keeps (sequence more)
    → Keeps (sequence (m ∷ set_owned f false ∷ more))
unfolding sequence set_owned
clear_behind-Keeps m f more k gone h s a = elim (Bool-cases (is_ok (m s).0)) [
  | inl y ↦
      rw (y, if◌then◌else◌)
        (h (set_owned f false (m s).1).1 (set_owned-false-Accounted f (m s).1 (k s a) (gone s y)))
  | inr n ↦ rw (n, if◌then◌else◌) (k s a)
]

module _ (host : Host) where
  pub must-Shrinks : (c : Call) → Shrinks (must host c)
  unfolding must
  must-Shrinks c s f e = e

  pub tolerate-Shrinks : (test : EspErr → Bool) (c : Call) → Shrinks (tolerate host test c)
  unfolding tolerate
  tolerate-Shrinks test c s f e = e

  pub must-Keeps : (c : Call) → AcquiresNothing c → Keeps (must host c)
  unfolding must
  must-Keeps c n s h f e = h f (held-plain c (host.reply s.log c) f s.log (n f) e)

  pub tolerate-Keeps :
      (test : EspErr → Bool) (c : Call) → AcquiresNothing c → Keeps (tolerate host test c)
  unfolding tolerate
  tolerate-Keeps test c n s h f e = h f (held-plain c (host.reply s.log c) f s.log (n f) e)

  must-gone :
      (c : Call) (f : Flag)
      → AcquiresNothing c
      → Frees (λ _. false) c f
      → (s : Runtime) → is_ok (must host c s).0 ≡ true
      → held f (must host c s).1.log ≡ false
  unfolding must
  must-gone c f n h s o = held-freed (λ _. false) c (host.reply s.log c) f s.log (n f) h (rw o refl)

  tolerate-gone :
      (test : EspErr → Bool) (c : Call) (f : Flag)
      → AcquiresNothing c
      → Frees test c f
      → (s : Runtime) → is_ok (tolerate host test c s).0 ≡ true
      → held f (tolerate host test c s).1.log ≡ false
  unfolding tolerate
  tolerate-gone test c f n h s o =
      held-freed test c (host.reply s.log c) f s.log (n f) h
        (passed (host.reply s.log c) (test (host.reply s.log c)) o)
    where
      passed :
          (r : EspErr) (b : Bool)
          → is_ok (if is_ok r || b then ok else r) ≡ true
          → (is_ok r || b) ≡ true
      passed r b e = ground arith

  -- `call; if (error) return; owned = false; more`
  pub must_clear-Keeps :
      (c : Call) (f : Flag) (more : List Action)
      → AcquiresNothing c
      → Frees (λ _. false) c f
      → Keeps (sequence more)
      → Keeps (sequence (must host c ∷ set_owned f false ∷ more))
  must_clear-Keeps c f more n h k =
      clear_behind-Keeps (must host c) f more (must-Keeps c n) (must-gone c f n h) k

  pub tolerate_clear-Keeps :
      (test : EspErr → Bool) (c : Call) (f : Flag) (more : List Action)
      → AcquiresNothing c
      → Frees test c f
      → Keeps (sequence more)
      → Keeps (sequence (tolerate host test c ∷ set_owned f false ∷ more))
  tolerate_clear-Keeps test c f more n h k =
      clear_behind-Keeps (tolerate host test c) f more (tolerate-Keeps test c n)
        (tolerate-gone test c f n h) k
