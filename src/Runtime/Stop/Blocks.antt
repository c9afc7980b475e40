-- ===== src/Runtime/Stop/Blocks.antt =====
-- main/app_runtime.c: the blocks of the service phases, by the calls that they make.
use micro_tech.Prelude.{Bool-cases, inl, inr, if◌then◌else◌, Bool, false, List, ◌∷◌, EspErr}
use micro_tech.Pm.Context.{Participant}
use micro_tech.Runtime.State.{Flag, system_pm_cancelable, Call, Host}
use micro_tech.Runtime.Action.{Action, sequence, if_owned, set_owned, set_sleeps, must, tolerate}
use micro_tech.Runtime.Rules.{
  All, ◌&◌, Shrinks, Clears, Keeps, sequence-Shrinks, sequence-Keeps, set_owned-Shrinks,
  if_owned-Clears, if_owned-Shrinks, if_owned-Keeps, set_sleeps-Shrinks, set_sleeps-Keeps,
  clear_second,
}
use micro_tech.Runtime.Rules.Calls.{
  AcquiresNothing, Frees, must-Shrinks, tolerate-Shrinks, must_clear-Keeps, tolerate_clear-Keeps,
}
use micro_tech.Runtime.Stop.{if_cancelable}

module _ (host : Host) where
  -- A block that makes one call and clears the flag of its service, and then more.
  pub block-Shrinks :
      (f : Flag) (c : Call) (more : List Action)
      → All Shrinks more
      → Shrinks (if_owned f (sequence (must host c ∷ set_owned f false ∷ more)))
  block-Shrinks f c more h =
      if_owned-Shrinks f _ (sequence-Shrinks _ (must-Shrinks host c & set_owned-Shrinks f & h))

  pub block-Clears :
      (f : Flag) (c : Call) (more : List Action)
      → All Shrinks more
      → Clears f (if_owned f (sequence (must host c ∷ set_owned f false ∷ more)))
  block-Clears f c more h = if_owned-Clears f _ (clear_second f (must host c) more h)

  pub block-Keeps :
      (f : Flag) (c : Call) (more : List Action)
      → AcquiresNothing c
      → Frees (λ _. false) c f
      → All Keeps more
      → Keeps (if_owned f (sequence (must host c ∷ set_owned f false ∷ more)))
  block-Keeps f c more n h k =
      if_owned-Keeps f _ (must_clear-Keeps host c f more n h (sequence-Keeps more k))

  pub tolerant-Shrinks :
      (test : EspErr → Bool) (f : Flag) (c : Call) (more : List Action)
      → All Shrinks more
      → Shrinks (if_owned f (sequence (tolerate host test c ∷ set_owned f false ∷ more)))
  tolerant-Shrinks test f c more h =
      if_owned-Shrinks f _
        (sequence-Shrinks _ (tolerate-Shrinks host test c & set_owned-Shrinks f & h))

  pub tolerant-Clears :
      (test : EspErr → Bool) (f : Flag) (c : Call) (more : List Action)
      → All Shrinks more
      → Clears f (if_owned f (sequence (tolerate host test c ∷ set_owned f false ∷ more)))
  tolerant-Clears test f c more h =
      if_owned-Clears f _ (clear_second f (tolerate host test c) more h)

  pub tolerant-Keeps :
      (test : EspErr → Bool) (f : Flag) (c : Call) (more : List Action)
      → AcquiresNothing c
      → Frees test c f
      → All Keeps more
      → Keeps (if_owned f (sequence (tolerate host test c ∷ set_owned f false ∷ more)))
  tolerant-Keeps test f c more n h k =
      if_owned-Keeps f _ (tolerate_clear-Keeps host test c f more n h (sequence-Keeps more k))

  pub off-Shrinks : (p : Participant) → Shrinks (set_sleeps p false)
  off-Shrinks p = set_sleeps-Shrinks p false

  pub off-Keeps : (p : Participant) → Keeps (set_sleeps p false)
  off-Keeps p = set_sleeps-Keeps p false

pub if_cancelable-Shrinks : (m : Action) → Shrinks m → Shrinks (if_cancelable m)
unfolding if_cancelable
if_cancelable-Shrinks m h s f e = elim (Bool-cases (s.aux system_pm_cancelable)) [
  | inl y ↦ rw (y, if◌then◌else◌) (h s f e)
  | inr n ↦ rw (n, if◌then◌else◌) e
]

pub if_cancelable-Keeps : (m : Action) → Keeps m → Keeps (if_cancelable m)
unfolding if_cancelable
if_cancelable-Keeps m h s a = elim (Bool-cases (s.aux system_pm_cancelable)) [
  | inl y ↦ rw (y, if◌then◌else◌) (h s a)
  | inr n ↦ rw (n, if◌then◌else◌) a
]
