-- ===== src/Runtime/Preserve/Flags.antt =====
-- main/app_runtime.c: rules for a flag that an action leaves clear.
use micro_tech.Prelude.{◌≡◌, Bool, false, if◌then◌else◌, EspErr}
use micro_tech.Pm.Context.{Participant}
use micro_tech.Runtime.State.{Flag, Aux, Call, Host, Runtime, same}
use micro_tech.Runtime.Action.{
  set_result, return_result, set_owned, set_aux, set_sleeps, set_reset_pending, must, tolerate,
}
use micro_tech.Runtime.Preserve.{Preserves, flow_rules}

abbrev pub Clear : Flag → Runtime → Type 0
Clear f s = s.owned f ≡ false

pub set_owned-Clear :
    (f g : Flag) (b : Bool) → same g f ≡ false → Preserves (Clear f) (set_owned g b)
unfolding set_owned
set_owned-Clear f g b n = record { at = λ s h. rw (n, if◌then◌else◌) h }

module _ (f : Flag) where
  pub set_result-Clear : (e : EspErr) → Preserves (Clear f) (set_result e)
  unfolding set_result
  set_result-Clear e = record { at = λ s h. h }

  pub return_result-Clear : Preserves (Clear f) return_result
  unfolding return_result
  return_result-Clear = record { at = λ s h. h }

  pub set_aux-Clear : (a : Aux) (b : Bool) → Preserves (Clear f) (set_aux a b)
  unfolding set_aux
  set_aux-Clear a b = record { at = λ s h. h }

  pub set_sleeps-Clear : (p : Participant) (b : Bool) → Preserves (Clear f) (set_sleeps p b)
  unfolding set_sleeps
  set_sleeps-Clear p b = record { at = λ s h. h }

  pub set_reset_pending-Clear : (b : Bool) → Preserves (Clear f) (set_reset_pending b)
  unfolding set_reset_pending
  set_reset_pending-Clear b = record { at = λ s h. h }

  pub must-Clear : (host : Host) (c : Call) → Preserves (Clear f) (must host c)
  unfolding must
  must-Clear host c = record { at = λ s h. h }

  pub tolerate-Clear :
      (host : Host) (test : EspErr → Bool) (c : Call) → Preserves (Clear f) (tolerate host test c)
  unfolding tolerate
  tolerate-Clear host test c = record { at = λ s h. h }

pub ruleset clear_rules = (
  flow_rules, set_owned-Clear, set_result-Clear, return_result-Clear, set_aux-Clear,
  set_sleeps-Clear, set_reset_pending-Clear, must-Clear, tolerate-Clear,
)
