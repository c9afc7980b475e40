-- ===== src/Runtime/Stop/Progress.antt =====
-- main/app_runtime.c: the unwinding where no call fails.
use mathlib.Core.Bool.{false≢true}
use micro_tech.Prelude.{
  ◌≡◌, refl, sym, ap, ◌∙◌, ◌&&◌, Bool, true, false, List, [], ◌∷◌, if◌then◌else◌, Log, EspErr, ok,
  is_ok,
}
use micro_tech.Pm.Context.{Participant}
use micro_tech.Pm.Sleep.{record_first_error}
use micro_tech.Runtime.State.{
  stopped, Flag, nv, factory_reset, onboarding, fs, bsp, display_lease, Aux, Call, Product, Host,
  Runtime, Lifecycle, release_and_deinit, display_release, bsp_deinit, fs_deinit, onboarding_deinit,
  reset_service_deinit, nv_deinit,
}
use micro_tech.Runtime.Action.{
  Action, set_result, return_result, sequence, when, if_owned, set_owned, set_aux, set_sleeps, must,
  tolerate,
}
use micro_tech.Runtime.Stop.Unwind.{served, ended_clear, unwind-cases}
use micro_tech.Runtime.Stop.{
  if_cancelable, attempt, release_display_and_board, stop_display, stop_storage, stop_nv,
  stop_foundations, stop_app_services, stop_active_services, stop_platform_services, stop_services,
  unwind,
}

-- Where no call has failed the action succeeds.
pub record Succeeds (m : Action) : Type 0 where
  pub at : (s : Runtime) → s.result ≡ ok → ((m s).0 ≡ ok) × ((m s).1.result ≡ ok)

-- No call fails.
abbrev pub AnswersOk : Host → Type 0
AnswersOk host = (log : Log Call EspErr) (c : Call) → host.reply log c ≡ ok

test_either :
    (b : Bool) (x y : EspErr × Runtime)
    → (x.0 ≡ ok) × (x.1.result ≡ ok)
    → (y.0 ≡ ok) × (y.1.result ≡ ok)
    → ((if b then x else y).0 ≡ ok) × ((if b then x else y).1.result ≡ ok)
test_either true x y p q = p
test_either false x y p q = q

if_either : (b : Bool) (x y : EspErr × Runtime) → x.0 ≡ ok → y.0 ≡ ok → (if b then x else y).0 ≡ ok
if_either true x y p q = p
if_either false x y p q = q

sequence-nil : Succeeds (sequence [])
unfolding sequence
sequence-nil = record { at = λ s e. (refl, e) }

sequence-cons :
    (m : Action) (ms : List Action)
    → Succeeds m
    → Succeeds (sequence ms)
    → Succeeds (sequence (m ∷ ms))
unfolding sequence
sequence-cons m ms h k = record {
  at = λ s e. rw (ap is_ok (h.at s e).0, if◌then◌else◌) (k.at (m s).1 (h.at s e).1);
}

when-Succeeds : (b : Bool) (m : Action) → Succeeds m → Succeeds (when b m)
unfolding when
when-Succeeds b m h = record { at = λ s e. test_either b (m s) (ok, s) (h.at s e) (refl, e) }

if_owned-Succeeds : (f : Flag) (m : Action) → Succeeds m → Succeeds (if_owned f m)
unfolding if_owned
if_owned-Succeeds f m h = record {
  at = λ s e. test_either (s.owned f) (m s) (ok, s) (h.at s e) (refl, e);
}

if_cancelable-Succeeds : (m : Action) → Succeeds m → Succeeds (if_cancelable m)
unfolding if_cancelable
if_cancelable-Succeeds m h = record { at = λ s e. test_either _ (m s) (ok, s) (h.at s e) (refl, e) }

set_owned-Succeeds : (f : Flag) (b : Bool) → Succeeds (set_owned f b)
unfolding set_owned
set_owned-Succeeds f b = record { at = λ s e. (refl, e) }

set_aux-Succeeds : (a : Aux) (b : Bool) → Succeeds (set_aux a b)
unfolding set_aux
set_aux-Succeeds a b = record { at = λ s e. (refl, e) }

set_sleeps-Succeeds : (p : Participant) (b : Bool) → Succeeds (set_sleeps p b)
unfolding set_sleeps
set_sleeps-Succeeds p b = record { at = λ s e. (refl, e) }

set_result-Succeeds : Succeeds (set_result ok)
unfolding set_result
set_result-Succeeds = record { at = λ s e. (refl, refl) }

return_result-Succeeds : Succeeds return_result
unfolding return_result
return_result-Succeeds = record { at = λ s e. (e, e) }

must-Succeeds : (host : Host) (c : Call) → AnswersOk host → Succeeds (must host c)
unfolding must
must-Succeeds host c all = record { at = λ s e. (all s.log c, all s.log c) }

tolerate-Succeeds :
    (host : Host) (test : EspErr → Bool) (c : Call)
    → AnswersOk host
    → Succeeds (tolerate host test c)
unfolding tolerate
tolerate-Succeeds host test c all = record { at = λ s e. (rw (all s.log c) refl, all s.log c) }

ruleset success_rules = (
  sequence-nil, sequence-cons, when-Succeeds, if_owned-Succeeds, if_cancelable-Succeeds,
  set_owned-Succeeds, set_aux-Succeeds, set_sleeps-Succeeds, set_result-Succeeds,
  return_result-Succeeds, must-Succeeds, tolerate-Succeeds,
)

-- Whatever the local `result` was before, the action succeeds.
pub record Sure (m : Action) : Type 0 where
  pub at : (s : Runtime) → (m s).0 ≡ ok

begin-Sure : (ms : List Action) → Succeeds (sequence ms) → Sure (sequence (set_result ok ∷ ms))
unfolding sequence set_result
begin-Sure ms h = record { at = λ s. (h.at (record s { result = ok }) refl).0 }

sequence-Sure_nil : Sure (sequence [])
unfolding sequence
sequence-Sure_nil = record { at = λ s. refl }

sequence-Sure :
    (m : Action) (ms : List Action) → Sure m → Sure (sequence ms) → Sure (sequence (m ∷ ms))
unfolding sequence
sequence-Sure m ms h k = record { at = λ s. rw (ap is_ok (h.at s), if◌then◌else◌) (k.at (m s).1) }

must-Sure : (host : Host) (c : Call) → AnswersOk host → Sure (must host c)
unfolding must
must-Sure host c all = record { at = λ s. all s.log c }

set_owned-Sure : (f : Flag) (b : Bool) → Sure (set_owned f b)
unfolding set_owned
set_owned-Sure f b = record { at = λ s. refl }

if_owned-Sure : (f : Flag) (m : Action) → Sure m → Sure (if_owned f m)
unfolding if_owned
if_owned-Sure f m h = record { at = λ s. if_either (s.owned f) (m s) (ok, s) (h.at s) refl }

when-Sure : (b : Bool) (m : Action) → Sure m → Sure (when b m)
unfolding when
when-Sure b m h = record { at = λ s. if_either b (m s) (ok, s) (h.at s) refl }

module _ (product : Product) (host : Host) (all : AnswersOk host) where
  app_services-Sure : Sure (stop_app_services product host)
  unfolding stop_app_services
  app_services-Sure = begin-Sure _ (search success_rules depth 60 fits 9000)

  active_services-Sure : Sure (stop_active_services product host)
  unfolding stop_active_services
  active_services-Sure = begin-Sure _ (search success_rules depth 60 fits 9000)

  platform_services-Sure : Sure (stop_platform_services product host)
  unfolding stop_platform_services
  platform_services-Sure = begin-Sure _ (search success_rules depth 60 fits 9000)

  stop_services-Sure : Sure (stop_services product host)
  unfolding stop_services
  stop_services-Sure =
      search
        (
          sequence-Sure_nil, sequence-Sure, must-Sure, set_owned-Sure, if_owned-Sure, when-Sure,
          app_services-Sure, active_services-Sure, platform_services-Sure,
        )
        depth 60 fits 9000

  attempt-Sure : (f : Flag) (c : Call) (s : Runtime) → (attempt host f c (ok, s)).0 ≡ ok
  unfolding attempt record_first_error
  attempt-Sure f c s = if_either (s.owned f) _ (ok, s) (rw (all s.log c) refl) refl

  after :
      (f : Flag) (c : Call) (acc : EspErr × Runtime) → acc.0 ≡ ok → (attempt host f c acc).0 ≡ ok
  after f c (first, s) e = rw e (attempt-Sure f c s)

  stop_display-Sure : (s : Runtime) → (stop_display host s).0 ≡ ok
  unfolding stop_display release_display_and_board record_first_error
  stop_display-Sure s =
      if_either (s.owned display_lease && s.owned bsp) (release_display_and_board host s) _
        (rw (all s.log release_and_deinit) refl)
        (after bsp bsp_deinit _ (attempt-Sure display_lease display_release s))

  stop_nv-Sure : (acc : EspErr × Runtime) → acc.0 ≡ ok → (stop_nv host acc).0 ≡ ok
  unfolding stop_nv
  stop_nv-Sure (first, s) e =
      if_either _ (attempt host nv nv_deinit (first, s)) (first, s)
        (after nv nv_deinit (first, s) e) e

  stop_foundations-Sure : (s : Runtime) → (stop_foundations host s).0 ≡ ok
  unfolding stop_foundations stop_storage
  stop_foundations-Sure s = stop_nv-Sure _ (
      after factory_reset reset_service_deinit _
        (after onboarding onboarding_deinit _ (after fs fs_deinit _ (stop_display-Sure s))))

  -- With no call failing, the unwinding ends in the state `stopped`.
  pub unwind_progress : (l : Lifecycle) → (unwind product host l).1.state ≡ stopped
  unwind_progress l =
      unwind-cases product host l (λ x. x.1.state ≡ stopped)
        (λ n. absurd (false≢true (sym n ∙ ap is_ok (stop_services-Sure.at l.runtime))))
        (λ _ _. refl)
        (λ y o. absurd (
          false≢true (
            sym (
              ended_clear product host l.runtime y
                (stop_foundations-Sure (served product host l.runtime).1))
            ∙ o)))
