-- ===== src/Runtime/Action.antt =====
-- main/app_runtime.c: its functions as actions, which return an `esp_err_t` and the new state, and
-- the forms from which they are built.
use micro_tech.Prelude.{
  ℕ, Bool, true, false, ◌||◌, List, [], ◌∷◌, ◌==◌, if◌then◌else◌, EspErr, ok, is_ok,
}
use micro_tech.Pm.Context.{Participant}
use micro_tech.Pm.Context.{same as same_participant}
use micro_tech.Runtime.State.{
  Flag, Aux, system_pm_cancelable, rtc_ops, imu_ops, sd_ops, Call, Query, Host, Runtime, same,
}

abbrev pub Action : Type 0
Action = Runtime → EspErr × Runtime

-- `return ESP_OK` and `return e`.
abbrev pub succeed : Action
succeed s = (ok, s)

abbrev pub return_error : EspErr → Action
return_error e s = (e, s)

-- `result = e;`, and the final `return result;`, which also returns an error that an earlier call
-- was allowed to have, unless a later call has overwritten it.
unfoldable pub set_result : EspErr → Action
set_result e s = (ok, record s { result = e })

unfoldable pub return_result : Action
return_result s = (s.result, s)

-- Statements in a row, left at the first result that is not `ok`.
unfoldable pub sequence : List Action → Action
sequence [] s = (ok, s)
sequence (m ∷ ms) s =
    let (r, s') = m s in let rest = sequence ms s' in if is_ok r then rest else (r, s')

-- `if (test) { m }`
unfoldable pub when : Bool → Action → Action
when test m s = if test then m s else (ok, s)

-- `if (test) { a } else { b }`
unfoldable pub choose : Bool → Action → Action → Action
choose test a b s = if test then a s else b s

unfoldable pub if_owned : Flag → Action → Action
if_owned f m s = if s.owned f then m s else (ok, s)

unfoldable pub set_owned : Flag → Bool → Action
set_owned f b s = (ok, record s { owned = λ g. if same f g then b else s.owned g })

abbrev pub aux_rank : Aux → ℕ
aux_rank system_pm_cancelable = 0
aux_rank rtc_ops = 1
aux_rank imu_ops = 2
aux_rank sd_ops = 3

unfoldable pub set_aux : Aux → Bool → Action
set_aux a b s = (ok, record s { aux = λ x. if aux_rank a == aux_rank x then b else s.aux x })

-- `app_runtime_pm_set_<p>_participant`
unfoldable pub set_sleeps : Participant → Bool → Action
set_sleeps p b s = (ok, record s { sleeps = λ q. if same_participant p q then b else s.sleeps q })

unfoldable pub set_reset_pending : Bool → Action
set_reset_pending b s = (ok, record s { factory_reset_pending = b })

-- `if (s_factory_reset_pending) { m }`
unfoldable pub if_reset_pending : Action → Action
if_reset_pending m s = if s.factory_reset_pending then m s else (ok, s)

module _ (host : Host) where
  -- A call, with its answer for the result.
  unfoldable pub must : Call → Action
  must c s = let r = host.reply s.log c in (r, record s { log = (c, r) ∷ s.log; result = r })

  -- A call after which the function goes on at some errors too; the error stays in `result`.
  unfoldable pub tolerate : (EspErr → Bool) → Call → Action
  tolerate test c s =
      let r = host.reply s.log c in
      (if is_ok r || test r then ok else r, record s { log = (c, r) ∷ s.log; result = r })

  -- A call whose failure goes on with an action of its own.
  unfoldable pub try_call : Call → Action → (EspErr → Action) → Action
  try_call c on_ok on_error s =
      let r = host.reply s.log c in
      let s' : Runtime = record s { log = (c, r) ∷ s.log; result = r } in
      if is_ok r then on_ok s' else on_error r s'

  -- `if (query) { a } else { b }`
  unfoldable pub ask : Query → Action → Action → Action
  ask q a b s = if host.answer s.log q then a s else b s

  -- A check that returns an error when it fails.
  unfoldable pub check : Query → EspErr → Action
  check q e s = if host.answer s.log q then (ok, s) else (e, s)

  -- The ownership flag is set first, so that a failed start is cleaned up too.
  abbrev pub claim : Flag → Call → Action
  claim f c = sequence (set_owned f true ∷ must c ∷ [])

  -- The ownership flag is set once the call has succeeded.
  abbrev pub acquire : Flag → Call → Action
  acquire f c = sequence (must c ∷ set_owned f true ∷ [])

  -- `if (owned) { call; owned = false; }`, left at an error.
  abbrev pub release : Flag → Call → Action
  release f c = if_owned f (sequence (must c ∷ set_owned f false ∷ []))
