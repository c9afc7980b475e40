-- ===== src/Sim/Freertos/Wait.antt =====
-- sim/ports/sim_freertos.c: the loop `while (!ready) { if (timeout == 0 || _wait(...) == ETIMEDOUT) ... }`
-- that every blocking call has.
use micro_tech.Prelude.{
  arith, not, Option, none, some, ℕ, ◌^◌, ◌-◌, ◌≡◌, Bool, true, false, List, [], ◌∷◌, ◌==◌,
  if◌then◌else◌, Bool-cases, inl, inr,
}

-- portMAX_DELAY
abbrev pub port_max_delay : ℕ
port_max_delay = 2 ^ 32 - 1

-- How `_wait` returns, with the state that the other tasks have left: for a signal or for no reason,
-- or with ETIMEDOUT.
pub data Wake {ℓ} (S : Type ℓ) : Type ℓ where
  woken : S → Wake S
  expired : S → Wake S

-- How the loop ends: with the test met, by the time-out, or not yet.
pub data Waited {ℓ} (S : Type ℓ) : Type ℓ where
  ready : S → Waited S
  timed_out : S → Waited S
  waiting : S → Waited S

-- What a call has come to: it has returned, or it still waits; with the state that it leaves.
pub data Outcome {ℓ} (S : Type ℓ) (R : Type 0) : Type ℓ where
  returned : R → S → Outcome S R
  blocked : S → Outcome S R

module _ {ℓ} {S : Type ℓ} (is_ready : S → Bool) (timeout : ℕ) where
  -- `_wait` does not time out for portMAX_DELAY.
  unfoldable pub wait_loop : S → List (Wake S) → Waited S
  wait_loop s [] = if is_ready s then ready s else if timeout == 0 then timed_out s else waiting s
  wait_loop s (woken t ∷ wakes) =
      let rest = wait_loop t wakes in
      if is_ready s then ready s else if timeout == 0 then timed_out s else rest
  wait_loop s (expired t ∷ wakes) =
      let rest = wait_loop t wakes in
      if is_ready s
      then ready s
      else if timeout == 0
      then timed_out s
      else if timeout == port_max_delay
      then rest
      else timed_out t

abbrev pub AllWakes {ℓ κ} : {S : Type ℓ} → (S → Type κ) → List (Wake S) → Type κ
AllWakes P [] = Unit
AllWakes P (woken s ∷ wakes) = P s × AllWakes P wakes
AllWakes P (expired s ∷ wakes) = P s × AllWakes P wakes

-- Of the state in which the loop ends.
abbrev pub Ends {ℓ κ} : {S : Type ℓ} → (S → Bool) → (S → Type κ) → Waited S → Type κ
Ends is_ready P (ready s) = (is_ready s ≡ true) × P s
Ends is_ready P (timed_out s) = P s
Ends is_ready P (waiting s) = (is_ready s ≡ false) × P s

module _ {ℓ κ} {S : Type ℓ} (is_ready : S → Bool) (P : S → Type κ) (timeout : ℕ) where
  if-Ends :
      (s : S) (rest : Waited S)
      → P s
      → (is_ready s ≡ false → Ends is_ready P rest)
      → Ends is_ready P (if is_ready s then ready s else if timeout == 0 then timed_out s else rest)
  if-Ends s rest p r = elim (Bool-cases (is_ready s)) [
    | inl y ↦ rw (y, if◌then◌else◌) (y, p)
    | inr n ↦
        rw (n, if◌then◌else◌)
          (elim (Bool-cases (timeout == 0)) [
            | inl z ↦ rw (z, if◌then◌else◌) p
            | inr z ↦ rw (z, if◌then◌else◌) (r n)
          ])
  ]

  -- What every state has that the other tasks leave, the state at the end has.
  pub wait_loop-Ends :
      (s : S) (wakes : List (Wake S))
      → P s
      → AllWakes P wakes
      → Ends is_ready P (wait_loop is_ready timeout s wakes)
  unfolding wait_loop
  wait_loop-Ends s [] p all = if-Ends s (waiting s) p (λ n. (n, p))
  wait_loop-Ends s (woken t ∷ wakes) p (q, all) =
      if-Ends s (wait_loop is_ready timeout t wakes) p (λ n. wait_loop-Ends t wakes q all)
  wait_loop-Ends s (expired t ∷ wakes) p (q, all) = if-Ends s _ p (λ n.
      elim (Bool-cases (timeout == port_max_delay)) [
        | inl z ↦ rw (z, if◌then◌else◌) (wait_loop-Ends t wakes q all)
        | inr z ↦ rw (z, if◌then◌else◌) q
      ])

-- How a call comes to a look at the state: it has just been made, or a wait ends, before which the
-- call saw another state.
pub data Look {ℓ} (S : Type ℓ) : Type ℓ where
  made : Look S
  after_wake : S → Look S
  after_expiry : S → Look S

abbrev pub start_of {ℓ} : {S : Type ℓ} → Look S → S → S
start_of made s = s
start_of (after_wake before) s = before
start_of (after_expiry before) s = before

abbrev pub wakes_of {ℓ} : {S : Type ℓ} → Look S → S → List (Wake S)
wakes_of made s = []
wakes_of (after_wake before) s = woken s ∷ []
wakes_of (after_expiry before) s = expired s ∷ []

-- The wait ends by its time-out.
abbrev pub gives_up {ℓ} : {S : Type ℓ} → ℕ → Look S → Bool
gives_up timeout made = false
gives_up timeout (after_wake before) = false
gives_up timeout (after_expiry before) = not (timeout == port_max_delay)

-- How a look ends: with success or not, or in another wait (`none`).
abbrev pub look_result : Bool → Bool → ℕ → Option Bool
look_result up test timeout =
    if up then some false else if test then some true else if timeout == 0 then some false else none

abbrev pub waited {ℓ} : {S : Type ℓ} → Option Bool → S → Waited S
waited none s = waiting s
waited (some true) s = ready s
waited (some false) s = timed_out s

module _ {ℓ} {S : Type ℓ} (is_ready : S → Bool) (timeout : ℕ) where
  -- A call that waits has a time-out, and has found that it must wait.
  abbrev pub MustWait : Look S → Type 0
  MustWait made = Unit
  MustWait (after_wake before) = (is_ready before ≡ false) × ((timeout == 0) ≡ false)
  MustWait (after_expiry before) = (is_ready before ≡ false) × ((timeout == 0) ≡ false)

  pub wait_loop-look :
      (look : Look S) (s : S)
      → MustWait look
      → wait_loop is_ready timeout (start_of look s) (wakes_of look s)
        ≡ waited (look_result (gives_up timeout look) (is_ready s) timeout) s
  unfolding wait_loop
  wait_loop-look made s w = ground arith
  wait_loop-look (after_wake before) s w = ground (arith, w)
  wait_loop-look (after_expiry before) s w = ground (arith, w)
