-- ===== src/Runtime/Stop/Display.antt =====
-- main/app_runtime.c: the display and the board in `_app_runtime_stop_foundations`.
use mathlib.Core.Bool.{false≢true}
use micro_tech.Prelude.{
  ◌≡◌, refl, sym, ◌∙◌, true, false, not, ◌&&◌, inl, inr, [], ◌∷◌, arith, if◌then◌else◌, Bool-cases,
  Log, EspErr, ok, is_ok, is_ok→eq, is_invalid_state,
}
use micro_tech.Pm.Sleep.{record_first_error}
use micro_tech.Runtime.State.{
  Flag, bsp, display_lease, Call, release_and_deinit, display_release, bsp_deinit, Host, Runtime,
  same, held, Accounted,
}
use micro_tech.Runtime.Action.{set_owned}
use micro_tech.Runtime.Rules.{set_owned-false-Accounted, set_owned-Shrinks}
use micro_tech.Runtime.Rules.Calls.{held-plain}
use micro_tech.Runtime.Stop.Attempt.{
  Blames, first_error-ok, first_error-fails, attempt-Accounted, attempt-Shrinks, attempt-ok,
  attempt-Blames,
}
use micro_tech.Runtime.Stop.{any_owned, attempt, release_display_and_board, stop_display}

-- The state after the call that releases the display and the board.
abbrev both_called : Host → Runtime → Runtime
both_called host s = record s {
  log = (release_and_deinit, host.reply s.log release_and_deinit) ∷ s.log;
}

not_invalid : (r : EspErr) → is_ok r ≡ true → is_invalid_state r ≡ false
not_invalid r h = rw (is_ok→eq r h) refl

lease_gone :
    (r : EspErr) (log : Log Call EspErr)
    → is_invalid_state r ≡ false
    → held display_lease ((release_and_deinit, r) ∷ log) ≡ false
unfolding held same
lease_gone r log n = rw n (ground arith)

board_gone :
    (r : EspErr) (log : Log Call EspErr)
    → is_ok r ≡ true
    → held bsp ((release_and_deinit, r) ∷ log) ≡ false
unfolding held same
board_gone r log y = rw (is_ok→eq r y) refl

module _ (host : Host) where
  -- The display and the board: in one call where both are owned.
  stop_display-cases {ℓ} :
      (s : Runtime) (P : EspErr × Runtime → Type ℓ)
      → P (attempt host bsp bsp_deinit (attempt host display_lease display_release (ok, s)))
      → (s.owned bsp ≡ true → P (release_display_and_board host s))
      → P (stop_display host s)
  unfolding stop_display
  stop_display-cases s P apart together = elim (Bool-cases (s.owned display_lease && s.owned bsp)) [
    | inl y ↦ rw (y, if◌then◌else◌) (together (ground arith))
    | inr n ↦ rw (n, if◌then◌else◌) apart
  ]

  -- The three ways through the release of the display and the board in one call.
  together-cases {ℓ} :
      (s : Runtime) (P : EspErr × Runtime → Type ℓ)
      → (is_ok (host.reply s.log release_and_deinit) ≡ true
          → P (
            record_first_error ok (host.reply s.log release_and_deinit),
            (set_owned bsp false (set_owned display_lease false (both_called host s)).1).1,
          ))
      → (is_ok (host.reply s.log release_and_deinit) ≡ false
          → is_invalid_state (host.reply s.log release_and_deinit) ≡ false
          → P (
            record_first_error ok (host.reply s.log release_and_deinit),
            (set_owned display_lease false (both_called host s)).1,
          ))
      → (is_ok (host.reply s.log release_and_deinit) ≡ false
          → P (record_first_error ok (host.reply s.log release_and_deinit), both_called host s))
      → P (release_display_and_board host s)
  unfolding release_display_and_board
  together-cases s P good lost refused =
      elim (Bool-cases (is_ok (host.reply s.log release_and_deinit))) [
        | inl y ↦
            rw (y, not_invalid (host.reply s.log release_and_deinit) y, not, if◌then◌else◌) (good y)
        | inr n ↦ elim (Bool-cases (is_invalid_state (host.reply s.log release_and_deinit))) [
          | inl i ↦ rw (n, i, not, if◌then◌else◌) (refused n)
          | inr i ↦ rw (n, i, not, if◌then◌else◌) (lost n i)
        ]
      ]

  both_called-Accounted : (s : Runtime) → Accounted s → Accounted (both_called host s)
  both_called-Accounted s a g e =
      a g (held-plain release_and_deinit (host.reply s.log release_and_deinit) g s.log refl e)

  together-Accounted : (s : Runtime) → Accounted s → Accounted (release_display_and_board host s).1
  unfolding set_owned
  together-Accounted s a =
      together-cases s (λ x. Accounted x.1)
        (λ y.
          set_owned-false-Accounted bsp (set_owned display_lease false (both_called host s)).1
            (set_owned-false-Accounted display_lease (both_called host s)
              (both_called-Accounted s a)
              (lease_gone (host.reply s.log release_and_deinit) s.log
                (not_invalid (host.reply s.log release_and_deinit) y)))
            (board_gone (host.reply s.log release_and_deinit) s.log y))
        (λ _ i.
          set_owned-false-Accounted display_lease (both_called host s) (both_called-Accounted s a)
            (lease_gone (host.reply s.log release_and_deinit) s.log i))
        (λ _. both_called-Accounted s a)

  together-Shrinks :
      (g : Flag) (s : Runtime)
      → s.owned g ≡ false
      → (release_display_and_board host s).1.owned g ≡ false
  together-Shrinks g s e =
      together-cases s (λ x. x.1.owned g ≡ false)
        (λ _.
          set_owned-Shrinks bsp (set_owned display_lease false (both_called host s)).1 g
            (set_owned-Shrinks display_lease (both_called host s) g e))
        (λ _ _. set_owned-Shrinks display_lease (both_called host s) g e) (λ _. e)

  together-ok :
      (s : Runtime)
      → (release_display_and_board host s).0 ≡ ok
      → ((release_display_and_board host s).1.owned bsp ≡ false)
        × ((release_display_and_board host s).1.owned display_lease ≡ false)
  unfolding set_owned same
  together-ok s =
      together-cases s (λ x. x.0 ≡ ok → (x.1.owned bsp ≡ false) × (x.1.owned display_lease ≡ false))
        (λ _ _. (refl, refl)) (λ n _ e. absurd (false≢true (sym n ∙ (first_error-ok ok _ e).1)))
        (λ n e. absurd (false≢true (sym n ∙ (first_error-ok ok _ e).1)))

  together-Blames :
      (s : Runtime)
      → s.owned bsp ≡ true
      → Blames (bsp ∷ display_lease ∷ []) (release_display_and_board host s)
  unfolding set_owned same any_owned
  together-Blames s b =
      together-cases s (Blames (bsp ∷ display_lease ∷ []))
        (λ y e. absurd (false≢true (sym (first_error-fails ok _ e y)))) (λ _ _ _. rw b refl)
        (λ _ _. rw b refl)

  pub stop_display-Accounted : (s : Runtime) → Accounted s → Accounted (stop_display host s).1
  unfolding same
  stop_display-Accounted s a =
      stop_display-cases s (λ x. Accounted x.1)
        (attempt-Accounted host bsp bsp_deinit (λ _. refl) (λ r h. ground arith) _
          (attempt-Accounted host display_lease display_release (λ _. refl) (λ r h. ground arith)
            (ok, s) a))
        (λ _. together-Accounted s a)

  pub stop_display-Shrinks :
      (g : Flag) (s : Runtime) → s.owned g ≡ false → (stop_display host s).1.owned g ≡ false
  stop_display-Shrinks g s e =
      stop_display-cases s (λ x. x.1.owned g ≡ false)
        (attempt-Shrinks host bsp g bsp_deinit _
          (attempt-Shrinks host display_lease g display_release (ok, s) e))
        (λ _. together-Shrinks g s e)

  pub stop_display-ok :
      (s : Runtime)
      → (stop_display host s).0 ≡ ok
      → ((stop_display host s).1.owned bsp ≡ false)
        × ((stop_display host s).1.owned display_lease ≡ false)
  stop_display-ok s =
      stop_display-cases s
        (λ x. x.0 ≡ ok → (x.1.owned bsp ≡ false) × (x.1.owned display_lease ≡ false))
        (λ e.
          let (e₁, board) = attempt-ok host bsp bsp_deinit _ e in
          (
            board,
            attempt-Shrinks host bsp display_lease bsp_deinit _
                (attempt-ok host display_lease display_release (ok, s) e₁).1,
          ))
        (λ _. together-ok s)

  pub stop_display-Blames : (s : Runtime) → Blames (bsp ∷ display_lease ∷ []) (stop_display host s)
  unfolding any_owned same
  stop_display-Blames s =
      stop_display-cases s (Blames (bsp ∷ display_lease ∷ []))
        (attempt-Blames host bsp bsp_deinit (display_lease ∷ []) _ refl (
          attempt-Blames host display_lease display_release [] (ok, s) refl
            (λ e. absurd (false≢true (sym e)))))
        (together-Blames s)
