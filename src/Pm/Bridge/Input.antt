-- ===== src/Pm/Bridge/Input.antt =====
-- main/app_runtime_pm.c: registration of the app manager's input callback, and delivery to it.
use micro_tech.Prelude.{
  ℕ, ◌≡◌, ◌⊎◌, Option, none, some, arith, ok, false, List, [], ◌∷◌, is_ok, if◌then◌else◌,
}
use micro_tech.Pm.Bridge.{
  AppKey, AppKeyEvent, BspKey, BspKeyEvent, Bridge, bsp_input_callback, input_register,
  input_unregister, detach_bsp, reset,
}

-- The registration in force: the callback and its context.
abbrev pub registration : Bridge → Option (ℕ × ℕ)
registration b = elim b.app_input_callback [ none ↦ none | some f ↦ some (f, b.app_input_context) ]

-- Registering succeeds only where nothing was registered; it then has registered exactly its
-- arguments, and otherwise leaves the registration that was in force.
pub input_register_result :
    (callback : Option ℕ) (user_data : ℕ) (b : Bridge)
    → let (result, b') = input_register callback user_data b in
      (registration b' ≡ (
        if is_ok result
        then elim callback [ none ↦ none | some f ↦ some (f, user_data) ]
        else registration b))
      × ((is_ok result ≡ false) ⊎ (registration b ≡ none))
unfolding input_register
input_register_result callback user_data b = ground arith

-- The two keys of the board that the app manager knows, and the four events.
abbrev pub keys : List (BspKey × AppKey)
keys = (BspKey.home, AppKey.home) ∷ (BspKey.power, AppKey.power) ∷ []

abbrev pub events : List (BspKeyEvent × AppKeyEvent)
events =
    (BspKeyEvent.down, AppKeyEvent.down)
    ∷ (BspKeyEvent.up, AppKeyEvent.up)
    ∷ (BspKeyEvent.click, AppKeyEvent.click)
    ∷ (BspKeyEvent.long_press, AppKeyEvent.long_press)
    ∷ []

abbrev pub AllPairs {ℓ} : {A : Type ℓ} → (A → Type 0) → List A → Type 0
AllPairs P [] = Unit
AllPairs P (x ∷ xs) = P x × AllPairs P xs

-- After a successful registration, each event of the board's home and power keys (down, up, click and
-- long press) is one call of the registered callback, with the key and the event of the same name and
-- with the context that was registered; another key or another event is none. After a successful
-- unregistration, after the board is detached and after a reset no key event goes anywhere.
pub input_lifecycle :
    (f user_data : ℕ) (b c : Bridge)
    → (input_register (some f) user_data b).0 ≡ ok
    → (input_unregister c).0 ≡ ok
    → AllPairs
        (λ k.
          AllPairs
            (λ e.
              bsp_input_callback k.0 e.0 (input_register (some f) user_data b).1
              ≡ some (record { callback = f; key = k.1; event = e.1; context = user_data }))
            events)
        keys
      × ((n : ℕ) (e : BspKeyEvent)
          → bsp_input_callback (BspKey.unmapped n) e (input_register (some f) user_data b).1 ≡ none)
      × ((n : ℕ) (k : BspKey)
          → bsp_input_callback k (BspKeyEvent.unmapped n) (input_register (some f) user_data b).1
            ≡ none)
      × ((k : BspKey) (e : BspKeyEvent)
          → (bsp_input_callback k e (input_unregister c).1 ≡ none)
            × (bsp_input_callback k e (detach_bsp c) ≡ none)
            × (bsp_input_callback k e (reset c) ≡ none))
unfolding input_register input_unregister bsp_input_callback detach_bsp reset
input_lifecycle f user_data b c h g = ground arith
