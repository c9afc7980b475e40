-- ===== src/Pm/Wake.antt =====
-- main/app_runtime_pm.c: the wake sources of `app_runtime_pm_build_system_config`.
use mathlib.Core.List.{append-nil}
use micro_tech.Prelude.{
  ℕ, zero, suc, ◌+◌, ◌/◌, ◌%◌, ◌^◌, ◌≤◌, ◌≡◌, ◌≢◌, ◌↔◌, refl, inl, inr, ap, ap₂, sym, ◌∙◌, Bool,
  true, false, not, Option, none, some, List, [], ◌∷◌, ◌++◌, arith, leb, ◌==◌, if◌then◌else◌,
  Bool-cases, length, length-append, EspErr, ok, invalid_arg, invalid_state, invalid_size,
  not_supported, is_ok,
}

pub data Level : Type 0 where
  low high : Level

pub record WakeSource : Type 0 where
  pub gpio_num : ℕ
  pub active_level : Level

-- `bsp_wakeup_descriptor_t`: two 64-bit masks.
pub record Descriptor : Type 0 where
  pub gpio_mask : ℕ
  pub active_low_mask : ℕ

-- `(mask & (UINT64_C(1) << gpio)) != 0`
unfoldable pub bit : ℕ → ℕ → Bool
bit mask gpio = mask / 2 ^ gpio % 2 == 1

abbrev pub source : Descriptor → ℕ → WakeSource
source d gpio = record {
  gpio_num = gpio;
  active_level = if bit d.active_low_mask gpio then low else high;
}

-- The loop over the GPIO numbers, `left` of them from `gpio` on, with the sources so far; `none`
-- is its exit with ESP_ERR_INVALID_SIZE. `max` is SYSTEM_PM_MAX_WAKE_SOURCES.
unfoldable pub wake_loop : ℕ → Descriptor → ℕ → ℕ → List WakeSource → Option (List WakeSource)
wake_loop max d zero gpio sources = some sources
wake_loop max d (suc left) gpio sources =
    let skipped = wake_loop max d left (gpio + 1) sources in
    let added = wake_loop max d left (gpio + 1) (sources ++ source d gpio ∷ []) in
    if not (bit d.gpio_mask gpio) then skipped else (if length sources == max then none else added)

-- What the board gives: `bsp_hal_get_input` is not NULL, and the answer of
-- `bsp_get_wakeup_descriptor` with the descriptor that it writes.
pub record WakeBoard : Type 0 where
  pub has_input : Bool
  pub descriptor_result : EspErr
  pub descriptor : Descriptor

-- The result, with the sources of the configuration where they are complete. The callbacks, which
-- are the same each time, are not part of it.
pub record Built : Type 0 where
  pub result : EspErr
  pub sources : List WakeSource
  pub available : Bool  -- s_system_pm_available

abbrev refused : EspErr → Built
refused e = record { result = e; sources = []; available = false }

-- The end of the function, after the loop.
finish : Bool → Option (List WakeSource) → Built
finish supported none = refused invalid_size
finish supported (some []) = refused (if supported then invalid_state else not_supported)
finish supported (some (x ∷ xs)) = record { result = ok; sources = x ∷ xs; available = true }

unfoldable pub build_system_config : ℕ → Bool → Bool → WakeBoard → Built
unfolding finish
build_system_config max has_config supported b =
    if not has_config
    then refused invalid_arg
    else (if not b.has_input
        then refused invalid_state
        else (if is_ok b.descriptor_result
            then finish supported (wake_loop max b.descriptor 64 0 [])
            else refused b.descriptor_result))

-- The bit of a mask with the weight 2 ^ gpio.
abbrev pub is_set : ℕ → ℕ → Bool
is_set mask gpio = not (mask / 2 ^ gpio % 2 == 0)

-- The sources that a descriptor asks for, in ascending order: one for each bit that is set, low where
-- the bit of the second mask is set too, and high elsewhere.
unfoldable pub wanted : Descriptor → ℕ → ℕ → List WakeSource
wanted d zero gpio = []
wanted d (suc left) gpio =
    let rest = wanted d left (gpio + 1) in
    if is_set d.gpio_mask gpio
    then record {
      gpio_num = gpio;
      active_level = if is_set d.active_low_mask gpio then low else high;
    }
      ∷ rest
    else rest

bit-is_set : (mask gpio : ℕ) → bit mask gpio ≡ is_set mask gpio
unfolding bit
bit-is_set mask gpio = ground arith

-- The same in the words of the loop.
wanted-suc :
    (d : Descriptor) (left gpio : ℕ)
    → wanted d (suc left) gpio ≡ (
        if bit d.gpio_mask gpio
        then source d gpio ∷ wanted d left (gpio + 1)
        else wanted d left (gpio + 1))
unfolding wanted
wanted-suc d left gpio =
    ap₂
      (λ (b c : Bool).
        if b
        then record { gpio_num = gpio; active_level = if c then low else high }
          ∷ wanted d left (gpio + 1)
        else wanted d left (gpio + 1))
      (sym (bit-is_set d.gpio_mask gpio)) (sym (bit-is_set d.active_low_mask gpio))

append_one {ℓ} :
    {A : Type ℓ} (xs : List A) (a : A) (ys : List A) → (xs ++ a ∷ []) ++ ys ≡ xs ++ a ∷ ys
append_one [] a ys = refl
append_one (x ∷ xs) a ys = rw (append_one xs a ys)

wake_loop-wanted :
    (max : ℕ) (d : Descriptor) (left gpio : ℕ) (sources : List WakeSource)
    → length sources ≤ max
    → wake_loop max d left gpio sources ≡ (
        if leb (length sources + length (wanted d left gpio)) max
        then some (sources ++ wanted d left gpio)
        else none)
unfolding wake_loop
wake_loop-wanted max d zero gpio sources h = unfold wanted in ground (arith, append-nil sources)
wake_loop-wanted max d (suc left) gpio sources h = elim (Bool-cases (bit d.gpio_mask gpio)) [
  | inl y ↦
      rw (wanted-suc d left gpio, y)
        (ground (
          arith,
          wake_loop-wanted max d left (gpio + 1) (sources ++ source d gpio ∷ []),
          append_one sources (source d gpio) (wanted d left (gpio + 1)),
          length-append sources (source d gpio ∷ []),
        ))
  | inr n ↦ rw (wanted-suc d left gpio, n) (wake_loop-wanted max d left (gpio + 1) sources h)
]

-- The board's wake sources, as the loop goes over all 64 numbers.
unfoldable pub all_wanted : WakeBoard → List WakeSource
all_wanted b = wanted b.descriptor 64 0

-- The end of the function on the loop's result, for any list of sources.
finish_result :
    (max : ℕ) (supported : Bool) (w : List WakeSource)
    → let built = finish supported (if leb (length w) max then some w else none) in
      ((built.result ≡ ok) ↔ ((w ≢ []) × (length w ≤ max)))
      × (built.available ≡ is_ok built.result)
      × (built.sources ≡ (if is_ok built.result then w else []))
unfolding finish
finish_result max supported [] = ground arith
finish_result max supported (x ∷ xs) = ground arith

loop_result :
    (max : ℕ) (supported : Bool) (b : WakeBoard)
    → finish supported (wake_loop max b.descriptor 64 0 [])
      ≡ finish supported (if leb (length (all_wanted b)) max then some (all_wanted b) else none)
unfolding all_wanted
loop_result max supported b =
    ap (finish supported) (
      wake_loop-wanted max b.descriptor 64 0 [] (omega arith)
      ∙ plain max (wanted b.descriptor 64 0))
  where
    plain :
        (m : ℕ) (w : List WakeSource)
        → (if leb (0 + length w) m then some w else none)
          ≡ (if leb (length w) m then some w else none)
    plain m w = ground arith

-- The configuration succeeds exactly when the caller gave a buffer, the board has input and a
-- descriptor, and the descriptor asks for at least one source and at most `max`. It then holds
-- exactly those sources, in ascending order, active low where the descriptor says so; and system PM counts as available exactly when the
-- configuration succeeds.
pub build_system_config_result :
    (max : ℕ) (has_config supported : Bool) (b : WakeBoard)
    → let built = build_system_config max has_config supported b in
      ((built.result ≡ ok) ↔ (
        (has_config ≡ true)
        × (b.has_input ≡ true)
        × (b.descriptor_result ≡ ok)
        × (all_wanted b ≢ [])
        × (length (all_wanted b) ≤ max)))
      × (built.available ≡ is_ok built.result)
      × (built.sources ≡ (if is_ok built.result then all_wanted b else []))
unfolding build_system_config
build_system_config_result max has_config supported b =
    ground (arith, finish_result max supported (all_wanted b), loop_result max supported b)
