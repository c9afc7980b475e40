-- ===== src/Prelude/Esp.antt =====
-- `esp_err_t`, as the program uses it: the codes that they name, and any other one.
use Prim.Native.Nat.{ℕ}
use mathlib.Core.Path.{◌≡◌}
use mathlib.Core.Bool.{Bool, true, false}
use native.Mathlib.Omega.{arith}

pub data EspErr : Type 0 where
  ok fail no_mem invalid_arg invalid_state invalid_size invalid_crc not_found not_supported
        timeout :
      EspErr
  other : ℕ → EspErr

-- `result == ESP_OK`, `result == ESP_ERR_TIMEOUT`, ...
abbrev pub is_ok : EspErr → Bool
is_ok ok = true
is_ok _ = false

abbrev pub is_timeout : EspErr → Bool
is_timeout timeout = true
is_timeout _ = false

abbrev pub is_not_found : EspErr → Bool
is_not_found not_found = true
is_not_found _ = false

abbrev pub is_invalid_state : EspErr → Bool
is_invalid_state invalid_state = true
is_invalid_state _ = false

abbrev pub is_fail : EspErr → Bool
is_fail fail = true
is_fail _ = false

abbrev pub is_not_supported : EspErr → Bool
is_not_supported not_supported = true
is_not_supported _ = false

pub is_ok→eq : (e : EspErr) → is_ok e ≡ true → e ≡ ok
is_ok→eq e h = ground arith
