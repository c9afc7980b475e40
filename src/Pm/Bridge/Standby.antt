-- ===== src/Pm/Bridge/Standby.antt =====
-- main/app_runtime_pm.c: when standby is allowed, requested and committed.
use micro_tech.Prelude.{
  ℕ, ◌^◌, ◌<◌, ◌≡◌, ◌↔◌, ◌⊎◌, Bool, true, false, arith, EspErr, ok, invalid_state, not_supported,
  if◌then◌else◌, ◌&&◌,
}
use micro_tech.Pm.Bridge.{
  Bridge, Busy, is_standby_allowed, commit_guard, request_standby, set_benchmark_inhibited,
}

-- Standby is allowed exactly when system PM is available and nothing that blocks it is going on;
-- Device Link and the file service block it only while they take part.
pub is_standby_allowed_iff :
    (q : Busy) (b : Bridge)
    → (is_standby_allowed q b ≡ true) ↔ (
        (b.system_pm_available ≡ true)
        × (b.benchmark_inhibited ≡ false)
        × ((b.device_link_participant ≡ false) ⊎ (q.device_link_is_busy ≡ false))
        × (q.recorder_is_busy ≡ false)
        × (q.music_is_playing ≡ false)
        × ((b.file_participant ≡ false) ⊎ (q.file_is_busy ≡ false)))
unfolding is_standby_allowed
is_standby_allowed_iff q b = ground arith

-- Where system PM is available and the file service does not block standby, the commit guard
-- passes exactly when standby is still allowed and the app manager's own guard passes.
pub commit_guard_iff :
    (q : Busy) (b : Bridge)
    → b.system_pm_available ≡ true
    → ((b.file_participant ≡ false) ⊎ (q.file_is_busy ≡ false))
    → (commit_guard q b ≡ true) ↔ ((is_standby_allowed q b ≡ true) × (q.manager_guard ≡ true))
unfolding commit_guard is_standby_allowed
commit_guard_iff q b a f = ground arith

-- A request leaves the counter of requests as it was, whatever the two reads of the admission flag
-- say; it calls system PM exactly when standby is allowed and both reads admit it, and its
-- result is then the answer, and otherwise an error.
pub request_standby_result :
    (reply : EspErr) (q : Busy) (b : Bridge) (first second : Bool) (users : ℕ)
    → users < 2 ^ 32
    → let r = request_standby reply q b first second users in
      (r.users ≡ users)
      × (r.called ≡ (is_standby_allowed q b && (first && second)))
      × (r.result ≡ (
          if r.called
          then reply
          else if b.system_pm_available
          then invalid_state
          else not_supported))
unfolding request_standby
request_standby_result reply q b first second users h = ground arith

-- While a benchmark runs no request reaches system PM, whatever else holds, and turning the
-- inhibitor on cancels a request that was admitted before, if system PM is available.
pub set_benchmark_inhibited_blocks :
    (reply answer : EspErr) (q : Busy) (b : Bridge) (first second : Bool) (users : ℕ)
    → let (result, b', cancelled) = set_benchmark_inhibited reply true b in
      ((request_standby answer q b' first second users).called ≡ false)
      × (commit_guard q b' ≡ false)
      × (cancelled ≡ b.system_pm_available)
      × (result ≡ (if b.system_pm_available then reply else ok))
unfolding set_benchmark_inhibited request_standby commit_guard
set_benchmark_inhibited_blocks reply answer q b first second users = ground arith
