-- ===== src/Network.antt =====
-- main/network_runtime.c and main/p4_radio_runtime.c: the network foundation, and the transport to a
-- radio on another chip. Another caller shows only in the busy flag, which it holds or does not hold
-- throughout.
pub mod Foundation
pub mod Transport
mod Tests
use micro_tech.Prelude.{
  Bool, true, false, not, ◌&&◌, ◌||◌, if◌then◌else◌, EspErr, ok, fail, timeout, invalid_state,
  is_ok, is_invalid_state,
}

-- `network_runtime_resource_state_t`
pub data Resource : Type 0 where
  uninitialized owned shared : Resource

abbrev pub resource_ready : Resource → Bool
resource_ready uninitialized = false
resource_ready owned = true
resource_ready shared = true

-- `s_netif_state`, `s_event_loop_state` and `s_init_busy`.
pub record Foundations : Type 0 where
  pub netif : Resource
  pub event_loop : Resource
  pub busy : Bool

abbrev pub network_is_ready : Foundations → Bool
network_is_ready n = resource_ready n.netif && resource_ready n.event_loop

abbrev pub result_state : EspErr → Resource
result_state r = if is_ok r then owned else shared

-- One resource, given what its creation answers if it is called: the result that ends the function,
-- and the resource.
unfoldable pub create : EspErr → Resource → EspErr × Resource
create reply x =
    if resource_ready x
    then (ok, x)
    else (if is_ok reply || is_invalid_state reply then (ok, result_state reply) else (reply, x))

-- Given what `esp_netif_init` and `esp_event_loop_create_default` answer if they are called.
unfoldable pub network_init : EspErr → EspErr → Foundations → EspErr × Foundations
unfolding create
network_init netif_reply loop_reply n =
    let (r, a) = create netif_reply n.netif in
    let (e, b) = create loop_reply n.event_loop in
    if network_is_ready n
    then (ok, n)
    else (if n.busy
        then (if network_is_ready n then ok else invalid_state, n)
        else (if is_ok r
            then (e, record n { netif = a; event_loop = b })
            else (r, record n { netif = a })))

-- What the functions of the hosted transport return: zero, -ETIMEDOUT, or another error.
pub data Hosted : Type 0 where
  done timed_out failed : Hosted

abbrev pub hosted_result : Hosted → EspErr
hosted_result done = ok
hosted_result timed_out = timeout
hosted_result failed = fail

-- `s_initialized` and `s_ready`; and whether the transport is initialised, as its own functions
-- have answered.
pub record Radio : Type 0 where
  pub initialized : Bool
  pub ready : Bool
  pub transport : Bool
  pub foundations : Foundations  -- the state of network_runtime.c

-- What the functions of the network and of the transport answer if they are called.
pub record RadioAnswers : Type 0 where
  pub netif : EspErr
  pub event_loop : EspErr
  pub init : Hosted
  pub connect : Hosted
  pub deinit : Hosted

-- The transport after `esp_hosted_deinit`.
abbrev pub after_deinit : RadioAnswers → Bool → Bool
after_deinit a transport = if is_ok (hosted_result a.deinit) then false else transport

unfoldable pub radio_init : RadioAnswers → Radio → EspErr × Radio
radio_init a s =
    let (r, n) = network_init a.netif a.event_loop s.foundations in
    let s' : Radio = record s { foundations = n } in
    if s.ready
    then (ok, s)
    else (if s.initialized
        then (invalid_state, s)
        else (if not (is_ok r)
            then (r, s')
            else (if not (is_ok (hosted_result a.init))
                then (hosted_result a.init, s')
                else (if is_ok (hosted_result a.connect)
                    then (ok, record s' { initialized = true; ready = true; transport = true })
                    else (
                      hosted_result a.connect,
                      record s' { initialized = false; transport = after_deinit a true },
                    )))))

unfoldable pub radio_deinit : RadioAnswers → Radio → EspErr × Radio
radio_deinit a s = if not s.initialized then (ok, s) else (
  hosted_result a.deinit,
  record s { initialized = false; ready = false; transport = after_deinit a s.transport },
)

abbrev pub radio_is_ready : Radio → Bool
radio_is_ready s = s.initialized && s.ready
