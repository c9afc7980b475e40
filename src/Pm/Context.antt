-- ===== src/Pm/Context.antt =====
-- main/app_runtime_pm.c: `app_runtime_sleep_context_t`, one flag for each participant of a sleep
-- transaction that has to be resumed.
use micro_tech.Prelude.{
  ℕ, ◌≡◌, Bool, true, false, not, ◌&&◌, ◌||◌, List, [], ◌∷◌, arith, ◌==◌, if◌then◌else◌,
}

-- The services that a sleep transaction suspends and resumes.
pub data Participant : Type 0 where
  chore file device_link weather connectivity audio imu time power input : Participant

-- The `input` pointer is left out: the hooks that follow it are installed together with it.
pub record SleepContext : Type 0 where
  pub connectivity_participant : Bool
  pub device_link_participant : Bool
  pub imu_participant : Bool
  pub audio_participant : Bool
  pub time_participant : Bool
  pub weather_participant : Bool
  pub file_participant : Bool
  pub chore_resume_required : Bool
  pub connectivity_resume_required : Bool
  pub device_link_resume_required : Bool
  pub imu_resume_required : Bool
  pub audio_resume_required : Bool
  pub time_resume_required : Bool
  pub weather_resume_required : Bool
  pub power_resume_required : Bool
  pub input_resume_required : Bool
  pub file_resume_required : Bool

-- The flag `<p>_resume_required`.
abbrev pub required : Participant → SleepContext → Bool
required chore c = c.chore_resume_required
required file c = c.file_resume_required
required device_link c = c.device_link_resume_required
required weather c = c.weather_resume_required
required connectivity c = c.connectivity_resume_required
required audio c = c.audio_resume_required
required imu c = c.imu_resume_required
required time c = c.time_resume_required
required power c = c.power_resume_required
required input c = c.input_resume_required

unfoldable pub set_required : Participant → Bool → SleepContext → SleepContext
set_required chore b c = record c { chore_resume_required = b }
set_required file b c = record c { file_resume_required = b }
set_required device_link b c = record c { device_link_resume_required = b }
set_required weather b c = record c { weather_resume_required = b }
set_required connectivity b c = record c { connectivity_resume_required = b }
set_required audio b c = record c { audio_resume_required = b }
set_required imu b c = record c { imu_resume_required = b }
set_required time b c = record c { time_resume_required = b }
set_required power b c = record c { power_resume_required = b }
set_required input b c = record c { input_resume_required = b }

-- Whether prepare suspends `p`: the chore worker, power and input always take part.
abbrev pub engaged : Participant → SleepContext → Bool
engaged chore c = true
engaged file c = c.file_participant
engaged device_link c = c.device_link_participant
engaged weather c = c.weather_participant
engaged connectivity c = c.connectivity_participant
engaged audio c = c.audio_participant
engaged imu c = c.imu_participant
engaged time c = c.time_participant
engaged power c = true
engaged input c = true

-- The guard of the recovery at the start of prepare.
abbrev pub any_required : SleepContext → Bool
any_required c =
    c.chore_resume_required
    || (c.device_link_resume_required
        || (c.connectivity_resume_required
            || (c.imu_resume_required
                || (c.audio_resume_required
                    || (c.time_resume_required
                        || (c.weather_resume_required
                            || (c.power_resume_required
                                || (c.input_resume_required || c.file_resume_required))))))))

abbrev pub rank : Participant → ℕ
rank chore = 0
rank file = 1
rank device_link = 2
rank weather = 3
rank connectivity = 4
rank audio = 5
rank imu = 6
rank time = 7
rank power = 8
rank input = 9

unfoldable pub same : Participant → Participant → Bool
same p q = rank p == rank q

pub same→eq : (p q : Participant) → same p q ≡ true → p ≡ q
unfolding same
same→eq p q h = ground arith

pub same_refl : (p : Participant) → same p p ≡ true
unfolding same
same_refl p = ground arith

-- Writing the flag of `p` changes the flag of `p` alone.
pub required-set_required :
    (p q : Participant) (b : Bool) (c : SleepContext)
    → required q (set_required p b c) ≡ (if same p q then b else required q c)
unfolding set_required same
required-set_required p q b c = ground arith

-- Writing a flag leaves open who takes part.
pub engaged-set_required :
    (p q : Participant) (b : Bool) (c : SleepContext) → engaged q (set_required p b c) ≡ engaged q c
unfolding set_required
engaged-set_required p q b c = ground arith

pub not-any_required :
    (p : Participant) (c : SleepContext) → any_required c ≡ false → required p c ≡ false
not-any_required p c h = ground arith

-- Whether `p` stands in a list of participants.
abbrev pub listed : Participant → List Participant → Bool
listed p [] = false
listed p (q ∷ qs) = same q p || listed p qs

-- No participant stands in the list twice.
abbrev pub distinct : List Participant → Bool
distinct [] = true
distinct (p ∷ ps) = not (listed p ps) && distinct ps
