-- ===== src/Node/Input.antt =====
-- `InputController` of apps/uchi-pulse-node/src/input.rs: one detector for each configured pin, and
-- the mappings from gestures to actions. The borrowed mapping slice is a list.
pub mod Build
pub mod Dispatch
mod Tests
use uchi_pulse.Base.{
  ℕ, ◌≡◌, Bool, true, false, not, ◌&&◌, Option, none, some, List, [], ◌∷◌, ◌++◌, Result, ok, err,
  ◌>>=◌, ◌>>◌, reject_if, map_ok, ok_or, push, push_all, any, find, keep_if, map, ◌==◌,
  if◌then◌else◌,
}
use uchi_pulse.Common.Types.{InputEvent, event_eq}
use uchi_pulse.Node.Config.{GpioInputConfig, InputMapping, PersistedNodeConfig, has_mapping}
use uchi_pulse.Node.Detector.{GestureDetector, Timing, max_events_per_sample}
use uchi_pulse.Node.Detector

abbrev pub max_input_channels : ℕ
max_input_channels = 32

pub record InputConfig : Type 0 where
  pub gpio_inputs : List GpioInputConfig
  pub mappings : List InputMapping
  pub double_click_interval_ms : ℕ
  pub long_press_threshold_ms : ℕ

-- `PersistedNodeConfig::input_config`
pub input_config : PersistedNodeConfig → InputConfig
input_config c = record {
  gpio_inputs = c.gpio_inputs;
  mappings = c.input_mappings;
  double_click_interval_ms = c.double_click_interval_ms;
  long_press_threshold_ms = c.long_press_threshold_ms;
}

pub record DetectedInputEvent : Type 0 where
  pub gpio : ℕ
  pub input_event : InputEvent

-- A `TriggeredAction` is its action id.
pub record InputSampleResult : Type 0 where
  pub input_events : List DetectedInputEvent
  pub actions : List ℕ

pub data InputConfigError : Type 0 where
  too_many_inputs : InputConfigError
  duplicate_gpio mapping_references_unknown_gpio : ℕ → InputConfigError
  duplicate_mapping : ℕ → InputEvent → InputConfigError

pub data InputProcessError : Type 0 where
  unknown_gpio : ℕ → InputProcessError
  too_many_events : InputProcessError

pub record RuntimeInput : Type 0 where
  pub gpio : ℕ
  pub active_high : Bool
  pub debounce_ms : ℕ
  pub detector : GestureDetector

pub record InputController : Type 0 where
  pub mappings : List InputMapping
  pub double_click_interval_ms : ℕ
  pub long_press_threshold_ms : ℕ
  pub inputs : List RuntimeInput

-- `inputs.iter().any(|input| input.gpio == gpio)`
abbrev pub knows : ℕ → List RuntimeInput → Bool
knows gpio = any (λ i. i.gpio == gpio)

abbrev pub fresh : GpioInputConfig → RuntimeInput
fresh g = record {
  gpio = g.gpio;
  active_high = g.active_high;
  debounce_ms = g.debounce_ms;
  detector = Detector.new;
}

-- The first loop of `new`.
add_inputs : List RuntimeInput → List GpioInputConfig → Result InputConfigError (List RuntimeInput)
add_inputs inputs [] = ok inputs
add_inputs inputs (g ∷ gs) =
    let rest =
      (push max_input_channels (λ _. too_many_inputs) inputs (fresh g) >>= λ is.
      add_inputs is gs) in
    if knows g.gpio inputs then err (duplicate_gpio g.gpio) else rest

-- The second loop of `new`.
check_mappings : List RuntimeInput → List InputMapping → Result InputConfigError Unit
check_mappings inputs [] = ok tt
check_mappings inputs (m ∷ ms) = do
  reject_if (not (knows m.gpio inputs)) (mapping_references_unknown_gpio m.gpio)
  reject_if (has_mapping m ms) (duplicate_mapping m.gpio m.input_event)
  check_mappings inputs ms

pub new : InputConfig → Result InputConfigError InputController
new config = do
  inputs ← add_inputs [] config.gpio_inputs
  check_mappings inputs config.mappings
  ok (record {
    mappings = config.mappings;
    double_click_interval_ms = config.double_click_interval_ms;
    long_press_threshold_ms = config.long_press_threshold_ms;
    inputs = inputs;
  })

abbrev pub set_gesture_timing : InputController → ℕ → ℕ → InputController
set_gesture_timing c interval threshold = record c {
  double_click_interval_ms = interval;
  long_press_threshold_ms = threshold;
}

abbrev pub has_gpio : InputController → ℕ → Bool
has_gpio c gpio = knows gpio c.inputs

-- `iter_mut().find(…)`, with the write through the reference that it returns.
write_first : ℕ → (RuntimeInput → RuntimeInput) → List RuntimeInput → List RuntimeInput
write_first gpio f [] = []
write_first gpio f (i ∷ is) =
    let rest = write_first gpio f is in if i.gpio == gpio then f i ∷ is else i ∷ rest

abbrev pub find_input : ℕ → List RuntimeInput → Option RuntimeInput
find_input gpio = find (λ i. i.gpio == gpio)

-- The level that the wiring of the pin makes of a raw level.
abbrev pub active_level : RuntimeInput → Bool → Bool
active_level i raw_high = if i.active_high then raw_high else not raw_high

abbrev set_detector : GestureDetector → RuntimeInput → RuntimeInput
set_detector d i = record i { detector = d }

pub initialize : InputController → ℕ → Bool → ℕ → Result InputProcessError InputController
unfolding write_first
initialize c gpio raw_high now = do
  input ← ok_or (find_input gpio c.inputs) (unknown_gpio gpio)
  let d = Detector.initialize input.detector (active_level input raw_high) now
  ok (record c { inputs = write_first gpio (set_detector d) c.inputs })

-- `mapping.enabled && mapping.gpio == gpio && mapping.input_event == input_event`
abbrev pub triggers : ℕ → InputEvent → InputMapping → Bool
triggers gpio e m = m.enabled && m.gpio == gpio && event_eq m.input_event e

abbrev pub ids : List InputMapping → List ℕ
ids = map λ m. m.action_id

-- The loop over the detected events.
collect :
    List InputMapping
    → ℕ
    → List DetectedInputEvent
    → List ℕ
    → List InputEvent
    → Result InputProcessError InputSampleResult
collect mappings gpio events actions [] = ok (record { input_events = events; actions = actions })
collect mappings gpio events actions (e ∷ es) = do
  events' ←
      push max_events_per_sample (λ _. too_many_events) events
        (record { gpio = gpio; input_event = e })
  actions' ←
      push_all max_events_per_sample (λ _. too_many_events) actions
        (ids (keep_if (triggers gpio e) mappings))
  collect mappings gpio events' actions' es

-- The detector's write stays when the collecting loop fails.
pub update :
    InputController → ℕ → Bool → ℕ → InputController × Result InputProcessError InputSampleResult
unfolding write_first
update c gpio raw_high now = elim (find_input gpio c.inputs) [
  | none ↦ (c, err (unknown_gpio gpio))
  | some input ↦
      let timing : Timing = record {
        debounce_ms = input.debounce_ms;
        double_click_interval_ms = c.double_click_interval_ms;
        long_press_threshold_ms = c.long_press_threshold_ms;
      } in
      let (d, detected) =
        Detector.update input.detector (active_level input raw_high) now timing [] in
      (
        record c { inputs = write_first gpio (set_detector d) c.inputs },
        collect c.mappings gpio [] [] detected,
      )
]
