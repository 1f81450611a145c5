-- ===== src/Gpio/Types.antt =====
-- The types of internal/services/gpio/interfaces.go. A time is a number of milliseconds, a duty cycle a
-- number of thousandths, a handler the number of a function.
use ideas.Base.{ℕ, Bool, true, false, List, [], ◌∷◌, if◌then◌else◌}
use ideas.Base.Int.{ℤ, pos, eqb_ℤ}

pub data PinMode : Type 0 where
  pin_mode_input pin_mode_output pin_mode_pwm : PinMode

abbrev pub same_mode : PinMode → PinMode → Bool
same_mode pin_mode_input pin_mode_input = true
same_mode pin_mode_output pin_mode_output = true
same_mode pin_mode_pwm pin_mode_pwm = true
same_mode _ _ = false

pub data EdgeType : Type 0 where
  edge_rising edge_falling edge_both : EdgeType

pub data PullType : Type 0 where
  pull_none pull_up pull_down : PullType

pub record PinConfig : Type 0 where
  pub mode : PinMode
  pub pull : PullType
  pub initial_value : Bool

pub record PinStatus : Type 0 where
  pub pin : ℤ
  pub mode : PinMode
  pub value : Bool
  pub pwm_duty_cycle : ℤ
  pub has_interrupt : Bool
  pub edge_type : EdgeType
  pub last_update : ℕ

-- GPIOConfig, less the paths of the chip. `pin_configs` is the map in the order of its iteration.
pub record GpioConfig : Type 0 where
  pub pin_configs : List (ℤ × PinConfig)
  pub debounce_time : ℕ
  pub poll_interval : ℕ
  pub safe_mode : Bool
  pub max_pins : ℤ

abbrev pub default_gpio_config : GpioConfig
default_gpio_config = record {
  pin_configs = [];
  debounce_time = 50;
  poll_interval = 100;
  safe_mode = true;
  max_pins = pos 40;
}

-- A map keyed by pins.
abbrev pub put {ℓ} : {A : Type ℓ} → (ℤ → A) → ℤ → A → ℤ → A
put m pin v j = if eqb_ℤ pin j then v else m j

-- The map of configurations after a write at a pin, which keeps its place if it is there.
unfoldable pub put_config : ℤ → PinConfig → List (ℤ × PinConfig) → List (ℤ × PinConfig)
put_config pin c [] = (pin, c) ∷ []
put_config pin c (kv ∷ rest) =
    if eqb_ℤ kv.0 pin then (pin, c) ∷ rest else kv ∷ put_config pin c rest
