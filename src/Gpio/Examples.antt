-- ===== src/Gpio/Examples.antt =====
-- Runs of internal/services/gpio.
use ideas.Base.{ℕ, ◌≡◌, refl, true, false, List, [], ◌∷◌, none, some}
use ideas.Base.Int.{pos}
use ideas.Gpio.Types.{
  PinConfig, PinStatus, pin_mode_output, pin_mode_input, pull_none, pull_up, edge_both,
  default_gpio_config,
}
use ideas.Gpio.Service.{
  Service, new_service, configured, set_pin, get_status, Request, configures, sets_pin, registers,
  handle_all,
}
use ideas.Gpio.Sharing.{
  IsConsistent, new_service-IsConsistent, configured-IsConsistent, handle_all-IsConsistent,
}
use ideas.Gpio.Effects.{Shows, set_pin-Shows}
use ideas.Gpio.SafeMode.{IsSafe, new_service-IsSafe, handle_all-IsSafe}
use ideas.Gpio.Debounce.{Tick, monitor_tick, new_monitor, monitor_pin, Spaced, monitor_pin-Spaced}

abbrev led : PinConfig
led = record { mode = pin_mode_output; pull = pull_none; initial_value = false }

abbrev button : PinConfig
button = record { mode = pin_mode_input; pull = pull_up; initial_value = false }

abbrev empty : Service
empty = new_service default_gpio_config 0

abbrev one_led : Service
one_led = configured 5 (pos 18) led empty

abbrev calls : List (ℕ × Request)
calls =
    (1, configures (pos 18) led)
    ∷ (2, configures (pos 2) button)
    ∷ (3, registers (pos 2) edge_both 7)
    ∷ (4, sets_pin (pos 18) true)
    ∷ (5, configures (pos 2) led)
    ∷ []

handle_all-IsConsistent_example : IsConsistent (handle_all calls empty)
handle_all-IsConsistent_example =
    handle_all-IsConsistent calls empty (new_service-IsConsistent default_gpio_config 0)

set_pin-Shows_example :
    (c : PinStatus) × ((get_status one_led (pos 18) ≡ some c)
      × ((c.mode ≡ pin_mode_output)
          × Shows one_led
              (pos 18)
              (record c { value = true; last_update = 9 })
              ((set_pin 9 (pos 18) true one_led).0)))
unfolding set_pin
set_pin-Shows_example =
    set_pin-Shows 9 (pos 18) true one_led
      (configured-IsConsistent empty (new_service-IsConsistent default_gpio_config 0) 5 (pos 18)
        led)
      refl

abbrev ticks : List Tick
ticks =
    (100, some true) ∷ (120, some false) ∷ (200, some false) ∷ (300, none) ∷ (400, some true) ∷ []

monitor_pin-Spaced_example : Spaced 50 false none (monitor_pin 50 ticks new_monitor)
monitor_pin-Spaced_example = monitor_pin-Spaced 50 ticks new_monitor

bouncing : monitor_pin 50 ticks new_monitor ≡ (true, 100) ∷ (false, 200) ∷ (true, 400) ∷ []
unfolding monitor_pin monitor_tick
bouncing = refl

handle_all-IsSafe_example : IsSafe (handle_all calls empty)
handle_all-IsSafe_example = handle_all-IsSafe calls empty (new_service-IsSafe default_gpio_config 0)
