-- ===== src/Gpio/Service.antt =====
-- The state and the operations of internal/services/gpio/service.go. The records of pins, which two
-- maps share by reference, are cells of a store.
use ideas.Base.{
  ℕ, suc, ◌==◌, Bool, true, false, ◌&&◌, ◌||◌, List, [], ◌∷◌, Option, none, some, if◌then◌else◌,
}
use ideas.Base.Int.{ℤ, pos, ltb_ℤ, leb_ℤ}
use ideas.Gpio.Types.{
  PinMode, pin_mode_input, pin_mode_output, pin_mode_pwm, same_mode, EdgeType, edge_rising,
  PinConfig, PinStatus, GpioConfig, put, put_config,
}

pub data GpioError : Type 0 where
  out_of_safe_range not_configured not_output not_input not_pwm bad_duty_cycle already_started :
      GpioError

-- The service. `pins` and `status_pins` hold the cells of the pins, `next` is the next free cell;
-- `started` says that the context is set and `cancellable` that its cancel function is.
pub record Service : Type 0 where
  pub config : GpioConfig
  pub pins : ℤ → Option ℕ
  pub status_pins : ℤ → Option ℕ
  pub cells : ℕ → PinStatus
  pub next : ℕ
  pub handlers : ℤ → Option ℕ
  pub interrupt_chans : ℤ → Bool
  pub started : Bool
  pub cancellable : Bool
  pub is_active : Bool
  pub last_update : ℕ

abbrev no_pin : PinStatus
no_pin = record {
  pin = pos 0;
  mode = pin_mode_input;
  value = false;
  pwm_duty_cycle = pos 0;
  has_interrupt = false;
  edge_type = edge_rising;
  last_update = 0;
}

abbrev pub new_service : GpioConfig → ℕ → Service
new_service config now = record {
  config = config;
  pins = λ _. none;
  status_pins = λ _. none;
  cells = λ _. no_pin;
  next = 0;
  handlers = λ _. none;
  interrupt_chans = λ _. false;
  started = false;
  cancellable = false;
  is_active = false;
  last_update = now;
}

abbrev pub Result : Type 0
Result = Service × Option GpioError

abbrev pub write_cell : (ℕ → PinStatus) → ℕ → PinStatus → ℕ → PinStatus
write_cell cells l c k = if l == k then c else cells k

abbrev pub out_of_range : GpioConfig → ℤ → Bool
out_of_range config pin = config.safe_mode && (ltb_ℤ pin (pos 0) || leb_ℤ config.max_pins pin)

abbrev pub fresh_status : ℕ → ℤ → PinConfig → PinStatus
fresh_status now pin c = record {
  pin = pin;
  mode = c.mode;
  value = c.initial_value;
  pwm_duty_cycle = pos 0;
  has_interrupt = false;
  edge_type = edge_rising;
  last_update = now;
}

-- configurePinInternal: a new record, that both maps refer to.
abbrev pub configured : ℕ → ℤ → PinConfig → Service → Service
configured now pin c s =
    let g = s.config in
    record s {
      config = record g { pin_configs = put_config pin c g.pin_configs };
      pins = put s.pins pin (some s.next);
      status_pins = put s.status_pins pin (some s.next);
      cells = write_cell s.cells s.next (fresh_status now pin c);
      next = suc s.next;
    }

unfoldable pub configure_pin : ℕ → ℤ → PinConfig → Service → Result
configure_pin now pin c s =
    if out_of_range s.config pin
    then (s, some out_of_safe_range)
    else (configured now pin c s, none)

-- Initialize: the configured pins in order, up to the first that is refused.
abbrev pub then_activate : ℕ → Result → Result
then_activate now (s, some e) = (s, some e)
then_activate now (s, none) = (record s { is_active = true; last_update = now }, none)

abbrev pub then_result : Result → (Service → Result) → Result
then_result (s, some e) f = (s, some e)
then_result (s, none) f = f s

unfoldable pub configure_all : ℕ → List (ℤ × PinConfig) → Service → Result
configure_all now [] s = (s, none)
configure_all now (kv ∷ rest) s =
    then_result (configure_pin now kv.0 kv.1 s) (configure_all now rest)

unfoldable pub initialize : ℕ → Service → Result
initialize now s = let g = s.config in then_activate now (configure_all now g.pin_configs s)

unfoldable pub start : Service → Result
start s =
    if s.started
    then (s, some already_started)
    else (record s { started = true; cancellable = true }, none)

unfoldable pub stop : Service → Result
stop s = (record s { cancellable = false; is_active = false }, none)

-- What the operations do on a pin's record: it has to be there, and to be in the mode asked for.
abbrev pub with_mode : PinMode → GpioError → Service → (ℕ → Result) → Option ℕ → Result
with_mode m e s f none = (s, some not_configured)
with_mode m e s f (some l) = let c = s.cells l in if same_mode c.mode m then f l else (s, some e)

abbrev pub write : Service → ℕ → PinStatus → Service
write s l c = record s { cells = write_cell s.cells l c }

unfoldable pub set_pin : ℕ → ℤ → Bool → Service → Result
set_pin now pin v s =
    with_mode pin_mode_output not_output s
      (λ l. let c = s.cells l in (write s l (record c { value = v; last_update = now }), none))
      (s.pins pin)

-- GetPin: the value, or the error.
abbrev read_mode : PinMode → Service → Option ℕ → Bool × Option GpioError
read_mode m s none = (false, some not_configured)
read_mode m s (some l) =
    let c = s.cells l in if same_mode c.mode m then (c.value, none) else (false, some not_input)

unfoldable pub get_pin : ℤ → Service → Bool × Option GpioError
get_pin pin s = read_mode pin_mode_input s (s.pins pin)

unfoldable pub set_pwm : ℕ → ℤ → ℤ → Service → Result
set_pwm now pin duty s =
    with_mode pin_mode_pwm not_pwm s
      (λ l.
        if ltb_ℤ duty (pos 0) || ltb_ℤ (pos 1000) duty
        then (s, some bad_duty_cycle)
        else (let c = s.cells l in
            (write s l (record c { pwm_duty_cycle = duty; last_update = now }), none)))
      (s.pins pin)

unfoldable pub register_interrupt : ℤ → EdgeType → ℕ → Service → Result
register_interrupt pin edge handler s =
    with_mode pin_mode_input not_input s
      (λ l.
        let c = s.cells l in
        (
          record s {
            cells = write_cell s.cells l (record c { has_interrupt = true; edge_type = edge });
            handlers = put s.handlers pin (some handler);
            interrupt_chans = put s.interrupt_chans pin true;
          },
          none,
        ))
      (s.pins pin)

abbrev pub unregistered : ℤ → Service → Option ℕ → Result
unregistered pin s none = (s, some not_configured)
unregistered pin s (some l) =
    let c = s.cells l in
    (
      record s {
        cells = write_cell s.cells l (record c { has_interrupt = false });
        handlers = put s.handlers pin none;
        interrupt_chans = put s.interrupt_chans pin false;
      },
      none,
    )

unfoldable pub unregister_interrupt : ℤ → Service → Result
unregister_interrupt pin s = unregistered pin s (s.pins pin)

-- GetStatus: a copy of the record of each pin that the status refers to.
abbrev pub copy_of : Service → Option ℕ → Option PinStatus
copy_of s none = none
copy_of s (some l) = some (s.cells l)

unfoldable pub get_status : Service → ℤ → Option PinStatus
get_status s pin = copy_of s (s.status_pins pin)

-- The calls that change the service.
pub data Request : Type 0 where
  initializes : Request
  starts stops : Request
  configures : ℤ → PinConfig → Request
  sets_pin : ℤ → Bool → Request
  sets_pwm : ℤ → ℤ → Request
  registers : ℤ → EdgeType → ℕ → Request
  unregisters : ℤ → Request

unfoldable pub handle : ℕ → Request → Service → Result
handle now initializes s = initialize now s
handle now starts s = start s
handle now stops s = stop s
handle now (configures pin c) s = configure_pin now pin c s
handle now (sets_pin pin v) s = set_pin now pin v s
handle now (sets_pwm pin duty) s = set_pwm now pin duty s
handle now (registers pin edge handler) s = register_interrupt pin edge handler s
handle now (unregisters pin) s = unregister_interrupt pin s

-- The service after the calls, each at its time.
unfoldable pub handle_all : List (ℕ × Request) → Service → Service
handle_all [] s = s
handle_all (r ∷ rs) s = handle_all rs ((handle r.0 r.1 s).0)
