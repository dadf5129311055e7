-- ===== src/Tests/Servers.antt =====
-- The servers of clocks, pins and timeouts.
use global_components.Prelude.{
  ℕ, ◌+◌, ◌≡◌, refl, ◌↔◌, Bool, true, false, none, some, List, [], ◌∷◌, arith, ◌==◌, if◌then◌else◌,
  get_or, replicate, length-replicate,
}
use global_components.Prelude.Int.{ℤ, pos, negsuc}
use global_components.Errno.{success, minus_ebusy, minus_einval}
use global_components.ClockServer.Server.{
  ClockSys, ClockServer, init_clock, get_freq, set_freq, register_child,
}
use global_components.ClockServer.Ownership.{
  Owns, Call, calls, clock_calls-Owns, clock_access, register_child_access,
}
use global_components.Gpio.Server.{GpioSys, Gpio, init_pin, set_level, read_level}
use global_components.Gpio.Ownership as Pins
use global_components.Gpio.Ownership.{pin_calls-Owns, pin_refused, init_pin_ignores_reservation}
use global_components.TimeServer.Server.{
  TimeManager, TimeServer, completed, signal_clients, oneshot_absolute, bits_at,
}
use global_components.TimeServer.Completion.{any_names, bit, completed_reports}
use global_components.TimeServer.Calls.{oneshot_absolute_past}

-- Clocks whose frequency is the state of the hardware.
abbrev clocks : ClockSys ℕ
clocks = record {
  get_clock = λ hw i. (some (100 + i), hw);
  gate_enable = λ hw gate mode. (pos 0, hw);
  clk_get_freq = λ hw clk. hw;
  clk_set_freq = λ hw clk hz. (hz, hz);
  clk_register_child = λ hw parent child. hw;
}

-- Client 1 holds clock 0, and nobody clock 1.
abbrev clock_room : ClockServer ℕ
clock_room = record {
  clock_table =
      record { initialised = true; owner = 1; clk = some 100 }
      ∷ record { initialised = false; owner = 0; clk = none }
      ∷ [];
  hw = 50;
}

abbrev clock_requests : List (ℕ × Call)
clock_requests = (2, Call.init (pos 0)) ∷ (2, Call.freq (pos 0) 9) ∷ (2, Call.init (pos 1)) ∷ []

clock_calls-Owns_example : Owns (calls clocks clock_requests clock_room) 0 1 (some 100)
clock_calls-Owns_example =
    clock_calls-Owns clocks clock_requests clock_room 0 1 (some 100) (refl, refl, refl)

clock_access_example :
    (init_clock clocks 1 (pos 0) clock_room ≡ (success, clock_room))
    × (init_clock clocks 2 (pos 0) clock_room ≡ (minus_ebusy, clock_room))
    × (get_freq clocks 1 (pos 0) clock_room ≡ 50)
    × (get_freq clocks 2 (pos 0) clock_room ≡ 0)
    × (set_freq clocks 1 (pos 0) 9 clock_room ≡ (9, record clock_room { hw = 9 }))
    × (set_freq clocks 2 (pos 0) 9 clock_room ≡ (0, clock_room))
clock_access_example =
    clock_access clocks clock_room 0 1 2 9 (some 100) (omega arith) (omega arith) (refl, refl, refl)

register_child_access_example :
    (let (error, t) = register_child clocks 1 (pos 0) (pos 1) clock_room in error ≡ success)
    ↔ (Owns clock_room 0 1 (some 100) × Owns clock_room 1 1 none)
register_child_access_example =
    register_child_access clocks clock_room 1 0 1 (omega arith) (omega arith)

abbrev reserved : ℤ → ℕ
reserved (pos n) = if n == 1 then 1 else 0
reserved (negsuc n) = 0

-- Pins that succeed, of which pin 1 is reserved for badge 1.
abbrev pins : GpioSys ℕ
pins = record {
  dir_irq_low = pos 2;
  dir_irq_edge = pos 5;
  level_high = pos 1;
  level_low = pos 0;
  new = λ hw i dir. (success, 200 + i, hw);
  set_pin = λ hw gpio. (success, 1);
  clear_pin = λ hw gpio. (success, 0);
  get_pin = λ hw gpio. pos hw;
  pin_assignee = reserved;
}

-- Client 1 holds pin 0.
abbrev pin_room : Gpio ℕ
pin_room = record {
  gpio_table =
      record { initialised = true; owner = 1; gpio = 200 }
      ∷ record { initialised = false; owner = 0; gpio = 0 }
      ∷ [];
  hw = 0;
}

abbrev pin_requests : List (ℕ × Pins.Call)
pin_requests = (2, Pins.Call.init (pos 0) (pos 0)) ∷ (2, Pins.Call.level (pos 0) (pos 1)) ∷ []

pin_calls-Owns_example : Pins.Owns (Pins.calls pins pin_requests pin_room) 0 1 200
pin_calls-Owns_example = pin_calls-Owns pins pin_requests pin_room 0 1 200 (refl, refl, refl)

pin_refused_example :
    (init_pin pins 2 (pos 0) (pos 0) pin_room ≡ (minus_ebusy, pin_room))
    × (set_level pins 2 (pos 0) (pos 1) pin_room ≡ (minus_einval, pin_room))
    × (read_level pins 2 (pos 0) pin_room ≡ minus_einval)
pin_refused_example =
    pin_refused pins pin_room 0 1 2 200 (pos 0) (pos 1) (omega arith) (omega arith)
      (refl, refl, refl)

-- Pin 1 is reserved for badge 1, and badge 3 gets it.
init_pin_ignores_reservation_example :
    let (error, t) = init_pin pins 3 (pos 1) (pos 0) pin_room in
    (error ≡ success) × Pins.Owns t 1 3 201
init_pin_ignores_reservation_example =
    init_pin_ignores_reservation pins pin_room 1 3 (pos 0) (omega arith) refl (omega arith) refl
      refl refl

-- A time manager that calls every time past.
abbrev past : TimeManager ℕ
past = record {
  etime = 62;
  register_rel = λ t ns token. (0, t);
  register_abs = λ t ns token. (62, t);
  register_periodic = λ t ns token. (0, t);
  deregister = λ t token. (0, t);
  update = λ t. (0, [], t);
  ltimer_get_time = λ t. t;
}

abbrev timers : TimeServer ℕ
timers = record {
  client_state = replicate 32 false ∷ replicate 32 false ∷ [];
  time_manager = 7;
  emitted = [];
}

completed_reports_example :
    let cleared = (completed 1 timers).1 in
    (get_or (completed 1 (signal_clients 4 (5 ∷ 2 ∷ []) cleared)).0 1 false
      ≡ any_names 4 (5 ∷ 2 ∷ []) 1 1)
    × (bits_at cleared 0 ≡ bits_at timers 0)
completed_reports_example =
    completed_reports 4 (5 ∷ 2 ∷ []) timers 1 1 0
      (length-replicate {A = Bool} 32 false, (length-replicate {A = Bool} 32 false, tt))
      (omega arith) (omega arith) (omega arith)

oneshot_absolute_past_example :
    ((t : TimeServer ℕ) × (oneshot_absolute past 4 1 (pos 2) 9 timers ≡ some (pos 0, t))
      × (bit t 1 2 ≡ true)
      × (t.emitted ≡ 2 ∷ []))
    × (oneshot_absolute past 4 1 (pos 4) 9 timers ≡ some (negsuc 0, timers))
    × (oneshot_absolute past 4 1 (negsuc 6) 9 timers ≡ some (negsuc 0, timers))
oneshot_absolute_past_example =
    oneshot_absolute_past past 4 1 2 4 6 9 timers (omega arith) (omega arith) (omega arith)
      (omega arith)
      (length-replicate {A = Bool} 32 false, (length-replicate {A = Bool} 32 false, tt))
      (omega arith) refl
