-- ===== src/Gpio/Server.antt =====
-- components/GPIOMUXServer/src/gpio.c: the table of pins and the calls.
use global_components.Prelude.{
  ℕ, ◌+◌, Bool, true, false, not, ◌&&◌, Option, none, some, List, leb, ◌==◌, if◌then◌else◌, length,
  get_or, set, replicate,
}
use global_components.Prelude.Int.{ℤ, pos, negsuc, ltb_ℤ, same_ℤ}
use global_components.Errno.{success, minus_einval, minus_ebusy}

-- The GPIO library over the state `Hw` of the hardware, with the values of its enumerations. A pin
-- that is in use is a number that it hands out. `pin_assignee` is what the connector's template
-- generates: the badge that a pin is reserved for, or 0.
pub record GpioSys (Hw : Type 0) : Type 0 where
  pub dir_irq_low : ℤ
  pub dir_irq_edge : ℤ
  pub level_high : ℤ
  pub level_low : ℤ
  pub new : Hw → ℕ → ℤ → ℤ × ℕ × Hw
  pub set_pin : Hw → ℕ → ℤ × Hw
  pub clear_pin : Hw → ℕ → ℤ × Hw
  pub get_pin : Hw → ℕ → ℤ
  pub pin_assignee : ℤ → ℕ

pub record GpioEntry : Type 0 where
  pub initialised : Bool
  pub owner : ℕ
  pub gpio : ℕ

-- `gpio_table_size` is the length of the table.
pub record Gpio (Hw : Type 0) : Type 0 where
  pub gpio_table : List GpioEntry
  pub hw : Hw

-- `owner = -1` on a machine of 64 bits
abbrev pub no_owner : ℕ
no_owner = 18446744073709551615

abbrev pub blank_entry : GpioEntry
blank_entry = record { initialised = false; owner = no_owner; gpio = 0 }

-- The table after `gpio_component_init`.
unfoldable pub new_table : ℕ → List GpioEntry
new_table max_gpio_id = replicate (max_gpio_id + 1) blank_entry

module _ {Hw : Type 0} where
  abbrev pub entry_at : Gpio Hw → ℕ → GpioEntry
  entry_at s i = get_or s.gpio_table i blank_entry

  -- The index, if `check_valid_gpio_id` accepts the identifier.
  unfoldable pub check_valid_gpio_id : Gpio Hw → ℤ → Option ℕ
  check_valid_gpio_id s (pos i) = if leb (length s.gpio_table) i then none else some i
  check_valid_gpio_id s (negsuc i) = none

  abbrev pub check_pin_initialised : Gpio Hw → ℕ → Bool
  check_pin_initialised s i = (entry_at s i).initialised

  abbrev pub check_client_owns_pin : Gpio Hw → ℕ → ℕ → Bool
  check_client_owns_pin s i client = (entry_at s i).owner == client

module _ {Hw : Type 0} (sys : GpioSys Hw) where
  -- `GPIO_DIR_IRQ_LOW <= dir && dir <= GPIO_DIR_IRQ_EDGE`
  abbrev pub is_irq : ℤ → Bool
  is_irq dir = not (ltb_ℤ dir sys.dir_irq_low) && not (ltb_ℤ sys.dir_irq_edge dir)

  -- `the_gpio_init_pin` past its check of the identifier. The reservation that it looks up is that
  -- of the client's number.
  unfoldable pub init_entry : ℕ → ℕ → ℤ → Gpio Hw → ℤ × Gpio Hw
  init_entry client i dir s =
      let e = entry_at s i in
      let (error, gpio, hw) = sys.new s.hw i dir in
      let named = record e { gpio = gpio } in
      let t = record s { gpio_table = set s.gpio_table i named; hw = hw } in
      let taken : GpioEntry = record { initialised = true; owner = client; gpio = gpio } in
      let u = record s { gpio_table = set s.gpio_table i taken; hw = hw } in
      if is_irq dir
      then (minus_einval, s)
      else if check_client_owns_pin s i client
      then (success, s)
      else if not (sys.pin_assignee (pos client) == 0)
      then (minus_ebusy, s)
      else if check_pin_initialised s i
      then (minus_ebusy, s)
      else elim error [
        | pos n ↦ if n == 0 then (success, u) else (pos n, t)
        | negsuc n ↦ (negsuc n, t)
      ]

  -- The sender's badge is the first argument of each call.
  unfoldable pub init_pin : ℕ → ℤ → ℤ → Gpio Hw → ℤ × Gpio Hw
  init_pin client pin_id dir s = elim (check_valid_gpio_id s pin_id) [
    | none ↦ (minus_einval, s)
    | some i ↦ init_entry client i dir s
  ]

  unfoldable pub set_entry : ℕ → ℕ → ℤ → Gpio Hw → ℤ × Gpio Hw
  set_entry client i level s =
      let (error, hw) = sys.set_pin s.hw (entry_at s i).gpio in
      let (error', hw') = sys.clear_pin s.hw (entry_at s i).gpio in
      if not (check_client_owns_pin s i client)
      then (minus_einval, s)
      else if same_ℤ level sys.level_high
      then (error, record s { hw = hw })
      else if same_ℤ level sys.level_low
      then (error', record s { hw = hw' })
      else (minus_einval, s)

  unfoldable pub set_level : ℕ → ℤ → ℤ → Gpio Hw → ℤ × Gpio Hw
  set_level client pin_id level s = elim (check_valid_gpio_id s pin_id) [
    | none ↦ (minus_einval, s)
    | some i ↦ set_entry client i level s
  ]

  unfoldable pub read_level : ℕ → ℤ → Gpio Hw → ℤ
  read_level client pin_id s = elim (check_valid_gpio_id s pin_id) [
    | none ↦ minus_einval
    | some i ↦
        if not (check_client_owns_pin s i client)
        then minus_einval
        else sys.get_pin s.hw (entry_at s i).gpio
  ]
