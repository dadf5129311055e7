-- ===== src/Gpio/Ownership.antt =====
-- components/GPIOMUXServer/src/gpio.c: who may use a pin.
use global_components.Prelude.{
  ℕ, ◌<◌, ◌≡◌, ◌≢◌, inl, inr, true, false, List, [], ◌∷◌, arith, ◌==◌, if◌then◌else◌, Bool-cases,
  Option-cases, length, get_or-set_self, get_or-set_ne,
}
use global_components.Prelude.Int.{ℤ, pos}
use global_components.Errno.{success, minus_einval, minus_ebusy}
use global_components.Gpio.Server.{
  GpioSys, GpioEntry, Gpio, blank_entry, entry_at, check_valid_gpio_id, is_irq, init_entry,
  init_pin, set_entry, set_level, read_level,
}

-- `client` holds pin `i`, which the library has named `gpio`.
abbrev pub Owns : {Hw : Type 0} → Gpio Hw → ℕ → ℕ → ℕ → Type 0
Owns s i client gpio =
    ((entry_at s i).initialised ≡ true)
    × ((entry_at s i).owner ≡ client)
    × ((entry_at s i).gpio ≡ gpio)

-- What a client may ask for that changes something.
pub data Call : Type 0 where
  init : ℤ → ℤ → Call
  level : ℤ → ℤ → Call

module _ {Hw : Type 0} (sys : GpioSys Hw) where
  unfoldable pub call : ℕ → Call → Gpio Hw → Gpio Hw
  call client (init pin dir) s = (init_pin sys client pin dir s).1
  call client (level pin l) s = (set_level sys client pin l s).1

  unfoldable pub calls : List (ℕ × Call) → Gpio Hw → Gpio Hw
  calls [] s = s
  calls ((client, c) ∷ cs) s = calls cs (call client c s)

  init_entry-Owns :
      (other j : ℕ) (dir : ℤ) (s : Gpio Hw) (i client gpio : ℕ)
      → Owns s i client gpio
      → Owns (init_entry sys other j dir s).1 i client gpio
  unfolding init_entry
  init_entry-Owns other j dir s i client gpio o = elim (Bool-cases (j == i)) [
    | inl e ↦ let one : j ≡ i = ground arith in rw one (ground arith)
    | inr e ↦
        let ne : j ≢ i = ground arith in
        let kept = λ (v : GpioEntry). get_or-set_ne s.gpio_table j i v blank_entry ne in
        let gpio' = (sys.new s.hw j dir).1 in
        ground (
          arith,
          kept (record (entry_at s j) { gpio = gpio' }),
          kept (record { initialised = true; owner = other; gpio = gpio' }),
          o,
        )
  ]

  call-Owns :
      (other : ℕ) (c : Call) (s : Gpio Hw) (i client gpio : ℕ)
      → Owns s i client gpio
      → Owns (call other c s) i client gpio
  unfolding call init_pin set_level set_entry
  call-Owns other (init pin dir) s i client gpio o =
      elim (Option-cases (check_valid_gpio_id s pin)) [
        | inl e ↦ rw (e, call, init_pin) o
        | inr (k, e) ↦ rw (e, call, init_pin) (init_entry-Owns other k dir s i client gpio o)
      ]
  call-Owns other (level pin l) s i client gpio o = ground arith

  -- Once a client holds a pin it keeps it, whatever any clients ask for.
  pub pin_calls-Owns :
      (cs : List (ℕ × Call)) (s : Gpio Hw) (i client gpio : ℕ)
      → Owns s i client gpio
      → Owns (calls cs s) i client gpio
  unfolding calls
  pin_calls-Owns [] s i client gpio o = o
  pin_calls-Owns ((other, c) ∷ cs) s i client gpio o =
      pin_calls-Owns cs (call other c s) i client gpio (call-Owns other c s i client gpio o)

  -- A pin that another client holds can be neither taken, set nor read: each call is refused and
  -- changes nothing.
  pub pin_refused :
      (s : Gpio Hw) (i client other gpio : ℕ) (dir l : ℤ)
      → i < length s.gpio_table
      → other ≢ client
      → Owns s i client gpio
      → (init_pin sys other (pos i) dir s
          ≡ (if is_irq sys dir then minus_einval else minus_ebusy, s))
        × (set_level sys other (pos i) l s ≡ (minus_einval, s))
        × (read_level sys other (pos i) s ≡ minus_einval)
  unfolding init_pin init_entry set_level set_entry read_level check_valid_gpio_id
  pin_refused s i client other gpio dir l hi ne o = (ground arith, ground arith, ground arith)

  -- A pin that nobody holds goes to the client that asks for it as an input or output, whoever it is
  -- reserved for, if the pin with the client's number is not reserved and the library can set the
  -- pin up.
  pub init_pin_ignores_reservation :
      (s : Gpio Hw) (i client : ℕ) (dir : ℤ)
      → i < length s.gpio_table
      → (entry_at s i).initialised ≡ false
      → (entry_at s i).owner ≢ client
      → is_irq sys dir ≡ false
      → sys.pin_assignee (pos client) ≡ 0
      → (sys.new s.hw i dir).0 ≡ success
      → let (error, t) = init_pin sys client (pos i) dir s in
        (error ≡ success) × Owns t i client (sys.new s.hw i dir).1
  unfolding init_pin init_entry check_valid_gpio_id
  init_pin_ignores_reservation s i client dir hi free ne no_irq unreserved done' =
      let taken : GpioEntry = record {
        initialised = true;
        owner = client;
        gpio = (sys.new s.hw i dir).1;
      } in
      ground (arith, get_or-set_self s.gpio_table i taken blank_entry hi)
