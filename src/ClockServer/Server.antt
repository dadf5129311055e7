-- ===== src/ClockServer/Server.antt =====
-- components/ClockServer/src/clock_server.c: the table of clocks and the calls.
use global_components.Prelude.{
  ℕ, Bool, true, false, not, Option, none, some, List, ltb, ◌==◌, if◌then◌else◌, length, get_or,
  set,
}
use global_components.Prelude.Int.{ℤ, pos, negsuc}
use global_components.Errno.{success, minus_einval, minus_ebusy, minus_enodev, minus_eperm}

-- The clock library over the state `Hw` of the hardware. A clock is a number that it hands out;
-- it is given the pointer of the table, which may be NULL.
pub record ClockSys (Hw : Type 0) : Type 0 where
  pub get_clock : Hw → ℕ → Option ℕ × Hw
  pub gate_enable : Hw → ℤ → ℤ → ℤ × Hw
  pub clk_get_freq : Hw → Option ℕ → ℕ
  pub clk_set_freq : Hw → Option ℕ → ℕ → ℕ × Hw
  pub clk_register_child : Hw → Option ℕ → Option ℕ → Hw

-- `clk` is none where the pointer is NULL.
pub record ClockEntry : Type 0 where
  pub initialised : Bool
  pub owner : ℕ
  pub clk : Option ℕ

-- `NCLOCKS` is the length of the table.
pub record ClockServer (Hw : Type 0) : Type 0 where
  pub clock_table : List ClockEntry
  pub hw : Hw

abbrev pub blank_entry : ClockEntry
blank_entry = record { initialised = false; owner = 0; clk = none }

module _ {Hw : Type 0} where
  abbrev pub entry_at : ClockServer Hw → ℕ → ClockEntry
  entry_at s i = get_or s.clock_table i blank_entry

  -- The index, if `check_valid_clk_id` accepts the identifier.
  unfoldable pub check_valid_clk_id : ClockServer Hw → ℤ → Option ℕ
  check_valid_clk_id s (pos i) = if ltb i (length s.clock_table) then some i else none
  check_valid_clk_id s (negsuc i) = none

  -- `check_clk_initialised` and `check_is_owner`
  abbrev pub check_clk_initialised : ClockServer Hw → ℕ → Bool
  check_clk_initialised s i = (entry_at s i).initialised

  abbrev pub check_is_owner : ClockServer Hw → ℕ → ℕ → Bool
  check_is_owner s i client = (entry_at s i).owner == client

module _ {Hw : Type 0} (sys : ClockSys Hw) where
  -- `the_clock_init_clock` past its check of the identifier
  unfoldable pub init_entry : ℕ → ℕ → ClockServer Hw → ℤ × ClockServer Hw
  init_entry client i s =
      let e = entry_at s i in
      let (clk, hw) = sys.get_clock s.hw i in
      let t = record s { clock_table = set s.clock_table i (record e { clk = clk }); hw = hw } in
      let taken : ClockEntry = record { initialised = true; owner = client; clk = clk } in
      let u = record s { clock_table = set s.clock_table i taken; hw = hw } in
      if check_clk_initialised s i
      then (if not (check_is_owner s i client) then (minus_ebusy, s) else (success, s))
      else elim clk [ none ↦ (minus_enodev, t) | some h ↦ (success, u) ]

  -- The sender's badge is the first argument of each call.
  unfoldable pub init_clock : ℕ → ℤ → ClockServer Hw → ℤ × ClockServer Hw
  init_clock client clk_id s = elim (check_valid_clk_id s clk_id) [
    | none ↦ (minus_einval, s)
    | some i ↦ init_entry client i s
  ]

  unfoldable pub set_gate_mode : ℤ → ℤ → ClockServer Hw → ℤ × ClockServer Hw
  set_gate_mode gate mode s =
      let (error, hw) = sys.gate_enable s.hw gate mode in (error, record s { hw = hw })

  unfoldable pub get_freq : ℕ → ℤ → ClockServer Hw → ℕ
  get_freq client clk_id s = elim (check_valid_clk_id s clk_id) [
    | none ↦ 0
    | some i ↦
        if not (check_clk_initialised s i)
        then 0
        else if not (check_is_owner s i client)
        then 0
        else sys.clk_get_freq s.hw (entry_at s i).clk
  ]

  unfoldable pub set_freq_at : ℕ → ℕ → ℕ → ClockServer Hw → ℕ × ClockServer Hw
  set_freq_at client i hz s =
      let (freq, hw) = sys.clk_set_freq s.hw (entry_at s i).clk hz in
      if not (check_clk_initialised s i)
      then (0, s)
      else if not (check_is_owner s i client)
      then (0, s)
      else (freq, record s { hw = hw })

  unfoldable pub set_freq : ℕ → ℤ → ℕ → ClockServer Hw → ℕ × ClockServer Hw
  set_freq client clk_id hz s = elim (check_valid_clk_id s clk_id) [
    | none ↦ (0, s)
    | some i ↦ set_freq_at client i hz s
  ]

  unfoldable pub register_entries : ℕ → ℕ → ℕ → ClockServer Hw → ℤ × ClockServer Hw
  register_entries client parent child s =
      let hw = sys.clk_register_child s.hw (entry_at s parent).clk (entry_at s child).clk in
      if not (check_clk_initialised s parent)
      then (minus_eperm, s)
      else if not (check_is_owner s parent client)
      then (minus_eperm, s)
      else if not (check_clk_initialised s child)
      then (minus_eperm, s)
      else if not (check_is_owner s child client)
      then (minus_eperm, s)
      else (success, record s { hw = hw })

  unfoldable pub register_child : ℕ → ℤ → ℤ → ClockServer Hw → ℤ × ClockServer Hw
  register_child client parent child s = elim (check_valid_clk_id s parent) [
    | none ↦ (minus_einval, s)
    | some p ↦ elim (check_valid_clk_id s child) [
      | none ↦ (minus_einval, s)
      | some c ↦ register_entries client p c s
    ]
  ]
