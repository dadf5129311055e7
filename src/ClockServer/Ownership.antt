-- ===== src/ClockServer/Ownership.antt =====
-- components/ClockServer/src/clock_server.c: who may use a clock.
use global_components.Errno.{success, minus_ebusy}
use global_components.Prelude.{
  ℕ, ◌≡◌, ◌≢◌, inl, inr, true, Option, List, [], ◌∷◌, arith, ◌==◌, Bool-cases, get_or-set_ne, ◌<◌,
  ◌↔◌, false, some, Option-cases, length, get_or-set_self,
}
use global_components.Prelude.Int.{ℤ, pos}
use global_components.ClockServer.Server.{
  ClockSys, ClockEntry, ClockServer, blank_entry, entry_at, init_entry, init_clock, set_gate_mode,
  set_freq, register_child, set_freq_at, register_entries, check_valid_clk_id, get_freq,
}

-- What a client may ask for that changes something.
pub data Call : Type 0 where
  init : ℤ → Call
  gate_mode : ℤ → ℤ → Call
  freq : ℤ → ℕ → Call
  child : ℤ → ℤ → Call

-- `client` holds clock `i`, which the library has named `clk`.
abbrev pub Owns : {Hw : Type 0} → ClockServer Hw → ℕ → ℕ → Option ℕ → Type 0
Owns s i client clk =
    ((entry_at s i).initialised ≡ true)
    × ((entry_at s i).owner ≡ client)
    × ((entry_at s i).clk ≡ clk)

module _ {Hw : Type 0} (sys : ClockSys Hw) where
  unfoldable pub call : ℕ → Call → ClockServer Hw → ClockServer Hw
  call client (init i) s = (init_clock sys client i s).1
  call client (gate_mode g m) s = (set_gate_mode sys g m s).1
  call client (freq i hz) s = (set_freq sys client i hz s).1
  call client (child p c) s = (register_child sys client p c s).1

  unfoldable pub calls : List (ℕ × Call) → ClockServer Hw → ClockServer Hw
  calls [] s = s
  calls ((client, c) ∷ cs) s = calls cs (call client c s)

  init_entry-Owns :
      (other j : ℕ) (s : ClockServer Hw) (i client : ℕ) (clk : Option ℕ)
      → Owns s i client clk
      → Owns (init_entry sys other j s).1 i client clk
  unfolding init_entry
  init_entry-Owns other j s i client clk o = elim (Bool-cases (j == i)) [
    | inl e ↦ let one : j ≡ i = ground arith in rw one (ground arith)
    | inr e ↦
        let ne : j ≢ i = ground arith in
        let kept = λ (v : ClockEntry). get_or-set_ne s.clock_table j i v blank_entry ne in
        let clk' = (sys.get_clock s.hw j).0 in
        ground (
          arith,
          kept (record (entry_at s j) { clk = clk' }),
          kept (record { initialised = true; owner = other; clk = clk' }),
          o,
        )
  ]

  call-Owns :
      (other : ℕ) (c : Call) (s : ClockServer Hw) (i client : ℕ) (clk : Option ℕ)
      → Owns s i client clk
      → Owns (call other c s) i client clk
  unfolding call init_clock set_gate_mode set_freq set_freq_at register_child register_entries
  call-Owns other (init j) s i client clk o = elim (Option-cases (check_valid_clk_id s j)) [
    | inl e ↦ rw (e, call, init_clock) o
    | inr (k, e) ↦ rw (e, call, init_clock) (init_entry-Owns other k s i client clk o)
  ]
  call-Owns other (gate_mode g m) s i client clk o = o
  call-Owns other (freq j hz) s i client clk o = ground arith
  call-Owns other (child p c) s i client clk o = ground arith

  -- Once a client holds a clock it keeps it, whatever any clients ask for.
  pub clock_calls-Owns :
      (cs : List (ℕ × Call)) (s : ClockServer Hw) (i client : ℕ) (clk : Option ℕ)
      → Owns s i client clk
      → Owns (calls cs s) i client clk
  unfolding calls
  clock_calls-Owns [] s i client clk o = o
  clock_calls-Owns ((other, c) ∷ cs) s i client clk o =
      clock_calls-Owns cs (call other c s) i client clk (call-Owns other c s i client clk o)

  -- What the holder of a clock of the table gets and any other client does not: the clock itself on
  -- another `init_clock`, and to read and set its frequency. A refused call changes nothing.
  pub clock_access :
      (s : ClockServer Hw) (i client other hz : ℕ) (clk : Option ℕ)
      → i < length s.clock_table
      → other ≢ client
      → Owns s i client clk
      → (init_clock sys client (pos i) s ≡ (success, s))
        × (init_clock sys other (pos i) s ≡ (minus_ebusy, s))
        × (get_freq sys client (pos i) s ≡ sys.clk_get_freq s.hw clk)
        × (get_freq sys other (pos i) s ≡ 0)
        × (set_freq sys client (pos i) hz s ≡ (
          (sys.clk_set_freq s.hw clk hz).0,
          record s { hw = (sys.clk_set_freq s.hw clk hz).1 },
        ))
        × (set_freq sys other (pos i) hz s ≡ (0, s))
  unfolding init_clock init_entry check_valid_clk_id get_freq set_freq set_freq_at
  clock_access s i client other hz clk hi ne o =
      (ground arith, ground arith, ground arith, ground arith, ground arith, ground arith)

  -- A clock of the table that nobody holds goes to the client that asks for it, if the library has
  -- it.
  pub init_clock-Owns :
      (s : ClockServer Hw) (i client clk : ℕ)
      → i < length s.clock_table
      → (entry_at s i).initialised ≡ false
      → (sys.get_clock s.hw i).0 ≡ some clk
      → let (error, t) = init_clock sys client (pos i) s in
        (error ≡ success) × Owns t i client (some clk)
  unfolding init_clock init_entry check_valid_clk_id
  init_clock-Owns s i client clk hi free e =
      let taken : ClockEntry = record {
        initialised = true;
        owner = client;
        clk = (sys.get_clock s.hw i).0;
      } in
      ground (arith, get_or-set_self s.clock_table i taken blank_entry hi)

  -- A client can make one clock of the table the child of another exactly if it holds both.
  pub register_child_access :
      (s : ClockServer Hw) (client p c : ℕ)
      → p < length s.clock_table
      → c < length s.clock_table
      → (let (error, t) = register_child sys client (pos p) (pos c) s in error ≡ success)
        ↔ (Owns s p client (entry_at s p).clk × Owns s c client (entry_at s c).clk)
  unfolding register_child register_entries check_valid_clk_id
  register_child_access s client p c hp hc = (λ e. ground arith, λ o. ground arith)
