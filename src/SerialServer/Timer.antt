-- ===== src/SerialServer/Timer.antt =====
-- components/SerialServer/src/serial.c: what `timer_callback` prints.
use global_components.Prelude.{ℕ, ◌<◌, ◌≡◌, ◌≢◌, true, false, none, []}
use global_components.SerialServer.State.{Serial, buffer_at, cr, lf}
use global_components.SerialServer.Output.{find_char, line_length}

-- What the timer does: nothing but clearing `done_output` where something was printed since the last
-- time, nothing where nothing waits, and else it prints all complete lines, or, if there is none, all
-- that waits.
pub data Timed (s t : Serial) : Type 0 where
  recent : s.done_output ≡ true → t ≡ record s { done_output = false } → Timed s t
  idle : s.done_output ≡ false → s.has_data ≡ false → t ≡ s → Timed s t
  lines :
      (b : ℕ)
      → s.done_output ≡ false
      → s.has_data ≡ true
      → b < 24
      → line_length (buffer_at s b) ≢ none
      → ((d : ℕ)
          → d < 24
          → (find_char cr (buffer_at t d) ≡ none) × (find_char lf (buffer_at t d) ≡ none))
      → Timed s t
  everything :
      s.done_output ≡ false
      → s.has_data ≡ true
      → ((d : ℕ) → d < 24 → buffer_at t d ≡ [])
      → Timed s t
