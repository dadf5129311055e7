-- ===== src/Tests/Serial.antt =====
-- The serial server with two clients, the first of which has the input.
use global_components.SerialServer.Lines.{flush_all_lines_done}
use global_components.SerialServer.Overflow.{internal_putchar_overflow, append_char_overflow}
use global_components.SerialServer.Writing.{internal_putchar-written}
use global_components.SerialServer.Typing.{
  typed, IsRing, in_state, unread, raw_put_lem, text_state, ends_at_start,
}
use global_components.SerialServer.Delivering.{handle_chars-typed}
use global_components.SerialServer.Giving.{has_input, getchar_client_at}
use global_components.SerialServer.Output.{
  find_char, flush_all_lines, flush_lines, flush_round, flush_buffer_line, line_length,
  flush_buffer, print_line, select_colour, total_used,
}
use global_components.SerialServer.Input.{raw_put, handle_chars}
use global_components.SerialServer.Putchar.{
  internal_putchar, append_char, store_byte, after_append, prints_at_once,
}
use global_components.Prelude.{
  ℕ, none, ◌∷◌, replicate, true, length, [], ◌≡◌, if◌then◌else◌, false, some, arith, ◌==◌, ◌++◌,
  length-replicate, refl, ap, get_or-replicate, List, ◌⊎◌, ◌≤◌,
}
use global_components.SerialServer.State.{
  Serial, has_colour, GetcharClient, line_start, buffer_at, cr, lf, print_chars, char, colour,
}
use global_components.SerialServer.Transcript.{IsTracked, written, current}

abbrev reader : GetcharClient
reader = record {
  client_id = 1;
  buf = record { head = 4087; tail = 4087; buf = replicate 4088 0 };
  last_head = 0;
}

abbrev desk : Serial
desk = record {
  last_out = none;
  output_buffers = replicate 24 [];
  output_buffer_bitmask = replicate 16 false;
  done_output = false;
  has_data = false;
  has_getchar = true;
  getchar_clients = reader ∷ reader ∷ [];
  active_client = some 0;
  active_multiclients = replicate 32 false;
  statemachine = line_start;
  debug = 0;
  out = [];
  emitted = [];
}

desk-IsTracked : IsTracked desk
unfolding current
desk-IsTracked = record { streams = refl; last = tt; agrees = refl }

-- A stream that ends its line is printed at once.
hello :
    (internal_putchar 3 lf (internal_putchar 3 cr (internal_putchar 3 b'a' desk))).out
    ≡ char lf ∷ char cr ∷ char b'a' ∷ colour 0 3 ∷ []
unfolding internal_putchar append_char store_byte after_append prints_at_once flush_buffer
    select_colour print_chars
hello = refl

internal_putchar-written_example :
    IsTracked (internal_putchar 3 b'a' desk)
    × ((d : ℕ) → length (buffer_at (internal_putchar 3 b'a' desk) d) ≤ 4096)
    × ((d : ℕ)
        → has_colour d ≡ true
        → written d (internal_putchar 3 b'a' desk)
          ≡ (if 3 == d then written d desk ++ b'a' ∷ [] else written d desk))
internal_putchar-written_example =
    internal_putchar-written 3 b'a' 0 desk (omega arith) refl
      (λ d. omega (arith, ap length (get_or-replicate {A = List ℕ} 24 d []))) (omega arith)
      desk-IsTracked

-- Two lines and a half wait.
abbrev busy : Serial
busy = record desk {
  output_buffers = (b'a' ∷ lf ∷ b'b' ∷ []) ∷ (cr ∷ lf ∷ []) ∷ replicate 22 [];
  has_data = true;
}

flush_all_lines_done_example :
    let line = buffer_at (flush_all_lines busy).1 0 in
    (find_char cr line ≡ none) × (find_char lf line ≡ none)
flush_all_lines_done_example = flush_all_lines_done busy 0 (omega arith)

flush_busy : buffer_at (flush_all_lines busy).1 0 ≡ b'b' ∷ []
unfolding flush_all_lines flush_lines flush_round flush_buffer_line line_length print_line
    select_colour total_used
flush_busy = refl

-- One byte is free.
abbrev crowded : Serial
crowded = record desk { output_buffers = replicate 4095 b'a' ∷ replicate 23 [] }

internal_putchar_overflow_example : length (buffer_at (internal_putchar 0 b'b' crowded) 0) ≡ 4096
unfolding find_char
internal_putchar_overflow_example =
    internal_putchar_overflow 0 b'b' 0 crowded (omega arith) refl
      (length-replicate {A = ℕ} 4095 b'a') refl refl

-- Stream 0 is full, and a byte waits for stream 1.
abbrev overrun : Serial
overrun = record desk {
  output_buffers = replicate 4096 b'a' ∷ (b'z' ∷ b'y' ∷ []) ∷ replicate 22 [];
}

append_char_overflow_example :
    (buffer_at (append_char 0 b'b' overrun) 1 ≡ b'b' ∷ b'y' ∷ [])
    × (length (buffer_at (append_char 0 b'b' overrun) 0) ≡ 4097)
append_char_overflow_example =
    append_char_overflow 0 b'b' b'z' (b'y' ∷ []) overrun (omega arith)
      (length-replicate {A = ℕ} 4096 b'a') refl

reader-IsRing : IsRing reader.buf
reader-IsRing = record {
  room = length-replicate {A = ℕ} 4088 0;
  head_in = omega arith;
  tail_in = omega arith;
}

raw_put_lem_example :
    let (k, out) = raw_put reader b'x' in
    IsRing k.buf
    × (unread k.buf ≡ b'x' ∷ [])
    × (out ≡ 1 ∷ [])
    × (k.last_head ≡ 4087)
    × (k.buf.head ≡ 4087)
    × (k.client_id ≡ 1)
    × ((raw_put k b'y').1 ≡ [])
raw_put_lem_example = raw_put_lem reader b'x' b'y' reader-IsRing

-- Client 0 has the input.
handle_chars-typed_example :
    let t = handle_chars (typed true (b'@' ∷ b'm' ∷ [])) (in_state line_start desk) in
    (((has_input 0 desk ≡ true) × (unread (getchar_client_at t 0).buf ≡ b'@' ∷ b'm' ∷ []))
      ⊎ ((has_input 0 desk ≡ false) × (getchar_client_at t 0 ≡ getchar_client_at desk 0)))
    × (t.statemachine ≡ text_state (ends_at_start true (b'@' ∷ b'm' ∷ [])))
handle_chars-typed_example =
    handle_chars-typed true (b'@' ∷ b'm' ∷ []) desk 0 refl (omega arith) reader-IsRing (omega arith)

typed_escape : typed true (b'@' ∷ b'm' ∷ []) ≡ b'@' ∷ b'@' ∷ b'm' ∷ []
unfolding typed
typed_escape = refl
