-- ===== src/SerialServer/Putchar.antt =====
-- components/SerialServer/src/serial.c: `internal_putchar`, the entry points that call it, and
-- `timer_callback`. The lock makes each of them one step.
use global_components.Prelude.{
  ℕ, zero, suc, ◌+◌, ◌-◌, ◌%◌, Bool, true, false, not, ◌&&◌, ◌||◌, none, some, [], ◌∷◌, ◌++◌, leb,
  ◌==◌, if◌then◌else◌, length, get_or, set, ◌*◌, List,
}
use global_components.SerialServer.State.{
  Serial, GetcharBuffer, buffer_at, client_output_buffer_size, max_buffers, max_clients, cr, lf,
  getchar_buf_size,
}
use global_components.SerialServer.Output.{
  Coalesced, differ, coalesced, buffering, select_colour, flush_buffer, flush_buffer_line,
  flush_all_lines, flush_others, any_bit, try_coalesce_output,
}

unfoldable pub is_newline : ℕ → ℕ → Bool
is_newline a b = (a == cr && b == lf) || (a == lf && b == cr)

-- The branch for a full buffer.
unfoldable pub make_room : ℕ → Serial → Serial
make_room b s =
    let s1 : Serial = elim s.last_out [ none ↦ s | some prev ↦ (flush_buffer_line prev s).1 ] in
    let s2 = (flush_all_lines s1).1 in
    let s3 =
      if length (buffer_at s2 b) == client_output_buffer_size
      then flush_others (some b) 0 max_buffers s2
      else s2 in
    select_colour b s3

unfoldable pub is_mismatch : Coalesced → Bool
is_mismatch differ = true
is_mismatch coalesced = false
is_mismatch buffering = false

-- `last_out == b`
unfoldable pub is_last : ℕ → Serial → Bool
is_last b s = elim s.last_out [ none ↦ false | some l ↦ l == b ]

-- Whether stream `b` may print at once. The buffer held `index` bytes before, and `status` is the
-- result of the coalescing: a failed attempt leaves the buffer as it was, and after any other the
-- test for a newline does not matter.
unfoldable pub prints_at_once : ℕ → ℕ → Coalesced → Serial → Bool
unfolding is_newline is_mismatch is_last
prints_at_once b index status s =
    let line = buffer_at s b in
    (leb 1 index
      && is_newline (get_or line (index - 1) 0) (get_or line index 0)
      && is_mismatch status)
    || (is_last b s && not (any_bit s.output_buffer_bitmask) && is_mismatch status)

-- The rest of `internal_putchar`.
unfoldable pub after_append : ℕ → ℕ → Coalesced → Serial → Serial
after_append b index status s =
    let t =
      if length (buffer_at s b) == client_output_buffer_size
      then make_room b s
      else if prints_at_once b index status s
      then flush_buffer b s
      else record s { output_buffer_bitmask = set s.output_buffer_bitmask b true } in
    record t { has_data = true }

-- The write of `v` at the place `p` of all arrays, row after row, as each stream from `i` on sees it
-- that has this place in use.
unfoldable pub store_byte : ℕ → ℕ → ℕ → List (List ℕ) → List (List ℕ)
store_byte i p v [] = []
store_byte i p v (line ∷ lines) =
    let start = i * client_output_buffer_size in
    (if leb start p then set line (p - start) v else line) ∷ store_byte (i + 1) p v lines

-- `buffer[index] = (uint8_t)c; output_buffers_used[b]++`. From index 4096 on the byte lies in the array
-- of a stream behind.
unfoldable pub append_char : ℕ → ℕ → Serial → Serial
append_char b c s =
    let place = b * client_output_buffer_size + length (buffer_at s b) in
    let stored = store_byte 0 place (c % 256) s.output_buffers in
    record s { output_buffers = set stored b (buffer_at s b ++ (c % 256) ∷ []) }

unfoldable pub internal_putchar : ℕ → ℕ → Serial → Serial
internal_putchar b c s =
    let index = length (buffer_at s b) in
    let t = append_char b c s in
    elim s.active_client [
      | none ↦ let (status, u) = try_coalesce_output t in after_append b index status u
      | some a ↦ after_append b index differ t
    ]

-- `n` is the sender's id.
unfoldable pub processed_putchar : ℕ → ℕ → Serial → Serial
processed_putchar n c s = internal_putchar n c (if c == lf then internal_putchar n cr s else s)

unfoldable pub raw_putchar : ℕ → ℕ → Serial → Serial
raw_putchar n c s = internal_putchar (n + max_clients) c s

-- The loop of `raw_batch_batch` and `processed_batch_batch` on fuel: `put` is the body's call.
unfoldable pub drain : (ℕ → Serial → Serial) → ℕ → GetcharBuffer → Serial → GetcharBuffer × Serial
drain put zero q s = (q, s)
drain put (suc fuel) q s =
    let c = get_or q.buf q.head 0 in
    let rest = drain put fuel (record q { head = (q.head + 1) % getchar_buf_size }) (put c s) in
    if q.head == q.tail then (q, s) else rest

-- At most `getchar_buf_size` bytes wait, so this fuel is enough.
unfoldable pub raw_batch : ℕ → GetcharBuffer → Serial → GetcharBuffer × Serial
raw_batch n q s = drain (raw_putchar n) getchar_buf_size q s

unfoldable pub processed_batch : ℕ → GetcharBuffer → Serial → GetcharBuffer × Serial
processed_batch n q s = drain (processed_putchar n) getchar_buf_size q s

-- Every 500 ms.
unfoldable pub timer_callback : Serial → Serial
timer_callback s =
    let (succeeded, t) = flush_all_lines s in
    if s.done_output
    then record s { done_output = false }
    else if s.has_data
    then (if succeeded then t else flush_others none 0 max_buffers t)
    else s
