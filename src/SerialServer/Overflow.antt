-- ===== src/SerialServer/Overflow.antt =====
-- components/SerialServer/src/serial.c: what happens to a stream that fills its buffer without
-- ending a line.
use global_components.Prelude.{
  ℕ, zero, suc, ◌+◌, ◌%◌, ◌<◌, ◌≡◌, refl, ap, ◌∙◌, ◌≢◌, inl, inr, Bool, true, false, Option, none,
  some, List, [], ◌∷◌, ◌++◌, arith, ◌==◌, ==_iff, Bool-cases, Option-cases, length, get_or, set,
  length-append, get_or-set_self, get_or-set_ne, ◌*◌, ◌-◌, leb,
}
use global_components.SerialServer.State.{Serial, buffer_at, cr, lf, client_output_buffer_size}
use global_components.SerialServer.Output.{
  select_colour, find_char, line_length, print_line, flush_buffer, flush_buffer_line, flush_round,
  flush_lines, flush_all_lines, flush_others, total_used,
}
use global_components.SerialServer.Putchar.{
  make_room, after_append, append_char, internal_putchar, store_byte,
}
use global_components.SerialServer.Storing.{length-store_byte, get_or-store_byte}
use global_components.SerialServer.Lines.{output_buffers-select_colour, line_length-eq-none}

-- Stream `b` keeps its buffer.
abbrev Same : ℕ → Serial → Serial → Type 0
Same b s t = buffer_at t b ≡ buffer_at s b

buffer_at-select_colour : (b d : ℕ) (s : Serial) → Same b s (select_colour d s)
buffer_at-select_colour b d s =
    ap (λ (bs : List (List ℕ)). get_or bs b []) (output_buffers-select_colour d s)

pub flush_buffer_ne : (b i : ℕ) (s : Serial) → i ≢ b → Same b s (flush_buffer i s)
unfolding flush_buffer
flush_buffer_ne b i s ne = go (buffer_at s i) refl
  where
    go : (line : List ℕ) → buffer_at s i ≡ line → Same b s (flush_buffer i s)
    go [] e = rw (e, flush_buffer)
    go (c ∷ cs) e =
        rw (e, flush_buffer)
          (get_or-set_ne (select_colour i s).output_buffers i b [] [] ne
            ∙ buffer_at-select_colour b i s)

-- A buffer with no complete line is left alone.
flush_buffer_line_lineless :
    (b i : ℕ) (s : Serial) → line_length (buffer_at s b) ≡ none → Same b s (flush_buffer_line i s).1
unfolding flush_buffer_line print_line
flush_buffer_line_lineless b i s h = elim (Option-cases (line_length (buffer_at s i))) [
  | inl e ↦ rw (e, flush_buffer_line)
  | inr (n, e) ↦ elim (Bool-cases (i == b)) [
    | inl z ↦ let one : i ≡ b = ground arith in absurd (let p = rw one at e in ground arith)
    | inr z ↦
        let ne : i ≢ b = ground arith in
        rw (e, flush_buffer_line)
          (get_or-set_ne (select_colour i s).output_buffers i b _ [] ne
            ∙ buffer_at-select_colour b i s)
  ]
]

flush_round_lineless :
    (b i n : ℕ) (hit : Bool) (s : Serial)
    → line_length (buffer_at s b) ≡ none
    → Same b s (flush_round i n (hit, s)).1
unfolding flush_round
flush_round_lineless b i zero hit s h = refl
flush_round_lineless b i (suc n) hit s h =
    let t = (flush_buffer_line i s).1 in
    let step = flush_buffer_line_lineless b i s h in
    flush_round_lineless b (i + 1) n _ t (ap line_length step ∙ h) ∙ step

flush_lines_lineless :
    (b fuel : ℕ) (hit : Bool) (s : Serial)
    → line_length (buffer_at s b) ≡ none
    → Same b s (flush_lines fuel (hit, s)).1
unfolding flush_lines
flush_lines_lineless b zero hit s h = refl
flush_lines_lineless b (suc fuel) hit s h =
    let t = (flush_round 0 24 (false, s)).1 in
    let step = flush_round_lineless b 0 24 false s h in
    elim (Bool-cases (flush_round 0 24 (false, s)).0) [
      | inl e ↦
          rw (e, flush_lines) (flush_lines_lineless b fuel true t (ap line_length step ∙ h) ∙ step)
      | inr e ↦ rw (e, flush_lines) step
    ]

flush_others_but : (b i n : ℕ) (s : Serial) → Same b s (flush_others (some b) i n s)
unfolding flush_others
flush_others_but b i zero s = refl
flush_others_but b i (suc n) s = elim (Bool-cases (i == b)) [
  | inl z ↦ rw (z, flush_others) (flush_others_but b (i + 1) n s)
  | inr z ↦
      let ne : i ≢ b = ground arith in
      rw (z, flush_others)
        (flush_others_but b (i + 1) n (flush_buffer i s) ∙ flush_buffer_ne b i s ne)
]

flush_last_lineless :
    (b : ℕ) (s : Serial) (last : Option ℕ)
    → line_length (buffer_at s b) ≡ none
    → Same b s (elim last [ none ↦ s | some prev ↦ (flush_buffer_line prev s).1 ])
flush_last_lineless b s none h = refl
flush_last_lineless b s (some prev) h = flush_buffer_line_lineless b prev s h

-- Making room for a stream that holds no complete line makes none.
make_room_lineless :
    (b : ℕ) (s : Serial) → line_length (buffer_at s b) ≡ none → Same b s (make_room b s)
unfolding make_room flush_all_lines
make_room_lineless b s h =
    let s1 : Serial = elim s.last_out [ none ↦ s | some prev ↦ (flush_buffer_line prev s).1 ] in
    let s2 = (flush_lines (total_used s1.output_buffers + 1) (false, s1)).1 in
    let e1 = flush_last_lineless b s s.last_out h in
    let e2 =
      flush_lines_lineless b (total_used s1.output_buffers + 1) false s1 (ap line_length e1 ∙ h) in
    elim (Bool-cases (length (buffer_at s2 b) == 4096)) [
      | inl full ↦ rw full (
          buffer_at-select_colour b b (flush_others (some b) 0 24 s2)
          ∙ flush_others_but b 0 24 s2
          ∙ e2
          ∙ e1)
      | inr room ↦ rw room (buffer_at-select_colour b b s2 ∙ e2 ∙ e1)
    ]

-- While one client has the input, a stream that fills its buffer without a CR or LF leaves it full,
-- so that its next byte is written at index 4096, one past the end of the array.
pub internal_putchar_overflow :
    (b c a : ℕ) (s : Serial)
    → b < length s.output_buffers
    → s.active_client ≡ some a
    → length (buffer_at s b) ≡ 4095
    → find_char cr (buffer_at s b ++ (c % 256) ∷ []) ≡ none
    → find_char lf (buffer_at s b ++ (c % 256) ∷ []) ≡ none
    → length (buffer_at (internal_putchar b c s) b) ≡ client_output_buffer_size
unfolding internal_putchar after_append append_char
internal_putchar_overflow b c a s hb e len no_cr no_lf =
    let line = buffer_at s b ++ (c % 256) ∷ [] in
    let stored = store_byte 0 (b * 4096 + length (buffer_at s b)) (c % 256) s.output_buffers in
    let t = record s { output_buffers = set stored b line } in
    let size = length-store_byte 0 (b * 4096 + length (buffer_at s b)) (c % 256) s.output_buffers in
    let here = get_or-set_self stored b line [] (omega (arith, size)) in
    let full : length line ≡ 4096 =
      omega (arith, length-append (buffer_at s b) ((c % 256) ∷ []), len) in
    let is_full : (length (buffer_at t b) == 4096) ≡ true =
      (==_iff _ _).1 (ap length here ∙ full) in
    let kept =
      make_room_lineless b t (ap line_length here ∙ (line_length-eq-none line).1 (no_cr, no_lf)) in
    rw (e, internal_putchar) (rw is_full (ap length kept ∙ ap length here ∙ full))

-- The byte that a stream with a full buffer writes next overwrites the first byte that waits for the next
-- stream, while its own count goes past the array.
pub append_char_overflow :
    (b c x : ℕ) (xs : List ℕ) (s : Serial)
    → suc b < length s.output_buffers
    → length (buffer_at s b) ≡ client_output_buffer_size
    → buffer_at s (suc b) ≡ x ∷ xs
    → (buffer_at (append_char b c s) (suc b) ≡ (c % 256) ∷ xs)
      × (length (buffer_at (append_char b c s) b) ≡ client_output_buffer_size + 1)
unfolding append_char
append_char_overflow b c x xs s hb full next =
    let line = buffer_at s b ++ (c % 256) ∷ [] in
    let p = b * 4096 + length (buffer_at s b) in
    let stored = store_byte 0 p (c % 256) s.output_buffers in
    let size = length-store_byte 0 p (c % 256) s.output_buffers in
    let away : b ≢ suc b = λ e. omega (arith, e) in
    let lands = get_or-store_byte 0 p (c % 256) (suc b) s.output_buffers in
    let reaches : leb ((0 + suc b) * 4096) p ≡ true = ground (arith, full) in
    let first : p - (0 + suc b) * 4096 ≡ 0 = omega (arith, full) in
    (
      get_or-set_ne stored b (suc b) line [] away ∙ lands ∙ rw (reaches, first, next) refl,
      ap length (get_or-set_self stored b line [] (omega (arith, size)))
          ∙ length-append (buffer_at s b) ((c % 256) ∷ [])
          ∙ omega (arith, full),
    )
