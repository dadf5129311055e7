-- ===== src/SerialServer/Lines.antt =====
-- components/SerialServer/src/serial.c: the loop that prints all complete lines ends, and what a
-- stream without a complete line keeps.
use global_components.Prelude.{
  ℕ, zero, suc, ◌+◌, ◌≤◌, ◌<◌, ◌≡◌, refl, ap, ◌↔◌, inl, inr, Bool, true, false, ◌||◌, none, some,
  List, [], ◌∷◌, arith, ltb, ◌==◌, ltb→lt, Bool-cases, Option-cases, length, get_or, set, drop,
  length-drop,
}
use global_components.SerialServer.State.{Serial, buffer_at, cr, lf}
use global_components.SerialServer.Output.{
  select_colour, find_char, line_length, print_line, flush_buffer_line, flush_round, total_used,
  flush_all_lines, flush_lines,
}

pub output_buffers-select_colour :
    (b : ℕ) (s : Serial) → (select_colour b s).output_buffers ≡ s.output_buffers
unfolding select_colour
output_buffers-select_colour b s = ground arith

find_char_lt : (c : ℕ) (xs : List ℕ) (i : ℕ) → find_char c xs ≡ some i → i < length xs
unfolding find_char
find_char_lt c [] i e = cc
find_char_lt c (x ∷ xs) i e = elim (Option-cases (find_char c xs)) [
  | inl none' ↦ ground arith
  | inr (j, f) ↦ ground (arith, find_char_lt c xs j f)
]

-- A complete line has a byte, and lies in the buffer.
line_length_bounds : (xs : List ℕ) (n : ℕ) → line_length xs ≡ some n → (0 < n) × (n ≤ length xs)
unfolding line_length
line_length_bounds xs n e = elim (Option-cases (find_char cr xs)) [
  | inr (i, f) ↦ ground (arith, find_char_lt cr xs i f)
  | inl f ↦ elim (Option-cases (find_char lf xs)) [
    | inr (i, g) ↦ ground (arith, find_char_lt lf xs i g)
    | inl g ↦ ground arith
  ]
]

-- No complete line means that there is no CR and no LF.
pub line_length-eq-none :
    (xs : List ℕ) → (line_length xs ≡ none) ↔ ((find_char cr xs ≡ none) × (find_char lf xs ≡ none))
unfolding line_length
line_length-eq-none xs = (λ e. ground arith, λ e. ground arith)

total_used-set :
    (bs : List (List ℕ)) (b : ℕ) (rest : List ℕ)
    → b < length bs
    → total_used (set bs b rest) + length (get_or bs b []) ≡ total_used bs + length rest
unfolding total_used
total_used-set [] b rest h = absurd (omega arith)
total_used-set (x ∷ bs) zero rest h = omega arith
total_used-set (x ∷ bs) (suc b) rest h = omega (arith, total_used-set bs b rest)

get_or_of_length-le : (bs : List (List ℕ)) (b : ℕ) → length bs ≤ b → get_or bs b [] ≡ []
get_or_of_length-le [] b h = refl
get_or_of_length-le (x ∷ bs) zero h = absurd (omega arith)
get_or_of_length-le (x ∷ bs) (suc b) h = get_or_of_length-le bs b (omega arith)

output_buffers-print_line :
    (b n : ℕ) (s : Serial)
    → (print_line b n s).output_buffers ≡ set s.output_buffers b (drop n (buffer_at s b))
unfolding print_line
output_buffers-print_line b n s =
    ap (λ bs. set bs b (drop n (buffer_at s b))) (output_buffers-select_colour b s)

-- A printed line leaves less to print.
total_used-print_line :
    (b n : ℕ) (s : Serial)
    → line_length (buffer_at s b) ≡ some n
    → total_used (print_line b n s).output_buffers < total_used s.output_buffers
total_used-print_line b n s e =
    let (lo, hi) = line_length_bounds (buffer_at s b) n e in
    let e' = ap total_used (output_buffers-print_line b n s) in
    let len = length-drop n (buffer_at s b) in
    elim (Bool-cases (ltb b (length s.output_buffers))) [
      | inl h ↦ omega (
        arith,
        e',
        len,
        total_used-set s.output_buffers b (drop n (buffer_at s b)) (ltb→lt _ _ h),
      )
      | inr h ↦
          absurd (omega (arith, ap length (get_or_of_length-le s.output_buffers b (ground arith))))
    ]

-- What a round does: less is left if it printed a line, and else nothing has changed and there was
-- no complete line.
pub record Round (i n : ℕ) (hit : Bool) (s : Serial) (r : Bool × Serial) : Type 0 where
  pub sticky : hit ≡ true → r.0 ≡ true
  pub le : total_used r.1.output_buffers ≤ total_used s.output_buffers
  pub less : hit ≡ false → r.0 ≡ true → total_used r.1.output_buffers < total_used s.output_buffers
  pub still : r.0 ≡ false → r.1 ≡ s
  pub clean : (b : ℕ) → r.0 ≡ false → i ≤ b → b < i + n → line_length (buffer_at s b) ≡ none

flush_round-Round : (i n : ℕ) (hit : Bool) (s : Serial) → Round i n hit s (flush_round i n (hit, s))
unfolding flush_round flush_buffer_line
flush_round-Round i zero hit s = record {
  sticky = λ h. h;
  le = omega arith;
  less = λ h k. cc;
  still = λ h. refl;
  clean = λ b h lo hi. absurd (omega arith);
}
flush_round-Round i (suc n) hit s = elim (Option-cases (line_length (buffer_at s i))) [
  | inl e ↦
      let r = flush_round-Round (i + 1) n (hit || false) s in
      rw (e, flush_round, flush_buffer_line)
        (record {
          sticky = λ h. r.sticky (ground arith);
          le = r.le;
          less = λ h k. r.less (ground arith) k;
          still = r.still;
          clean = λ b h lo hi. elim (Bool-cases (b == i)) [
            | inl z ↦ let here : b ≡ i = ground arith in rw here e
            | inr z ↦ r.clean b h (ground arith) (omega arith)
          ];
        })
  | inr (m, e) ↦
      let t = print_line i m s in
      let r = flush_round-Round (i + 1) n (hit || true) t in
      let hit' : (hit || true) ≡ true = ground arith in
      let lt = total_used-print_line i m s e in
      rw (e, flush_round, flush_buffer_line)
        (record {
          sticky = λ h. r.sticky hit';
          le = omega (arith, r.le);
          less = λ h k. omega (arith, r.le);
          still = λ h. let k = r.sticky hit' in cc;
          clean = λ b h lo hi. let k = r.sticky hit' in cc;
        })
]

-- With more fuel than bytes that wait, the loop ends because a round prints nothing.
flush_lines-clean :
    (fuel : ℕ) (hit : Bool) (s : Serial) (b : ℕ)
    → total_used s.output_buffers < fuel
    → b < 24
    → line_length (buffer_at (flush_lines fuel (hit, s)).1 b) ≡ none
unfolding flush_lines
flush_lines-clean zero hit s b h hb = absurd (omega arith)
flush_lines-clean (suc fuel) hit s b h hb =
    let r = flush_round-Round 0 24 false s in
    let t = (flush_round 0 24 (false, s)).1 in
    elim (Bool-cases (flush_round 0 24 (false, s)).0) [
      | inl e ↦
          rw (e, flush_lines) (flush_lines-clean fuel true t b (omega (arith, r.less refl e)) hb)
      | inr e ↦ rw (e, flush_lines) (rw (r.still e) (r.clean b e (omega arith) (omega arith)))
    ]

-- The loop that flushes lines always ends, and then no stream holds a complete line: no CR and no
-- LF waits in any of the 24 buffers.
pub flush_all_lines_done :
    (s : Serial) (b : ℕ)
    → b < 24
    → let line = buffer_at (flush_all_lines s).1 b in
      (find_char cr line ≡ none) × (find_char lf line ≡ none)
unfolding flush_all_lines
flush_all_lines_done s b hb =
    (line_length-eq-none _).0
      (flush_lines-clean (total_used s.output_buffers + 1) false s b (omega arith) hb)
