-- ===== src/SerialServer/Output.antt =====
-- components/SerialServer/src/serial.c: `flush_buffer`, `flush_buffer_line`, `try_coalesce_output`.
use global_components.Prelude.{
  ℕ, zero, suc, ◌+◌, Bool, true, false, ◌&&◌, ◌||◌, Option, none, some, List, [], ◌∷◌, ◌++◌, ltb,
  ◌==◌, if◌then◌else◌, length, get_or, set, take, drop,
}
use global_components.SerialServer.State.{
  Serial, colour, colour_reset, buffer_at, colour_index_to_style, colour_index_to_slot, print_chars,
  cr, lf, max_buffers, Printed,
}

-- `if (b != last_out) …`. Outside the table of colours the place is kept that is read.
unfoldable pub select_colour : ℕ → Serial → Serial
select_colour b s =
    let change = record s {
      out = colour (colour_index_to_style b) (colour_index_to_slot b) ∷ s.out;
      last_out = some b;
    } in
    elim s.last_out [ none ↦ change | some l ↦ if l == b then s else change ]

unfoldable pub flush_buffer : ℕ → Serial → Serial
flush_buffer b s = elim (buffer_at s b) [
  | [] ↦ s
  | c ∷ cs ↦
      let t = select_colour b s in
      record t {
        out = print_chars (c ∷ cs) t.out;
        done_output = true;
        output_buffers = set t.output_buffers b [];
        output_buffer_bitmask = set t.output_buffer_bitmask b false;
      }
]

-- `memchr`: the first place of a byte.
unfoldable pub find_char : ℕ → List ℕ → Option ℕ
find_char c [] = none
find_char c (x ∷ xs) =
    let later : Option ℕ = elim (find_char c xs) [ none ↦ none | some i ↦ some (i + 1) ] in
    if x == c then some 0 else later

abbrev pub is_line_end : ℕ → Bool
is_line_end c = c == lf || c == cr

-- How many bytes `flush_buffer_line` prints: up to the first CR, or else the first LF, and one more
-- byte where that is CR or LF.
unfoldable pub line_length : List ℕ → Option ℕ
unfolding find_char
line_length xs =
    let with_next = λ (i : ℕ).
      let length' = i + 1 in
      if ltb length' (length xs) && is_line_end (get_or xs length' 0)
      then length' + 1
      else length' in
    elim (find_char cr xs) [
      | some i ↦ some (with_next i)
      | none ↦ elim (find_char lf xs) [ some i ↦ some (with_next i) | none ↦ none ]
    ]

-- The bytes that stay move to the front.
unfoldable pub print_line : ℕ → ℕ → Serial → Serial
print_line b n s =
    let line = buffer_at s b in
    let t = select_colour b s in
    let rest = drop n line in
    record t {
      out = print_chars (take n line) t.out;
      output_buffers = set t.output_buffers b rest;
      output_buffer_bitmask =
          if length rest == 0 then set t.output_buffer_bitmask b false else t.output_buffer_bitmask;
    }

-- The result says whether a line was printed.
unfoldable pub flush_buffer_line : ℕ → Serial → Bool × Serial
flush_buffer_line b s = elim (line_length (buffer_at s b)) [
  | none ↦ (false, s)
  | some n ↦ (true, print_line b n s)
]

-- for (i = first; n rounds; i++) if (flush_buffer_line(i)) hit = 1;
unfoldable pub flush_round : ℕ → ℕ → Bool × Serial → Bool × Serial
flush_round i zero (hit, s) = (hit, s)
flush_round i (suc n) (hit, s) =
    let (h, t) = flush_buffer_line i s in flush_round (i + 1) n (hit || h, t)

-- The loop `while (!is_done)` on fuel, with whether any line was printed.
unfoldable pub flush_lines : ℕ → Bool × Serial → Bool × Serial
flush_lines zero (hit, s) = (hit, s)
flush_lines (suc fuel) (hit, s) =
    let (h, t) = flush_round 0 max_buffers (false, s) in
    elim h [ true ↦ flush_lines fuel (true, t) | false ↦ (hit, t) ]

-- How many bytes wait in all.
unfoldable pub total_used : List (List ℕ) → ℕ
total_used [] = 0
total_used (b ∷ bs) = length b + total_used bs

-- Each round of the loop that goes on prints a byte, so this fuel is enough.
unfoldable pub flush_all_lines : Serial → Bool × Serial
flush_all_lines s = flush_lines (total_used s.output_buffers + 1) (false, s)

-- for (i = first; n rounds; i++) if (i != but) flush_buffer(i);
unfoldable pub flush_others : Option ℕ → ℕ → ℕ → Serial → Serial
flush_others but i zero s = s
flush_others but i (suc n) s =
    let t : Serial = elim but [
      | none ↦ flush_buffer i s
      | some b ↦ if i == b then s else flush_buffer i s
    ] in
    flush_others but (i + 1) n t

-- What `try_coalesce_output` returns: -1, 0 and 1.
pub data Coalesced : Type 0 where
  differ coalesced buffering : Coalesced

-- The state of its first loop: `length`, and `used` from its first entry on.
pub record Scan : Type 0 where
  pub length' : ℕ
  pub used : List ℕ

unfoldable pub same_prefix : ℕ → List ℕ → List ℕ → Bool
same_prefix zero xs ys = true
same_prefix (suc n) [] ys = true
same_prefix (suc n) (x ∷ xs) [] = true
same_prefix (suc n) (x ∷ xs) (y ∷ ys) = x == y && same_prefix n xs ys

-- The first loop from buffer `i` on; `none` is the early return of -1.
unfoldable pub scan_buffers : List (List ℕ) → ℕ → ℕ → Scan → Option Scan
scan_buffers bufs i zero k = some k
scan_buffers bufs i (suc n) k =
    let line = get_or bufs i [] in
    let used = k.used ++ i ∷ [] in
    let shortest =
      if k.length' == 0 || ltb (length line) k.length' then length line else k.length' in
    let matches =
      if ltb 1 (length used)
      then same_prefix shortest (get_or bufs (get_or used 0 0) []) line
      else true in
    let skip = scan_buffers bufs (i + 1) n k in
    let go_on = scan_buffers bufs (i + 1) n (record { length' = shortest; used = used }) in
    if ltb 0 (length line) then (if matches then go_on else none) else skip

-- The loop that takes the printed bytes out of each used buffer.
unfoldable pub drop_printed : ℕ → List ℕ → Serial → Serial
drop_printed n [] s = s
drop_printed n (i ∷ is) s =
    let rest = drop n (buffer_at s i) in
    drop_printed n is (record s {
      output_buffers = set s.output_buffers i rest;
      output_buffer_bitmask =
          if length rest == 0 then set s.output_buffer_bitmask i false else s.output_buffer_bitmask;
    })

-- `mask != 0`
unfoldable pub any_bit : List Bool → Bool
any_bit [] = false
any_bit (b ∷ bs) = b || any_bit bs

unfoldable pub print_common : Scan → Serial → Serial
print_common k s =
    let start : List Printed = elim s.last_out [ none ↦ s.out | some l ↦ colour_reset ∷ s.out ] in
    let common = take k.length' (buffer_at s (get_or k.used 0 0)) in
    let t =
      drop_printed k.length' k.used
        (record s { out = print_chars common start; last_out = none }) in
    record t { has_data = if any_bit t.output_buffer_bitmask then true else t.has_data }

unfoldable pub try_coalesce_output : Serial → Coalesced × Serial
try_coalesce_output s =
    elim (scan_buffers s.output_buffers 0 max_buffers (record { length' = 0; used = [] })) [
      | none ↦ (differ, s)
      | some k ↦
          if ltb 1 (length k.used) && ltb 0 k.length'
          then (coalesced, print_common k s)
          else (buffering, s)
    ]
