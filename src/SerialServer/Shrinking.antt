-- ===== src/SerialServer/Shrinking.antt =====
-- components/SerialServer/src/serial.c: the operations that print make no buffer longer.
use global_components.Prelude.{
  ℕ, zero, suc, ◌+◌, ◌≤◌, ◌≡◌, refl, ap, ◌∙◌, inl, inr, Bool, true, false, ◌||◌, Option, none, some,
  List, [], ◌∷◌, arith, ◌==◌, if◌then◌else◌, Bool-cases, Option-cases, length, get_or, set, drop,
  length-drop,
}
use global_components.SerialServer.State.{Serial, buffer_at}
use global_components.SerialServer.Output.{
  Coalesced, select_colour, flush_buffer, flush_buffer_line, print_line, line_length, flush_round,
  flush_lines, flush_all_lines, flush_others, total_used,
}
use global_components.SerialServer.Putchar.{make_room, after_append, prints_at_once}
use global_components.SerialServer.Lines.{output_buffers-select_colour}

pub Shrinks : Serial → Serial → Type 0
Shrinks s t = (d : ℕ) → length (buffer_at t d) ≤ length (buffer_at s d)

pub le_of_Shrinks :
    (s t : Serial) (d : ℕ)
    → Shrinks s t
    → length (buffer_at s d) ≤ 4096
    → length (buffer_at t d) ≤ 4096
unfolding Shrinks
le_of_Shrinks s t d h fit = omega (arith, h d)

Shrinks-refl : (s : Serial) → Shrinks s s
unfolding Shrinks
Shrinks-refl s d = omega arith

Shrinks-trans : (s t u : Serial) → Shrinks s t → Shrinks t u → Shrinks s u
unfolding Shrinks
Shrinks-trans s t u h k d = omega (arith, h d, k d)

length-get_or-set_le :
    (bs : List (List ℕ)) (b d : ℕ) (rest : List ℕ)
    → length rest ≤ length (get_or bs b [])
    → length (get_or (set bs b rest) d []) ≤ length (get_or bs d [])
length-get_or-set_le [] b d rest h = omega arith
length-get_or-set_le (x ∷ bs) zero zero rest h = h
length-get_or-set_le (x ∷ bs) zero (suc d) rest h = omega arith
length-get_or-set_le (x ∷ bs) (suc b) zero rest h = omega arith
length-get_or-set_le (x ∷ bs) (suc b) (suc d) rest h = length-get_or-set_le bs b d rest h

-- Buffer `b` is left with a part of what it had, after the colour has been selected.
set-Shrinks :
    (b c : ℕ) (s t : Serial) (rest : List ℕ)
    → t.output_buffers ≡ set (select_colour c s).output_buffers b rest
    → length rest ≤ length (buffer_at s b)
    → Shrinks s t
unfolding Shrinks
set-Shrinks b c s t rest e h d =
    let same = e ∙ ap (λ bs. set bs b rest) (output_buffers-select_colour c s) in
    rw (ap (λ (bs : List (List ℕ)). get_or bs d []) same)
      (length-get_or-set_le s.output_buffers b d rest h)

select_colour-Shrinks : (b : ℕ) (s : Serial) → Shrinks s (select_colour b s)
unfolding Shrinks
select_colour-Shrinks b s d =
    omega (
      arith,
      ap (λ (bs : List (List ℕ)). length (get_or bs d [])) (output_buffers-select_colour b s),
    )

flush_buffer-Shrinks : (b : ℕ) (s : Serial) → Shrinks s (flush_buffer b s)
unfolding flush_buffer
flush_buffer-Shrinks b s = go (buffer_at s b) refl
  where
    go : (line : List ℕ) → buffer_at s b ≡ line → Shrinks s (flush_buffer b s)
    go [] e = rw (e, flush_buffer) (Shrinks-refl s)
    go (c ∷ cs) e = rw (e, flush_buffer) (set-Shrinks b b s _ [] refl (omega arith))

flush_buffer_line-Shrinks : (b : ℕ) (s : Serial) → Shrinks s (flush_buffer_line b s).1
unfolding flush_buffer_line print_line
flush_buffer_line-Shrinks b s = elim (Option-cases (line_length (buffer_at s b))) [
  | inl e ↦ rw (e, flush_buffer_line) (Shrinks-refl s)
  | inr (n, e) ↦
      rw (e, flush_buffer_line)
        (set-Shrinks b b s _ (drop n (buffer_at s b)) refl
          (omega (arith, length-drop n (buffer_at s b))))
]

flush_round-Shrinks : (i n : ℕ) (hit : Bool) (s : Serial) → Shrinks s (flush_round i n (hit, s)).1
unfolding flush_round
flush_round-Shrinks i zero hit s = Shrinks-refl s
flush_round-Shrinks i (suc n) hit s =
    let t = (flush_buffer_line i s).1 in
    Shrinks-trans s t _ (flush_buffer_line-Shrinks i s)
      (flush_round-Shrinks (i + 1) n (hit || (flush_buffer_line i s).0) t)

flush_lines-Shrinks : (fuel : ℕ) (hit : Bool) (s : Serial) → Shrinks s (flush_lines fuel (hit, s)).1
unfolding flush_lines
flush_lines-Shrinks zero hit s = Shrinks-refl s
flush_lines-Shrinks (suc fuel) hit s =
    let t = (flush_round 0 24 (false, s)).1 in
    let step = flush_round-Shrinks 0 24 false s in
    elim (Bool-cases (flush_round 0 24 (false, s)).0) [
      | inl e ↦ rw (e, flush_lines) (Shrinks-trans s t _ step (flush_lines-Shrinks fuel true t))
      | inr e ↦ rw (e, flush_lines) step
    ]

flush_all_lines-Shrinks : (s : Serial) → Shrinks s (flush_all_lines s).1
unfolding flush_all_lines
flush_all_lines-Shrinks s = flush_lines-Shrinks (total_used s.output_buffers + 1) false s

flush_others_but-Shrinks : (b i n : ℕ) (s : Serial) → Shrinks s (flush_others (some b) i n s)
unfolding flush_others
flush_others_but-Shrinks b i zero s = Shrinks-refl s
flush_others_but-Shrinks b i (suc n) s = elim (Bool-cases (i == b)) [
  | inl e ↦ rw e (flush_others_but-Shrinks b (i + 1) n s)
  | inr e ↦ rw e (
      Shrinks-trans s (flush_buffer i s) _ (flush_buffer-Shrinks i s)
        (flush_others_but-Shrinks b (i + 1) n (flush_buffer i s)))
]

flush_last-Shrinks :
    (s : Serial) (last : Option ℕ)
    → Shrinks s (elim last [ none ↦ s | some prev ↦ (flush_buffer_line prev s).1 ])
flush_last-Shrinks s none = Shrinks-refl s
flush_last-Shrinks s (some prev) = flush_buffer_line-Shrinks prev s

make_room-Shrinks : (b : ℕ) (s : Serial) → Shrinks s (make_room b s)
unfolding make_room
make_room-Shrinks b s =
    let s1 : Serial = elim s.last_out [ none ↦ s | some prev ↦ (flush_buffer_line prev s).1 ] in
    let s2 = (flush_all_lines s1).1 in
    let k = Shrinks-trans s s1 s2 (flush_last-Shrinks s s.last_out) (flush_all_lines-Shrinks s1) in
    elim (Bool-cases (length (buffer_at s2 b) == 4096)) [
      | inl full ↦
          let s3 = flush_others (some b) 0 24 s2 in
          rw full (
            Shrinks-trans s s2 _ k (
              Shrinks-trans s2 s3 _ (flush_others_but-Shrinks b 0 24 s2)
                (select_colour-Shrinks b s3)))
      | inr room ↦ rw room (Shrinks-trans s s2 _ k (select_colour-Shrinks b s2))
    ]

-- Flags do not matter.
with_flags-Shrinks :
    (s t : Serial) (bits : List Bool) (data' : Bool)
    → Shrinks s t
    → Shrinks s (record t { output_buffer_bitmask = bits; has_data = data' })
unfolding Shrinks
with_flags-Shrinks s t bits data' h = h

if-Shrinks :
    (s : Serial) (test : Bool) (t u : Serial)
    → Shrinks s t
    → Shrinks s u
    → Shrinks s (if test then t else u)
if-Shrinks s true t u h k = h
if-Shrinks s false t u h k = k

pub after_append-Shrinks :
    (b index : ℕ) (status : Coalesced) (s : Serial) → Shrinks s (after_append b index status s)
unfolding after_append
after_append-Shrinks b index status s = with_flags-Shrinks s _ _ true (
    if-Shrinks s (length (buffer_at s b) == 4096) _ _ (make_room-Shrinks b s) (
      if-Shrinks s (prints_at_once b index status s) _ _ (flush_buffer-Shrinks b s)
        (with_flags-Shrinks s s (set s.output_buffer_bitmask b true) s.has_data (Shrinks-refl s))))
