-- ===== src/SerialServer/Transcript.antt =====
-- components/SerialServer/src/serial.c: the printed text read back by its colours, as a person at
-- the serial line does.
use global_components.Prelude.{
  ℕ, ◌<◌, ◌≡◌, refl, ◌∙◌, inl, inr, Bool, false, ◌&&◌, Option, none, some, List, [], ◌∷◌, ◌++◌,
  arith, ◌==◌, if◌then◌else◌, Bool-cases, length, sym, ap, subst, ◌≢◌, set, length-set, get_or,
  get_or-set_self, get_or-set_ne, true,
}
use mathlib.Core.List.{append_assoc, append-nil}
use global_components.SerialServer.State.{
  Serial, has_colour, Printed, char, colour, colour_reset, message, buffer_at,
  colour_index_to_style, colour_index_to_slot, print_chars,
}
use global_components.SerialServer.Output.{select_colour}

-- The colour in which the next byte appears, with the newest print first.
unfoldable pub current : List Printed → Option (ℕ × ℕ)
current [] = none
current (char c ∷ out) = current out
current (colour x y ∷ out) = some (x, y)
current (colour_reset ∷ out) = none
current (message m ∷ out) = none

abbrev pub colour_of : ℕ → ℕ × ℕ
colour_of b = (colour_index_to_style b, colour_index_to_slot b)

unfoldable pub is_colour : ℕ → Option (ℕ × ℕ) → Bool
is_colour b none = false
is_colour b (some (x, y)) = x == colour_index_to_style b && y == colour_index_to_slot b

-- The bytes that appear in the colour of stream `b`, in their order. It says something of the streams
-- that have one.
unfoldable pub shown : ℕ → List Printed → List ℕ
shown b [] = []
shown b (char c ∷ out) = if is_colour b (current out) then shown b out ++ c ∷ [] else shown b out
shown b (colour x y ∷ out) = shown b out
shown b (colour_reset ∷ out) = shown b out
shown b (message m ∷ out) = shown b out

-- All that stream `b` has written: what appears in its colour, then what waits in its buffer.
abbrev pub written : ℕ → Serial → List ℕ
written b s = shown b s.out ++ buffer_at s b

abbrev pub colour_of_last : Option ℕ → Option (ℕ × ℕ)
colour_of_last none = none
colour_of_last (some b) = some (colour_of b)

abbrev pub IsStream : Option ℕ → Type 0
IsStream none = Unit {0}
IsStream (some b) = b < 24

-- `last_out` is the stream whose colour is on.
pub record IsTracked (s : Serial) : Type 0 where
  pub streams : length s.output_buffers ≡ 24
  pub last : IsStream s.last_out
  pub agrees : current s.out ≡ colour_of_last s.last_out

is_colour_of : (d b : ℕ) → d < 24 → b < 24 → is_colour d (some (colour_of b)) ≡ (b == d)
unfolding is_colour
is_colour_of d b hd hb = ground arith

current-print_chars :
    (cs : List ℕ) (out : List Printed) → current (print_chars cs out) ≡ current out
unfolding current print_chars
current-print_chars [] out = refl
current-print_chars (c ∷ cs) out = current-print_chars cs (char c ∷ out)

shown-print_chars :
    (d : ℕ) (cs : List ℕ) (out : List Printed)
    → shown d (print_chars cs out)
      ≡ (if is_colour d (current out) then shown d out ++ cs else shown d out)
unfolding shown print_chars current
shown-print_chars d [] out = ground (arith, append-nil (shown d out))
shown-print_chars d (c ∷ cs) out =
    ground (arith, shown-print_chars d cs (char c ∷ out), append_assoc (shown d out) (c ∷ []) cs)

-- What `select_colour` does: the colour of stream `b` is on, and no stream has more or less to show.
pub record Selected (b : ℕ) (s t : Serial) : Type 0 where
  pub on : current t.out ≡ some (colour_of b)
  pub last : t.last_out ≡ some b
  pub kept : (d : ℕ) → shown d t.out ≡ shown d s.out
  pub buffers : t.output_buffers ≡ s.output_buffers

select_colour_of_eq :
    (b : ℕ) (s : Serial) (last : Option ℕ)
    → s.last_out ≡ last
    → IsTracked s
    → Selected b s (select_colour b s)
unfolding select_colour shown current
select_colour_of_eq b s none e k =
    rw (e, select_colour) (record { on = refl; last = refl; kept = λ d. refl; buffers = refl })
select_colour_of_eq b s (some l) e k = elim (Bool-cases (l == b)) [
  | inl same ↦
      let one : l ≡ b = ground arith in
      rw (e, select_colour)
        (rw same (record {
          on = k.agrees ∙ ap colour_of_last e ∙ ap (λ x. some (colour_of x)) one;
          last = e ∙ ap some one;
          kept = λ d. refl;
          buffers = refl;
        }))
  | inr other ↦
      rw (e, select_colour)
        (rw other (record { on = refl; last = refl; kept = λ d. refl; buffers = refl }))
]

pub select_colour-Selected : (b : ℕ) (s : Serial) → IsTracked s → Selected b s (select_colour b s)
select_colour-Selected b s k = select_colour_of_eq b s s.last_out refl k

-- An operation that moves text from the buffers to the line, and neither loses nor reorders it, as far
-- as the streams have a colour.
pub record Keeps (s t : Serial) : Type 0 where
  pub tracked : IsTracked t
  pub same : (d : ℕ) → has_colour d ≡ true → written d t ≡ written d s

pub Keeps-refl : (s : Serial) → IsTracked s → Keeps s s
Keeps-refl s k = record { tracked = k; same = λ d h. refl }

pub Keeps-trans : (s t u : Serial) → Keeps s t → Keeps t u → Keeps s u
Keeps-trans s t u h k = record { tracked = k.tracked; same = λ d hd. k.same d hd ∙ h.same d hd }

-- Stream `b` shows `xs` of its buffer and keeps `rest`.
pub print_part-Keeps :
    (b : ℕ) (s t : Serial) (xs rest : List ℕ)
    → b < 24
    → IsTracked s
    → xs ++ rest ≡ buffer_at s b
    → t.out ≡ print_chars xs (select_colour b s).out
    → t.output_buffers ≡ set (select_colour b s).output_buffers b rest
    → t.last_out ≡ (select_colour b s).last_out
    → Keeps s t
print_part-Keeps b s t xs rest hb k split eo eb el =
    let sel = select_colour-Selected b s k in
    let out = (select_colour b s).out in
    let on : current t.out ≡ some (colour_of b) =
      ap current eo ∙ current-print_chars xs out ∙ sel.on in
    let bufs : t.output_buffers ≡ set s.output_buffers b rest =
      eb ∙ ap (λ bs. set bs b rest) sel.buffers in
    record {
      tracked = record {
        streams = ap length bufs ∙ length-set s.output_buffers b rest ∙ k.streams;
        last = subst IsStream (sym (el ∙ sel.last)) hb;
        agrees = on ∙ sym (ap colour_of_last (el ∙ sel.last));
      };
      same = λ d hd.
          let shows = ap (shown d) eo ∙ shown-print_chars d xs out in
          let in_range : d < 24 = ground arith in
          let hit = ap (is_colour d) sel.on ∙ is_colour_of d b in_range hb in
          let there = ap (λ (bs : List (List ℕ)). get_or bs d []) bufs in
          elim (Bool-cases (b == d)) [
            | inl e ↦
                let one : b ≡ d = ground arith in
                ground (
                  arith,
                  shows,
                  hit,
                  there,
                  sel.kept d,
                  get_or-set_self s.output_buffers b rest [] (omega (arith, k.streams)),
                  append_assoc (shown d s.out) xs rest,
                )
            | inr e ↦
                let away : b ≢ d = ground arith in
                ground (
                  arith,
                  shows,
                  hit,
                  there,
                  sel.kept d,
                  get_or-set_ne s.output_buffers b d rest [] away,
                )
          ];
    }
