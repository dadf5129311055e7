-- ===== src/SerialServer/Flushing.antt =====
-- components/SerialServer/src/serial.c: the operations that print buffered text neither lose nor
-- reorder it.
use global_components.Prelude.{
  ℕ, zero, suc, ◌+◌, ◌≤◌, ◌<◌, ◌≡◌, refl, sym, ap, ap₂, subst, ◌∙◌, inl, inr, Bool, false, ◌||◌,
  Option, none, some, List, [], ◌∷◌, ◌++◌, arith, ◌==◌, Bool-cases, Option-cases, length, get_or,
  take, drop, take-append-drop, true,
}
use mathlib.Core.List.{append-nil}
use global_components.SerialServer.State.{Serial, buffer_at}
use global_components.SerialServer.Output.{
  select_colour, flush_buffer, flush_buffer_line, print_line, line_length, flush_round, flush_lines,
  flush_all_lines, flush_others, total_used,
}
use global_components.SerialServer.Transcript.{
  IsTracked, IsStream, Keeps, Keeps-refl, Keeps-trans, print_part-Keeps, select_colour-Selected,
  colour_of_last,
}

flush_buffer_of_eq :
    (b : ℕ) (s : Serial) (line : List ℕ)
    → buffer_at s b ≡ line
    → b < 24
    → IsTracked s
    → Keeps s (flush_buffer b s)
unfolding flush_buffer
flush_buffer_of_eq b s [] e hb k = rw (e, flush_buffer) (Keeps-refl s k)
flush_buffer_of_eq b s (c ∷ cs) e hb k =
    rw (e, flush_buffer)
      (print_part-Keeps b s _ (c ∷ cs) [] hb k (append-nil (c ∷ cs) ∙ sym e) refl refl refl)

pub flush_buffer-Keeps : (b : ℕ) (s : Serial) → b < 24 → IsTracked s → Keeps s (flush_buffer b s)
flush_buffer-Keeps b s hb k = flush_buffer_of_eq b s (buffer_at s b) refl hb k

pub flush_buffer_line-Keeps :
    (b : ℕ) (s : Serial) → b < 24 → IsTracked s → Keeps s (flush_buffer_line b s).1
unfolding flush_buffer_line print_line
flush_buffer_line-Keeps b s hb k = elim (Option-cases (line_length (buffer_at s b))) [
  | inl e ↦ rw (e, flush_buffer_line) (Keeps-refl s k)
  | inr (n, e) ↦
      rw (e, flush_buffer_line)
        (print_part-Keeps b s _ (take n (buffer_at s b)) (drop n (buffer_at s b)) hb k
          (take-append-drop n (buffer_at s b)) refl refl refl)
]

flush_round-Keeps :
    (i n : ℕ) (hit : Bool) (s : Serial)
    → i + n ≤ 24
    → IsTracked s
    → Keeps s (flush_round i n (hit, s)).1
unfolding flush_round
flush_round-Keeps i zero hit s h k = Keeps-refl s k
flush_round-Keeps i (suc n) hit s h k =
    let step = flush_buffer_line-Keeps i s (omega arith) k in
    Keeps-trans s (flush_buffer_line i s).1 _ step (
      flush_round-Keeps (i + 1) n (hit || (flush_buffer_line i s).0) (flush_buffer_line i s).1
        (omega arith) step.tracked)

flush_lines-Keeps :
    (fuel : ℕ) (hit : Bool) (s : Serial) → IsTracked s → Keeps s (flush_lines fuel (hit, s)).1
unfolding flush_lines
flush_lines-Keeps zero hit s k = Keeps-refl s k
flush_lines-Keeps (suc fuel) hit s k =
    let step = flush_round-Keeps 0 24 false s (omega arith) k in
    let t = (flush_round 0 24 (false, s)).1 in
    elim (Bool-cases (flush_round 0 24 (false, s)).0) [
      | inl e ↦
          rw (e, flush_lines) (Keeps-trans s t _ step (flush_lines-Keeps fuel true t step.tracked))
      | inr e ↦ rw (e, flush_lines) step
    ]

pub flush_all_lines-Keeps : (s : Serial) → IsTracked s → Keeps s (flush_all_lines s).1
unfolding flush_all_lines
flush_all_lines-Keeps s k = flush_lines-Keeps (total_used s.output_buffers + 1) false s k

pub flush_others-Keeps :
    (but : Option ℕ) (i n : ℕ) (s : Serial)
    → i + n ≤ 24
    → IsTracked s
    → Keeps s (flush_others but i n s)
unfolding flush_others
flush_others-Keeps but i zero s h k = Keeps-refl s k
flush_others-Keeps none i (suc n) s h k =
    let step = flush_buffer-Keeps i s (omega arith) k in
    Keeps-trans s (flush_buffer i s) _ step
      (flush_others-Keeps none (i + 1) n (flush_buffer i s) (omega arith) step.tracked)
flush_others-Keeps (some b) i (suc n) s h k = elim (Bool-cases (i == b)) [
  | inl e ↦ rw e (flush_others-Keeps (some b) (i + 1) n s (omega arith) k)
  | inr e ↦
      let step = flush_buffer-Keeps i s (omega arith) k in
      rw e (
        Keeps-trans s (flush_buffer i s) _ step
          (flush_others-Keeps (some b) (i + 1) n (flush_buffer i s) (omega arith) step.tracked))
]

pub select_colour-Keeps : (b : ℕ) (s : Serial) → b < 24 → IsTracked s → Keeps s (select_colour b s)
select_colour-Keeps b s hb k =
    let sel = select_colour-Selected b s k in
    record {
      tracked = record {
        streams = ap length sel.buffers ∙ k.streams;
        last = subst IsStream (sym sel.last) hb;
        agrees = sel.on ∙ sym (ap colour_of_last sel.last);
      };
      same =
          λ d hd. ap₂ ◌++◌ (sel.kept d) (ap (λ (bs : List (List ℕ)). get_or bs d []) sel.buffers);
    }
