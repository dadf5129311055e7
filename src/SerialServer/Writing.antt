-- ===== src/SerialServer/Writing.antt =====
-- components/SerialServer/src/serial.c: what a stream writes appears in its colour, in order.
use global_components.Prelude.{
  ℕ, ◌<◌, ◌≡◌, refl, subst, inl, inr, Bool, true, Option, none, some, List, arith, ◌==◌, Bool-cases,
  length, ◌%◌, ◌∙◌, ◌≢◌, false, [], ◌∷◌, ◌++◌, if◌then◌else◌, length-set, get_or-set_self,
  get_or-set_ne, ◌≤◌, ap, length-append,
}
use mathlib.Core.List.{append_assoc}
use global_components.SerialServer.State.{Serial, buffer_at, client_output_buffer_size, has_colour}
use global_components.SerialServer.Storing.{store_byte_fits}
use global_components.SerialServer.Shrinking.{le_of_Shrinks, after_append-Shrinks}
use global_components.SerialServer.Output.{Coalesced, flush_buffer_line, flush_all_lines, differ}
use global_components.SerialServer.Putchar.{
  make_room, after_append, append_char, internal_putchar, prints_at_once,
}
use global_components.SerialServer.Transcript.{
  IsTracked, IsStream, Keeps, Keeps-refl, Keeps-trans, written, shown,
}
use global_components.SerialServer.Flushing.{
  flush_buffer-Keeps, flush_buffer_line-Keeps, flush_all_lines-Keeps, flush_others-Keeps,
  select_colour-Keeps,
}

flush_last-Keeps :
    (s : Serial) (last : Option ℕ)
    → s.last_out ≡ last
    → IsTracked s
    → Keeps s (elim last [ none ↦ s | some prev ↦ (flush_buffer_line prev s).1 ])
flush_last-Keeps s none e k = Keeps-refl s k
flush_last-Keeps s (some prev) e k = flush_buffer_line-Keeps prev s (subst IsStream e k.last) k

make_room-Keeps : (b : ℕ) (s : Serial) → b < 24 → IsTracked s → Keeps s (make_room b s)
unfolding make_room
make_room-Keeps b s hb k =
    let s1 : Serial = elim s.last_out [ none ↦ s | some prev ↦ (flush_buffer_line prev s).1 ] in
    let s2 = (flush_all_lines s1).1 in
    let k1 = flush_last-Keeps s s.last_out refl k in
    let k2 = flush_all_lines-Keeps s1 k1.tracked in
    elim (Bool-cases (length (buffer_at s2 b) == 4096)) [
      | inl full ↦
          let k3 = flush_others-Keeps (some b) 0 24 s2 (omega arith) k2.tracked in
          rw full (
            Keeps-trans s s1 _ k1 (
              Keeps-trans s1 s2 _ k2
                (Keeps-trans s2 _ _ k3 (select_colour-Keeps b _ hb k3.tracked))))
      | inr room ↦
          rw room (
            Keeps-trans s s1 _ k1 (Keeps-trans s1 s2 _ k2 (select_colour-Keeps b s2 hb k2.tracked)))
    ]

-- Flags do not matter.
pub with_flags-Keeps :
    (s t : Serial) (bits : List Bool) (data' done' : Bool)
    → Keeps s t
    → Keeps s (record t { output_buffer_bitmask = bits; has_data = data'; done_output = done' })
with_flags-Keeps s t bits data' done' h = record {
  tracked = record {
    streams = h.tracked.streams;
    last = h.tracked.last;
    agrees = h.tracked.agrees;
  };
  same = h.same;
}

pub if-Keeps :
    (s : Serial) (test : Bool) (t u : Serial)
    → Keeps s t
    → Keeps s u
    → Keeps s (if test then t else u)
if-Keeps s true t u h k = h
if-Keeps s false t u h k = k

after_append-Keeps :
    (b index : ℕ) (status : Coalesced) (s : Serial)
    → b < 24
    → IsTracked s
    → Keeps s (after_append b index status s)
unfolding after_append
after_append-Keeps b index status s hb k = with_flags-Keeps s _ _ _ _ (
    if-Keeps s (length (buffer_at s b) == 4096) _ _ (make_room-Keeps b s hb k) (
      if-Keeps s (prints_at_once b index status s) _ _ (flush_buffer-Keeps b s hb k)
        (with_flags-Keeps s s _ _ _ (Keeps-refl s k))))

append_char-written :
    (b c : ℕ) (s : Serial)
    → b < 24
    → ((d : ℕ) → length (buffer_at s d) ≤ 4096)
    → length (buffer_at s b) < 4096
    → IsTracked s
    → IsTracked (append_char b c s)
      × ((d : ℕ)
          → written d (append_char b c s)
            ≡ (if b == d then written d s ++ (c % 256) ∷ [] else written d s))
unfolding append_char
append_char-written b c s hb fit room k =
    let line = buffer_at s b ++ (c % 256) ∷ [] in
    rw (store_byte_fits b (c % 256) s fit room) (
      record {
        streams = length-set s.output_buffers b line ∙ k.streams;
        last = k.last;
        agrees = k.agrees;
      },
      λ d. elim (Bool-cases (b == d)) [
        | inl e ↦
            let one : b ≡ d = ground arith in
            ground (
              arith,
              get_or-set_self s.output_buffers b line [] (omega (arith, k.streams)),
              append_assoc (shown d s.out) (buffer_at s b) ((c % 256) ∷ []),
            )
        | inr e ↦
            let away : b ≢ d = ground arith in
            rw (e, get_or-set_ne s.output_buffers b d line [] away) refl
      ],
    )

append_char-fits :
    (b c : ℕ) (s : Serial)
    → b < 24
    → ((d : ℕ) → length (buffer_at s d) ≤ 4096)
    → length (buffer_at s b) < 4096
    → IsTracked s
    → (d : ℕ) → length (buffer_at (append_char b c s) d) ≤ 4096
unfolding append_char
append_char-fits b c s hb fit room k d =
    let line = buffer_at s b ++ (c % 256) ∷ [] in
    let longer = length-append (buffer_at s b) ((c % 256) ∷ []) in
    rw (store_byte_fits b (c % 256) s fit room) (elim (Bool-cases (b == d)) [
      | inl e ↦
          let one : b ≡ d = ground arith in
          let here = get_or-set_self s.output_buffers b line [] (omega (arith, k.streams)) in
          rw (← one) (omega (arith, ap length here, longer))
      | inr e ↦
          let away : b ≢ d = ground arith in
          let there = get_or-set_ne s.output_buffers b d line [] away in
          omega (arith, ap length there, fit d)
    ])

-- While one client has the input, a byte that a stream writes is added to what appears in the
-- stream's colour or waits for it, and nothing changes for the other streams that have a colour, which
-- are all but 11, 22 and 23; what these three print for a colour is taken for none of the others'. The
-- stream's buffer must not be full, none may have gone past its array, and `last_out` must be the
-- stream whose colour is on; then the latter two hold afterwards, too.
pub internal_putchar-written :
    (b c a : ℕ) (s : Serial)
    → b < 24
    → s.active_client ≡ some a
    → ((d : ℕ) → length (buffer_at s d) ≤ client_output_buffer_size)
    → length (buffer_at s b) < client_output_buffer_size
    → IsTracked s
    → IsTracked (internal_putchar b c s)
      × ((d : ℕ) → length (buffer_at (internal_putchar b c s) d) ≤ client_output_buffer_size)
      × ((d : ℕ)
          → has_colour d ≡ true
          → written d (internal_putchar b c s)
            ≡ (if b == d then written d s ++ (c % 256) ∷ [] else written d s))
unfolding internal_putchar
internal_putchar-written b c a s hb e fit room k =
    let (k', w) = append_char-written b c s hb fit room k in
    let h = after_append-Keeps b (length (buffer_at s b)) differ (append_char b c s) hb k' in
    let shrinks = after_append-Shrinks b (length (buffer_at s b)) differ (append_char b c s) in
    let fits = λ (d : ℕ).
      le_of_Shrinks (append_char b c s) _ d shrinks (append_char-fits b c s hb fit room k d) in
    rw (e, internal_putchar) (h.tracked, fits, λ d hd. h.same d hd ∙ w d)
