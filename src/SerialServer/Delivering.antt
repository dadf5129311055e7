-- ===== src/SerialServer/Delivering.antt =====
-- components/SerialServer/src/serial.c: what the clients are given of a text that is typed.
use global_components.SerialServer.Giving.{
  getchar_client_at, has_input, given, give_client_char_lem, has_input_same,
}
use global_components.Prelude.{
  ℕ, ◌+◌, ◌%◌, ◌<◌, ◌≡◌, refl, ap, ◌∙◌, inl, inr, Bool, true, false, List, map, arith, ◌==◌,
  Bool-cases, length, sym, [], ◌∷◌, ◌++◌, length-append, ◌⊎◌,
}
use global_components.Prelude.Ring.{length-between}
use mathlib.Core.List.{append_assoc, append-nil}
use global_components.SerialServer.State.{Serial, GetcharClient, getchar_buf_size}
use global_components.SerialServer.Input.{raw_put, give_client_char, handle_chars}
use global_components.SerialServer.Typing.{
  unread, IsRing, give_all, typed, in_state, text_state, ends_at_start, handle_chars_lem,
  raw_put_lem,
}

-- A ring with room for one more character is not full.
not_full :
    (k : GetcharClient)
    → IsRing k.buf
    → length (unread k.buf) < 4087
    → ((k.buf.tail + 1) % 4088 == k.buf.head) ≡ false
not_full k q h = elim (Bool-cases ((k.buf.tail + 1) % 4088 == k.buf.head)) [
  | inl full ↦
      let len = length-between 0 4088 k.buf.buf k.buf.head k.buf.tail in
      absurd (ground (arith, len, q.head_in, q.tail_in))
  | inr free ↦ free
]

-- What a text adds to the characters that wait for client `k`.
record Delivered (text : List ℕ) (k : GetcharClient) (k' : GetcharClient) : Type 0 where
  waits : unread k'.buf ≡ unread k.buf ++ map (λ c. c % 256) text
  ring : IsRing k'.buf
  head : k'.buf.head ≡ k.buf.head

give_all-Delivered :
    (text : List ℕ) (k : ℕ) (s : Serial)
    → k < length s.getchar_clients
    → has_input k s ≡ true
    → IsRing (getchar_client_at s k).buf
    → length (unread (getchar_client_at s k).buf) + length text < 4088
    → Delivered text (getchar_client_at s k) (getchar_client_at (give_all text s) k)
unfolding give_all
give_all-Delivered [] k s hk yes' q room = record {
  waits = sym (append-nil _);
  ring = q;
  head = refl;
}
give_all-Delivered (c ∷ cs) k s hk yes' q room =
    let t = give_client_char c s in
    let (same, at) = give_client_char_lem c k s hk in
    let here : getchar_client_at t k ≡ (raw_put (getchar_client_at s k) c).0 =
      at ∙ ap (λ (b : Bool). given b c (getchar_client_at s k)) yes' in
    let put = raw_put_lem (getchar_client_at s k) c 0 q in
    let free = not_full (getchar_client_at s k) q (omega (arith, room)) in
    let ring : IsRing (getchar_client_at t k).buf = rw here (put.0) in
    let one : unread (getchar_client_at t k).buf
        ≡ unread (getchar_client_at s k).buf ++ (c % 256) ∷ [] =
      ap (λ (g : GetcharClient). unread g.buf) here ∙ rw free at (put.1) in
    let front : (getchar_client_at t k).buf.head ≡ (getchar_client_at s k).buf.head =
      ap (λ (g : GetcharClient). g.buf.head) here ∙ put.4 in
    let rest =
      give_all-Delivered cs k t (omega (arith, same.size, hk)) (has_input_same k s t same ∙ yes')
        ring
        (omega (
          arith,
          ap length one,
          length-append (unread (getchar_client_at s k).buf) ((c % 256) ∷ []),
          room,
        )) in
    record {
      waits =
          rest.waits
          ∙ ap (λ (xs : List ℕ). xs ++ map (λ d. d % 256) cs) one
          ∙ append_assoc (unread (getchar_client_at s k).buf) _ _;
      ring = rest.ring;
      head = rest.head ∙ front;
    }

give_all-others :
    (text : List ℕ) (k : ℕ) (s : Serial)
    → k < length s.getchar_clients
    → has_input k s ≡ false
    → getchar_client_at (give_all text s) k ≡ getchar_client_at s k
unfolding give_all
give_all-others [] k s hk no_input = refl
give_all-others (c ∷ cs) k s hk no_input =
    let t = give_client_char c s in
    let (same, at) = give_client_char_lem c k s hk in
    give_all-others cs k t (omega (arith, same.size, hk)) (has_input_same k s t same ∙ no_input)
    ∙ at
    ∙ ap (λ (b : Bool). given b c (getchar_client_at s k)) no_input

-- Every text can be typed, from the start of a line or from within one: a client that has the input,
-- with room for the text in its buffer, has exactly the text's characters behind those that waited
-- for it, and a client that does not have the input is as it was. The typing then stands where the
-- text ends. The clients read nothing meanwhile.
pub handle_chars-typed :
    (at_start : Bool) (text : List ℕ) (s : Serial) (k : ℕ)
    → s.has_getchar ≡ true
    → k < length s.getchar_clients
    → IsRing (getchar_client_at s k).buf
    → length (unread (getchar_client_at s k).buf) + length text < getchar_buf_size
    → let t = handle_chars (typed at_start text) (in_state (text_state at_start) s) in
      (((has_input k s ≡ true)
          × (unread (getchar_client_at t k).buf
              ≡ unread (getchar_client_at s k).buf ++ map (λ c. c % 256) text))
        ⊎ ((has_input k s ≡ false) × (getchar_client_at t k ≡ getchar_client_at s k)))
      × (t.statemachine ≡ text_state (ends_at_start at_start text))
handle_chars-typed at_start text s k g hk q room =
    let e = handle_chars_lem at_start text s g in
    (
      elim (Bool-cases (has_input k s)) [
        | inl yes' ↦ inl (
          yes',
          ap (λ (t : Serial). unread (getchar_client_at t k).buf) e
              ∙ (give_all-Delivered text k s hk yes' q room).waits,
        )
        | inr without ↦ inr (
          without,
          ap (λ (t : Serial). getchar_client_at t k) e ∙ give_all-others text k s hk without,
        )
      ],
      ap (λ (t : Serial). t.statemachine) e,
    )
