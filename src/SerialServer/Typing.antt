-- ===== src/SerialServer/Typing.antt =====
-- components/SerialServer/src/serial.c: what a person types and what the clients are given.
use global_components.Prelude.{
  ℕ, ◌+◌, ◌%◌, ◌<◌, ◌≡◌, List, [], ◌∷◌, ◌++◌, ◌==◌, if◌then◌else◌, length, zero, suc, refl, ◌∙◌,
  inl, inr, Bool, true, false, ◌&&◌, ◌||◌, Option, none, some, arith, Bool-cases, get_or, set,
  length-set, ap,
}
use global_components.Prelude.Ring.{between, between_push}
use global_components.SerialServer.State.{
  Serial, GetcharClient, GetcharBuffer, InputState, in_line, line_start, escape_char,
  getchar_buf_size, escaped,
}
use global_components.SerialServer.Input.{
  raw_put, give_client_char, is_end, give_chosen, internal_raw_putchar, handle_chars, handle_char,
  handle_by_state, handle_line_start, handle_in_line, handle_command,
}

-- The characters that wait for a client.
abbrev pub unread : GetcharBuffer → List ℕ
unread b = between 0 getchar_buf_size b.buf b.head b.tail

pub record IsRing (b : GetcharBuffer) : Type 0 where
  pub room : length b.buf ≡ 4088
  pub head_in : b.head < 4088
  pub tail_in : b.tail < 4088

-- A character for a client stands behind those that wait for it, or is dropped if its buffer is
-- full. The client is signalled exactly if it is given the character and its `head` has moved since
-- the last one that it was given, so that another character, before the client reads, does not signal
-- it. The indices stay in the array, and `head` is not moved.
pub raw_put_lem :
    (k : GetcharClient) (c d : ℕ)
    → IsRing k.buf
    → let (k', out) = raw_put k c in
      let full = (k.buf.tail + 1) % 4088 == k.buf.head in
      IsRing k'.buf
      × (unread k'.buf ≡ (if full then unread k.buf else unread k.buf ++ (c % 256) ∷ []))
      × (out ≡ (if full || k.buf.head == k.last_head then [] else k.client_id ∷ []))
      × (k'.last_head ≡ (if full then k.last_head else k.buf.head))
      × (k'.buf.head ≡ k.buf.head)
      × (k'.client_id ≡ k.client_id)
      × ((raw_put k' d).1 ≡ [])
unfolding raw_put
raw_put_lem k c d q =
    let b = k.buf in
    let ring : IsRing (record b { buf = set b.buf b.tail (c % 256); tail = (b.tail + 1) % 4088 }) =
      record {
        room = length-set b.buf b.tail (c % 256) ∙ q.room;
        head_in = q.head_in;
        tail_in = omega arith;
      } in
    elim (Bool-cases ((b.tail + 1) % 4088 == b.head)) [
      | inl full ↦
          let quiet : (raw_put k d).1 ≡ [] = rw full refl in
          rw full (q, refl, refl, refl, refl, refl, quiet)
      | inr free ↦
          let pushed =
            between_push 0 4088 b.buf (c % 256) b.head b.tail (omega (arith, q.room)) q.head_in
              q.tail_in (ground arith) in
          elim (Bool-cases (b.head == k.last_head)) [
            | inl same ↦
                rw (free, same) (ring, pushed, refl, ground arith, refl, refl, ground arith)
            | inr read ↦ rw (free, read) (ring, pushed, refl, refl, refl, refl, ground arith)
          ]
    ]

-- What is to be typed for a client to be given a text: an escape character that begins a line is
-- typed twice.
unfoldable pub typed : Bool → List ℕ → List ℕ
typed at_start [] = []
typed at_start (c ∷ cs) =
    let rest = c ∷ typed (is_end c) cs in if at_start && c == escape_char then c ∷ rest else rest

-- Whether the next character begins a line.
unfoldable pub ends_at_start : Bool → List ℕ → Bool
ends_at_start at_start [] = at_start
ends_at_start at_start (c ∷ cs) = ends_at_start (is_end c) cs

-- The characters go to the input's clients one after another.
unfoldable pub give_all : List ℕ → Serial → Serial
give_all [] s = s
give_all (c ∷ cs) s = give_all cs (give_client_char c s)

abbrev pub text_state : Bool → InputState
text_state true = line_start
text_state false = in_line

abbrev pub in_state : InputState → Serial → Serial
in_state m s = record s { statemachine = m }

give_chosen-in_state :
    (m : InputState) (c i n : ℕ) (s : Serial)
    → give_chosen c i n (in_state m s) ≡ in_state m (give_chosen c i n s)
unfolding give_chosen internal_raw_putchar
give_chosen-in_state m c i zero s = refl
give_chosen-in_state m c i (suc n) s = elim (Bool-cases (get_or s.active_multiclients i false)) [
  | inl e ↦ rw (e, give_chosen) (give_chosen-in_state m c (i + 1) n (internal_raw_putchar i c s))
  | inr e ↦ rw (e, give_chosen) (give_chosen-in_state m c (i + 1) n s)
]

give_client_char-in_state :
    (m : InputState) (c : ℕ) (s : Serial)
    → give_client_char c (in_state m s) ≡ in_state m (give_client_char c s)
unfolding give_client_char internal_raw_putchar
give_client_char-in_state m c s = go s.active_client refl
  where
    go :
        (a : Option ℕ)
        → s.active_client ≡ a
        → give_client_char c (in_state m s) ≡ in_state m (give_client_char c s)
    go (some a) e = rw (e, give_client_char)
    go none e = rw (e, give_client_char) (give_chosen-in_state m c 0 24 s)

give_chosen-has_getchar :
    (c i n : ℕ) (s : Serial) → (give_chosen c i n s).has_getchar ≡ s.has_getchar
unfolding give_chosen internal_raw_putchar
give_chosen-has_getchar c i zero s = refl
give_chosen-has_getchar c i (suc n) s = give_chosen-has_getchar c (i + 1) n _ ∙ ground arith

give_client_char-has_getchar :
    (c : ℕ) (s : Serial) → (give_client_char c s).has_getchar ≡ s.has_getchar
unfolding give_client_char internal_raw_putchar
give_client_char-has_getchar c s = ground (arith, give_chosen-has_getchar c 0 24 s)

if_true {ℓ} : {A : Type ℓ} (b : Bool) (x y : A) → b ≡ true → (if b then x else y) ≡ x
if_true true x y e = refl
if_true false x y e = cc

handle_char_lem :
    (c : ℕ) (s : Serial)
    → s.has_getchar ≡ true
    → handle_char c s ≡ handle_by_state s.statemachine c s
unfolding handle_char
handle_char_lem c s g = if_true s.has_getchar (handle_by_state s.statemachine c s) s g

handle_line_start_lem :
    (c : ℕ) (s : Serial)
    → (c == escape_char) ≡ false
    → handle_line_start c (in_state line_start s)
      ≡ in_state (text_state (is_end c)) (give_client_char c s)
unfolding handle_line_start
handle_line_start_lem c s ne = elim (Bool-cases (is_end c)) [
  | inl e ↦ rw e (give_client_char-in_state line_start c s)
  | inr e ↦ rw (e, ne) (give_client_char-in_state in_line c s)
]

handle_in_line_lem :
    (c : ℕ) (s : Serial)
    → handle_in_line c (in_state in_line s)
      ≡ in_state (text_state (is_end c)) (give_client_char c s)
unfolding handle_in_line
handle_in_line_lem c s = elim (Bool-cases (is_end c)) [
  | inl e ↦ rw e (give_client_char-in_state line_start c s)
  | inr e ↦ rw e (give_client_char-in_state in_line c s)
]

-- An escape character that begins a line and is typed twice.
handle_escape :
    (c : ℕ) (s : Serial)
    → s.has_getchar ≡ true
    → (c == escape_char) ≡ true
    → handle_char c (handle_char c (in_state line_start s))
      ≡ in_state (text_state (is_end c)) (give_client_char c s)
unfolding handle_by_state handle_line_start handle_command
handle_escape c s g e =
    let plain : is_end c ≡ false = ground arith in
    let first : handle_char c (in_state line_start s) ≡ in_state escaped s =
      handle_char_lem c (in_state line_start s) g ∙ rw (plain, e) refl in
    ap (handle_char c) first
    ∙ handle_char_lem c (in_state escaped s) g
    ∙ rw (plain, e) (give_client_char-in_state in_line c s)

-- One character of the text, as it is typed.
handle_typed :
    (at_start : Bool) (c : ℕ) (cs : List ℕ) (s : Serial)
    → s.has_getchar ≡ true
    → handle_chars
        (if at_start && c == escape_char then c ∷ c ∷ cs else c ∷ cs)
        (in_state (text_state at_start) s)
      ≡ handle_chars cs (in_state (text_state (is_end c)) (give_client_char c s))
unfolding handle_chars handle_by_state
handle_typed true c cs s g = elim (Bool-cases (c == escape_char)) [
  | inl e ↦ rw e (ap (handle_chars cs) (handle_escape c s g e))
  | inr e ↦ rw e (
      ap (handle_chars cs)
        (handle_char_lem c (in_state line_start s) g ∙ handle_line_start_lem c s e))
]
handle_typed false c cs s g =
    ap (handle_chars cs) (handle_char_lem c (in_state in_line s) g ∙ handle_in_line_lem c s)

-- Every text can be typed so that its characters are given one after another, and nothing else about
-- the server changes but where in a line the typing stands.
pub handle_chars_lem :
    (at_start : Bool) (text : List ℕ) (s : Serial)
    → s.has_getchar ≡ true
    → handle_chars (typed at_start text) (in_state (text_state at_start) s)
      ≡ in_state (text_state (ends_at_start at_start text)) (give_all text s)
unfolding typed ends_at_start give_all handle_chars
handle_chars_lem at_start [] s g = refl
handle_chars_lem at_start (c ∷ cs) s g =
    handle_typed at_start c (typed (is_end c) cs) s g
    ∙ handle_chars_lem (is_end c) cs (give_client_char c s) (give_client_char-has_getchar c s ∙ g)
