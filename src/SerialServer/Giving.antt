-- ===== src/SerialServer/Giving.antt =====
-- components/SerialServer/src/serial.c: which clients are given a character that is typed.
use global_components.Prelude.{
  ℕ, zero, suc, ◌+◌, ◌<◌, ◌≡◌, refl, ap, ◌∙◌, ◌≢◌, inl, inr, Bool, true, false, ◌&&◌, none, some,
  List, arith, ltb, leb, ◌==◌, if◌then◌else◌, Bool-cases, Option-cases, length, get_or, length-set,
  get_or-set_self, get_or-set_ne, Option,
}
use global_components.SerialServer.State.{Serial, GetcharClient}
use global_components.SerialServer.Input.{
  raw_put, give_client_char, give_chosen, internal_raw_putchar, null_client,
}

abbrev pub getchar_client_at : Serial → ℕ → GetcharClient
getchar_client_at s k = get_or s.getchar_clients k null_client

-- Whether client `k` has the input: it is the active client, or one of those that share the input.
unfoldable pub has_input : ℕ → Serial → Bool
has_input k s = elim s.active_client [
  | some a ↦ a == k
  | none ↦ ltb k 24 && get_or s.active_multiclients k false
]

-- What a client is like once it is given a character, or not.
abbrev pub given : Bool → ℕ → GetcharClient → GetcharClient
given yes' c k = if yes' then (raw_put k c).0 else k

-- Who has the input is the same.
pub record SameInput (s t : Serial) : Type 0 where
  pub active : t.active_client ≡ s.active_client
  pub chosen : t.active_multiclients ≡ s.active_multiclients
  pub size : length t.getchar_clients ≡ length s.getchar_clients

internal_raw_putchar_lem :
    (id c k : ℕ) (s : Serial)
    → k < length s.getchar_clients
    → SameInput s (internal_raw_putchar id c s)
      × (getchar_client_at (internal_raw_putchar id c s) k
          ≡ given (id == k) c (getchar_client_at s k))
unfolding internal_raw_putchar
internal_raw_putchar_lem id c k s hk =
    let v = (raw_put (getchar_client_at s id) c).0 in
    (
      record { active = refl; chosen = refl; size = length-set s.getchar_clients id v },
      elim (Bool-cases (id == k)) [
        | inl e ↦
            let one : id ≡ k = ground arith in
            rw e (rw one (get_or-set_self s.getchar_clients k _ null_client hk))
        | inr e ↦
            let away : id ≢ k = ground arith in
            rw e (get_or-set_ne s.getchar_clients id k v null_client away)
      ],
    )

SameInput-trans : (s t u : Serial) → SameInput s t → SameInput t u → SameInput s u
SameInput-trans s t u h k = record {
  active = k.active ∙ h.active;
  chosen = k.chosen ∙ h.chosen;
  size = k.size ∙ h.size;
}

-- The loop over the clients that share the input reaches each of them once.
give_chosen_lem :
    (c i n k : ℕ) (s : Serial)
    → k < length s.getchar_clients
    → SameInput s (give_chosen c i n s)
      × (getchar_client_at (give_chosen c i n s) k
          ≡ given
              (leb i k && ltb k (i + n) && get_or s.active_multiclients k false)
              c
              (getchar_client_at s k))
unfolding give_chosen
give_chosen_lem c i zero k s hk =
    let out : (leb i k && ltb k (i + 0) && get_or s.active_multiclients k false) ≡ false =
      ground arith in
    (record { active = refl; chosen = refl; size = refl }, rw out refl)
give_chosen_lem c i (suc n) k s hk = elim (Bool-cases (get_or s.active_multiclients i false)) [
  | inl bit ↦
      let t = internal_raw_putchar i c s in
      let (one, at) = internal_raw_putchar_lem i c k s hk in
      let (rest, at') = give_chosen_lem c (i + 1) n k t (omega (arith, one.size, hk)) in
      rw (bit, give_chosen)
        (
          SameInput-trans s t _ one rest,
          at'
              ∙ ap
                  (λ (bs : List Bool).
                    given (leb (i + 1) k && ltb k (i + 1 + n) && get_or bs k false) c
                      (getchar_client_at t k))
                  one.chosen
              ∙ ap
                  (given
                    (leb (i + 1) k && ltb k (i + 1 + n) && get_or s.active_multiclients k false) c)
                  at
              ∙ given_step c i n k s bit,
        )
  | inr bit ↦
      let (rest, at') = give_chosen_lem c (i + 1) n k s hk in
      rw (bit, give_chosen) (rest, at' ∙ given_skip c i n k s bit)
]
  where
    given_step :
        (c i n k : ℕ) (s : Serial)
        → get_or s.active_multiclients i false ≡ true
        → given
            (leb (i + 1) k && ltb k (i + 1 + n) && get_or s.active_multiclients k false)
            c
            (given (i == k) c (getchar_client_at s k))
          ≡ given
              (leb i k && ltb k (i + suc n) && get_or s.active_multiclients k false)
              c
              (getchar_client_at s k)
    given_step c i n k s bit = elim (Bool-cases (i == k)) [
      | inl e ↦
          let one : i ≡ k = ground arith in
          let past : (leb (i + 1) k && ltb k (i + 1 + n) && get_or s.active_multiclients k false)
              ≡ false =
            ground arith in
          let bit' = rw one at bit in
          let now : (leb i k && ltb k (i + suc n) && get_or s.active_multiclients k false) ≡ true =
            ground (arith, bit') in
          rw (past, now, e) refl
      | inr e ↦
          let same : (leb (i + 1) k && ltb k (i + 1 + n) && get_or s.active_multiclients k false)
              ≡ (leb i k && ltb k (i + suc n) && get_or s.active_multiclients k false) =
            ground arith in
          rw (e, same) refl
    ]

    given_skip :
        (c i n k : ℕ) (s : Serial)
        → get_or s.active_multiclients i false ≡ false
        → given
            (leb (i + 1) k && ltb k (i + 1 + n) && get_or s.active_multiclients k false)
            c
            (getchar_client_at s k)
          ≡ given
              (leb i k && ltb k (i + suc n) && get_or s.active_multiclients k false)
              c
              (getchar_client_at s k)
    given_skip c i n k s bit = elim (Bool-cases (i == k)) [
      | inl e ↦
          let one : i ≡ k = ground arith in
          let bit' = rw one at bit in
          let past : (leb (i + 1) k && ltb k (i + 1 + n) && get_or s.active_multiclients k false)
              ≡ false =
            ground arith in
          let now : (leb i k && ltb k (i + suc n) && get_or s.active_multiclients k false) ≡ false =
            ground (arith, bit') in
          rw (past, now) refl
      | inr e ↦
          let same : (leb (i + 1) k && ltb k (i + 1 + n) && get_or s.active_multiclients k false)
              ≡ (leb i k && ltb k (i + suc n) && get_or s.active_multiclients k false) =
            ground arith in
          rw same refl
    ]

give_by :
    (c k : ℕ) (s : Serial) (active : Option ℕ)
    → k < length s.getchar_clients
    → let t : Serial = elim active [
      | some a ↦ internal_raw_putchar a c s
      | none ↦ give_chosen c 0 24 s
    ] in
      let input : Bool = elim active [
        | some a ↦ a == k
        | none ↦ ltb k 24 && get_or s.active_multiclients k false
      ] in
      SameInput s t × (getchar_client_at t k ≡ given input c (getchar_client_at s k))
give_by c k s none hk =
    let (same, at) = give_chosen_lem c 0 24 k s hk in
    let from_0 : (leb 0 k && ltb k 24 && get_or s.active_multiclients k false)
        ≡ (ltb k 24 && get_or s.active_multiclients k false) =
      ground arith in
    (same, at ∙ ap (λ (b : Bool). given b c (getchar_client_at s k)) from_0)
give_by c k s (some a) hk = internal_raw_putchar_lem a c k s hk

pub give_client_char_lem :
    (c k : ℕ) (s : Serial)
    → k < length s.getchar_clients
    → SameInput s (give_client_char c s)
      × (getchar_client_at (give_client_char c s) k
          ≡ given (has_input k s) c (getchar_client_at s k))
unfolding give_client_char has_input
give_client_char_lem c k s hk = give_by c k s s.active_client hk

pub has_input_same : (k : ℕ) (s t : Serial) → SameInput s t → has_input k t ≡ has_input k s
unfolding has_input
has_input_same k s t h = elim (Option-cases s.active_client) [
  | inl e ↦ let e' = h.active ∙ e in rw (e, e', h.chosen) refl
  | inr (a, e) ↦ let e' = h.active ∙ e in rw (e, e') refl
]
