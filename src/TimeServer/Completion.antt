-- ===== src/TimeServer/Completion.antt =====
-- components/TimeServer/src/time_server.c: which timers a client is told of.
use global_components.TimeServer.Server.{
  signal_clients, signal_timer, signal_client, TimeServer, completed, bits_at, no_bits,
}
use global_components.Prelude.{
  ℕ, ltb, ◌^◌, ◌/◌, ◌%◌, ◌≡◌, Bool, false, ◌&&◌, ◌||◌, List, [], ◌∷◌, ◌==◌, length, zero, suc, ◌<◌,
  refl, sym, ap, ◌∙◌, ◌≢◌, inl, inr, true, arith, Bool-cases, get_or, set, length-set,
  get_or-set_self, get_or-set_ne, length-replicate, get_or-replicate,
}

-- Each client has a word of 32 bits.
abbrev pub AreWords : List (List Bool) → Type 0
AreWords [] = Unit {0}
AreWords (w ∷ ws) = (length w ≡ 32) × AreWords ws

-- The client and the timer that a token stands for.
abbrev pub names : ℕ → ℕ → ℕ → ℕ → Bool
names tpc token cid tid = ltb token (2 ^ 31) && (token / tpc == cid && token % tpc == tid)

unfoldable pub any_names : ℕ → List ℕ → ℕ → ℕ → Bool
any_names tpc [] cid tid = false
any_names tpc (token ∷ tokens) cid tid = names tpc token cid tid || any_names tpc tokens cid tid

abbrev pub bit : {T : Type 0} → TimeServer T → ℕ → ℕ → Bool
bit s cid tid = get_or (bits_at s cid) tid false

length-bits :
    (ws : List (List Bool)) (i : ℕ) → AreWords ws → i < length ws → length (get_or ws i []) ≡ 32
length-bits [] i h hi = absurd (omega arith)
length-bits (w ∷ ws) zero h hi = h.0
length-bits (w ∷ ws) (suc i) h hi = length-bits ws i h.1 (omega arith)

AreWords-set :
    (ws : List (List Bool)) (i : ℕ) (w : List Bool)
    → AreWords ws
    → (i < length ws → length w ≡ 32)
    → AreWords (set ws i w)
AreWords-set [] i w h k = tt
AreWords-set (v ∷ ws) zero w h k = (k (omega arith), h.1)
AreWords-set (v ∷ ws) (suc i) w h k = (h.0, AreWords-set ws i w h.1 (λ hi. k (omega arith)))

signal_timer-AreWords :
    {T : Type 0} (c t : ℕ) (s : TimeServer T)
    → AreWords s.client_state
    → AreWords (signal_timer c t s).client_state
      × (length (signal_timer c t s).client_state ≡ length s.client_state)
unfolding signal_timer
signal_timer-AreWords c t s h = (
  AreWords-set s.client_state c _ h
      (λ hi. length-set (bits_at s c) t true ∙ length-bits s.client_state c h hi),
  length-set s.client_state c _,
)

bit-signal_timer :
    {T : Type 0} (c t : ℕ) (s : TimeServer T) (cid tid : ℕ)
    → AreWords s.client_state
    → cid < length s.client_state
    → tid < 32
    → bit (signal_timer c t s) cid tid ≡ ((c == cid && t == tid) || bit s cid tid)
unfolding signal_timer
bit-signal_timer c t s cid tid h hc ht =
    let word = set (bits_at s c) t true in
    elim (Bool-cases (c == cid)) [
      | inl e ↦
          let one : c ≡ cid = ground arith in
          rw (one, get_or-set_self s.client_state cid _ [] hc)
            (elim (Bool-cases (t == tid)) [
              | inl f ↦
                  let same : t ≡ tid = ground arith in
                  rw
                    (
                      same,
                      get_or-set_self (bits_at s cid) tid true false
                          (omega (arith, length-bits s.client_state cid h hc)),
                    )
                    (ground arith)
              | inr f ↦
                  let ne : t ≢ tid = ground arith in
                  rw (get_or-set_ne (bits_at s cid) t tid true false ne) (ground arith)
            ])
      | inr e ↦
          let ne : c ≢ cid = ground arith in
          rw (get_or-set_ne s.client_state c cid word [] ne) (ground arith)
    ]

module _ {T : Type 0} (tpc : ℕ) where
  signal_client-AreWords :
      (token : ℕ) (s : TimeServer T)
      → AreWords s.client_state
      → AreWords (signal_client tpc token s).client_state
        × (length (signal_client tpc token s).client_state ≡ length s.client_state)
  unfolding signal_client
  signal_client-AreWords token s h = elim (Bool-cases (ltb token (2 ^ 31))) [
    | inl e ↦ ground (arith, e, signal_timer-AreWords (token / tpc) (token % tpc) s h)
    | inr e ↦ ground (arith, e, h)
  ]

  pub bit-signal_client :
      (token : ℕ) (s : TimeServer T) (cid tid : ℕ)
      → AreWords s.client_state
      → cid < length s.client_state
      → tid < 32
      → bit (signal_client tpc token s) cid tid ≡ (names tpc token cid tid || bit s cid tid)
  unfolding signal_client
  bit-signal_client token s cid tid h hc ht = elim (Bool-cases (ltb token (2 ^ 31))) [
    | inl e ↦ ground (arith, e, bit-signal_timer (token / tpc) (token % tpc) s cid tid h hc ht)
    | inr e ↦ ground (arith, e)
  ]

  bit-signal_clients :
      (tokens : List ℕ) (s : TimeServer T) (cid tid : ℕ)
      → AreWords s.client_state
      → cid < length s.client_state
      → tid < 32
      → bit (signal_clients tpc tokens s) cid tid ≡ (any_names tpc tokens cid tid || bit s cid tid)
  unfolding signal_clients any_names
  bit-signal_clients [] s cid tid h hc ht = refl
  bit-signal_clients (token ∷ tokens) s cid tid h hc ht =
      let (h', len) = signal_client-AreWords token s h in
      ground (
        arith,
        bit-signal_clients tokens (signal_client tpc token s) cid tid h' (omega arith) ht,
        bit-signal_client token s cid tid h hc ht,
      )

  -- Between two calls of `completed` by a client, whatever tokens are signalled, the second call
  -- reports exactly those of the client's 32 timers whose token was, and the first call takes nothing
  -- from other clients. Each client has a word of 32 bits.
  pub completed_reports :
      (tokens : List ℕ) (s : TimeServer T) (cid tid other : ℕ)
      → AreWords s.client_state
      → cid < length s.client_state
      → tid < 32
      → other ≢ cid
      → let cleared = (completed cid s).1 in
        (get_or (completed cid (signal_clients tpc tokens cleared)).0 tid false
          ≡ any_names tpc tokens cid tid)
        × (bits_at cleared other ≡ bits_at s other)
  unfolding completed
  completed_reports tokens s cid tid other h hc ht ne =
      let cleared = (completed cid s).1 in
      let here = get_or-set_self s.client_state cid no_bits [] hc in
      let h' = AreWords-set s.client_state cid no_bits h (λ hi. length-replicate 32 false) in
      let empty = ap (λ (w : List Bool). get_or w tid false) here ∙ get_or-replicate 32 tid false in
      (
        ground (
          arith,
          bit-signal_clients tokens cleared cid tid h'
              (omega (arith, length-set s.client_state cid no_bits)) ht,
          empty,
        ),
        get_or-set_ne s.client_state cid other no_bits [] (λ e. ne (sym e)),
      )
