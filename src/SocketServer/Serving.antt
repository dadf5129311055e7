-- ===== src/SocketServer/Serving.antt =====
-- remote-drivers/picotcp-socket-sync/server/server.c: `tx_socket` and `rx_socket` complete the messages of a
-- socket in their order.
use global_components.Prelude.{
  ℕ, ◌≡◌, refl, ◌∙◌, inl, inr, List, [], ◌∷◌, ◌++◌, map, arith, Bool-cases, ap, Bool, false, some,
  zero, suc, ◌+◌, ◌-◌, ◌%◌, ◌^◌, ◌<◌, sym, ap₂, true, ltb, length, ◌⊎◌,
}
use mathlib.Core.List.{append-nil, append_assoc}
use global_components.Virtqueue.{IsDevice}
use global_components.SocketServer.State.{Libs, Server, TxMsg}
use global_components.SocketServer.Pending.{SameLinks, last}
use global_components.SocketServer.Async.{
  Direction, tx, rx, with_done, tx_transfer, rx_transfer, finish, round, socket_loop, tx_round,
  rx_round, is_error, to_size, bytes_left, is_short_rx,
}
use global_components.SocketServer.Linking.{
  Kept, Waits, returned_handles, with_done-Kept, tx_transfer-Kept, rx_transfer-Kept, Kept-trans,
  Kept-Waits, finish-Waits, Kept-used,
}

module _ {H A E K Q : Type 0} (lib : Libs H A E K Q) where
  -- What a round for the first message `m` leaves: it has gone, with its handle returned, or it stays the
  -- first of those that wait.
  data Advance (d : Direction) (p m : ℕ) (s t : Server H A E K Q) (xs : List ℕ)
      : Bool → Type 0 where
    gone :
        {more : Bool}
        → Waits lib d p t xs
        → returned_handles lib d t ≡ returned_handles lib d s ++ (s.msgs m).cookie_save ∷ []
        → Advance d p m s t xs more
    stays :
        {more : Bool}
        → more ≡ false
        → Waits lib d p t (m ∷ xs)
        → returned_handles lib d t ≡ returned_handles lib d s
        → Advance d p m s t xs more

  -- A message that is finished after changes that keep the queues.
  finish_gone :
      IsDevice lib.vq
      → (d : Direction) (p m len : ℕ) (s t : Server H A E K Q) (xs : List ℕ) (more : Bool)
      → Waits lib d p s (m ∷ xs)
      → Kept s t
      → SameLinks s.msgs (finish lib d p m len t).msgs
        × Advance d p m s (finish lib d p m len t) xs more
  finish_gone dev d p m len s t xs more w k =
      let (w', same, used) =
        finish-Waits lib dev d p m len t xs (Kept-Waits lib d p s t (m ∷ xs) k w) in
      (
        rw same k.links,
        gone w' (
            used
            ∙ ap₂ (λ (us : List ℕ) (c : ℕ). us ++ c ∷ []) (Kept-used lib d s t k)
                (k.links.cookie m)),
      )

  stays_put :
      (d : Direction) (p m : ℕ) (s t : Server H A E K Q) (xs : List ℕ)
      → Waits lib d p s (m ∷ xs)
      → Kept s t
      → SameLinks s.msgs t.msgs × Advance d p m s t xs false
  stays_put d p m s t xs w k =
      (k.links, stays refl (Kept-Waits lib d p s t (m ∷ xs) k w) (Kept-used lib d s t k))

  tx_round-Advance :
      IsDevice lib.vq
      → (p m : ℕ) (s : Server H A E K Q) (xs : List ℕ) → Waits lib tx p s (m ∷ xs)
      → let (more, t) = tx_round lib p m s in SameLinks s.msgs t.msgs × Advance tx p m s t xs more
  unfolding tx_round
  tx_round-Advance dev p m s xs w =
      let done_len = (s.msgs m).done_len in
      let (ret, t) = tx_transfer lib p m done_len s in
      let k = tx_transfer-Kept lib p m done_len s in
      let after =
        λ (n : ℕ). Kept-trans lib s t (with_done lib m n t) k (with_done-Kept lib m n t) in
      elim (Bool-cases (is_error ret)) [
        | inl e ↦ rw (e, tx_round) (finish_gone dev tx p m 0 s _ xs true w (after (2 ^ 64 - 1)))
        | inr e ↦ elim (Bool-cases (ltb (to_size ret) (bytes_left lib m done_len t))) [
          | inl f ↦
              rw (e, f, tx_round)
                (stays_put tx p m s _ xs w (after ((done_len + to_size ret) % 2 ^ 64)))
          | inr f ↦
              let total = (t.msgs m).total_len in
              rw (e, f, tx_round) (finish_gone dev tx p m total s _ xs true w (after total))
        ]
      ]

  rx_round-Advance :
      IsDevice lib.vq
      → (p m : ℕ) (s : Server H A E K Q) (xs : List ℕ) → Waits lib rx p s (m ∷ xs)
      → let (more, t) = rx_round lib p m s in SameLinks s.msgs t.msgs × Advance rx p m s t xs more
  unfolding rx_round
  rx_round-Advance dev p m s xs w =
      let done_len = (s.msgs m).done_len in
      let (ret, t) = rx_transfer lib p m done_len s in
      let k = rx_transfer-Kept lib p m done_len s in
      let after =
        λ (n : ℕ). Kept-trans lib s t (with_done lib m n t) k (with_done-Kept lib m n t) in
      let n = (done_len + to_size ret) % 2 ^ 64 in
      elim (Bool-cases (is_error ret)) [
        | inl e ↦ rw (e, rx_round) (finish_gone dev rx p m 0 s _ xs false w (after (2 ^ 64 - 1)))
        | inr e ↦ elim (Bool-cases (is_short_rx lib p ret (bytes_left lib m done_len t) t)) [
          | inl f ↦ rw (e, f, rx_round) (stays_put rx p m s _ xs w (after n))
          | inr f ↦ rw (e, f, rx_round) (finish_gone dev rx p m _ s _ xs true w (after n))
        ]
      ]

  round-Advance :
      IsDevice lib.vq
      → (d : Direction) (p m : ℕ) (s : Server H A E K Q) (xs : List ℕ) → Waits lib d p s (m ∷ xs)
      → let (more, t) = round lib d p m s in SameLinks s.msgs t.msgs × Advance d p m s t xs more
  round-Advance dev tx p m s xs w = tx_round-Advance dev p m s xs w
  round-Advance dev rx p m s xs w = rx_round-Advance dev p m s xs w

  -- From `s` to `t` the first of the messages `xs` of the socket at `p` have been returned, in their order
  -- and each once, and the others wait as before. The last round is one that stops, unless none waits.
  pub record Served (d : Direction) (p : ℕ) (s t : Server H A E K Q) (xs : List ℕ) : Type 0 where
    pub finished : List ℕ
    pub rest : List ℕ
    pub split : xs ≡ finished ++ rest
    pub waits : Waits lib d p t rest
    pub stopped :
        (rest ≡ [])
        ⊎ ((u : Server H A E K Q) × (m : ℕ) × (ys : List ℕ) × Waits lib d p u (m ∷ ys)
            × (round lib d p m u ≡ (false, t)))
    pub returned :
        returned_handles lib d t
        ≡ returned_handles lib d s ++ map (λ m. (s.msgs m).cookie_save) finished

  none_Served :
      (d : Direction) (p : ℕ) (s : Server H A E K Q) → Waits lib d p s [] → Served d p s s []
  none_Served d p s w = record {
    finished = [];
    rest = [];
    split = refl;
    waits = w;
    stopped = inl refl;
    returned = sym (append-nil _);
  }

  pub cookies_same :
      (f g : ℕ → TxMsg) (xs : List ℕ)
      → SameLinks f g
      → map (λ m. (g m).cookie_save) xs ≡ map (λ m. (f m).cookie_save) xs
  cookies_same f g [] h = refl
  cookies_same f g (x ∷ xs) h = ap₂ (◌∷◌) (h.cookie x) (cookies_same f g xs h)

  -- A round that returns the first message, and what serves the others.
  then_Served :
      (d : Direction) (p m : ℕ) (s t u : Server H A E K Q) (xs : List ℕ)
      → SameLinks s.msgs t.msgs
      → returned_handles lib d t ≡ returned_handles lib d s ++ (s.msgs m).cookie_save ∷ []
      → Served d p t u xs
      → Served d p s u (m ∷ xs)
  then_Served d p m s t u xs h used v = record {
    finished = m ∷ v.finished;
    rest = v.rest;
    split = ap (◌∷◌ m) v.split;
    waits = v.waits;
    stopped = v.stopped;
    returned =
        v.returned
        ∙ ap₂ (◌++◌) used (cookies_same s.msgs t.msgs v.finished h)
        ∙ append_assoc (returned_handles lib d s) _ _;
  }

  -- A round that stops.
  stop_Served :
      (d : Direction) (p m : ℕ) (s t : Server H A E K Q) (xs : List ℕ)
      → Waits lib d p s (m ∷ xs)
      → round lib d p m s ≡ (false, t)
      → Advance d p m s t xs false
      → Served d p s t (m ∷ xs)
  stop_Served d p m s t xs v e (gone w used) = record {
    finished = m ∷ [];
    rest = xs;
    split = refl;
    waits = w;
    stopped = inr (s, m, xs, v, e);
    returned = used;
  }
  stop_Served d p m s t xs v e (stays f w used) = record {
    finished = [];
    rest = m ∷ xs;
    split = refl;
    waits = w;
    stopped = inr (s, m, xs, v, e);
    returned = used ∙ sym (append-nil _);
  }

  loop_step :
      (d : Direction) (fuel p m : ℕ) (s t : Server H A E K Q) (xs : List ℕ) (more : Bool)
      → Waits lib d p s (m ∷ xs)
      → round lib d p m s ≡ (more, t)
      → SameLinks s.msgs t.msgs
      → Advance d p m s t xs more
      → (Waits lib d p t xs
          → (u : Server H A E K Q) × (socket_loop lib d fuel p t ≡ some u) × Served d p t u xs)
      → (u : Server H A E K Q) × ((elim more [ true ↦ socket_loop lib d fuel p t | false ↦ some t ])
          ≡ some u)
        × Served d p s u (m ∷ xs)
  loop_step d fuel p m s t xs true v e h (gone w used) later =
      let (u, l, r) = later w in (u, l, then_Served d p m s t u xs h used r)
  loop_step d fuel p m s t xs true v e h (stays f w used) later = absurd (ground arith)
  loop_step d fuel p m s t xs false v e h advance later =
      (t, refl, stop_Served d p m s t xs v e advance)

  pub last_some : (x : ℕ) (xs : List ℕ) → (e : ℕ) × (last (x ∷ xs) ≡ some e)
  last_some x [] = (x, refl)
  last_some x (y ∷ xs) = last_some y xs

  -- The loop over the messages that wait at a socket ends, given more rounds than there are messages. The
  -- first of them are finished: their handles are returned, in order and each once. The others wait
  -- as before, and then the last round was one that stops: the stack took or gave too little for the
  -- message, or failed in receiving it.
  pub socket_loop-Served :
      IsDevice lib.vq
      → (d : Direction) (fuel p : ℕ) (s : Server H A E K Q) (xs : List ℕ) → length xs < fuel
      → Waits lib d p s xs
      → (t : Server H A E K Q) × (socket_loop lib d fuel p s ≡ some t) × Served d p s t xs
  unfolding socket_loop
  socket_loop-Served dev d zero p s xs h w = absurd (omega arith)
  socket_loop-Served dev d (suc fuel) p s [] h w =
      (s, rw (w.pending.head, socket_loop) refl, none_Served d p s w)
  socket_loop-Served dev d (suc fuel) p s (m ∷ xs) h w =
      let (e, l) = last_some m xs in
      let tail = w.pending.tail ∙ l in
      let (same, advance) = round-Advance dev d p m s xs w in
      rw (w.pending.head, tail, socket_loop)
        (loop_step d fuel p m s _ xs _ w refl same advance
          (socket_loop-Served dev d fuel p _ xs (omega arith)))
