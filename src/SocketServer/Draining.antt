-- ===== src/SocketServer/Draining.antt =====
-- remote-drivers/picotcp-socket-sync/server/server.c: the loops over the rings end by finding them empty.
use global_components.Prelude.{
  ℕ, ◌≡◌, refl, ap, ◌∙◌, inl, inr, some, List, arith, ltb, Bool-cases, Option-cases, zero, suc, ◌<◌,
  [], length, ◌+◌, List-cases,
}
use global_components.Virtqueue.{IsDevice}
use global_components.Picoserver.Clients.{Pending}
use global_components.SocketServer.State.{Libs, Server, TxMsg, socket_of, object}
use global_components.SocketServer.Async.{
  Direction, tx, rx, set_queue, complete, add_used, tx_transfer, rx_transfer, tx_complete,
  rx_complete, is_error, to_size, is_short_rx, queue_of,
}
use global_components.SocketServer.Incoming.{
  ring, reject, wait_alone, wait_behind, tx_first, rx_first, first_attempt, offer, dispatch,
  take_msg, is_bad_len, with_ring, queue_loop, queue_handle,
}
use global_components.SocketServer.Linking.{tx_transfer-Kept, rx_transfer-Kept}

module _ {H A E K Q : Type 0} (lib : Libs H A E K Q) where
  abbrev pub waiting : Direction → Server H A E K Q → List ℕ
  waiting d s = lib.vq.avail (ring lib d s)

  add_used_avail :
      IsDevice lib.vq → (q : Q) (h len : ℕ) → lib.vq.avail (add_used lib q h len) ≡ lib.vq.avail q
  add_used_avail dev q h len =
      let (t, added, av, us) = dev.add_used q h len in
      let same : add_used lib q h len ≡ t = ground (arith, added) in rw same av

  waiting-complete :
      IsDevice lib.vq
      → (d : Direction) (cookie len : ℕ) (s : Server H A E K Q)
      → waiting d (complete lib d cookie len s) ≡ waiting d s
  unfolding tx_complete rx_complete
  waiting-complete dev tx cookie len s = add_used_avail dev s.tx_virtqueue cookie len
  waiting-complete dev rx cookie len s = add_used_avail dev s.rx_virtqueue cookie len

  waiting-set_queue :
      (d : Direction) (p : ℕ) (q : Pending) (s : Server H A E K Q)
      → waiting d (set_queue lib d p q s) ≡ waiting d s
  unfolding set_queue
  waiting-set_queue tx p q s = ground arith
  waiting-set_queue rx p q s = ground arith

  msgs_waiting :
      (d : Direction) (t : Server H A E K Q) (f : ℕ → TxMsg)
      → waiting d (record t { msgs = f }) ≡ waiting d t
  msgs_waiting tx t f = refl
  msgs_waiting rx t f = refl

  waiting-reject :
      IsDevice lib.vq
      → (d : Direction) (handle m : ℕ) (s : Server H A E K Q)
      → waiting d (reject lib d handle m s) ≡ waiting d s
  unfolding reject
  waiting-reject dev d handle m s = waiting-complete dev d handle 0 _ ∙ msgs_waiting d s _

  waiting-wait_alone :
      (d : Direction) (handle p m n : ℕ) (s : Server H A E K Q)
      → waiting d (wait_alone lib d handle p m n s) ≡ waiting d s
  unfolding wait_alone
  waiting-wait_alone d handle p m n s = waiting-set_queue d p _ _ ∙ msgs_waiting d s _

  waiting-tx_first :
      IsDevice lib.vq
      → (handle p m : ℕ) (s : Server H A E K Q)
      → waiting tx (tx_first lib handle p m s) ≡ waiting tx s
  unfolding tx_first
  waiting-tx_first dev handle p m s =
      let (ret, t) = tx_transfer lib p m 0 s in
      let total = (t.msgs m).total_len in
      let k = ap lib.vq.avail (tx_transfer-Kept lib p m 0 s).tx_ring in
      elim (Bool-cases (is_error ret)) [
        | inl e ↦ rw (e, tx_first) (waiting-reject dev tx handle m t ∙ k)
        | inr e ↦ elim (Bool-cases (ltb (to_size ret) total)) [
          | inl f ↦ rw (e, f, tx_first) (waiting-wait_alone tx handle p m (to_size ret) t ∙ k)
          | inr f ↦ rw (e, f, tx_first) (waiting-complete dev tx handle total _ ∙ k)
        ]
      ]

  waiting-rx_first :
      IsDevice lib.vq
      → (handle p m : ℕ) (s : Server H A E K Q)
      → waiting rx (rx_first lib handle p m s) ≡ waiting rx s
  unfolding rx_first
  waiting-rx_first dev handle p m s =
      let (ret, t) = rx_transfer lib p m 0 s in
      let k = ap lib.vq.avail (rx_transfer-Kept lib p m 0 s).rx_ring in
      elim (Bool-cases (is_error ret)) [
        | inl e ↦ rw (e, rx_first) (waiting-reject dev rx handle m t ∙ k)
        | inr e ↦ elim (Bool-cases (is_short_rx lib p ret (t.msgs m).total_len t)) [
          | inl f ↦ rw (e, f, rx_first) (waiting-wait_alone rx handle p m (to_size ret) t ∙ k)
          | inr f ↦ rw (e, f, rx_first) (waiting-complete dev rx handle (to_size ret) _ ∙ k)
        ]
      ]

  waiting-first_attempt :
      IsDevice lib.vq
      → (d : Direction) (handle p m : ℕ) (s : Server H A E K Q)
      → waiting d (first_attempt lib d handle p m s) ≡ waiting d s
  waiting-first_attempt dev tx handle p m s = waiting-tx_first dev handle p m s
  waiting-first_attempt dev rx handle p m s = waiting-rx_first dev handle p m s

  waiting-wait_behind :
      (d : Direction) (handle p m e : ℕ) (s : Server H A E K Q)
      → waiting d (wait_behind lib d handle p m e s) ≡ waiting d s
  unfolding wait_behind
  waiting-wait_behind d handle p m e s = waiting-set_queue d p _ _ ∙ msgs_waiting d s _

  -- A state that is known to be the result.
  result_waiting :
      (d : Direction) (s t u : Server H A E K Q)
      → some u ≡ some t
      → waiting d u ≡ waiting d s
      → waiting d t ≡ waiting d s
  result_waiting d s t u e w = let same : u ≡ t = cc in rw same at w

  offer-waiting :
      IsDevice lib.vq
      → (d : Direction) (handle p m : ℕ) (s t : Server H A E K Q)
      → offer lib d handle p m s ≡ some t
      → waiting d t ≡ waiting d s
  unfolding offer
  offer-waiting dev d handle p m s t o = elim (Option-cases (queue_of lib d p s).queue) [
    | inl e ↦ result_waiting d s t _ (rw (e, offer) at o) (waiting-first_attempt dev d handle p m s)
    | inr (x, e) ↦ elim (Option-cases (queue_of lib d p s).queue_end) [
      | inl f ↦ let no = rw (e, f, offer) at o in absurd (ground (arith, no))
      | inr (y, f) ↦
          result_waiting d s t _ (rw (e, f, offer) at o) (waiting-wait_behind d handle p m y s)
    ]
  ]

  dispatch-waiting :
      IsDevice lib.vq
      → (d : Direction) (handle m : ℕ) (s t : Server H A E K Q) → dispatch lib d handle m s ≡ some t
      → waiting d t ≡ waiting d s
  unfolding dispatch
  dispatch-waiting dev d handle m s t o =
      let rejected = waiting-reject dev d handle m s in
      elim (Option-cases (socket_of lib 0 (s.msgs m).socket_fd s)) [
        | inl e ↦ result_waiting d s t _ (rw (e, dispatch) at o) rejected
        | inr (p, e) ↦ elim (Option-cases (object lib p s).socket) [
          | inl f ↦ result_waiting d s t _ (rw (e, f, dispatch) at o) rejected
          | inr (a, f) ↦ elim (Option-cases (object lib p s).async_transport) [
            | inl g ↦ result_waiting d s t _ (rw (e, f, g, dispatch) at o) rejected
            | inr (q, g) ↦ offer-waiting dev d handle p m s t (rw (e, f, g, dispatch) at o)
          ]
        ]
      ]

  take_msg-waiting :
      IsDevice lib.vq
      → (d : Direction) (handle : ℕ) (s t : Server H A E K Q) → take_msg lib d handle s ≡ some t
      → waiting d t ≡ waiting d s
  unfolding take_msg
  take_msg-waiting dev d handle s t o =
      elim (Option-cases (lib.vq.gather_available (ring lib d s) handle)) [
        | inl e ↦ let no = rw (e, take_msg) at o in absurd (ground (arith, no))
        | inr ((buf, len), e) ↦ elim (Option-cases (lib.decode buf)) [
          | inl f ↦ let no = rw (e, f, take_msg) at o in absurd (ground (arith, no))
          | inr (m, f) ↦ elim (Bool-cases (is_bad_len lib (s.msgs m).total_len)) [
            | inl g ↦ let no = rw (e, f, g, take_msg) at o in absurd (ground (arith, no))
            | inr g ↦ dispatch-waiting dev d handle m s t (rw (e, f, g, take_msg) at o)
          ]
        ]
      ]

  waiting-with_ring :
      (d : Direction) (q : Q) (s : Server H A E K Q)
      → waiting d (with_ring lib d q s) ≡ lib.vq.avail q
  waiting-with_ring tx q s = refl
  waiting-with_ring rx q s = refl

  queue_loop-drains :
      IsDevice lib.vq
      → (d : Direction) (P : Server H A E K Q → Type 0)
      → ((s : Server H A E K Q) (h : ℕ) (q : Q)
          → P s
          → lib.vq.get_available_buf (ring lib d s) ≡ some (h, q)
          → (t : Server H A E K Q) × (take_msg lib d h (with_ring lib d q s) ≡ some t) × P t)
      → (fuel : ℕ) (s : Server H A E K Q) → length (waiting d s) < fuel
      → P s
      → (t : Server H A E K Q) × (queue_loop lib d fuel s ≡ some t) × P t × (waiting d t ≡ [])
  unfolding queue_loop
  queue_loop-drains dev d P keep zero s h p = absurd (omega arith)
  queue_loop-drains dev d P keep (suc fuel) s h p = elim (List-cases (waiting d s)) [
    | inl e ↦ (s, rw (dev.get_none (ring lib d s) e, queue_loop) refl, p, e)
    | inr (x, hs, e) ↦
        let (q, got, av, us) = dev.get_first (ring lib d s) x hs e in
        let (t, taken, pt) = keep s x q p got in
        let left =
          take_msg-waiting dev d x (with_ring lib d q s) t taken ∙ waiting-with_ring d q s ∙ av in
        let shorter : length (waiting d t) < fuel = omega (arith, ap length left, ap length e, h) in
        let (u, loop, pu, none_left) = queue_loop-drains dev d P keep fuel t shorter pt in
        (u, rw (got, taken, queue_loop) loop, pu, none_left)
  ]

  -- The loop over a ring ends with the ring empty, and the rounds that it is given are enough, if no
  -- message is a fatal error: then every message that waited has been taken.
  pub queue_handle-drains :
      IsDevice lib.vq
      → (d : Direction) (P : Server H A E K Q → Type 0)
      → ((s : Server H A E K Q) (h : ℕ) (q : Q)
          → P s
          → lib.vq.get_available_buf (ring lib d s) ≡ some (h, q)
          → (t : Server H A E K Q) × (take_msg lib d h (with_ring lib d q s) ≡ some t) × P t)
      → (s : Server H A E K Q) → P s
      → (t : Server H A E K Q) × (queue_handle lib d s ≡ some t) × P t × (waiting d t ≡ [])
  unfolding queue_handle
  queue_handle-drains dev d P keep s p =
      queue_loop-drains dev d P keep (length (waiting d s) + 1) s (omega arith) p
