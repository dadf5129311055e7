-- ===== src/SocketServer/Accepting.antt =====
-- remote-drivers/picotcp-socket-sync/server/server.c: `tx_queue_handle` and `rx_queue_handle` take each message
-- in turn, and none is lost.
use global_components.Prelude.{
  ℕ, ◌≡◌, ap, ◌∙◌, ◌≢◌, inl, inr, none, some, List, [], ◌∷◌, ◌++◌, arith, Option-cases, ◌-◌, ◌^◌,
  refl, false, ltb, Bool-cases,
}
use global_components.Virtqueue.{IsDevice}
use global_components.Picoserver.Clients.{Pending}
use global_components.SocketServer.State.{Libs, Server, object, update, TxMsg, socket_of}
use global_components.SocketServer.Pending.{alone-IsPending, link_msg, IsAbsent, link_msg-IsPending}
use global_components.SocketServer.Async.{
  Direction, complete, queue_of, rx, tx, tx_transfer, rx_transfer, with_done, is_error, to_size,
  is_short_rx,
}
use global_components.SocketServer.Incoming.{
  wait_alone, offer, rx_first, wait_behind, take_msg, tx_first, dispatch, reject, ring, is_bad_len,
}
use global_components.SocketServer.Serving.{last_some}
use global_components.SocketServer.Linking.{
  Waits, Kept, Kept-Waits, returned_handles, Kept-used, queue_of-set_queue, set_queue-Requeued,
  same_rings, complete_pico, complete_used, same_pico-Waits, tx_transfer-Kept, rx_transfer-Kept,
  Kept-trans, with_done-Kept,
}

module _ {H A E K Q : Type 0} (lib : Libs H A E K Q) where
  -- What becomes of message `m` with its handle, at the socket at `p` that holds the messages `xs`: it is
  -- returned and they wait as before, or it waits behind them and keeps the handle.
  pub data Taken (d : Direction) (handle p m : ℕ) (s t : Server H A E K Q) (xs : List ℕ)
      : Type 0 where
    back :
        Waits lib d p t xs
        → returned_handles lib d t ≡ returned_handles lib d s ++ handle ∷ []
        → Taken d handle p m s t xs
    kept :
        Waits lib d p t (xs ++ m ∷ [])
        → (t.msgs m).cookie_save ≡ handle
        → returned_handles lib d t ≡ returned_handles lib d s
        → Taken d handle p m s t xs

  complete-Taken :
      IsDevice lib.vq
      → (d : Direction) (handle p m len : ℕ) (s t : Server H A E K Q) (xs : List ℕ)
      → Waits lib d p s xs
      → Kept s t
      → Taken d handle p m s (complete lib d handle len t) xs
  complete-Taken dev d handle p m len s t xs w k =
      let (pico, msgs) = complete_pico lib d handle len t in
      back (same_pico-Waits lib d p t _ xs pico msgs (Kept-Waits lib d p s t xs k w)) (
        complete_used lib dev d handle len t
        ∙ ap (λ (us : List ℕ). us ++ handle ∷ []) (Kept-used lib d s t k))

  msgs_used :
      (d : Direction) (t : Server H A E K Q) (f : ℕ → TxMsg)
      → returned_handles lib d (record t { msgs = f }) ≡ returned_handles lib d t
  msgs_used tx t f = refl
  msgs_used rx t f = refl

  wait_alone-Taken :
      (d : Direction) (handle p m n : ℕ) (s t : Server H A E K Q)
      → Waits lib d p s []
      → Kept s t
      → Taken d handle p m s (wait_alone lib d handle p m n t) []
  unfolding wait_alone
  wait_alone-Taken d handle p m n s t w k =
      let msg = record (t.msgs m) { done_len = n; next = none; cookie_save = handle } in
      let u = record t { msgs = update t.msgs m msg } in
      let q : Pending = record { queue = some m; queue_end = some m } in
      let active : (object lib p u).async_transport ≢ none = rw k.pico w.active in
      elim (Option-cases (object lib p u).async_transport) [
        | inl e ↦ absurd (active e)
        | inr (a, e) ↦
            let h = set_queue-Requeued lib d p q u a e in
            kept
              (record {
                active = h.active;
                pending =
                    rw (queue_of-set_queue lib d p q u a e, h.msgs)
                      (alone-IsPending u.msgs m (ground arith));
              })
              (rw h.msgs (ground arith))
              (same_rings lib d u _ h ∙ (msgs_used d t u.msgs ∙ Kept-used lib d s t k))
      ]

  link_msg_cookie :
      (f : ℕ → TxMsg) (e m handle : ℕ) → (link_msg f e m handle m).cookie_save ≡ handle
  unfolding link_msg
  link_msg_cookie f e m handle = ground arith

  wait_behind-Taken :
      (d : Direction) (handle p m e : ℕ) (s : Server H A E K Q) (xs : List ℕ)
      → Waits lib d p s xs
      → IsAbsent m xs
      → (queue_of lib d p s).queue_end ≡ some e
      → Taken d handle p m s (wait_behind lib d handle p m e s) xs
  unfolding wait_behind
  wait_behind-Taken d handle p m e s xs w absent end' =
      let u = record s { msgs = link_msg s.msgs e m handle } in
      let q = record (queue_of lib d p s) { queue_end = some m } in
      let active : (object lib p u).async_transport ≢ none = w.active in
      elim (Option-cases (object lib p u).async_transport) [
        | inl g ↦ absurd (active g)
        | inr (a, g) ↦
            let h = set_queue-Requeued lib d p q u a g in
            kept
              (record {
                active = h.active;
                pending =
                    rw (queue_of-set_queue lib d p q u a g, h.msgs)
                      (link_msg-IsPending s.msgs (queue_of lib d p s) e m handle xs w.pending absent
                        end');
              })
              (rw h.msgs (link_msg_cookie s.msgs e m handle))
              (same_rings lib d u _ h ∙ msgs_used d s u.msgs)
      ]

  tx_first-Taken :
      IsDevice lib.vq
      → (handle p m : ℕ) (s : Server H A E K Q) → Waits lib tx p s []
      → Taken tx handle p m s (tx_first lib handle p m s) []
  unfolding tx_first reject
  tx_first-Taken dev handle p m s w =
      let (ret, t) = tx_transfer lib p m 0 s in
      let k = tx_transfer-Kept lib p m 0 s in
      let after =
        λ (n : ℕ). Kept-trans lib s t (with_done lib m n t) k (with_done-Kept lib m n t) in
      let total = (t.msgs m).total_len in
      elim (Bool-cases (is_error ret)) [
        | inl e ↦
            rw (e, tx_first) (complete-Taken dev tx handle p m 0 s _ [] w (after (2 ^ 64 - 1)))
        | inr e ↦ elim (Bool-cases (ltb (to_size ret) total)) [
          | inl f ↦ rw (e, f, tx_first) (wait_alone-Taken tx handle p m (to_size ret) s t w k)
          | inr f ↦
              rw (e, f, tx_first) (complete-Taken dev tx handle p m total s _ [] w (after total))
        ]
      ]

  rx_first-Taken :
      IsDevice lib.vq
      → (handle p m : ℕ) (s : Server H A E K Q) → Waits lib rx p s []
      → Taken rx handle p m s (rx_first lib handle p m s) []
  unfolding rx_first reject
  rx_first-Taken dev handle p m s w =
      let (ret, t) = rx_transfer lib p m 0 s in
      let k = rx_transfer-Kept lib p m 0 s in
      let after =
        λ (n : ℕ). Kept-trans lib s t (with_done lib m n t) k (with_done-Kept lib m n t) in
      elim (Bool-cases (is_error ret)) [
        | inl e ↦
            rw (e, rx_first) (complete-Taken dev rx handle p m 0 s _ [] w (after (2 ^ 64 - 1)))
        | inr e ↦ elim (Bool-cases (is_short_rx lib p ret (t.msgs m).total_len t)) [
          | inl f ↦ rw (e, f, rx_first) (wait_alone-Taken rx handle p m (to_size ret) s t w k)
          | inr f ↦
              rw (e, f, rx_first)
                (complete-Taken dev rx handle p m (to_size ret) s _ [] w (after (to_size ret)))
        ]
      ]

  offer-Taken :
      IsDevice lib.vq
      → (d : Direction) (handle p m : ℕ) (s : Server H A E K Q) (xs : List ℕ) → Waits lib d p s xs
      → IsAbsent m xs
      → (t : Server H A E K Q) × (offer lib d handle p m s ≡ some t) × Taken d handle p m s t xs
  unfolding offer
  offer-Taken dev tx handle p m s [] w absent =
      (_, rw (w.pending.head, offer) refl, tx_first-Taken dev handle p m s w)
  offer-Taken dev rx handle p m s [] w absent =
      (_, rw (w.pending.head, offer) refl, rx_first-Taken dev handle p m s w)
  offer-Taken dev d handle p m s (x ∷ xs) w absent =
      let (e, l) = last_some lib x xs in
      let tail = w.pending.tail ∙ l in
      (
        wait_behind lib d handle p m e s,
        rw (w.pending.head, tail, offer) refl,
        wait_behind-Taken d handle p m e s (x ∷ xs) w absent tail,
      )

  -- A message that is taken from a ring, for a socket of client 0 with asynchronous transport, is not lost:
  -- its handle is returned at once, or it waits behind the messages of the socket and keeps the
  -- handle. The handle must have a buffer that is a message of 1 to 1400 bytes.
  pub take_msg-Taken :
      IsDevice lib.vq
      → (d : Direction) (handle buf len p a m : ℕ) (s : Server H A E K Q) (xs : List ℕ)
      → lib.vq.gather_available (ring lib d s) handle ≡ some (buf, len)
      → lib.decode buf ≡ some m
      → is_bad_len lib (s.msgs m).total_len ≡ false
      → socket_of lib 0 (s.msgs m).socket_fd s ≡ some p
      → (object lib p s).socket ≡ some a
      → Waits lib d p s xs
      → IsAbsent m xs
      → (t : Server H A E K Q) × (take_msg lib d handle s ≡ some t) × Taken d handle p m s t xs
  unfolding take_msg dispatch
  take_msg-Taken dev d handle buf len p a m s xs g dec good fd sock w absent =
      elim (Option-cases (object lib p s).async_transport) [
        | inl e ↦ absurd (w.active e)
        | inr (t, e) ↦
            let (u, o, taken) = offer-Taken dev d handle p m s xs w absent in
            (u, rw (g, dec, good, fd, sock, e, take_msg, dispatch) o, taken)
      ]
