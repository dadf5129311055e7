-- ===== src/SocketServer/Cleanup.antt =====
-- remote-drivers/picotcp-socket-sync/server/server.c: `cleanup_async_socket` returns every message.
use global_components.Prelude.{
  ℕ, zero, suc, ◌-◌, ◌^◌, ◌<◌, ◌≡◌, refl, sym, ap₂, ◌∙◌, inl, inr, none, some, List, [], ◌∷◌, ◌++◌,
  map, arith, Option-cases, length,
}
use mathlib.Core.List.{append_assoc, append-nil}
use global_components.Virtqueue.{IsDevice}
use global_components.Picoserver.Clients.{Pending, PicoserverSocketAsync}
use global_components.SocketServer.State.{Libs, Server, TxMsg, object}
use global_components.SocketServer.Pending.{pop_pending, SameLinks}
use global_components.SocketServer.Async.{
  Direction, tx, rx, queue_of, set_queue, complete, with_done, finish, tx_complete, rx_complete,
  with_object,
}
use global_components.SocketServer.Closing.{cleanup_loop, cleanup_async_socket}
use global_components.SocketServer.Linking.{
  Waits, Kept-Waits, with_done-Kept, finish-Waits, returned_handles, Kept-used, SameLinks-trans,
  set_queue-Requeued, complete_pico, same_pico-Waits,
}
use global_components.SocketServer.Serving.{last_some, cookies_same}

abbrev pub opposite : Direction → Direction
opposite tx = rx
opposite rx = tx

-- The handles that the messages keep.
abbrev pub cookies : (ℕ → TxMsg) → List ℕ → List ℕ
cookies f xs = map (λ m. (f m).cookie_save) xs

module _ {H A E K Q : Type 0} (lib : Libs H A E K Q) where
  queue_of-set_queue-opposite :
      (d : Direction) (p : ℕ) (q : Pending) (s : Server H A E K Q) (a : PicoserverSocketAsync)
      → (object lib p s).async_transport ≡ some a
      → queue_of lib (opposite d) p (set_queue lib d p q s) ≡ queue_of lib (opposite d) p s
  unfolding queue_of set_queue
  queue_of-set_queue-opposite tx p q s a e = ground (arith, e)
  queue_of-set_queue-opposite rx p q s a e = ground (arith, e)

  opposite_used :
      (d : Direction) (p cookie len : ℕ) (q : Pending) (s : Server H A E K Q)
      (a : PicoserverSocketAsync)
      → (object lib p s).async_transport ≡ some a
      → returned_handles lib (opposite d) (complete lib d cookie len (set_queue lib d p q s))
        ≡ returned_handles lib (opposite d) s
  unfolding tx_complete rx_complete set_queue
  opposite_used tx p cookie len q s a e = ground (arith, e)
  opposite_used rx p cookie len q s a e = ground (arith, e)

  -- The end of a message leaves the other direction of its socket alone.
  finish-opposite :
      (d : Direction) (p m len : ℕ) (s : Server H A E K Q) (ys : List ℕ)
      → Waits lib (opposite d) p s ys
      → Waits lib (opposite d) p (finish lib d p m len s) ys
        × (returned_handles lib (opposite d) (finish lib d p m len s)
            ≡ returned_handles lib (opposite d) s)
  unfolding finish
  finish-opposite d p m len s ys w = elim (Option-cases (object lib p s).async_transport) [
    | inl e ↦ absurd (w.active e)
    | inr (a, e) ↦
        let q = pop_pending s.msgs m (queue_of lib d p s) in
        let t = set_queue lib d p q s in
        let h = set_queue-Requeued lib d p q s a e in
        let cookie = (s.msgs m).cookie_save in
        let waits : Waits lib (opposite d) p t ys = record {
          active = h.active;
          pending = rw (queue_of-set_queue-opposite d p q s a e, h.msgs) w.pending;
        } in
        let (pico, msgs) = complete_pico lib d cookie len t in
        (
          same_pico-Waits lib (opposite d) p t _ ys pico msgs waits,
          opposite_used d p cookie len q s a e,
        )
  ]

  -- From `s` to `t` all the messages `xs` of the socket at `p` in one direction have been returned, in their
  -- order, and the other direction is as before.
  pub record Emptied (d : Direction) (p : ℕ) (s t : Server H A E K Q) (xs ys : List ℕ)
      : Type 0 where
    pub waits : Waits lib d p t []
    pub returned : returned_handles lib d t ≡ returned_handles lib d s ++ cookies s.msgs xs
    pub other : Waits lib (opposite d) p t ys
    pub kept : returned_handles lib (opposite d) t ≡ returned_handles lib (opposite d) s
    pub links : SameLinks s.msgs t.msgs

  cleanup_loop-Emptied :
      IsDevice lib.vq
      → (d : Direction) (fuel p : ℕ) (s : Server H A E K Q) (xs ys : List ℕ) → length xs < fuel
      → Waits lib d p s xs
      → Waits lib (opposite d) p s ys
      → (t : Server H A E K Q) × (cleanup_loop lib d fuel p s ≡ some t) × Emptied d p s t xs ys
  unfolding cleanup_loop
  cleanup_loop-Emptied dev d zero p s xs ys h w v = absurd (omega arith)
  cleanup_loop-Emptied dev d (suc fuel) p s [] ys h w v = (
    s,
    rw (w.pending.head, cleanup_loop) refl,
    record {
      waits = w;
      returned = sym (append-nil _);
      other = v;
      kept = refl;
      links = record { next = λ m. refl; cookie = λ m. refl };
    },
  )
  cleanup_loop-Emptied dev d (suc fuel) p s (m ∷ xs) ys h w v =
      let (e, l) = last_some lib m xs in
      let tail = w.pending.tail ∙ l in
      let s' = with_done lib m (2 ^ 64 - 1) s in
      let k = with_done-Kept lib m (2 ^ 64 - 1) s in
      let t = finish lib d p m 0 s' in
      let (w', msgs, used) =
        finish-Waits lib dev d p m 0 s' xs (Kept-Waits lib d p s s' (m ∷ xs) k w) in
      let (v', kept) = finish-opposite d p m 0 s' ys (Kept-Waits lib (opposite d) p s s' ys k v) in
      let links : SameLinks s.msgs t.msgs = rw msgs k.links in
      let (u, eq, r) = cleanup_loop-Emptied dev d fuel p t xs ys (omega arith) w' v' in
      (
        u,
        rw (w.pending.head, tail, cleanup_loop) eq,
        record {
          waits = r.waits;
          returned =
              r.returned
              ∙ ap₂ (◌++◌)
                  (used
                    ∙ ap₂ (λ (us : List ℕ) (c : ℕ). us ++ c ∷ []) (Kept-used lib d s s' k)
                        (k.links.cookie m))
                  (cookies_same lib s.msgs t.msgs xs links)
              ∙ append_assoc (returned_handles lib d s) _ _;
          other = r.other;
          kept = r.kept ∙ kept ∙ Kept-used lib (opposite d) s s' k;
          links = SameLinks-trans s.msgs t.msgs u.msgs links r.links;
        },
      )

  -- When the asynchronous transport of a socket ends, every message that waits at it is returned to the
  -- client, in order, in both directions; the loops end, as long as they are given enough rounds.
  pub cleanup_async_socket_lem :
      IsDevice lib.vq
      → (p : ℕ) (s : Server H A E K Q) (xs ys : List ℕ) → length xs < lib.tries
      → length ys < lib.tries
      → Waits lib tx p s xs
      → Waits lib rx p s ys
      → (t : Server H A E K Q) × (cleanup_async_socket lib p s ≡ some t)
        × ((object lib p t).async_transport ≡ none)
        × (returned_handles lib tx t ≡ returned_handles lib tx s ++ cookies s.msgs xs)
        × (returned_handles lib rx t ≡ returned_handles lib rx s ++ cookies s.msgs ys)
  unfolding cleanup_async_socket
  cleanup_async_socket_lem dev p s xs ys hx hy w v =
      elim (Option-cases (object lib p s).async_transport) [
        | inl e ↦ absurd (w.active e)
        | inr (a, e) ↦
            let (t, et, rt) = cleanup_loop-Emptied dev tx lib.tries p s xs ys hx w v in
            let (u, eu, ru) =
              cleanup_loop-Emptied dev rx lib.tries p t ys [] hy rt.other rt.waits in
            (
              with_object lib p (record (object lib p u) { async_transport = none }) u,
              rw (e, et, eu, cleanup_async_socket) refl,
              ground arith,
              ru.kept ∙ rt.returned,
              ru.returned ∙ ap₂ (◌++◌) rt.kept (cookies_same lib s.msgs t.msgs ys rt.links),
            )
      ]
