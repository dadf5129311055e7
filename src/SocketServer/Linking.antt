-- ===== src/SocketServer/Linking.antt =====
-- remote-drivers/picotcp-socket-sync/server/server.c: what a transfer and the end of a message change.
use global_components.Picoserver.Clients.{Pending, PicoserverSocketAsync}
use global_components.Prelude.{
  ℕ, ◌≡◌, refl, ◌∙◌, ◌≢◌, inl, inr, none, List, [], ◌∷◌, ◌++◌, map, arith, ◌==◌, Bool-cases,
  Option-cases, ap, some, map-snoc,
}
use global_components.Virtqueue.{IsDevice}
use global_components.SocketServer.State.{Libs, Server, TxMsg, object, update}
use global_components.SocketServer.Pending.{
  IsPending, SameLinks, IsPending-SameLinks, pop_pending-IsPending, pop_pending,
}
use global_components.SocketServer.Async.{
  Direction, tx, rx, queue_of, with_done, tx_transfer, rx_transfer, finish, tx_complete,
  rx_complete, complete, set_queue, add_used,
}
use global_components.SocketServer.Incoming.{ring}

pub SameLinks-refl : (f : ℕ → TxMsg) → SameLinks f f
SameLinks-refl f = record { next = λ m. refl; cookie = λ m. refl }

pub SameLinks-trans : (f g h : ℕ → TxMsg) → SameLinks f g → SameLinks g h → SameLinks f h
SameLinks-trans f g h a b = record {
  next = λ m. b.next m ∙ a.next m;
  cookie = λ m. b.cookie m ∙ a.cookie m;
}

-- A write to a message that is neither to its link nor to its handle.
pub update-SameLinks :
    (f : ℕ → TxMsg) (m : ℕ) (v : TxMsg)
    → v.next ≡ (f m).next
    → v.cookie_save ≡ (f m).cookie_save
    → SameLinks f (update f m v)
update-SameLinks f m v n c = record {
  next = λ x. elim (Bool-cases (x == m)) [
    | inl e ↦ let same : x ≡ m = ground arith in rw same (ground (arith, n))
    | inr e ↦ rw e refl
  ];
  cookie = λ x. elim (Bool-cases (x == m)) [
    | inl e ↦ let same : x ≡ m = ground arith in rw same (ground (arith, c))
    | inr e ↦ rw e refl
  ];
}

-- The tables and the rings are the same, and the messages linked as before.
pub record Kept {H A E K Q : Type 0} (s t : Server H A E K Q) : Type 0 where
  pub pico : t.pico ≡ s.pico
  pub tx_ring : t.tx_virtqueue ≡ s.tx_virtqueue
  pub rx_ring : t.rx_virtqueue ≡ s.rx_virtqueue
  pub links : SameLinks s.msgs t.msgs

module _ {H A E K Q : Type 0} (lib : Libs H A E K Q) where
  pub with_done-Kept : (m n : ℕ) (s : Server H A E K Q) → Kept s (with_done lib m n s)
  with_done-Kept m n s = record {
    pico = refl;
    tx_ring = refl;
    rx_ring = refl;
    links = update-SameLinks s.msgs m _ refl refl;
  }

  pub tx_transfer-Kept : (p m n : ℕ) (s : Server H A E K Q) → Kept s (tx_transfer lib p m n s).1
  unfolding tx_transfer
  tx_transfer-Kept p m n s = record {
    pico = refl;
    tx_ring = refl;
    rx_ring = refl;
    links = SameLinks-refl s.msgs;
  }

  pub rx_transfer-Kept : (p m n : ℕ) (s : Server H A E K Q) → Kept s (rx_transfer lib p m n s).1
  unfolding rx_transfer
  rx_transfer-Kept p m n s = elim (Bool-cases ((object lib p s).protocol == lib.stack.proto_udp)) [
    | inl e ↦
        rw (e, rx_transfer)
          (record {
            pico = refl;
            tx_ring = refl;
            rx_ring = refl;
            links = update-SameLinks s.msgs m _ refl refl;
          })
    | inr e ↦
        rw (e, rx_transfer)
          (record { pico = refl; tx_ring = refl; rx_ring = refl; links = SameLinks-refl s.msgs })
  ]

  pub Kept-trans : (s t u : Server H A E K Q) → Kept s t → Kept t u → Kept s u
  Kept-trans s t u a b = record {
    pico = b.pico ∙ a.pico;
    tx_ring = b.tx_ring ∙ a.tx_ring;
    rx_ring = b.rx_ring ∙ a.rx_ring;
    links = SameLinks-trans s.msgs t.msgs u.msgs a.links b.links;
  }

  -- The handles that are used in a direction.
  abbrev pub returned_handles : Direction → Server H A E K Q → List ℕ
  returned_handles d s = map (λ e. e.0) (lib.vq.used (ring lib d s))

  -- The socket at `p` holds the messages `xs`.
  pub record Waits (d : Direction) (p : ℕ) (s : Server H A E K Q) (xs : List ℕ) : Type 0 where
    pub active : (object lib p s).async_transport ≢ none
    pub pending : IsPending s.msgs (queue_of lib d p s) xs

  pub Kept-Waits :
      (d : Direction) (p : ℕ) (s t : Server H A E K Q) (xs : List ℕ)
      → Kept s t
      → Waits d p s xs
      → Waits d p t xs
  unfolding queue_of
  Kept-Waits d p s t xs k w = record {
    active = rw k.pico w.active;
    pending =
        rw k.pico (IsPending-SameLinks s.msgs t.msgs (queue_of lib d p s) xs k.links w.pending);
  }

  pub queue_of-set_queue :
      (d : Direction) (p : ℕ) (q : Pending) (s : Server H A E K Q) (a : PicoserverSocketAsync)
      → (object lib p s).async_transport ≡ some a
      → queue_of lib d p (set_queue lib d p q s) ≡ q
  unfolding queue_of set_queue
  queue_of-set_queue tx p q s a e = ground (arith, e)
  queue_of-set_queue rx p q s a e = ground (arith, e)

  -- What the update of a queue leaves as it was.
  pub record Requeued (p : ℕ) (s t : Server H A E K Q) : Type 0 where
    pub active : (object lib p t).async_transport ≢ none
    pub msgs : t.msgs ≡ s.msgs
    pub tx_ring : t.tx_virtqueue ≡ s.tx_virtqueue
    pub rx_ring : t.rx_virtqueue ≡ s.rx_virtqueue

  pub set_queue-Requeued :
      (d : Direction) (p : ℕ) (q : Pending) (s : Server H A E K Q) (a : PicoserverSocketAsync)
      → (object lib p s).async_transport ≡ some a
      → Requeued p s (set_queue lib d p q s)
  unfolding set_queue
  set_queue-Requeued d p q s a e = record {
    active = λ n. ground (arith, e, n);
    msgs = ground (arith, e);
    tx_ring = ground (arith, e);
    rx_ring = ground (arith, e);
  }

  pub same_rings :
      (d : Direction) (s t : Server H A E K Q) {p : ℕ}
      → Requeued p s t
      → returned_handles d t ≡ returned_handles d s
  same_rings tx s t h = ap (λ (q : Q). map (λ (e : ℕ × ℕ). e.0) (lib.vq.used q)) h.tx_ring
  same_rings rx s t h = ap (λ (q : Q). map (λ (e : ℕ × ℕ). e.0) (lib.vq.used q)) h.rx_ring

  ring_used :
      IsDevice lib.vq
      → (q : Q) (h len : ℕ)
      → map (λ e. e.0) (lib.vq.used (add_used lib q h len))
        ≡ map (λ e. e.0) (lib.vq.used q) ++ h ∷ []
  ring_used dev q h len =
      let (t, added, av, us) = dev.add_used q h len in
      let same : add_used lib q h len ≡ t = ground (arith, added) in
      rw (same, us) (map-snoc (λ e. e.0) (lib.vq.used q) (h, len))

  pub complete_used :
      IsDevice lib.vq
      → (d : Direction) (cookie len : ℕ) (s : Server H A E K Q)
      → returned_handles d (complete lib d cookie len s) ≡ returned_handles d s ++ cookie ∷ []
  unfolding tx_complete rx_complete
  complete_used dev tx cookie len s = ring_used dev s.tx_virtqueue cookie len
  complete_used dev rx cookie len s = ring_used dev s.rx_virtqueue cookie len

  pub complete_pico :
      (d : Direction) (cookie len : ℕ) (s : Server H A E K Q)
      → ((complete lib d cookie len s).pico ≡ s.pico)
        × ((complete lib d cookie len s).msgs ≡ s.msgs)
  unfolding tx_complete rx_complete
  complete_pico tx cookie len s = (refl, refl)
  complete_pico rx cookie len s = (refl, refl)

  pub same_pico-Waits :
      (d : Direction) (p : ℕ) (s t : Server H A E K Q) (xs : List ℕ)
      → t.pico ≡ s.pico
      → t.msgs ≡ s.msgs
      → Waits d p s xs
      → Waits d p t xs
  unfolding queue_of
  same_pico-Waits d p s t xs e f w = record {
    active = rw e w.active;
    pending = rw (e, f) w.pending;
  }

  pub finish-Waits :
      IsDevice lib.vq
      → (d : Direction) (p m len : ℕ) (s : Server H A E K Q) (xs : List ℕ) → Waits d p s (m ∷ xs)
      → Waits d p (finish lib d p m len s) xs
        × ((finish lib d p m len s).msgs ≡ s.msgs)
        × (returned_handles d (finish lib d p m len s)
            ≡ returned_handles d s ++ (s.msgs m).cookie_save ∷ [])
  unfolding finish
  finish-Waits dev d p m len s xs w = elim (Option-cases (object lib p s).async_transport) [
    | inl e ↦ absurd (w.active e)
    | inr (a, e) ↦
        let q = pop_pending s.msgs m (queue_of lib d p s) in
        let t = set_queue lib d p q s in
        let h = set_queue-Requeued d p q s a e in
        let cookie = (s.msgs m).cookie_save in
        let popped = pop_pending-IsPending s.msgs m (queue_of lib d p s) xs w.pending in
        let waits : Waits d p t xs = record {
          active = h.active;
          pending = rw (queue_of-set_queue d p q s a e, h.msgs) popped;
        } in
        let (pico, msgs) = complete_pico d cookie len t in
        (
          same_pico-Waits d p t _ xs pico msgs waits,
          msgs ∙ h.msgs,
          complete_used dev d cookie len t
              ∙ ap (λ (us : List ℕ). us ++ cookie ∷ []) (same_rings d s t h),
        )
  ]

  pub Kept-used :
      (d : Direction) (s t : Server H A E K Q)
      → Kept s t
      → returned_handles d t ≡ returned_handles d s
  Kept-used tx s t k = ap (λ (q : Q). map (λ (e : ℕ × ℕ). e.0) (lib.vq.used q)) k.tx_ring
  Kept-used rx s t k = ap (λ (q : Q). map (λ (e : ℕ × ℕ). e.0) (lib.vq.used q)) k.rx_ring
