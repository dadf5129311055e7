-- ===== src/EthernetAsync/Transmitting.antt =====
-- remote-drivers/picotcp-ethernet-async/server.c: `virt_queue_handle_irq` hands frames to the driver.
use global_components.Prelude.{
  length-map, ℕ, zero, suc, ◌<◌, ◌≡◌, refl, ap, ◌∙◌, ◌⊎◌, inl, Bool, true, false, some, List, [],
  ◌∷◌, ◌++◌, map, arith, length, sym, ◌+◌, inr, Bool-cases, subst, if◌then◌else◌,
}
use global_components.Virtqueue.{Contents, IsChannel}
use global_components.EthernetAsync.State.{Libs, Link, buf_size}
use global_components.EthernetAsync.Server.{
  frame_sent, transmit_loop, virt_queue_handle_irq, poll_driver,
}
use mathlib.Core.List.{append_assoc, append-nil}

-- `blocked_tx` after some frames were sent and others left, when it was `b`.
unfoldable pub is_blocked : {A : Type 0} → Bool → List A → List A → Bool
is_blocked b sent (x ∷ rest) = true
is_blocked b (x ∷ sent) [] = false
is_blocked b [] [] = b

-- What was blocked before does not matter once a frame has been sent.
is_blocked_lem :
    {A : Type 0} (b : Bool) (x : A) (sent rest : List A)
    → is_blocked false sent rest ≡ is_blocked b (x ∷ sent) rest
unfolding is_blocked
is_blocked_lem b x sent (y ∷ rest) = refl
is_blocked_lem b x (y ∷ sent) [] = refl
is_blocked_lem b x [] [] = refl

module _ {Q D K : Type 0} (lib : Libs Q D K) (c : Contents Q) where
  -- What the driver does: `accepted` is what it has enqueued, the oldest first, and it takes no frame from
  -- the ring itself, whatever it calls back.
  pub record IsDriver (accepted : D → List (ℕ × ℕ × ℕ)) : Type 0 where
    pub enqueues :
        (addr len h : ℕ) (s : Link Q D K)
        → (lib.raw_tx addr len h s).0 ≡ true
        → accepted (lib.raw_tx addr len h s).1.driver ≡ accepted s.driver ++ (addr, len, h) ∷ []
    pub refuses :
        (addr len h : ℕ) (s : Link Q D K)
        → (lib.raw_tx addr len h s).0 ≡ false
        → accepted (lib.raw_tx addr len h s).1.driver ≡ accepted s.driver
    pub keeps :
        (addr len h : ℕ) (s : Link Q D K)
        → c.frames (lib.raw_tx addr len h s).1.tx_virtqueue ≡ c.frames s.tx_virtqueue
    pub polls :
        (s : Link Q D K)
        → (accepted (lib.raw_poll s).driver ≡ accepted s.driver)
          × (c.frames (lib.raw_poll s).tx_virtqueue ≡ c.frames s.tx_virtqueue)
          × ((lib.raw_poll s).server.blocked_tx ≡ s.server.blocked_tx)

  -- A frame of the ring as the driver is given it.
  abbrev pub as_sent : ℕ × ℕ × ℕ → ℕ × ℕ × ℕ
  as_sent (h, b, len) = (lib.dma_pin (lib.decode b) buf_size, len, h)

  -- From `s` to `t` the driver has taken the first of the frames that wait, in their order and each once, and
  -- the others wait as before, since it refused the first of them.
  pub record Sent (accepted : D → List (ℕ × ℕ × ℕ)) (s t : Link Q D K) : Type 0 where
    pub sent : List (ℕ × ℕ × ℕ)
    pub rest : List (ℕ × ℕ × ℕ)
    pub split : c.frames s.tx_virtqueue ≡ sent ++ rest
    pub left : c.frames t.tx_virtqueue ≡ rest
    pub taken : accepted t.driver ≡ accepted s.driver ++ map as_sent sent
    pub blocked : t.server.blocked_tx ≡ is_blocked s.server.blocked_tx sent rest
    pub stopped :
        (rest ≡ [])
        ⊎ ((h b len : ℕ) × (others : List (ℕ × ℕ × ℕ)) × (u : Link Q D K) × (rest
              ≡ (h, b, len) ∷ others)
            × ((lib.raw_tx (lib.dma_pin (lib.decode b) buf_size) len h u).0 ≡ false))

  -- A frame that the driver takes, and what is sent after it.
  then_Sent :
      (accepted : D → List (ℕ × ℕ × ℕ)) (f : ℕ × ℕ × ℕ) (fs : List (ℕ × ℕ × ℕ)) (s t u : Link Q D K)
      → c.frames s.tx_virtqueue ≡ f ∷ fs
      → c.frames t.tx_virtqueue ≡ fs
      → accepted t.driver ≡ accepted s.driver ++ as_sent f ∷ []
      → t.server.blocked_tx ≡ false
      → Sent accepted t u
      → Sent accepted s u
  then_Sent accepted f fs s t u e e' took free later = record {
    sent = f ∷ later.sent;
    rest = later.rest;
    split = e ∙ ap (◌∷◌ f) (sym e' ∙ later.split);
    left = later.left;
    taken =
        later.taken
        ∙ ap (λ (xs : List (ℕ × ℕ × ℕ)). xs ++ map as_sent later.sent) took
        ∙ append_assoc (accepted s.driver) _ _;
    blocked = later.blocked ∙ rw free (is_blocked_lem s.server.blocked_tx f later.sent later.rest);
    stopped = later.stopped;
  }

  transmit_loop-Sent :
      IsChannel lib.vq lib.layout c
      → (accepted : D → List (ℕ × ℕ × ℕ)) → IsDriver accepted
      → (fs : List (ℕ × ℕ × ℕ)) (fuel : ℕ) (s : Link Q D K) → c.frames s.tx_virtqueue ≡ fs
      → length fs < fuel
      → (t : Link Q D K) × (transmit_loop lib fuel s ≡ some t) × Sent accepted s t
  unfolding transmit_loop frame_sent is_blocked
  transmit_loop-Sent ch accepted dr fs zero s e h = absurd (omega arith)
  transmit_loop-Sent ch accepted dr [] (suc fuel) s e h = (
    s,
    rw (ch.next_none s.tx_virtqueue e, transmit_loop) refl,
    record {
      sent = [];
      rest = [];
      split = e;
      left = e;
      taken = sym (append-nil _);
      blocked = refl;
      stopped = inl refl;
    },
  )
  transmit_loop-Sent ch accepted dr ((hd, b, len) ∷ fs) (suc fuel) s e h =
      let (next, gather, q, get, frames, used) = ch.next_first s.tx_virtqueue hd b len fs e in
      let addr = lib.dma_pin (lib.decode b) buf_size in
      let (enqueued, t) = lib.raw_tx addr len hd s in
      let waits = dr.keeps addr len hd s ∙ e in
      elim (Bool-cases enqueued) [
        | inl took ↦
            let (next', gather', q', get', frames', used') =
              ch.next_first t.tx_virtqueue hd b len fs waits in
            let t' = frame_sent lib t in
            let ring : t'.tx_virtqueue ≡ q' = rw (get', frame_sent) refl in
            let (u, loop, later) =
              transmit_loop-Sent ch accepted dr fs fuel t' (rw ring frames') (omega arith) in
            (
              u,
              rw (next, gather, took, transmit_loop) loop,
              then_Sent accepted (hd, b, len) fs s t' u e (rw ring frames')
                  (dr.enqueues addr len hd s took) refl later,
            )
        | inr refused ↦ (
          record t { server = record (t.server) { blocked_tx = true } },
          rw (next, gather, refused, transmit_loop) refl,
          record {
            sent = [];
            rest = (hd, b, len) ∷ fs;
            split = e;
            left = waits;
            taken = dr.refuses addr len hd s refused ∙ sym (append-nil _);
            blocked = refl;
            stopped = inr (hd, b, len, fs, s, refl, refused);
          },
        )
      ]

  polled_Sent :
      (accepted : D → List (ℕ × ℕ × ℕ))
      → IsDriver accepted
      → (s t : Link Q D K) → Sent accepted (poll_driver lib s) t
      → Sent accepted s t
  unfolding poll_driver
  polled_Sent accepted dr s t w =
      let chosen = λ (b : Bool). if b then lib.raw_poll s else s in
      let (took, frames, blocked) = dr.polls s in
      elim (Bool-cases s.server.no_rx_bufs) [
        | inl e ↦
            let v = subst (λ (u : Link Q D K). Sent accepted u t) (ap chosen e) w in
            record {
              sent = v.sent;
              rest = v.rest;
              split = sym frames ∙ v.split;
              left = v.left;
              taken = v.taken ∙ ap (λ (xs : List (ℕ × ℕ × ℕ)). xs ++ map as_sent v.sent) took;
              blocked = v.blocked ∙ ap (λ (b : Bool). is_blocked b v.sent v.rest) blocked;
              stopped = v.stopped;
            }
        | inr e ↦ subst (λ (u : Link Q D K). Sent accepted u t) (ap chosen e) w
      ]

  length-handles :
      IsChannel lib.vq lib.layout c → (q : Q) → length (lib.vq.avail q) ≡ length (c.frames q)
  length-handles ch q = ap length (ch.handles q) ∙ length-map (λ f. f.0) (c.frames q)

  -- An interrupt hands the frames that wait to the driver, in their order and each once, until the
  -- driver refuses one or none is left; a frame that is refused stays first in the ring with
  -- those behind it, and `blocked_tx` tells whether one is left, or is as it was if none waited. The
  -- rounds of the loop are enough. The driver calls back but takes nothing from the ring.
  pub virt_queue_handle_irq-Sent :
      IsChannel lib.vq lib.layout c
      → (accepted : D → List (ℕ × ℕ × ℕ)) → IsDriver accepted
      → (s : Link Q D K)
      → (t : Link Q D K) × (virt_queue_handle_irq lib s ≡ some t) × Sent accepted s t
  unfolding virt_queue_handle_irq
  virt_queue_handle_irq-Sent ch accepted dr s =
      let u = poll_driver lib s in
      let (t, loop, w) =
        transmit_loop-Sent ch accepted dr (c.frames u.tx_virtqueue)
          (length (lib.vq.avail u.tx_virtqueue) + 1) u refl
          (omega (arith, length-handles ch u.tx_virtqueue)) in
      (t, loop, polled_Sent accepted dr s t w)
