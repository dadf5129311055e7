-- ===== src/EthernetAsync/Delivery.antt =====
-- remote-drivers/picotcp-ethernet-async: a frame from the network stack to the hardware's driver.
use global_components.EthernetAsync.Queueing.{pico_eth_send-Queued, Queued}
use global_components.EthernetAsync.Server.{virt_queue_handle_irq}
use global_components.EthernetAsync.Client.{pico_eth_send}
use global_components.Virtqueue.{Contents, IsChannel}
use global_components.EthernetAsync.State.{Libs, Link, buf_size}
use global_components.EthernetAsync.Transmitting.{
  is_blocked, as_sent, IsDriver, virt_queue_handle_irq-Sent, Sent,
}
use global_components.Prelude.{
  ◌≡◌, refl, List, [], ◌∷◌, ◌++◌, sym, ℕ, ◌+◌, ◌<◌, ap₂, inl, inr, Bool, true, false, some, map,
  arith, ap, ◌∙◌, map-snoc,
}

-- Where the last entry of a list is when the list is split.
data LastIn {A : Type 0} (xs : List A) (f : A) (sent rest : List A) : Type 0 where
  in_sent : rest ≡ [] → sent ≡ xs ++ f ∷ [] → LastIn xs f sent rest
  in_rest : (ys : List A) → rest ≡ ys ++ f ∷ [] → xs ≡ sent ++ ys → LastIn xs f sent rest

split_last :
    {A : Type 0} (xs : List A) (f : A) (sent rest : List A)
    → xs ++ f ∷ [] ≡ sent ++ rest
    → LastIn xs f sent rest
split_last xs f [] rest e = in_rest xs (sym e) refl
split_last [] f (x ∷ []) [] e = in_sent refl (sym e)
split_last [] f (x ∷ []) (r ∷ rest) e = absurd cc
split_last [] f (x ∷ y ∷ sent) rest e = absurd cc
split_last (y ∷ xs) f (x ∷ sent) rest e =
    let same : y ≡ x = cc in
    let tail : xs ++ f ∷ [] ≡ sent ++ rest = cc in
    elim (split_last xs f sent rest tail) [
      | in_sent r s ↦ in_sent r (ap₂ (◌∷◌) (sym same) s)
      | in_rest ys r s ↦ in_rest ys r (ap₂ (◌∷◌) same s)
    ]

is_blocked-snoc :
    {A : Type 0} (b : Bool) (sent ys : List A) (f : A) → is_blocked b sent (ys ++ f ∷ []) ≡ true
unfolding is_blocked
is_blocked-snoc b sent [] f = refl
is_blocked-snoc b sent (y ∷ ys) f = refl

is_blocked-none :
    {A : Type 0} (b : Bool) (xs : List A) (f : A) → is_blocked b (xs ++ f ∷ []) [] ≡ false
unfolding is_blocked
is_blocked-none b [] f = refl
is_blocked-none b (x ∷ xs) f = refl

module _ {Q D K : Type 0} (lib : Libs Q D K) (c : Contents Q) where
  -- What becomes of the frame of `len` bytes in the buffer at `buf`, between `s`, where it is not in the ring
  -- yet, and `t`: the driver has it, after all that were before it, or it is still the last in the ring.
  pub data Delivered (accepted : D → List (ℕ × ℕ × ℕ)) (s t : Link Q D K) (len buf : ℕ)
      : Type 0 where
    with_driver :
        (h : ℕ)
        → accepted t.driver
          ≡ accepted s.driver
            ++ (map (as_sent lib c) (c.frames s.tx_virtqueue)
                ++ (lib.dma_pin buf buf_size, len, h) ∷ [])
        → c.frames t.tx_virtqueue ≡ []
        → t.server.blocked_tx ≡ false
        → Delivered accepted s t len buf
    in_ring :
        (h : ℕ) (sent ys : List (ℕ × ℕ × ℕ))
        → c.frames s.tx_virtqueue ≡ sent ++ ys
        → accepted t.driver ≡ accepted s.driver ++ map (as_sent lib c) sent
        → c.frames t.tx_virtqueue ≡ ys ++ (h, lib.encode buf, len) ∷ []
        → t.server.blocked_tx ≡ true
        → Delivered accepted s t len buf

  Sent-Delivered :
      (accepted : D → List (ℕ × ℕ × ℕ))
      → ((a : ℕ) → lib.decode (lib.encode a) ≡ a)
      → (input len buf : ℕ) (s t u : Link Q D K) → Queued lib c s t input len buf
      → Sent lib c accepted t u
      → Delivered accepted s u len buf
  Sent-Delivered accepted code input len buf s t u q w =
      let before = c.frames s.tx_virtqueue in
      let f : ℕ × ℕ × ℕ = (q.handle, lib.encode buf, len) in
      let driver = ap accepted q.same_driver in
      elim (split_last before f w.sent w.rest (sym q.frame ∙ w.split)) [
        | in_sent r e ↦
            with_driver q.handle
              (w.taken
                ∙ ap₂ (◌++◌) driver (
                    ap (map (as_sent lib c)) e
                    ∙ map-snoc (as_sent lib c) before f
                    ∙ ap
                        (λ (a : ℕ).
                          map (as_sent lib c) before
                          ++ (lib.dma_pin a buf_size, len, q.handle) ∷ [])
                        (code buf)))
              (w.left ∙ r)
              (w.blocked
                ∙ ap₂ (λ (xs ys : List (ℕ × ℕ × ℕ)). is_blocked t.server.blocked_tx xs ys) e r
                ∙ is_blocked-none t.server.blocked_tx before f)
        | in_rest ys r e ↦
            in_ring q.handle w.sent ys e
              (w.taken ∙ ap (λ (xs : List (ℕ × ℕ × ℕ)). xs ++ map (as_sent lib c) w.sent) driver)
              (w.left ∙ r)
              (w.blocked
                ∙ ap (is_blocked t.server.blocked_tx w.sent) r
                ∙ is_blocked-snoc t.server.blocked_tx w.sent ys f)
      ]

  -- The two sides together: a frame that the client sends, once the server is interrupted, has been handed to
  -- the driver, as the last and with the physical address of a buffer that has the bytes of the frame;
  -- or it is the last of those that still wait, and `blocked_tx` is set. A buffer must be free or
  -- used, and the ring have room for a free one.
  pub pico_eth_send-Delivered :
      IsChannel lib.vq lib.layout c
      → (accepted : D → List (ℕ × ℕ × ℕ)) → IsDriver lib c accepted
      → ((a : ℕ) → lib.decode (lib.encode a) ≡ a)
      → (input len : ℕ) (s : Link Q D K)
      → (c.returned s.tx_virtqueue ≡ [] → (0 < c.room s.tx_virtqueue) × (0 < s.client.num_tx))
      → (t u : Link Q D K) × (buf : ℕ) × (pico_eth_send lib input len s ≡ some (len, t))
        × ((i : ℕ) → i < len → t.memory (buf + i) ≡ s.memory (input + i))
        × (virt_queue_handle_irq lib t ≡ some u)
        × Delivered accepted s u len buf
  pico_eth_send-Delivered ch accepted dr code input len s free =
      elim (pico_eth_send-Queued lib c ch input len s (λ e. (free e).0)) [
        | inl (sends, e, z) ↦ absurd (omega (arith, z, (free e).1))
        | inr (t, buf, sends, q) ↦
            let (u, handles, w) = virt_queue_handle_irq-Sent lib c ch accepted dr t in
            (
              t,
              u,
              buf,
              sends,
              q.bytes,
              handles,
              Sent-Delivered accepted code input len buf s t u q w,
            )
      ]
