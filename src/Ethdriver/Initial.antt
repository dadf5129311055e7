-- ===== src/Ethdriver/Initial.antt =====
-- components/Ethdriver/src/ethdriver.c: what `server_init` leaves before it polls the hardware driver.
use global_components.Prelude.{
  ℕ, zero, suc, ◌+◌, ◌<◌, ◌≡◌, refl, ap, ◌≢◌, inl, inr, List, [], ◌∷◌, arith, ltb, ◌==◌,
  if◌then◌else◌, Bool-cases, length, take, length-set, get_or-set_self, get_or-set_ne,
  length-replicate, count, count-take_push, true,
}
use global_components.Ethdriver.State.{Client, Ethdriver, null_buf, null_frame, rx_buf_at}
use global_components.Ethdriver.Init.{
  Platform, add_rx_buf, add_rx_bufs, add_tx_buf, add_tx_bufs, fresh_client, add_clients, boot,
  preallocate,
}
use global_components.Ethdriver.Queue.{pending_len}
use global_components.Ethdriver.Buffers.{
  AreQueues, Holds, pending_count, pending_counts, pending_total,
}

-- The DMA allocator pins each receive buffer at an address.
abbrev pub Pins : Platform → Type 0
Pins p = (b : ℕ) → b < 256 → (p.dma b).phys ≢ 0

-- The first `i` buffers are made and stand in the pool, in their order.
record HasFirst (s : Ethdriver) (i : ℕ) : Type 0 where
  number : s.num_rx_bufs ≡ i
  room : length s.rx_buf_pool ≡ 256
  bufs : length s.rx_bufs ≡ 256
  once : (a : ℕ) → count a (take i s.rx_buf_pool) ≡ (if ltb a i then 1 else 0)
  pinned : (b : ℕ) → b < i → (rx_buf_at s b).phys ≢ 0

add_rx_buf-HasFirst :
    (p : Platform) (s : Ethdriver) (i : ℕ)
    → Pins p
    → i < 256
    → HasFirst s i
    → HasFirst (add_rx_buf p s i) (i + 1)
unfolding add_rx_buf
add_rx_buf-HasFirst p s i pins hi h = record {
  number = omega (arith, h.number);
  room = omega (arith, length-set s.rx_buf_pool s.num_rx_bufs s.num_rx_bufs, h.room);
  bufs = omega (arith, length-set s.rx_bufs s.num_rx_bufs (p.dma i), h.bufs);
  once = λ a. rw h.number (ground (arith, count-take_push a i i s.rx_buf_pool, h.once a, h.room));
  pinned = λ b hb. rw h.number (elim (Bool-cases (b == i)) [
    | inl e ↦
        let here : b ≡ i = ground arith in
        rw (here, get_or-set_self s.rx_bufs i (p.dma i) null_buf (omega (arith, h.bufs)))
          (pins i hi)
    | inr e ↦
        let away : i ≢ b = ground arith in
        rw (get_or-set_ne s.rx_bufs i b (p.dma i) null_buf away) (h.pinned b (ground arith))
  ]);
}

add_rx_bufs-HasFirst :
    (p : Platform) (s : Ethdriver) (i n : ℕ)
    → Pins p
    → i + n ≡ 256
    → HasFirst s i
    → HasFirst (add_rx_bufs p s i n) 256
unfolding add_rx_bufs
add_rx_bufs-HasFirst p s i zero pins e h = let e' : i ≡ 256 = omega arith in rw (← e') h
add_rx_bufs-HasFirst p s i (suc n) pins e h =
    add_rx_bufs-HasFirst p (add_rx_buf p s i) (i + 1) n pins (omega arith)
      (add_rx_buf-HasFirst p s i pins (omega arith) h)

boot-HasFirst : (mem : ℕ → ℕ) → HasFirst (boot mem) 0
unfolding count
boot-HasFirst mem = record {
  number = refl;
  room = length-replicate {A = ℕ} 256 0;
  bufs = length-replicate 256 null_buf;
  once = λ a. ground arith;
  pinned = λ b h. absurd (omega arith);
}

-- The queue is empty.
record IsEmpty (c : Client) : Type 0 where
  room : length c.pending_rx ≡ 128
  head : c.pending_rx_head ≡ 0
  tail : c.pending_rx_tail ≡ 0
  awake : c.should_notify ≡ true

add_tx_bufs-IsEmpty :
    (p : Platform) (client : ℕ) (s : (ℕ → ℕ) × Client) (i n : ℕ)
    → IsEmpty s.1
    → IsEmpty (add_tx_bufs p client s i n).1
unfolding add_tx_bufs add_tx_buf
add_tx_bufs-IsEmpty p client s i zero h = h
add_tx_bufs-IsEmpty p client s i (suc n) h =
    add_tx_bufs-IsEmpty p client (add_tx_buf p client s i) (i + 1) n
      (record { room = h.room; head = h.head; tail = h.tail; awake = h.awake })

fresh_client-IsEmpty : (p : Platform) (i : ℕ) → IsEmpty (fresh_client p i)
unfolding fresh_client
fresh_client-IsEmpty p i = record {
  room = length-replicate 128 null_frame;
  head = refl;
  tail = refl;
  awake = refl;
}

abbrev AreEmpty : List Client → Type 0
AreEmpty [] = Unit {0}
AreEmpty (c ∷ cs) = IsEmpty c × AreEmpty cs

add_clients-AreEmpty :
    (p : Platform) (i n : ℕ) (mem : ℕ → ℕ)
    → AreEmpty (add_clients p i n mem).1 × (length (add_clients p i n mem).1 ≡ n)
unfolding add_clients
add_clients-AreEmpty p i zero mem = (tt, refl)
add_clients-AreEmpty p i (suc n) mem =
    let made = add_tx_bufs p i (mem, fresh_client p i) 0 128 in
    let (rest, e) = add_clients-AreEmpty p (i + 1) n made.0 in
    (
      (add_tx_bufs-IsEmpty p i (mem, fresh_client p i) 0 128 (fresh_client-IsEmpty p i), rest),
      ap suc e,
    )

IsEmpty-pending_len : (c : Client) → IsEmpty c → pending_len c ≡ 0
IsEmpty-pending_len c h = omega (arith, h.head, h.tail)

AreEmpty-AreQueues : (cs : List Client) → AreEmpty cs → AreQueues cs
AreEmpty-AreQueues [] h = tt
AreEmpty-AreQueues (c ∷ cs) h = (
  record {
    room = h.0.room;
    head_in = omega (arith, h.0.head);
    tail_in = omega (arith, h.0.tail);
    awake = λ _. h.0.awake;
  },
  AreEmpty-AreQueues cs h.1,
)

AreEmpty-pending_total : (cs : List Client) → AreEmpty cs → pending_total cs ≡ 0
unfolding pending_total
AreEmpty-pending_total [] h = refl
AreEmpty-pending_total (c ∷ cs) h =
    omega (arith, IsEmpty-pending_len c h.0, AreEmpty-pending_total cs h.1)

AreEmpty-pending_counts : (a : ℕ) (cs : List Client) → AreEmpty cs → pending_counts a cs ≡ 0
unfolding pending_counts pending_count count
AreEmpty-pending_counts a [] h = refl
AreEmpty-pending_counts a (c ∷ cs) h =
    rw (IsEmpty-pending_len c h.0) (rw (AreEmpty-pending_counts a cs h.1))

-- All buffers are in the pool.
pub preallocate-Holds :
    (p : Platform) (mem : ℕ → ℕ) → Pins p → 0 < p.num_badges → Holds (preallocate p mem) []
unfolding preallocate count
preallocate-Holds p mem pins some_badge = record {
  some_client = omega (arith, clients.1);
  room = made.room;
  queues = AreEmpty-AreQueues _ clients.0;
  total = omega (arith, made.number, AreEmpty-pending_total _ clients.0);
  once = λ a. rw made.number (omega (arith, made.once a, AreEmpty-pending_counts a _ clients.0));
  pinned = made.pinned;
}
  where
    made : HasFirst (add_rx_bufs p (boot mem) 0 256) 256
    made = add_rx_bufs-HasFirst p (boot mem) 0 256 pins refl (boot-HasFirst mem)

    clients :
        AreEmpty (add_clients p 0 p.num_badges (add_rx_bufs p (boot mem) 0 256).mem).1
        × (length (add_clients p 0 p.num_badges (add_rx_bufs p (boot mem) 0 256).mem).1
            ≡ p.num_badges)
    clients = add_clients-AreEmpty p 0 p.num_badges (add_rx_bufs p (boot mem) 0 256).mem
