-- ===== src/Ethdriver/Buffers.antt =====
-- components/Ethdriver/src/ethdriver.c: where each receive buffer is. `held` lists the buffers that
-- the hardware driver has; all others are in the pool or in a client's queue.
use global_components.Prelude.{
  ℕ, zero, suc, ◌+◌, ◌≡◌, ◌≢◌, ◌<◌, false, List, [], ◌∷◌, ◌++◌, map, length, get_or, set, take,
  arith, length-set, ltb, if◌then◌else◌, count, one_if, count-cons, count-take_push, some, ◌-◌,
  refl, ◌⊎◌, inl, inr, none, ◌==◌, Bool-cases, count-take_top,
}
use global_components.Ethdriver.State.{
  Client, Ethdriver, RxFrame, null_client, client_at, rx_buf_at, buf_size,
}
use global_components.Ethdriver.Rx.{
  Allocation, give_client_buf, is_full, deliver, return_buf, eth_allocate_rx_buf,
}
use global_components.Ethdriver.Queue.{
  IsQueue, pending, pending_len, pending-give_client_buf, give_client_buf-IsQueue,
}

abbrev pub bufs_of : List RxFrame → List ℕ
bufs_of = map (λ f. f.buf)

-- How often buffer `a` waits for the client.
unfoldable pub pending_count : ℕ → Client → ℕ
pending_count a c = count a (bufs_of (pending c))

unfoldable pub pending_counts : ℕ → List Client → ℕ
pending_counts a [] = 0
pending_counts a (c ∷ cs) = pending_count a c + pending_counts a cs

unfoldable pub pending_total : List Client → ℕ
pending_total [] = 0
pending_total (c ∷ cs) = pending_len c + pending_total cs

abbrev pub AreQueues : List Client → Type 0
AreQueues [] = Unit {0}
AreQueues (c ∷ cs) = IsQueue c × AreQueues cs

-- Each of the 256 buffers is in exactly one place, and is pinned at a physical address.
pub record Holds (s : Ethdriver) (held : List ℕ) : Type 0 where
  pub some_client : 0 < length s.clients
  pub room : length s.rx_buf_pool ≡ 256
  pub queues : AreQueues s.clients
  pub total : s.num_rx_bufs + pending_total s.clients + length held ≡ 256
  pub once :
      (a : ℕ)
      → count a (take s.num_rx_bufs s.rx_buf_pool) + pending_counts a s.clients + count a held
        ≡ (if ltb a 256 then 1 else 0)
  pub pinned : (b : ℕ) → b < 256 → (rx_buf_at s b).phys ≢ 0

pub AreQueues-get_or :
    (cs : List Client) (i : ℕ) → AreQueues cs → i < length cs → IsQueue (get_or cs i null_client)
AreQueues-get_or [] i q h = absurd (omega arith)
AreQueues-get_or (c ∷ cs) zero q h = q.0
AreQueues-get_or (c ∷ cs) (suc i) q h = AreQueues-get_or cs i q.1 (omega arith)

pub AreQueues-set :
    (cs : List Client) (i : ℕ) (c : Client) → AreQueues cs → IsQueue c → AreQueues (set cs i c)
AreQueues-set [] i c q h = tt
AreQueues-set (d ∷ cs) zero c q h = (h, q.1)
AreQueues-set (d ∷ cs) (suc i) c q h = (q.0, AreQueues-set cs i c q.1 h)

pub pending_counts-set :
    (a : ℕ) (cs : List Client) (i : ℕ) (c : Client)
    → i < length cs
    → pending_counts a (set cs i c) + pending_count a (get_or cs i null_client)
      ≡ pending_counts a cs + pending_count a c
unfolding pending_counts
pending_counts-set a [] i c h = absurd (omega arith)
pending_counts-set a (d ∷ cs) zero c h = omega arith
pending_counts-set a (d ∷ cs) (suc i) c h = omega (arith, pending_counts-set a cs i c)

pub pending_total-set :
    (cs : List Client) (i : ℕ) (c : Client)
    → i < length cs
    → pending_total (set cs i c) + pending_len (get_or cs i null_client)
      ≡ pending_total cs + pending_len c
unfolding pending_total
pending_total-set [] i c h = absurd (omega arith)
pending_total-set (d ∷ cs) zero c h = omega arith
pending_total-set (d ∷ cs) (suc i) c h = omega (arith, pending_total-set cs i c)

count-bufs_snoc :
    (a : ℕ) (fs : List RxFrame) (f : RxFrame)
    → count a (bufs_of (fs ++ f ∷ [])) ≡ count a (bufs_of fs) + one_if f.buf a
unfolding count
count-bufs_snoc a [] f = omega arith
count-bufs_snoc a (g ∷ fs) f = omega (arith, count-bufs_snoc a fs f)

-- A client that is given a buffer has it once more.
pending_count-give :
    (a : ℕ) (c : Client) (b len : ℕ)
    → IsQueue c
    → is_full c ≡ false
    → pending_count a (give_client_buf c b len).0 ≡ pending_count a c + one_if b a
unfolding pending_count
pending_count-give a c b len q h =
    rw (pending-give_client_buf c b len q h) (count-bufs_snoc a (pending c) _)

pending_len-give :
    (c : Client) (b len : ℕ)
    → IsQueue c
    → is_full c ≡ false
    → pending_len (give_client_buf c b len).0 ≡ pending_len c + 1
unfolding give_client_buf is_full
pending_len-give c b len q h = ground arith

-- The driver passes a buffer to a client.
pub deliver-Holds :
    (s : Ethdriver) (i b len : ℕ) (held : List ℕ)
    → i < length s.clients
    → is_full (client_at s i) ≡ false
    → Holds s (b ∷ held)
    → Holds (deliver s i b len) held
unfolding deliver
deliver-Holds s i b len held hi free h = record {
  some_client = omega (arith, length-set s.clients i (give_client_buf c b len).0, h.some_client);
  room = h.room;
  queues = AreQueues-set s.clients i _ h.queues (give_client_buf-IsQueue c b len q free);
  total = omega (
    arith,
    pending_total-set s.clients i (give_client_buf c b len).0,
    pending_len-give c b len q free,
    h.total,
  );
  once = λ a. omega (
    arith,
    pending_counts-set a s.clients i (give_client_buf c b len).0 hi,
    pending_count-give a c b len q free,
    count-cons a b held,
    h.once a,
  );
  pinned = h.pinned;
}
  where
    c : Client
    c = client_at s i

    q : IsQueue c
    q = AreQueues-get_or s.clients i h.queues hi

-- The driver, or a client, gives a buffer back to the pool.
pub return_buf-Holds :
    (s : Ethdriver) (b : ℕ) (held : List ℕ) → Holds s (b ∷ held) → Holds (return_buf s b) held
unfolding return_buf
return_buf-Holds s b held h = record {
  some_client = h.some_client;
  room = omega (arith, length-set s.rx_buf_pool s.num_rx_bufs b, h.room);
  queues = h.queues;
  total = omega (arith, h.total);
  once = λ a. omega (
    arith,
    count-take_push a s.num_rx_bufs b s.rx_buf_pool (omega (arith, h.total, h.room)),
    count-cons a b held,
    h.once a,
  );
  pinned = h.pinned;
}

abbrev top_buf : Ethdriver → ℕ
top_buf s = get_or s.rx_buf_pool (s.num_rx_bufs - 1) 0

-- The entry on top of the pool is one of the buffers.
top_buf-lt : (s : Ethdriver) (held : List ℕ) → Holds s held → s.num_rx_bufs ≢ 0 → top_buf s < 256
top_buf-lt s held h ne =
    let n = s.num_rx_bufs - 1 in
    let e : s.num_rx_bufs ≡ n + 1 = omega arith in
    let once = rw e at (h.once (top_buf s)) in
    ground (arith, once, count-take_top (top_buf s) n 0 s.rx_buf_pool, h.total, h.room)

top_buf-Holds :
    (s : Ethdriver) (held : List ℕ)
    → Holds s held
    → s.num_rx_bufs ≢ 0
    → Holds (record s { num_rx_bufs = s.num_rx_bufs - 1 }) (top_buf s ∷ held)
top_buf-Holds s held h ne = record {
  some_client = h.some_client;
  room = h.room;
  queues = h.queues;
  total = omega (arith, h.total);
  once = λ a.
      let once = rw e at (h.once a) in
      omega (
        arith,
        once,
        count-take_top a (s.num_rx_bufs - 1) 0 s.rx_buf_pool (omega (arith, h.total, h.room)),
        count-cons a (top_buf s) held,
      );
  pinned = h.pinned;
}
  where
    e : s.num_rx_bufs ≡ s.num_rx_bufs - 1 + 1
    e = omega arith

-- What an allocation may give: nothing at all, or a pinned buffer that was in the pool.
unfoldable pub Grants : Ethdriver → List ℕ → Allocation → Type 0
Grants s held a =
    (a.phys ≡ 0) × (a.cookie ≡ none) × (a.state ≡ s)
    ⊎ ((b : ℕ) × (a.cookie ≡ some b)
        × (a.phys ≢ 0)
        × (a.state.clients ≡ s.clients)
        × Holds a.state (b ∷ held))

-- The driver takes a buffer from the pool.
pub eth_allocate_rx_buf-Holds :
    (s : Ethdriver) (size : ℕ) (held : List ℕ)
    → Holds s held
    → Grants s held (eth_allocate_rx_buf s size)
unfolding eth_allocate_rx_buf Grants
eth_allocate_rx_buf-Holds s size held h = elim (Bool-cases (ltb buf_size size)) [
  | inl e ↦ rw e (inl (refl, refl, refl))
  | inr e ↦ rw e (elim (Bool-cases (s.num_rx_bufs == 0)) [
    | inl z ↦ rw z (inl (refl, refl, refl))
    | inr z ↦
        let ne : s.num_rx_bufs ≢ 0 = ground arith in
        rw z (
          inr
            (top_buf s, refl, h.pinned _ (top_buf-lt s held h ne), refl, top_buf-Holds s held h ne))
  ])
]
