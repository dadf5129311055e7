-- ===== src/Ethdriver/Reach.antt =====
-- components/Ethdriver/src/ethdriver.c: where the receive buffers are after every history of calls by
-- the clients and of callbacks by the hardware driver.
use global_components.Ethdriver.Ready.{finish_init-Holds}
use global_components.Ethdriver.Steps.{
  SameBufs, Callback, Callbacks, grants, refuses, completes, sent, done, more, hand_over,
  after_callbacks, Step, calls_back, collects, sends_nothing, sends, Reach, start, initialised,
  next,
}
use global_components.Ethdriver.Filter.{eth_get_client}
use global_components.Ethdriver.Receiving.{eth_rx_complete-Holds, Holds-mem}
use global_components.Ethdriver.Initial.{Pins, preallocate-Holds}
use global_components.Prelude.{
  ℕ, ◌+◌, ◌<◌, ◌≡◌, refl, none, some, List, arith, length, set, Bool-cases, inr, ◌==◌, subst, inl,
  ◌-◌, Option-cases, ltb, set_of_length-le,
}
use global_components.Prelude.Int.{ℤ}
use global_components.Ethdriver.State.{Ethdriver, TxPtr, client_at, tx_frame_at}
use global_components.Ethdriver.Tx.{
  tx_enqueued, tx_complete, tx_failed, TxStatus, tx_len, RawTx, TxRet, set_num_tx, client_tx,
  eth_tx_complete, transmit, after_raw_tx, fill_tx_buf,
}
use global_components.Ethdriver.Init.{Platform}
use global_components.Ethdriver.Buffers.{Holds, AreQueues-get_or, Grants, eth_allocate_rx_buf-Holds}
use global_components.Ethdriver.Collecting.{keep-Holds, client_rx-Holds}
use global_components.Ethdriver.Sending.{handed, next_ptr}

SameBufs-Holds : (s : Ethdriver) (bs cs : List ℕ) → SameBufs bs cs → Holds s bs → Holds s cs
SameBufs-Holds s bs cs same h = record {
  some_client = h.some_client;
  room = h.room;
  queues = h.queues;
  total = omega (arith, same.1, h.total);
  once = λ a. omega (arith, same.0 a, h.once a);
  pinned = h.pinned;
}

set_num_tx-Holds :
    (s : Ethdriver) (i n : ℕ) (held : List ℕ) → Holds s held → Holds (set_num_tx s i n) held
unfolding set_num_tx
set_num_tx-Holds s i n held h = elim (Bool-cases (ltb i (length s.clients))) [
  | inl inside ↦
      let hi : i < length s.clients = ground arith in
      let q = AreQueues-get_or s.clients i h.queues hi in
      keep-Holds s i (record (client_at s i) { num_tx = n }) s.mem held hi
        (record { room = q.room; head_in = q.head_in; tail_in = q.tail_in; awake = q.awake }) refl
        refl refl h
  | inr outside ↦ rw (set_of_length-le s.clients i _ (ground arith)) h
]

eth_tx_complete-Holds :
    (s : Ethdriver) (p : TxPtr) (held : List ℕ)
    → (tx_frame_at s p).client < length s.clients
    → Holds s held
    → Holds (eth_tx_complete s p) held
unfolding eth_tx_complete
eth_tx_complete-Holds s p held hi h =
    let c = client_at s (tx_frame_at s p).client in
    let q = AreQueues-get_or s.clients (tx_frame_at s p).client h.queues hi in
    keep-Holds s (tx_frame_at s p).client
      (record c { pending_tx = set c.pending_tx c.num_tx p; num_tx = c.num_tx + 1 }) s.mem held hi
      (record { room = q.room; head_in = q.head_in; tail_in = q.tail_in; awake = q.awake }) refl
      refl refl h

after_raw_tx-Holds :
    (err : TxStatus) (s : Ethdriver) (i : ℕ) (held : List ℕ)
    → Holds s held
    → Holds (after_raw_tx err s i) held
unfolding after_raw_tx
after_raw_tx-Holds tx_enqueued s i held h = h
after_raw_tx-Holds tx_complete s i held h = set_num_tx-Holds s i _ held h
after_raw_tx-Holds tx_failed s i held h = set_num_tx-Holds s i _ held h

handed-Holds :
    (s : Ethdriver) (i len : ℕ) (held : List ℕ) → Holds s held → Holds (handed s i len) held
unfolding fill_tx_buf
handed-Holds s i len held h =
    let n = (client_at s i).num_tx - 1 in
    Holds-mem (set_num_tx s i n) _ held (set_num_tx-Holds s i n held h)

Callback-Holds :
    {s : Ethdriver} {held : List ℕ} {t : Ethdriver} {left : List ℕ}
    → Callback s held t left
    → Holds s held
    → Holds t left
unfolding Grants
Callback-Holds (grants s held size b e) h = elim (eth_allocate_rx_buf-Holds s size held h) [
  | inl (p, c, same) ↦ ground arith
  | inr (b', c, p, same, h') ↦ let one : b' ≡ b = ground arith in rw (← one) h'
]
Callback-Holds (refuses s held size e) h = elim (eth_allocate_rx_buf-Holds s size held h) [
  | inl (p, c, same) ↦ rw same h
  | inr (b, c, p, same, h') ↦ ground arith
]
Callback-Holds (completes s held rest frames same) h =
    eth_rx_complete-Holds s frames rest (SameBufs-Holds s held _ same h)
Callback-Holds (sent s held p hi) h = eth_tx_complete-Holds s p held hi h

Callbacks-Holds :
    {s : Ethdriver} {held : List ℕ} {t : Ethdriver} {left : List ℕ}
    → Callbacks s held t left
    → Holds s held
    → Holds t left
Callbacks-Holds (done s held) h = h
Callbacks-Holds (more c cs) h = Callbacks-Holds cs (Callback-Holds c h)

-- What `client_tx` leaves: the state itself, or what is left after `raw_tx`.
client_tx_idle :
    (raw_tx : RawTx) (sender : ℕ) (len : ℤ) (s : Ethdriver) (r : TxRet) (t : Ethdriver)
    → hand_over sender len s ≡ none
    → client_tx raw_tx sender len s ≡ some (r, t)
    → s ≡ t
unfolding client_tx hand_over transmit
client_tx_idle raw_tx sender len s r t e f = elim (Bool-cases s.done_init) [
  | inr early ↦ ground arith
  | inl late ↦ elim (Option-cases (tx_len len)) [
    | inl short ↦ ground arith
    | inr (n, enough) ↦ elim (Option-cases (eth_get_client sender s)) [
      | inl nobody ↦ ground arith
      | inr (i, found) ↦ ground arith
    ]
  ]
]

client_tx_busy :
    (raw_tx : RawTx) (sender : ℕ) (len : ℤ) (s : Ethdriver) (r : TxRet) (t : Ethdriver) (i n : ℕ)
    → hand_over sender len s ≡ some (i, n)
    → client_tx raw_tx sender len s ≡ some (r, t)
    → (err : TxStatus) × (after_raw_tx err (after_callbacks raw_tx s i n) i ≡ t)
unfolding client_tx hand_over transmit
client_tx_busy raw_tx sender len s r t i n e f =
    let u = handed s i n in
    let err = (raw_tx (tx_frame_at u (next_ptr s i)).buf.phys n (next_ptr s i) u).0 in
    (
      err,
      elim (Bool-cases s.done_init) [
        | inr early ↦ ground arith
        | inl late ↦ elim (Option-cases (tx_len len)) [
          | inl short ↦ ground arith
          | inr (m, enough) ↦ elim (Option-cases (eth_get_client sender s)) [
            | inl nobody ↦ ground arith
            | inr (j, found) ↦ elim (Bool-cases ((client_at s j).num_tx == 0)) [
              | inl none_free ↦ ground arith
              | inr some_free ↦
                  let one : j ≡ i = ground arith in
                  let len' : m ≡ n = ground arith in
                  let some_free' = rw one at some_free in
                  let f' = rw (late, enough, found, one, len', some_free') at f in
                  ground (arith, f')
            ]
          ]
        ]
      ],
    )

Step-Holds :
    {s : Ethdriver} {held : List ℕ} {t : Ethdriver} {left : List ℕ}
    → Step s held t left
    → Holds s held
    → Holds t left
Step-Holds (calls_back c) h = Callback-Holds c h
Step-Holds (collects s held sender r e) h = client_rx-Holds sender s held r h e
Step-Holds (sends_nothing s held raw_tx sender len r t none_handed e) h =
    subst (λ u. Holds u held) (client_tx_idle raw_tx sender len s r t none_handed e) h
Step-Holds (sends s held left raw_tx sender len r t i n over during e) h =
    let (err, same) = client_tx_busy raw_tx sender len s r t i n over e in
    subst (λ u. Holds u left) same
      (after_raw_tx-Holds err (after_callbacks raw_tx s i n) i left
        (Callbacks-Holds during (handed-Holds s i n held h)))

-- From the moment that `server_init` polls the hardware driver, through the end of `server_init` and after
-- any history of client calls and of callbacks, between the calls or from within `raw_tx`, each of
-- the 256 receive buffers is in exactly one place: the pool, one client's queue, or the hardware
-- driver. There is a client, and the DMA allocator pins each buffer at an address other than 0.
pub Reach-Holds :
    (p : Platform) (mem : ℕ → ℕ) {s : Ethdriver} {held : List ℕ}
    → Pins p
    → 0 < p.num_badges
    → Reach p mem s held
    → Holds s held
Reach-Holds p mem pins badges start = preallocate-Holds p mem pins badges
Reach-Holds p mem pins badges (initialised {s} {held} {t} r early e) =
    finish_init-Holds p s t held e (Reach-Holds p mem pins badges r)
Reach-Holds p mem pins badges (next r st) = Step-Holds st (Reach-Holds p mem pins badges r)
