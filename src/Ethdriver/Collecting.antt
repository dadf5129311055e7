-- ===== src/Ethdriver/Collecting.antt =====
-- components/Ethdriver/src/ethdriver.c: a client that collects a packet neither loses a
-- buffer nor has it twice.
use global_components.Ethdriver.Queue.{IsQueue, pending, pending_len, pending_front}
use global_components.Ethdriver.Lookup.{eth_get_client_lt}
use global_components.Ethdriver.Filter.{eth_get_client}
use global_components.Prelude.{
  ℕ, ◌<◌, ◌≡◌, inl, inr, List, arith, Bool-cases, length, length-set, suc, ◌+◌, ap, ◌∷◌, ◌==◌,
  Option-cases, map, some, set, ◌%◌, if◌then◌else◌, true, subst, ◌≢◌, count, get_or, count-cons,
  refl,
}
use global_components.Prelude.Ring.{distance_front}
use global_components.Ethdriver.State.{Ethdriver, client_at, Client, RxFrame, null_frame}
use global_components.Ethdriver.Rx.{take_frame, client_rx, RxReply}
use global_components.Ethdriver.Buffers.{
  Holds, return_buf-Holds, pending_count, AreQueues-get_or, AreQueues-set, pending_total-set,
  pending_counts-set,
}

-- Client `i` becomes `c`, whose queue is that of client `i` without its oldest frame.
pop-Holds :
    (s : Ethdriver) (i : ℕ) (c : Client) (mem : ℕ → ℕ) (f : RxFrame) (held : List ℕ)
    → i < length s.clients
    → IsQueue c
    → pending (client_at s i) ≡ f ∷ pending c
    → pending_len (client_at s i) ≡ suc (pending_len c)
    → Holds s held
    → Holds (record s { clients = set s.clients i c; mem = mem }) (f.buf ∷ held)
unfolding pending_count
pop-Holds s i c mem f held hi q e el h = record {
  some_client = omega (arith, length-set s.clients i c, h.some_client);
  room = h.room;
  queues = AreQueues-set s.clients i c h.queues q;
  total = omega (arith, pending_total-set s.clients i c, h.total);
  once = λ a. omega (
    arith,
    pending_counts-set a s.clients i c hi,
    ap (λ fs. count a (map (λ (g : RxFrame). g.buf) fs)) e,
    count-cons a f.buf (map (λ (g : RxFrame). g.buf) (pending c)),
    count-cons a f.buf held,
    h.once a,
  );
  pinned = h.pinned;
}

-- Client `i` becomes `c`, with the same queue.
pub keep-Holds :
    (s : Ethdriver) (i : ℕ) (c : Client) (mem : ℕ → ℕ) (held : List ℕ)
    → i < length s.clients
    → IsQueue c
    → c.pending_rx ≡ (client_at s i).pending_rx
    → c.pending_rx_head ≡ (client_at s i).pending_rx_head
    → c.pending_rx_tail ≡ (client_at s i).pending_rx_tail
    → Holds s held
    → Holds (record s { clients = set s.clients i c; mem = mem }) held
unfolding pending_count
keep-Holds s i c mem held hi q e eh et h = record {
  some_client = omega (arith, length-set s.clients i c, h.some_client);
  room = h.room;
  queues = AreQueues-set s.clients i c h.queues q;
  total = omega (arith, pending_total-set s.clients i c, h.total);
  once = λ a. omega (
    arith,
    pending_counts-set a s.clients i c hi,
    ap (λ fs. count a (map (λ (g : RxFrame). g.buf) fs)) same,
    h.once a,
  );
  pinned = h.pinned;
}
  where
    same : pending c ≡ pending (client_at s i)
    same = cc

take_frame-Holds :
    (s : Ethdriver) (i : ℕ) (held : List ℕ)
    → i < length s.clients
    → Holds s held
    → Holds (take_frame s i).state held
unfolding take_frame
take_frame-Holds s i held hi h = elim (Bool-cases (c.pending_rx_head == c.pending_rx_tail)) [
  | inl none_left ↦ rw none_left (
      keep-Holds s i (record c { should_notify = true }) s.mem held hi
        (record { room = q.room; head_in = q.head_in; tail_in = q.tail_in; awake = λ _. refl }) refl
        refl refl h)
  | inr some_left ↦
      let ne : c.pending_rx_head ≢ c.pending_rx_tail = ground arith in
      rw some_left (
        return_buf-Holds _ _ held (
          pop-Holds s i c' _ (get_or c.pending_rx c.pending_rx_tail null_frame) held hi
            (record {
              room = q.room;
              head_in = q.head_in;
              tail_in = omega arith;
              awake = λ e. ground arith;
            })
            (pending_front c q ne)
            (distance_front 128 c.pending_rx_tail c.pending_rx_head q.tail_in q.head_in ne) h))
]
  where
    c : Client
    c = client_at s i

    q : IsQueue c
    q = AreQueues-get_or s.clients i h.queues hi

    c' : Client
    c' = record c {
      pending_rx_tail = (c.pending_rx_tail + 1) % 128;
      should_notify =
          if (c.pending_rx_tail + 1) % 128 == c.pending_rx_head then true else c.should_notify;
    }

-- A client that collects a packet leaves every buffer where it belongs.
pub client_rx-Holds :
    (sender : ℕ) (s : Ethdriver) (held : List ℕ) (r : RxReply)
    → Holds s held
    → client_rx sender s ≡ some r
    → Holds r.state held
unfolding client_rx
client_rx-Holds sender s held r h e = elim (Bool-cases s.done_init) [
  | inr early ↦ let same : s ≡ r.state = ground arith in subst (λ t. Holds t held) same h
  | inl late ↦ elim (Option-cases (eth_get_client sender s)) [
    | inl nobody ↦ ground arith
    | inr (i, found) ↦
        let same : (take_frame s i).state ≡ r.state = ground arith in
        subst (λ t. Holds t held) same
          (take_frame-Holds s i held (eth_get_client_lt sender s i found) h)
  ]
]
