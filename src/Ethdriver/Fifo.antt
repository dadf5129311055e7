-- ===== src/Ethdriver/Fifo.antt =====
-- components/Ethdriver/src/ethdriver.c: each client's packets arrive in order.
use global_components.Prelude.{
  ℕ, ◌+◌, ◌<◌, ◌≡◌, refl, ap, ◌∙◌, ◌≢◌, inl, inr, some, List, [], ◌∷◌, ◌++◌, arith, if◌then◌else◌,
  Bool-cases, length, get_or, set, get_or-set_self, get_or-set_ne, ◌==◌, ◌%◌, Bool, false, true,
}
use global_components.Prelude.Int.{ℤ, pos}
use global_components.Prelude.Memory.{memcpy_lem}
use global_components.Ethdriver.State.{
  Client, Ethdriver, RxFrame, null_client, client_at, rx_buf_at, null_frame,
}
use global_components.Ethdriver.Rx.{
  give_client_buf, is_full, deliver, return_buf, give_or_return, receive, RxReply, take_frame,
  client_rx,
}
use global_components.Ethdriver.Filter.{detect_client, eth_get_client}
use global_components.Ethdriver.Queue.{
  IsQueue, pending, pending-give_client_buf, pending_front, length-pending,
}
use global_components.Ethdriver.Lookup.{detect_client_lt, eth_get_client_lt}

-- The frames that wait for client `i`.
abbrev pub pending_at : Ethdriver → ℕ → List RxFrame
pending_at s i = pending (client_at s i)

abbrev pub frame_of : ℕ → ℕ → RxFrame
frame_of b len = record { buf = b; len = len; client = 0 }

pub client_at-set :
    (cs : List Client) (i : ℕ) (c : Client) → i < length cs → get_or (set cs i c) i null_client ≡ c
client_at-set cs i c h = get_or-set_self cs i c null_client h

deliver_lem :
    (s : Ethdriver) (i b len : ℕ)
    → i < length s.clients
    → client_at (deliver s i b len) i ≡ (give_client_buf (client_at s i) b len).0
unfolding deliver
deliver_lem s i b len h = client_at-set s.clients i _ h

deliver_ne :
    (s : Ethdriver) (i b len j : ℕ) → i ≢ j → client_at (deliver s i b len) j ≡ client_at s j
unfolding deliver
deliver_ne s i b len j ne = get_or-set_ne s.clients i j _ null_client ne

-- What becomes of a packet for client `i`: behind the others, or dropped where the queue is full.
pub Queued : Ethdriver → Ethdriver → ℕ → ℕ → ℕ → Type 0
Queued s t i b len =
    (pending_at t i
      ≡ (if is_full (client_at s i) then pending_at s i else pending_at s i ++ frame_of b len ∷ []))
    × ((j : ℕ) → i ≢ j → client_at t j ≡ client_at s j)

give_or_return-Queued :
    (s : Ethdriver) (i b len : ℕ)
    → i < length s.clients
    → IsQueue (client_at s i)
    → Queued s (give_or_return s i b len) i b len
unfolding Queued give_or_return return_buf
give_or_return-Queued s i b len hi q = elim (Bool-cases (is_full (client_at s i))) [
  | inl full ↦ rw full (refl, λ j ne. refl)
  | inr free ↦ rw free (
    ap pending (deliver_lem s i b len hi) ∙ pending-give_client_buf (client_at s i) b len q free,
    λ j ne. deliver_ne s i b len j ne,
  )
]

-- A packet whose destination is a client's own address goes to that client alone: behind its other
-- packets, or nowhere if its queue is full.
pub receive_unicast :
    (s : Ethdriver) (b len i : ℕ)
    → detect_client s (rx_buf_at s b).buf len ≡ some i
    → IsQueue (client_at s i)
    → Queued s (receive s b len) i b len
unfolding receive
receive_unicast s b len i e q =
    rw (e, receive)
      (give_or_return-Queued s i b len (detect_client_lt s (rx_buf_at s b).buf len i e) q)

-- 1 if more is to come, else 0.
abbrev pub more : List RxFrame → ℤ
more [] = pos 0
more (f ∷ fs) = pos 1

-- What `client_rx` gives the sender when `f` is its oldest frame and `rest` waits behind it.
pub record Collected (s : Ethdriver) (i : ℕ) (f : RxFrame) (rest : List RxFrame) (r : RxReply)
    : Type 0 where
  pub len : r.len ≡ some f.len
  pub ret : r.ret ≡ more rest
  pub left : pending_at r.state i ≡ rest
  pub copied :
      (k : ℕ)
      → k < f.len
      → r.state.mem ((client_at s i).dataport + k) ≡ s.mem ((rx_buf_at s f.buf).buf + k)

more_lem :
    (fs : List RxFrame) (drained : Bool)
    → (drained ≡ true → length fs ≡ 0)
    → (drained ≡ false → length fs ≢ 0)
    → (if drained then pos 0 else pos 1) ≡ more fs
more_lem [] true h k = refl
more_lem [] false h k = absurd (k refl refl)
more_lem (f ∷ fs) true h k = absurd (omega (arith, h refl))
more_lem (f ∷ fs) false h k = refl

module _ (s : Ethdriver) (i : ℕ) (f : RxFrame) (rest : List RxFrame) (hi : i < length s.clients)
    (q : IsQueue (client_at s i)) (e : pending_at s i ≡ f ∷ rest) where
  abbrev here : Client
  here = client_at s i

  -- The queue without its oldest frame.
  abbrev popped : Client
  popped = record (client_at s i) { pending_rx_tail = (here.pending_rx_tail + 1) % 128 }

  pub not_empty : here.pending_rx_head ≢ here.pending_rx_tail
  not_empty z = omega (arith, length-pending here, ap length e)

  front : (get_or here.pending_rx here.pending_rx_tail null_frame ≡ f) × (pending popped ≡ rest)
  front = let p = pending_front here q not_empty in (cc, cc)

  drained_iff :
      (((here.pending_rx_tail + 1) % 128 == here.pending_rx_head) ≡ true → length rest ≡ 0)
      × (((here.pending_rx_tail + 1) % 128 == here.pending_rx_head) ≡ false → length rest ≢ 0)
  drained_iff =
      let len = ap length front.1 in
      let w = length-pending popped in (λ d. ground (arith, len, w), λ d. ground (arith, len, w, q))

  pub take_frame-Collected : Collected s i f rest (take_frame s i)
  unfolding take_frame return_buf
  take_frame-Collected =
      let some_left : (here.pending_rx_head == here.pending_rx_tail) ≡ false =
        ground (arith, not_empty) in
      rw some_left (record {
        len = ap (λ (g : RxFrame). some g.len) front.0;
        ret = more_lem rest _ drained_iff.0 drained_iff.1;
        left = ap pending (client_at-set s.clients i _ hi) ∙ front.1;
        copied = λ k hk.
            rw (front.0) (memcpy_lem here.dataport (rx_buf_at s f.buf).buf f.len s.mem k hk);
      })

-- A client that asks for a packet is given the oldest of those that wait for it, its length, and
-- whether more wait.
pub client_rx_fifo :
    (s : Ethdriver) (sender i : ℕ) (f : RxFrame) (rest : List RxFrame)
    → s.done_init ≡ true
    → eth_get_client sender s ≡ some i
    → IsQueue (client_at s i)
    → pending_at s i ≡ f ∷ rest
    → (r : RxReply) × (client_rx sender s ≡ some r) × Collected s i f rest r
unfolding client_rx
client_rx_fifo s sender i f rest d g q e = (
  take_frame s i,
  simp (d, g),
  take_frame-Collected s i f rest (eth_get_client_lt sender s i g) q e,
)
