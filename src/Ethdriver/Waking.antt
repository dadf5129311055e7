-- ===== src/Ethdriver/Waking.antt =====
-- components/Ethdriver/src/ethdriver.c: a client that has collected its last packet is woken by the
-- next one, once.
use global_components.Prelude.{
  ℕ, ◌+◌, ◌%◌, ◌<◌, ◌≡◌, refl, sym, ap, ap₂, ◌∙◌, inl, inr, true, false, some, List, [], ◌∷◌, ◌++◌,
  arith, ◌==◌, if◌then◌else◌, Bool-cases, length, length-set,
}
use mathlib.Core.List.{append-nil}
use global_components.Ethdriver.State.{Client, Ethdriver, client_at}
use global_components.Ethdriver.Rx.{
  give_client_buf, deliver, return_buf, RxReply, take_frame, client_rx,
}
use global_components.Ethdriver.Filter.{eth_get_client}
use global_components.Ethdriver.Queue.{IsQueue, pending, length-pending}
use global_components.Ethdriver.Lookup.{eth_get_client_lt}
use global_components.Ethdriver.Fifo.{pending_at, client_at-set}

deliver_awake :
    (s : Ethdriver) (i b len : ℕ)
    → i < length s.clients
    → (client_at s i).should_notify ≡ true
    → ((deliver s i b len).emitted ≡ s.emitted ++ (client_at s i).client_id ∷ [])
      × ((client_at (deliver s i b len) i).should_notify ≡ false)
unfolding deliver give_client_buf
deliver_awake s i b len hi e =
    rw (e, give_client_buf)
      (refl, ap (λ (c : Client). c.should_notify) (client_at-set s.clients i _ hi))

deliver_asleep :
    (s : Ethdriver) (i b len : ℕ)
    → (client_at s i).should_notify ≡ false
    → (deliver s i b len).emitted ≡ s.emitted
unfolding deliver give_client_buf
deliver_asleep s i b len e = rw (e, give_client_buf) (append-nil s.emitted)

-- What `client_rx` leaves of a client that it leaves nothing to collect.
record Rearmed (s t : Ethdriver) (i : ℕ) : Type 0 where
  size : length t.clients ≡ length s.clients
  asks : (client_at t i).should_notify ≡ true
  id : (client_at t i).client_id ≡ (client_at s i).client_id
  quiet : t.emitted ≡ s.emitted

take_frame-Rearmed :
    (s : Ethdriver) (i : ℕ)
    → i < length s.clients
    → IsQueue (client_at s i)
    → pending_at (take_frame s i).state i ≡ []
    → Rearmed s (take_frame s i).state i
unfolding take_frame return_buf
take_frame-Rearmed s i hi q e = elim (Bool-cases (c.pending_rx_head == c.pending_rx_tail)) [
  | inl empty ↦
      let c' = record c { should_notify = true } in
      let here = client_at-set s.clients i c' hi in
      rw empty (record {
        size = length-set s.clients i c';
        asks = ap (λ (d : Client). d.should_notify) here;
        id = ap (λ (d : Client). d.client_id) here;
        quiet = refl;
      })
  | inr waits ↦
      let tail = (c.pending_rx_tail + 1) % 128 in
      let drained = tail == c.pending_rx_head in
      let c' = record c {
        pending_rx_tail = tail;
        should_notify = if drained then true else c.should_notify;
      } in
      let here = client_at-set s.clients i c' hi in
      let e' : pending c' ≡ [] = ap pending (sym here) ∙ rw waits at e in
      let last : drained ≡ true = ground (arith, ap length e', length-pending c', q) in
      rw waits (record {
        size = length-set s.clients i c';
        asks = ap (λ (d : Client). d.should_notify) here ∙ rw last refl;
        id = ap (λ (d : Client). d.client_id) here;
        quiet = refl;
      })
]
  where
    c : Client
    c = client_at s i

-- Once `client_rx` has left a client nothing to collect, the next packet that is delivered to it signals
-- the client by its badge, and the one after that, if the client has not called again, does not.
pub client_rx-deliver :
    (s : Ethdriver) (sender i b len b' len' : ℕ) (r : RxReply)
    → s.done_init ≡ true
    → eth_get_client sender s ≡ some i
    → IsQueue (client_at s i)
    → client_rx sender s ≡ some r
    → pending_at r.state i ≡ []
    → let t = deliver r.state i b len in
      (t.emitted ≡ s.emitted ++ (client_at s i).client_id ∷ [])
      × ((deliver t i b' len').emitted ≡ t.emitted)
unfolding client_rx
client_rx-deliver s sender i b len b' len' r d g q e empty =
    let taken : take_frame s i ≡ r = ground (arith, e, d, g) in
    let hi = eth_get_client_lt sender s i g in
    let k = take_frame-Rearmed s i hi q (rw taken empty) in
    let t = (take_frame s i).state in
    let (woken, reset) = deliver_awake t i b len (rw k.size hi) k.asks in
    rw (← taken) (
      woken ∙ ap₂ (λ (out : List ℕ) (n : ℕ). out ++ n ∷ []) k.quiet k.id,
      deliver_asleep (deliver t i b len) i b' len' reset,
    )
