-- ===== src/Ethdriver/Receiving.antt =====
-- components/Ethdriver/src/ethdriver.c: the receive path of the hardware driver
-- neither loses a buffer nor has it twice.
use global_components.Ethdriver.Lookup.{detect_client_lt}
use global_components.Ethdriver.Filter.{detect_client, is_broadcast, is_multicast}
use global_components.Prelude.{
  ℕ, ◌<◌, ◌≡◌, refl, inl, inr, List, arith, Bool-cases, length, length-set, zero, suc, ◌+◌, ◌-◌,
  ◌≤◌, ap, ◌∙◌, false, ◌||◌, [], ◌∷◌, ◌++◌, ◌==◌, Option-cases, map,
}
use global_components.Prelude.Memory.{memcpy}
use global_components.Ethdriver.State.{Ethdriver, client_at, rx_buf_at}
use global_components.Ethdriver.Rx.{
  give_client_buf, is_full, deliver, eth_allocate_rx_buf, copy_to_client, receive, return_bufs,
  copy_to_clients, give_or_return, copy_into, Allocation, return_buf, eth_rx_complete,
}
use global_components.Ethdriver.Buffers.{
  Holds, Grants, eth_allocate_rx_buf-Holds, return_buf-Holds, deliver-Holds,
}

-- The packets' bytes do not matter.
pub Holds-mem :
    (s : Ethdriver) (mem : ℕ → ℕ) (held : List ℕ)
    → Holds s held
    → Holds (record s { mem = mem }) held
Holds-mem s mem held h = record {
  some_client = h.some_client;
  room = h.room;
  queues = h.queues;
  total = h.total;
  once = h.once;
  pinned = h.pinned;
}

length-clients_deliver :
    (s : Ethdriver) (i b len : ℕ) → length (deliver s i b len).clients ≡ length s.clients
unfolding deliver
length-clients_deliver s i b len = length-set s.clients i (give_client_buf (client_at s i) b len).0

-- Client `i` may take a buffer.
abbrev HasRoom : Ethdriver → ℕ → Type 0
HasRoom s i = (i < length s.clients) × (is_full (client_at s i) ≡ false)

copy_into-Holds :
    (s : Ethdriver) (a : Allocation) (b len i : ℕ) (held : List ℕ)
    → HasRoom s i
    → Holds s held
    → Grants s held a
    → Holds (copy_into a b len i) held × (length (copy_into a b len i).clients ≡ length s.clients)
unfolding copy_into Grants
copy_into-Holds s a b len i held room h (inl (p, c, e)) = rw (p, e) (h, refl)
copy_into-Holds s a b len i held room h (inr (nb, c, p, e, h')) =
    let z : (a.phys == 0) ≡ false = ground arith in
    let t = record (a.state) {
      mem = memcpy (rx_buf_at a.state nb).buf (rx_buf_at a.state b).buf len a.state.mem;
    } in
    rw (z, c)
      (
        deliver-Holds t i nb len held (rw e room.0) (rw e room.1) (Holds-mem a.state t.mem _ h'),
        length-clients_deliver t i nb len ∙ ap length e,
      )

copy_to_client-Holds :
    (s : Ethdriver) (b len i : ℕ) (held : List ℕ)
    → i < length s.clients
    → Holds s held
    → Holds (copy_to_client s b len i) held
      × (length (copy_to_client s b len i).clients ≡ length s.clients)
unfolding copy_to_client
copy_to_client-Holds s b len i held hi h = elim (Bool-cases (is_full (client_at s i))) [
  | inl full ↦ rw full (h, refl)
  | inr free ↦ rw free (
      copy_into-Holds s (eth_allocate_rx_buf s len) b len i held (hi, free) h
        (eth_allocate_rx_buf-Holds s len held h))
]

copy_to_clients-Holds :
    (s : Ethdriver) (b len i n : ℕ) (held : List ℕ)
    → i + n ≤ length s.clients
    → Holds s held
    → Holds (copy_to_clients s b len i n) held
unfolding copy_to_clients
copy_to_clients-Holds s b len i zero held hn h = h
copy_to_clients-Holds s b len i (suc n) held hn h =
    let (h', e) = copy_to_client-Holds s b len i held (omega arith) h in
    copy_to_clients-Holds (copy_to_client s b len i) b len (i + 1) n held (omega arith) h'

give_or_return-Holds :
    (s : Ethdriver) (i b len : ℕ) (held : List ℕ)
    → i < length s.clients
    → Holds s (b ∷ held)
    → Holds (give_or_return s i b len) held
unfolding give_or_return
give_or_return-Holds s i b len held hi h = elim (Bool-cases (is_full (client_at s i))) [
  | inl full ↦ rw full (return_buf-Holds s b held h)
  | inr free ↦ rw free (deliver-Holds s i b len held hi free h)
]

return_bufs-Holds :
    (s : Ethdriver) (bs held : List ℕ) → Holds s (bs ++ held) → Holds (return_bufs s bs) held
unfolding return_bufs
return_bufs-Holds s [] held h = h
return_bufs-Holds s (b ∷ bs) held h =
    return_bufs-Holds (return_buf s b) bs held (return_buf-Holds s b (bs ++ held) h)

receive-Holds :
    (s : Ethdriver) (b len : ℕ) (held : List ℕ) → Holds s (b ∷ held) → Holds (receive s b len) held
unfolding receive
receive-Holds s b len held h = elim (Option-cases (detect_client s addr len)) [
  | inr (i, e) ↦
      rw (e, receive) (give_or_return-Holds s i b len held (detect_client_lt s addr len i e) h)
  | inl e ↦
      rw (e, receive)
        (elim (Bool-cases (is_broadcast s.mem addr len || is_multicast s.mem addr len)) [
          | inl every ↦ rw every (give_or_return-Holds _ 0 b len held (h'.some_client) h')
          | inr neither ↦ rw neither (return_buf-Holds s b held h)
        ])
]
  where
    addr : ℕ
    addr = (rx_buf_at s b).buf

    h' : Holds (copy_to_clients s b len 1 (length s.clients - 1)) (b ∷ held)
    h' =
        copy_to_clients-Holds s b len 1 (length s.clients - 1) (b ∷ held)
          (omega (arith, h.some_client)) h

-- The hardware driver hands in the buffers of the frames.
pub eth_rx_complete-Holds :
    (s : Ethdriver) (frames : List (ℕ × ℕ)) (held : List ℕ)
    → Holds s (map (λ f. f.0) frames ++ held)
    → Holds (eth_rx_complete s frames) held
unfolding eth_rx_complete
eth_rx_complete-Holds s [] held h = h
eth_rx_complete-Holds s ((b, len) ∷ []) held h = receive-Holds s b len held h
eth_rx_complete-Holds s (f ∷ g ∷ fs) held h =
    return_bufs-Holds s (map (λ e. e.0) (f ∷ g ∷ fs)) held h
