-- ===== src/Ethdriver/Rx.antt =====
-- components/Ethdriver/src/ethdriver.c: the pool of receive buffers and the receive path.
use global_components.Prelude.{
  ℕ, zero, suc, ◌+◌, ◌-◌, ◌%◌, Bool, true, false, not, ◌||◌, Option, none, some, List, [], ◌∷◌,
  ◌++◌, map, ltb, ◌==◌, if◌then◌else◌, length, get_or, set,
}
use global_components.Prelude.Int.{ℤ, pos, negsuc}
use global_components.Prelude.Memory.{memcpy}
use global_components.Ethdriver.State.{
  Client, Ethdriver, RxFrame, client_rx_bufs, buf_size, null_frame, client_at, rx_buf_at,
}
use global_components.Ethdriver.Filter.{eth_get_client, detect_client, is_broadcast, is_multicast}

-- What `eth_allocate_rx_buf` returns, and what it stores through `cookie`, if it does.
pub record Allocation : Type 0 where
  pub phys : ℕ
  pub cookie : Option ℕ
  pub state : Ethdriver

unfoldable pub eth_allocate_rx_buf : Ethdriver → ℕ → Allocation
eth_allocate_rx_buf s size =
    if ltb buf_size size
    then record { phys = 0; cookie = none; state = s }
    else if s.num_rx_bufs == 0
    then record { phys = 0; cookie = none; state = s }
    else let n = s.num_rx_bufs - 1 in
      let b = get_or s.rx_buf_pool n 0 in
      record { phys = (rx_buf_at s b).phys; cookie = some b; state = record s { num_rx_bufs = n } }

-- `rx_buf_pool[num_rx_bufs] = buf; num_rx_bufs++;`
unfoldable pub return_buf : Ethdriver → ℕ → Ethdriver
return_buf s b = record s {
  rx_buf_pool = set s.rx_buf_pool s.num_rx_bufs b;
  num_rx_bufs = s.num_rx_bufs + 1;
}

-- The loop at the label `error`.
unfoldable pub return_bufs : Ethdriver → List ℕ → Ethdriver
return_bufs s [] = s
return_bufs s (b ∷ bs) = return_bufs (return_buf s b) bs

-- The client afterwards, and the badges that were signalled.
unfoldable pub give_client_buf : Client → ℕ → ℕ → Client × List ℕ
give_client_buf c b len =
    let frame : RxFrame = record { buf = b; len = len; client = 0 } in
    let queue = set c.pending_rx c.pending_rx_head frame in
    let head = (c.pending_rx_head + 1) % client_rx_bufs in
    if c.should_notify
    then (
      record c { pending_rx = queue; pending_rx_head = head; should_notify = false },
      c.client_id ∷ [],
    )
    else (record c { pending_rx = queue; pending_rx_head = head }, [])

unfoldable pub is_full : Client → Bool
is_full c = (c.pending_rx_head + 1) % client_rx_bufs == c.pending_rx_tail

-- `give_client_buf (&clients[i], …)` on the whole state
unfoldable pub deliver : Ethdriver → ℕ → ℕ → ℕ → Ethdriver
deliver s i b len =
    let (c, out) = give_client_buf (client_at s i) b len in
    record s { clients = set s.clients i c; emitted = s.emitted ++ out }

-- The packet in buffer `b` goes to client `i` in the buffer that was allocated, if one was.
unfoldable pub copy_into : Allocation → ℕ → ℕ → ℕ → Ethdriver
copy_into a b len i =
    let t = a.state in
    if a.phys == 0 then t else elim a.cookie [
      | none ↦ t
      | some new_buf ↦
          let mem = memcpy (rx_buf_at t new_buf).buf (rx_buf_at t b).buf len t.mem in
          deliver (record t { mem = mem }) i new_buf len
    ]

-- The body of the broadcast loop.
unfoldable pub copy_to_client : Ethdriver → ℕ → ℕ → ℕ → Ethdriver
copy_to_client s b len i =
    if is_full (client_at s i) then s else copy_into (eth_allocate_rx_buf s len) b len i

-- for (i = first; n rounds; i++)
unfoldable pub copy_to_clients : Ethdriver → ℕ → ℕ → ℕ → ℕ → Ethdriver
copy_to_clients s b len i zero = s
copy_to_clients s b len i (suc n) = copy_to_clients (copy_to_client s b len i) b len (i + 1) n

-- The end of `eth_rx_complete`: the packet goes to client `i`, unless its queue is full.
unfoldable pub give_or_return : Ethdriver → ℕ → ℕ → ℕ → Ethdriver
give_or_return s i b len = if is_full (client_at s i) then return_buf s b else deliver s i b len

unfoldable pub receive : Ethdriver → ℕ → ℕ → Ethdriver
receive s b len =
    let addr = (rx_buf_at s b).buf in
    elim (detect_client s addr len) [
      | some i ↦ give_or_return s i b len
      | none ↦
          if is_broadcast s.mem addr len || is_multicast s.mem addr len
          then give_or_return (copy_to_clients s b len 1 (length s.clients - 1)) 0 b len
          else return_buf s b
    ]

-- The driver completes the frames `(cookie, len)`; their number is `num_bufs`.
unfoldable pub eth_rx_complete : Ethdriver → List (ℕ × ℕ) → Ethdriver
eth_rx_complete s [] = s
eth_rx_complete s ((b, len) ∷ []) = receive s b len
eth_rx_complete s (f ∷ g ∷ fs) = return_bufs s (map (λ e. e.0) (f ∷ g ∷ fs))

-- What an RPC returns, and what it stores through `len`, if it does.
pub record RxReply : Type 0 where
  pub ret : ℤ
  pub len : Option ℕ
  pub state : Ethdriver

-- `client_rx` after its look-ups: the head of the queue goes to the dataport of client `i`.
unfoldable pub take_frame : Ethdriver → ℕ → RxReply
take_frame s i =
    let c = client_at s i in
    if c.pending_rx_head == c.pending_rx_tail
    then record {
      ret = negsuc 0;
      len = none;
      state = record s { clients = set s.clients i (record c { should_notify = true }) };
    }
    else let rx = get_or c.pending_rx c.pending_rx_tail null_frame in
      let tail = (c.pending_rx_tail + 1) % client_rx_bufs in
      let mem = memcpy c.dataport (rx_buf_at s rx.buf).buf rx.len s.mem in
      let drained = tail == c.pending_rx_head in
      let notify = if drained then true else c.should_notify in
      let c' = record c { pending_rx_tail = tail; should_notify = notify } in
      let t = record s { clients = set s.clients i c'; mem = mem } in
      record {
        ret = if drained then pos 0 else pos 1;
        len = some rx.len;
        state = return_buf t rx.buf;
      }

-- `none` is the failed assertion that the sender is a client.
unfoldable pub client_rx : ℕ → Ethdriver → Option RxReply
client_rx sender s =
    if not s.done_init
    then some (record { ret = negsuc 0; len = none; state = s })
    else elim (eth_get_client sender s) [ none ↦ none | some i ↦ some (take_frame s i) ]
