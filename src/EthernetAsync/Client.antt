-- ===== src/EthernetAsync/Client.antt =====
-- remote-drivers/picotcp-ethernet-async/client.c: the device of the network stack.
use global_components.Prelude.{
  ℕ, zero, suc, ◌-◌, Bool, true, false, ◌||◌, Option, none, some, List, [], ◌∷◌, ltb, ◌==◌,
  if◌then◌else◌, get_or, set, ◌+◌,
}
use global_components.Prelude.Int.{ℤ, pos, negsuc}
use global_components.Prelude.Memory.{memcpy, memset}
use global_components.Virtqueue.{next_used}
use global_components.EthernetAsync.State.{
  Libs, Link, Result, buf_size, to_server, num_rx_bufs, num_tx_bufs,
}

-- `0 < err`
abbrev pub is_positive : ℤ → Bool
is_positive (pos n) = ltb 0 n
is_positive (negsuc n) = false

-- The loop over the mapper: whether it has the identifier.
unfoldable pub is_mapped : List ℕ → ℕ → Bool
is_mapped [] id = false
is_mapped (x ∷ xs) id = x == id || is_mapped xs id

module _ {Q D K : Type 0} (lib : Libs Q D K) where
  -- The buffer for a frame: one that the server has used, or a free one, or none.
  unfoldable pub take_tx_buf : Link Q D K → Result (Option ℕ) Q D K
  take_tx_buf s = elim (lib.vq.get_used_buf s.tx_virtqueue) [
    | none ↦
        if s.client.num_tx == 0
        then some (none, s)
        else some (
          some (get_or s.client.pending_tx (s.client.num_tx - 1) 0),
          record s { client = record (s.client) { num_tx = s.client.num_tx - 1 } },
        )
    | some (h, len, q) ↦ elim (lib.vq.gather_used q h) [
      | none ↦ none
      | some (buf, l, q') ↦ some (some (lib.decode buf), record s { tx_virtqueue = q' })
    ]
  ]

  -- The frame of `len` bytes at `input` goes into the buffer, and the buffer into the ring.
  unfoldable pub queue_frame : ℕ → ℕ → ℕ → Link Q D K → Result ℕ Q D K
  queue_frame buf input len s =
      elim (lib.vq.add_available_buf s.tx_virtqueue (lib.encode buf) len) [
        | none ↦ none
        | some (h, q) ↦ some (
          len,
          record s {
            tx_virtqueue = q;
            memory = memcpy buf input len s.memory;
            client = record (s.client) { action = true };
          },
        )
      ]

  -- 0 where no buffer is free.
  unfoldable pub pico_eth_send : ℕ → ℕ → Link Q D K → Result ℕ Q D K
  pico_eth_send input len s = elim (take_tx_buf s) [
    | none ↦ none
    | some (none, t) ↦ some (0, t)
    | some (some buf, t) ↦ queue_frame buf input len t
  ]

  -- A buffer whose dataport is not in the mapper has no state, and NULL is followed.
  unfoldable pub pico_free_buf : ℕ → Link Q D K → Option (Link Q D K)
  pico_free_buf buf s = elim (lib.vq.add_available_buf s.rx_virtqueue (lib.encode buf) buf_size) [
    | none ↦ none
    | some (h, q) ↦
        if is_mapped s.mapper (lib.dataport_id buf)
        then some (record s { rx_virtqueue = q })
        else none
  ]

  -- The buffer's handle is taken, and the buffer made available again.
  unfoldable pub recycle : ℕ → Link Q D K → Option (Link Q D K)
  recycle buf s =
      let q : Q = elim (lib.vq.get_used_buf s.rx_virtqueue) [
        | none ↦ s.rx_virtqueue
        | some (h, l, q) ↦ q
      ] in
      pico_free_buf (lib.decode buf) (record s { rx_virtqueue = q })

  -- The frame is given to the stack, unless it is empty: whether that succeeds, and the state.
  unfoldable pub receive_frame : ℕ → ℕ → Link Q D K → Bool × Link Q D K
  receive_frame buf len s =
      let (err, k) = lib.stack_recv s.stack s.memory (lib.decode buf) len in
      if len == 0 then (true, s) else (is_positive err, record s { stack = k })

  -- The loop with the loop score, and the score that is left.
  unfoldable pub poll_loop : ℕ → Link Q D K → Result ℕ Q D K
  poll_loop zero s = some (0, s)
  poll_loop (suc score) s = elim (next_used lib.layout s.rx_virtqueue) [
    | none ↦ some (suc score, s)
    | some (h, l) ↦ elim (lib.vq.gather_used s.rx_virtqueue h) [
      | none ↦ none
      | some (buf, len, q) ↦
          let (ok, t) = receive_frame buf len (record s { rx_virtqueue = q }) in
          elim ok [
            | false ↦ some (suc score, t)
            | true ↦ elim (recycle buf t) [ none ↦ none | some u ↦ poll_loop score u ]
          ]
    ]
  ]

  unfoldable pub pico_eth_poll : ℤ → Link Q D K → Result ℤ Q D K
  pico_eth_poll (negsuc n) s = some (negsuc n, s)
  pico_eth_poll (pos score) s = elim (poll_loop score s) [
    | none ↦ none
    | some (left, t) ↦ some (pos left, t)
  ]

  unfoldable pub notify_server : Link Q D K → Link Q D K
  notify_server s =
      if s.client.action
      then record s {
        client = record (s.client) { action = false };
        notices = to_server ∷ s.notices;
      }
      else s

  unfoldable pub irq_from_ethernet : Link Q D K → Link Q D K
  irq_from_ethernet s = record s { stack = lib.stack_tick s.stack }

  -- The buffers for receiving, `n` of them: `alloc` gives the address of each allocation, none for NULL, and
  -- `i` is the number of the next. The dataport of the first buffer is mapped.
  unfoldable pub preallocate_rx : (ℕ → Option ℕ) → ℕ → ℕ → Link Q D K → Option (Link Q D K)
  preallocate_rx alloc i zero s = some s
  preallocate_rx alloc i (suc n) s = elim (alloc i) [
    | none ↦ none
    | some buf ↦
        let mapper' = if i == 0 then lib.dataport_id buf ∷ s.mapper else s.mapper in
        elim (lib.vq.add_available_buf s.rx_virtqueue (lib.encode buf) buf_size) [
          | none ↦ none
          | some (h, q) ↦ preallocate_rx alloc (i + 1) n (record s {
            rx_virtqueue = q;
            mapper = mapper';
            memory = memset buf buf_size s.memory;
          })
        ]
  ]

  -- The buffers for sending.
  unfoldable pub preallocate_tx : (ℕ → Option ℕ) → ℕ → ℕ → Link Q D K → Option (Link Q D K)
  preallocate_tx alloc i zero s = some s
  preallocate_tx alloc i (suc n) s = elim (alloc i) [
    | none ↦ none
    | some buf ↦ preallocate_tx alloc (i + 1) n (record s {
      client = record (s.client) {
        num_tx = s.client.num_tx + 1;
        pending_tx = set s.client.pending_tx s.client.num_tx buf;
      };
      memory = memset buf buf_size s.memory;
    })
  ]

  -- The end of the set-up, once the rings are there: the buffers, and the device with its address, which
  -- `device_init` gives to the stack unless that fails.
  unfoldable pub client_init :
      (ℕ → Option ℕ) → (K → List ℕ → Option K) → List ℕ → Link Q D K → Result ℤ Q D K
  client_init alloc device_init mac s = elim (preallocate_rx alloc 0 num_rx_bufs s) [
    | none ↦ none
    | some t ↦ elim (preallocate_tx alloc num_rx_bufs num_tx_bufs t) [
      | none ↦ none
      | some u ↦ elim (device_init u.stack mac) [
        | none ↦ some (pos 1, u)
        | some k ↦ some (pos 0, record u { stack = k; notices = to_server ∷ u.notices })
      ]
    ]
  ]
