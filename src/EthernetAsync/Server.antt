-- ===== src/EthernetAsync/Server.antt =====
-- remote-drivers/picotcp-ethernet-async/server.c: the driver's side of the rings.
use global_components.Prelude.{
  ℕ, zero, suc, ◌+◌, true, false, ◌||◌, Option, none, some, List, [], ◌∷◌, ltb, if◌then◌else◌,
  length, map,
}
use global_components.Virtqueue.{next_available}
use global_components.EthernetAsync.State.{Libs, Link, Result, buf_size, to_client}

module _ {Q D K : Type 0} (lib : Libs Q D K) where
  -- A cookie is a handle, with the 32 bits that it is cast to.
  unfoldable pub eth_tx_complete : ℕ → Link Q D K → Option (Link Q D K)
  eth_tx_complete cookie s = elim (lib.vq.add_used_buf s.tx_virtqueue cookie buf_size) [
    | none ↦ none
    | some q ↦ some (record s {
      tx_virtqueue = q;
      server = record (s.server) { action = s.server.blocked_tx || s.server.action };
    })
  ]

  -- The physical address and the cookie, if there is a buffer; the address is 0 if not.
  unfoldable pub eth_allocate_rx_buf : ℕ → Link Q D K → Result (Option (ℕ × ℕ)) Q D K
  eth_allocate_rx_buf size s =
      if ltb buf_size size then some (none, s) else elim (lib.vq.get_available_buf s.rx_virtqueue) [
        | none ↦ some (none, record s { server = record (s.server) { no_rx_bufs = true } })
        | some (h, q) ↦ elim (lib.vq.gather_available q h) [
          | none ↦ none
          | some (buf, len) ↦ some (
            some (lib.dma_pin (lib.decode buf) buf_size, h),
            record s { rx_virtqueue = q; server = record (s.server) { no_rx_bufs = false } },
          )
        ]
      ]

  -- The buffers of a frame in several are returned with the length 0.
  unfoldable pub drop_bufs : List ℕ → Link Q D K → Option (Link Q D K)
  drop_bufs [] s = some s
  drop_bufs (h ∷ hs) s = elim (lib.vq.add_used_buf s.rx_virtqueue h 0) [
    | none ↦ none
    | some q ↦ drop_bufs hs (record s { rx_virtqueue = q })
  ]

  -- The buffers of a frame come with their lengths.
  unfoldable pub eth_rx_complete : List (ℕ × ℕ) → Link Q D K → Option (Link Q D K)
  eth_rx_complete ((h, len) ∷ []) s = elim (lib.vq.add_used_buf s.rx_virtqueue h len) [
    | none ↦ none
    | some q ↦ some (record s { rx_virtqueue = q; server = record (s.server) { action = true } })
  ]
  eth_rx_complete bufs s = elim (drop_bufs (map (λ e. e.0) bufs) s) [
    | none ↦ none
    | some t ↦ some (record t { server = record (t.server) { action = true } })
  ]

  abbrev pub client_get_mac : Link Q D K → List ℕ
  client_get_mac s = s.server.hw_mac

  -- The frame has been taken by the driver: it leaves the ring.
  unfoldable pub frame_sent : Link Q D K → Link Q D K
  frame_sent s = record s {
    server = record (s.server) { blocked_tx = false };
    tx_virtqueue = elim (lib.vq.get_available_buf s.tx_virtqueue) [
      | none ↦ s.tx_virtqueue
      | some (h, q) ↦ q
    ];
  }

  -- The loop, for `fuel` rounds; none is a fatal error, or that the rounds run out.
  unfoldable pub transmit_loop : ℕ → Link Q D K → Option (Link Q D K)
  transmit_loop zero s = none
  transmit_loop (suc fuel) s = elim (next_available lib.layout s.tx_virtqueue) [
    | none ↦ some s
    | some h ↦ elim (lib.vq.gather_available s.tx_virtqueue h) [
      | none ↦ none
      | some (buf, len) ↦
          let (enqueued, t) = lib.raw_tx (lib.dma_pin (lib.decode buf) buf_size) len h s in
          elim enqueued [
            | false ↦ some (record t { server = record (t.server) { blocked_tx = true } })
            | true ↦ transmit_loop fuel (frame_sent t)
          ]
    ]
  ]

  -- The driver is polled if it waits for buffers.
  unfoldable pub poll_driver : Link Q D K → Link Q D K
  poll_driver s = if s.server.no_rx_bufs then lib.raw_poll s else s

  -- One round for each frame that waits, and one to see that none does.
  unfoldable pub virt_queue_handle_irq : Link Q D K → Option (Link Q D K)
  virt_queue_handle_irq s =
      let t = poll_driver s in transmit_loop (length (lib.vq.avail t.tx_virtqueue) + 1) t

  unfoldable pub notify_client : Link Q D K → Option (Link Q D K)
  notify_client s =
      let handled = virt_queue_handle_irq s in
      if s.server.action
      then elim (if s.server.blocked_tx then handled else some s) [
        | none ↦ none
        | some t ↦ some (record t {
          server = record (t.server) { action = false };
          notices = to_client ∷ t.notices;
        })
      ]
      else some s

  -- The end of the set-up: the address of the hardware is kept, and the driver polled.
  unfoldable pub server_init : List ℕ → Link Q D K → Link Q D K
  server_init mac s = lib.raw_poll (record s {
    server = record { action = false; blocked_tx = false; no_rx_bufs = false; hw_mac = mac };
  })
