-- ===== src/SocketServer/Incoming.antt =====
-- remote-drivers/picotcp-socket-sync/server/server.c: the messages that clients put into the rings,
-- `tx_queue_handle` and `rx_queue_handle`.
use global_components.Prelude.{
  ℕ, zero, suc, ◌+◌, ◌-◌, ◌^◌, Bool, ◌||◌, Option, none, some, ltb, ◌==◌, if◌then◌else◌, length,
}
use global_components.SocketServer.State.{Libs, Server, object, update, socket_of}
use global_components.SocketServer.Pending.{link_msg}
use global_components.SocketServer.Async.{
  Direction, tx, rx, complete, with_done, set_queue, queue_of, tx_transfer, rx_transfer, is_error,
  is_short_rx, to_size,
}

module _ {H A E K Q : Type 0} (lib : Libs H A E K Q) where
  -- The message is returned unused: `done_len = -1`, and its handle with length 0.
  unfoldable pub reject : Direction → ℕ → ℕ → Server H A E K Q → Server H A E K Q
  reject d handle m s = complete lib d handle 0 (with_done lib m (2 ^ 64 - 1) s)

  -- The message waits alone at the socket at `p`, with `n` bytes done.
  unfoldable pub wait_alone : Direction → ℕ → ℕ → ℕ → ℕ → Server H A E K Q → Server H A E K Q
  wait_alone d handle p m n s =
      set_queue lib d p (record { queue = some m; queue_end = some m })
        (record s {
          msgs =
              update s.msgs m
                (record (s.msgs m) { done_len = n; next = none; cookie_save = handle });
        })

  -- The message goes behind the last one, `e`, that waits at the socket at `p`.
  unfoldable pub wait_behind : Direction → ℕ → ℕ → ℕ → ℕ → Server H A E K Q → Server H A E K Q
  wait_behind d handle p m e s =
      set_queue lib d p (record (queue_of lib d p s) { queue_end = some m })
        (record s { msgs = link_msg s.msgs e m handle })

  -- The first attempt on a message of a socket at which none waits.
  unfoldable pub tx_first : ℕ → ℕ → ℕ → Server H A E K Q → Server H A E K Q
  tx_first handle p m s =
      let (ret, t) = tx_transfer lib p m 0 s in
      let total = (t.msgs m).total_len in
      if is_error ret
      then reject tx handle m t
      else if ltb (to_size ret) total
      then wait_alone tx handle p m (to_size ret) t
      else complete lib tx handle total (with_done lib m total t)

  unfoldable pub rx_first : ℕ → ℕ → ℕ → Server H A E K Q → Server H A E K Q
  rx_first handle p m s =
      let (ret, t) = rx_transfer lib p m 0 s in
      if is_error ret
      then reject rx handle m t
      else if is_short_rx lib p ret (t.msgs m).total_len t
      then wait_alone rx handle p m (to_size ret) t
      else complete lib rx handle (to_size ret) (with_done lib m (to_size ret) t)

  abbrev pub first_attempt : Direction → ℕ → ℕ → ℕ → Server H A E K Q → Server H A E K Q
  first_attempt tx handle p m s = tx_first handle p m s
  first_attempt rx handle p m s = rx_first handle p m s

  -- The message at `m` for the socket at `p`; none is a fatal error.
  unfoldable pub offer : Direction → ℕ → ℕ → ℕ → Server H A E K Q → Option (Server H A E K Q)
  offer d handle p m s = elim (queue_of lib d p s).queue [
    | none ↦ some (first_attempt d handle p m s)
    | some x ↦ elim (queue_of lib d p s).queue_end [
      | none ↦ none
      | some e ↦ some (wait_behind d handle p m e s)
    ]
  ]

  -- The message at `m`, once its length is checked. Only the sockets of client 0 are looked up.
  unfoldable pub dispatch : Direction → ℕ → ℕ → Server H A E K Q → Option (Server H A E K Q)
  dispatch d handle m s = elim (socket_of lib 0 (s.msgs m).socket_fd s) [
    | none ↦ some (reject d handle m s)
    | some p ↦ elim (object lib p s).socket [
      | none ↦ some (reject d handle m s)
      | some a ↦ elim (object lib p s).async_transport [
        | none ↦ some (reject d handle m s)
        | some t ↦ offer d handle p m s
      ]
    ]
  ]

  abbrev pub ring : Direction → Server H A E K Q → Q
  ring tx s = s.tx_virtqueue
  ring rx s = s.rx_virtqueue

  abbrev pub with_ring : Direction → Q → Server H A E K Q → Server H A E K Q
  with_ring tx q s = record s { tx_virtqueue = q }
  with_ring rx q s = record s { rx_virtqueue = q }

  -- `(msg->total_len > 1400) || (msg->total_len == 0)`
  abbrev pub is_bad_len : ℕ → Bool
  is_bad_len n = ltb 1400 n || n == 0

  -- One round of the loop for the handle that was taken; none is a fatal error, or a handle without a
  -- buffer.
  unfoldable pub take_msg : Direction → ℕ → Server H A E K Q → Option (Server H A E K Q)
  take_msg d handle s = elim (lib.vq.gather_available (ring d s) handle) [
    | none ↦ none
    | some (buf, len) ↦ elim (lib.decode buf) [
      | none ↦ none
      | some m ↦ if is_bad_len (s.msgs m).total_len then none else dispatch d handle m s
    ]
  ]

  -- The loop, for `fuel` rounds; none is a fatal error, or that the rounds run out.
  unfoldable pub queue_loop : Direction → ℕ → Server H A E K Q → Option (Server H A E K Q)
  queue_loop d zero s = none
  queue_loop d (suc fuel) s = elim (lib.vq.get_available_buf (ring d s)) [
    | none ↦ some s
    | some (handle, q) ↦ elim (take_msg d handle (with_ring d q s)) [
      | none ↦ none
      | some t ↦ queue_loop d fuel t
    ]
  ]

  -- One round for each buffer that waits, and one to see that none does.
  unfoldable pub queue_handle : Direction → Server H A E K Q → Option (Server H A E K Q)
  queue_handle d s = queue_loop d (length (lib.vq.avail (ring d s)) + 1) s

  unfoldable pub tx_queue_handle : Server H A E K Q → Option (Server H A E K Q)
  tx_queue_handle s = queue_handle tx s

  unfoldable pub rx_queue_handle : Server H A E K Q → Option (Server H A E K Q)
  rx_queue_handle s = queue_handle rx s

  unfoldable pub tx_queue_handle_irq : Server H A E K Q → Option (Server H A E K Q)
  tx_queue_handle_irq s = elim (rx_queue_handle s) [
    | none ↦ none
    | some t ↦ elim (tx_queue_handle t) [
      | none ↦ none
      | some u ↦ some (record u { stack = lib.stack.stack_tick u.stack })
    ]
  ]
