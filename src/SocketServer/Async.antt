-- ===== src/SocketServer/Async.antt =====
-- remote-drivers/picotcp-socket-sync/server/server.c: the messages of a socket that is set to asynchronous
-- transport, `tx_socket` and `rx_socket`.
use global_components.Prelude.{
  ℕ, zero, suc, ◌+◌, ◌-◌, ◌%◌, ◌^◌, Bool, true, false, ◌&&◌, ◌||◌, Option, none, some, ltb, ◌==◌,
  if◌then◌else◌,
}
use global_components.Prelude.Int.{ℤ, pos, negsuc}
use global_components.Picoserver.Clients.{Pending, PicoserverSocketAsync, PicoserverSocket}
use global_components.SocketServer.State.{Libs, Server, object, update}
use global_components.SocketServer.Pending.{pop_pending}

-- To the network, or from it.
pub data Direction : Type 0 where
  tx rx : Direction

abbrev pub queue_in : Direction → PicoserverSocketAsync → Pending
queue_in tx a = a.tx_queue
queue_in rx a = a.rx_queue

abbrev pub with_queue : Direction → Pending → PicoserverSocketAsync → PicoserverSocketAsync
with_queue tx q a = record a { tx_queue = q }
with_queue rx q a = record a { rx_queue = q }

-- `(size_t) ret`
abbrev pub to_size : ℤ → ℕ
to_size (pos n) = n
to_size (negsuc n) = 2 ^ 64 - 1 - n

-- `ret == -1`
abbrev pub is_error : ℤ → Bool
is_error (pos n) = false
is_error (negsuc n) = n == 0

module _ {H A E K Q : Type 0} (lib : Libs H A E K Q) where
  -- The ring with a buffer more in use; it is the old one where the library reports an error, which is only
  -- logged.
  abbrev pub add_used : Q → ℕ → ℕ → Q
  add_used q h len = elim (lib.vq.add_used_buf q h len) [ none ↦ q | some t ↦ t ]

  -- A handle has the 32 bits that it is cast to.
  unfoldable pub tx_complete : ℕ → ℕ → Server H A E K Q → Server H A E K Q
  tx_complete cookie len s = record s {
    tx_virtqueue = add_used s.tx_virtqueue cookie len;
    emit_client_async = true;
  }

  unfoldable pub rx_complete : ℕ → ℕ → Server H A E K Q → Server H A E K Q
  rx_complete cookie len s = record s {
    rx_virtqueue = add_used s.rx_virtqueue cookie len;
    emit_client_async = true;
  }

  abbrev pub complete : Direction → ℕ → ℕ → Server H A E K Q → Server H A E K Q
  complete tx cookie len s = tx_complete cookie len s
  complete rx cookie len s = rx_complete cookie len s

  -- The queue of the socket at `p`; NULL in both ends where it is not asynchronous.
  unfoldable pub queue_of : Direction → ℕ → Server H A E K Q → Pending
  queue_of d p s = elim (object lib p s).async_transport [
    | none ↦ record { queue = none; queue_end = none }
    | some a ↦ queue_in d a
  ]

  abbrev pub with_object : ℕ → PicoserverSocket → Server H A E K Q → Server H A E K Q
  with_object p o s = record s { pico = record (s.pico) { heap = update s.pico.heap p o } }

  unfoldable pub set_queue : Direction → ℕ → Pending → Server H A E K Q → Server H A E K Q
  set_queue d p q s = elim (object lib p s).async_transport [
    | none ↦ s
    | some a ↦
        with_object p (record (object lib p s) { async_transport = some (with_queue d q a) }) s
  ]

  -- `msg->done_len = n`
  abbrev pub with_done : ℕ → ℕ → Server H A E K Q → Server H A E K Q
  with_done m n s = record s { msgs = update s.msgs m (record (s.msgs m) { done_len = n }) }

  -- `msg->total_len - done`, in `size_t`
  abbrev pub bytes_left : ℕ → ℕ → Server H A E K Q → ℕ
  bytes_left m done_len s = ((s.msgs m).total_len + 2 ^ 64 - done_len) % 2 ^ 64

  -- The call that sends message `m` from `done` on for the socket at `p`.
  unfoldable pub tx_transfer : ℕ → ℕ → ℕ → Server H A E K Q → ℤ × Server H A E K Q
  tx_transfer p m done_len s =
      let msg = s.msgs m in
      let o = object lib p s in
      let left = bytes_left m done_len s in
      let (ret, k) =
        if o.protocol == lib.stack.proto_udp
        then lib.stack.socket_sendto s.stack o.socket (msg.buf + done_len) left msg.src_addr
            msg.remote_port
        else lib.stack.socket_send s.stack o.socket (msg.buf + done_len) left in
      (ret, record s { stack = k })

  -- The call that receives into message `m` from `done` on.
  unfoldable pub rx_transfer : ℕ → ℕ → ℕ → Server H A E K Q → ℤ × Server H A E K Q
  rx_transfer p m done_len s =
      let msg = s.msgs m in
      let o = object lib p s in
      let left = bytes_left m done_len s in
      let (ret, addr, port, k) =
        lib.stack.socket_recvfrom s.stack o.socket (msg.buf + done_len) left in
      let (ret', k') = lib.stack.socket_recv s.stack o.socket (msg.buf + done_len) left in
      if o.protocol == lib.stack.proto_udp
      then (
        ret,
        record s {
          stack = k;
          msgs = update s.msgs m (record msg { src_addr = addr; remote_port = port });
        },
      )
      else (ret', record s { stack = k' })

  -- `ret` is less than what receiving message `m` into the `left` bytes waits for.
  abbrev pub is_short_rx : ℕ → ℤ → ℕ → Server H A E K Q → Bool
  is_short_rx p ret left s =
      ((object lib p s).protocol == lib.stack.proto_tcp && ltb (to_size ret) left)
      || ((object lib p s).protocol == lib.stack.proto_udp && to_size ret == 0)

  -- Message `m` leaves the queue of the socket and is completed with a length.
  unfoldable pub finish : Direction → ℕ → ℕ → ℕ → Server H A E K Q → Server H A E K Q
  finish d p m len s =
      complete d (s.msgs m).cookie_save len
        (set_queue d p (pop_pending s.msgs m (queue_of d p s)) s)

  -- One round of the loop for the first message: whether the loop goes on, and the state.
  unfoldable pub tx_round : ℕ → ℕ → Server H A E K Q → Bool × Server H A E K Q
  tx_round p m s =
      let done_len = (s.msgs m).done_len in
      let (ret, t) = tx_transfer p m done_len s in
      if is_error ret
      then (true, finish tx p m 0 (with_done m (2 ^ 64 - 1) t))
      else if ltb (to_size ret) (bytes_left m done_len t)
      then (false, with_done m ((done_len + to_size ret) % 2 ^ 64) t)
      else (true, finish tx p m (t.msgs m).total_len (with_done m (t.msgs m).total_len t))

  unfoldable pub rx_round : ℕ → ℕ → Server H A E K Q → Bool × Server H A E K Q
  rx_round p m s =
      let done_len = (s.msgs m).done_len in
      let (ret, t) = rx_transfer p m done_len s in
      let u = with_done m ((done_len + to_size ret) % 2 ^ 64) t in
      if is_error ret
      then (false, finish rx p m 0 (with_done m (2 ^ 64 - 1) t))
      else if is_short_rx p ret (bytes_left m done_len t) t
      then (false, u)
      else (true, finish rx p m (u.msgs m).total_len u)

  abbrev pub round : Direction → ℕ → ℕ → Server H A E K Q → Bool × Server H A E K Q
  round tx p m s = tx_round p m s
  round rx p m s = rx_round p m s

  -- The loop over the queue; none is a fatal error, or that the rounds run out.
  unfoldable pub socket_loop : Direction → ℕ → ℕ → Server H A E K Q → Option (Server H A E K Q)
  socket_loop d zero p s = none
  socket_loop d (suc fuel) p s = elim (queue_of d p s).queue [
    | none ↦ some s
    | some m ↦ elim (queue_of d p s).queue_end [
      | none ↦ none
      | some e ↦
          let (more, t) = round d p m s in
          elim more [ true ↦ socket_loop d fuel p t | false ↦ some t ]
    ]
  ]

  -- The checks of `tx_socket` and `rx_socket`, which are the same, and the loop.
  unfoldable pub serve_socket : Direction → Option ℕ → Server H A E K Q → Option (Server H A E K Q)
  serve_socket d none s = some s
  serve_socket d (some p) s = elim (object lib p s).socket [
    | none ↦ some s
    | some a ↦ elim (object lib p s).async_transport [
      | none ↦ some s
      | some t ↦ socket_loop d lib.tries p s
    ]
  ]

  unfoldable pub tx_socket : Option ℕ → Server H A E K Q → Option (Server H A E K Q)
  tx_socket p s = serve_socket tx p s

  unfoldable pub rx_socket : Option ℕ → Server H A E K Q → Option (Server H A E K Q)
  rx_socket p s = serve_socket rx p s
