-- ===== src/SocketServer/State.antt =====
-- remote-drivers/picotcp-socket-sync/server/server.c: the state, the libraries and the checks that the
-- calls share.
use global_components.Prelude.{
  ℕ, ◌+◌, ◌-◌, ◌^◌, Bool, Option, none, some, List, ltb, leb, ◌==◌, if◌then◌else◌, length,
}
use global_components.Prelude.Int.{ℤ, pos, negsuc}
use global_components.Virtqueue.{Virtqueue}
use global_components.Picoserver.Table.{Khash}
use global_components.Picoserver.Clients.{Picoserver, PicoserverSocket, Unused, client_get_socket}

-- The network stack over its own state `K`, which has the memory too. A socket is the pointer that the
-- stack gave. Buffers are addresses. `ev_rd` and `ev_wr` are the places of the bits
-- `PICO_SOCK_EV_RD` and `PICO_SOCK_EV_WR`. A callback is a step of its own.
pub record PicoStack (K : Type 0) : Type 0 where
  pub proto_tcp : ℕ
  pub proto_udp : ℕ
  pub ev_rd : ℕ
  pub ev_wr : ℕ
  pub socket_open : K → ℕ → Option ℕ × K
  pub socket_bind : K → Option ℕ → ℕ → ℕ → ℤ × K
  pub socket_connect : K → Option ℕ → ℕ → ℕ → ℤ × K
  pub socket_listen : K → Option ℕ → ℤ → ℤ × K
  pub socket_accept : K → Option ℕ → Option (ℕ × ℕ × ℕ) × K
  pub socket_shutdown : K → Option ℕ → ℤ → ℤ × K
  pub socket_write : K → Option ℕ → ℕ → ℕ → ℤ × K
  pub socket_send : K → Option ℕ → ℕ → ℕ → ℤ × K
  pub socket_sendto : K → Option ℕ → ℕ → ℕ → ℕ → ℕ → ℤ × K
  pub socket_read : K → Option ℕ → ℕ → ℕ → ℤ × K
  pub socket_recv : K → Option ℕ → ℕ → ℕ → ℤ × K
  pub socket_recvfrom : K → Option ℕ → ℕ → ℕ → ℤ × ℕ × ℕ × K
  pub stack_tick : K → K
  pub short_be : ℕ → ℕ

-- What the connectors give for the client: the address and the size of its buffers.
pub record Connectors : Type 0 where
  pub send_buf : ℕ → ℕ
  pub send_buf_size : ℕ → ℕ
  pub recv_buf : ℕ → ℕ
  pub recv_buf_size : ℕ → ℕ

-- A message in the memory that is shared with the client. `buf` is the address of its buffer; `next` is
-- none for NULL, and `cookie_save` the handle that is kept in it.
pub record TxMsg : Type 0 where
  pub socket_fd : ℕ
  pub total_len : ℕ
  pub done_len : ℕ
  pub src_addr : ℕ
  pub remote_port : ℕ
  pub next : Option ℕ
  pub cookie_save : ℕ
  pub buf : ℕ

-- The libraries. `decode` is `DECODE_DMA_ADDRESS`, and `tries` the number of rounds that the loop over the
-- messages of a socket is given.
pub record Libs (H A E K Q : Type 0) : Type 0 where
  pub kh : Khash H ℕ
  pub ka : Khash A ℕ
  pub ke : Khash E Unused
  pub stack : PicoStack K
  pub conn : Connectors
  pub vq : Virtqueue Q
  pub decode : ℕ → Option ℕ
  pub tries : ℕ

-- What `notify_client` sends.
pub data Notice : Type 0 where
  control_emit tx_notify : Notice

-- The globals. `msgs` has the message at each pointer, and `sent` the notices, the newest first.
pub record Server (H A E K Q : Type 0) : Type 0 where
  pub pico : Picoserver H A E
  pub stack : K
  pub tx_virtqueue : Q
  pub rx_virtqueue : Q
  pub emit_client : Bool
  pub emit_client_async : Bool
  pub msgs : ℕ → TxMsg
  pub sent : List Notice

-- The result of a call and the state after it; none is a fatal error.
abbrev pub Result : (R H A E K Q : Type 0) → Type 0
Result R H A E K Q = Option (R × Server H A E K Q)

-- `v` at pointer `p`
abbrev pub update : {V : Type 0} → (ℕ → V) → ℕ → V → ℕ → V
update f p v q = if q == p then v else f q

-- `(size_t) (buffer_offset + len)` of two `int` that are not negative: the sum wraps.
unfoldable pub end_offset : ℕ → ℕ → ℕ
end_offset offset len =
    if ltb (offset + len) (2 ^ 31) then offset + len else offset + len + (2 ^ 64 - 2 ^ 32)

module _ {H A E K Q : Type 0} (lib : Libs H A E K Q) where
  -- `none` is the fatal error of `client_check`.
  unfoldable pub client_check : ℕ → Server H A E K Q → Option ℕ
  client_check client s = if leb (length s.pico.clients) client then none else some client

  abbrev pub socket_of : ℕ → ℕ → Server H A E K Q → Option ℕ
  socket_of client fd s = client_get_socket lib.kh lib.ka lib.ke client fd s.pico

  abbrev pub object : ℕ → Server H A E K Q → PicoserverSocket
  object p s = s.pico.heap p

  -- The socket of a descriptor; none is the result -1.
  unfoldable pub server_control_common : ℕ → ℤ → Server H A E K Q → Option ℕ
  server_control_common client (pos fd) s = socket_of client fd s
  server_control_common client (negsuc n) s = none

  -- The socket of a descriptor and the address in the buffer; none is the result -1.
  unfoldable pub server_communication_common :
      ℕ → ℤ → ℤ → ℤ → ℕ → ℕ → Server H A E K Q → Option (ℕ × ℕ × ℕ)
  server_communication_common client (pos fd) (pos len) (pos offset) size buf s =
      if ltb size (end_offset offset len)
      then none
      else elim (socket_of client fd s) [ none ↦ none | some p ↦ some (p, buf + offset, len) ]
  server_communication_common client (pos fd) (pos len) (negsuc o) size buf s = none
  server_communication_common client (pos fd) (negsuc l) offset size buf s = none
  server_communication_common client (negsuc f) len offset size buf s = none

  -- The frame of the control calls: the checks, and what follows them for the socket.
  unfoldable pub control : ℕ → ℤ → Server H A E K Q → (ℕ → Result ℤ H A E K Q) → Result ℤ H A E K Q
  control client fd s call = elim (client_check client s) [
    | none ↦ none
    | some c ↦ elim (server_control_common c fd s) [ none ↦ some (negsuc 0, s) | some p ↦ call p ]
  ]

  -- What a call of the stack leaves.
  abbrev pub returned : Server H A E K Q → ℤ × K → Result ℤ H A E K Q
  returned s (ret, k) = some (ret, record s { stack = k })
