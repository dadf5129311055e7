-- ===== src/SocketServer/Transfer.antt =====
-- remote-drivers/picotcp-socket-sync/server/server.c: the calls that send and receive.
use global_components.Prelude.{ℕ, Option, none, some}
use global_components.Prelude.Int.{ℤ, negsuc}
use global_components.SocketServer.State.{
  Libs, Server, Result, returned, client_check, server_communication_common, object,
}

module _ {H A E K Q : Type 0} (lib : Libs H A E K Q) where
  -- The frame of the calls: the checks, and what follows them for the socket, the address and the length.
  unfoldable pub communication :
      {R : Type 0}
      → ℕ
      → ℤ
      → ℤ
      → ℤ
      → (ℕ → ℕ)
      → (ℕ → ℕ)
      → R
      → Server H A E K Q
      → (ℕ → ℕ → ℕ → Result R H A E K Q)
      → Result R H A E K Q
  communication client fd len offset buf_size buf failed s call = elim (client_check lib client s) [
    | none ↦ none
    | some c ↦ elim (server_communication_common lib c fd len offset (buf_size c) (buf c) s) [
      | none ↦ some (failed, s)
      | some (p, a, n) ↦ call p a n
    ]
  ]

  -- The calls on the buffer for sending.
  abbrev pub sending :
      ℕ → ℤ → ℤ → ℤ → Server H A E K Q → (Option ℕ → ℕ → ℕ → ℤ × K) → Result ℤ H A E K Q
  sending client fd len offset s call =
      communication client fd len offset lib.conn.send_buf_size lib.conn.send_buf (negsuc 0) s
        (λ p a n. returned lib s (call (object lib p s).socket a n))

  -- The calls on the buffer for receiving.
  abbrev pub receiving :
      ℕ → ℤ → ℤ → ℤ → Server H A E K Q → (Option ℕ → ℕ → ℕ → ℤ × K) → Result ℤ H A E K Q
  receiving client fd len offset s call =
      communication client fd len offset lib.conn.recv_buf_size lib.conn.recv_buf (negsuc 0) s
        (λ p a n. returned lib s (call (object lib p s).socket a n))

  unfoldable pub pico_send_write : ℕ → ℤ → ℤ → ℤ → Server H A E K Q → Result ℤ H A E K Q
  pico_send_write client fd len offset s =
      sending client fd len offset s (λ sock a n. lib.stack.socket_write s.stack sock a n)

  unfoldable pub pico_send_send : ℕ → ℤ → ℤ → ℤ → Server H A E K Q → Result ℤ H A E K Q
  pico_send_send client fd len offset s =
      sending client fd len offset s (λ sock a n. lib.stack.socket_send s.stack sock a n)

  unfoldable pub pico_send_sendto : ℕ → ℤ → ℤ → ℤ → ℕ → ℕ → Server H A E K Q → Result ℤ H A E K Q
  pico_send_sendto client fd len offset dst_addr port s =
      sending client fd len offset s
        (λ sock a n. lib.stack.socket_sendto s.stack sock a n dst_addr (lib.stack.short_be port))

  unfoldable pub pico_recv_read : ℕ → ℤ → ℤ → ℤ → Server H A E K Q → Result ℤ H A E K Q
  pico_recv_read client fd len offset s =
      receiving client fd len offset s (λ sock a n. lib.stack.socket_read s.stack sock a n)

  unfoldable pub pico_recv_recv : ℕ → ℤ → ℤ → ℤ → Server H A E K Q → Result ℤ H A E K Q
  pico_recv_recv client fd len offset s =
      receiving client fd len offset s (λ sock a n. lib.stack.socket_recv s.stack sock a n)

  -- `pico_socket_recvfrom`, with the sender's address and port for the client.
  abbrev pub from_peer : Server H A E K Q → ℕ → ℕ → ℕ → Result (ℤ × Option (ℕ × ℕ)) H A E K Q
  from_peer s p a n =
      let (ret, src_addr, port, k) =
        lib.stack.socket_recvfrom s.stack (object lib p s).socket a n in
      some ((ret, some (src_addr, lib.stack.short_be port)), record s { stack = k })

  -- The result, the sender's address and its port; where the checks fail the latter two are not set.
  unfoldable pub pico_recv_recvfrom :
      ℕ → ℤ → ℤ → ℤ → Server H A E K Q → Result (ℤ × Option (ℕ × ℕ)) H A E K Q
  pico_recv_recvfrom client fd len offset s =
      communication client fd len offset lib.conn.recv_buf_size lib.conn.recv_buf (negsuc 0, none) s
        (from_peer s)
