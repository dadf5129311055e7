-- ===== src/SocketServer/Checking.antt =====
-- remote-drivers/picotcp-socket-sync/server/server.c: the checks of the calls.
use global_components.Prelude.{
  ℕ, ◌+◌, ◌^◌, ◌≤◌, ◌<◌, ◌≡◌, ◌⊎◌, inl, some, arith, length, refl, inr, false, ltb, leb, Bool-cases,
  Option-cases, true, none, Option,
}
use global_components.Prelude.Int.{ℤ, pos, negsuc}
use global_components.SocketServer.State.{
  Libs, Server, Result, client_check, end_offset, server_communication_common, socket_of, object,
  returned,
}
use global_components.SocketServer.Transfer.{
  from_peer, communication, pico_send_write, pico_send_send, pico_send_sendto, pico_recv_read,
  pico_recv_recv, pico_recv_recvfrom,
}

-- An end that is not past the size is the sum itself.
fits_end : (o n size : ℕ) → size < 2 ^ 63 → ltb size (end_offset o n) ≡ false → o + n ≤ size
unfolding end_offset
fits_end o n size small e = ground arith

past_end : (o n size : ℕ) → ltb size (end_offset o n) ≡ true → (size < o + n) ⊎ (2 ^ 31 ≤ o + n)
unfolding end_offset
past_end o n size e = elim (Bool-cases (ltb (o + n) (2 ^ 31))) [
  | inl small ↦ inl (ground (arith, e, small))
  | inr large ↦ inr (ground (arith, large))
]

module _ {H A E K Q : Type 0} (lib : Libs H A E K Q) where
  -- Why a call that sends or receives is refused.
  pub data Refused (client : ℕ) (fd len offset : ℤ) (size : ℕ) (s : Server H A E K Q) : Type 0 where
    negative_fd : (n : ℕ) → fd ≡ negsuc n → Refused client fd len offset size s
    negative_len : (n : ℕ) → len ≡ negsuc n → Refused client fd len offset size s
    negative_offset : (n : ℕ) → offset ≡ negsuc n → Refused client fd len offset size s
    does_not_fit :
        (o n : ℕ)
        → offset ≡ pos o
        → len ≡ pos n
        → (size < o + n) ⊎ (2 ^ 31 ≤ o + n)
        → Refused client fd len offset size s
    unknown_fd :
        (f : ℕ) → fd ≡ pos f → socket_of lib client f s ≡ none → Refused client fd len offset size s

  -- What a call does at all: `out` is its result, `call` is what it makes of a socket and an area.
  -- It hands over a socket of the client and an area of the buffer, or it is refused.
  pub Checked :
      {R : Type 0}
      → ℕ
      → ℤ
      → ℤ
      → ℤ
      → ℕ
      → ℕ
      → R
      → Server H A E K Q
      → (ℕ → ℕ → ℕ → Result R H A E K Q)
      → Result R H A E K Q
      → Type 0
  Checked client fd len offset size buf failed s call out =
      ((out ≡ some (failed, s)) × Refused client fd len offset size s)
      ⊎ ((p f o n : ℕ) × (out ≡ call p (buf + o) n)
          × (fd ≡ pos f)
          × (socket_of lib client f s ≡ some p)
          × (offset ≡ pos o)
          × (len ≡ pos n)
          × (o + n ≤ size))

  communication-Checked :
      {R : Type 0} (client : ℕ) (fd len offset : ℤ) (buf_size buf : ℕ → ℕ) (failed : R)
      (s : Server H A E K Q) (call : ℕ → ℕ → ℕ → Result R H A E K Q)
      → client < length s.pico.clients
      → buf_size client < 2 ^ 63
      → Checked client fd len offset
          (buf_size client)
          (buf client)
          failed
          s
          call
          (communication lib client fd len offset buf_size buf failed s call)
  unfolding Checked communication client_check server_communication_common end_offset
  communication-Checked client (negsuc f) len offset buf_size buf failed s call h small =
      inl (ground arith, negative_fd f refl)
  communication-Checked client (pos f) (negsuc l) offset buf_size buf failed s call h small =
      inl (ground arith, negative_len l refl)
  communication-Checked client (pos f) (pos n) (negsuc o) buf_size buf failed s call h small =
      inl (ground arith, negative_offset o refl)
  communication-Checked client (pos f) (pos n) (pos o) buf_size buf failed s call h small =
      elim (Bool-cases (leb (length s.pico.clients) client)) [
        | inl c ↦ absurd (ground arith)
        | inr c ↦ elim (Bool-cases (ltb (buf_size client) (end_offset o n))) [
          | inl e ↦ inl (
            rw (c, client_check, e, server_communication_common, communication) refl,
            does_not_fit o n refl refl (past_end o n (buf_size client) e),
          )
          | inr e ↦ elim (Option-cases (socket_of lib client f s)) [
            | inl g ↦ inl (
              rw (c, client_check, e, g, server_communication_common, communication) refl,
              unknown_fd f refl g,
            )
            | inr (p, g) ↦
                let fits : o + n ≤ buf_size client = fits_end o n (buf_size client) small e in
                inr (
                  p,
                  f,
                  o,
                  n,
                  rw (c, client_check, e, g, server_communication_common, communication) refl,
                  refl,
                  g,
                  refl,
                  refl,
                  fits,
                )
          ]
        ]
      ]

  -- Each call that sends hands the stack a socket of the client and an area that lies within the buffer
  -- of the client for sending, each call that receives one within its buffer for receiving, at the
  -- offset and of the length that the client asks for. A call is refused with nothing changed only
  -- if an argument is negative, the descriptor is unknown, or the area does not fit into that buffer
  -- or ends past an int. The sender must be a client whose buffers are below 2 ^ 63.
  pub communication_bounds :
      (client : ℕ) (fd len offset : ℤ) (dst_addr port : ℕ) (s : Server H A E K Q)
      → client < length s.pico.clients
      → lib.conn.send_buf_size client < 2 ^ 63
      → lib.conn.recv_buf_size client < 2 ^ 63
      → let stack = lib.stack in
        let sends = λ (call : Option ℕ → ℕ → ℕ → ℤ × K).
          Checked client fd len offset
            (lib.conn.send_buf_size client)
            (lib.conn.send_buf client)
            (negsuc 0)
            s
            (λ p a n. returned lib s (call (object lib p s).socket a n)) in
        let receives = λ (call : Option ℕ → ℕ → ℕ → ℤ × K).
          Checked client fd len offset
            (lib.conn.recv_buf_size client)
            (lib.conn.recv_buf client)
            (negsuc 0)
            s
            (λ p a n. returned lib s (call (object lib p s).socket a n)) in
        sends
          (λ sock a n. stack.socket_write s.stack sock a n)
          (pico_send_write lib client fd len offset s)
        × sends
            (λ sock a n. stack.socket_send s.stack sock a n)
            (pico_send_send lib client fd len offset s)
        × sends
            (λ sock a n. stack.socket_sendto s.stack sock a n dst_addr (stack.short_be port))
            (pico_send_sendto lib client fd len offset dst_addr port s)
        × receives
            (λ sock a n. stack.socket_read s.stack sock a n)
            (pico_recv_read lib client fd len offset s)
        × receives
            (λ sock a n. stack.socket_recv s.stack sock a n)
            (pico_recv_recv lib client fd len offset s)
        × Checked client fd len offset
            (lib.conn.recv_buf_size client)
            (lib.conn.recv_buf client)
            (negsuc 0, none)
            s
            (from_peer lib s)
            (pico_recv_recvfrom lib client fd len offset s)
  unfolding pico_send_write pico_send_send pico_send_sendto pico_recv_read pico_recv_recv
      pico_recv_recvfrom
  communication_bounds client fd len offset dst_addr port s h small small' =
      let stack = lib.stack in
      let sends = λ (call : Option ℕ → ℕ → ℕ → ℤ × K).
        communication-Checked client fd len offset lib.conn.send_buf_size lib.conn.send_buf
          (negsuc 0) s (λ p a n. returned lib s (call (object lib p s).socket a n)) h small in
      let receives = λ (call : Option ℕ → ℕ → ℕ → ℤ × K).
        communication-Checked client fd len offset lib.conn.recv_buf_size lib.conn.recv_buf
          (negsuc 0) s (λ p a n. returned lib s (call (object lib p s).socket a n)) h small' in
      (
        sends (λ sock a n. stack.socket_write s.stack sock a n),
        sends (λ sock a n. stack.socket_send s.stack sock a n),
        sends (λ sock a n. stack.socket_sendto s.stack sock a n dst_addr (stack.short_be port)),
        receives (λ sock a n. stack.socket_read s.stack sock a n),
        receives (λ sock a n. stack.socket_recv s.stack sock a n),
        communication-Checked client fd len offset lib.conn.recv_buf_size lib.conn.recv_buf
            (negsuc 0, none) s (from_peer lib s) h small',
      )
