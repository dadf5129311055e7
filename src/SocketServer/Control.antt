-- ===== src/SocketServer/Control.antt =====
-- remote-drivers/picotcp-socket-sync/server/server.c: the calls that control sockets.
use global_components.Prelude.{ℕ, Bool, Option, none, some, ◌∷◌, if◌then◌else◌}
use global_components.Prelude.Int.{ℤ, pos, negsuc, same_ℤ, bits_of_int}
use global_components.Picoserver.Clients.{PicoserverSocket, PicoserverEvent}
use global_components.Picoserver.Sockets.{client_put_socket}
use global_components.Picoserver.Events.{client_get_event, no_events}
use global_components.SocketServer.State.{
  Libs, Server, Result, control, returned, client_check, object, update, server_control_common,
}

-- What `calloc` leaves, with the fields that the calls set.
abbrev pub new_socket : ℕ → ℕ → Option ℕ → PicoserverSocket
new_socket client protocol sock = record {
  protocol = protocol;
  client_id = client;
  socket_fd = 0;
  socket = sock;
  events = no_events;
  async_transport = none;
}

pub record PicoserverPeer : Type 0 where
  pub result : ℤ
  pub socket : ℤ
  pub peer_addr : ℕ
  pub peer_port : ℕ

abbrev pub no_peer : PicoserverPeer
no_peer = record { result = negsuc 0; socket = pos 0; peer_addr = 0; peer_port = 0 }

module _ {H A E K Q : Type 0} (lib : Libs H A E K Q) where
  -- `pico_socket_close` and `free` of a socket that was not registered.
  abbrev pub undone : ℕ → Option ℕ → Server H A E K Q → Server H A E K Q
  undone p sock s = record s {
    pico = record (s.pico) { closed = sock ∷ s.pico.closed; freed = p ∷ s.pico.freed };
  }

  -- `new_socket->socket_fd = ret`. The field keeps the 32 bits of the `int`, as which it is looked up.
  abbrev pub with_fd : ℕ → ℕ → Server H A E K Q → Server H A E K Q
  with_fd p fd s = record s {
    pico = record (s.pico) {
      heap = update s.pico.heap p (record (object lib p s) { socket_fd = fd });
    };
  }

  -- The object at `p` is put under a descriptor. Only -1 counts as a failure.
  unfoldable pub register : ℕ → ℕ → PicoserverSocket → Server H A E K Q → Result ℤ H A E K Q
  register client p sock s =
      let pico = record (s.pico) { heap = update s.pico.heap p sock } in
      elim (client_put_socket lib.kh lib.ka lib.ke client p pico) [
        | none ↦ none
        | some (ret, t) ↦
            let left = record s { pico = t } in
            if same_ℤ ret (negsuc 0)
            then some (negsuc 0, undone p sock.socket left)
            else some (ret, with_fd p (bits_of_int ret) left)
      ]

  -- `new` is the pointer that `calloc` gives; none is NULL.
  unfoldable pub pico_control_open : ℕ → Option ℕ → Bool → Server H A E K Q → Result ℤ H A E K Q
  pico_control_open client new is_udp s = elim (client_check lib client s) [
    | none ↦ none
    | some c ↦ elim new [
      | none ↦ some (negsuc 0, s)
      | some p ↦
          let protocol = if is_udp then lib.stack.proto_udp else lib.stack.proto_tcp in
          let (sock, k) = lib.stack.socket_open s.stack protocol in
          let t = record s { stack = k } in
          elim sock [
            | none ↦
                some (negsuc 0, record t { pico = record (t.pico) { freed = p ∷ t.pico.freed } })
            | some a ↦ register c p (new_socket c protocol (some a)) t
          ]
    ]
  ]

  unfoldable pub pico_control_bind : ℕ → ℤ → ℕ → ℕ → Server H A E K Q → Result ℤ H A E K Q
  pico_control_bind client fd addr port s = control lib client fd s (λ p.
      returned lib s
        (lib.stack.socket_bind s.stack (object lib p s).socket addr (lib.stack.short_be port)))

  unfoldable pub pico_control_connect : ℕ → ℤ → ℕ → ℕ → Server H A E K Q → Result ℤ H A E K Q
  pico_control_connect client fd addr port s = control lib client fd s (λ p.
      returned lib s
        (lib.stack.socket_connect s.stack (object lib p s).socket addr (lib.stack.short_be port)))

  unfoldable pub pico_control_listen : ℕ → ℤ → ℤ → Server H A E K Q → Result ℤ H A E K Q
  pico_control_listen client fd backlog s =
      control lib client fd s
        (λ p. returned lib s (lib.stack.socket_listen s.stack (object lib p s).socket backlog))

  unfoldable pub pico_control_shutdown : ℕ → ℤ → ℤ → Server H A E K Q → Result ℤ H A E K Q
  pico_control_shutdown client fd mode s =
      control lib client fd s
        (λ p. returned lib s (lib.stack.socket_shutdown s.stack (object lib p s).socket mode))

  -- The socket that the stack accepted is registered at the pointer that `calloc` gives.
  unfoldable pub accepted :
      ℕ → Option ℕ → ℕ × ℕ × ℕ → Server H A E K Q → Result PicoserverPeer H A E K Q
  accepted client none (sock, addr, port) s =
      some (no_peer, record s { pico = record (s.pico) { closed = some sock ∷ s.pico.closed } })
  accepted client (some p) (sock, addr, port) s =
      elim (register client p (new_socket client lib.stack.proto_tcp (some sock)) s) [
        | none ↦ none
        | some (ret, t) ↦
            if same_ℤ ret (negsuc 0)
            then some (no_peer, t)
            else some
                (record { result = pos 0; socket = ret; peer_addr = addr; peer_port = port }, t)
      ]

  unfoldable pub pico_control_accept :
      ℕ → Option ℕ → ℤ → Server H A E K Q → Result PicoserverPeer H A E K Q
  pico_control_accept client new fd s = elim (client_check lib client s) [
    | none ↦ none
    | some c ↦ elim (server_control_common lib c fd s) [
      | none ↦ some (no_peer, s)
      | some p ↦
          let (peer, k) = lib.stack.socket_accept s.stack (object lib p s).socket in
          let t = record s { stack = k } in
          elim peer [ none ↦ some (no_peer, t) | some a ↦ accepted c new a t ]
    ]
  ]

  -- The event of the client, of zeros if there is none.
  unfoldable pub pico_control_event_poll : ℕ → Server H A E K Q → Result PicoserverEvent H A E K Q
  pico_control_event_poll client s = elim (client_check lib client s) [
    | none ↦ none
    | some c ↦ elim (client_get_event lib.kh lib.ka lib.ke c s.pico) [
      | none ↦ none
      | some (none, t) ↦
          some (
            record { socket_fd = 0; events = no_events; num_events_left = 0 },
            record s { pico = t },
          )
      | some (some event, t) ↦ some (event, record s { pico = t })
    ]
  ]
