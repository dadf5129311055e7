-- ===== src/SocketServer/Closing.antt =====
-- remote-drivers/picotcp-socket-sync/server/server.c: the end of a socket, its events, and the notices.
use global_components.Prelude.{
  ℕ, zero, suc, ◌-◌, ◌^◌, Bool, true, false, Option, none, some, List, [], ◌∷◌, ◌++◌, if◌then◌else◌,
  get_or, set, ◌||◌,
}
use global_components.Prelude.Int.{ℤ, pos, negsuc, same_ℤ}
use global_components.Picoserver.Clients.{PicoserverSocketAsync, client_get_socket_by_addr}
use global_components.Picoserver.Sockets.{client_delete_socket}
use global_components.Picoserver.Events.{client_put_event}
use global_components.SocketServer.State.{
  Libs, Server, Result, control_emit, tx_notify, object, control,
}
use global_components.SocketServer.Async.{
  Direction, tx, rx, with_done, with_object, queue_of, finish, tx_socket, rx_socket,
}
use global_components.SocketServer.Incoming.{tx_queue_handle, rx_queue_handle}

-- `if (ev)`
unfoldable pub any_event : List Bool → Bool
any_event [] = false
any_event (b ∷ bs) = b || any_event bs

module _ {H A E K Q : Type 0} (lib : Libs H A E K Q) where
  -- One of the loops of `cleanup_async_socket`; none is a fatal error, or that the rounds run out.
  unfoldable pub cleanup_loop : Direction → ℕ → ℕ → Server H A E K Q → Option (Server H A E K Q)
  cleanup_loop d zero p s = none
  cleanup_loop d (suc fuel) p s = elim (queue_of lib d p s).queue [
    | none ↦ some s
    | some m ↦ elim (queue_of lib d p s).queue_end [
      | none ↦ none
      | some e ↦ cleanup_loop d fuel p (finish lib d p m 0 (with_done lib m (2 ^ 64 - 1) s))
    ]
  ]

  unfoldable pub cleanup_async_socket : ℕ → Server H A E K Q → Option (Server H A E K Q)
  cleanup_async_socket p s = elim (object lib p s).async_transport [
    | none ↦ some s
    | some a ↦ elim (cleanup_loop tx lib.tries p s) [
      | none ↦ none
      | some t ↦ elim (cleanup_loop rx lib.tries p t) [
        | none ↦ none
        | some u ↦ some (with_object lib p (record (object lib p u) { async_transport = none }) u)
      ]
    ]
  ]

  -- `client_delete_socket` on the whole state.
  unfoldable pub delete_socket : ℕ → ℤ → Server H A E K Q → Result ℤ H A E K Q
  delete_socket client (negsuc n) s = some (negsuc 0, s)
  delete_socket client (pos fd) s =
      elim (client_delete_socket lib.kh lib.ka lib.ke client fd s.pico) [
        | none ↦ none
        | some (ret, t) ↦ some (ret, record s { pico = t })
      ]

  unfoldable pub pico_control_close : ℕ → ℤ → Server H A E K Q → Result ℤ H A E K Q
  pico_control_close client fd s =
      control lib client fd s
        (λ p. elim (cleanup_async_socket p s) [ none ↦ none | some t ↦ delete_socket client fd t ])

  abbrev pub no_messages : PicoserverSocketAsync
  no_messages = record {
    rx_queue = record { queue = none; queue_end = none };
    tx_queue = record { queue = none; queue_end = none };
  }

  -- The socket at `p` is set; `allocated` tells whether `calloc` succeeds.
  unfoldable pub set_async : Bool → Bool → ℕ → Server H A E K Q → Result ℤ H A E K Q
  set_async allocated true p s = elim (object lib p s).async_transport [
    | some a ↦ some (pos 0, s)
    | none ↦
        if allocated
        then some (
          pos 0,
          with_object lib p (record (object lib p s) { async_transport = some no_messages }) s,
        )
        else some (negsuc 0, s)
  ]
  set_async allocated false p s = elim (object lib p s).async_transport [
    | none ↦ some (pos 0, s)
    | some a ↦ elim (cleanup_async_socket p s) [ none ↦ none | some t ↦ some (pos 0, t) ]
  ]

  unfoldable pub pico_control_set_async :
      Bool → ℕ → ℤ → Bool → Server H A E K Q → Result ℤ H A E K Q
  pico_control_set_async allocated client fd enabled s =
      control lib client fd s (λ p. set_async allocated enabled p s)

  -- `if (ev & BIT (bit))`: a ring is handled and the socket served.
  unfoldable pub on_event :
      Bool
      → (Server H A E K Q → Option (Server H A E K Q))
      → (Server H A E K Q → Option (Server H A E K Q))
      → Server H A E K Q
      → Option (Server H A E K Q)
  on_event false handle serve s = some s
  on_event true handle serve s = elim (handle s) [ none ↦ none | some t ↦ serve t ]

  -- The events that are left for the client.
  unfoldable pub put_event : ℕ → List Bool → Server H A E K Q → Option (Server H A E K Q)
  put_event p ev s =
      let o = object lib p s in
      let (ret, t) = client_put_event lib.kh lib.ka lib.ke o.client_id o.socket_fd ev s.pico in
      if any_event ev
      then (if same_ℤ ret (negsuc 0)
          then none
          else some (record s { pico = t; emit_client = true }))
      else some s

  -- The events of a socket with asynchronous transport are handled here.
  unfoldable pub async_events : ℕ → List Bool → Server H A E K Q → Option (Server H A E K Q)
  async_events p ev s =
      let rd = get_or ev lib.stack.ev_rd false in
      let wr = get_or ev lib.stack.ev_wr false in
      let ev' = set (set ev lib.stack.ev_rd false) lib.stack.ev_wr false in
      elim (on_event rd (rx_queue_handle lib) (rx_socket lib (some p)) s) [
        | none ↦ none
        | some t ↦ elim (on_event wr (tx_queue_handle lib) (tx_socket lib (some p)) t) [
          | none ↦ none
          | some u ↦ put_event p ev' u
        ]
      ]

  -- `none` is a fatal error. A socket that is not known is ignored, unless the stack gives NULL, which is
  -- not followed.
  unfoldable pub socket_cb : List Bool → Option ℕ → Server H A E K Q → Option (Server H A E K Q)
  socket_cb ev sock s = elim (client_get_socket_by_addr lib.kh lib.ka lib.ke sock s.pico) [
    | none ↦ elim sock [ none ↦ none | some a ↦ some s ]
    | some p ↦ elim (object lib p s).async_transport [
      | none ↦ put_event p ev s
      | some a ↦ async_events p ev s
    ]
  ]

  unfoldable pub notify_client : Server H A E K Q → Server H A E K Q
  notify_client s = record s {
    emit_client = false;
    emit_client_async = false;
    sent =
        (if s.emit_client_async then tx_notify ∷ [] else [])
        ++ (if s.emit_client then control_emit ∷ [] else [])
        ++ s.sent;
  }
