-- ===== src/Tests/Messages.antt =====
-- The socket server with two clients, on a stack that takes and gives a number of bytes.
use global_components.Picoserver.Ids.{find_free_id-first}
use global_components.SocketServer.Lifetime.{open-close}
use global_components.SocketServer.Checking.{Checked, communication_bounds}
use global_components.SocketServer.Control.{pico_control_open}
use global_components.SocketServer.Transfer.{
  from_peer, pico_send_write, pico_send_send, pico_send_sendto, pico_recv_read, pico_recv_recv,
  pico_recv_recvfrom,
}
use global_components.SocketServer.Cleanup.{cookies, cleanup_async_socket_lem}
use global_components.SocketServer.Accepting.{Taken, take_msg-Taken}
use global_components.SocketServer.Serving.{Served, socket_loop-Served}
use global_components.SocketServer.Draining.{waiting, queue_handle-drains}
use global_components.SocketServer.Linking.{Waits, returned_handles}
use global_components.SocketServer.Async.{queue_of, socket_loop, tx, rx, tx_complete}
use global_components.SocketServer.Closing.{cleanup_async_socket, pico_control_close}
use global_components.SocketServer.Incoming.{
  queue_handle, is_bad_len, take_msg, dispatch, ring, with_ring, reject,
}
use global_components.Prelude.{
  ℕ, ◌+◌, ◌-◌, ◌*◌, ◌≡◌, refl, Bool, false, Option, none, some, [], ◌∷◌, ◌++◌, arith, ltb, ◌==◌,
  if◌then◌else◌, ◌/◌, ◌%◌,
}
use global_components.Prelude.Int.{pos, negsuc, ℤ}
use global_components.Picoserver.Clients.{
  PicoserverSocket, client_get_socket, client_get_socket_by_addr, find_free_id,
}
use global_components.Picoserver.Events.{no_events}
use global_components.SocketServer.State.{
  PicoStack, Connectors, TxMsg, Libs, Server, object, socket_of, returned,
}
use global_components.Tests.Direct.{direct, store, find-direct, direct-IsKhash, put_ret-ok}
use global_components.Tests.Rings.{Lists, lists, lists-IsDevice}

abbrev min_of : ℕ → ℕ → ℕ
min_of a b = if ltb a b then a else b

-- The state is the number of bytes that the stack has room for, or has.
abbrev bytes : PicoStack ℕ
bytes = record {
  proto_tcp = 6;
  proto_udp = 17;
  ev_rd = 0;
  ev_wr = 1;
  socket_open = λ k proto. (some 600, k);
  socket_bind = λ k a addr port. (pos 0, k);
  socket_connect = λ k a addr port. (pos 0, k);
  socket_listen = λ k a backlog. (pos 0, k);
  socket_accept = λ k a. (none, k);
  socket_shutdown = λ k a mode. (pos 0, k);
  socket_write = λ k a buf n. (pos (min_of n k), k - n);
  socket_send = λ k a buf n. (pos (min_of n k), k - n);
  socket_sendto = λ k a buf n addr port. (pos (min_of n k), k - n);
  socket_read = λ k a buf n. (pos (min_of n k), k - n);
  socket_recv = λ k a buf n. (pos (min_of n k), k - n);
  socket_recvfrom = λ k a buf n. (pos (min_of n k), 0, 0, k - n);
  stack_tick = λ k. k;
  short_be = λ p. p % 256 * 256 + p / 256;
}

abbrev areas : Connectors
areas = record {
  send_buf = λ client. 4096 * client;
  send_buf_size = λ client. 4096;
  recv_buf = λ client. 4096 * client;
  recv_buf_size = λ client. 4096;
}

abbrev lib : Libs (ℕ → Option ℕ) (ℕ → Option ℕ) (ℕ → Option Bool) ℕ Lists
lib = record {
  kh = direct 0;
  ka = direct 0;
  ke = direct false;
  stack = bytes;
  conn = areas;
  vq = lists;
  decode = λ a. some a;
  tries = 4;
}

abbrev State : Type 0
State = Server (ℕ → Option ℕ) (ℕ → Option ℕ) (ℕ → Option Bool) ℕ Lists

-- A message of 50 bytes at `m` for socket 1, and what follows it.
abbrev message : ℕ → Option ℕ → TxMsg
message m next = record {
  socket_fd = 1;
  total_len = 50;
  done_len = 0;
  src_addr = 0;
  remote_port = 0;
  next = next;
  cookie_save = m;
  buf = m + 16;
}

-- Messages 100 and 200 wait to be sent.
abbrev busy_socket : PicoserverSocket
busy_socket = record {
  protocol = 6;
  client_id = 0;
  socket_fd = 1;
  socket = some 500;
  events = no_events;
  async_transport = some (record {
    rx_queue = record { queue = none; queue_end = none };
    tx_queue = record { queue = some 100; queue_end = some 200 };
  });
}

abbrev socket_ids : ℕ → Option ℕ
socket_ids = store (λ k. none) 1 (some 10)

abbrev socket_addrs : ℕ → Option ℕ
socket_addrs = store (λ k. none) 500 (some 10)

-- Client 0 has socket 1, at 10; the stack takes 70 bytes, and messages 300 and 400 are in the ring.
abbrev busy : State
busy = record {
  pico = record {
    clients =
        record { bump_index = 1; socket_table = socket_ids; socket_event_set = λ k. none }
        ∷ record { bump_index = 1; socket_table = λ k. none; socket_event_set = λ k. none }
        ∷ [];
    socket_addr_table = socket_addrs;
    heap = λ p. busy_socket;
    closed = [];
    freed = [];
  };
  stack = 70;
  tx_virtqueue = record { available = 300 ∷ 400 ∷ []; finished = [] };
  rx_virtqueue = record { available = []; finished = [] };
  emit_client = false;
  emit_client_async = false;
  msgs = λ m. message m (if m == 100 then some 200 else none);
  sent = [];
}

busy_tx : Waits lib tx 10 busy (100 ∷ 200 ∷ [])
unfolding queue_of
busy_tx = record {
  active = λ e. ground arith;
  pending = record {
    head = refl;
    tail = refl;
    chain = (refl, (refl, tt));
    apart = ((λ e. ground arith, tt), (tt, tt));
  };
}

busy_rx : Waits lib rx 10 busy []
unfolding queue_of
busy_rx = record {
  active = λ e. ground arith;
  pending = record { head = refl; tail = refl; chain = tt; apart = tt };
}

-- The stack takes message 100 and a part of message 200.
socket_loop-Served_example :
    (t : State) × (socket_loop lib tx 3 10 busy ≡ some t) × Served lib tx 10 busy t (100 ∷ 200 ∷ [])
socket_loop-Served_example =
    socket_loop-Served lib lists-IsDevice tx 3 10 busy (100 ∷ 200 ∷ []) (omega arith) busy_tx

cleanup_async_socket_lem_example :
    (t : State) × (cleanup_async_socket lib 10 busy ≡ some t)
    × ((object lib 10 t).async_transport ≡ none)
    × (returned_handles lib tx t
        ≡ returned_handles lib tx busy ++ cookies busy.msgs (100 ∷ 200 ∷ []))
    × (returned_handles lib rx t ≡ returned_handles lib rx busy ++ cookies busy.msgs [])
cleanup_async_socket_lem_example =
    cleanup_async_socket_lem lib lists-IsDevice 10 busy (100 ∷ 200 ∷ []) [] (omega arith)
      (omega arith) busy_tx busy_rx

busy-socket_of : socket_of lib 0 1 busy ≡ some 10
unfolding client_get_socket
busy-socket_of = find-direct 0 socket_ids 1

-- Message 300 goes behind message 200.
take_msg-Taken_example :
    (t : State) × (take_msg lib tx 300 busy ≡ some t)
    × Taken lib tx 300 10 300 busy t (100 ∷ 200 ∷ [])
take_msg-Taken_example =
    take_msg-Taken lib lists-IsDevice tx 300 300 2048 10 500 300 busy (100 ∷ 200 ∷ []) refl refl
      refl busy-socket_of refl busy_tx (λ e. ground arith, (λ e. ground arith, tt))

-- No client has a socket.
abbrev idle : State
idle = record busy { pico = record (busy.pico) { clients = [] } }

-- The tables of `idle`, and messages of the right length.
abbrev IsIdle : State → Type 0
IsIdle s = (s.pico ≡ idle.pico) × ((m : ℕ) → is_bad_len lib (s.msgs m).total_len ≡ false)

IsIdle-step :
    (s : State) (h : ℕ) (q : Lists)
    → IsIdle s
    → lists.get_available_buf (ring lib tx s) ≡ some (h, q)
    → (t : State) × (take_msg lib tx h (with_ring lib tx q s) ≡ some t) × IsIdle t
unfolding take_msg dispatch reject tx_complete client_get_socket
IsIdle-step s h q i e =
    let (same, good) = i in
    let t = with_ring lib tx q s in
    let unknown : socket_of lib 0 (t.msgs h).socket_fd t ≡ none =
      rw same (find-direct 0 (λ k. none) (s.msgs h).socket_fd) in
    (
      reject lib tx h h t,
      rw (good h, take_msg, dispatch, unknown) refl,
      (same, λ m. ground (arith, good m, good h)),
    )

queue_handle-drains_example :
    (t : State) × (queue_handle lib tx idle ≡ some t) × IsIdle t × (waiting lib tx t ≡ [])
queue_handle-drains_example =
    queue_handle-drains lib lists-IsDevice tx IsIdle IsIdle-step idle (refl, λ m. refl)

-- 96 bytes from offset 4000 fit into a buffer of 4096.
communication_bounds_example :
    let sends = λ (call : Option ℕ → ℕ → ℕ → ℤ × ℕ).
      Checked lib 0
        (pos 1)
        (pos 96)
        (pos 4000)
        4096
        (areas.send_buf 0)
        (negsuc 0)
        busy
        (λ p a n. returned lib busy (call (object lib p busy).socket a n)) in
    let receives = λ (call : Option ℕ → ℕ → ℕ → ℤ × ℕ).
      Checked lib 0
        (pos 1)
        (pos 96)
        (pos 4000)
        4096
        (areas.recv_buf 0)
        (negsuc 0)
        busy
        (λ p a n. returned lib busy (call (object lib p busy).socket a n)) in
    sends
      (λ sock a n. bytes.socket_write busy.stack sock a n)
      (pico_send_write lib 0 (pos 1) (pos 96) (pos 4000) busy)
    × sends
        (λ sock a n. bytes.socket_send busy.stack sock a n)
        (pico_send_send lib 0 (pos 1) (pos 96) (pos 4000) busy)
    × sends
        (λ sock a n. bytes.socket_sendto busy.stack sock a n 7 (bytes.short_be 80))
        (pico_send_sendto lib 0 (pos 1) (pos 96) (pos 4000) 7 80 busy)
    × receives
        (λ sock a n. bytes.socket_read busy.stack sock a n)
        (pico_recv_read lib 0 (pos 1) (pos 96) (pos 4000) busy)
    × receives
        (λ sock a n. bytes.socket_recv busy.stack sock a n)
        (pico_recv_recv lib 0 (pos 1) (pos 96) (pos 4000) busy)
    × Checked lib 0
        (pos 1)
        (pos 96)
        (pos 4000)
        4096
        (areas.recv_buf 0)
        (negsuc 0, none)
        busy
        (from_peer lib busy)
        (pico_recv_recvfrom lib 0 (pos 1) (pos 96) (pos 4000) busy)
communication_bounds_example =
    communication_bounds lib 0 (pos 1) (pos 96) (pos 4000) 7 80 busy (omega arith) (omega arith)
      (omega arith)

open-close_example :
    let id = (find_free_id lib.kh lib.ka lib.ke 1 busy.pico).0 in
    (t u : State) × (pico_control_open lib 1 (some 20) false busy ≡ some (pos id, t))
    × (socket_of lib 1 id t ≡ some 20)
    × ((object lib 20 t).socket_fd ≡ id)
    × (pico_control_close lib 1 (pos id) t ≡ some (pos 0, u))
    × ((other : ℕ) → socket_of lib 1 other u ≡ socket_of lib 1 other busy)
    × ((b : Option ℕ)
        → client_get_socket_by_addr lib.kh lib.ka lib.ke b u.pico
          ≡ client_get_socket_by_addr lib.kh lib.ka lib.ke b busy.pico)
    × (u.pico.closed ≡ some 600 ∷ busy.pico.closed)
unfolding client_get_socket_by_addr
open-close_example =
    open-close lib (direct-IsKhash 0) (direct-IsKhash 0) (direct-IsKhash false) 1 20 600 false busy
      (omega arith) refl (find-direct 0 socket_addrs 600)
      (find_free_id-first (direct 0) (direct 0) (direct false) busy.pico 1 0 (omega arith)
        (omega arith) (omega arith) (λ k h. absurd (omega arith)) (find-direct 0 (λ k. none) 1)).1
      (rw
        (find_free_id-first (direct 0) (direct 0) (direct false) busy.pico 1 0 (omega arith)
          (omega arith) (omega arith) (λ k h. absurd (omega arith)) (find-direct 0 (λ k. none) 1)).0
        (omega arith))
      (put_ret-ok {V = ℕ} none) (put_ret-ok (socket_addrs 600))
