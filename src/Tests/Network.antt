-- ===== src/Tests/Network.antt =====
-- The Ethernet driver's server with two clients.
use global_components.Prelude.Int.{pos}
use global_components.Ethdriver.Buffers.{Holds}
use global_components.Ethdriver.Reach.{Reach-Holds}
use global_components.Ethdriver.Steps.{
  start, next, initialised, grants, calls_back, sends, done, hand_over, after_callbacks,
}
use global_components.Ethdriver.Fifo.{Queued, Collected, client_rx_fifo, receive_unicast}
use global_components.Ethdriver.Queue.{IsQueue}
use global_components.Ethdriver.Waking.{client_rx-deliver}
use global_components.Ethdriver.Tx.{
  transmit, RawTx, tx_enqueued, client_tx, tx_len, after_raw_tx, returned,
}
use global_components.Ethdriver.Filter.{detect_client, eth_get_client}
use global_components.Ethdriver.Sending.{handed, next_ptr, transmit_stamps}
use global_components.Prelude.{
  ℕ, ◌+◌, ◌*◌, ◌≡◌, refl, true, false, ◌||◌, some, [], ◌∷◌, arith, ◌==◌, if◌then◌else◌, replicate,
  none,
}
use global_components.Ethdriver.State.{
  Client, Ethdriver, null_frame, null_ptr, bytes, tx_frame_at, same_bytes,
}
use global_components.Ethdriver.Init.{
  Platform, preallocate, finish_init, set_macs, add_clients, add_tx_bufs, add_tx_buf, fresh_client,
  add_rx_bufs, add_rx_buf,
}
use global_components.Ethdriver.Rx.{
  eth_allocate_rx_buf, take_frame, return_buf, deliver, RxReply, client_rx, receive,
}
use global_components.Ethdriver.Initial.{Pins}

abbrev platform : Platform
platform = record {
  dma = λ n. record { buf = 1000000 + 2048 * n; phys = 4096 + 2048 * n };
  num_badges = 2;
  enumerate_badge = λ i. i + 1;
  client_buf = λ badge. 500000 + 4096 * badge;
  has_mac = λ badge. true;
  get_mac = λ badge. 2 ∷ 0 ∷ 0 ∷ 0 ∷ 0 ∷ badge ∷ [];
  hw_mac = replicate 6 7;
  raw_poll = λ s. s;
}

abbrev blank : ℕ → ℕ
blank a = 0

platform_pins : Pins platform
platform_pins b h = omega arith

top_is_granted : (eth_allocate_rx_buf (preallocate platform blank) 100).cookie ≡ some 255
unfolding eth_allocate_rx_buf preallocate add_rx_bufs add_rx_buf
top_is_granted = refl

-- A card that takes every packet.
abbrev pub taking : RawTx
taking phys len p s = (tx_enqueued, s)

-- The driver is given a buffer, `server_init` ends, and the first client sends a packet.
abbrev polled : Ethdriver
polled = (eth_allocate_rx_buf (preallocate platform blank) 100).state

abbrev ready : Ethdriver
ready = elim (finish_init platform polled) [ none ↦ polled | some t ↦ t ]

polled_lem : finish_init platform polled ≡ some ready
unfolding finish_init set_macs preallocate add_clients add_tx_bufs add_tx_buf fresh_client
    eth_allocate_rx_buf add_rx_bufs add_rx_buf
polled_lem = refl

early : polled.done_init ≡ false
unfolding preallocate eth_allocate_rx_buf add_rx_bufs add_rx_buf
early = refl

first_sends : hand_over 1 (pos 60) ready ≡ some (0, 60)
unfolding hand_over tx_len eth_get_client finish_init set_macs preallocate add_clients add_tx_bufs
    add_tx_buf fresh_client eth_allocate_rx_buf add_rx_bufs add_rx_buf
first_sends = refl

abbrev sent_state : Ethdriver
sent_state = after_callbacks taking ready 0 60

sent_lem : client_tx taking 1 (pos 60) ready ≡ some (returned tx_enqueued, sent_state)
unfolding client_tx transmit after_raw_tx tx_len eth_get_client finish_init set_macs preallocate
    add_clients add_tx_bufs add_tx_buf fresh_client eth_allocate_rx_buf add_rx_bufs add_rx_buf
sent_lem = refl

Reach-Holds_example : Holds sent_state (255 ∷ [])
Reach-Holds_example = Reach-Holds platform blank platform_pins (omega arith) (
    next
      (initialised
        (next start (calls_back (grants (preallocate platform blank) [] 100 255 top_is_granted)))
        early polled_lem)
      (sends ready (255 ∷ []) (255 ∷ []) taking 1 (pos 60) (returned tx_enqueued) sent_state 0 60
        first_sends (done sent_state (255 ∷ [])) sent_lem))

-- The first client has packet 7 of 60 bytes to collect; the second has nothing.
abbrev pub first_client : Client
first_client = record {
  should_notify = false;
  pending_rx_head = 1;
  pending_rx_tail = 0;
  pending_rx = record { buf = 7; len = 60; client = 0 } ∷ replicate 127 null_frame;
  num_tx = 2;
  tx_mem =
      replicate 128 (record { buf = record { buf = 9000; phys = 64 }; len = 2048; client = 0 });
  pending_tx = null_ptr ∷ record { owner = 0; slot = 1 } ∷ replicate 126 null_ptr;
  mac = 2 ∷ 0 ∷ 0 ∷ 0 ∷ 0 ∷ 1 ∷ [];
  client_id = 1;
  dataport = 5000;
}

abbrev pub second_client : Client
second_client = record first_client {
  should_notify = true;
  pending_rx_head = 5;
  pending_rx_tail = 5;
  mac = 2 ∷ 0 ∷ 0 ∷ 0 ∷ 0 ∷ 2 ∷ [];
  client_id = 2;
  dataport = 6000;
}

-- A packet for the second client lies at address 3, in buffer 0.
abbrev pub two_clients : Ethdriver
two_clients = record {
  clients = first_client ∷ second_client ∷ [];
  num_rx_bufs = 10;
  rx_bufs = replicate 256 (record { buf = 3; phys = 1 });
  rx_buf_pool = replicate 256 0;
  done_init = true;
  mem = λ a. if a == 3 || a == 8 then 2 else 0;
  emitted = [];
}

first-IsQueue : IsQueue first_client
first-IsQueue = record {
  room = refl;
  head_in = omega arith;
  tail_in = omega arith;
  awake = λ e. absurd (omega arith);
}

second-IsQueue : IsQueue second_client
second-IsQueue = record {
  room = refl;
  head_in = omega arith;
  tail_in = omega arith;
  awake = λ e. refl;
}

receive_unicast_example : Queued two_clients (receive two_clients 0 60) 1 0 60
unfolding detect_client bytes same_bytes
receive_unicast_example = receive_unicast two_clients 0 60 1 refl second-IsQueue

client_rx_fifo_example :
    (r : RxReply) × (client_rx 1 two_clients ≡ some r)
    × Collected two_clients 0 (record { buf = 7; len = 60; client = 0 }) [] r
unfolding eth_get_client
client_rx_fifo_example = client_rx_fifo two_clients 1 0 _ [] refl refl first-IsQueue refl

-- The first client collects its only packet.
client_rx-deliver_example :
    let t = deliver (take_frame two_clients 0).state 0 3 60 in
    (t.emitted ≡ 1 ∷ []) × ((deliver t 0 4 60).emitted ≡ t.emitted)
unfolding client_rx eth_get_client take_frame return_buf
client_rx-deliver_example =
    client_rx-deliver two_clients 1 0 3 60 4 60 (take_frame two_clients 0) refl refl first-IsQueue
      refl refl

transmit_stamps_example :
    let t = handed two_clients 0 60 in
    let frame = tx_frame_at t (next_ptr two_clients 0) in
    ((transmit taking two_clients 0 60).0 ≡ (taking frame.buf.phys 60 (next_ptr two_clients 0) t).0)
    × (t.mem (frame.buf.buf + 11) ≡ 1)
transmit_stamps_example =
    transmit_stamps taking two_clients 0 60 11 (omega arith) refl (omega arith) (omega arith)
