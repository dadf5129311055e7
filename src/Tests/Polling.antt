-- ===== src/Tests/Polling.antt =====
-- The network stack that polls the driver of Tests/Network.antt, with two frames to collect.
use global_components.Prelude.Int.{pos}
use global_components.Ethdriver.Filter.{eth_get_client}
use global_components.Prelude.{ℕ, ◌≡◌, refl, false, some, List, [], ◌∷◌, ◌++◌, arith, replicate}
use global_components.Ethdriver.State.{Client, Ethdriver, bytes, null_frame}
use global_components.Tests.Network.{first_client, second_client, two_clients, taking}
use global_components.EthInterface.Device.{Libs, PicoServer, pico_eth_poll}
use global_components.EthInterface.Receiving.{Ready, Received, pico_eth_poll-Received}

abbrev busy_client : Client
busy_client = record first_client {
  pending_rx_head = 2;
  pending_rx =
      record { buf = 7; len = 60; client = 0 }
      ∷ record { buf = 9; len = 40; client = 0 }
      ∷ replicate 126 null_frame;
}

abbrev busy_driver : Ethdriver
busy_driver = record two_clients { clients = busy_client ∷ second_client ∷ [] }

-- A stack whose state is the frames that it was given.
abbrev listener : Libs (List (List ℕ))
listener = record {
  badge = 1;
  index = 0;
  raw_tx = taking;
  is_failed = λ status. false;
  stack_recv = λ k mem a n. k ++ bytes mem a n ∷ [];
}

abbrev poller : PicoServer (List (List ℕ))
poller = record { ethdriver = busy_driver; memory = λ a. 0; stack = [] }

busy-Ready :
    Ready listener busy_driver
      (record { buf = 7; len = 60; client = 0 } ∷ record { buf = 9; len = 40; client = 0 } ∷ [])
unfolding eth_get_client
busy-Ready = record {
  init = refl;
  found = refl;
  queue = record {
    room = refl;
    head_in = omega arith;
    tail_in = omega arith;
    awake = λ e. absurd (omega arith);
  };
  waits = refl;
  below = (λ k h. omega arith, (λ k h. omega arith, tt));
}

pico_eth_poll-Received_example :
    (left : ℕ) × (t : PicoServer (List (List ℕ))) × (pico_eth_poll listener (pos 5) poller
      ≡ some (pos left, t))
    × Received listener (λ k. k) 5 left poller t
pico_eth_poll-Received_example =
    pico_eth_poll-Received listener (λ k. k) (λ k mem a n. refl) 5 poller _ busy-Ready
