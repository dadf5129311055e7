-- ===== src/EthernetAsync/State.antt =====
-- remote-drivers/picotcp-ethernet-async/client.c and server.c: the state of the two sides.
use global_components.Prelude.{ℕ, Bool, Option, List}
use global_components.Prelude.Int.{ℤ}
use global_components.Virtqueue.{Virtqueue, Layout}

abbrev pub num_tx_bufs : ℕ
num_tx_bufs = 254

abbrev pub num_rx_bufs : ℕ
num_rx_bufs = 254

abbrev pub buf_size : ℕ
buf_size = 2048

-- `state_t`, without the rings. The buffers that are free are the first `num_tx` of `pending_tx`.
pub record ClientState : Type 0 where
  pub num_tx : ℕ
  pub pending_tx : List ℕ
  pub action : Bool

-- `server_data_t`, without the rings.
pub record ServerData : Type 0 where
  pub action : Bool
  pub blocked_tx : Bool
  pub no_rx_bufs : Bool
  pub hw_mac : List ℕ

-- Who notifies the other side of a ring.
pub data Notice : Type 0 where
  to_server to_client : Notice

-- The rings and the memory that both sides see, and each side's own state: `driver` is that of the
-- hardware's driver and `stack` that of the network stack. `mapper` has the identifiers of the dataports
-- that are mapped to the client's state, which is the only one. `notices` has the newest first.
pub record Link (Q D K : Type 0) : Type 0 where
  pub tx_virtqueue : Q
  pub rx_virtqueue : Q
  pub memory : ℕ → ℕ
  pub client : ClientState
  pub mapper : List ℕ
  pub server : ServerData
  pub driver : D
  pub stack : K
  pub notices : List Notice

-- The libraries. `encode` and `decode` are `ENCODE_DMA_ADDRESS` and `DECODE_DMA_ADDRESS`, `dma_pin` gives the
-- physical address, `dataport_id` the dataport of a pointer. `raw_tx` is given the physical address,
-- the length and the cookie of one frame, and tells whether it is ETHIF_TX_ENQUEUED; it and `raw_poll`
-- may call back before they return. `stack_recv` reads the frame in memory.
pub record Libs (Q D K : Type 0) : Type 0 where
  pub vq : Virtqueue Q
  pub layout : Layout Q
  pub encode : ℕ → ℕ
  pub decode : ℕ → ℕ
  pub dma_pin : ℕ → ℕ → ℕ
  pub dataport_id : ℕ → ℕ
  pub raw_tx : ℕ → ℕ → ℕ → Link Q D K → Bool × Link Q D K
  pub raw_poll : Link Q D K → Link Q D K
  pub stack_recv : K → (ℕ → ℕ) → ℕ → ℕ → ℤ × K
  pub stack_tick : K → K

-- A result and the state after it; none is a fatal error.
abbrev pub Result : (R Q D K : Type 0) → Type 0
Result R Q D K = Option (R × Link Q D K)
