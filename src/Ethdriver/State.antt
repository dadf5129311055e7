-- ===== src/Ethdriver/State.antt =====
-- components/Ethdriver/src/ethdriver.c: the buffers, the frames, the clients and the driver's state.
-- A pointer into an array is the index of its entry. A plain address is a number, and `mem` is the
-- memory behind the addresses. `num_clients` is the length of `clients`.
use global_components.Prelude.{
  ℕ, zero, suc, ◌+◌, Bool, true, false, ◌&&◌, List, [], ◌∷◌, ◌==◌, get_or,
}

abbrev pub rx_bufs_size : ℕ
rx_bufs_size = 256

abbrev pub client_rx_bufs : ℕ
client_rx_bufs = 128

abbrev pub client_tx_bufs : ℕ
client_tx_bufs = 128

abbrev pub buf_size : ℕ
buf_size = 2048

pub record EthBuf : Type 0 where
  pub buf : ℕ
  pub phys : ℕ

-- `buf` points into `rx_bufs`.
pub record RxFrame : Type 0 where
  pub buf : ℕ
  pub len : ℕ
  pub client : ℕ

pub record TxFrame : Type 0 where
  pub buf : EthBuf
  pub len : ℕ
  pub client : ℕ

-- `&clients[owner].tx_mem[slot]`
pub record TxPtr : Type 0 where
  pub owner : ℕ
  pub slot : ℕ

pub record Client : Type 0 where
  pub should_notify : Bool
  pub pending_rx_head : ℕ
  pub pending_rx_tail : ℕ
  pub pending_rx : List RxFrame
  pub num_tx : ℕ
  pub tx_mem : List TxFrame
  pub pending_tx : List TxPtr
  pub mac : List ℕ
  pub client_id : ℕ
  pub dataport : ℕ

-- `emitted` lists the badges that `client_emit` was called with, oldest first.
pub record Ethdriver : Type 0 where
  pub clients : List Client
  pub num_rx_bufs : ℕ
  pub rx_bufs : List EthBuf
  pub rx_buf_pool : List ℕ
  pub done_init : Bool
  pub mem : ℕ → ℕ
  pub emitted : List ℕ

-- What a read outside an array gives; the invariants rule such a read out.
abbrev pub null_buf : EthBuf
null_buf = record { buf = 0; phys = 0 }

abbrev pub null_frame : RxFrame
null_frame = record { buf = 0; len = 0; client = 0 }

abbrev pub null_tx_frame : TxFrame
null_tx_frame = record { buf = null_buf; len = 0; client = 0 }

abbrev pub null_ptr : TxPtr
null_ptr = record { owner = 0; slot = 0 }

abbrev pub null_client : Client
null_client = record {
  should_notify = false;
  pending_rx_head = 0;
  pending_rx_tail = 0;
  pending_rx = [];
  num_tx = 0;
  tx_mem = [];
  pending_tx = [];
  mac = [];
  client_id = 0;
  dataport = 0;
}

abbrev pub client_at : Ethdriver → ℕ → Client
client_at s i = get_or s.clients i null_client

abbrev pub rx_buf_at : Ethdriver → ℕ → EthBuf
rx_buf_at s b = get_or s.rx_bufs b null_buf

abbrev pub tx_frame_at : Ethdriver → TxPtr → TxFrame
tx_frame_at s p = get_or (client_at s p.owner).tx_mem p.slot null_tx_frame

-- The `n` bytes from an address on.
unfoldable pub bytes : (ℕ → ℕ) → ℕ → ℕ → List ℕ
bytes mem a zero = []
bytes mem a (suc n) = mem a ∷ bytes mem (a + 1) n

-- `memcmp (…) == 0` on two strings of bytes
unfoldable pub same_bytes : List ℕ → List ℕ → Bool
same_bytes [] [] = true
same_bytes [] (y ∷ ys) = false
same_bytes (x ∷ xs) [] = false
same_bytes (x ∷ xs) (y ∷ ys) = x == y && same_bytes xs ys
