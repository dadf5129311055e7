-- ===== src/Ethdriver/Init.antt =====
-- components/Ethdriver/src/ethdriver.c: `server_init`.
use global_components.Prelude.{
  ℕ, ◌+◌, set, suc, Bool, Option, List, if◌then◌else◌, true, [], replicate, ◌*◌, leb, some, ◌∷◌,
  false, ◌&&◌, ltb, zero, none,
}
use global_components.Ethdriver.State.{
  EthBuf, TxPtr, Client, TxFrame, Ethdriver, buf_size, rx_bufs_size, client_rx_bufs, client_tx_bufs,
  null_buf, null_frame, null_tx_frame, null_ptr,
}

-- What the DMA allocator, the template of the connection and the hardware driver provide.
-- `dma n` is the n-th buffer that is allocated and pinned; `raw_poll` may call back.
pub record Platform : Type 0 where
  pub dma : ℕ → EthBuf
  pub num_badges : ℕ
  pub enumerate_badge : ℕ → ℕ
  pub client_buf : ℕ → ℕ
  pub has_mac : ℕ → Bool
  pub get_mac : ℕ → List ℕ
  pub hw_mac : List ℕ
  pub raw_poll : Ethdriver → Ethdriver

-- `memset (buf, 0, n)`
unfoldable pub memset_zero : ℕ → ℕ → (ℕ → ℕ) → ℕ → ℕ
memset_zero buf n mem a = if leb buf a && ltb a (buf + n) then 0 else mem a

-- One round of the loop that preallocates the receive buffers.
unfoldable pub add_rx_buf : Platform → Ethdriver → ℕ → Ethdriver
unfolding memset_zero
add_rx_buf p s i =
    let b = p.dma i in
    record s {
      mem = memset_zero b.buf buf_size s.mem;
      rx_bufs = set s.rx_bufs s.num_rx_bufs b;
      rx_buf_pool = set s.rx_buf_pool s.num_rx_bufs s.num_rx_bufs;
      num_rx_bufs = s.num_rx_bufs + 1;
    }

unfoldable pub add_rx_bufs : Platform → Ethdriver → ℕ → ℕ → Ethdriver
add_rx_bufs p s i zero = s
add_rx_bufs p s i (suc n) = add_rx_bufs p (add_rx_buf p s i) (i + 1) n

-- One round of the loop over a client's transmit buffers; `client` is the client's index.
unfoldable pub add_tx_buf : Platform → ℕ → (ℕ → ℕ) × Client → ℕ → (ℕ → ℕ) × Client
unfolding memset_zero
add_tx_buf p client (mem, c) i =
    let b = p.dma (rx_bufs_size + client * client_tx_bufs + i) in
    let frame : TxFrame = record { buf = b; len = buf_size; client = client } in
    let ptr : TxPtr = record { owner = client; slot = c.num_tx } in
    (
      memset_zero b.buf buf_size mem,
      record c {
        tx_mem = set c.tx_mem c.num_tx frame;
        pending_tx = set c.pending_tx c.num_tx ptr;
        num_tx = c.num_tx + 1;
      },
    )

unfoldable pub add_tx_bufs : Platform → ℕ → (ℕ → ℕ) × Client → ℕ → ℕ → (ℕ → ℕ) × Client
add_tx_bufs p client s i zero = s
add_tx_bufs p client s i (suc n) = add_tx_bufs p client (add_tx_buf p client s i) (i + 1) n

-- A client as `calloc` and the first lines of the loop leave it.
unfoldable pub fresh_client : Platform → ℕ → Client
fresh_client p i = record {
  should_notify = true;
  pending_rx_head = 0;
  pending_rx_tail = 0;
  pending_rx = replicate client_rx_bufs null_frame;
  num_tx = 0;
  tx_mem = replicate client_tx_bufs null_tx_frame;
  pending_tx = replicate client_tx_bufs null_ptr;
  mac = replicate 6 0;
  client_id = p.enumerate_badge i;
  dataport = p.client_buf (p.enumerate_badge i);
}

-- Clients `i`, … of `n`, with their transmit buffers.
unfoldable pub add_clients : Platform → ℕ → ℕ → (ℕ → ℕ) → (ℕ → ℕ) × List Client
add_clients p i zero mem = (mem, [])
add_clients p i (suc n) mem =
    let (mem', c) = add_tx_bufs p i (mem, fresh_client p i) 0 client_tx_bufs in
    let (mem'', cs) = add_clients p (i + 1) n mem' in (mem'', c ∷ cs)

-- The last loop: a client without an address of its own has that of the card. `defaults` counts
-- these so far; `none` is the fatal error at the second one.
unfoldable pub set_macs : Platform → ℕ → List Client → Option (List Client)
set_macs p defaults [] = some []
set_macs p defaults (c ∷ cs) =
    let own = set_macs p defaults cs in
    let shared = set_macs p (defaults + 1) cs in
    if p.has_mac c.client_id
    then elim own [ none ↦ none | some ds ↦ some (record c { mac = p.get_mac c.client_id } ∷ ds) ]
    else if ltb 1 (defaults + 1)
    then none
    else elim shared [ none ↦ none | some ds ↦ some (record c { mac = p.hw_mac } ∷ ds) ]

-- The state before `server_init`: static data, all zero.
abbrev pub boot : (ℕ → ℕ) → Ethdriver
boot mem = record {
  clients = [];
  num_rx_bufs = 0;
  rx_bufs = replicate rx_bufs_size null_buf;
  rx_buf_pool = replicate rx_bufs_size 0;
  done_init = false;
  mem = mem;
  emitted = [];
}

-- The buffers and the clients: `server_init` up to where the hardware driver is polled.
unfoldable pub preallocate : Platform → (ℕ → ℕ) → Ethdriver
preallocate p mem =
    let s = add_rx_bufs p (boot mem) 0 rx_bufs_size in
    let (mem', cs) = add_clients p 0 p.num_badges s.mem in record s { clients = cs; mem = mem' }

-- What is left to do once the hardware driver has been polled.
unfoldable pub finish_init : Platform → Ethdriver → Option Ethdriver
finish_init p s = elim (set_macs p 0 s.clients) [
  | none ↦ none
  | some cs ↦ some (record s { clients = cs; done_init = true })
]

unfoldable pub server_init : Platform → (ℕ → ℕ) → Option Ethdriver
server_init p mem = finish_init p (p.raw_poll (preallocate p mem))
