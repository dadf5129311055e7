-- ===== src/Ethdriver/Tx.antt =====
-- components/Ethdriver/src/ethdriver.c: the transmit path, and `client_mac`.
use global_components.Prelude.{
  ℕ, ◌+◌, set, Option, List, if◌then◌else◌, ◌==◌, ◌∷◌, ltb, not, ◌-◌, some, none, get_or, take, [],
}
use global_components.Prelude.Int.{ℤ, pos, negsuc}
use global_components.Prelude.Memory.{memcpy}
use global_components.Ethdriver.State.{Ethdriver, TxPtr, buf_size, null_ptr, client_at, tx_frame_at}
use global_components.Ethdriver.Filter.{eth_get_client}

-- The cookie of the completed frame.
unfoldable pub eth_tx_complete : Ethdriver → TxPtr → Ethdriver
eth_tx_complete s p =
    let i = (tx_frame_at s p).client in
    let c = client_at s i in
    record s {
      clients =
          set s.clients i
            (record c { pending_tx = set c.pending_tx c.num_tx p; num_tx = c.num_tx + 1 });
    }

-- What `raw_tx` of the hardware driver returns: `ETHIF_TX_ENQUEUED` and so on.
pub data TxStatus : Type 0 where
  tx_enqueued tx_complete tx_failed : TxStatus

-- `raw_tx` of the hardware driver, which may call back before it returns: the physical address, the
-- length, the cookie and the state in, the status and the state afterwards out.
abbrev pub RawTx : Type 0
RawTx = ℕ → ℕ → TxPtr → Ethdriver → TxStatus × Ethdriver

-- Six bytes from a list over the memory at an address on.
unfoldable pub write_bytes : List ℕ → ℕ → (ℕ → ℕ) → ℕ → ℕ
write_bytes [] a mem = mem
write_bytes (x ∷ xs) a mem = write_bytes xs (a + 1) (λ b. if b == a then x else mem b)

-- The packet of `len` bytes from the dataport in the transmit buffer, with the client's address as
-- its source.
unfoldable pub fill_tx_buf : Ethdriver → ℕ → TxPtr → ℕ → Ethdriver
fill_tx_buf s i p len =
    let c = client_at s i in
    let buf = (tx_frame_at s p).buf.buf in
    record s { mem = write_bytes c.mac (buf + 6) (memcpy buf c.dataport len s.mem) }

unfoldable pub set_num_tx : Ethdriver → ℕ → ℕ → Ethdriver
set_num_tx s i n = record s { clients = set s.clients i (record (client_at s i) { num_tx = n }) }

-- A buffer that the hardware driver did not take is free again.
unfoldable pub after_raw_tx : TxStatus → Ethdriver → ℕ → Ethdriver
after_raw_tx tx_enqueued s i = s
after_raw_tx tx_complete s i = set_num_tx s i ((client_at s i).num_tx + 1)
after_raw_tx tx_failed s i = set_num_tx s i ((client_at s i).num_tx + 1)

-- `client_tx` for client `i`, with a length that it accepts. With no free buffer the packet is dropped.
unfoldable pub transmit : RawTx → Ethdriver → ℕ → ℕ → TxStatus × Ethdriver
transmit raw_tx s i len =
    let c = client_at s i in
    if c.num_tx == 0
    then (tx_complete, s)
    else let n = c.num_tx - 1 in
      let p = get_or c.pending_tx n null_ptr in
      let t = fill_tx_buf (set_num_tx s i n) i p len in
      let (err, u) = raw_tx (tx_frame_at t p).buf.phys len p t in (err, after_raw_tx err u i)

-- `refused` is the return value -1.
pub data TxRet : Type 0 where
  refused : TxRet
  returned : TxStatus → TxRet

-- `len`, at most `BUF_SIZE`; `none` where that is less than 12.
unfoldable pub tx_len : ℤ → Option ℕ
tx_len (pos n) = let m = if ltb buf_size n then buf_size else n in if ltb m 12 then none else some m
tx_len (negsuc n) = none

-- `none` is the failed assertion that the sender is a client.
unfoldable pub client_tx : RawTx → ℕ → ℤ → Ethdriver → Option (TxRet × Ethdriver)
client_tx raw_tx sender len s = if not s.done_init then some (refused, s) else elim (tx_len len) [
  | none ↦ some (refused, s)
  | some n ↦ elim (eth_get_client sender s) [
    | none ↦ none
    | some i ↦ let (err, t) = transmit raw_tx s i n in some (returned err, t)
  ]
]

-- The six bytes that `client_mac` stores; `none` is a failed assertion.
unfoldable pub client_mac : ℕ → Ethdriver → Option (List ℕ)
client_mac sender s = elim (eth_get_client sender s) [
  | none ↦ none
  | some i ↦ if s.done_init then some (take 6 (client_at s i).mac) else none
]
