-- ===== src/Ethdriver/Sending.antt =====
-- components/Ethdriver/src/ethdriver.c: what a client's packet looks like when the hardware driver
-- is given it.
use global_components.Prelude.{
  ℕ, zero, suc, ◌+◌, ◌-◌, ◌<◌, ◌≡◌, inl, inr, ◌&&◌, List, [], ◌∷◌, arith, ltb, leb, ◌==◌,
  if◌then◌else◌, Bool-cases, length, get_or, get_or-set_self, ap, ◌≢◌, false, ◌∙◌, refl,
}
use global_components.Prelude.Memory.{memcpy}
use global_components.Ethdriver.State.{
  Client, Ethdriver, TxPtr, client_at, tx_frame_at, null_ptr, null_client,
}
use global_components.Ethdriver.Tx.{write_bytes, fill_tx_buf, transmit, set_num_tx, RawTx}

write_bytes_lem :
    (xs : List ℕ) (a b : ℕ) (mem : ℕ → ℕ)
    → write_bytes xs a mem b
      ≡ (if leb a b && ltb b (a + length xs) then get_or xs (b - a) 0 else mem b)
unfolding write_bytes
write_bytes_lem [] a b mem = ground arith
write_bytes_lem (x ∷ xs) a b mem = elim (Bool-cases (b == a)) [
  | inl e ↦
      let z : b - a ≡ zero = ground arith in
      rw z (ground (arith, write_bytes_lem xs (a + 1) b (λ c. if c == a then x else mem c)))
  | inr e ↦ elim (Bool-cases (leb a b)) [
    | inl le ↦
        let z : b - a ≡ suc (b - (a + 1)) = ground arith in
        rw z (ground (arith, write_bytes_lem xs (a + 1) b (λ c. if c == a then x else mem c)))
    | inr gt ↦ ground (arith, write_bytes_lem xs (a + 1) b (λ c. if c == a then x else mem c))
  ]
]

-- Byte `k` of the packet that client `c` may send: its own address stands as the source.
abbrev pub stamped : Client → (ℕ → ℕ) → ℕ → ℕ
stamped c mem k = if leb 6 k && ltb k 12 then get_or c.mac (k - 6) 0 else mem (c.dataport + k)

fill_tx_buf_lem :
    (s : Ethdriver) (i : ℕ) (p : TxPtr) (len k : ℕ)
    → length (client_at s i).mac ≡ 6
    → k < len
    → (fill_tx_buf s i p len).mem ((tx_frame_at (fill_tx_buf s i p len) p).buf.buf + k)
      ≡ stamped (client_at s i) s.mem k
unfolding fill_tx_buf memcpy
fill_tx_buf_lem s i p len k m hk =
    let buf = (tx_frame_at s p).buf.buf in
    let c = client_at s i in
    let from : c.dataport + (buf + k - buf) ≡ c.dataport + k = omega arith in
    let at : buf + k - (buf + 6) ≡ k - 6 = omega arith in
    let w = write_bytes_lem c.mac (buf + 6) (buf + k) (memcpy buf c.dataport len s.mem) in
    ground (arith, w, from, at)

client_at-set_num_tx :
    (s : Ethdriver) (i n : ℕ)
    → i < length s.clients
    → client_at (set_num_tx s i n) i ≡ record (client_at s i) { num_tx = n }
unfolding set_num_tx
client_at-set_num_tx s i n h = get_or-set_self s.clients i _ null_client h

-- The buffer that a client's next packet goes to, and the state in which the hardware driver is
-- given it.
abbrev pub next_ptr : Ethdriver → ℕ → TxPtr
next_ptr s i = get_or (client_at s i).pending_tx ((client_at s i).num_tx - 1) null_ptr

abbrev pub handed : Ethdriver → ℕ → ℕ → Ethdriver
handed s i len = fill_tx_buf (set_num_tx s i ((client_at s i).num_tx - 1)) i (next_ptr s i) len

-- Whatever a client wrote to its dataport, the packet that the hardware driver is given, if a transmit
-- buffer is free, has the client's own address of six bytes as its source, and is otherwise the
-- client's packet.
pub transmit_stamps :
    (raw_tx : RawTx) (s : Ethdriver) (i len k : ℕ)
    → i < length s.clients
    → length (client_at s i).mac ≡ 6
    → (client_at s i).num_tx ≢ 0
    → k < len
    → let t = handed s i len in
      let frame = tx_frame_at t (next_ptr s i) in
      ((transmit raw_tx s i len).0 ≡ (raw_tx frame.buf.phys len (next_ptr s i) t).0)
      × (t.mem (frame.buf.buf + k) ≡ stamped (client_at s i) s.mem k)
unfolding transmit set_num_tx
transmit_stamps raw_tx s i len k hi m ne hk =
    let n = (client_at s i).num_tx - 1 in
    let some_free : ((client_at s i).num_tx == 0) ≡ false = ground arith in
    let same = client_at-set_num_tx s i n hi in
    (
      rw some_free refl,
      fill_tx_buf_lem (set_num_tx s i n) i (next_ptr s i) len k
            (ap (λ (c : Client). length c.mac) same ∙ m) hk
          ∙ ap (λ c. stamped c s.mem k) same,
    )
