-- ===== src/EthInterface/Device.antt =====
-- components/PicoServer/src/eth_interface.c: sending and polling by the driver's calls.
use global_components.Prelude.{
  ℕ, zero, suc, ◌+◌, ◌-◌, Bool, true, false, ◌&&◌, Option, none, some, ltb, leb, if◌then◌else◌,
}
use global_components.Prelude.Int.{ℤ, pos, negsuc, same_ℤ}
use global_components.Ethdriver.State.{Ethdriver, client_at}
use global_components.Ethdriver.Rx.{RxReply, client_rx}
use global_components.Ethdriver.Tx.{RawTx, TxRet, client_tx}

abbrev pub ether_mtu : ℕ
ether_mtu = 1500

-- The driver that is called, the component's own memory, and the state of the network stack.
pub record PicoServer (K : Type 0) : Type 0 where
  pub ethdriver : Ethdriver
  pub memory : ℕ → ℕ
  pub stack : K

-- The connection and the stack: the badge of the component, its index among the clients, which tells where
-- `ethdriver_buf` is, the driver's `raw_tx`, the comparison with ETHIF_TX_FAILED, and
-- `pico_stack_recv`, whose result is not used.
pub record Libs (K : Type 0) : Type 0 where
  pub badge : ℕ
  pub index : ℕ
  pub raw_tx : RawTx
  pub is_failed : TxRet → Bool
  pub stack_recv : K → (ℕ → ℕ) → ℕ → ℕ → K

-- `memcpy` from one memory to another.
unfoldable pub copy_out : ℕ → ℕ → ℕ → (ℕ → ℕ) → (ℕ → ℕ) → ℕ → ℕ
copy_out dst src n from mem a =
    if leb dst a && ltb a (dst + n) then from (src + (a - dst)) else mem a

module _ {K : Type 0} (lib : Libs K) where
  abbrev pub ethdriver_buf : PicoServer K → ℕ
  ethdriver_buf s = (client_at s.ethdriver lib.index).dataport

  -- `none` is a failed assertion.
  unfoldable pub pico_eth_send : ℕ → ℕ → PicoServer K → Option (ℕ × PicoServer K)
  pico_eth_send input len s =
      let d = s.ethdriver in
      let mem = copy_out (ethdriver_buf s) input len s.memory d.mem in
      if ltb ether_mtu len
      then none
      else elim (client_tx lib.raw_tx lib.badge (pos len) (record d { mem = mem })) [
        | none ↦ none
        | some (status, d') ↦
            some (if lib.is_failed status then 0 else len, record s { ethdriver = d' })
      ]

  -- A frame that the driver has put into the buffer is given to the stack.
  unfoldable pub give_frame : RxReply → PicoServer K → PicoServer K
  give_frame r s =
      let t = record s { ethdriver = r.state } in
      record t {
        stack =
            lib.stack_recv s.stack r.state.mem (ethdriver_buf t)
              (elim r.len [ none ↦ 0 | some n ↦ n ]);
      }

  -- The loop with the loop score, and the score that is left.
  unfoldable pub poll_loop : ℕ → PicoServer K → Option (ℕ × PicoServer K)
  poll_loop zero s = some (0, s)
  poll_loop (suc score) s = elim (client_rx lib.badge s.ethdriver) [
    | none ↦ none
    | some r ↦ elim (same_ℤ r.ret (negsuc 0)) [
      | true ↦ some (suc score, record s { ethdriver = r.state })
      | false ↦ elim (same_ℤ r.ret (pos 0)) [
        | true ↦ some (score, give_frame r s)
        | false ↦ poll_loop score (give_frame r s)
      ]
    ]
  ]

  unfoldable pub pico_eth_poll : ℤ → PicoServer K → Option (ℤ × PicoServer K)
  pico_eth_poll (negsuc n) s = some (negsuc n, s)
  pico_eth_poll (pos score) s = elim (poll_loop score s) [
    | none ↦ none
    | some (left, t) ↦ some (pos left, t)
  ]
