-- ===== src/Ethdriver/Steps.antt =====
-- components/Ethdriver/src/ethdriver.c: the histories of calls by the clients and of callbacks by the
-- hardware driver, from the polling in `server_init` on.
use global_components.Ethdriver.Filter.{eth_get_client}
use global_components.Prelude.{
  ℕ, ◌<◌, ◌≡◌, none, some, List, [], ◌∷◌, ◌++◌, map, length, count, ◌==◌, false, not, Option,
  if◌then◌else◌,
}
use global_components.Prelude.Int.{ℤ}
use global_components.Ethdriver.State.{Ethdriver, TxPtr, client_at, tx_frame_at}
use global_components.Ethdriver.Rx.{RxReply, eth_allocate_rx_buf, eth_rx_complete, client_rx}
use global_components.Ethdriver.Tx.{tx_len, RawTx, TxRet, client_tx, eth_tx_complete}
use global_components.Ethdriver.Init.{Platform, preallocate, finish_init}
use global_components.Ethdriver.Sending.{handed, next_ptr}

-- The two lists are the same buffers in some order.
abbrev pub SameBufs : List ℕ → List ℕ → Type 0
SameBufs bs cs = ((a : ℕ) → count a bs ≡ count a cs) × (length bs ≡ length cs)

-- A callback of the hardware driver. The lists are the buffers that the driver has before and after
-- it. It completes only buffers that it has.
pub data Callback : Ethdriver → List ℕ → Ethdriver → List ℕ → Type 0 where
  grants :
      (s : Ethdriver) (held : List ℕ) (size b : ℕ)
      → (eth_allocate_rx_buf s size).cookie ≡ some b
      → Callback s held (eth_allocate_rx_buf s size).state (b ∷ held)
  refuses :
      (s : Ethdriver) (held : List ℕ) (size : ℕ)
      → (eth_allocate_rx_buf s size).cookie ≡ none
      → Callback s held (eth_allocate_rx_buf s size).state held
  completes :
      (s : Ethdriver) (held rest : List ℕ) (frames : List (ℕ × ℕ))
      → SameBufs held (map (λ f. f.0) frames ++ rest)
      → Callback s held (eth_rx_complete s frames) rest
  sent :
      (s : Ethdriver) (held : List ℕ) (p : TxPtr)
      → (tx_frame_at s p).client < length s.clients
      → Callback s held (eth_tx_complete s p) held

pub data Callbacks : Ethdriver → List ℕ → Ethdriver → List ℕ → Type 0 where
  done : (s : Ethdriver) (held : List ℕ) → Callbacks s held s held
  more :
      {s : Ethdriver} {held : List ℕ} {t : Ethdriver} {left : List ℕ} {u : Ethdriver}
      {rest : List ℕ}
      → Callback s held t left
      → Callbacks t left u rest
      → Callbacks s held u rest

-- The client and the length with which `client_tx` calls `raw_tx`, if it does.
unfoldable pub hand_over : ℕ → ℤ → Ethdriver → Option (ℕ × ℕ)
hand_over sender len s = if not s.done_init then none else elim (tx_len len) [
  | none ↦ none
  | some n ↦ elim (eth_get_client sender s) [
    | none ↦ none
    | some i ↦ if (client_at s i).num_tx == 0 then none else some (i, n)
  ]
]

-- The state that `raw_tx` leaves when client `i` sends `n` bytes.
abbrev pub after_callbacks : RawTx → Ethdriver → ℕ → ℕ → Ethdriver
after_callbacks raw_tx s i n =
    let t = handed s i n in (raw_tx (tx_frame_at t (next_ptr s i)).buf.phys n (next_ptr s i) t).1

-- A callback, or a call by a client; `raw_tx` may call back before it returns.
pub data Step : Ethdriver → List ℕ → Ethdriver → List ℕ → Type 0 where
  calls_back :
      {s : Ethdriver} {held : List ℕ} {t : Ethdriver} {left : List ℕ}
      → Callback s held t left
      → Step s held t left
  collects :
      (s : Ethdriver) (held : List ℕ) (sender : ℕ) (r : RxReply)
      → client_rx sender s ≡ some r
      → Step s held r.state held
  sends_nothing :
      (s : Ethdriver) (held : List ℕ) (raw_tx : RawTx) (sender : ℕ) (len : ℤ) (r : TxRet)
      (t : Ethdriver)
      → hand_over sender len s ≡ none
      → client_tx raw_tx sender len s ≡ some (r, t)
      → Step s held t held
  sends :
      (s : Ethdriver) (held left : List ℕ) (raw_tx : RawTx) (sender : ℕ) (len : ℤ) (r : TxRet)
      (t : Ethdriver) (i n : ℕ)
      → hand_over sender len s ≡ some (i, n)
      → Callbacks (handed s i n) held (after_callbacks raw_tx s i n) left
      → client_tx raw_tx sender len s ≡ some (r, t)
      → Step s held t left

-- The states of the server: `server_init` up to where it polls the hardware driver, the callbacks from
-- then on, the rest of `server_init`, and the calls.
pub data Reach (p : Platform) (mem : ℕ → ℕ) : Ethdriver → List ℕ → Type 0 where
  start : Reach p mem (preallocate p mem) []
  initialised :
      {s : Ethdriver} {held : List ℕ} {t : Ethdriver}
      → Reach p mem s held
      → s.done_init ≡ false
      → finish_init p s ≡ some t
      → Reach p mem t held
  next :
      {s : Ethdriver} {held : List ℕ} {t : Ethdriver} {left : List ℕ}
      → Reach p mem s held
      → Step s held t left
      → Reach p mem t left
