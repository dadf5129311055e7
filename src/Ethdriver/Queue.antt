-- ===== src/Ethdriver/Queue.antt =====
-- components/Ethdriver/src/ethdriver.c: the cyclic queue `pending_rx` of a client as a list, the
-- oldest frame first.
use global_components.Prelude.{
  ℕ, ◌+◌, ◌%◌, ◌≡◌, ◌≢◌, ◌<◌, false, List, [], ◌∷◌, ◌++◌, length, get_or, arith, length-set, true,
}
use global_components.Prelude.Ring.{distance, between, between_push, between_pop, length-between}
use global_components.Ethdriver.State.{Client, RxFrame, null_frame, client_rx_bufs}
use global_components.Ethdriver.Rx.{give_client_buf, is_full}

abbrev pub pending_len : Client → ℕ
pending_len c = distance client_rx_bufs c.pending_rx_tail c.pending_rx_head

abbrev pub pending : Client → List RxFrame
pending c = between null_frame client_rx_bufs c.pending_rx c.pending_rx_tail c.pending_rx_head

-- The indices lie in the array, and a client that has nothing to collect is to be notified.
pub record IsQueue (c : Client) : Type 0 where
  pub room : length c.pending_rx ≡ 128
  pub head_in : c.pending_rx_head < 128
  pub tail_in : c.pending_rx_tail < 128
  pub awake : c.pending_rx_head ≡ c.pending_rx_tail → c.should_notify ≡ true

pub length-pending : (c : Client) → length (pending c) ≡ pending_len c
length-pending c =
    length-between null_frame client_rx_bufs c.pending_rx c.pending_rx_tail c.pending_rx_head

-- The queue takes a frame behind the others.
pub pending-give_client_buf :
    (c : Client) (b len : ℕ)
    → IsQueue c
    → is_full c ≡ false
    → pending (give_client_buf c b len).0
      ≡ pending c ++ record { buf = b; len = len; client = 0 } ∷ []
unfolding give_client_buf is_full
pending-give_client_buf c b len q h = ground (
  arith,
  between_push null_frame client_rx_bufs c.pending_rx (record { buf = b; len = len; client = 0 })
      c.pending_rx_tail c.pending_rx_head,
  q,
)

pub give_client_buf-IsQueue :
    (c : Client) (b len : ℕ) → IsQueue c → is_full c ≡ false → IsQueue (give_client_buf c b len).0
unfolding give_client_buf is_full
give_client_buf-IsQueue c b len q free =
    ground
      (arith, length-set c.pending_rx c.pending_rx_head (record { buf = b; len = len; client = 0 }))

-- The queue gives its oldest frame.
pub pending_front :
    (c : Client)
    → IsQueue c
    → c.pending_rx_head ≢ c.pending_rx_tail
    → pending c
      ≡ get_or c.pending_rx c.pending_rx_tail null_frame
        ∷ pending (record c { pending_rx_tail = (c.pending_rx_tail + 1) % 128 })
pending_front c q ne =
    between_pop null_frame client_rx_bufs c.pending_rx c.pending_rx_tail c.pending_rx_head q.tail_in
      q.head_in ne
