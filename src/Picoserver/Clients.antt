-- ===== src/Picoserver/Clients.antt =====
-- remote-drivers/picotcp-socket-sync/server/picoserver_client.c: the state and the functions.
use global_components.Prelude.{
  ℕ, zero, suc, ◌+◌, ◌%◌, ◌^◌, Bool, Option, none, some, List, ◌==◌, if◌then◌else◌, get_or, set,
  replicate,
}
use global_components.Picoserver.Table.{Khash, find}

-- A list of messages that wait, by their first and last pointers; none is NULL.
pub record Pending : Type 0 where
  pub queue : Option ℕ
  pub queue_end : Option ℕ

-- The queues of a socket that is set to asynchronous transport.
pub record PicoserverSocketAsync : Type 0 where
  pub rx_queue : Pending
  pub tx_queue : Pending

-- `socket` is none for NULL, and `events` has the 16 bits, the lowest first.
pub record PicoserverSocket : Type 0 where
  pub protocol : ℕ
  pub client_id : ℕ
  pub socket_fd : ℕ
  pub socket : Option ℕ
  pub events : List Bool
  pub async_transport : Option PicoserverSocketAsync

pub record PicoserverEvent : Type 0 where
  pub socket_fd : ℕ
  pub events : List Bool
  pub num_events_left : ℕ

-- The tables map to pointers; the set of events maps to nothing.
pub record PicoserverClient (H E : Type 0) : Type 0 where
  pub bump_index : ℕ
  pub socket_table : H
  pub socket_event_set : E

-- `heap` has the object at each pointer; `closed` is what `pico_socket_close` was called with and
-- `freed` what `free` was, the newest first.
pub record Picoserver (H A E : Type 0) : Type 0 where
  pub clients : List (PicoserverClient H E)
  pub socket_addr_table : A
  pub heap : ℕ → PicoserverSocket
  pub closed : List (Option ℕ)
  pub freed : List ℕ

-- `(khint32_t) INT_MIN`
abbrev pub int_min : ℕ
int_min = 2147483648

-- The key of a `struct pico_socket *`.
abbrev pub addr_key : Option ℕ → ℕ
addr_key none = 0
addr_key (some a) = a

-- `next = curr + 1`, with its wrap
abbrev pub next_id : ℕ → ℕ
next_id curr = let n = (curr + 1) % 2 ^ 32 in if n == int_min then 1 else n

-- The values of the sets of events.
abbrev pub Unused : Type 0
Unused = Bool

module _ {H A E : Type 0} (kh : Khash H ℕ) (ka : Khash A ℕ) (ke : Khash E Unused) where
  abbrev pub fresh_client : PicoserverClient H E
  fresh_client = record { bump_index = 1; socket_table = kh.kh_init; socket_event_set = ke.kh_init }

  unfoldable pub picoserver_clients_init : ℕ → Picoserver H A E → Picoserver H A E
  picoserver_clients_init n s = record s {
    clients = replicate n fresh_client;
    socket_addr_table = ka.kh_init;
  }

  abbrev pub client_at : ℕ → Picoserver H A E → PicoserverClient H E
  client_at i s = get_or s.clients i fresh_client

  unfoldable pub client_get_num_sockets : ℕ → Picoserver H A E → ℕ
  client_get_num_sockets i s = kh.kh_size (client_at i s).socket_table

  unfoldable pub client_get_socket : ℕ → ℕ → Picoserver H A E → Option ℕ
  client_get_socket i id s = find kh (client_at i s).socket_table id

  unfoldable pub client_get_socket_by_addr : Option ℕ → Picoserver H A E → Option ℕ
  client_get_socket_by_addr a s = find ka s.socket_addr_table (addr_key a)

  -- The loop of `find_free_id` for `fuel` rounds: the identifier and the bump index, or none where the
  -- loop has come round to `old`.
  unfoldable pub scan_ids : H → ℕ → ℕ → ℕ → Option ℕ
  scan_ids t old zero curr = none
  scan_ids t old (suc fuel) curr =
      let rest = scan_ids t old fuel (next_id curr) in
      elim (kh.kh_get t curr) [
        | none ↦ some curr
        | some it ↦ if old == next_id curr then none else rest
      ]

  -- 0 where no identifier is free.
  unfoldable pub find_free_id : ℕ → Picoserver H A E → ℕ × Picoserver H A E
  find_free_id i s =
      let c = client_at i s in
      elim (scan_ids c.socket_table c.bump_index (2 ^ 32) c.bump_index) [
        | none ↦ (0, s)
        | some id ↦ (
          id,
          record s { clients = set s.clients i (record c { bump_index = (id + 1) % 2 ^ 32 }) },
        )
      ]
