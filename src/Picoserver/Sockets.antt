-- ===== src/Picoserver/Sockets.antt =====
-- remote-drivers/picotcp-socket-sync/server/picoserver_client.c: sockets are added and deleted.
use global_components.Prelude.{
  ℕ, Bool, true, false, Option, none, some, ◌∷◌, leb, ◌==◌, if◌then◌else◌, length, set,
}
use global_components.Prelude.Int.{ℤ, pos, negsuc, same_ℤ, int_of_bits}
use global_components.Picoserver.Table.{Khash, erase}
use global_components.Picoserver.Clients.{Picoserver, Unused, client_at, addr_key, find_free_id}

-- `a->socket == b->socket`
abbrev pub same_socket : Option ℕ → Option ℕ → Bool
same_socket none none = true
same_socket none (some b) = false
same_socket (some a) none = false
same_socket (some a) (some b) = a == b

module _ {H A E : Type 0} (kh : Khash H ℕ) (ka : Khash A ℕ) (ke : Khash E Unused) where
  -- The library reused the structure of an old socket `old`, whose descriptor is invalidated. `kh_del` is
  -- given the descriptor itself. `none` where the client does not have the descriptor, which is fatal.
  unfoldable pub invalidate : ℕ → ℕ → Picoserver H A E → Option (Picoserver H A E)
  invalidate i old s =
      let c = client_at kh ka ke i s in
      let fd = (s.heap old).socket_fd in
      let c' = record c {
        socket_table = kh.kh_del c.socket_table fd;
        socket_event_set = erase ke c.socket_event_set fd;
      } in
      elim (kh.kh_get c.socket_table fd) [
        | none ↦ none
        | some it ↦ some (record s {
          clients = set s.clients i c';
          heap = λ p. if p == old then record (s.heap old) { socket = none } else s.heap p;
          freed = old ∷ s.freed;
        })
      ]

  -- The end of `client_put_socket`, once the address table has `new` at `at'`. The descriptor is returned
  -- as an `int`, so one from 2 ^ 31 on is negative.
  unfoldable pub set_addr : ℕ → ℕ → ℕ → Picoserver H A E → ℤ × Picoserver H A E
  set_addr id at' new s =
      (int_of_bits id, record s { socket_addr_table = ka.kh_set s.socket_addr_table at' new })

  -- From the insertion into the address table on; the client has `new` under `id`, at `it`.
  unfoldable pub put_addr : ℕ → ℕ → ℕ → ℕ → Picoserver H A E → Option (ℤ × Picoserver H A E)
  put_addr i id it new s =
      let c = client_at kh ka ke i s in
      let (at', ret, a) = ka.kh_put s.socket_addr_table (addr_key (s.heap new).socket) in
      let t = record s { socket_addr_table = a } in
      let old = ka.kh_val a at' in
      if same_ℤ ret (negsuc 0)
      then some (
        negsuc 0,
        record t {
          clients = set s.clients i (record c { socket_table = kh.kh_del c.socket_table it });
        },
      )
      else if same_ℤ ret (pos 0)
      then (if same_socket (s.heap old).socket (s.heap new).socket
          then elim (invalidate i old t) [ none ↦ none | some u ↦ some (set_addr id at' new u) ]
          else none)
      else some (set_addr id at' new t)

  unfoldable pub put_id : ℕ → ℕ → ℕ → Picoserver H A E → Option (ℤ × Picoserver H A E)
  put_id i id new s =
      let c = client_at kh ka ke i s in
      let (it, ret, t) = kh.kh_put c.socket_table id in
      let with_table =
        λ (t' : H). record s { clients = set s.clients i (record c { socket_table = t' }) } in
      if same_ℤ ret (negsuc 0)
      then some (negsuc 0, with_table t)
      else if same_ℤ ret (pos 0)
      then none
      else put_addr i id it new (with_table (kh.kh_set t it new))

  -- `none` where the server stops by a fatal error.
  unfoldable pub client_put_socket : ℕ → ℕ → Picoserver H A E → Option (ℤ × Picoserver H A E)
  client_put_socket i new s =
      let (id, t) = find_free_id kh ka ke i s in
      if leb (length s.clients) i
      then none
      else if id == 0
      then some (negsuc 0, t)
      else put_id i id new t

  -- `none` where the address table does not have the socket, which is fatal.
  unfoldable pub client_delete_socket : ℕ → ℕ → Picoserver H A E → Option (ℤ × Picoserver H A E)
  client_delete_socket i id s =
      let c = client_at kh ka ke i s in
      elim (kh.kh_get c.socket_table id) [
        | none ↦ some (negsuc 0, s)
        | some it ↦
            let p = kh.kh_val c.socket_table it in
            let sock = (s.heap p).socket in
            elim (ka.kh_get s.socket_addr_table (addr_key sock)) [
              | none ↦ none
              | some at' ↦
                  let c' = record c {
                    socket_table = kh.kh_del c.socket_table it;
                    socket_event_set = erase ke c.socket_event_set id;
                  } in
                  some (
                    pos 0,
                    record s {
                      clients = set s.clients i c';
                      socket_addr_table = ka.kh_del s.socket_addr_table at';
                      closed = sock ∷ s.closed;
                      freed = p ∷ s.freed;
                    },
                  )
            ]
      ]
