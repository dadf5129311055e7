-- ===== src/Tests/Sockets.antt =====
-- The sockets of two clients, with arrays for hash tables.
use global_components.Picoserver.Reporting.{client_put_event-get_event}
use global_components.Picoserver.Putting.{Added, client_put_socket-Added}
use global_components.Picoserver.Ids.{find_free_id-first}
use global_components.Picoserver.Deleting.{Deleted, client_delete_socket-Deleted}
use global_components.Picoserver.Events.{no_events, client_put_event, client_get_event, or_bits}
use global_components.Picoserver.Sockets.{client_delete_socket, client_put_socket}
use global_components.Picoserver.Clients.{
  client_get_socket_by_addr, Picoserver, client_get_socket, client_at, PicoserverSocket,
  find_free_id,
}
use global_components.Prelude.{
  ℕ, ◌+◌, ◌≡◌, refl, Option, none, some, arith, ◌==◌, if◌then◌else◌, ◌≢◌, ◌<◌, Bool, false, [], ◌∷◌,
  true,
}
use global_components.Prelude.Int.{pos}
use global_components.Picoserver.Table.{find}
use global_components.Tests.Direct.{
  direct, store, first_of, find-direct, direct-IsKhash, put_ret-ok,
}

abbrev Tables : Type 0
Tables = Picoserver (ℕ → Option ℕ) (ℕ → Option ℕ) (ℕ → Option Bool)

abbrev used_socket : PicoserverSocket
used_socket = record {
  protocol = 6;
  client_id = 0;
  socket_fd = 1;
  socket = some 500;
  events = no_events;
  async_transport = none;
}

abbrev free_socket : PicoserverSocket
free_socket = record {
  protocol = 6;
  client_id = 0;
  socket_fd = 0;
  socket = some 600;
  events = no_events;
  async_transport = none;
}

abbrev used_ids : ℕ → Option ℕ
used_ids = store (λ k. none) 1 (some 10)

-- Client 0 has socket 1, at 10 and at address 500.
abbrev one_socket : Tables
one_socket = record {
  clients =
      record { bump_index = 1; socket_table = used_ids; socket_event_set = λ k. none }
      ∷ record { bump_index = 1; socket_table = λ k. none; socket_event_set = λ k. none }
      ∷ [];
  socket_addr_table = store (λ k. none) 500 (some 10);
  heap = λ p. if p == 10 then used_socket else free_socket;
  closed = [];
  freed = [];
}

used_ids-taken : (k : ℕ) → k < 1 → find (direct {V = ℕ} 0) used_ids (1 + k) ≢ none
used_ids-taken k h e =
    let z : k ≡ 0 = omega arith in absurd (ground (arith, z, e, find-direct 0 used_ids (1 + k)))

-- Descriptor 1 is in use, and 2 is not.
find_free_id-first_example :
    let c = client_at (direct 0) (direct 0) (direct false) 0 one_socket in
    let (id, t) = find_free_id (direct 0) (direct 0) (direct false) 0 one_socket in
    (id ≡ c.bump_index + 1)
    × (id ≢ 0)
    × (client_at (direct 0) (direct 0) (direct false) 0 t ≡ record c { bump_index = id + 1 })
find_free_id-first_example =
    find_free_id-first (direct 0) (direct 0) (direct false) one_socket 0 1 (omega arith)
      (omega arith) (omega arith) used_ids-taken (find-direct 0 (used_ids) 2)

client_delete_socket-Deleted_example :
    (t : Tables) × (client_delete_socket (direct 0) (direct 0) (direct false) 0 1 one_socket
      ≡ some (pos 0, t))
    × Deleted (direct 0) (direct 0) (direct false) one_socket t 0 1 10
unfolding client_get_socket client_get_socket_by_addr
client_delete_socket-Deleted_example =
    client_delete_socket-Deleted (direct 0) (direct 0) (direct false) (direct-IsKhash 0)
      (direct-IsKhash 0) (direct-IsKhash false) one_socket 0 1 10 10 (omega arith)
      (find-direct 0 (used_ids) 1) (find-direct 0 (store (λ k. none) 500 (some 10)) 500)

-- The search goes on at the bump index, so the new socket at 20 gets descriptor 2.
client_put_socket-Added_example :
    let id = (find_free_id (direct 0) (direct 0) (direct false) 0 one_socket).0 in
    (t : Tables) × (client_put_socket (direct 0) (direct 0) (direct false) 0 20 one_socket
      ≡ some (pos id, t))
    × (client_get_socket (direct 0) (direct 0) (direct false) 0 id one_socket ≡ none)
    × Added (direct 0) (direct 0) (direct false) one_socket t 0 id 20
unfolding client_get_socket_by_addr
client_put_socket-Added_example =
    client_put_socket-Added (direct 0) (direct 0) (direct false) (direct-IsKhash 0)
      (direct-IsKhash 0) one_socket 0 20 (omega arith)
      (find-direct 0 (store (λ k. none) 500 (some 10)) 600)
      (find_free_id-first (direct 0) (direct 0) (direct false) one_socket 0 1 (omega arith)
        (omega arith) (omega arith) used_ids-taken (find-direct 0 used_ids 2)).1
      (rw
        (find_free_id-first (direct 0) (direct 0) (direct false) one_socket 0 1 (omega arith)
          (omega arith) (omega arith) used_ids-taken (find-direct 0 used_ids 2)).0
        (omega arith))
      (put_ret-ok (used_ids _)) (put_ret-ok (store {V = ℕ} (λ k. none) 500 (some 10) 600))

abbrev after_put : Tables
after_put = (client_put_event (direct 0) (direct 0) (direct false) 0 1 (true ∷ []) one_socket).1

client_put_event-get_event_example :
    (left : ℕ) × (u : Tables) × (client_get_event
        (direct 0)
        (direct 0)
        (direct false)
        0
        (client_put_event (direct 0) (direct 0) (direct false) 0 1 (true ∷ []) one_socket).1
      ≡ some (
        some (record {
          socket_fd = 1;
          events = or_bits no_events (true ∷ []);
          num_events_left = left;
        }),
        u,
      ))
    × ((u.heap 10).events ≡ no_events)
    × (find (direct false) (client_at (direct 0) (direct 0) (direct false) 0 u).socket_event_set 1
        ≡ none)
unfolding client_get_socket client_put_event first_of find
client_put_event-get_event_example =
    client_put_event-get_event (direct 0) (direct 0) (direct false) (direct-IsKhash false)
      one_socket 0 1 10 1 (true ∷ []) (omega arith) (find-direct 0 used_ids 1) (omega arith)
      (put_ret-ok {V = Bool} none) refl refl
