-- ===== src/Picoserver/Reporting.antt =====
-- remote-drivers/picotcp-socket-sync/server/picoserver_client.c: no event is lost.
use global_components.Picoserver.Finding.{find-get, same_ℤ-ne}
use global_components.Prelude.{
  ℕ, ◌<◌, ◌≡◌, ◌≢◌, Bool, some, List, length, refl, ap, ◌∙◌, false, none, arith, length-set,
  get_or-set_self, ◌==◌, set,
}
use global_components.Prelude.Int.{pos, negsuc, same_ℤ}
use global_components.Picoserver.Table.{Khash, IsKhash, find}
use global_components.Picoserver.Clients.{
  Picoserver, Unused, client_at, client_get_socket, PicoserverClient, fresh_client,
}
use global_components.Picoserver.Events.{
  or_bits, client_put_event, client_get_event, report_event, no_events, with_events,
}

module _ {H A E : Type 0} (kh : Khash H ℕ) (ka : Khash A ℕ) (ke : Khash E Unused) where
  -- An event that is put for a socket of a client is added to those that wait for the socket, and the
  -- client's set of events has the socket, unless the set has no room.
  pub client_put_event_lem :
      IsKhash ke
      → (s : Picoserver H A E) (i id p : ℕ) (event : List Bool) → i < length s.clients
      → client_get_socket kh ka ke i id s ≡ some p
      → (ke.kh_put (client_at kh ka ke i s).socket_event_set id).1 ≢ negsuc 0
      → let (ret, t) = client_put_event kh ka ke i id event s in
        (ret ≡ pos 0)
        × ((t.heap p).events ≡ or_bits (s.heap p).events event)
        × (client_get_socket kh ka ke i id t ≡ some p)
        × (length t.clients ≡ length s.clients)
        × (find ke (client_at kh ka ke i t).socket_event_set id ≢ none)
  unfolding client_put_event client_get_socket
  client_put_event_lem le s i id p event hi e ok =
      let c = client_at kh ka ke i s in
      let (it, ret, es) = ke.kh_put c.socket_event_set id in
      let c' : PicoserverClient H E = record c { socket_event_set = es } in
      let here = get_or-set_self s.clients i c' (fresh_client kh ka ke) hi in
      let fine : same_ℤ ret (negsuc 0) ≡ false = same_ℤ-ne ret (negsuc 0) ok in
      rw (e, fine, client_put_event)
        (
          refl,
          ground arith,
          ap (λ (d : PicoserverClient H E). find kh d.socket_table id) here ∙ e,
          length-set s.clients i c',
          rw here (find-get ke es id it (le.get_put c.socket_event_set id ok)),
        )

  client_get_event_lem :
      IsKhash ke
      → (s : Picoserver H A E) (i id p f : ℕ) → i < length s.clients
      → let events = (client_at kh ka ke i s).socket_event_set in
        ke.kh_first events ≡ some f
        → ke.kh_key events f ≡ id
        → id ≢ 0
        → client_get_socket kh ka ke i id s ≡ some p
        → (left : ℕ) × (u : Picoserver H A E) × (client_get_event kh ka ke i s
            ≡ some (
              some (record { socket_fd = id; events = (s.heap p).events; num_events_left = left }),
              u,
            ))
          × ((u.heap p).events ≡ no_events)
          × (find ke (client_at kh ka ke i u).socket_event_set id ≡ none)
  unfolding client_get_event report_event client_get_socket
  client_get_event_lem le s i id p f hi first key ne e =
      let c = client_at kh ka ke i s in
      let es = ke.kh_del c.socket_event_set f in
      let c' : PicoserverClient H E = record c { socket_event_set = es } in
      let here = get_or-set_self s.clients i c' (fresh_client kh ka ke) hi in
      let t : Picoserver H A E = record s { clients = set s.clients i c' } in
      let found = ap (λ (d : PicoserverClient H E). find kh d.socket_table id) here ∙ e in
      let nonzero : (id == 0) ≡ false = ground arith in
      let u : Picoserver H A E = record t { heap = with_events s.heap p no_events } in
      let there = le.get_first c.socket_event_set f first in
      (
        ke.kh_size (client_at kh ka ke i t).socket_event_set,
        u,
        ground (arith, first, key, nonzero, found),
        ground arith,
        ap (λ (d : PicoserverClient H E). find ke d.socket_event_set id) here
            ∙ ground (arith, le.find_erase c.socket_event_set id f id (rw key at there)),
      )

  -- The event that is put for a socket of a client is reported together with those that waited, when
  -- the client's set of events comes to that socket: then none waits for the socket any more, and the
  -- set does not have it.
  pub client_put_event-get_event :
      IsKhash ke
      → (s : Picoserver H A E) (i id p f : ℕ) (event : List Bool) → i < length s.clients
      → client_get_socket kh ka ke i id s ≡ some p
      → id ≢ 0
      → (ke.kh_put (client_at kh ka ke i s).socket_event_set id).1 ≢ negsuc 0
      → let (ret, t) = client_put_event kh ka ke i id event s in
        let waiting = (client_at kh ka ke i t).socket_event_set in
        ke.kh_first waiting ≡ some f
        → ke.kh_key waiting f ≡ id
        → (left : ℕ) × (u : Picoserver H A E) × (client_get_event kh ka ke i t
            ≡ some (
              some (record {
                socket_fd = id;
                events = or_bits (s.heap p).events event;
                num_events_left = left;
              }),
              u,
            ))
          × ((u.heap p).events ≡ no_events)
          × (find ke (client_at kh ka ke i u).socket_event_set id ≡ none)
  client_put_event-get_event le s i id p f event hi e ne ok first key =
      let (done', added, kept, len, member) = client_put_event_lem le s i id p event hi e ok in
      let t = (client_put_event kh ka ke i id event s).1 in
      let (left, u, got, clear, gone) =
        client_get_event_lem le t i id p f (omega (arith, len)) first key ne kept in
      (left, u, rw added at got, clear, gone)
