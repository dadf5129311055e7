-- ===== src/Picoserver/Events.antt =====
-- remote-drivers/picotcp-socket-sync/server/picoserver_client.c: the events of sockets.
use global_components.Prelude.{
  ℕ, Bool, false, ◌||◌, Option, none, some, List, [], ◌∷◌, ◌==◌, if◌then◌else◌, set, replicate,
}
use global_components.Prelude.Int.{ℤ, pos, negsuc, same_ℤ}
use global_components.Picoserver.Table.{Khash}
use global_components.Picoserver.Clients.{
  PicoserverSocket, PicoserverEvent, Picoserver, Unused, client_at, client_get_socket,
}

-- `a | b` on the bits
unfoldable pub or_bits : List Bool → List Bool → List Bool
or_bits [] b = b
or_bits (x ∷ xs) [] = x ∷ xs
or_bits (x ∷ xs) (y ∷ ys) = (x || y) ∷ or_bits xs ys

abbrev pub no_events : List Bool
no_events = replicate 16 false

-- `client_socket->events = e`
abbrev pub with_events : (ℕ → PicoserverSocket) → ℕ → List Bool → ℕ → PicoserverSocket
with_events heap p e q = if q == p then record (heap p) { events = e } else heap q

module _ {H A E : Type 0} (kh : Khash H ℕ) (ka : Khash A ℕ) (ke : Khash E Unused) where
  abbrev pub with_set : ℕ → E → Picoserver H A E → Picoserver H A E
  with_set i e s = record s {
    clients = set s.clients i (record (client_at kh ka ke i s) { socket_event_set = e });
  }

  -- The event of socket `id`, once it is out of the set; `none` where there is no such socket, which is
  -- fatal.
  unfoldable pub report_event :
      ℕ → ℕ → Picoserver H A E → Option (Option PicoserverEvent × Picoserver H A E)
  report_event i id s = elim (client_get_socket kh ka ke i id s) [
    | none ↦ none
    | some p ↦
        let event : PicoserverEvent = record {
          socket_fd = id;
          events = (s.heap p).events;
          num_events_left = ke.kh_size (client_at kh ka ke i s).socket_event_set;
        } in
        some (some event, record s { heap = with_events s.heap p no_events })
  ]

  -- The event that is stored through `ret_event`, if one is.
  unfoldable pub client_get_event :
      ℕ → Picoserver H A E → Option (Option PicoserverEvent × Picoserver H A E)
  client_get_event i s =
      let e = (client_at kh ka ke i s).socket_event_set in
      elim (ke.kh_first e) [
        | none ↦ some (none, s)
        | some it ↦
            let id = ke.kh_key e it in
            let t = with_set i (ke.kh_del e it) s in
            if id == 0 then some (none, t) else report_event i id t
      ]

  unfoldable pub client_put_event : ℕ → ℕ → List Bool → Picoserver H A E → ℤ × Picoserver H A E
  client_put_event i id event s =
      let (it, ret, e) = ke.kh_put (client_at kh ka ke i s).socket_event_set id in
      elim (client_get_socket kh ka ke i id s) [
        | none ↦ (negsuc 0, s)
        | some p ↦
            let t = record (with_set i e s) {
              heap = with_events s.heap p (or_bits (s.heap p).events event);
            } in
            if same_ℤ ret (negsuc 0) then (negsuc 0, t) else (pos 0, t)
      ]
