-- ===== src/Picoserver/Deleting.antt =====
-- remote-drivers/picotcp-socket-sync/server/picoserver_client.c: what `client_delete_socket` leaves.
use global_components.Prelude.{
  ℕ, ◌<◌, ◌≡◌, refl, sym, ap, ◌∙◌, ◌≢◌, Option, none, some, ◌∷◌, ◌==◌, if◌then◌else◌, length, set,
  get_or-set_self, get_or-set_ne, arith,
}
use global_components.Prelude.Int.{pos}
use global_components.Picoserver.Table.{Khash, IsKhash, find, erase}
use global_components.Picoserver.Finding.{iterator, find-erase}
use global_components.Picoserver.Clients.{
  PicoserverClient, Picoserver, Unused, addr_key, fresh_client, client_at, client_get_socket,
  client_get_socket_by_addr,
}
use global_components.Picoserver.Sockets.{client_delete_socket}

module _ {H A E : Type 0} (kh : Khash H ℕ) (ka : Khash A ℕ) (ke : Khash E Unused) where
  -- The state `t` is `s` without socket `id` of client `i`, whose object is `p`.
  pub record Deleted (s t : Picoserver H A E) (i id p : ℕ) : Type 0 where
    pub socket :
        (other : ℕ)
        → client_get_socket kh ka ke i other t
          ≡ (if id == other then none else client_get_socket kh ka ke i other s)
    pub by_addr :
        (a : Option ℕ)
        → client_get_socket_by_addr kh ka ke a t ≡ (
            if addr_key (s.heap p).socket == addr_key a
            then none
            else client_get_socket_by_addr kh ka ke a s)
    pub event :
        (other : ℕ)
        → find ke (client_at kh ka ke i t).socket_event_set other
          ≡ (if id == other then none else find ke (client_at kh ka ke i s).socket_event_set other)
    pub others : (k : ℕ) → k ≢ i → client_at kh ka ke k t ≡ client_at kh ka ke k s
    pub shut : t.closed ≡ (s.heap p).socket ∷ s.closed
    pub released : t.freed ≡ p ∷ s.freed

  -- Deleting a socket that the client has succeeds: its descriptor, its address and its events are
  -- forgotten, its connection is closed and its object freed, and no other descriptor, address or
  -- client changes.
  pub client_delete_socket-Deleted :
      IsKhash kh
      → IsKhash ka
      → IsKhash ke
      → (s : Picoserver H A E) (i id p q : ℕ) → i < length s.clients
      → client_get_socket kh ka ke i id s ≡ some p
      → client_get_socket_by_addr kh ka ke (s.heap p).socket s ≡ some q
      → (t : Picoserver H A E) × (client_delete_socket kh ka ke i id s ≡ some (pos 0, t))
        × Deleted s t i id p
  unfolding client_delete_socket client_get_socket client_get_socket_by_addr
  client_delete_socket-Deleted lh la le s i id p q hi e by_addr =
      let c = client_at kh ka ke i s in
      let (it, g, v) = iterator kh c.socket_table id p e in
      let (at', ga, va) = iterator ka s.socket_addr_table (addr_key (s.heap p).socket) q by_addr in
      let c' : PicoserverClient H E = record c {
        socket_table = kh.kh_del c.socket_table it;
        socket_event_set = erase ke c.socket_event_set id;
      } in
      let t : Picoserver H A E = record s {
        clients = set s.clients i c';
        socket_addr_table = ka.kh_del s.socket_addr_table at';
        closed = (s.heap p).socket ∷ s.closed;
        freed = p ∷ s.freed;
      } in
      let here = get_or-set_self s.clients i c' (fresh_client kh ka ke) hi in
      (
        t,
        ground (arith, g, v, ga),
        record {
          socket = λ other.
              ap (λ (d : PicoserverClient H E). find kh d.socket_table other) here
              ∙ lh.find_erase c.socket_table id it other g;
          by_addr = λ a.
              la.find_erase s.socket_addr_table (addr_key (s.heap p).socket) at' (addr_key a) ga;
          event = λ other.
              ap (λ (d : PicoserverClient H E). find ke d.socket_event_set other) here
              ∙ find-erase ke le c.socket_event_set id other;
          others = λ k ne. get_or-set_ne s.clients i k c' (fresh_client kh ka ke) (λ w. ne (sym w));
          shut = refl;
          released = refl;
        },
      )
