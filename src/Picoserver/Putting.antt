-- ===== src/Picoserver/Putting.antt =====
-- remote-drivers/picotcp-socket-sync/server/picoserver_client.c: what `client_put_socket` leaves.
use global_components.Prelude.{
  ℕ, ◌<◌, ◌≡◌, sym, ap, ◌∙◌, ◌≢◌, Option, none, some, arith, ◌==◌, if◌then◌else◌, length, set,
  get_or-set_self, get_or-set_ne, ◌+◌, ◌%◌, ◌^◌, refl, ap₂, inl, inr, Option-cases, length-set,
  true, ltb,
}
use global_components.Prelude.Int.{pos, negsuc}
use global_components.Picoserver.Table.{Khash, IsKhash, find}
use global_components.Picoserver.Finding.{same_ℤ-ne}
use global_components.Picoserver.Ids.{find_free_id-free}
use global_components.Picoserver.Clients.{
  PicoserverClient, Picoserver, Unused, addr_key, fresh_client, client_at, client_get_socket,
  client_get_socket_by_addr, find_free_id, PicoserverSocket, scan_ids,
}
use global_components.Picoserver.Sockets.{put_addr, put_id, set_addr, client_put_socket}

module _ {H A E : Type 0} (kh : Khash H ℕ) (ka : Khash A ℕ) (ke : Khash E Unused) where
  -- The state `t` is `s` with the object `new` as socket `id` of client `i`.
  pub record Added (s t : Picoserver H A E) (i id new : ℕ) : Type 0 where
    pub socket :
        (other : ℕ)
        → client_get_socket kh ka ke i other t
          ≡ (if id == other then some new else client_get_socket kh ka ke i other s)
    pub by_addr :
        (a : Option ℕ)
        → client_get_socket_by_addr kh ka ke a t ≡ (
            if addr_key (s.heap new).socket == addr_key a
            then some new
            else client_get_socket_by_addr kh ka ke a s)
    pub others : (k : ℕ) → k ≢ i → client_at kh ka ke k t ≡ client_at kh ka ke k s
    pub size : length t.clients ≡ length s.clients
    pub heap : t.heap ≡ s.heap
    pub closed : t.closed ≡ s.closed

  -- The two insertions, of a descriptor and an address that are not in use.
  put_id-Added :
      IsKhash kh
      → IsKhash ka
      → (s : Picoserver H A E) (i id new : ℕ) → i < length s.clients
      → id < 2 ^ 31
      → find kh (client_at kh ka ke i s).socket_table id ≡ none
      → client_get_socket_by_addr kh ka ke (s.heap new).socket s ≡ none
      → (kh.kh_put (client_at kh ka ke i s).socket_table id).1 ≢ negsuc 0
      → (ka.kh_put s.socket_addr_table (addr_key (s.heap new).socket)).1 ≢ negsuc 0
      → (t : Picoserver H A E) × (put_id kh ka ke i id new s ≡ some (pos id, t))
        × Added s t i id new
  unfolding put_id put_addr client_get_socket client_get_socket_by_addr set_addr
  put_id-Added lh la s i id new hi small free unknown room room' =
      let c = client_at kh ka ke i s in
      let (it, ret, h) = kh.kh_put c.socket_table id in
      let (at', ret', a) = ka.kh_put s.socket_addr_table (addr_key (s.heap new).socket) in
      let c' : PicoserverClient H E = record c { socket_table = kh.kh_set h it new } in
      let t : Picoserver H A E = record s {
        clients = set s.clients i c';
        socket_addr_table = ka.kh_set a at' new;
      } in
      let here = get_or-set_self s.clients i c' (fresh_client kh ka ke) hi in
      let positive : ltb id (2 ^ 31) ≡ true = ground arith in
      let ok = same_ℤ-ne ret (negsuc 0) room in
      let fresh = same_ℤ-ne ret (pos 0) (lh.put_new c.socket_table id free) in
      let ok' = same_ℤ-ne ret' (negsuc 0) room' in
      let fresh' =
        same_ℤ-ne ret' (pos 0)
          (la.put_new s.socket_addr_table (addr_key (s.heap new).socket) unknown) in
      (
        t,
        ground (arith, ok, fresh, ok', fresh', positive),
        record {
          socket = λ other.
              ap (λ (d : PicoserverClient H E). find kh d.socket_table other) here
              ∙ lh.find_put c.socket_table id other new room;
          by_addr = λ b.
              la.find_put s.socket_addr_table (addr_key (s.heap new).socket) (addr_key b) new room';
          others = λ k ne. get_or-set_ne s.clients i k c' (fresh_client kh ka ke) (λ w. ne (sym w));
          size = length-set s.clients i c';
          heap = refl;
          closed = refl;
        },
      )

  -- The search for a descriptor changes only the client's bump index.
  record Searched (s t : Picoserver H A E) (i : ℕ) : Type 0 where
    table : (client_at kh ka ke i t).socket_table ≡ (client_at kh ka ke i s).socket_table
    rest : (k : ℕ) → k ≢ i → client_at kh ka ke k t ≡ client_at kh ka ke k s
    size : length t.clients ≡ length s.clients
    heap : t.heap ≡ s.heap
    addr : t.socket_addr_table ≡ s.socket_addr_table
    closed : t.closed ≡ s.closed

  find_free_id-Searched :
      (s : Picoserver H A E) (i : ℕ)
      → i < length s.clients
      → Searched s (find_free_id kh ka ke i s).1 i
  unfolding find_free_id
  find_free_id-Searched s i hi =
      let c = client_at kh ka ke i s in
      elim (Option-cases (scan_ids kh ka ke c.socket_table c.bump_index (2 ^ 32) c.bump_index)) [
        | inl e ↦
            rw (e, find_free_id)
              (record {
                table = refl;
                rest = λ k ne. refl;
                size = refl;
                heap = refl;
                addr = refl;
                closed = refl;
              })
        | inr (id, e) ↦
            let c' : PicoserverClient H E = record c { bump_index = (id + 1) % 2 ^ 32 } in
            let here = get_or-set_self s.clients i c' (fresh_client kh ka ke) hi in
            rw (e, find_free_id)
              (record {
                table = ap (λ (d : PicoserverClient H E). d.socket_table) here;
                rest = λ k ne.
                    get_or-set_ne s.clients i k c' (fresh_client kh ka ke) (λ w. ne (sym w));
                size = length-set s.clients i c';
                heap = refl;
                addr = refl;
                closed = refl;
              })
      ]

  Searched-Added :
      (s t u : Picoserver H A E) (i id new : ℕ)
      → Searched s t i
      → Added t u i id new
      → Added s u i id new
  unfolding client_get_socket client_get_socket_by_addr
  Searched-Added s t u i id new h a = record {
    socket = λ other.
        a.socket other ∙ ap (λ (w : H). if id == other then some new else find kh w other) h.table;
    by_addr = λ b.
        a.by_addr b
        ∙ ap₂
            (λ (heap : ℕ → PicoserverSocket) (w : A).
              if addr_key (heap new).socket == addr_key b then some new else find ka w (addr_key b))
            h.heap h.addr;
    others = λ k ne. a.others k ne ∙ h.rest k ne;
    size = a.size ∙ h.size;
    heap = a.heap ∙ h.heap;
    closed = a.closed ∙ h.closed;
  }

  -- A new socket whose address is unknown gets a descriptor that is not in use: it is found by the
  -- descriptor and by its address, and no other descriptor, address or client changes. The
  -- tables must have room and a descriptor below 2 ^ 31, which is not negative as an `int`, must be
  -- the next free one.
  pub client_put_socket-Added :
      IsKhash kh
      → IsKhash ka
      → (s : Picoserver H A E) (i new : ℕ) → i < length s.clients
      → client_get_socket_by_addr kh ka ke (s.heap new).socket s ≡ none
      → let id = (find_free_id kh ka ke i s).0 in
        id ≢ 0
        → id < 2 ^ 31
        → (kh.kh_put (client_at kh ka ke i s).socket_table id).1 ≢ negsuc 0
        → (ka.kh_put s.socket_addr_table (addr_key (s.heap new).socket)).1 ≢ negsuc 0
        → (t : Picoserver H A E) × (client_put_socket kh ka ke i new s ≡ some (pos id, t))
          × (client_get_socket kh ka ke i id s ≡ none)
          × Added s t i id new
  unfolding client_put_socket client_get_socket client_get_socket_by_addr
  client_put_socket-Added lh la s i new hi unknown ne small room room' =
      let (id, t) = find_free_id kh ka ke i s in
      let h = find_free_id-Searched s i hi in
      let free = find_free_id-free kh ka ke s i ne in
      let (u, e, a) =
        put_id-Added lh la t i id new (omega (arith, h.size)) small (rw h.table free)
          (rw (h.heap, h.addr) unknown) (rw h.table room) (rw (h.heap, h.addr) room') in
      (u, ground (arith, e, ne, hi), free, Searched-Added s t u i id new h a)
