-- ===== src/SocketServer/Lifetime.antt =====
-- remote-drivers/picotcp-socket-sync/server/server.c: a socket from its opening to its closing.
use global_components.Picoserver.Deleting.{Deleted, client_delete_socket-Deleted}
use global_components.SocketServer.Closing.{pico_control_close, cleanup_async_socket, delete_socket}
use global_components.Prelude.{
  ℕ, ◌<◌, ◌≡◌, refl, ◌^◌, ◌≢◌, inl, inr, none, some, Option-cases, length, Bool, Option, ◌∷◌, arith,
  if◌then◌else◌, false, leb, ◌∙◌, sym, ap, ap₂, ◌==◌, Bool-cases,
}
use global_components.Prelude.Int.{pos, negsuc}
use global_components.Picoserver.Table.{IsKhash}
use global_components.Picoserver.Finding.{same_ℤ-ne}
use global_components.Picoserver.Clients.{
  Picoserver, PicoserverSocket, client_at, client_get_socket, client_get_socket_by_addr,
  find_free_id, scan_ids, addr_key,
}
use global_components.Picoserver.Putting.{Added, client_put_socket-Added}
use global_components.SocketServer.State.{
  Libs, Server, update, socket_of, object, client_check, control, server_control_common,
}
use global_components.SocketServer.Control.{register, with_fd, pico_control_open, new_socket}

-- A key that is added where it was unknown, and deleted.
undone_key :
    (key other : ℕ) (o : Option ℕ) (p : ℕ)
    → (key ≡ other → o ≡ none)
    → (if key == other then none else if key == other then some p else o) ≡ o
undone_key key other o p h = elim (Bool-cases (key == other)) [
  | inl e ↦ let same : key ≡ other = ground arith in rw e (sym (h same))
  | inr e ↦ rw e refl
]

module _ {H A E K Q : Type 0} (lib : Libs H A E K Q) where
  find_free_id-heap :
      (i : ℕ) (s : Picoserver H A E) (heap : ℕ → PicoserverSocket)
      → (find_free_id lib.kh lib.ka lib.ke i (record s { heap = heap })).0
        ≡ (find_free_id lib.kh lib.ka lib.ke i s).0
  unfolding find_free_id
  find_free_id-heap i s heap =
      let c = client_at lib.kh lib.ka lib.ke i s in
      elim (Option-cases
        (scan_ids lib.kh lib.ka lib.ke c.socket_table c.bump_index (2 ^ 32) c.bump_index)) [
          | inl e ↦ rw (e, find_free_id) refl
          | inr (id, e) ↦ rw (e, find_free_id) refl
        ]

  -- A socket that the stack opens is registered.
  register-Added :
      IsKhash lib.kh
      → IsKhash lib.ka
      → (client p a : ℕ) (sock : PicoserverSocket) (s : Server H A E K Q)
      → client < length s.pico.clients
      → sock.socket ≡ some a
      → client_get_socket_by_addr lib.kh lib.ka lib.ke (some a) s.pico ≡ none
      → let id = (find_free_id lib.kh lib.ka lib.ke client s.pico).0 in
        id ≢ 0
        → id < 2 ^ 31
        → (lib.kh.kh_put (client_at lib.kh lib.ka lib.ke client s.pico).socket_table id).1
          ≢ negsuc 0
        → (lib.ka.kh_put s.pico.socket_addr_table a).1 ≢ negsuc 0
        → (t : Picoserver H A E) × (register lib client p sock s
            ≡ some (pos id, with_fd lib p id (record s { pico = t })))
          × (client_get_socket lib.kh lib.ka lib.ke client id s.pico ≡ none)
          × Added lib.kh lib.ka lib.ke
              (record (s.pico) { heap = update s.pico.heap p sock })
              t
              client
              id
              p
  unfolding register client_get_socket client_get_socket_by_addr
  register-Added lh la client p a sock s h e unknown ne small room room' =
      let reg : Picoserver H A E = record (s.pico) { heap = update s.pico.heap p sock } in
      let same = find_free_id-heap client s.pico (update s.pico.heap p sock) in
      let here : (reg.heap p).socket ≡ some a = ground (arith, e) in
      let (t, put, free, added) =
        client_put_socket-Added lib.kh lib.ka lib.ke lh la reg client p h (rw here unknown)
          (rw same ne) (rw same small) (rw same room) (rw here room') in
      let put' = put ∙ ap (λ (n : ℕ). some (pos n, t)) same in
      let valid =
        same_ℤ-ne (pos (find_free_id lib.kh lib.ka lib.ke client s.pico).0) (negsuc 0) (λ q. cc) in
      (t, rw (put', valid, register) refl, rw same at free, rw same at added)

  -- A registered socket without asynchronous transport is closed.
  close-Deleted :
      IsKhash lib.kh
      → IsKhash lib.ka
      → IsKhash lib.ke
      → (client id p q : ℕ) (t : Server H A E K Q) → client < length t.pico.clients
      → socket_of lib client id t ≡ some p
      → client_get_socket_by_addr lib.kh lib.ka lib.ke (object lib p t).socket t.pico ≡ some q
      → (object lib p t).async_transport ≡ none
      → (u : Server H A E K Q) × (pico_control_close lib client (pos id) t ≡ some (pos 0, u))
        × Deleted lib.kh lib.ka lib.ke t.pico u.pico client id p
  unfolding pico_control_close control client_check server_control_common cleanup_async_socket
      delete_socket
  close-Deleted lh la le client id p q t h got known idle =
      let (u, deleted, after) =
        client_delete_socket-Deleted lib.kh lib.ka lib.ke lh la le t.pico client id p q h got
          known in
      let in_range : leb (length t.pico.clients) client ≡ false = ground arith in
      (
        record t { pico = u },
        rw
            (
              in_range, got, idle, deleted, pico_control_close, control, client_check,
              server_control_common, cleanup_async_socket, delete_socket,
            )
            refl,
        after,
      )

  -- A socket that is opened gets a descriptor, and closing that succeeds. After that each descriptor of the
  -- client and each address gives the object that it gave before the opening, and the connection is the
  -- one that was closed last. The stack must open a connection whose address is not known, the
  -- next free descriptor must be below 2 ^ 31, so that it is not negative as an `int`, and the tables
  -- have room.
  pub open-close :
      IsKhash lib.kh
      → IsKhash lib.ka
      → IsKhash lib.ke
      → (client p a : ℕ) (is_udp : Bool) (s : Server H A E K Q) → client < length s.pico.clients
      → (lib.stack.socket_open s.stack
          (if is_udp then lib.stack.proto_udp else lib.stack.proto_tcp)).0
        ≡ some a
      → client_get_socket_by_addr lib.kh lib.ka lib.ke (some a) s.pico ≡ none
      → let id = (find_free_id lib.kh lib.ka lib.ke client s.pico).0 in
        id ≢ 0
        → id < 2 ^ 31
        → (lib.kh.kh_put (client_at lib.kh lib.ka lib.ke client s.pico).socket_table id).1
          ≢ negsuc 0
        → (lib.ka.kh_put s.pico.socket_addr_table a).1 ≢ negsuc 0
        → (t u : Server H A E K Q) × (pico_control_open lib client (some p) is_udp s
            ≡ some (pos id, t))
          × (socket_of lib client id t ≡ some p)
          × ((object lib p t).socket_fd ≡ id)
          × (pico_control_close lib client (pos id) t ≡ some (pos 0, u))
          × ((other : ℕ) → socket_of lib client other u ≡ socket_of lib client other s)
          × ((b : Option ℕ)
              → client_get_socket_by_addr lib.kh lib.ka lib.ke b u.pico
                ≡ client_get_socket_by_addr lib.kh lib.ka lib.ke b s.pico)
          × (u.pico.closed ≡ some a ∷ s.pico.closed)
  unfolding pico_control_open client_check client_get_socket client_get_socket_by_addr
  open-close lh la le client p a is_udp s h opened unknown ne small room room' =
      let protocol = if is_udp then lib.stack.proto_udp else lib.stack.proto_tcp in
      let k = (lib.stack.socket_open s.stack protocol).1 in
      let s1 : Server H A E K Q = record s { stack = k } in
      let sock = new_socket client protocol (some a) in
      let id = (find_free_id lib.kh lib.ka lib.ke client s.pico).0 in
      let (tp, reg, free, added) =
        register-Added lh la client p a sock s1 h refl unknown ne small room room' in
      let t = with_fd lib p id (record s1 { pico = tp }) in
      let in_range : leb (length s.pico.clients) client ≡ false = ground arith in
      let mine : (update s.pico.heap p sock p).socket ≡ some a = ground arith in
      let before = λ (b : Option ℕ). client_get_socket_by_addr lib.kh lib.ka lib.ke b s.pico in
      let obj : tp.heap p ≡ sock = ground (arith, added.heap) in
      let conn : (object lib p t).socket ≡ some a = ground (arith, obj) in
      let idle : (object lib p t).async_transport ≡ none = ground (arith, obj) in
      let got : socket_of lib client id t ≡ some p = added.socket id ∙ ground arith in
      let known : client_get_socket_by_addr lib.kh lib.ka lib.ke (some a) t.pico ≡ some p =
        added.by_addr (some a) ∙ ground (arith, obj) in
      let (u, closes, gone) =
        close-Deleted lh la le client id p p t (omega (arith, added.size, h)) got (rw conn known)
          idle in
      (
        t,
        u,
        rw (in_range, opened, reg, pico_control_open, client_check) refl,
        got,
        ground arith,
        closes,
        λ other.
            gone.socket other
            ∙ ap (λ (o : Option ℕ). if id == other then none else o) (added.socket other)
            ∙ undone_key id other (client_get_socket lib.kh lib.ka lib.ke client other s.pico) p
                (λ e. rw (sym e) free),
        λ b.
            gone.by_addr b
            ∙ ap₂ (λ (v : Option ℕ) (o : Option ℕ). if addr_key v == addr_key b then none else o)
                conn
                (added.by_addr b
                  ∙ ap (λ (v : Option ℕ). if addr_key v == addr_key b then some p else before b)
                      mine)
            ∙ undone_key a (addr_key b) (before b) p (λ e. rw (sym e) unknown),
        gone.shut ∙ ap₂ (◌∷◌) conn added.closed,
      )
