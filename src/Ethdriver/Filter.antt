-- ===== src/Ethdriver/Filter.antt =====
-- components/Ethdriver/src/ethdriver.c: which client a call or a packet belongs to.
use Prim.Native.Nat.{bit_and}
use global_components.Prelude.{
  ℕ, ◌+◌, ◌*◌, Bool, false, Option, none, some, List, [], ◌∷◌, ltb, ◌==◌, if◌then◌else◌,
}
use global_components.Ethdriver.State.{Client, Ethdriver, bytes, same_bytes}

-- The loop of `eth_get_client` from index `i` on: it does not stop at a match, so the last one stays.
unfoldable pub get_client_from : ℕ → ℕ → List Client → Option ℕ → Option ℕ
get_client_from id i [] client = client
get_client_from id i (c ∷ cs) client =
    get_client_from id (i + 1) cs (if c.client_id == id then some i else client)

-- The sender's badge is an argument.
unfoldable pub eth_get_client : ℕ → Ethdriver → Option ℕ
unfolding get_client_from
eth_get_client id s = get_client_from id 0 s.clients none

-- The loop of `detect_client` from index `i` on.
unfoldable pub detect_from : List ℕ → ℕ → List Client → Option ℕ
detect_from dst i [] = none
detect_from dst i (c ∷ cs) = if same_bytes c.mac dst then some i else detect_from dst (i + 1) cs

-- The packet lies at address `buf`.
unfoldable pub detect_client : Ethdriver → ℕ → ℕ → Option ℕ
unfolding detect_from
detect_client s buf len = if ltb len 6 then none else detect_from (bytes s.mem buf 6) 0 s.clients

abbrev pub broadcast_mac : List ℕ
broadcast_mac = 0xff ∷ 0xff ∷ 0xff ∷ 0xff ∷ 0xff ∷ 0xff ∷ []

unfoldable pub is_broadcast : (ℕ → ℕ) → ℕ → ℕ → Bool
is_broadcast mem buf len = if ltb len 6 then false else same_bytes (bytes mem buf 6) broadcast_mac

abbrev pub eth_header_len : ℕ
eth_header_len = 14

abbrev pub ip_hdr_dest_offset : ℕ
ip_hdr_dest_offset = 16

-- The four bytes copied into `uint32_t addr`, as a little-endian machine reads them.
unfoldable pub dest_addr : (ℕ → ℕ) → ℕ → ℕ
dest_addr mem buf =
    let p = buf + eth_header_len + ip_hdr_dest_offset in
    mem p + 256 * mem (p + 1) + 65536 * mem (p + 2) + 16777216 * mem (p + 3)

unfoldable pub is_multicast : (ℕ → ℕ) → ℕ → ℕ → Bool
unfolding dest_addr
is_multicast mem buf len =
    if ltb len (eth_header_len + ip_hdr_dest_offset + 4)
    then false
    else bit_and (dest_addr mem buf) 0xf0 == 0xe0
