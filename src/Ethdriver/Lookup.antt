-- ===== src/Ethdriver/Lookup.antt =====
-- components/Ethdriver/src/ethdriver.c: what the look-ups of clients find.
use global_components.Prelude.{
  ℕ, ◌+◌, ◌≤◌, ◌<◌, ◌≡◌, ◌⊎◌, inl, Option, none, some, List, [], ◌∷◌, arith, ◌==◌, if◌then◌else◌,
  length,
}
use global_components.Ethdriver.State.{Client, Ethdriver, bytes}
use global_components.Ethdriver.Filter.{get_client_from, eth_get_client, detect_from, detect_client}

detect_from_bounds :
    (dst : List ℕ) (i : ℕ) (cs : List Client) (j : ℕ)
    → detect_from dst i cs ≡ some j
    → (i ≤ j) × (j < i + length cs)
unfolding detect_from
detect_from_bounds dst i [] j e = cc
detect_from_bounds dst i (c ∷ cs) j e = ground (arith, detect_from_bounds dst (i + 1) cs j)

pub detect_client_lt :
    (s : Ethdriver) (buf len i : ℕ) → detect_client s buf len ≡ some i → i < length s.clients
unfolding detect_client
detect_client_lt s buf len i e =
    ground (arith, detect_from_bounds (bytes s.mem buf 6) 0 s.clients i)

get_client_from_bounds :
    (id i : ℕ) (cs : List Client) (o : Option ℕ) (j : ℕ)
    → get_client_from id i cs o ≡ some j
    → (o ≡ some j) ⊎ ((i ≤ j) × (j < i + length cs))
unfolding get_client_from
get_client_from_bounds id i [] o j e = inl e
get_client_from_bounds id i (c ∷ cs) o j e =
    ground
      (arith, get_client_from_bounds id (i + 1) cs (if c.client_id == id then some i else o) j e)

pub eth_get_client_lt :
    (id : ℕ) (s : Ethdriver) (i : ℕ) → eth_get_client id s ≡ some i → i < length s.clients
unfolding eth_get_client
eth_get_client_lt id s i e = ground (arith, get_client_from_bounds id 0 s.clients none i e)
