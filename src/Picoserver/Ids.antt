-- ===== src/Picoserver/Ids.antt =====
-- remote-drivers/picotcp-socket-sync/server/picoserver_client.c: `find_free_id`.
use global_components.Picoserver.Finding.{get-find, taken_iterator}
use global_components.Prelude.{
  ℕ, zero, suc, ◌+◌, ◌≤◌, ◌<◌, ◌≡◌, ◌≢◌, none, some, arith, refl, inl, inr, false, ◌==◌,
  Option-cases, Bool-cases, ◌%◌, ◌^◌, length, get_or-set_self,
}
use global_components.Picoserver.Table.{Khash, find}
use global_components.Picoserver.Clients.{
  Unused, scan_ids, next_id, find_free_id, Picoserver, client_at, fresh_client,
}

module _ {H A E : Type 0} (kh : Khash H ℕ) (ka : Khash A ℕ) (ke : Khash E Unused) where
  scan_ids-first :
      (t : H) (old fuel j curr : ℕ)
      → old ≤ curr
      → curr + j < 2147483648
      → j < fuel
      → ((k : ℕ) → k < j → find kh t (curr + k) ≢ none)
      → find kh t (curr + j) ≡ none
      → scan_ids kh ka ke t old fuel curr ≡ some (curr + j)
  unfolding scan_ids
  scan_ids-first t old zero j curr ho hj hf taken free = absurd (omega arith)
  scan_ids-first t old (suc fuel) zero curr ho hj hf taken free =
      let e : curr + 0 ≡ curr = omega arith in
      let free' = rw e at free in rw (e, get-find kh t curr free', scan_ids) refl
  scan_ids-first t old (suc fuel) (suc j) curr ho hj hf taken free =
      let here : curr + 0 ≡ curr = omega arith in
      let first = taken 0 (omega arith) in
      let (it, g) = taken_iterator kh t curr (rw here at first) in
      let next : next_id curr ≡ curr + 1 = ground arith in
      let apart : (old == curr + 1) ≡ false = ground arith in
      let step : curr + suc j ≡ curr + 1 + j = omega arith in
      let later = λ (k : ℕ) (hk : k < j).
        let e : curr + suc k ≡ curr + 1 + k = omega arith in
        let h = taken (suc k) (omega arith) in rw e at h in
      let free' = rw step at free in
      let rest =
        scan_ids-first t old fuel j (curr + 1) (omega arith) (omega arith) (omega arith) later
          free' in
      rw (g, next, apart, step, scan_ids) rest

  scan_ids-free :
      (t : H) (old fuel curr id : ℕ)
      → scan_ids kh ka ke t old fuel curr ≡ some id
      → find kh t id ≡ none
  unfolding scan_ids find
  scan_ids-free t old zero curr id e = absurd (ground arith)
  scan_ids-free t old (suc fuel) curr id e = elim (Option-cases (kh.kh_get t curr)) [
    | inl g ↦ let same = rw (g, scan_ids) at e in ground (arith, same, g)
    | inr (it, g) ↦ elim (Bool-cases (old == next_id curr)) [
      | inl w ↦ absurd (ground (arith, g, w, e))
      | inr w ↦ scan_ids-free t old fuel (next_id curr) id (ground (arith, g, w, e))
    ]
  ]

  -- The loop ends with the first free descriptor from the bump index on, if one comes before the
  -- descriptors run out, and the search goes on behind it the next time.
  pub find_free_id-first :
      (s : Picoserver H A E) (i j : ℕ)
      → i < length s.clients
      → let c = client_at kh ka ke i s in
        0 < c.bump_index
        → c.bump_index + j < 2147483648
        → ((k : ℕ) → k < j → find kh c.socket_table (c.bump_index + k) ≢ none)
        → find kh c.socket_table (c.bump_index + j) ≡ none
        → let (id, t) = find_free_id kh ka ke i s in
          (id ≡ c.bump_index + j)
          × (id ≢ 0)
          × (client_at kh ka ke i t ≡ record c { bump_index = id + 1 })
  unfolding find_free_id
  find_free_id-first s i j hi hb hj taken free =
      let c = client_at kh ka ke i s in
      let b = c.bump_index in
      let scan =
        scan_ids-first c.socket_table b (2 ^ 32) j b (omega arith) hj (omega arith) taken free in
      let wrap : (b + j + 1) % 2 ^ 32 ≡ b + j + 1 = omega arith in
      rw (scan, find_free_id, wrap)
        (refl, omega arith, get_or-set_self s.clients i _ (fresh_client kh ka ke) hi)

  -- No identifier that is found is in use.
  pub find_free_id-free :
      (s : Picoserver H A E) (i : ℕ)
      → (find_free_id kh ka ke i s).0 ≢ 0
      → find kh (client_at kh ka ke i s).socket_table (find_free_id kh ka ke i s).0 ≡ none
  unfolding find_free_id
  find_free_id-free s i ne =
      let c = client_at kh ka ke i s in
      elim (Option-cases (scan_ids kh ka ke c.socket_table c.bump_index (2 ^ 32) c.bump_index)) [
        | inl e ↦ absurd (ground (arith, e, ne))
        | inr (id, e) ↦
            rw (e, find_free_id)
              (scan_ids-free c.socket_table c.bump_index (2 ^ 32) c.bump_index id e)
      ]
