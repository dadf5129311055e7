-- ===== src/Picoserver/Table.antt =====
-- The hash tables of remote-drivers/picotcp-socket-sync/server/khash.h, as picoserver_client.c uses
-- them.
use global_components.Prelude.{ℕ, ◌≡◌, ◌≢◌, Option, none, some, ◌==◌, if◌then◌else◌}
use global_components.Prelude.Int.{ℤ, pos, negsuc}

-- A table `H` from keys to values `V`. An iterator is a number, and `kh_get` gives none for `kh_end`.
-- `kh_put` gives the iterator and `ret`; `kh_set` assigns to `kh_val`. `kh_first` is the first bucket
-- from `kh_begin` on for which `kh_exist` holds.
pub record Khash (H V : Type 0) : Type 0 where
  pub kh_init : H
  pub kh_size : H → ℕ
  pub kh_get : H → ℕ → Option ℕ
  pub kh_val : H → ℕ → V
  pub kh_key : H → ℕ → ℕ
  pub kh_set : H → ℕ → V → H
  pub kh_put : H → ℕ → ℕ × ℤ × H
  pub kh_del : H → ℕ → H
  pub kh_first : H → Option ℕ

-- What is stored under a key.
unfoldable pub find : {H V : Type 0} → Khash H V → H → ℕ → Option V
find kh t key = elim (kh.kh_get t key) [ none ↦ none | some it ↦ some (kh.kh_val t it) ]

-- Deletes what is stored under a key, if anything is.
unfoldable pub erase : {H V : Type 0} → Khash H V → H → ℕ → H
erase kh t key = elim (kh.kh_get t key) [ none ↦ t | some it ↦ kh.kh_del t it ]

-- What the header documents: deletion by the iterator of a key removes that key, and only it; the
-- first bucket in use has a key that is in the table; insertion of a key gives its iterator, through
-- which it gets its value, and changes no other key, unless it fails with -1; 0 says that the key
-- was there.
pub record IsKhash {H V : Type 0} (kh : Khash H V) : Type 0 where
  pub find_erase :
      (t : H) (key it other : ℕ)
      → kh.kh_get t key ≡ some it
      → find kh (kh.kh_del t it) other ≡ (if key == other then none else find kh t other)
  pub get_first :
      (t : H) (it : ℕ) → kh.kh_first t ≡ some it → kh.kh_get t (kh.kh_key t it) ≡ some it
  pub find_put :
      (t : H) (key other : ℕ) (v : V)
      → let (it, ret, t') = kh.kh_put t key in
        ret ≢ negsuc 0
        → find kh (kh.kh_set t' it v) other ≡ (if key == other then some v else find kh t other)
  pub get_put :
      (t : H) (key : ℕ)
      → let (it, ret, t') = kh.kh_put t key in ret ≢ negsuc 0 → kh.kh_get t' key ≡ some it
  pub put_new : (t : H) (key : ℕ) → find kh t key ≡ none → (kh.kh_put t key).1 ≢ pos 0
