-- ===== src/Picoserver/Finding.antt =====
-- What is found in a hash table after it changes.
use global_components.Prelude.{
  ℕ, ◌≡◌, inl, inr, none, some, arith, ◌==◌, if◌then◌else◌, Bool-cases, Option-cases, ◌≢◌, ap,
  false,
}
use global_components.Prelude.Int.{ℤ, pos, negsuc, same_ℤ}
use global_components.Picoserver.Table.{Khash, IsKhash, find, erase}

-- Two integers that differ are told apart.
pub same_ℤ-ne : (a b : ℤ) → a ≢ b → same_ℤ a b ≡ false
same_ℤ-ne (pos n) (pos m) ne = elim (Bool-cases (n == m)) [
  | inl e ↦ let one : n ≡ m = ground arith in absurd (ne (ap pos one))
  | inr e ↦ ground arith
]
same_ℤ-ne (pos n) (negsuc m) ne = ground arith
same_ℤ-ne (negsuc n) (pos m) ne = ground arith
same_ℤ-ne (negsuc n) (negsuc m) ne = elim (Bool-cases (n == m)) [
  | inl e ↦ let one : n ≡ m = ground arith in absurd (ne (ap negsuc one))
  | inr e ↦ ground arith
]

module _ {H V : Type 0} (kh : Khash H V) where
  pub get-find : (t : H) (key : ℕ) → find kh t key ≡ none → kh.kh_get t key ≡ none
  unfolding find
  get-find t key e = elim (Option-cases (kh.kh_get t key)) [
    | inl g ↦ g
    | inr (it, g) ↦ absurd (ground arith)
  ]

  pub find-get : (t : H) (key it : ℕ) → kh.kh_get t key ≡ some it → find kh t key ≢ none
  unfolding find
  find-get t key it g e = absurd (ground (arith, g, e))

  pub taken_iterator :
      (t : H) (key : ℕ) → find kh t key ≢ none → (it : ℕ) × (kh.kh_get t key ≡ some it)
  unfolding find
  taken_iterator t key ne = elim (Option-cases (kh.kh_get t key)) [
    | inl g ↦ absurd (ne (ground arith))
    | inr (it, g) ↦ (it, g)
  ]

  -- The iterator of a key that is there.
  pub iterator :
      (t : H) (key : ℕ) (v : V)
      → find kh t key ≡ some v
      → (it : ℕ) × (kh.kh_get t key ≡ some it) × (kh.kh_val t it ≡ v)
  unfolding find
  iterator t key v e = elim (Option-cases (kh.kh_get t key)) [
    | inl g ↦ absurd (ground arith)
    | inr (it, g) ↦ (it, g, ground arith)
  ]

  pub find-erase :
      (laws : IsKhash kh) (t : H) (key other : ℕ)
      → find kh (erase kh t key) other ≡ (if key == other then none else find kh t other)
  unfolding erase find
  find-erase laws t key other = elim (Option-cases (kh.kh_get t key)) [
    | inl g ↦ elim (Bool-cases (key == other)) [
      | inl e ↦ let one : key ≡ other = ground arith in ground arith
      | inr e ↦ ground arith
    ]
    | inr (it, g) ↦ ground (arith, laws.find_erase t key it other g)
  ]
