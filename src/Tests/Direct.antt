-- ===== src/Tests/Direct.antt =====
-- Arrays as hash tables.
use global_components.Prelude.{
  ℕ, zero, suc, ◌+◌, ◌≡◌, refl, inl, inr, Option, none, some, arith, ◌==◌, if◌then◌else◌,
  Option-cases, sym, ap, ◌∙◌, ◌≢◌,
}
use global_components.Prelude.Int.{ℤ, pos, negsuc}
use global_components.Picoserver.Table.{Khash, IsKhash, find}

-- An array of the values of all keys, whose iterators are the keys. Its first bucket is looked for
-- among the first `n`.
unfoldable pub first_of : {V : Type 0} → (ℕ → Option V) → ℕ → ℕ → Option ℕ
first_of t zero k = none
first_of t (suc n) k =
    let rest = first_of t n (k + 1) in elim (t k) [ none ↦ rest | some v ↦ some k ]

unfoldable pub count_of : {V : Type 0} → (ℕ → Option V) → ℕ → ℕ → ℕ
count_of t zero k = 0
count_of t (suc n) k =
    let rest = count_of t n (k + 1) in elim (t k) [ none ↦ rest | some v ↦ rest + 1 ]

abbrev pub value_or : {V : Type 0} → V → Option V → V
value_or v none = v
value_or v (some w) = w

abbrev pub key_if : {V : Type 0} → ℕ → Option V → Option ℕ
key_if k none = none
key_if k (some v) = some k

abbrev pub put_ret : {V : Type 0} → Option V → ℤ
put_ret none = pos 1
put_ret (some v) = pos 0

abbrev pub store : {V : Type 0} → (ℕ → Option V) → ℕ → Option V → ℕ → Option V
store t key v k = if key == k then v else t k

abbrev pub direct : {V : Type 0} → V → Khash (ℕ → Option V) V
direct v = record {
  kh_init = λ k. none;
  kh_size = λ t. count_of t 8 0;
  kh_get = λ t key. key_if key (t key);
  kh_val = λ t it. value_or v (t it);
  kh_key = λ t it. it;
  kh_set = λ t it w. store t it (some w);
  kh_put = λ t key. (key, put_ret (t key), store t key (some (value_or v (t key))));
  kh_del = λ t it. store t it none;
  kh_first = λ t. first_of t 8 0;
}

pub find-direct : {V : Type 0} (v : V) (t : ℕ → Option V) (key : ℕ) → find (direct v) t key ≡ t key
unfolding find
find-direct v t key = elim (Option-cases (t key)) [
  | inl e ↦ rw (e, find) refl
  | inr (w, e) ↦ rw (e, find) (ap (λ o. some (value_or v o)) e)
]

get_first_of :
    {V : Type 0} (t : ℕ → Option V) (n k it : ℕ)
    → first_of t n k ≡ some it
    → key_if it (t it) ≡ some it
unfolding first_of
get_first_of t zero k it e = absurd (ground arith)
get_first_of t (suc n) k it e = elim (Option-cases (t k)) [
  | inl g ↦ get_first_of t n (k + 1) it (ground (arith, g, e))
  | inr (w, g) ↦ ground (arith, g, e)
]

key_if-eq : {V : Type 0} (k it : ℕ) (o : Option V) → key_if k o ≡ some it → it ≡ k
key_if-eq k it none e = absurd (ground arith)
key_if-eq k it (some v) e = ground arith

key_if-some : {V : Type 0} (k : ℕ) (v : V) → key_if k (some v) ≡ some k
key_if-some k v = refl

put_ret-none : {V : Type 0} (o : Option V) → o ≡ none → put_ret o ≢ pos 0
put_ret-none none e = ground arith
put_ret-none (some v) e = absurd (ground arith)

pub direct-IsKhash : {V : Type 0} (v : V) → IsKhash (direct v)
direct-IsKhash v = record {
  find_erase = λ t key it other g.
      let same = key_if-eq key it (t key) g in
      find-direct v (store t it none) other
      ∙ rw same (ap (λ o. if key == other then none else o) (sym (find-direct v t other)));
  get_first = λ t it e. get_first_of t 8 0 it e;
  find_put = λ t key other w ne.
      find-direct v (store (store t key (some (value_or v (t key)))) key (some w)) other
      ∙ ground (arith, find-direct v t other);
  get_put = λ t key ne. ground (arith, key_if-some key (value_or v (t key)));
  put_new = λ t key e. put_ret-none (t key) (sym (find-direct v t key) ∙ e);
}

pub put_ret-ok : {V : Type 0} (o : Option V) → put_ret o ≢ negsuc 0
put_ret-ok none e = absurd (ground arith)
put_ret-ok (some v) e = absurd (ground arith)
