-- ===== src/Prelude/Ring.antt =====
-- A cyclic array as a queue: the entries from an index on, going round at the array's length.
use global_components.Prelude.{
  ℕ, zero, suc, ◌+◌, ◌-◌, ◌%◌, ◌≤◌, ◌<◌, ◌≡◌, refl, ap, ◌∙◌, inl, inr, List, [], ◌∷◌, arith, leb,
  ◌==◌, if◌then◌else◌, Bool-cases, length, get_or, ◌≢◌, ◌↔◌, ◌++◌, set, get_or-set_self,
  get_or-set_ne,
}
use native.Mathlib.Nat.{mod-eq_of_lt, mod-eq-sub-mod}

module _ {ℓ} {A : Type ℓ} (d : A) (cap : ℕ) where
  -- The `n` entries from index `t` on; `d` stands for what lies outside the array.
  abbrev pub window : List A → ℕ → ℕ → List A
  window xs t zero = []
  window xs t (suc n) = get_or xs t d ∷ window xs ((t + 1) % cap) n

  pub length-window : (xs : List A) (t n : ℕ) → length (window xs t n) ≡ n
  length-window xs t zero = refl
  length-window xs t (suc n) = ap suc (length-window xs ((t + 1) % cap) n)

  pub window_of_eq :
      (xs : List A) (t n m : ℕ)
      → n ≡ suc m
      → window xs t n ≡ get_or xs t d ∷ window xs ((t + 1) % cap) m
  window_of_eq xs t n m e = rw e

-- From `t` to `h` it is this far.
abbrev pub distance : ℕ → ℕ → ℕ → ℕ
distance cap t h = (h + cap - t) % cap

round_once : (cap a : ℕ) → cap ≤ a → a < cap + cap → a % cap ≡ a - cap
round_once cap a lo hi =
    mod-eq-sub-mod {n = a} {m = cap} lo ∙ mod-eq_of_lt {n = a - cap} {m = cap} (omega arith)

next_lem :
    (cap t : ℕ)
    → t < cap
    → ((t + 1) % cap ≡ (if t + 1 == cap then 0 else t + 1)) × ((t + 1) % cap < cap)
next_lem cap t h = elim (Bool-cases (t + 1 == cap)) [
  | inl e ↦
      let e' : t + 1 ≡ cap = ground arith in
      let z : cap % cap ≡ 0 = round_once cap cap (omega arith) (omega arith) ∙ omega arith in
      rw e (ground (arith, rw (← e') at z))
  | inr ne ↦ let lt : t + 1 < cap = ground arith in rw (ne, mod-eq_of_lt lt) (refl, lt)
]

distance_lem :
    (cap t h : ℕ) → t < cap → h < cap → distance cap t h ≡ (if leb t h then h - t else h + cap - t)
distance_lem cap t h ht hh = elim (Bool-cases (leb t h)) [
  | inl le ↦ rw le (round_once cap (h + cap - t) (ground arith) (ground arith) ∙ ground arith)
  | inr gt ↦ rw gt (mod-eq_of_lt (ground arith))
]

-- The queue from `t` to `h` is empty exactly if the two indices meet.
pub distance-eq-zero : (cap t h : ℕ) → t < cap → h < cap → (distance cap t h ≡ 0) ↔ (h ≡ t)
distance-eq-zero cap t h ht hh = (
  λ e. ground (arith, distance_lem cap t h ht hh),
  λ e. ground (arith, distance_lem cap t h ht hh),
)

-- One step at the front of a queue that is not empty.
pub distance_front :
    (cap t h : ℕ)
    → t < cap
    → h < cap
    → h ≢ t
    → distance cap t h ≡ suc (distance cap ((t + 1) % cap) h)
distance_front cap t h ht hh ne =
    let (e, lt) = next_lem cap t ht in
    ground (arith, distance_lem cap t h ht hh, distance_lem cap ((t + 1) % cap) h lt hh, e)

-- One step at the back of a queue that is not full.
pub distance_back :
    (cap t h : ℕ)
    → t < cap
    → h < cap
    → (h + 1) % cap ≢ t
    → distance cap t ((h + 1) % cap) ≡ suc (distance cap t h)
distance_back cap t h ht hh ne =
    let (e, lt) = next_lem cap h hh in
    ground (arith, distance_lem cap t h ht hh, distance_lem cap t ((h + 1) % cap) ht lt, e)

module _ {ℓ} {A : Type ℓ} (d : A) (cap : ℕ) where
  window-set_from :
      (xs : List A) (v : A) (n t h : ℕ)
      → cap ≤ length xs
      → t < cap
      → h < cap
      → distance cap t h ≡ n
      → window d cap (set xs h v) t (suc n) ≡ window d cap xs t n ++ v ∷ []
  window-set_from xs v zero t h room ht hh e =
      let here : h ≡ t = (distance-eq-zero cap t h ht hh).0 e in
      rw here (ap (λ f. f ∷ []) (get_or-set_self xs t v d (omega arith)))
  window-set_from xs v (suc n) t h room ht hh e =
      let away : h ≢ t = λ z. omega (arith, (distance-eq-zero cap t h ht hh).1 z) in
      let rest : distance cap ((t + 1) % cap) h ≡ n =
        omega (arith, distance_front cap t h ht hh away) in
      rw (get_or-set_ne xs h t v d away) (
        ap (◌∷◌ (get_or xs t d))
          (window-set_from xs v n ((t + 1) % cap) h room (next_lem cap t ht).1 hh rest))

  -- The entries between the two indices.
  abbrev pub between : List A → ℕ → ℕ → List A
  between xs t h = window d cap xs t (distance cap t h)

  -- A write at the end of a queue that is not full, and a step of its end, put the value behind the
  -- others.
  pub between_push :
      (xs : List A) (v : A) (t h : ℕ)
      → cap ≤ length xs
      → t < cap
      → h < cap
      → (h + 1) % cap ≢ t
      → between (set xs h v) t ((h + 1) % cap) ≡ between xs t h ++ v ∷ []
  between_push xs v t h room ht hh ne =
      rw (distance_back cap t h ht hh ne)
        (window-set_from xs v (distance cap t h) t h room ht hh refl)

  -- A step of its front takes the first entry from a queue that is not empty.
  pub between_pop :
      (xs : List A) (t h : ℕ)
      → t < cap
      → h < cap
      → h ≢ t
      → between xs t h ≡ get_or xs t d ∷ between xs ((t + 1) % cap) h
  between_pop xs t h ht hh ne =
      window_of_eq d cap xs t (distance cap t h) _ (distance_front cap t h ht hh ne)

  pub length-between : (xs : List A) (t h : ℕ) → length (between xs t h) ≡ distance cap t h
  length-between xs t h = length-window d cap xs t (distance cap t h)
