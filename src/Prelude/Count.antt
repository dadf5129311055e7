-- ===== src/Prelude/Count.antt =====
-- How often a number stands in a list: the multiset view that conservation laws are stated by.
use Prim.Native.Nat.{ℕ, suc, ◌+◌, ◌<◌}
use mathlib.Core.Path.{◌≡◌, refl}
use mathlib.Core.List.{List, [], ◌∷◌, ◌++◌}
use native.Mathlib.Omega.{arith}
use global_components.Prelude.Tests.{◌==◌, if◌then◌else◌}
use global_components.Prelude.Lists.{take, length, get_or, set, take-suc, take-suc-set}

unfoldable pub count : ℕ → List ℕ → ℕ
count a [] = 0
count a (x ∷ xs) = (if x == a then 1 else 0) + count a xs

-- 1 if the two numbers are equal, else 0.
abbrev pub one_if : ℕ → ℕ → ℕ
one_if x a = if x == a then 1 else 0

pub count-cons : (a x : ℕ) (xs : List ℕ) → count a (x ∷ xs) ≡ one_if x a + count a xs
unfolding count
count-cons a x xs = refl

pub count-append : (a : ℕ) (xs ys : List ℕ) → count a (xs ++ ys) ≡ count a xs + count a ys
unfolding count
count-append a [] ys = omega arith
count-append a (x ∷ xs) ys = omega (arith, count-append a xs ys)

pub count-snoc : (a x : ℕ) (xs : List ℕ) → count a (xs ++ x ∷ []) ≡ count a xs + one_if x a
unfolding count
count-snoc a x [] = omega arith
count-snoc a x (y ∷ xs) = omega (arith, count-snoc a x xs)

-- A stack in an array: a push at index `n`, and what the top entry adds.
pub count-take_push :
    (a n v : ℕ) (xs : List ℕ)
    → n < length xs
    → count a (take (n + 1) (set xs n v)) ≡ count a (take n xs) + one_if v a
count-take_push a n v xs h =
    let e : n + 1 ≡ suc n = omega arith in
    rw (e, take-suc-set xs n v h) (count-snoc a v (take n xs))

pub count-take_top :
    (a n d : ℕ) (xs : List ℕ)
    → n < length xs
    → count a (take (n + 1) xs) ≡ count a (take n xs) + one_if (get_or xs n d) a
count-take_top a n d xs h =
    let e : n + 1 ≡ suc n = omega arith in
    rw (e, take-suc xs n d h) (count-snoc a (get_or xs n d) (take n xs))
