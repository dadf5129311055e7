-- ===== src/Prelude/Memory.antt =====
-- Memory: a byte at each address.
use global_components.Prelude.{ℕ, ◌+◌, ◌-◌, ◌<◌, ◌≡◌, arith, ltb, leb, ◌&&◌, if◌then◌else◌}

-- `memcpy (dst, src, n)`
unfoldable pub memcpy : ℕ → ℕ → ℕ → (ℕ → ℕ) → ℕ → ℕ
memcpy dst src n mem a = if leb dst a && ltb a (dst + n) then mem (src + (a - dst)) else mem a

-- `memset (dst, 0, n)`
unfoldable pub memset : ℕ → ℕ → (ℕ → ℕ) → ℕ → ℕ
memset dst n mem a = if leb dst a && ltb a (dst + n) then 0 else mem a

-- The bytes that are copied.
pub memcpy_lem :
    (dst src n : ℕ) (mem : ℕ → ℕ) (k : ℕ) → k < n → memcpy dst src n mem (dst + k) ≡ mem (src + k)
unfolding memcpy
memcpy_lem dst src n mem k h =
    let e : src + (dst + k - dst) ≡ src + k = omega arith in rw (e) (ground arith)

-- The bytes below those that are written.
pub memcpy_below : (dst src n : ℕ) (mem : ℕ → ℕ) (a : ℕ) → a < dst → memcpy dst src n mem a ≡ mem a
unfolding memcpy
memcpy_below dst src n mem a h = ground arith
