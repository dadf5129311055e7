-- ===== src/SerialServer/Storing.antt =====
-- components/SerialServer/src/serial.c: where the byte lands that `internal_putchar` stores.
use global_components.Prelude.{
  ℕ, suc, ◌+◌, ◌-◌, ◌*◌, ◌≤◌, ◌<◌, ◌≡◌, refl, ap, ap₂, ◌≢◌, inl, inr, List, [], ◌∷◌, arith, leb,
  ◌==◌, Bool-cases, length, get_or, set_of_length-le, zero, if◌then◌else◌, set,
}
use global_components.SerialServer.State.{Serial, buffer_at}
use global_components.SerialServer.Putchar.{store_byte}

pub length-store_byte : (i p v : ℕ) (bs : List (List ℕ)) → length (store_byte i p v bs) ≡ length bs
unfolding store_byte
length-store_byte i p v [] = refl
length-store_byte i p v (line ∷ lines) = ap suc (length-store_byte (i + 1) p v lines)

-- No byte in use lies at place `p` of the streams from `i` on.
IsFree : ℕ → ℕ → List (List ℕ) → Type 0
IsFree i p bs = (k : ℕ) → (i + k) * 4096 ≤ p → (i + k) * 4096 + length (get_or bs k []) ≤ p

store_byte_of_IsFree : (i p v : ℕ) (bs : List (List ℕ)) → IsFree i p bs → store_byte i p v bs ≡ bs
unfolding store_byte IsFree
store_byte_of_IsFree i p v [] h = refl
store_byte_of_IsFree i p v (line ∷ lines) h =
    let rest =
      store_byte_of_IsFree (i + 1) p v lines
        (λ k le. let e : i + 1 + k ≡ i + suc k = omega arith in rw e (h (suc k) (rw (← e) le))) in
    let zeroth : (i + 0) * 4096 ≡ i * 4096 = omega arith in
    elim (Bool-cases (leb (i * 4096) p)) [
      | inl le ↦
          let lo : (i + 0) * 4096 ≤ p = ground (arith, zeroth) in
          let here : length line ≤ p - i * 4096 = omega (arith, h 0 lo, zeroth) in
          rw le (ap₂ ◌∷◌ (set_of_length-le line (p - i * 4096) v here) rest)
      | inr gt ↦ rw gt (ap (◌∷◌ line) rest)
    ]

-- While no stream has gone past its array, a byte that stays in the array of its stream is in no other.
pub store_byte_fits :
    (b v : ℕ) (s : Serial)
    → ((d : ℕ) → length (buffer_at s d) ≤ 4096)
    → length (buffer_at s b) < 4096
    → store_byte 0 (b * 4096 + length (buffer_at s b)) v s.output_buffers ≡ s.output_buffers
unfolding IsFree
store_byte_fits b v s fit room =
    store_byte_of_IsFree 0 (b * 4096 + length (buffer_at s b)) v s.output_buffers (λ k le.
      elim (Bool-cases (k == b)) [
        | inl e ↦ let one : k ≡ b = ground arith in rw one (omega arith)
        | inr e ↦ let away : k ≢ b = ground arith in omega (arith, fit k)
      ])

pub get_or-store_byte :
    (i p v k : ℕ) (bs : List (List ℕ))
    → get_or (store_byte i p v bs) k [] ≡ (
        if leb ((i + k) * 4096) p
        then set (get_or bs k []) (p - (i + k) * 4096) v
        else get_or bs k [])
unfolding store_byte
get_or-store_byte i p v k [] = ground arith
get_or-store_byte i p v zero (line ∷ lines) = let here : i + 0 ≡ i = omega arith in rw here refl
get_or-store_byte i p v (suc k) (line ∷ lines) =
    let e : i + 1 + k ≡ i + suc k = omega arith in
    let rest = get_or-store_byte (i + 1) p v k lines in rw e at rest
