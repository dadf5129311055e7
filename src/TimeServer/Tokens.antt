-- ===== src/TimeServer/Tokens.antt =====
-- components/TimeServer/src/time_server.c: a token names one timer of one client.
use global_components.Prelude.{ℕ, ◌+◌, ◌*◌, ◌/◌, ◌%◌, ◌^◌, ◌<◌, ◌≡◌, ◌∙◌, arith}
use native.Mathlib.Nat.{
  mod-eq_of_lt, mul-add-div_right, div-eq_of_lt, mul-add-mod_self_left, add-zero, mul_comm,
}
use global_components.TimeServer.Server.{TimeServer, get_time_token}

-- The token of a client's timer gives back the client and the timer, as long as the tokens fit the
-- 32 bits of an `unsigned int`.
pub get_time_token_lem :
    (tpc cid tid : ℕ)
    → tid < tpc
    → cid * tpc + tid < 2 ^ 32
    → (get_time_token tpc cid tid / tpc ≡ cid) × (get_time_token tpc cid tid % tpc ≡ tid)
unfolding get_time_token
get_time_token_lem tpc cid tid h fits = rw (mod-eq_of_lt fits) (
  mul-add-div_right {m = tpc} (omega arith) cid tid ∙ rw (div-eq_of_lt h) (add-zero cid),
  rw (mul_comm cid tpc) (mul-add-mod_self_left tpc cid tid ∙ mod-eq_of_lt h),
)
