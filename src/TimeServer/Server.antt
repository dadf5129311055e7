-- ===== src/TimeServer/Server.antt =====
-- components/TimeServer/src/time_server.c: the state and the calls. The lock makes each one step.
use global_components.Prelude.{
  ℕ, ◌+◌, ◌*◌, ◌/◌, ◌%◌, ◌^◌, Bool, true, false, Option, none, some, List, [], ◌∷◌, ltb, ◌==◌,
  if◌then◌else◌, get_or, set, replicate, ◌-◌,
}
use global_components.Prelude.Int.{ℤ, pos, negsuc}

-- The time manager over its own state `T`; `etime` is the value of ETIME. `update` gives the tokens
-- of the callbacks that it makes, in their order.
pub record TimeManager (T : Type 0) : Type 0 where
  pub etime : ℕ
  pub register_rel : T → ℕ → ℕ → ℕ × T
  pub register_abs : T → ℕ → ℕ → ℕ × T
  pub register_periodic : T → ℕ → ℕ → ℕ × T
  pub deregister : T → ℕ → ℕ × T
  pub update : T → ℕ × List ℕ × T
  pub ltimer_get_time : T → ℕ

-- `client_state` holds the 32 bits of each client's word, the lowest first, so that `|= BIT(tid)`
-- loses a bit beyond them. `emitted` is the badges that `the_timer_emit` was called with, the newest
-- first.
pub record TimeServer (T : Type 0) : Type 0 where
  pub client_state : List (List Bool)
  pub time_manager : T
  pub emitted : List ℕ

abbrev pub no_bits : List Bool
no_bits = replicate 32 false

-- The bits of client `cid`; outside the array there are none.
abbrev pub bits_at : {T : Type 0} → TimeServer T → ℕ → List Bool
bits_at s cid = get_or s.client_state cid []

-- `unsigned int` arithmetic
unfoldable pub get_time_token : ℕ → ℕ → ℕ → ℕ
get_time_token timers_per_client cid tid = (cid * timers_per_client + tid) % 2 ^ 32

unfoldable pub signal_timer : {T : Type 0} → ℕ → ℕ → TimeServer T → TimeServer T
signal_timer cid tid s = record s {
  client_state = set s.client_state cid (set (bits_at s cid) tid true);
  emitted = (cid + 1) ∷ s.emitted;
}

module _ {T : Type 0} (timers_per_client : ℕ) where
  -- `(int) token` is negative from 2 ^ 31, and then indexes outside the array: here it does nothing.
  unfoldable pub signal_client : ℕ → TimeServer T → TimeServer T
  signal_client token s =
      if ltb token (2 ^ 31)
      then signal_timer (token / timers_per_client) (token % timers_per_client) s
      else s

  unfoldable pub signal_clients : List ℕ → TimeServer T → TimeServer T
  signal_clients [] s = s
  signal_clients (token ∷ tokens) s = signal_clients tokens (signal_client token s)

-- The word that `_completed` returns, and the state with it cleared.
unfoldable pub completed : {T : Type 0} → ℕ → TimeServer T → List Bool × TimeServer T
completed cid s = (bits_at s cid, record s { client_state = set s.client_state cid no_bits })

module _ {T : Type 0} (tm : TimeManager T) (timers_per_client : ℕ) where
  -- `none` is a fatal error of the time manager.
  unfoldable pub ltimer_handle : TimeServer T → Option (TimeServer T)
  ltimer_handle s =
      let (error, tokens, t) = tm.update s.time_manager in
      if error == 0
      then some (signal_clients timers_per_client tokens (record s { time_manager = t }))
      else none

  -- The check of `tid`: the number of the timer, if there is one.
  unfoldable pub valid_tid : ℤ → Option ℕ
  valid_tid (pos n) = if ltb n timers_per_client then some n else none
  valid_tid (negsuc n) = none

  -- What a call of the time manager leaves; `none` is a fatal error.
  unfoldable pub registered : ℕ × T → TimeServer T → Option (ℤ × TimeServer T)
  registered (error, t) s = if error == 0 then some (pos 0, record s { time_manager = t }) else none

  unfoldable pub oneshot_relative : ℕ → ℤ → ℕ → TimeServer T → Option (ℤ × TimeServer T)
  oneshot_relative cid tid ns s = elim (valid_tid tid) [
    | none ↦ some (negsuc 0, s)
    | some n ↦
        registered (tm.register_rel s.time_manager ns (get_time_token timers_per_client cid n)) s
  ]

  -- A time that is past is signalled at once.
  unfoldable pub registered_abs : ℕ → ℕ × T → TimeServer T → Option (ℤ × TimeServer T)
  registered_abs token (error, t) s =
      if error == tm.etime
      then some (pos 0, signal_client timers_per_client token (record s { time_manager = t }))
      else registered (error, t) s

  unfoldable pub oneshot_absolute : ℕ → ℤ → ℕ → TimeServer T → Option (ℤ × TimeServer T)
  oneshot_absolute cid tid ns s = elim (valid_tid tid) [
    | none ↦ some (negsuc 0, s)
    | some n ↦
        let token = get_time_token timers_per_client cid n in
        registered_abs token (tm.register_abs s.time_manager ns token) s
  ]

  unfoldable pub periodic : ℕ → ℤ → ℕ → TimeServer T → Option (ℤ × TimeServer T)
  periodic cid tid ns s = elim (valid_tid tid) [
    | none ↦ some (negsuc 0, s)
    | some n ↦
        registered (tm.register_periodic s.time_manager ns (get_time_token timers_per_client cid n))
          s
  ]

  unfoldable pub stop : ℕ → ℤ → TimeServer T → Option (ℤ × TimeServer T)
  stop cid tid s = elim (valid_tid tid) [
    | none ↦ some (negsuc 0, s)
    | some n ↦ registered (tm.deregister s.time_manager (get_time_token timers_per_client cid n)) s
  ]

  unfoldable pub time : TimeServer T → ℕ
  time s = tm.ltimer_get_time s.time_manager

  -- The calls of the interface. Badges count from 1.
  unfoldable pub the_timer_oneshot_relative : ℕ → ℤ → ℕ → TimeServer T → Option (ℤ × TimeServer T)
  the_timer_oneshot_relative badge id ns s = oneshot_relative (badge - 1) id ns s

  unfoldable pub the_timer_oneshot_absolute : ℕ → ℤ → ℕ → TimeServer T → Option (ℤ × TimeServer T)
  the_timer_oneshot_absolute badge id ns s = oneshot_absolute (badge - 1) id ns s

  unfoldable pub the_timer_periodic : ℕ → ℤ → ℕ → TimeServer T → Option (ℤ × TimeServer T)
  the_timer_periodic badge id ns s = periodic (badge - 1) id ns s

  unfoldable pub the_timer_stop : ℕ → ℤ → TimeServer T → Option (ℤ × TimeServer T)
  the_timer_stop badge id s = stop (badge - 1) id s

unfoldable pub the_timer_completed : {T : Type 0} → ℕ → TimeServer T → List Bool × TimeServer T
the_timer_completed badge s = completed (badge - 1) s

-- What `post_init` leaves of the client's words.
unfoldable pub new_client_state : ℕ → List (List Bool)
new_client_state largest_badge = replicate largest_badge no_bits
