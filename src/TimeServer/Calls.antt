-- ===== src/TimeServer/Calls.antt =====
-- components/TimeServer/src/time_server.c: what the calls that set a timer do on each branch.
use global_components.Prelude.{
  ℕ, ◌+◌, ◌*◌, ◌^◌, ◌≤◌, ◌<◌, ◌≡◌, true, some, ◌∷◌, arith, length, refl,
}
use global_components.Prelude.Int.{pos, negsuc}
use global_components.TimeServer.Server.{
  TimeManager, TimeServer, get_time_token, signal_client, registered_abs, valid_tid,
  oneshot_absolute, signal_timer,
}
use global_components.TimeServer.Tokens.{get_time_token_lem}
use global_components.TimeServer.Completion.{AreWords, bit, bit-signal_client}

-- A timer that is set to a time in the past goes off at once: the call succeeds, the client is
-- signalled, and its timer is among those that have completed. A timer that does not exist, with a
-- negative number or one from `timers_per_client` on, is refused and nothing changes. The timers are among the 32 of a word, and the tokens fit an `int`.
pub oneshot_absolute_past :
    {T : Type 0} (tm : TimeManager T) (tpc cid tid other neg ns : ℕ) (s : TimeServer T)
    → tid < tpc
    → tid < 32
    → cid * tpc + tid < 2 ^ 31
    → tpc ≤ other
    → AreWords s.client_state
    → cid < length s.client_state
    → (tm.register_abs s.time_manager ns (get_time_token tpc cid tid)).0 ≡ tm.etime
    → ((t : TimeServer T) × (oneshot_absolute tm tpc cid (pos tid) ns s ≡ some (pos 0, t))
        × (bit t cid tid ≡ true)
        × (t.emitted ≡ (cid + 1) ∷ s.emitted))
      × (oneshot_absolute tm tpc cid (pos other) ns s ≡ some (negsuc 0, s))
      × (oneshot_absolute tm tpc cid (negsuc neg) ns s ≡ some (negsuc 0, s))
unfolding oneshot_absolute valid_tid registered_abs signal_client signal_timer get_time_token
oneshot_absolute_past tm tpc cid tid other neg ns s ht h32 fits ho words hc past =
    let token = get_time_token tpc cid tid in
    let (ec, et) = get_time_token_lem tpc cid tid ht (omega arith) in
    let s' = record s { time_manager = (tm.register_abs s.time_manager ns token).1 } in
    let set' = bit-signal_client tpc token s' cid tid words hc h32 in
    (
      (signal_client tpc token s', ground arith, ground (arith, set'), ground (arith, ec)),
      ground arith,
      refl,
    )
