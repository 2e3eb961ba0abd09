-- ===== src/Discovery/Timing.antt =====
-- How long the thread of a discovery object waits for a datagram, and that it does nothing before
-- its times come.
use rf_trans_v.Base.{◌≡◌, ℕ, ◌+◌, ◌-◌, ◌*◌, ◌/◌, ◌^◌, ◌<◌, min, none, [], arith}
use rf_trans_v.Info.Class.{Pub}
use rf_trans_v.Discovery.{Discovery}
use rf_trans_v.Discovery.Loop.{
  ms, max_timeout, clip_int, timeout_at, next_timeout, update_heartbeat, update_activity, round,
}

timeout_at-eq :
    (next now : ℕ)
    → next < now + 2 ^ 31 * ms
    → now < next + 2 ^ 31 * ms
    → timeout_at next now ≡ min ((next - now) / ms) max_timeout
unfolding timeout_at clip_int
timeout_at-eq next now h k = ground arith

module _ {C P : Type 0} where
  -- While the nearer of the two times is within 2 ^ 31 milliseconds of now, the poll waits for the
  -- whole milliseconds that are left until then, at most 250, and not at all once it has passed.
  pub next_timeout-eq :
      (now : ℕ) (d : Discovery C P)
      → min d.time_next_activity d.time_next_heartbeat < now + 2 ^ 31 * ms
      → now < min d.time_next_activity d.time_next_heartbeat + 2 ^ 31 * ms
      → next_timeout now d
        ≡ min ((min d.time_next_activity d.time_next_heartbeat - now) / ms) max_timeout
  unfolding next_timeout
  next_timeout-eq now d h k = timeout_at-eq (min d.time_next_activity d.time_next_heartbeat) now h k

module _ {C P : Type 0} ⦃e : Pub P⦄ where
  -- A round in which no datagram came, before both times, changes nothing and sends nothing.
  pub round_idle :
      (t0 t1 t2 t3 t4 : ℕ) (d : Discovery C P)
      → t1 < d.time_next_heartbeat
      → t3 < d.time_next_activity
      → round t0 t1 t2 t3 t4 none d ≡ (d, [])
  unfolding round update_heartbeat update_activity
  round_idle t0 t1 t2 t3 t4 d h k = ground (arith, h, k)
