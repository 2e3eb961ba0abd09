-- ===== src/Discovery/Loop.antt =====
-- The thread of include/trans/details/discovery.hpp that receives messages and keeps the times:
-- `start`, `stop`, `nextTimeout`, `updateHeartbeat`, `updateActivity` and one round of `loop`.
use rf_trans_v.Base.{
  ℕ, ◌+◌, ◌-◌, ◌*◌, ◌/◌, ◌%◌, ◌^◌, min, String, Bool, true, false, Option, none, some, List, [],
  ◌∷◌, ◌++◌, ltb, if◌then◌else◌,
}
use rf_trans_v.Map.{Map}
use rf_trans_v.Options.{Scope, scope_eq}
use rf_trans_v.Wire.{Msg, MsgType}
use rf_trans_v.Info.Class.{Pub, scope_of, set_process}
use rf_trans_v.TopicStorage.{TopicStorage, get_publishers_by_proc, del_publishers_by_proc}
use rf_trans_v.Discovery.{Discovery, Event, called, own_info, send_info, send_msg}
use rf_trans_v.Discovery.Handlers.{dispatch_discovery_msg}

-- nanoseconds in a millisecond
abbrev pub ms : ℕ
ms = 1000000

-- kTimeout, in milliseconds
abbrev pub max_timeout : ℕ
max_timeout = 250

-- `static_cast<int>` of a difference of times in milliseconds, where it is not negative: a value
-- from 2 ^ 31 on is a negative `int`, and the result is 0
unfoldable pub clip_int : ℕ → ℕ
clip_int word = if ltb word (2 ^ 31) then min word max_timeout else 0

-- `nextTimeout`: the nearer of the two times, less `now`; a time that has passed gives a negative
-- difference, which the cast takes modulo 2 ^ 32 as well
unfoldable pub timeout_at : ℕ → ℕ → ℕ
unfolding clip_int
timeout_at next now =
    if ltb next now
    then clip_int ((2 ^ 32 - (now - next) / ms % 2 ^ 32) % 2 ^ 32)
    else clip_int ((next - now) / ms % 2 ^ 32)

-- whether a process has been silent for longer than the interval
abbrev pub expired : ℕ → ℕ → ℕ → Bool
expired silence now seen = ltb silence ((now - seen) / ms)

module _ {P : Type 0} where
  -- the loop of `updateActivity`: the processes left, the storage, and the expired processes
  unfoldable pub expire : ℕ → ℕ → Map ℕ → TopicStorage P → Map ℕ × TopicStorage P × List String
  unfolding del_publishers_by_proc
  expire silence now [] s = ([], s, [])
  expire silence now ((uuid, seen) ∷ m) s =
      let gone = expired silence now seen in
      let after = if gone then (del_publishers_by_proc uuid s).0 else s in
      let (left, known, uuids) = expire silence now m after in
      if gone then (left, known, uuid ∷ uuids) else ((uuid, seen) ∷ left, known, uuids)

module _ {C P : Type 0} where
  unfoldable pub next_timeout : ℕ → Discovery C P → ℕ
  unfolding timeout_at
  next_timeout now d = timeout_at (min d.time_next_activity d.time_next_heartbeat) now

  -- the flag that tells whether a thread is made, with the state
  unfoldable pub start : ℕ → Discovery C P → Discovery C P × Bool
  start now d =
      if d.enabled
      then (d, false)
      else (record d { enabled = true; time_next_activity = now; time_next_heartbeat = now }, true)

  unfoldable pub stop : Discovery C P → Discovery C P
  stop d = record d { exit = true; enabled = false }

  -- the destructor, but for the sockets that it closes
  unfoldable pub destroy : Discovery C P → Discovery C P × List (Event C P)
  unfolding stop send_info
  destroy d = let stopped = stop d in (stopped, send_info MsgType.bye (own_info stopped) stopped)

module _ {C P : Type 0} ⦃e : Pub P⦄ where
  -- the inner and the outer loop that advertise again
  abbrev pub resend : Discovery C P → List P → List (Event C P)
  resend d [] = []
  resend d (p ∷ ps) =
      let rest = resend d ps in
      if scope_eq (scope_of p) Scope.process then rest else send_msg MsgType.advertise p d ++ rest

  abbrev pub resend_all : Discovery C P → Map (List P) → List (Event C P)
  resend_all d [] = []
  resend_all d ((node, ps) ∷ nodes) = resend d ps ++ resend_all d nodes

  unfoldable pub update_heartbeat : ℕ → ℕ → Discovery C P → Discovery C P × List (Event C P)
  unfolding send_info send_msg get_publishers_by_proc scope_eq
  update_heartbeat now later d = if ltb now d.time_next_heartbeat then (d, []) else (
    record d { time_next_heartbeat = later + d.heartbeat_interval * ms },
    send_info MsgType.heartbeat (own_info d) d
        ++ resend_all d (get_publishers_by_proc d.process_uuid d.known_publishers),
  )

  abbrev pub disconnect_each : Option C → List String → List (Event C P)
  disconnect_each cb [] = []
  disconnect_each cb (uuid ∷ uuids) =
      called cb (set_process uuid e.fresh) ++ disconnect_each cb uuids

  unfoldable pub update_activity : ℕ → ℕ → Discovery C P → Discovery C P × List (Event C P)
  unfolding expire
  update_activity now later d =
      let (left, known, uuids) =
        expire d.silence_interval now d.last_seen_by_process d.known_publishers in
      if ltb now d.time_next_activity then (d, []) else (
        record d {
          last_seen_by_process = left;
          known_publishers = known;
          time_next_activity = later + d.activity_interval * ms;
        },
        disconnect_each d.disconnection_cb uuids,
      )

  -- The body of `loop`: the poll gave a datagram that is dispatched, or none. The times are those
  -- of the five readings of the clock.
  unfoldable pub round :
      ℕ
      → ℕ
      → ℕ
      → ℕ
      → ℕ
      → Option (String × Option Msg)
      → Discovery C P
      → Discovery C P × List (Event C P)
  unfolding dispatch_discovery_msg update_heartbeat update_activity
  round t0 t1 t2 t3 t4 received d =
      let arrived : Discovery C P × List (Event C P) = elim received [
        | none ↦ (d, [])
        | some (from_ip, parsed) ↦ dispatch_discovery_msg t0 from_ip parsed d
      ] in
      let (d1, out1) = arrived in
      let (d2, out2) = update_heartbeat t1 t2 d1 in
      let (d3, out3) = update_activity t3 t4 d2 in (d3, out1 ++ out2 ++ out3)
