-- ===== src/Discovery/System.antt =====
-- Any sequence of calls, datagrams and clock ticks, and what they leave of the publishers of the
-- process itself.
use rf_trans_v.Base.{
  ◌≡◌, ◌≢◌, ℕ, String, Bool, true, false, ◌&&◌, Option, none, List, [], ◌∷◌, ◌++◌, str_eq,
  if◌then◌else◌, remove_if,
}
use rf_trans_v.Map.{find}
use rf_trans_v.Map.Order.{IsSorted}
use rf_trans_v.Wire.{Msg}
use rf_trans_v.Info.Message.{MessagePublisherInfo}
use rf_trans_v.Info.Class.{Pub, topic_of, process_of}
use rf_trans_v.TopicStorage.{at_node}
use rf_trans_v.TopicStorage.Stored.{stored, with_publisher}
use rf_trans_v.TopicStorage.Valid.{IsValid}
use rf_trans_v.Discovery.{
  Discovery, Event, advertise, unadvertise, discover, register_node, unregister_node,
}
use rf_trans_v.Discovery.Handlers.{dispatch_discovery_msg}
use rf_trans_v.Discovery.Loop.{start, stop, update_heartbeat, update_activity}
use rf_trans_v.Discovery.Settings.{
  set_activity_interval, set_heartbeat_interval, set_silence_interval, set_connection_cb,
  set_disconnection_cb, set_registration_cb, set_unregistration_cb,
}

-- What may happen to the object: calls of its methods, a datagram, and the two clocks.
pub data Op (C P : Type 0) : Type 0 where
  advertising : P → Op C P
  unadvertising : String → String → Op C P
  discovering : String → Op C P
  registering : MessagePublisherInfo → Op C P
  unregistering : MessagePublisherInfo → Op C P
  starting : ℕ → Op C P
  stopping : Op C P
  receiving : ℕ → String → Option Msg → Op C P
  heart_ticking : ℕ → ℕ → Op C P
  activity_ticking : ℕ → ℕ → Op C P
  -- by a setter of an interval or a callback
  setting_intervals : ℕ → ℕ → ℕ → Op C P
  setting_callbacks : Option C → Option C → Option C → Option C → Op C P

module _ {C P : Type 0} ⦃e : Pub P⦄ where
  unfoldable pub step : Op C P → Discovery C P → Discovery C P × List (Event C P)
  unfolding advertise unadvertise discover register_node unregister_node start stop
      dispatch_discovery_msg update_heartbeat update_activity
  step (advertising p) d = let (d1, ok, out) = advertise p d in (d1, out)
  step (unadvertising topic node) d = let (d1, ok, out) = unadvertise topic node d in (d1, out)
  step (discovering topic) d = (d, (discover topic d).1)
  step (registering p) d = (d, register_node p d)
  step (unregistering p) d = (d, unregister_node p d)
  step (starting now) d = ((start now d).0, [])
  step stopping d = (stop d, [])
  step (receiving now from_ip parsed) d = dispatch_discovery_msg now from_ip parsed d
  step (heart_ticking now later) d = update_heartbeat now later d
  step (activity_ticking now later) d = update_activity now later d
  step (setting_intervals a h s) d =
      (set_activity_interval a (set_heartbeat_interval h (set_silence_interval s d)), [])
  step (setting_callbacks a b c f) d = (
    set_connection_cb a
        (set_disconnection_cb b (set_registration_cb c (set_unregistration_cb f d))),
    [],
  )

  unfoldable pub run : List (Op C P) → Discovery C P → Discovery C P × List (Event C P)
  unfolding step
  run [] d = (d, [])
  run (op ∷ ops) d = let (d1, out1) = step op d in let (d2, out2) = run ops d1 in (d2, out1 ++ out2)

  -- What the process advertises is its own.
  abbrev pub Local : String → Op C P → Type 0
  Local uuid (advertising p) = process_of p ≡ uuid
  Local uuid _ = Unit

  -- The publishers of the process by topic, with whether calls are let through: what the calls of
  -- the process alone make of them.
  abbrev pub own_step : Op C P → Bool × (String → List P) → Bool × (String → List P)
  own_step (advertising p) (on, f) =
      (on, λ t. if on && str_eq (topic_of p) t then with_publisher p (f t) else f t)
  own_step (unadvertising topic node) (on, f) =
      (on, λ t. if on && str_eq topic t then remove_if (at_node node) (f t) else f t)
  own_step (starting now) (on, f) = (true, f)
  own_step stopping (on, f) = (false, f)
  own_step _ (on, f) = (on, f)

  unfoldable pub own_run : List (Op C P) → Bool × (String → List P) → Bool × (String → List P)
  own_run [] f = f
  own_run (op ∷ ops) f = own_run ops (own_step op f)

  -- The state of a process with a uuid.
  pub record IsWell (uuid : String) (d : Discovery C P) : Type 0 where
    pub named : d.process_uuid ≡ uuid
    pub nonempty : uuid ≢ ""
    pub valid : IsValid d.known_publishers
    pub sorted : IsSorted d.last_seen_by_process
    -- the process is not among those that may fall silent
    pub untracked : find uuid d.last_seen_by_process ≡ none

  -- what is known of the process itself
  abbrev pub own_view : Discovery C P → Bool × (String → List P)
  own_view d = (d.enabled, λ t. stored t d.process_uuid d.known_publishers)
