-- ===== src/Discovery/Kept.antt =====
-- What every step of a discovery object keeps.
use mathlib.Core.Path.{◌∙◌}
use rf_trans_v.Base.{
  ◌≡◌, ◌≢◌, refl, ℕ, String, Bool, false, Option, none, some, arith, str_eq, Bool-cases, inl, inr,
}
use rf_trans_v.Map.{Map, find, assign}
use rf_trans_v.Map.Laws.{find-nil, find-assign, find-erase}
use rf_trans_v.Map.Order.{IsSorted, assign-IsSorted, erase-IsSorted}
use rf_trans_v.Wire.{Msg, MsgType}
use rf_trans_v.Info.Class.{Pub, topic_of, process_of, node_of}
use rf_trans_v.TopicStorage.Valid.{IsValid}
use rf_trans_v.TopicStorage.Keeps.{
  del_publishers_by_node-IsValid, del_publishers_by_proc-IsValid, nil-IsValid,
}
use rf_trans_v.TopicStorage.Adds.{add_publisher-IsValid}
use rf_trans_v.Discovery.{Discovery, advertise, unadvertise, is_local}
use rf_trans_v.Discovery.Handlers.{
  on_advertise, on_unadvertise, on_bye, handle_msg, dispatch_discovery_msg,
}
use rf_trans_v.Discovery.Peers.{told}
use rf_trans_v.Discovery.Loop.{start, stop, update_heartbeat, update_activity}
use rf_trans_v.Discovery.Expiry.{expire-IsValid, expire-find, expire-IsSorted, lapsed}
use rf_trans_v.Discovery.System.{
  Op, advertising, unadvertising, discovering, registering, unregistering, starting, stopping,
  receiving, heart_ticking, activity_ticking, setting_intervals, setting_callbacks, step, own_step,
  IsWell, own_view,
}
use rf_trans_v.Discovery.Settings.{make_discovery}

-- the processes that are tracked: sorted, and without the process itself
abbrev Tracked : String → Map ℕ → Type 0
Tracked uuid m = IsSorted m × (find uuid m ≡ none)

module _ {C P : Type 0} ⦃e : Pub P⦄ where
  -- what a message of a peer keeps
  dispatch-kept :
      (now : ℕ) (from_ip : String) (parsed : Option Msg) (d : Discovery C P)
      → ((dispatch_discovery_msg now from_ip parsed d).0.process_uuid ≡ d.process_uuid)
        × ((dispatch_discovery_msg now from_ip parsed d).0.enabled ≡ d.enabled)
  unfolding dispatch_discovery_msg handle_msg on_advertise on_unadvertise on_bye
  dispatch-kept now from_ip none d = (refl, refl)
  dispatch-kept now from_ip (some m) d = (ground arith, ground arith)

  pub step-kept :
      (op : Op C P) (d : Discovery C P)
      → ((step op d).0.process_uuid ≡ d.process_uuid)
        × ((step op d).0.enabled ≡ (own_step op (own_view d)).0)
  unfolding step start stop update_heartbeat update_activity advertise unadvertise
  step-kept (advertising p) d = (ground arith, ground arith)
  step-kept (unadvertising topic node) d = (ground arith, ground arith)
  step-kept (discovering topic) d = (refl, refl)
  step-kept (registering p) d = (refl, refl)
  step-kept (unregistering p) d = (refl, refl)
  step-kept (starting now) d = (ground arith, ground arith)
  step-kept stopping d = (refl, refl)
  step-kept (receiving now from_ip parsed) d = dispatch-kept now from_ip parsed d
  step-kept (heart_ticking now later) d = (ground arith, ground arith)
  step-kept (activity_ticking now later) d = (ground arith, ground arith)
  step-kept (setting_intervals a h s) d = (refl, refl)
  step-kept (setting_callbacks a b c f) d = (refl, refl)

  advertise-IsValid :
      (near : Bool) (m : Msg) (d : Discovery C P)
      → IsValid d.known_publishers
      → IsValid (on_advertise near m d).0.known_publishers
  unfolding on_advertise
  advertise-IsValid near m d v =
      ground (arith, add_publisher-IsValid (told {P = P} m) d.known_publishers v)

  unadvertise-IsValid :
      (near : Bool) (m : Msg) (d : Discovery C P)
      → IsValid d.known_publishers
      → IsValid (on_unadvertise near m d).0.known_publishers
  unfolding on_unadvertise
  unadvertise-IsValid near m d v =
      let p : P = told m in
      ground (
        arith,
        del_publishers_by_node-IsValid (topic_of p) (process_of p) (node_of p) d.known_publishers v,
      )

  bye-IsValid :
      (m : Msg) (d : Discovery C P)
      → IsValid d.known_publishers
      → IsValid (on_bye m d).0.known_publishers
  unfolding on_bye
  bye-IsValid m d v = del_publishers_by_proc-IsValid m.process_uuid d.known_publishers v

  handle-IsValid :
      (near : Bool) (m : Msg) (d : Discovery C P)
      → IsValid d.known_publishers
      → IsValid (handle_msg near m d).0.known_publishers
  unfolding handle_msg
  handle-IsValid near m d v =
      elim m.msg_type
        as (λ ty. IsValid (handle_msg near (record m { msg_type = ty }) d).0.known_publishers) [
          | MsgType.advertise ↦ advertise-IsValid near _ d v
          | MsgType.unadvertise ↦ unadvertise-IsValid near _ d v
          | MsgType.bye ↦ bye-IsValid (record m { msg_type = MsgType.bye }) d v
          | _ ↦ v
        ]

  step-IsValid :
      (op : Op C P) (d : Discovery C P)
      → IsValid d.known_publishers
      → IsValid (step op d).0.known_publishers
  unfolding step start stop update_heartbeat update_activity advertise unadvertise
      dispatch_discovery_msg
  step-IsValid (advertising p) d v = ground (arith, add_publisher-IsValid p d.known_publishers v)
  step-IsValid (unadvertising topic node) d v =
      ground (arith, del_publishers_by_node-IsValid topic d.process_uuid node d.known_publishers v)
  step-IsValid (discovering topic) d v = v
  step-IsValid (registering p) d v = v
  step-IsValid (unregistering p) d v = v
  step-IsValid (starting now) d v = ground arith
  step-IsValid stopping d v = v
  step-IsValid (receiving now from_ip none) d v = v
  step-IsValid (receiving now from_ip (some m)) d v =
      let seen = record d {
        last_seen_by_process = assign m.process_uuid now d.last_seen_by_process;
      } in
      ground (arith, handle-IsValid (is_local d.host_addr from_ip) m seen v)
  step-IsValid (heart_ticking now later) d v = ground arith
  step-IsValid (activity_ticking now later) d v =
      ground
        (arith, expire-IsValid d.silence_interval now d.last_seen_by_process d.known_publishers v)
  step-IsValid (setting_intervals a h s) d v = v
  step-IsValid (setting_callbacks a b c f) d v = v

  handle-Tracked :
      (near : Bool) (m : Msg) (uuid : String) (d : Discovery C P)
      → Tracked uuid d.last_seen_by_process
      → Tracked uuid (handle_msg near m d).0.last_seen_by_process
  unfolding handle_msg on_advertise on_unadvertise on_bye
  handle-Tracked near m uuid d w = (
    ground (arith, w.0, erase-IsSorted m.process_uuid d.last_seen_by_process w.0),
    ground (arith, w.1, find-erase m.process_uuid uuid d.last_seen_by_process),
  )

  dispatch-Tracked :
      (now : ℕ) (from_ip uuid : String) (parsed : Option Msg) (d : Discovery C P)
      → d.process_uuid ≡ uuid
      → Tracked uuid d.last_seen_by_process
      → Tracked uuid (dispatch_discovery_msg now from_ip parsed d).0.last_seen_by_process
  unfolding dispatch_discovery_msg
  dispatch-Tracked now from_ip uuid none d h w = w
  dispatch-Tracked now from_ip uuid (some m) d h w =
      let m1 = assign m.process_uuid now d.last_seen_by_process in
      let seen = record d { last_seen_by_process = m1 } in
      let other : str_eq m.process_uuid d.process_uuid ≡ false → find uuid m1 ≡ none = λ o.
        ground (arith, h, o, w.1, find-assign m.process_uuid uuid now d.last_seen_by_process) in
      let after : str_eq m.process_uuid d.process_uuid ≡ false
          → Tracked uuid (handle_msg (is_local d.host_addr from_ip) m seen).0.last_seen_by_process =
        λ o.
          handle-Tracked (is_local d.host_addr from_ip) m uuid seen
            (assign-IsSorted m.process_uuid now d.last_seen_by_process w.0, other o) in
      elim (Bool-cases (str_eq m.process_uuid d.process_uuid)) [
        | inl o ↦ rw o w
        | inr o ↦ rw o (after o)
      ]

  step-Tracked :
      (op : Op C P) (uuid : String) (d : Discovery C P)
      → d.process_uuid ≡ uuid
      → Tracked uuid d.last_seen_by_process
      → Tracked uuid (step op d).0.last_seen_by_process
  unfolding step start stop update_heartbeat update_activity advertise unadvertise lapsed
  step-Tracked (advertising p) uuid d h w = ground (arith, w)
  step-Tracked (unadvertising topic node) uuid d h w = ground (arith, w)
  step-Tracked (discovering topic) uuid d h w = w
  step-Tracked (registering p) uuid d h w = w
  step-Tracked (unregistering p) uuid d h w = w
  step-Tracked (starting now) uuid d h w = ground (arith, w)
  step-Tracked stopping uuid d h w = w
  step-Tracked (receiving now from_ip parsed) uuid d h w =
      dispatch-Tracked now from_ip uuid parsed d h w
  step-Tracked (heart_ticking now later) uuid d h w = ground (arith, w)
  step-Tracked (activity_ticking now later) uuid d h w =
      let m = d.last_seen_by_process in
      let s = d.known_publishers in
      let q = d.silence_interval in
      (
        ground (arith, w.0, expire-IsSorted q now m s w.0),
        ground (arith, w.1, expire-find q now m s uuid w.0),
      )
  step-Tracked (setting_intervals a b s) uuid d h w = w
  step-Tracked (setting_callbacks a b c f) uuid d h w = w

  -- Every step keeps the object well formed and its process's uuid as it was.
  pub step-IsWell :
      (op : Op C P) (uuid : String) (d : Discovery C P) → IsWell uuid d → IsWell uuid (step op d).0
  step-IsWell op uuid d w =
      let tracked = step-Tracked op uuid d w.named (w.sorted, w.untracked) in
      record {
        named = (step-kept op d).0 ∙ w.named;
        nonempty = w.nonempty;
        valid = step-IsValid op d w.valid;
        sorted = tracked.0;
        untracked = tracked.1;
      }

  -- An object that was just made for a process with a uuid is well formed.
  pub make_discovery-IsWell :
      (uuid name host : String)
      → uuid ≢ ""
      → IsWell {C = C} {P = P} uuid (make_discovery uuid name host)
  make_discovery-IsWell uuid name host h = record {
    named = refl;
    nonempty = h;
    valid = nil-IsValid;
    sorted = tt;
    untracked = find-nil {V = ℕ} uuid;
  }
