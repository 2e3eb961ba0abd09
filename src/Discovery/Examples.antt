-- ===== src/Discovery/Examples.antt =====
-- Two processes on a few messages, and the theorems on discovery at them.
use rf_trans_v.Base.{
  ◌≡◌, ◌≢◌, refl, String, true, false, none, some, List, [], ◌∷◌, ◌++◌, ◌⊎◌, ◌≤◌, ◌<◌, ◌-◌, ◌/◌, ℕ,
  min, arith, All, length, remove_if, str_eq, eq_iff, if◌then◌else◌, not, ◌&&◌,
}
use rf_trans_v.Map.{find}
use rf_trans_v.Options.{default_message_options}
use rf_trans_v.Wire.{Msg, MsgType, Contents, subscriber}
use rf_trans_v.Info.Message.{MessagePublisherInfo, make_message_info, read_message_info}
use rf_trans_v.Info.Class.{message_pub, scope_of, topic_of, process_of}
use rf_trans_v.TopicStorage.Stored.{stored, with_publisher, known}
use rf_trans_v.Discovery.{Discovery, is_local, send, called, hidden, advertise}
use rf_trans_v.Discovery.Handlers.{on_advertise, on_subscribe, dispatch_discovery_msg}
use rf_trans_v.Discovery.Loop.{ms, max_timeout, next_timeout, update_activity}
use rf_trans_v.Discovery.Frame.{max_rcv_str, frame, unframe, unframe-frame}
use rf_trans_v.Discovery.Peers.{told, send_each, on_advertise-stored, on_subscribe-answers}
use rf_trans_v.Discovery.Expiry.{lapsed, update_activity-due}
use rf_trans_v.Discovery.Settings.{make_discovery}
use rf_trans_v.Discovery.System.{
  Op, advertising, starting, receiving, run, own_run, own_view, IsWell,
}
use rf_trans_v.Discovery.Kept.{make_discovery-IsWell}
use rf_trans_v.Discovery.Own.{run-own}
use rf_trans_v.Discovery.Public.{IsPublic}
use rf_trans_v.Discovery.Privacy.{Owned, run-IsPublic}
use rf_trans_v.Discovery.Timing.{next_timeout-eq}
use rf_trans_v.Discovery.Peering.{announcement, as_learned, advertise-learned}

abbrev Topics : Type 0
Topics = Discovery String MessagePublisherInfo

abbrev imu : MessagePublisherInfo
imu = make_message_info "/imu" "tcp://1" "tcp://2" "a" "node1" "msgs.Imu" default_message_options

abbrev gps : MessagePublisherInfo
gps = make_message_info "/gps" "tcp://3" "tcp://4" "b" "node2" "msgs.Gps" default_message_options

abbrev fresh_a : Topics
fresh_a = make_discovery "a" "driver" "10.0.0.1"

-- a peer advertises, this process advertises, and time passes
abbrev ops : List (Op String MessagePublisherInfo)
ops =
    starting 0
    ∷ receiving 5 "10.0.0.2" (some (announcement "b" "logger" gps))
    ∷ advertising imu
    ∷ []

abbrev a : Topics
a = (run ops fresh_a).0

abbrev b : Topics
b = record (make_discovery "b" "logger" "10.0.0.2") {
  enabled = true;
  connection_cb = some "on_topic";
}

-- two uuids
abbrev uuid_a : String
uuid_a = "a"

abbrev uuid_b : String
uuid_b = "b"

named : uuid_a ≢ ""
named h = cc ((eq_iff uuid_a "").1 h)

apart : uuid_b ≢ uuid_a
apart h = cc ((eq_iff uuid_b uuid_a).1 h)

apart_back : uuid_a ≢ uuid_b
apart_back h = cc ((eq_iff uuid_a uuid_b).1 h)

fresh_a-IsWell : IsWell "a" fresh_a
fresh_a-IsWell = make_discovery-IsWell "a" "driver" "10.0.0.1" named

run-own_example :
    IsWell "a" a
    × (a.enabled ≡ (own_run ops (own_view fresh_a)).0)
    × (stored "/imu" "a" a.known_publishers ≡ (own_run ops (own_view fresh_a)).1 "/imu")
run-own_example = run-own ops "/imu" "a" fresh_a fresh_a-IsWell (tt, (tt, (refl, tt)))

-- the one publisher that is advertised
abbrev IsImu : MessagePublisherInfo → Type 0
IsImu p = p ≡ imu

fresh_a-Owned : Owned IsImu fresh_a
unfolding stored
fresh_a-Owned t = tt

run-IsPublic_example : All (IsPublic IsImu) (run ops fresh_a).1
run-IsPublic_example =
    run-IsPublic IsImu ops "a" fresh_a fresh_a-IsWell (tt, (tt, (refl, tt))) (tt, (tt, (refl, tt)))
      fresh_a-Owned

own_run_is_imu : (own_run ops (own_view fresh_a)).1 "/imu" ≡ imu ∷ []
unfolding own_run stored
own_run_is_imu = refl

imu_is_shown_there : hidden (is_local "10.0.0.2" "127.0.0.1") imu.msg_opts.scope ≡ false
unfolding hidden is_local
imu_is_shown_there = refl

a_times : (a.time_next_activity ≡ 0) × (a.time_next_heartbeat ≡ 0)
unfolding run announcement read_message_info
a_times = (refl, refl)

a_due : a.time_next_activity ≤ 4000000005
a_due = omega (arith, a_times.0)

a-IsWell : IsWell "a" a
a-IsWell = run-own_example.0

imu_is_new : known imu (stored "/imu" "a" fresh_a.known_publishers) ≡ false
unfolding stored
imu_is_new = refl

imu_is_shown : hidden true imu.msg_opts.scope ≡ false
unfolding hidden
imu_is_shown = refl

bye : Msg
bye = record {
  version = 0;
  process_uuid = uuid_b;
  msg_type = MsgType.bye;
  process_name = "logger";
  contents = Contents.unset;
}

asking : Msg
asking = record {
  version = 0;
  process_uuid = uuid_b;
  msg_type = MsgType.subscribe;
  process_name = "logger";
  contents = subscriber "/imu";
}

advertise-learned_example :
    ((advertise imu (record fresh_a { enabled = true })).2
      ≡ send (announcement "a" "driver" imu) ∷ [])
    × (stored "/imu" "a"
          (dispatch_discovery_msg 7 "127.0.0.1"
            (some (announcement "a" "driver" imu))
            b).0.known_publishers
        ≡ with_publisher (as_learned "a" "driver" imu) (stored "/imu" "a" b.known_publishers))
advertise-learned_example =
    advertise-learned imu (record fresh_a { enabled = true }) b 7 "127.0.0.1" refl imu_is_new refl
      refl apart_back imu_is_shown_there

update_activity-due_example :
    let r = update_activity 4000000005 4000000005 a in
    (find "b" r.0.last_seen_by_process ≡ none) × (stored "/gps" "b" r.0.known_publishers ≡ [])
unfolding lapsed find run announcement read_message_info
update_activity-due_example =
    let h =
      update_activity-due 4000000005 4000000005 "/gps" "b" a a_due a-IsWell.sorted a-IsWell.valid in
    (h.0, h.1)

on_advertise-stored_example :
    let p : MessagePublisherInfo = told (announcement "a" "driver" imu) in
    let news =
      not (hidden true (scope_of p))
      && not (known p (stored (topic_of p) (process_of p) b.known_publishers)) in
    ((on_advertise true (announcement "a" "driver" imu) b).1
      ≡ (if news then called b.connection_cb p else []))
    × (stored "/imu" "a" (on_advertise true (announcement "a" "driver" imu) b).0.known_publishers
        ≡ (if news && str_eq (topic_of p) "/imu" && str_eq (process_of p) "a"
            then stored "/imu" "a" b.known_publishers ++ p ∷ []
            else stored "/imu" "a" b.known_publishers))
on_advertise-stored_example = on_advertise-stored true (announcement "a" "driver" imu) "/imu" "a" b

on_subscribe-answers_example :
    on_subscribe true asking a
    ≡ send_each a (remove_if (λ p. hidden true (scope_of p)) (stored "/imu" "a" a.known_publishers))
unfolding asking run stored send_each announcement read_message_info
on_subscribe-answers_example = on_subscribe-answers true asking "/imu" a refl

next_timeout-eq_example :
    next_timeout 1000000 a
    ≡ min ((min a.time_next_activity a.time_next_heartbeat - 1000000) / ms) max_timeout
next_timeout-eq_example =
    next_timeout-eq 1000000 a (omega (arith, a_times.0, a_times.1))
      (omega (arith, a_times.0, a_times.1))

abbrev two : List ℕ
two = 1 ∷ 2 ∷ []

unframe-frame_example :
    ((datagram : List ℕ) × (length two ≤ 65533)
      × (frame two ≡ some datagram)
      × (unframe datagram ≡ some two)
      × (length datagram ≤ max_rcv_str))
    ⊎ ((65533 < length two) × (frame two ≡ none))
unframe-frame_example = unframe-frame two

read_two : unframe (0 ∷ 2 ∷ 1 ∷ 2 ∷ []) ≡ some (1 ∷ 2 ∷ [])
unfolding unframe
read_two = refl
