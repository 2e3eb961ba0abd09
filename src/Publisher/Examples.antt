-- ===== src/Publisher/Examples.antt =====
-- A publisher of two messages a second, and the theorem on the rate at it.
use rf_trans_v.Base.{◌≡◌, refl, ◌≤◌, ◌*◌, ◌-◌, true, false, List, [], ◌∷◌, arith}
use rf_trans_v.Options.{AdvertiseMessageOptions, default_options, throttled}
use rf_trans_v.Info.Message.{MessagePublisherInfo, make_message_info}
use rf_trans_v.Publisher.{make_publisher, second_ns}
use rf_trans_v.Publisher.Rate.{Call, handed, end_time, handed-le}

abbrev twice_a_second : AdvertiseMessageOptions
twice_a_second = record { options = default_options; msgs_per_sec = 2; use_shm = false }

abbrev imu : MessagePublisherInfo
imu = make_message_info "/imu" "tcp://1" "tcp://2" "a" "node1" "msgs.Imu" twice_a_second

abbrev calls : List Call
calls =
    record { now = 600000000; later = 600000001; msg_type = "msgs.Imu"; answer = true }
    ∷ record { now = 700000000; later = 700000001; msg_type = "msgs.Imu"; answer = true }
    ∷ record { now = 1200000000; later = 1200000001; msg_type = "msgs.Imu"; answer = true }
    ∷ []

handed_two : handed calls (make_publisher imu) ≡ 2
unfolding handed
handed_two = refl

handed-le_example : handed calls (make_publisher imu) * second_ns ≤ (end_time 0 calls - 0) * 2
unfolding throttled
handed-le_example =
    handed-le calls 0 (make_publisher imu) refl (omega arith)
      (omega arith, omega arith, (omega arith, omega arith, (omega arith, omega arith, tt)))
