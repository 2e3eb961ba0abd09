-- ===== src/Info/Examples.antt =====
-- A topic, and the theorems on publishers at them.
use rf_trans_v.Base.{◌≡◌, refl, true}
use rf_trans_v.Options.{Scope, AdvertiseMessageOptions, default_message_options}
use rf_trans_v.Wire.{Msg, MsgType, Contents}
use rf_trans_v.Info.Message.{
  MessagePublisherInfo, default_message_info, make_message_info, fill_message_info,
  read_message_info, set_message_options,
}
use rf_trans_v.Info.RoundTrip.{received, read-fill-message, scope-set_message_options}

abbrev host_options : AdvertiseMessageOptions
host_options = record { options = record { scope = Scope.host }; msgs_per_sec = 10; use_shm = true }

abbrev topic : MessagePublisherInfo
topic = make_message_info "/imu" "tcp://1" "tcp://2" "proc1" "node1" "msgs.Imu" host_options

abbrev sent_by : Msg
sent_by = record {
  version = 1;
  process_uuid = "proc1";
  msg_type = MsgType.advertise;
  process_name = "driver";
  contents = Contents.unset;
}

read-fill-message_example :
    read_message_info (fill_message_info topic sent_by) default_message_info
    ≡ record topic { info = received sent_by topic.info }
read-fill-message_example = read-fill-message topic default_message_info sent_by refl

scope-set_message_options_example :
    (read_message_info
      (fill_message_info (set_message_options default_message_options topic) sent_by)
      default_message_info).msg_opts.scope
    ≡ Scope.host
scope-set_message_options_example =
    scope-set_message_options default_message_options topic default_message_info sent_by
