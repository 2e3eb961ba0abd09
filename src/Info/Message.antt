-- ===== src/Info/Message.antt =====
-- `MessagePublisherInfo` of include/trans/details/publisher_info.hpp and src/publisher_info.cc.
use rf_trans_v.Base.{String, Bool, ◌&&◌, str_eq, if◌then◌else◌}
use rf_trans_v.Options.{
  AdvertiseMessageOptions, default_message_options, unthrottled, throttled, message_options_eq,
}
use rf_trans_v.Wire.{Msg, publisher, msg_pub, contents_pub, type_msg_pub}
use rf_trans_v.Info.{PublisherInfo, default_info, make_info, info_eq, fill_info, read_info}

pub record MessagePublisherInfo : Type 0 where
  pub info : PublisherInfo
  pub open info use *
  pub ctrl : String
  pub msg_type : String
  pub msg_opts : AdvertiseMessageOptions

abbrev pub default_message_info : MessagePublisherInfo
default_message_info = record {
  info = default_info;
  ctrl = "";
  msg_type = "";
  msg_opts = default_message_options;
}

abbrev pub make_message_info :
    String
    → String
    → String
    → String
    → String
    → String
    → AdvertiseMessageOptions
    → MessagePublisherInfo
make_message_info topic addr ctrl process_uuid node_uuid msg_type opts = record {
  info = make_info topic addr process_uuid node_uuid opts.options;
  ctrl = ctrl;
  msg_type = msg_type;
  msg_opts = opts;
}

unfoldable pub message_info_eq : MessagePublisherInfo → MessagePublisherInfo → Bool
unfolding info_eq message_options_eq
message_info_eq a b =
    info_eq a.info b.info
    && str_eq a.ctrl b.ctrl
    && str_eq a.msg_type b.msg_type
    && message_options_eq a.msg_opts b.msg_opts

-- `MessagePublisherInfo::setOptions`
unfoldable pub set_message_options :
    AdvertiseMessageOptions → MessagePublisherInfo → MessagePublisherInfo
set_message_options o p = record p { msg_opts = o }

-- `MessagePublisherInfo::fillDiscovery`
unfoldable pub fill_message_info : MessagePublisherInfo → Msg → Msg
unfolding fill_info throttled
fill_message_info p m =
    let filled = fill_info p.info m in
    record filled {
      contents = publisher (record (contents_pub filled.contents) {
        pub_type = msg_pub (record {
          ctrl = p.ctrl;
          msg_type = p.msg_type;
          throttled = throttled p.msg_opts;
          msgs_per_sec = p.msg_opts.msgs_per_sec;
          use_shm = p.msg_opts.use_shm;
        });
      });
    }

-- `MessagePublisherInfo::setFromDiscovery`
unfoldable pub read_message_info : Msg → MessagePublisherInfo → MessagePublisherInfo
unfolding read_info
read_message_info m p =
    let base = read_info m p.info in
    let sent = type_msg_pub (contents_pub m.contents).pub_type in
    record {
      info = base;
      ctrl = sent.ctrl;
      msg_type = sent.msg_type;
      msg_opts = record {
        options = record p.msg_opts.options { scope = base.opts.scope };
        msgs_per_sec = if sent.throttled then sent.msgs_per_sec else unthrottled;
        use_shm = sent.use_shm;
      };
    }
