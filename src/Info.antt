-- ===== src/Info.antt =====
-- include/trans/details/publisher_info.hpp and src/publisher_info.cc: what a process tells its
-- peers of a topic or a service that it publishes.
pub mod Message
pub mod Service
pub mod Class
pub mod RoundTrip
pub mod Equality
mod Examples
use rf_trans_v.Base.{ℕ, String, Bool, true, false, ◌&&◌, str_eq, if◌then◌else◌}
use rf_trans_v.Options.{
  Scope, AdvertiseOptions, AdvertiseMessageOptions, AdvertiseServiceOptions, default_options,
  default_message_options, default_service_options, unthrottled, throttled, options_eq,
  message_options_eq,
}
use rf_trans_v.Wire.{
  Msg, WireScope, WirePublisher, MessagePublisher, ServicePublisher, Contents, PubType, subscriber,
  publisher, msg_pub, srv_pub, contents_pub, type_msg_pub, type_srv_pub,
}

pub record PublisherInfo : Type 0 where
  pub topic : String
  pub addr : String
  pub process_uuid : String
  pub process_name : String
  pub node_uuid : String
  pub opts : AdvertiseOptions

abbrev pub default_info : PublisherInfo
default_info = record {
  topic = "";
  addr = "";
  process_uuid = "";
  process_name = "";
  node_uuid = "";
  opts = default_options;
}

-- the constructor: the name of the process is left empty
abbrev pub make_info : String → String → String → String → AdvertiseOptions → PublisherInfo
make_info topic addr process_uuid node_uuid opts = record {
  topic = topic;
  addr = addr;
  process_uuid = process_uuid;
  process_name = "";
  node_uuid = node_uuid;
  opts = opts;
}

-- `operator==`, which does not look at the name of the process
unfoldable pub info_eq : PublisherInfo → PublisherInfo → Bool
unfolding options_eq
info_eq a b =
    str_eq a.topic b.topic
    && str_eq a.addr b.addr
    && str_eq a.process_uuid b.process_uuid
    && str_eq a.node_uuid b.node_uuid
    && options_eq a.opts b.opts

unfoldable pub to_wire_scope : Scope → WireScope
to_wire_scope Scope.process = WireScope.process
to_wire_scope Scope.host = WireScope.host
to_wire_scope Scope.all = WireScope.all

unfoldable pub of_wire_scope : WireScope → Scope
of_wire_scope WireScope.process = Scope.process
of_wire_scope WireScope.host = Scope.host
of_wire_scope WireScope.all = Scope.all
of_wire_scope (WireScope.other n) = Scope.all

-- `PublisherInfo::fillDiscovery`
unfoldable pub fill_info : PublisherInfo → Msg → Msg
unfolding to_wire_scope
fill_info p m = record m {
  contents = publisher (record (contents_pub m.contents) {
    topic = p.topic;
    address = p.addr;
    node_uuid = p.node_uuid;
    scope = to_wire_scope p.opts.scope;
  });
}

-- `PublisherInfo::setFromDiscovery`
unfoldable pub read_info : Msg → PublisherInfo → PublisherInfo
unfolding of_wire_scope
read_info m p = elim m.contents [
  | subscriber t ↦ record p { topic = t }
  | publisher w ↦ record {
    topic = w.topic;
    addr = w.address;
    process_uuid = m.process_uuid;
    process_name = m.process_name;
    node_uuid = w.node_uuid;
    opts = record p.opts { scope = of_wire_scope w.scope };
  }
  | Contents.unset ↦ p
]
