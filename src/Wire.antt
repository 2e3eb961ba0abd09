-- ===== src/Wire.antt =====
-- msgs/discovery.proto: the messages of the discovery protocol, with the accessors that protobuf
-- gives them. A field that was never set reads as its default; of a `oneof` at most one is set.
use rf_trans_v.Base.{ℕ, String, Bool, false}

-- Enumerations of proto3 are open: a peer may send any number.
pub data MsgType : Type 0 where
  uninitialized advertise subscribe unadvertise heartbeat bye new_connection end_connection :
      MsgType
  other : ℕ → MsgType

pub data WireScope : Type 0 where
  process host all : WireScope
  other : ℕ → WireScope

pub record MessagePublisher : Type 0 where
  pub ctrl : String
  pub msg_type : String
  pub throttled : Bool
  pub msgs_per_sec : ℕ
  pub use_shm : Bool

pub record ServicePublisher : Type 0 where
  pub socket_id : String
  pub request_type : String
  pub response_type : String

-- `oneof pub_type`
pub data PubType : Type 0 where
  unset : PubType
  msg_pub : MessagePublisher → PubType
  srv_pub : ServicePublisher → PubType

pub record WirePublisher : Type 0 where
  pub topic : String
  pub address : String
  pub node_uuid : String
  pub scope : WireScope
  pub pub_type : PubType

-- `oneof disc_contents`; a `Subscriber` is its topic
pub data Contents : Type 0 where
  unset : Contents
  subscriber : String → Contents
  publisher : WirePublisher → Contents

pub record Msg : Type 0 where
  pub version : ℕ
  pub process_uuid : String
  pub msg_type : MsgType
  pub process_name : String
  pub contents : Contents

abbrev pub default_message_publisher : MessagePublisher
default_message_publisher = record {
  ctrl = "";
  msg_type = "";
  throttled = false;
  msgs_per_sec = 0;
  use_shm = false;
}

abbrev pub default_service_publisher : ServicePublisher
default_service_publisher = record { socket_id = ""; request_type = ""; response_type = "" }

abbrev pub default_publisher : WirePublisher
default_publisher = record {
  topic = "";
  address = "";
  node_uuid = "";
  scope = WireScope.process;
  pub_type = PubType.unset;
}

-- `msg.pub()`, and the publisher that `msg.mutable_pub()` leaves set
abbrev pub contents_pub : Contents → WirePublisher
contents_pub Contents.unset = default_publisher
contents_pub (subscriber t) = default_publisher
contents_pub (publisher w) = w

-- `pub.msg_pub()`
abbrev pub type_msg_pub : PubType → MessagePublisher
type_msg_pub PubType.unset = default_message_publisher
type_msg_pub (msg_pub p) = p
type_msg_pub (srv_pub p) = default_message_publisher

-- `pub.srv_pub()`
abbrev pub type_srv_pub : PubType → ServicePublisher
type_srv_pub PubType.unset = default_service_publisher
type_srv_pub (msg_pub p) = default_service_publisher
type_srv_pub (srv_pub p) = p
