-- ===== src/Info/Class.antt =====
-- What `TopicStorage` and `Discovery` ask of their template parameter `Pub`: the accessors, and the
-- laws that join them. Both kinds of publisher meet it.
use rf_trans_v.Base.{String, ◌≡◌, refl, arith}
use rf_trans_v.Options.{Scope}
use rf_trans_v.Wire.{Msg, WirePublisher, publisher}
use rf_trans_v.Info.{PublisherInfo, default_info, read_info, fill_info, of_wire_scope}
use rf_trans_v.Info.Message.{
  MessagePublisherInfo, default_message_info, fill_message_info, read_message_info,
}
use rf_trans_v.Info.Service.{
  ServicePublisherInfo, default_service_info, fill_service_info, read_service_info,
}

pub record Pub (P : Type 0) : Type 0 where
  pub fresh : P
  pub info : P → PublisherInfo
  -- `getOptions().getScope()`, by the virtual `getOptions`
  pub scope : P → Scope
  pub set_info : PublisherInfo → P → P
  pub fill : P → Msg → Msg
  pub read : Msg → P → P
  pub info-fresh : info fresh ≡ default_info
  pub info-set_info : (i : PublisherInfo) (p : P) → info (set_info i p) ≡ i
  pub info-read : (m : Msg) (p : P) → info (read m p) ≡ read_info m (info p)
  pub type-fill : (p : P) (m : Msg) → (fill p m).msg_type ≡ m.msg_type
  -- what was read off a message is visible as far as the message says
  pub scope-read :
      (m : Msg) (p : P) (w : WirePublisher)
      → m.contents ≡ publisher w
      → scope (read m p) ≡ of_wire_scope w.scope

module _ {P : Type 0} ⦃e : Pub P⦄ where
  abbrev pub topic_of : P → String
  topic_of p = (e.info p).topic

  abbrev pub addr_of : P → String
  addr_of p = (e.info p).addr

  abbrev pub process_of : P → String
  process_of p = (e.info p).process_uuid

  abbrev pub node_of : P → String
  node_of p = (e.info p).node_uuid

  abbrev pub scope_of : P → Scope
  scope_of p = e.scope p

  -- `setTopic`, `setProcessUuid`
  abbrev pub set_topic : String → P → P
  set_topic t p = e.set_info (record (e.info p) { topic = t }) p

  abbrev pub set_process : String → P → P
  set_process u p = e.set_info (record (e.info p) { process_uuid = u }) p

pub scope-read-message :
    (m : Msg) (p : MessagePublisherInfo) (w : WirePublisher)
    → m.contents ≡ publisher w
    → (read_message_info m p).msg_opts.scope ≡ of_wire_scope w.scope
unfolding read_message_info
scope-read-message m p w h = ground arith

pub scope-read-service :
    (m : Msg) (p : ServicePublisherInfo) (w : WirePublisher)
    → m.contents ≡ publisher w
    → (read_service_info m p).srv_opts.scope ≡ of_wire_scope w.scope
unfolding read_service_info
scope-read-service m p w h = ground arith

pub info-read-message :
    (m : Msg) (p : MessagePublisherInfo) → (read_message_info m p).info ≡ read_info m p.info
unfolding read_message_info
info-read-message m p = refl

pub info-read-service :
    (m : Msg) (p : ServicePublisherInfo) → (read_service_info m p).info ≡ read_info m p.info
unfolding read_service_info
info-read-service m p = refl

pub type-fill-message :
    (p : MessagePublisherInfo) (m : Msg) → (fill_message_info p m).msg_type ≡ m.msg_type
unfolding fill_message_info fill_info
type-fill-message p m = refl

pub type-fill-service :
    (p : ServicePublisherInfo) (m : Msg) → (fill_service_info p m).msg_type ≡ m.msg_type
unfolding fill_service_info fill_info
type-fill-service p m = refl

instance abbrev pub message_pub : Pub MessagePublisherInfo
message_pub = record {
  fresh = default_message_info;
  info = λ p. p.info;
  scope = λ p. p.msg_opts.scope;
  set_info = λ i p. record p { info = i };
  fill = fill_message_info;
  read = read_message_info;
  info-fresh = refl;
  info-set_info = λ i p. refl;
  info-read = info-read-message;
  type-fill = type-fill-message;
  scope-read = scope-read-message;
}

instance abbrev pub service_pub : Pub ServicePublisherInfo
service_pub = record {
  fresh = default_service_info;
  info = λ p. p.info;
  scope = λ p. p.srv_opts.scope;
  set_info = λ i p. record p { info = i };
  fill = fill_service_info;
  read = read_service_info;
  info-fresh = refl;
  info-set_info = λ i p. refl;
  info-read = info-read-service;
  type-fill = type-fill-service;
  scope-read = scope-read-service;
}
