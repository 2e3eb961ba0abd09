-- ===== src/Info/Equality.antt =====
-- What the comparisons `operator==` of publishers and options decide.
use rf_trans_v.Base.{Bool, ◌≡◌, ◌↔◌, true, arith, eq_iff}
use rf_trans_v.Options.{
  Scope, AdvertiseOptions, AdvertiseMessageOptions, scope_eq, bool_eq, options_eq,
  message_options_eq,
}
use rf_trans_v.Info.{PublisherInfo, info_eq}
use rf_trans_v.Info.Message.{MessagePublisherInfo, message_info_eq}
use rf_trans_v.Info.Service.{ServicePublisherInfo, service_info_eq}

scope_eq_iff : (a b : Scope) → (scope_eq a b ≡ true) ↔ (a ≡ b)
unfolding scope_eq
scope_eq_iff a b = ground arith

bool_eq_iff : (a b : Bool) → (bool_eq a b ≡ true) ↔ (a ≡ b)
unfolding bool_eq
bool_eq_iff a b = ground arith

options_eq_iff : (a b : AdvertiseOptions) → (options_eq a b ≡ true) ↔ (a ≡ b)
unfolding options_eq
options_eq_iff a b = ground (arith, scope_eq_iff a.scope b.scope)

message_options_eq_iff : (a b : AdvertiseMessageOptions) → (message_options_eq a b ≡ true) ↔ (a ≡ b)
unfolding message_options_eq
message_options_eq_iff a b =
    ground (arith, options_eq_iff a.options b.options, bool_eq_iff a.use_shm b.use_shm)

-- `b` under the process name of `a`
abbrev pub renamed : PublisherInfo → PublisherInfo → PublisherInfo
renamed a b = record b { process_name = a.process_name }

info_eq_iff : (a b : PublisherInfo) → (info_eq a b ≡ true) ↔ (a ≡ renamed a b)
unfolding info_eq
info_eq_iff a b = ground (
  arith,
  eq_iff a.topic b.topic,
  eq_iff a.addr b.addr,
  eq_iff a.process_uuid b.process_uuid,
  eq_iff a.node_uuid b.node_uuid,
  options_eq_iff a.opts b.opts,
)

-- `operator==` on topics holds exactly when the two agree in all but the name of the process.
pub message_info_eq_iff :
    (a b : MessagePublisherInfo)
    → (message_info_eq a b ≡ true) ↔ (a ≡ record b { info = renamed a.info b.info })
unfolding message_info_eq
message_info_eq_iff a b = ground (
  arith,
  info_eq_iff a.info b.info,
  eq_iff a.ctrl b.ctrl,
  eq_iff a.msg_type b.msg_type,
  message_options_eq_iff a.msg_opts b.msg_opts,
)

-- `operator==` on services holds exactly when the two agree in all but the name of the process
-- and the options that `setOptions` writes, which it does not compare.
pub service_info_eq_iff :
    (a b : ServicePublisherInfo)
    → (service_info_eq a b ≡ true)
      ↔ (a ≡ record b { info = renamed a.info b.info; srv_opts = a.srv_opts })
unfolding service_info_eq
service_info_eq_iff a b = ground (
  arith,
  info_eq_iff a.info b.info,
  eq_iff a.socket_id b.socket_id,
  eq_iff a.req_type_name b.req_type_name,
  eq_iff a.rep_type_name b.rep_type_name,
)
