-- ===== src/Info/RoundTrip.antt =====
-- What a peer reads off a discovery message, against what was put into it.
use rf_trans_v.Base.{◌≡◌, refl, arith}
use rf_trans_v.Options.{Scope, AdvertiseMessageOptions}
use rf_trans_v.Wire.{Msg}
use rf_trans_v.Info.{PublisherInfo, to_wire_scope, of_wire_scope}
use rf_trans_v.Info.Message.{
  MessagePublisherInfo, fill_message_info, read_message_info, set_message_options,
}
use rf_trans_v.Info.Service.{ServicePublisherInfo, fill_service_info, read_service_info}

of_wire_scope-to_wire_scope : (s : Scope) → of_wire_scope (to_wire_scope s) ≡ s
unfolding of_wire_scope to_wire_scope
of_wire_scope-to_wire_scope Scope.process = refl
of_wire_scope-to_wire_scope Scope.host = refl
of_wire_scope-to_wire_scope Scope.all = refl

-- The publisher that a peer makes of `p`, which came in the message `m`.
abbrev pub received : Msg → PublisherInfo → PublisherInfo
received m p = record p { process_uuid = m.process_uuid; process_name = m.process_name }

-- A topic whose two copies of the options agree arrives as it was sent, under the uuid and the
-- name of the sending process, whatever the receiving object and the message held before.
pub read-fill-message :
    (p q : MessagePublisherInfo) (m : Msg)
    → p.msg_opts.options ≡ p.info.opts
    → read_message_info (fill_message_info p m) q ≡ record p { info = received m p.info }
unfolding read_message_info fill_message_info
read-fill-message p q m h = ground (arith, of_wire_scope-to_wire_scope p.info.opts.scope)

-- So does a service.
pub read-fill-service :
    (p q : ServicePublisherInfo) (m : Msg)
    → p.srv_opts.options ≡ p.info.opts
    → read_service_info (fill_service_info p m) q ≡ record p { info = received m p.info }
unfolding read_service_info fill_service_info
read-fill-service p q m h = ground (arith, of_wire_scope-to_wire_scope p.info.opts.scope)

-- The scope that `setOptions` sets on a topic does not reach the wire: a peer sees the scope that the
-- topic was made with, whatever scope was set.
pub scope-set_message_options :
    (o : AdvertiseMessageOptions) (p q : MessagePublisherInfo) (m : Msg)
    → (read_message_info (fill_message_info (set_message_options o p) m) q).msg_opts.scope
      ≡ p.info.opts.scope
unfolding read_message_info fill_message_info set_message_options
scope-set_message_options o p q m = of_wire_scope-to_wire_scope p.info.opts.scope
