-- ===== src/Discovery/Handlers.antt =====
-- The handlers of messages of include/trans/details/discovery.hpp: `dispatchDiscoveryMsg` and what it
-- does on each type of message.
use rf_trans_v.Base.{
  ℕ, String, Bool, not, Option, none, some, List, [], ◌∷◌, ◌++◌, str_eq, if◌then◌else◌,
}
use rf_trans_v.Map.{find_or, assign, erase}
use rf_trans_v.Wire.{Msg, MsgType, Contents, subscriber, publisher}
use rf_trans_v.Info.Class.{Pub, topic_of, process_of, node_of, scope_of, set_process}
use rf_trans_v.TopicStorage.{
  has_any_publishers, get_publishers, add_publisher, del_publishers_by_node, del_publishers_by_proc,
}
use rf_trans_v.Discovery.{Discovery, Event, is_local, hidden, called, send_msg}

module _ {C P : Type 0} ⦃e : Pub P⦄ where
  -- the answers to a SUBSCRIBE
  unfoldable pub answer_each : Bool → Discovery C P → List P → List (Event C P)
  unfolding hidden send_msg
  answer_each sender_local d [] = []
  answer_each sender_local d (p ∷ ps) =
      let rest = answer_each sender_local d ps in
      if hidden sender_local (scope_of p) then rest else send_msg MsgType.advertise p d ++ rest

  unfoldable pub on_advertise : Bool → Msg → Discovery C P → Discovery C P × List (Event C P)
  unfolding hidden add_publisher
  on_advertise sender_local m d =
      let p = e.read m e.fresh in
      let (s, added) = add_publisher p d.known_publishers in
      if hidden sender_local (scope_of p)
      then (d, [])
      else (record d { known_publishers = s }, if added then called d.connection_cb p else [])

  unfoldable pub on_unadvertise : Bool → Msg → Discovery C P → Discovery C P × List (Event C P)
  unfolding hidden del_publishers_by_node
  on_unadvertise sender_local m d =
      let p = e.read m e.fresh in
      if hidden sender_local (scope_of p) then (d, []) else (
        record d {
          known_publishers =
              (del_publishers_by_node (topic_of p) (process_of p) (node_of p) d.known_publishers).0;
        },
        called d.disconnection_cb p,
      )

  unfoldable pub on_subscribe : Bool → Msg → Discovery C P → List (Event C P)
  unfolding has_any_publishers get_publishers find_or answer_each
  on_subscribe sender_local m d = elim m.contents [
    | subscriber topic ↦
        if not (has_any_publishers topic d.process_uuid d.known_publishers)
        then []
        else elim (get_publishers topic d.known_publishers) [
          | none ↦ []
          | some addresses ↦ answer_each sender_local d (find_or [] d.process_uuid addresses)
        ]
    | publisher w ↦ []
    | Contents.unset ↦ []
  ]

  unfoldable pub on_bye : Msg → Discovery C P → Discovery C P × List (Event C P)
  unfolding erase del_publishers_by_proc
  on_bye m d = (
    record d {
      last_seen_by_process = erase m.process_uuid d.last_seen_by_process;
      known_publishers = (del_publishers_by_proc m.process_uuid d.known_publishers).0;
    },
    called d.disconnection_cb (set_process m.process_uuid e.fresh),
  )

  -- the switch over the type of a peer's message
  unfoldable pub handle_msg : Bool → Msg → Discovery C P → Discovery C P × List (Event C P)
  unfolding on_advertise on_unadvertise on_subscribe on_bye
  handle_msg sender_local m d = elim m.msg_type [
    | MsgType.advertise ↦ on_advertise sender_local m d
    | MsgType.unadvertise ↦ on_unadvertise sender_local m d
    | MsgType.subscribe ↦ (d, on_subscribe sender_local m d)
    | MsgType.new_connection ↦ (d, called d.registration_cb (e.read m e.fresh))
    | MsgType.end_connection ↦ (d, called d.unregistration_cb (e.read m e.fresh))
    | MsgType.heartbeat ↦ (d, [])
    | MsgType.bye ↦ on_bye m d
    | MsgType.uninitialized ↦ (d, [])
    | MsgType.other n ↦ (d, [])
  ]

  -- `dispatchDiscoveryMsg`, from what `ParseFromArray` makes of the bytes
  unfoldable pub dispatch_discovery_msg :
      ℕ → String → Option Msg → Discovery C P → Discovery C P × List (Event C P)
  unfolding is_local assign handle_msg
  dispatch_discovery_msg now from_ip none d = (d, [])
  dispatch_discovery_msg now from_ip (some m) d =
      if str_eq m.process_uuid d.process_uuid
      then (d, [])
      else handle_msg (is_local d.host_addr from_ip) m
          (record d { last_seen_by_process = assign m.process_uuid now d.last_seen_by_process })
