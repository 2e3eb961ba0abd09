-- ===== src/NodeShared/Farewell.antt =====
-- The BYE by which the nodes of a process take their leave (src/node_shared.cc), at another process.
use rf_trans_v.Base.{
  ◌≡◌, ◌≢◌, refl, ◌∙◌, ap, ℕ, String, some, [], ◌∷◌, arith, str_eq, eq_iff, if◌then◌else◌,
}
use rf_trans_v.Options.{default_options}
use rf_trans_v.Wire.{Msg, MsgType, Contents}
use rf_trans_v.Info.{make_info, fill_info}
use rf_trans_v.Info.Class.{set_process, message_pub, service_pub}
use rf_trans_v.TopicStorage.Valid.{IsValid}
use rf_trans_v.TopicStorage.Stored.{stored}
use rf_trans_v.TopicStorage.Delete.{stored-del_publishers_by_proc}
use rf_trans_v.Discovery.{Discovery, wire_version}
use rf_trans_v.Discovery.Handlers.{dispatch_discovery_msg}
use rf_trans_v.Discovery.Peers.{dispatch-bye}
use rf_trans_v.MessageRuntime.{Links, publisher_disconnected, call_back}
use rf_trans_v.MessageRuntime.Process.{Process as MessageProcess, receive}
use rf_trans_v.NodeShared.{NodeShared}
use rf_trans_v.NodeShared.Lifetime.{destroy_shared, srv_discovery}

-- the message of a process that leaves
abbrev bye : {C P : Type 0} → Discovery C P → Msg
bye d = fill_info (make_info "" "" d.process_uuid "" default_options) (record {
  version = wire_version;
  process_uuid = d.process_uuid;
  msg_type = MsgType.bye;
  process_name = d.process_name;
  contents = Contents.unset;
})

module _ {M K V R : Type 0} where
  destroy_shared-sends :
      (s : NodeShared M K V R)
      → (destroy_shared s).1 ≡ bye (srv_discovery s.services) ∷ bye s.messages.discovery ∷ []
  unfolding destroy_shared
  destroy_shared-sends s = ground arith

module _ {M K : Type 0} where
  receive-bye :
      (now : ℕ) (from_ip : String) (m : Msg) (q : MessageProcess M K)
      → m.msg_type ≡ MsgType.bye
      → m.process_uuid ≢ q.discovery.process_uuid
      → q.discovery.disconnection_cb ≡ some publisher_disconnected
      → ((receive now from_ip (some m) q).0.discovery
          ≡ (dispatch_discovery_msg now from_ip (some m) q.discovery).0)
        × ((receive now from_ip (some m) q).0.links
            ≡ call_back publisher_disconnected
                (set_process m.process_uuid message_pub.fresh)
                q.links)
  unfolding receive dispatch_discovery_msg
  receive-bye now from_ip m q b h cb = (
    ground (arith, b, cb, eq_iff m.process_uuid q.discovery.process_uuid),
    ground (arith, b, cb, eq_iff m.process_uuid q.discovery.process_uuid),
  )

  -- what the callback makes of a publisher that has the uuid of a process alone
  disconnected-stored :
      (uuid t u : String) (l : Links M K)
      → IsValid l.remote_publishers
      → IsValid l.remote_subscribers
      → let after = call_back publisher_disconnected (set_process uuid message_pub.fresh) l in
        (stored t u after.remote_publishers
          ≡ (if str_eq uuid u then [] else stored t u l.remote_publishers))
        × (stored t u after.remote_subscribers
            ≡ (if str_eq uuid u then [] else stored t u l.remote_subscribers))
  unfolding call_back
  disconnected-stored uuid t u l v w = (
    ground (arith, stored-del_publishers_by_proc uuid t u l.remote_publishers v.sorted),
    ground (arith, stored-del_publishers_by_proc uuid t u l.remote_subscribers w.sorted),
  )

module _ {M K V R : Type 0} where
  -- When what the nodes of a process share is destroyed, it sends two messages. Another process
  -- whose runtime listens to discovery gets the second, that of messages: after it neither its
  -- discovery nor its runtime has a publisher or a remote subscriber of the process that left, under
  -- any topic, and those of every other process stay.
  pub destroy_shared-forgotten :
      (now : ℕ) (from_ip t u : String) (s : NodeShared M K V R) (q : MessageProcess M K)
      → IsValid q.discovery.known_publishers
      → IsValid q.links.remote_publishers
      → IsValid q.links.remote_subscribers
      → q.discovery.disconnection_cb ≡ some publisher_disconnected
      → s.messages.discovery.process_uuid ≢ q.discovery.process_uuid
      → let gone = s.messages.discovery.process_uuid in
        (first : Msg) × (second : Msg) × ((destroy_shared s).1 ≡ first ∷ second ∷ [])
        × (stored t u (receive now from_ip (some second) q).0.discovery.known_publishers
            ≡ (if str_eq gone u then [] else stored t u q.discovery.known_publishers))
        × (stored t u (receive now from_ip (some second) q).0.links.remote_publishers
            ≡ (if str_eq gone u then [] else stored t u q.links.remote_publishers))
        × (stored t u (receive now from_ip (some second) q).0.links.remote_subscribers
            ≡ (if str_eq gone u then [] else stored t u q.links.remote_subscribers))
  unfolding fill_info
  destroy_shared-forgotten now from_ip t u s q v vp vs cb apart =
      let gone = s.messages.discovery.process_uuid in
      let m = bye s.messages.discovery in
      let (d, l) = receive-bye now from_ip m q refl apart cb in
      let told = disconnected-stored gone t u q.links vp vs in
      (
        bye (srv_discovery s.services),
        m,
        destroy_shared-sends s,
        ap (λ x. stored t u x.known_publishers) d
            ∙ (dispatch-bye now from_ip t u m q.discovery v refl apart).0,
        ap (λ x. stored t u x.remote_publishers) l ∙ told.0,
        ap (λ x. stored t u x.remote_subscribers) l ∙ told.1,
      )
