-- ===== src/MessageRuntime/Connected.antt =====
-- What a subscriber's process sends once it has connected to a publisher.
use rf_trans_v.Base.{
  ◌≡◌, ◌≢◌, refl, ◌∙◌, ap, String, Bool, true, List, [], ◌∷◌, map, arith, eq_iff, if◌then◌else◌,
}
use mathlib.Core.List.{append-nil}
use rf_trans_v.Wire.{Msg}
use rf_trans_v.Info.Message.{MessagePublisherInfo}
use rf_trans_v.Info.Class.{message_pub}
use rf_trans_v.TopicStorage.{has_publisher}
use rf_trans_v.MessageRuntime.{
  Links, SubscriberCommand, connect, registrations, register_all, has_subscriber,
  on_publisher_connected,
}
use rf_trans_v.MessageRuntime.Socket.{apply_subscriber_commands, apply_commands, apply_command}
use rf_trans_v.MessageRuntime.Process.{MsgDiscovery, Process, told_by, handle_events, update_socket}
use rf_trans_v.MessageRuntime.Registering.{registering, register_node-registering}

-- the messages by which the nodes of a process register
abbrev pub registering_all : String → String → List MessagePublisherInfo → List Msg
registering_all uuid name ps = map (registering uuid name) ps

module _ {M K : Type 0} where
  told-registers :
      (ps : List MessagePublisherInfo) (d : MsgDiscovery) (l : Links M K)
      → handle_events (told_by (register_all ps) d) l
        ≡ (l, registering_all d.process_uuid d.process_name ps)
  unfolding told_by handle_events
  told-registers [] d l = refl
  told-registers (p ∷ ps) d l = ground (arith, told-registers ps d l, register_node-registering p d)

  connected-commands :
      (q : MessagePublisherInfo) (l : Links M K)
      → has_subscriber q.info.topic l.local_subscribers ≡ true
      → q.info.process_uuid ≢ l.process_uuid
      → l.subscriber_commands ≡ []
      → ((on_publisher_connected q l).subscriber_commands ≡ (
          if has_publisher q.info.addr l.remote_publishers
          then SubscriberCommand.subscribe q.info.topic (registrations q l) ∷ []
          else connect q.info.addr
            ∷ SubscriberCommand.subscribe q.info.topic (registrations q l)
            ∷ []))
        × ((on_publisher_connected q l).local_subscribers ≡ l.local_subscribers)
  unfolding on_publisher_connected
  connected-commands q l on other idle =
      (ground (arith, on, idle, eq_iff q.info.process_uuid l.process_uuid, other), ground arith)

  -- the commands of a publisher that is found, carried out at once
  told-commands :
      (linked : Bool) (addr topic : String) (ps : List MessagePublisherInfo) (l : Links M K)
      (d : MsgDiscovery)
      → has_subscriber topic l.local_subscribers ≡ true
      → told_by
          (apply_commands
            (λ c. true)
            (if linked
              then SubscriberCommand.subscribe topic ps ∷ []
              else connect addr ∷ SubscriberCommand.subscribe topic ps ∷ [])
            l)
          d
        ≡ told_by (register_all ps) d
  unfolding apply_commands apply_command told_by
  told-commands linked addr topic ps l d on = ground (arith, on, append-nil (register_all ps))

  pub update_socket-connected :
      (q : MessagePublisherInfo) (l : Links M K) (b : Process M K)
      → b.links ≡ on_publisher_connected q l
      → has_subscriber q.info.topic l.local_subscribers ≡ true
      → q.info.process_uuid ≢ l.process_uuid
      → l.subscriber_commands ≡ []
      → (update_socket (λ c. true) b).1
        ≡ registering_all b.discovery.process_uuid b.discovery.process_name (registrations q l)
  unfolding update_socket apply_subscriber_commands
  update_socket-connected q l b is on other idle =
      let rest : Links M K = record b.links { subscriber_commands = [] } in
      let regs = registrations q l in
      let found = connected-commands q l on other idle in
      let sends =
        told-commands (has_publisher q.info.addr l.remote_publishers) q.info.addr q.info.topic regs
          b.links b.discovery
          (ap (λ k. has_subscriber q.info.topic k.local_subscribers) is
            ∙ ap (has_subscriber q.info.topic) found.1
            ∙ on) in
      ap
        (λ cs. (handle_events (told_by (apply_commands (λ c. true) cs b.links) b.discovery) rest).1)
        (ap (λ k. k.subscriber_commands) is ∙ found.0)
      ∙ ap (λ es. (handle_events es rest).1) sends
      ∙ ap (λ r. r.1) (told-registers regs b.discovery rest)
