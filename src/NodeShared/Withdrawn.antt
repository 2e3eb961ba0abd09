-- ===== src/NodeShared/Withdrawn.antt =====
-- A node that ends (src/node.cc) over what the nodes of its process share (src/node_shared.cc).
use rf_trans_v.Base.{
  ◌≡◌, refl, ◌++◌, ◌&&◌, String, Bool, true, Option, none, some, map, str_eq, if◌then◌else◌,
  remove_if, ◌∙◌, ap,
}
use rf_trans_v.Info.Class.{message_pub, service_pub}
use rf_trans_v.TopicStorage.{at_node}
use rf_trans_v.TopicStorage.Stored.{stored}
use rf_trans_v.HandlerStorage.Contents.{handler_at}
use rf_trans_v.Node.{
  Node, SharedCall, unsubscribes, unadvertises_message, unadvertises_service, holds, destroy,
}
use rf_trans_v.Node.Destroy.{destroy-all}
use rf_trans_v.ServiceRuntime.{RemoteRequest}
use rf_trans_v.ServiceRuntime.Process.{Process as ServiceProcess}
use rf_trans_v.NodeShared.{NodeShared, with_runtime, put_services}
use rf_trans_v.NodeShared.Loops.{each}
use rf_trans_v.NodeShared.Calls.{perform_all}
use rf_trans_v.NodeShared.Drops.{
  drop_subscription, drop_topic, drop_service, perform-subscriptions, perform-topics,
  perform-services, subscriptions-frame, topics-frame, subscriptions-handlers, topics-stored,
  services-handlers, services-stored,
}

module _ {M K V R : Type 0} where
  restored :
      (s : NodeShared M K V R) (p : ServiceProcess V R)
      → s.services ≡ with_runtime p
      → s ≡ put_services s p
  restored s p h = cc

  -- A node ends in a process that has a service runtime and whose discoveries are enabled, and
  -- every subscription is let go. All the calls of the destructor find the runtimes that they need;
  -- what they answer is not looked at. On the topics that the
  -- node subscribed to none of its handlers is left, and the process has no publisher of the node on
  -- the topics that it advertised; for its services the same holds of responders and of publishers.
  -- Every other handler and publisher stays.
  pub destroy-withdrawn :
      (takes : RemoteRequest → Bool)
      (register : SharedCall → NodeShared M K V R → Option (NodeShared M K V R))
      (answers : SharedCall → Bool) (n : Node) (s : NodeShared M K V R) (p : ServiceProcess V R)
      (x v u : String)
      → ((t : String) → answers (unsubscribes t) ≡ true)
      → s.services ≡ with_runtime p
      → s.messages.discovery.enabled ≡ true
      → p.discovery.enabled ≡ true
      → (after : NodeShared M K V R) × (q : ServiceProcess V R) × (perform_all takes register
            n.node_uuid
            (destroy answers n).1
            s
          ≡ some after)
        × (after.services ≡ with_runtime q)
        × (handler_at x v u after.messages.links.local_subscribers ≡ (
            if holds x n.subscribed_topics && str_eq n.node_uuid v
            then none
            else handler_at x v u s.messages.links.local_subscribers))
        × (stored x v after.messages.discovery.known_publishers ≡ (
            if holds x n.advertised_topics && str_eq s.messages.discovery.process_uuid v
            then remove_if (at_node n.node_uuid) (stored x v s.messages.discovery.known_publishers)
            else stored x v s.messages.discovery.known_publishers))
        × (handler_at x v u q.runtime.response_handlers ≡ (
            if holds x n.advertised_srvs && str_eq n.node_uuid v
            then none
            else handler_at x v u p.runtime.response_handlers))
        × (stored x v q.discovery.known_publishers ≡ (
            if holds x n.advertised_srvs && str_eq p.discovery.process_uuid v
            then remove_if (at_node n.node_uuid) (stored x v p.discovery.known_publishers)
            else stored x v p.discovery.known_publishers))
  destroy-withdrawn takes register answers n s p x v u ok made on on' =
      let id = n.node_uuid in
      let s1 = each (drop_subscription takes register id) n.subscribed_topics s in
      let s2 = each (drop_topic takes register id) n.advertised_topics s1 in
      let q = each (drop_service takes register id) n.advertised_srvs p in
      let f1 = subscriptions-frame takes register id n.subscribed_topics s in
      let f2 = topics-frame takes register id n.advertised_topics s1 in
      (
        put_services s2 q,
        q,
        ap (λ c. perform_all takes register id c.1 s) (destroy-all answers n ok)
            ∙ perform-subscriptions takes register id n.subscribed_topics
                (map unadvertises_message n.advertised_topics
                  ++ map unadvertises_service n.advertised_srvs)
                s
            ∙ perform-topics takes register id n.advertised_topics
                (map unadvertises_service n.advertised_srvs) s1
            ∙ ap (perform_all takes register id (map unadvertises_service n.advertised_srvs))
                (restored s2 p (f2.1 ∙ f1.1 ∙ made))
            ∙ perform-services takes register id n.advertised_srvs s2 p,
        refl,
        ap (λ l. handler_at x v u l.local_subscribers) f2.0
            ∙ subscriptions-handlers takes register id n.subscribed_topics x v u s,
        topics-stored takes register id n.advertised_topics x v s1 (ap (λ d. d.enabled) f1.0 ∙ on)
            ∙ ap
                (λ d.
                  if holds x n.advertised_topics && str_eq d.process_uuid v
                  then remove_if (at_node id) (stored x v d.known_publishers)
                  else stored x v d.known_publishers)
                f1.0,
        services-handlers takes register id n.advertised_srvs x v u p,
        services-stored takes register id n.advertised_srvs x v p on',
      )
