-- ===== src/NodeShared/Drops.antt =====
-- The three loops by which a node ends (src/node.cc), on what the nodes of its process share.
use rf_trans_v.Base.{
  ◌≡◌, refl, ◌++◌, ◌&&◌, String, Bool, true, Option, none, some, List, [], ◌∷◌, map, arith, str_eq,
  if◌then◌else◌, remove_if, ◌∙◌,
}
use rf_trans_v.Info.Class.{message_pub, service_pub}
use rf_trans_v.TopicStorage.{at_node}
use rf_trans_v.TopicStorage.Stored.{stored}
use rf_trans_v.HandlerStorage.Contents.{handler_at, handler_at-remove_handlers_for_node}
use rf_trans_v.Discovery.{unadvertise}
use rf_trans_v.Node.{SharedCall, unsubscribes, unadvertises_message, unadvertises_service, holds}
use rf_trans_v.ServiceRuntime.{RemoteRequest}
use rf_trans_v.ServiceRuntime.Calls.{unadvertise_locally}
use rf_trans_v.ServiceRuntime.Process.{Process as ServiceProcess, unadvertise_service}
use rf_trans_v.NodeShared.{
  NodeShared, put_services, through, unsubscribe_shared, unadvertise_message_shared,
}
use rf_trans_v.NodeShared.Loops.{each, each-Inv, view-each, remove_if_twice, if_twice}
use rf_trans_v.NodeShared.Calls.{
  stored-unadvertise, unadvertise-frame, handle-unadvertise-services, unsubscribe_shared-frame,
  unsubscribe_shared-handlers, unadvertise_message_shared-frame, perform_all,
}

module _ {M K V R : Type 0} (takes : RemoteRequest → Bool)
    (register : SharedCall → NodeShared M K V R → Option (NodeShared M K V R)) (n : String) where
  abbrev pub drop_subscription : String → NodeShared M K V R → NodeShared M K V R
  drop_subscription t s = (unsubscribe_shared t n s).0

  abbrev pub drop_topic : String → NodeShared M K V R → NodeShared M K V R
  drop_topic t s = (unadvertise_message_shared t n s).0

  abbrev pub drop_service : String → ServiceProcess V R → ServiceProcess V R
  drop_service t p = (unadvertise_service takes t n p).0

  pub perform-subscriptions :
      (ts : List String) (cs : List SharedCall) (s : NodeShared M K V R)
      → perform_all takes register n (map unsubscribes ts ++ cs) s
        ≡ perform_all takes register n cs (each drop_subscription ts s)
  unfolding perform_all
  perform-subscriptions [] cs s = refl
  perform-subscriptions (t ∷ ts) cs s = perform-subscriptions ts cs (drop_subscription t s)

  pub perform-topics :
      (ts : List String) (cs : List SharedCall) (s : NodeShared M K V R)
      → perform_all takes register n (map unadvertises_message ts ++ cs) s
        ≡ perform_all takes register n cs (each drop_topic ts s)
  unfolding perform_all
  perform-topics [] cs s = refl
  perform-topics (t ∷ ts) cs s = perform-topics ts cs (drop_topic t s)

  pub perform-services :
      (ts : List String) (s : NodeShared M K V R) (p : ServiceProcess V R)
      → perform_all takes register n (map unadvertises_service ts) (put_services s p)
        ≡ some (put_services s (each drop_service ts p))
  unfolding perform_all through
  perform-services [] s p = refl
  perform-services (t ∷ ts) s p = perform-services ts s (drop_service t p)

  -- what the three loops leave alone
  pub subscriptions-frame :
      (ts : List String) (s : NodeShared M K V R)
      → let after = each drop_subscription ts s in
        (after.messages.discovery ≡ s.messages.discovery) × (after.services ≡ s.services)
  subscriptions-frame ts s =
      each-Inv drop_subscription
        (λ a. (a.messages.discovery ≡ s.messages.discovery) × (a.services ≡ s.services))
        (λ t a i. let f = unsubscribe_shared-frame t n a in (f.0 ∙ i.0, f.1 ∙ i.1)) ts s
        (refl, refl)

  pub topics-frame :
      (ts : List String) (s : NodeShared M K V R)
      → let after = each drop_topic ts s in
        (after.messages.links ≡ s.messages.links) × (after.services ≡ s.services)
  topics-frame ts s =
      each-Inv drop_topic (λ a. (a.messages.links ≡ s.messages.links) × (a.services ≡ s.services))
        (λ t a i. let f = unadvertise_message_shared-frame t n a in (f.1 ∙ i.0, f.2 ∙ i.1)) ts s
        (refl, refl)

  pub subscriptions-handlers :
      (ts : List String) (x v u : String) (s : NodeShared M K V R)
      → handler_at x v u (each drop_subscription ts s).messages.links.local_subscribers ≡ (
          if holds x ts && str_eq n v
          then none
          else handler_at x v u s.messages.links.local_subscribers)
  subscriptions-handlers ts x v u s = ground (
    arith,
    view-each drop_subscription (λ a. Unit {0})
        (λ y a. handler_at y v u a.messages.links.local_subscribers)
        (λ h. if str_eq n v then none else h) (λ t a i. tt)
        (λ t y a i. ground (arith, unsubscribe_shared-handlers t n y v u a))
        (λ h. if_twice (str_eq n v) h (λ _. none) (λ _. refl)) ts x s tt,
  )

  pub topics-stored :
      (ts : List String) (x v : String) (s : NodeShared M K V R)
      → s.messages.discovery.enabled ≡ true
      → stored x v (each drop_topic ts s).messages.discovery.known_publishers ≡ (
          if holds x ts && str_eq s.messages.discovery.process_uuid v
          then remove_if (at_node n) (stored x v s.messages.discovery.known_publishers)
          else stored x v s.messages.discovery.known_publishers)
  topics-stored ts x v s on =
      let own = s.messages.discovery.process_uuid in
      ground (
        arith,
        view-each drop_topic
            (λ a. (a.messages.discovery.enabled ≡ true) × (a.messages.discovery.process_uuid ≡ own))
            (λ y a. stored y v a.messages.discovery.known_publishers)
            (λ l. if str_eq own v then remove_if (at_node n) l else l)
            (λ t a i. ground (
              arith,
              unadvertise_message_shared-frame t n a,
              unadvertise-frame t n a.messages.discovery,
              i.0,
              i.1,
            ))
            (λ t y a i. ground (
              arith,
              unadvertise_message_shared-frame t n a,
              stored-unadvertise t n y v a.messages.discovery,
              i.0,
              i.1,
            ))
            (λ l. if_twice (str_eq own v) l (remove_if (at_node n)) (remove_if_twice (at_node n)))
            ts x s (on, refl),
      )

  service-frame :
      (t : String) (p : ServiceProcess V R)
      → let after = (unadvertise_service takes t n p).0 in
        (after.discovery ≡ (unadvertise t n p.discovery).0)
        × (after.runtime ≡ unadvertise_locally t n p.runtime)
  unfolding unadvertise_service
  service-frame t p =
      let (d, ok, es) = unadvertise t n p.discovery in
      (
        refl,
        handle-unadvertise-services takes t n p.discovery d (unadvertise_locally t n p.runtime),
      )

  pub services-handlers :
      (ts : List String) (x v u : String) (p : ServiceProcess V R)
      → handler_at x v u (each drop_service ts p).runtime.response_handlers
        ≡ (if holds x ts && str_eq n v then none else handler_at x v u p.runtime.response_handlers)
  unfolding unadvertise_locally
  services-handlers ts x v u p = ground (
    arith,
    view-each drop_service (λ a. Unit {0}) (λ y a. handler_at y v u a.runtime.response_handlers)
        (λ h. if str_eq n v then none else h) (λ t a i. tt)
        (λ t y a i. ground (
          arith,
          service-frame t a,
          handler_at-remove_handlers_for_node t n y v u a.runtime.response_handlers,
        ))
        (λ h. if_twice (str_eq n v) h (λ _. none) (λ _. refl)) ts x p tt,
  )

  pub services-stored :
      (ts : List String) (x v : String) (p : ServiceProcess V R)
      → p.discovery.enabled ≡ true
      → stored x v (each drop_service ts p).discovery.known_publishers ≡ (
          if holds x ts && str_eq p.discovery.process_uuid v
          then remove_if (at_node n) (stored x v p.discovery.known_publishers)
          else stored x v p.discovery.known_publishers)
  services-stored ts x v p on =
      let own = p.discovery.process_uuid in
      ground (
        arith,
        view-each drop_service
            (λ a. (a.discovery.enabled ≡ true) × (a.discovery.process_uuid ≡ own))
            (λ y a. stored y v a.discovery.known_publishers)
            (λ l. if str_eq own v then remove_if (at_node n) l else l)
            (λ t a i.
              ground (arith, service-frame t a, unadvertise-frame t n a.discovery, i.0, i.1))
            (λ t y a i.
              ground (arith, service-frame t a, stored-unadvertise t n y v a.discovery, i.0, i.1))
            (λ l. if_twice (str_eq own v) l (remove_if (at_node n)) (remove_if_twice (at_node n)))
            ts x p (on, refl),
      )
