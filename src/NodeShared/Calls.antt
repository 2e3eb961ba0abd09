-- ===== src/NodeShared/Calls.antt =====
-- What the calls of a node that ends (src/node.cc) do to what the nodes of its process share
-- (src/node_shared.cc).
use rf_trans_v.Base.{
  ◌≡◌, refl, ◌&&◌, String, Bool, true, Option, none, some, List, [], ◌∷◌, arith, str_eq, eq_iff,
  if◌then◌else◌, remove_if,
}
use mathlib.Core.Option
use rf_trans_v.Info.Class.{Pub, message_pub, service_pub}
use rf_trans_v.Info.Message.{MessagePublisherInfo}
use rf_trans_v.TopicStorage.{at_node, get_publishers}
use rf_trans_v.TopicStorage.Stored.{stored}
use rf_trans_v.TopicStorage.Delete.{stored-del_publishers_by_node}
use rf_trans_v.TopicStorage.Queries.{get_publisher-eq-find_if}
use rf_trans_v.HandlerStorage.Contents.{handler_at, handler_at-remove_handlers_for_node}
use rf_trans_v.Discovery.{Discovery, unadvertise, unregister_node}
use rf_trans_v.Discovery.Own.{remove_if_of_find_if}
use rf_trans_v.Node.{
  SharedCall, unsubscribes, unadvertises_message, unadvertises_service, subscribes,
  advertises_message, advertises_service,
}
use rf_trans_v.MessageRuntime.{Links, unsubscribe_locally}
use rf_trans_v.MessageRuntime.Process.{MsgDiscovery, withdrawn_by}
use rf_trans_v.MessageRuntime.Process.{handle_events as handle_message_events}
use rf_trans_v.ServiceRuntime.{ServiceRuntime, RemoteRequest}
use rf_trans_v.ServiceRuntime.Process.{SrvDiscovery, handle_events as handle_service_events}
use rf_trans_v.NodeShared.{
  NodeShared, unsubscribe_shared, unadvertise_message_shared, unadvertise_service_shared,
}

module _ {C P : Type 0} ⦃e : Pub P⦄ where
  pub stored-unadvertise :
      (t n x v : String) (d : Discovery C P)
      → d.enabled ≡ true
      → stored x v (unadvertise t n d).0.known_publishers ≡ (
          if str_eq t x && str_eq d.process_uuid v
          then remove_if (at_node n) (stored x v d.known_publishers)
          else stored x v d.known_publishers)
  unfolding unadvertise
  stored-unadvertise t n x v d on = ground (
    arith,
    get_publisher-eq-find_if t d.process_uuid n d.known_publishers,
    remove_if_of_find_if (at_node n) (stored t d.process_uuid d.known_publishers),
    stored-del_publishers_by_node t d.process_uuid n x v d.known_publishers,
    eq_iff t x,
    eq_iff d.process_uuid v,
  )

  pub unadvertise-frame :
      (t n : String) (d : Discovery C P)
      → ((unadvertise t n d).0.enabled ≡ d.enabled)
        × ((unadvertise t n d).0.process_uuid ≡ d.process_uuid)
  unfolding unadvertise
  unadvertise-frame t n d = (ground arith, ground arith)

module _ {M K : Type 0} where
  pub handle-withdrawn_by :
      (ps : List MessagePublisherInfo) (d : MsgDiscovery) (l : Links M K)
      → (handle_message_events (withdrawn_by ps d) l).0 ≡ l
  unfolding handle_message_events withdrawn_by unregister_node
  handle-withdrawn_by [] d l = refl
  handle-withdrawn_by (p ∷ ps) d l = ground (arith, handle-withdrawn_by ps d l)

module _ {M K : Type 0} where
  pub handle-unadvertise-messages :
      (t n : String) (d : MsgDiscovery) (l : Links M K)
      → (handle_message_events (unadvertise t n d).2 l).0 ≡ l
  unfolding handle_message_events unadvertise
  handle-unadvertise-messages t n d l = ground arith

module _ {V R : Type 0} (takes : RemoteRequest → Bool) where
  pub handle-unadvertise-services :
      (t n : String) (d d' : SrvDiscovery) (r : ServiceRuntime V R)
      → (handle_service_events takes (unadvertise t n d).2 d' r).0 ≡ r
  unfolding handle_service_events unadvertise
  handle-unadvertise-services t n d d' r = ground arith

module _ {M K V R : Type 0} where
  pub unsubscribe_shared-frame :
      (t n : String) (s : NodeShared M K V R)
      → let after = (unsubscribe_shared t n s).0 in
        (after.messages.discovery ≡ s.messages.discovery) × (after.services ≡ s.services)
  unfolding unsubscribe_shared
  unsubscribe_shared-frame t n s = (refl, refl)

  pub unsubscribe_shared-handlers :
      (t n x v u : String) (s : NodeShared M K V R)
      → handler_at x v u (unsubscribe_shared t n s).0.messages.links.local_subscribers ≡ (
          if str_eq t x && str_eq n v
          then none
          else handler_at x v u s.messages.links.local_subscribers)
  unfolding unsubscribe_shared unsubscribe_locally
  unsubscribe_shared-handlers t n x v u s =
      let d = s.messages.discovery in
      let (l, ps) =
        unsubscribe_locally t n (get_publishers t d.known_publishers) s.messages.links in
      ground (
        arith,
        handle-withdrawn_by ps d l,
        handler_at-remove_handlers_for_node t n x v u s.messages.links.local_subscribers,
      )

  pub unadvertise_message_shared-frame :
      (t n : String) (s : NodeShared M K V R)
      → let after = (unadvertise_message_shared t n s).0 in
        (after.messages.discovery ≡ (unadvertise t n s.messages.discovery).0)
        × (after.messages.links ≡ s.messages.links)
        × (after.services ≡ s.services)
  unfolding unadvertise_message_shared
  unadvertise_message_shared-frame t n s =
      (refl, handle-unadvertise-messages t n s.messages.discovery s.messages.links, refl)

  -- The calls of a node that ends, on the shared state: the results are forgotten, as the node does.
  -- `register` is what a call that registers does, with the arguments that a `SharedCall` leaves out.
  unfoldable pub perform :
      (RemoteRequest → Bool)
      → (SharedCall → NodeShared M K V R → Option (NodeShared M K V R))
      → String
      → SharedCall
      → NodeShared M K V R
      → Option (NodeShared M K V R)
  unfolding unsubscribe_shared unadvertise_message_shared unadvertise_service_shared
  perform takes register n (unsubscribes t) s = some (unsubscribe_shared t n s).0
  perform takes register n (unadvertises_message t) s = some (unadvertise_message_shared t n s).0
  perform takes register n (unadvertises_service t) s =
      Option.map (λ r. r.0) (unadvertise_service_shared takes t n s)
  perform takes register n (subscribes t) s = register (subscribes t) s
  perform takes register n (advertises_message t) s = register (advertises_message t) s
  perform takes register n (advertises_service t) s = register (advertises_service t) s

  unfoldable pub perform_all :
      (RemoteRequest → Bool)
      → (SharedCall → NodeShared M K V R → Option (NodeShared M K V R))
      → String
      → List SharedCall
      → NodeShared M K V R
      → Option (NodeShared M K V R)
  unfolding perform
  perform_all takes register n [] s = some s
  perform_all takes register n (c ∷ cs) s = elim (perform takes register n c s) [
    | none ↦ none
    | some after ↦ perform_all takes register n cs after
  ]
