-- ===== src/ServiceRuntime/Kept.antt =====
-- `sendPendingRequests` of src/service_runtime.cc keeps the storage of request handlers well formed.
use rf_trans_v.Base.{
  ◌≡◌, refl, sym, ◌∙◌, ap, String, Bool, some, [], ◌∷◌, arith, eq_iff, is_empty, Option-cases, inl,
  inr,
}
use mathlib.Core.Option.{map}
use mathlib.Core.Path.{subst}
use rf_trans_v.Map.{Map, find}
use rf_trans_v.Map.Order.{Above, IsSorted}
use rf_trans_v.HandlerStorage.{NodeHandlerMap, HandlerStorage, get_handlers}
use rf_trans_v.HandlerStorage.Valid.{IsValid, IsTopicValid, IsNodeValid, assign-IsValid}
use rf_trans_v.ServiceRuntime.{RemoteRequest, send_one, send_node, send_nodes, send_topic}
use rf_trans_v.ServiceRuntime.Handler.{ReqHandler}
use rf_trans_v.ServiceRuntime.Pending.{find-send_node, AreSorted}

module _ {V K : Type 0} where
  abbrev pub uuid_of : ReqHandler V K → String
  uuid_of h = h.handler_uuid

  -- the storage of requests, each under its own uuid
  abbrev pub AreRequests : HandlerStorage (ReqHandler V K) → Type 0
  AreRequests s = IsValid uuid_of s

  pub AreRequests-AreSorted :
      (t : String) (s : HandlerStorage (ReqHandler V K)) (nodes : NodeHandlerMap (ReqHandler V K))
      → AreRequests s
      → find t s ≡ some nodes
      → AreSorted nodes
  AreRequests-AreSorted t s nodes v at =
      let w = v.topics t nodes at in (w.sorted, λ n hs there. (w.nodes n hs there).handlers.sorted)

module _ {V K : Type 0} (takes : RemoteRequest → Bool)
    (socket_id topic req_type rep_type : String) where
  Above-send_node :
      (k n : String) (hs : Map (ReqHandler V K))
      → Above k hs
      → Above k (send_node takes socket_id topic req_type rep_type n hs).0
  unfolding send_node
  Above-send_node k n [] a = tt
  Above-send_node k n ((u, h) ∷ hs) a = (a.0, Above-send_node k n hs a.1)

  send_node-IsSorted :
      (n : String) (hs : Map (ReqHandler V K))
      → IsSorted hs
      → IsSorted (send_node takes socket_id topic req_type rep_type n hs).0
  unfolding send_node
  send_node-IsSorted n [] o = tt
  send_node-IsSorted n ((u, h) ∷ hs) o = (Above-send_node u n hs o.0, send_node-IsSorted n hs o.1)

  is_empty-send_node :
      (n : String) (hs : Map (ReqHandler V K))
      → is_empty (send_node takes socket_id topic req_type rep_type n hs).0 ≡ is_empty hs
  unfolding send_node
  is_empty-send_node n [] = refl
  is_empty-send_node n ((u, h) ∷ hs) = refl

  uuid_of-send_one :
      (n u : String) (h : ReqHandler V K)
      → uuid_of (send_one takes socket_id topic req_type rep_type n u h).0 ≡ uuid_of h
  unfolding send_one
  uuid_of-send_one n u h = ground arith

  send_node-IsNodeValid :
      (n : String) (hs : Map (ReqHandler V K))
      → IsNodeValid uuid_of n hs
      → IsNodeValid uuid_of n (send_node takes socket_id topic req_type rep_type n hs).0
  send_node-IsNodeValid n hs v = record {
    filled = is_empty-send_node n hs ∙ v.filled;
    handlers = record {
      sorted = send_node-IsSorted n hs v.handlers.sorted;
      own = λ u h at. elim (Option-cases (find u hs)) [
        | inl out ↦
            ground (arith, at, out, find-send_node takes socket_id topic req_type rep_type n u hs)
        | inr (k, there) ↦
            let marked = (send_one takes socket_id topic req_type rep_type n u k).0 in
            let is : marked ≡ h =
              ground
                (arith, at, there, find-send_node takes socket_id topic req_type rep_type n u hs) in
            ap uuid_of (sym is) ∙ uuid_of-send_one n u k ∙ v.handlers.own u k there
      ];
    };
  }

  Above-send_nodes :
      (k : String) (nodes : NodeHandlerMap (ReqHandler V K))
      → Above k nodes
      → Above k (send_nodes takes socket_id topic req_type rep_type nodes).0
  unfolding send_nodes
  Above-send_nodes k [] a = tt
  Above-send_nodes k ((n, hs) ∷ nodes) a = (a.0, Above-send_nodes k nodes a.1)

  send_nodes-IsSorted :
      (nodes : NodeHandlerMap (ReqHandler V K))
      → IsSorted nodes
      → IsSorted (send_nodes takes socket_id topic req_type rep_type nodes).0
  unfolding send_nodes
  send_nodes-IsSorted [] o = tt
  send_nodes-IsSorted ((n, hs) ∷ nodes) o =
      (Above-send_nodes n nodes o.0, send_nodes-IsSorted nodes o.1)

  find-send_nodes :
      (m : String) (nodes : NodeHandlerMap (ReqHandler V K))
      → find m (send_nodes takes socket_id topic req_type rep_type nodes).0
        ≡ map (λ hs. (send_node takes socket_id topic req_type rep_type m hs).0) (find m nodes)
  unfolding send_nodes find
  find-send_nodes m [] = refl
  find-send_nodes m ((n, hs) ∷ nodes) = ground (arith, eq_iff n m, find-send_nodes m nodes)

  send_nodes-IsTopicValid :
      (nodes : NodeHandlerMap (ReqHandler V K))
      → IsTopicValid uuid_of topic nodes
      → IsTopicValid uuid_of topic (send_nodes takes socket_id topic req_type rep_type nodes).0
  send_nodes-IsTopicValid nodes v = record {
    sorted = send_nodes-IsSorted nodes v.sorted;
    nodes = λ n gs at. elim (Option-cases (find n nodes)) [
      | inl out ↦ ground (arith, at, out, find-send_nodes n nodes)
      | inr (hs, there) ↦
          let after = (send_node takes socket_id topic req_type rep_type n hs).0 in
          let is : after ≡ gs = ground (arith, at, there, find-send_nodes n nodes) in
          subst (IsNodeValid uuid_of n) is (send_node-IsNodeValid n hs (v.nodes n hs there))
    ];
  }

  pub send_topic-AreRequests :
      (s : HandlerStorage (ReqHandler V K))
      → AreRequests s
      → AreRequests (send_topic takes socket_id topic req_type rep_type s).0
  unfolding send_topic get_handlers
  send_topic-AreRequests s v = elim (Option-cases (find topic s)) [
    | inl out ↦ rw (out, send_topic) v
    | inr (nodes, at) ↦
        rw (at, send_topic)
          (assign-IsValid uuid_of topic _ s
            (send_nodes-IsTopicValid nodes (v.topics topic nodes at)) v)
  ]
