-- ===== src/ServiceRuntime/Pending.antt =====
-- What `sendPendingRequests` of src/service_runtime.cc does with each handler, by its keys.
use rf_trans_v.Base.{
  ◌≡◌, ◌+◌, ◌++◌, refl, ℕ, String, Bool, ◌&&◌, Option, none, some, List, [], ◌∷◌, arith, str_eq,
  eq_iff, eq_refl, if◌then◌else◌, length, Option-cases, inl, inr,
}
use mathlib.Core.Option.{map}
use rf_trans_v.Map.{Map, find, find_or}
use rf_trans_v.Map.Order.{IsSorted, find_of_Above}
use rf_trans_v.HandlerStorage.{NodeHandlerMap, HandlerStorage, get_handlers}
use rf_trans_v.HandlerStorage.Contents.{
  same_key, at_node, handler_at, handler_at_cases, handler_at-assign,
}
use rf_trans_v.ServiceRuntime.{RemoteRequest, send_one, send_node, send_nodes, send_topic}
use rf_trans_v.ServiceRuntime.Handler.{ReqHandler}

-- The nodes of a topic are in order, and so are the handlers of each.
abbrev pub AreSorted : {H : Type 0} → NodeHandlerMap H → Type 0
AreSorted {H} nodes =
    IsSorted nodes × ((n : String) (hs : Map H) → find n nodes ≡ some hs → IsSorted hs)

-- How many of the requests are of the handler with these keys.
abbrev pub of_key : String → String → String → RemoteRequest → Bool
of_key t n u f = same_key t n u f.topic f.node_uuid f.req_uuid

unfoldable pub count : String → String → String → List RemoteRequest → ℕ
count t n u [] = 0
count t n u (f ∷ fs) = (if of_key t n u f then 1 else 0) + count t n u fs

pub count-append :
    (t n u : String) (a b : List RemoteRequest)
    → count t n u (a ++ b) ≡ count t n u a + count t n u b
unfolding count
count-append t n u [] b = omega arith
count-append t n u (f ∷ a) b = ground (arith, count-append t n u a b)

module _ {V K : Type 0} (takes : RemoteRequest → Bool)
    (socket_id topic req_type rep_type : String) where
  abbrev marked : String → String → ReqHandler V K → ReqHandler V K
  marked n u h = (send_one takes socket_id topic req_type rep_type n u h).0

  abbrev sent_for : String → String → ReqHandler V K → List RemoteRequest
  sent_for n u h = (send_one takes socket_id topic req_type rep_type n u h).1

  pub find-send_node :
      (n v : String) (hs : Map (ReqHandler V K))
      → find v (send_node takes socket_id topic req_type rep_type n hs).0
        ≡ map (marked n v) (find v hs)
  unfolding send_node find
  find-send_node n v [] = refl
  find-send_node n v ((u, h) ∷ hs) = ground (arith, eq_iff u v, find-send_node n v hs)

  at_node-send_nodes :
      (m v : String) (nodes : NodeHandlerMap (ReqHandler V K))
      → at_node m v (send_nodes takes socket_id topic req_type rep_type nodes).0
        ≡ map (marked m v) (at_node m v nodes)
  unfolding send_nodes at_node find find_or
  at_node-send_nodes m v [] = refl
  at_node-send_nodes m v ((n, hs) ∷ nodes) =
      ground (arith, eq_iff n m, at_node-send_nodes m v nodes, find-send_node n v hs)

  -- `sendPendingRequests` leaves each handler of the topic marked as it does with that one, and the
  -- handlers of other topics as they were.
  pub handler_at-send_topic :
      (x m v : String) (s : HandlerStorage (ReqHandler V K))
      → handler_at x m v (send_topic takes socket_id topic req_type rep_type s).0
        ≡ (if str_eq topic x then map (marked m v) (handler_at x m v s) else handler_at x m v s)
  unfolding send_topic get_handlers
  handler_at-send_topic x m v s = elim (Option-cases (find topic s)) [
    | inl out ↦ ground (arith, out, eq_iff topic x, handler_at_cases topic m v s)
    | inr (nodes, at) ↦
        let left = (send_nodes takes socket_id topic req_type rep_type nodes).0 in
        ground (
          arith,
          at,
          eq_iff topic x,
          handler_at_cases topic m v s,
          handler_at-assign topic x m v left s,
          at_node-send_nodes m v nodes,
        )
  ]

  count-send_one :
      (t n u m v : String) (h : ReqHandler V K)
      → count t m v (sent_for n u h)
        ≡ (if same_key t m v topic n u then length (sent_for n u h) else 0)
  unfolding send_one count
  count-send_one t n u m v h = ground arith

  -- what is sent for the handler that stands at a key, if one does
  abbrev due : String → String → Option (ReqHandler V K) → ℕ
  due m v none = 0
  due m v (some h) = length (sent_for m v h)

  count-send_node :
      (t m v n : String) (hs : Map (ReqHandler V K))
      → IsSorted hs
      → count t m v (send_node takes socket_id topic req_type rep_type n hs).1
        ≡ (if str_eq t topic && str_eq m n then due m v (find v hs) else 0)
  unfolding send_node count find
  count-send_node t m v n [] o = ground arith
  count-send_node t m v n ((u, h) ∷ hs) o =
      let rest = (send_node takes socket_id topic req_type rep_type n hs).1 in
      ground (
        arith,
        eq_iff u v,
        eq_iff v u,
        eq_iff m n,
        find_of_Above u hs o.0,
        count-append t m v (sent_for n u h) rest,
        count-send_one t n u m v h,
        count-send_node t m v n hs o.1,
      )

  AreSorted-tail :
      (n : String) (hs : Map (ReqHandler V K)) (nodes : NodeHandlerMap (ReqHandler V K))
      → AreSorted ((n, hs) ∷ nodes)
      → IsSorted hs × AreSorted nodes
  unfolding find
  AreSorted-tail n hs nodes (o, each) = (
    each n hs (ground (arith, eq_refl n)),
    (o.1, λ m gs at. each m gs (ground (arith, at, eq_iff n m, find_of_Above n nodes o.0))),
  )

  count-send_nodes :
      (t m v : String) (nodes : NodeHandlerMap (ReqHandler V K))
      → AreSorted nodes
      → count t m v (send_nodes takes socket_id topic req_type rep_type nodes).1
        ≡ (if str_eq t topic then due m v (at_node m v nodes) else 0)
  unfolding send_nodes count at_node find find_or
  count-send_nodes t m v [] o = ground arith
  count-send_nodes t m v ((n, hs) ∷ nodes) o =
      let tail = AreSorted-tail n hs nodes o in
      let here = (send_node takes socket_id topic req_type rep_type n hs).1 in
      let rest = (send_nodes takes socket_id topic req_type rep_type nodes).1 in
      ground (
        arith,
        eq_iff n m,
        eq_iff m n,
        find_of_Above n nodes o.0.0,
        count-append t m v here rest,
        count-send_node t m v n hs tail.0,
        count-send_nodes t m v nodes tail.1,
      )

  count-send_topic :
      (t m v : String) (s : HandlerStorage (ReqHandler V K))
      → ((nodes : NodeHandlerMap (ReqHandler V K)) → find topic s ≡ some nodes → AreSorted nodes)
      → count t m v (send_topic takes socket_id topic req_type rep_type s).1
        ≡ (if str_eq t topic then due m v (handler_at t m v s) else 0)
  unfolding send_topic get_handlers count
  count-send_topic t m v s sorted = elim (Option-cases (find topic s)) [
    | inl out ↦ ground (arith, out, eq_iff t topic, handler_at_cases t m v s)
    | inr (nodes, at) ↦ ground (
      arith,
      at,
      eq_iff t topic,
      handler_at_cases t m v s,
      count-send_nodes t m v nodes (sorted nodes at),
    )
  ]

-- 1 where a handler stands that has not been requested.
abbrev pub pending : {V K : Type 0} → Option (ReqHandler V K) → ℕ
pending none = 0
pending (some h) = if h.requested then 0 else 1

module _ {V K : Type 0} (takes : RemoteRequest → Bool)
    (socket_id topic req_type rep_type : String) where
  sends_or_waits :
      (n u : String) (h : ReqHandler V K)
      → let r = send_one takes socket_id topic req_type rep_type n u h in
        length r.1 + pending (some r.0) ≡ pending (some h)
  unfolding send_one
  sends_or_waits n u h = ground arith

  -- A handler that was waiting is either sent for, once, or waits still.
  pub send_topic-pending :
      (t m v : String) (s : HandlerStorage (ReqHandler V K))
      → ((nodes : NodeHandlerMap (ReqHandler V K)) → find topic s ≡ some nodes → AreSorted nodes)
      → let r = send_topic takes socket_id topic req_type rep_type s in
        count t m v r.1 + pending (handler_at t m v r.0) ≡ pending (handler_at t m v s)
  send_topic-pending t m v s sorted = elim (Option-cases (handler_at t m v s)) [
    | inl out ↦ ground (
      arith,
      out,
      eq_iff t topic,
      eq_iff topic t,
      count-send_topic takes socket_id topic req_type rep_type t m v s sorted,
      handler_at-send_topic takes socket_id topic req_type rep_type t m v s,
    )
    | inr (h, at) ↦ ground (
      arith,
      at,
      eq_iff t topic,
      eq_iff topic t,
      count-send_topic takes socket_id topic req_type rep_type t m v s sorted,
      handler_at-send_topic takes socket_id topic req_type rep_type t m v s,
      sends_or_waits m v h,
    )
  ]
