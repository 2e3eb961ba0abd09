-- ===== src/ServiceRuntime/Outgoing.antt =====
-- That `sendPendingRequests` of src/service_runtime.cc sends the request of a handler that waits.
use rf_trans_v.Base.{
  ◌≡◌, sym, String, Bool, some, [], ◌∷◌, arith, str_eq, eq_iff, Option-cases, Bool-cases, inl, inr,
}
use mathlib.Core.List.{Mem, mem-append_left, mem-append_right}
use mathlib.Core.Path.{subst}
use rf_trans_v.Map.{Map, find, find_or}
use rf_trans_v.HandlerStorage.{NodeHandlerMap, HandlerStorage, get_handlers}
use rf_trans_v.HandlerStorage.Contents.{at_node, handler_at, handler_at_cases}
use rf_trans_v.ServiceRuntime.{RemoteRequest, send_one, send_node, send_nodes, send_topic}
use rf_trans_v.ServiceRuntime.Handler.{ReqHandler}

module _ {V K : Type 0} (takes : RemoteRequest → Bool) (socket_id topic req_type rep_type : String)
    (f : RemoteRequest) where
  -- the request is among those that are sent for the handler with these keys
  abbrev IsSent : String → String → ReqHandler V K → Type 0
  IsSent n u h = Mem f (send_one takes socket_id topic req_type rep_type n u h).1

  send_node-sent :
      (n v : String) (hs : Map (ReqHandler V K)) (h : ReqHandler V K)
      → find v hs ≡ some h
      → IsSent n v h
      → Mem f (send_node takes socket_id topic req_type rep_type n hs).1
  unfolding send_node find
  send_node-sent n v [] h at sent = cc
  send_node-sent n v ((u, k) ∷ hs) h at sent =
      let here = (send_one takes socket_id topic req_type rep_type n u k).1 in
      let rest = (send_node takes socket_id topic req_type rep_type n hs).1 in
      elim (Bool-cases (str_eq u v)) [
        | inl same ↦
            let this : here ≡ (send_one takes socket_id topic req_type rep_type n v h).1 =
              ground (arith, at, same, eq_iff u v) in
            mem-append_left {a = f} {s = here} rest (subst (λ l. Mem f l) (sym this) sent)
        | inr other ↦
            let later : find v hs ≡ some h = ground (arith, at, other, eq_iff u v) in
            mem-append_right {a = f} here {t = rest} (send_node-sent n v hs h later sent)
      ]

  send_nodes-sent :
      (n v : String) (nodes : NodeHandlerMap (ReqHandler V K)) (h : ReqHandler V K)
      → at_node n v nodes ≡ some h
      → IsSent n v h
      → Mem f (send_nodes takes socket_id topic req_type rep_type nodes).1
  unfolding send_nodes at_node find find_or
  send_nodes-sent n v [] h at sent = cc
  send_nodes-sent n v ((m, hs) ∷ nodes) h at sent =
      let here = (send_node takes socket_id topic req_type rep_type m hs).1 in
      let rest = (send_nodes takes socket_id topic req_type rep_type nodes).1 in
      elim (Bool-cases (str_eq m n)) [
        | inl same ↦
            let this : find v hs ≡ some h = ground (arith, at, same, eq_iff m n) in
            mem-append_left {a = f} {s = here} rest (
              send_node-sent m v hs h this
                (subst (λ x. IsSent x v h) (sym (ground (arith, same, eq_iff m n))) sent))
        | inr other ↦
            let later : at_node n v nodes ≡ some h = ground (arith, at, other, eq_iff m n) in
            mem-append_right {a = f} here {t = rest} (send_nodes-sent n v nodes h later sent)
      ]

  -- What is sent for a handler of the topic is sent for the topic.
  pub send_topic-sent :
      (n v : String) (s : HandlerStorage (ReqHandler V K)) (h : ReqHandler V K)
      → handler_at topic n v s ≡ some h
      → IsSent n v h
      → Mem f (send_topic takes socket_id topic req_type rep_type s).1
  unfolding send_topic get_handlers
  send_topic-sent n v s h at sent = elim (Option-cases (find topic s)) [
    | inl out ↦ ground (arith, out, at, handler_at_cases topic n v s)
    | inr (nodes, there) ↦
        let this : at_node n v nodes ≡ some h =
          ground (arith, there, at, handler_at_cases topic n v s) in
        rw (there, send_topic) (send_nodes-sent n v nodes h this sent)
  ]
