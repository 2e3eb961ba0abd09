-- ===== src/ServiceRuntime/Reply.antt =====
-- A request and its reply: what comes back to the handler that waits.
use rf_trans_v.Base.{
  ◌≡◌, ◌++◌, refl, sym, ◌∙◌, ap, ℕ, String, Bool, true, false, none, some, List, [], ◌∷◌, arith,
  str_eq, eq_iff, eq_refl, if◌then◌else◌, All, Option-cases, inl, inr,
}
use mathlib.Core.List.{append-nil, Mem, mem-cons_self}
use mathlib.Core.Path.{subst}
use rf_trans_v.HandlerStorage.{HandlerStorage, get_first_service_handler}
use rf_trans_v.HandlerStorage.Contents.{
  same_key, handler_at, get_handler-eq-handler_at, handler_at-remove_handler,
}
use rf_trans_v.ServiceRuntime.{RemoteRequest, RemoteResponse, request_of, send_one, send_topic}
use rf_trans_v.ServiceRuntime.Handler.{ReqHandler, RepHandler, run_callback, notify_result}
use rf_trans_v.ServiceRuntime.Answer.{answer, Notified, handle_response, handle_responses}
use rf_trans_v.ServiceRuntime.Outgoing.{send_topic-sent}
use rf_trans_v.ServiceRuntime.Pending.{handler_at-send_topic}

-- Two responses to one request.
abbrev pub SameKeys : RemoteResponse → RemoteResponse → Type 0
SameKeys p q = (q.topic ≡ p.topic) × (q.node_uuid ≡ p.node_uuid) × (q.req_uuid ≡ p.req_uuid)

-- the response to the request of a handler, by what the service makes of it
abbrev pub response_to : RemoteRequest → Bool × List ℕ → RemoteResponse
response_to f (done, bytes) = record {
  topic = f.topic;
  node_uuid = f.node_uuid;
  req_uuid = f.req_uuid;
  rep_data = bytes;
  result_str = if done then "1" else "0";
}

flag : (done : Bool) → str_eq (if done then "1" else "0") "1" ≡ done
flag true = refl
flag false = refl

module _ {V K : Type 0} where
  -- what a handler is told by a response
  abbrev pub notified_by : RemoteResponse → ReqHandler V K → Notified V K
  notified_by p h =
      let (told, calls) = notify_result p.rep_data (str_eq p.result_str "1") h in
      record { handler = told; calls = calls }

  -- A response notifies the handler that stands at its keys, if one does, and takes it out; all other
  -- handlers stay.
  pub handle_response_lem :
      (p : RemoteResponse) (s : HandlerStorage (ReqHandler V K)) (x m v : String)
      → ((handle_response s p).1
          ≡ (elim (handler_at p.topic p.node_uuid p.req_uuid s) as (λ _. List (Notified V K)) [
            | none ↦ []
            | some h ↦ notified_by p h ∷ []
          ]))
        × (handler_at x m v (handle_response s p).0
            ≡ (if same_key p.topic p.node_uuid p.req_uuid x m v then none else handler_at x m v s))
  unfolding handle_response
  handle_response_lem p s x m v =
      let t = p.topic in
      let n = p.node_uuid in
      let u = p.req_uuid in
      elim (Option-cases (handler_at t n u s)) [
        | inl out ↦ (
          ground (arith, out, get_handler-eq-handler_at t n u s),
          ground
              (arith, out, get_handler-eq-handler_at t n u s, eq_iff t x, eq_iff n m, eq_iff u v),
        )
        | inr (h, at) ↦ (
          ground (arith, at, get_handler-eq-handler_at t n u s),
          ground (
            arith,
            at,
            get_handler-eq-handler_at t n u s,
            (handler_at-remove_handler t n u x m v s).1,
          ),
        )
      ]

  nothing_left :
      (p : RemoteResponse) (ps : List RemoteResponse) (s : HandlerStorage (ReqHandler V K))
      → All (SameKeys p) ps
      → handler_at p.topic p.node_uuid p.req_uuid s ≡ none
      → (handle_responses s ps).1 ≡ []
  unfolding handle_responses
  nothing_left p [] s same out = refl
  nothing_left p (q ∷ ps) s same out =
      let here = handle_response_lem q s p.topic p.node_uuid p.req_uuid in
      let gone : handler_at q.topic q.node_uuid q.req_uuid s ≡ none =
        ap (λ t. handler_at t q.node_uuid q.req_uuid s) same.0.0
        ∙ ap (λ n. handler_at p.topic n q.req_uuid s) same.0.1
        ∙ ap (λ u. handler_at p.topic p.node_uuid u s) same.0.2
        ∙ out in
      let left : handler_at p.topic p.node_uuid p.req_uuid (handle_response s q).0 ≡ none =
        ground (arith, here.1, out) in
      ground (arith, here.0, gone, nothing_left p ps (handle_response s q).0 same.1 left)

  -- Of responses to one request only the first is handed to its handler.
  pub handle_responses-first :
      (p : RemoteResponse) (ps : List RemoteResponse) (s : HandlerStorage (ReqHandler V K))
      → All (SameKeys p) ps
      → (handle_responses s (p ∷ ps)).1 ≡ (handle_response s p).1
  unfolding handle_responses
  handle_responses-first p ps s same =
      let here = handle_response_lem p s p.topic p.node_uuid p.req_uuid in
      let left : handler_at p.topic p.node_uuid p.req_uuid (handle_response s p).0 ≡ none =
        ground (arith, here.1, eq_refl p.topic, eq_refl p.node_uuid, eq_refl p.req_uuid) in
      ap (λ l. (handle_response s p).1 ++ l) (nothing_left p ps (handle_response s p).0 same left)
      ∙ append-nil ((handle_response s p).1)

  send_one-marked :
      (takes : RemoteRequest → Bool) (socket_id t n u : String) (bytes : List ℕ)
      (h : ReqHandler V K)
      → h.requested ≡ false
      → h.serialized ≡ some bytes
      → ((f : RemoteRequest) → takes f ≡ true)
      → send_one takes socket_id t h.req_type_name h.rep_type_name n u h
        ≡ (record h { requested = true }, request_of socket_id t n u bytes h ∷ [])
  unfolding send_one
  send_one-marked takes socket_id t n u bytes h idle is taken = ground (
    arith,
    idle,
    is,
    eq_refl h.req_type_name,
    eq_refl h.rep_type_name,
    taken (request_of socket_id t n u bytes h),
  )

  -- A handler waits for a service, and the socket takes what is sent. Its request is among those that
  -- go out. Where it reaches a process that has a service of the types on the topic, with the sender's
  -- identity in the place of the receiver's, that process answers once, to the sender; its answer
  -- notifies the handler with what the service made of the request's bytes, and whether it succeeded,
  -- and nothing stands at the handler's keys afterwards.
  pub request-answered :
      (takes : RemoteRequest → Bool) (socket_id id t n u : String) (bytes : List ℕ)
      (h : ReqHandler V K) (g : RepHandler) (s : HandlerStorage (ReqHandler V K))
      (services : HandlerStorage RepHandler)
      → handler_at t n u s ≡ some h
      → h.requested ≡ false
      → h.serialized ≡ some bytes
      → ((f : RemoteRequest) → takes f ≡ true)
      → get_first_service_handler
          (λ (k : RepHandler). k.req_type_name)
          (λ k. k.rep_type_name)
          t
          h.req_type_name
          h.rep_type_name
          services
        ≡ some g
      → let f = record (request_of socket_id t n u bytes h) { routing_id = id } in
        let made = run_callback bytes g in
        let sent = send_topic takes socket_id t h.req_type_name h.rep_type_name s in
        let after = handle_response sent.0 (response_to f made) in
        Mem (request_of socket_id t n u bytes h) sent.1
        × (answer services f ≡ record { routing_id = id; response = response_to f made } ∷ [])
        × (after.1 ≡ (
            let (told, calls) = notify_result made.1 made.0 (record h { requested = true }) in
            record { handler = told; calls = calls } ∷ []))
        × (handler_at t n u after.0 ≡ none)
  unfolding answer
  request-answered takes socket_id id t n u bytes h g s services at idle is taken serves =
      let f = record (request_of socket_id t n u bytes h) { routing_id = id } in
      let made = run_callback bytes g in
      let waiting = (send_topic takes socket_id t h.req_type_name h.rep_type_name s).0 in
      let here = handle_response_lem (response_to f made) waiting t n u in
      let marked = record h { requested = true } in
      let marks = send_one-marked takes socket_id t n u bytes h idle is taken in
      let there : handler_at t n u waiting ≡ some marked = ground (
        arith,
        at,
        eq_refl t,
        handler_at-send_topic takes socket_id t h.req_type_name h.rep_type_name t n u s,
        marks,
      ) in
      let asks = request_of socket_id t n u bytes h in
      (
        send_topic-sent takes socket_id t h.req_type_name h.rep_type_name asks n u s h at
            (subst (λ l. Mem asks l) (sym (ap (λ x. x.1) marks)) mem-cons_self),
        ground (arith, serves),
        here.0
            ∙ ap
                (λ o. elim o as (λ _. List (Notified V K)) [
                  | none ↦ []
                  | some k ↦ notified_by (response_to f made) k ∷ []
                ])
                there
            ∙ ap
                (λ b.
                  let (told, calls) = notify_result made.1 b marked in
                  let one : Notified V K = record { handler = told; calls = calls } in one ∷ [])
                (flag made.0),
        here.1 ∙ ground (arith, eq_refl t, eq_refl n, eq_refl u),
      )
