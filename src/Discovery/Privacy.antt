-- ===== src/Discovery/Privacy.antt =====
-- What a discovery object tells of publishers, and to whom.
use rf_trans_v.Base.{
  ◌≡◌, refl, sym, ap, ◌∙◌, find_if, ℕ, String, Bool, false, Option, none, some, List, [], ◌∷◌,
  arith, All, All-append, inl, inr, Option-cases,
}
use rf_trans_v.Map.{assign}
use rf_trans_v.Wire.{Msg, MsgType, Contents, subscriber, publisher}
use rf_trans_v.Info.{fill_info}
use rf_trans_v.Info.Message.{MessagePublisherInfo, fill_message_info}
use rf_trans_v.Info.Class.{Pub, type-fill-message, topic_of, set_process, set_topic}
use rf_trans_v.TopicStorage.{get_publisher, get_publishers, get_publishers_by_proc}
use rf_trans_v.Discovery.{
  is_local, Discovery, send_msg, send_info, send_connection, own_info, advertise, unadvertise,
  discover, register_node, unregister_node, call_all,
}
use rf_trans_v.Discovery.Handlers.{
  on_advertise, on_unadvertise, on_subscribe, on_bye, handle_msg, dispatch_discovery_msg,
}
use rf_trans_v.Discovery.Peers.{told, on_subscribe-cases}
use rf_trans_v.Discovery.Kept.{step-IsWell}
use rf_trans_v.Discovery.Own.{own_view-step}
use rf_trans_v.Discovery.Owned.{of_find_if, All-remove_if, EachAll-by_proc}
use rf_trans_v.TopicStorage.{at_node}
use rf_trans_v.TopicStorage.Valid.{IsValid}
use rf_trans_v.TopicStorage.Stored.{stored}
use rf_trans_v.TopicStorage.Queries.{get_publisher-eq-find_if}
use mathlib.Core.Path.{subst}
use rf_trans_v.Discovery.Loop.{expire, resend_all, update_heartbeat, update_activity}
use rf_trans_v.Discovery.System.{
  Op, Local, IsWell, own_step, own_view, advertising, unadvertising, discovering, registering,
  unregistering, starting, stopping, receiving, heart_ticking, activity_ticking, setting_intervals,
  setting_callbacks, step, run,
}
use rf_trans_v.Discovery.Public.{
  IsPublic, announces, IsPublic-called, IsPublic-silent, IsPublic-unless, IsPublic-call_all,
  IsPublic-answer_each, IsPublic-resend_all, IsPublic-disconnect_each,
}

module _ {C P : Type 0} ⦃e : Pub P⦄ (Q : P → Type 0) where
  -- The publishers of the process itself are of the collection.
  abbrev pub Owned : Discovery C P → Type 0
  Owned d = (t : String) → All Q (stored t d.process_uuid d.known_publishers)

  -- What is advertised is of the collection.
  abbrev pub Offers : Op C P → Type 0
  Offers (advertising p) = Q p
  Offers _ = Unit

  IsPublic-on_subscribe :
      (near : Bool) (m : Msg) (d : Discovery C P)
      → Owned d
      → All (IsPublic Q) (on_subscribe near m d)
  unfolding on_subscribe
  IsPublic-on_subscribe near m d own =
      elim m.contents as (λ c. All (IsPublic Q) (on_subscribe near (record m { contents = c }) d)) [
        | Contents.unset ↦ tt
        | publisher w ↦ tt
        | subscriber topic ↦
            subst (All (IsPublic Q))
              (sym
                (on_subscribe-cases near (record m { contents = subscriber topic }) topic d refl))
              (IsPublic-answer_each Q near d (stored topic d.process_uuid d.known_publishers)
                (own topic))
      ]

  IsPublic-handle_msg :
      (near : Bool) (m : Msg) (d : Discovery C P)
      → Owned d
      → All (IsPublic Q) (handle_msg near m d).1
  unfolding handle_msg on_advertise on_unadvertise on_bye
  IsPublic-handle_msg near m d own =
      elim m.msg_type
        as (λ ty. All (IsPublic Q) (handle_msg near (record m { msg_type = ty }) d).1) [
          | MsgType.advertise ↦ ground (
            arith,
            IsPublic-called Q d.connection_cb
                (told {P = P} (record m { msg_type = MsgType.advertise })),
          )
          | MsgType.unadvertise ↦ ground (
            arith,
            IsPublic-called Q d.disconnection_cb
                (told {P = P} (record m { msg_type = MsgType.unadvertise })),
          )
          | MsgType.bye ↦ IsPublic-called Q d.disconnection_cb _
          | MsgType.subscribe ↦
              IsPublic-on_subscribe near (record m { msg_type = MsgType.subscribe }) d own
          | MsgType.new_connection ↦ IsPublic-called Q d.registration_cb _
          | MsgType.end_connection ↦ IsPublic-called Q d.unregistration_cb _
          | _ ↦ tt
        ]

  IsPublic-dispatch :
      (now : ℕ) (from_ip : String) (parsed : Option Msg) (d : Discovery C P)
      → Owned d
      → All (IsPublic Q) (dispatch_discovery_msg now from_ip parsed d).1
  unfolding dispatch_discovery_msg
  IsPublic-dispatch now from_ip none d own = tt
  IsPublic-dispatch now from_ip (some m) d own =
      let seen = record d {
        last_seen_by_process = assign m.process_uuid now d.last_seen_by_process;
      } in
      ground (arith, IsPublic-handle_msg (is_local d.host_addr from_ip) m seen own)

  IsPublic-advertise : (p : P) (d : Discovery C P) → Q p → All (IsPublic Q) (advertise p d).2
  unfolding advertise
  IsPublic-advertise p d q =
      let told_peers = IsPublic-unless Q MsgType.advertise p d q in
      ground (arith, All-append (IsPublic Q) _ _ (IsPublic-called Q d.connection_cb p) told_peers)

  IsPublic-unadvertise :
      (topic node : String) (d : Discovery C P)
      → Owned d
      → All (IsPublic Q) (unadvertise topic node d).2
  unfolding unadvertise
  IsPublic-unadvertise topic node d own =
      elim (Option-cases (get_publisher topic d.process_uuid node d.known_publishers)) [
        | inl out ↦ ground (arith, out)
        | inr (p, at) ↦
            let found : find_if (at_node node) (stored topic d.process_uuid d.known_publishers)
                ≡ some p =
              sym (get_publisher-eq-find_if topic d.process_uuid node d.known_publishers) ∙ at in
            ground (
              arith,
              at,
              IsPublic-unless Q MsgType.unadvertise p d (
                  of_find_if Q (at_node node) (stored topic d.process_uuid d.known_publishers) p
                    found (own topic)),
            )
      ]

  IsPublic-discover : (topic : String) (d : Discovery C P) → All (IsPublic Q) (discover topic d).1
  unfolding discover send_msg
  IsPublic-discover topic d =
      let p : P = set_process d.process_uuid (set_topic topic e.fresh) in
      let asked =
        IsPublic-silent C Q (e.fill p) (topic_of p) d.process_uuid d.process_name MsgType.subscribe
          (e.type-fill p) refl in
      elim (Option-cases (get_publishers topic d.known_publishers)) [
        | inl out ↦
            ground
              (arith, out, All-append (IsPublic Q) (send_msg MsgType.subscribe p d) [] asked tt)
        | inr (m, at) ↦ ground (
          arith,
          at,
          All-append (IsPublic Q) (send_msg MsgType.subscribe p d) (call_all d.connection_cb m)
              asked (IsPublic-call_all Q d.connection_cb m),
        )
      ]

  IsPublic-connection :
      (ty : MsgType) (p : MessagePublisherInfo) (d : Discovery C P)
      → announces ty ≡ false
      → All (IsPublic Q) (send_connection ty p d)
  unfolding send_connection
  IsPublic-connection ty p d h =
      IsPublic-silent C Q (fill_message_info p) p.info.topic d.process_uuid d.process_name ty
        (type-fill-message p) h

  IsPublic-heartbeat :
      (now later : ℕ) (d : Discovery C P)
      → IsValid d.known_publishers
      → Owned d
      → All (IsPublic Q) (update_heartbeat now later d).1
  unfolding update_heartbeat send_info fill_info
  IsPublic-heartbeat now later d v own =
      let beat =
        IsPublic-silent C Q (fill_info (own_info d)) "" d.process_uuid d.process_name
          MsgType.heartbeat (λ m. refl) refl in
      let again =
        IsPublic-resend_all Q d (get_publishers_by_proc d.process_uuid d.known_publishers)
          (EachAll-by_proc Q d.process_uuid d.known_publishers v.sorted own) in
      ground (
        arith,
        All-append (IsPublic Q) (send_info MsgType.heartbeat (own_info d) d)
            (resend_all d (get_publishers_by_proc d.process_uuid d.known_publishers)) beat again,
      )

  IsPublic-activity :
      (now later : ℕ) (d : Discovery C P) → All (IsPublic Q) (update_activity now later d).1
  unfolding update_activity
  IsPublic-activity now later d = ground (
    arith,
    IsPublic-disconnect_each Q d.disconnection_cb
        (expire d.silence_interval now d.last_seen_by_process d.known_publishers).2,
  )

  IsPublic-step :
      (op : Op C P) (uuid : String) (d : Discovery C P)
      → IsWell uuid d
      → Offers op
      → Owned d
      → All (IsPublic Q) (step op d).1
  unfolding step register_node unregister_node
  IsPublic-step (advertising p) uuid d w q own = IsPublic-advertise p d q
  IsPublic-step (unadvertising topic node) uuid d w q own = IsPublic-unadvertise topic node d own
  IsPublic-step (discovering topic) uuid d w q own = IsPublic-discover topic d
  IsPublic-step (registering p) uuid d w q own = IsPublic-connection MsgType.new_connection p d refl
  IsPublic-step (unregistering p) uuid d w q own =
      IsPublic-connection MsgType.end_connection p d refl
  IsPublic-step (starting now) uuid d w q own = tt
  IsPublic-step stopping uuid d w q own = tt
  IsPublic-step (receiving now from_ip parsed) uuid d w q own =
      IsPublic-dispatch now from_ip parsed d own
  IsPublic-step (heart_ticking now later) uuid d w q own =
      IsPublic-heartbeat now later d w.valid own
  IsPublic-step (activity_ticking now later) uuid d w q own = IsPublic-activity now later d
  IsPublic-step (setting_intervals a h s) uuid d w q own = tt
  IsPublic-step (setting_callbacks a b c f) uuid d w q own = tt

  own_step-all :
      (op : Op C P) (v : Bool × (String → List P))
      → Offers op
      → ((t : String) → All Q (v.1 t))
      → (t : String) → All Q ((own_step op v).1 t)
  own_step-all (advertising p) v q own t =
      ground (arith, own t, All-append Q (v.1 t) (p ∷ []) (own t) (q, tt))
  own_step-all (unadvertising topic node) v q own t =
      ground (arith, own t, All-remove_if Q (at_node node) (v.1 t) (own t))
  own_step-all (discovering topic) v q own t = own t
  own_step-all (registering p) v q own t = own t
  own_step-all (unregistering p) v q own t = own t
  own_step-all (starting now) v q own t = own t
  own_step-all stopping v q own t = own t
  own_step-all (receiving now from_ip parsed) v q own t = own t
  own_step-all (heart_ticking now later) v q own t = own t
  own_step-all (activity_ticking now later) v q own t = own t
  own_step-all (setting_intervals a h s) v q own t = own t
  own_step-all (setting_callbacks a b c f) v q own t = own t

  Owned-step :
      (op : Op C P) (uuid : String) (d : Discovery C P)
      → IsWell uuid d
      → Local uuid op
      → Offers op
      → Owned d
      → Owned (step op d).0
  Owned-step op uuid d w l q own t =
      subst (All Q) (sym (ap (λ v. v.1 t) (own_view-step op uuid d w l)))
        (own_step-all op (own_view d) q own t)

  -- Take any collection that has the publishers of the process and all that its calls advertise.
  -- Whatever is called, received and timed out in a run from a well-formed object that advertises
  -- only publishers of its own process, each message that is sent to announce or withdraw a publisher
  -- is that of a publisher of the collection which is not of scope PROCESS.
  pub run-IsPublic :
      (ops : List (Op C P)) (uuid : String) (d : Discovery C P)
      → IsWell uuid d
      → All (Local uuid) ops
      → All Offers ops
      → Owned d
      → All (IsPublic Q) (run ops d).1
  unfolding run
  run-IsPublic [] uuid d w l q own = tt
  run-IsPublic (op ∷ ops) uuid d w l q own =
      All-append (IsPublic Q) _ _ (IsPublic-step op uuid d w q.0 own) (
        run-IsPublic ops uuid (step op d).0 (step-IsWell op uuid d w) l.1 q.1
          (Owned-step op uuid d w l.0 q.0 own))
