-- ===== src/Discovery/Peering.antt =====
-- Two processes: what one advertises, another one that gets the message learns.
use rf_trans_v.Base.{
  ◌≡◌, ◌≢◌, refl, sym, ◌∙◌, ℕ, String, true, false, some, [], ◌∷◌, ◌++◌, arith, eq_iff, eq_refl,
}
use rf_trans_v.Map.{assign}
use rf_trans_v.Options.{Scope, scope_eq}
use rf_trans_v.Wire.{Msg, MsgType, Contents}
use rf_trans_v.Info.{fill_info}
use rf_trans_v.Info.Message.{MessagePublisherInfo, default_message_info, fill_message_info}
use rf_trans_v.Info.Class.{Pub, message_pub, topic_of, process_of, scope_of}
use rf_trans_v.Info.RoundTrip.{read-fill-message}
use rf_trans_v.TopicStorage.Stored.{stored, known, with_publisher, stored-add_publisher}
use rf_trans_v.Discovery.{Discovery, send, called, hidden, is_local, build_msg, send_msg, advertise}
use rf_trans_v.Discovery.Handlers.{handle_msg, dispatch_discovery_msg}
use rf_trans_v.Discovery.Peers.{told, on_advertise-stored}

abbrev blank : String → String → Msg
blank uuid name = record {
  version = 0;
  process_uuid = uuid;
  msg_type = MsgType.advertise;
  process_name = name;
  contents = Contents.unset;
}

-- the message by which a process advertises a publisher
unfoldable pub announcement : String → String → MessagePublisherInfo → Msg
unfolding fill_message_info
announcement uuid name p = fill_message_info p (fill_message_info p (blank uuid name))

-- `p` as a peer knows it
abbrev pub as_learned : String → String → MessagePublisherInfo → MessagePublisherInfo
as_learned uuid name p = record p {
  info = record p.info { process_uuid = uuid; process_name = name };
}

pub told-announcement :
    (uuid name : String) (p : MessagePublisherInfo)
    → p.msg_opts.options ≡ p.info.opts
    → told {P = MessagePublisherInfo} (announcement uuid name p) ≡ as_learned uuid name p
unfolding announcement fill_message_info fill_info
told-announcement uuid name p h =
    read-fill-message p default_message_info (fill_message_info p (blank uuid name)) h

pub announcement_fields :
    (uuid name : String) (p : MessagePublisherInfo)
    → ((announcement uuid name p).process_uuid ≡ uuid)
      × ((announcement uuid name p).msg_type ≡ MsgType.advertise)
unfolding announcement fill_message_info fill_info
announcement_fields uuid name p = (refl, refl)

module _ {C P : Type 0} ⦃e : Pub P⦄ where
  -- an ADVERTISE from another process, of a publisher that is visible from here
  dispatch-advertise :
      (now : ℕ) (from_ip : String) (m : Msg) (q : P) (b : Discovery C P)
      → told m ≡ q
      → m.msg_type ≡ MsgType.advertise
      → m.process_uuid ≢ b.process_uuid
      → hidden (is_local b.host_addr from_ip) (scope_of q) ≡ false
      → stored
          (topic_of q)
          (process_of q)
          (dispatch_discovery_msg now from_ip (some m) b).0.known_publishers
        ≡ with_publisher q (stored (topic_of q) (process_of q) b.known_publishers)
  unfolding dispatch_discovery_msg handle_msg
  dispatch-advertise now from_ip m q b is ty other shown =
      let near = is_local b.host_addr from_ip in
      let seen = record b {
        last_seen_by_process = assign m.process_uuid now b.last_seen_by_process;
      } in
      ground (
        arith,
        is,
        ty,
        shown,
        eq_iff m.process_uuid b.process_uuid,
        (on_advertise-stored near m (topic_of q) (process_of q) seen).1,
        eq_refl (topic_of q),
        eq_refl (process_of q),
      )

module _ {C : Type 0} where
  sends-announcement :
      (p : MessagePublisherInfo) (a : Discovery C MessagePublisherInfo)
      → a.enabled ≡ true
      → known p (stored p.info.topic p.info.process_uuid a.known_publishers) ≡ false
      → scope_eq p.msg_opts.scope Scope.process ≡ false
      → (advertise p a).2
        ≡ called a.connection_cb p ++ send (announcement a.process_uuid a.process_name p) ∷ []
  unfolding advertise announcement send_msg build_msg
  sends-announcement p a on new shown = ground (
    arith,
    on,
    new,
    shown,
    (stored-add_publisher p p.info.topic p.info.process_uuid a.known_publishers).0,
  )

module _ {C D : Type 0} where
  -- A process that is enabled advertises a new topic that is not of scope PROCESS: it calls its
  -- callback and sends one message. Another process that gets it, near enough for the scope, then
  -- has the topic, with all its options, at the end of the list of the sender, unless it was known.
  pub advertise-learned :
      (p : MessagePublisherInfo) (a : Discovery C MessagePublisherInfo)
      (b : Discovery D MessagePublisherInfo) (now : ℕ) (from_ip : String)
      → a.enabled ≡ true
      → known p (stored p.info.topic p.info.process_uuid a.known_publishers) ≡ false
      → p.msg_opts.options ≡ p.info.opts
      → p.info.process_uuid ≡ a.process_uuid
      → a.process_uuid ≢ b.process_uuid
      → hidden (is_local b.host_addr from_ip) p.msg_opts.scope ≡ false
      → let m = announcement a.process_uuid a.process_name p in
        ((advertise p a).2 ≡ called a.connection_cb p ++ send m ∷ [])
        × (stored p.info.topic a.process_uuid
              (dispatch_discovery_msg now from_ip (some m) b).0.known_publishers
            ≡ with_publisher
                (as_learned a.process_uuid a.process_name p)
                (stored p.info.topic a.process_uuid b.known_publishers))
  unfolding hidden
  advertise-learned p a b now from_ip on new agree own other shown =
      let u = a.process_uuid in
      let fields = announcement_fields u a.process_name p in
      (
        sends-announcement p a on new (ground (arith, shown)),
        dispatch-advertise now from_ip (announcement u a.process_name p)
            (as_learned u a.process_name p) b (told-announcement u a.process_name p agree) fields.1
            (λ h. other (sym fields.0 ∙ h)) shown,
      )
