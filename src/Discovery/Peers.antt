-- ===== src/Discovery/Peers.antt =====
-- What the messages of peers do to the publishers that a process knows, and what they make it send
-- and call.
use rf_trans_v.Base.{
  ◌≡◌, ◌≢◌, refl, ◌∙◌, ℕ, String, Bool, not, ◌&&◌, none, some, List, [], ◌∷◌, ◌++◌, arith, str_eq,
  eq_iff, if◌then◌else◌, remove_if, Option, ◌⊎◌,
}
use rf_trans_v.Map.{find, find_or, assign, contains}
use rf_trans_v.Map.Laws.{find-assign, find-erase}
use rf_trans_v.Wire.{Msg, MsgType, subscriber}
use rf_trans_v.Info.Class.{Pub, topic_of, process_of, node_of, scope_of}
use rf_trans_v.TopicStorage.{get_publishers, has_any_publishers, has_topic}
use rf_trans_v.TopicStorage.Valid.{IsValid}
use rf_trans_v.TopicStorage.Stored.{stored, known, stored-add_publisher, listed}
use rf_trans_v.TopicStorage.Delete.{stored-del_publishers_by_node, stored-del_publishers_by_proc}
use rf_trans_v.Info.{read_info}
use rf_trans_v.Discovery.{Discovery, Event, called, hidden, is_local, send_msg}
use rf_trans_v.Discovery.Handlers.{
  answer_each, on_advertise, on_unadvertise, on_subscribe, on_bye, handle_msg,
  dispatch_discovery_msg,
}

module _ {P : Type 0} ⦃e : Pub P⦄ where
  -- the publisher that a message tells of
  abbrev pub told : Msg → P
  told m = e.read m e.fresh

-- It is of the process that sent the message, or of none.
process_of-told :
    (P : Type 0) ⦃e : Pub P⦄ (m : Msg)
    → (process_of (told {P = P} m) ≡ m.process_uuid) ⊎ (process_of (told {P = P} m) ≡ "")
unfolding read_info
process_of-told P ⦃e⦄ m = ground (arith, e.info-read m e.fresh, e.info-fresh)

module _ {C P : Type 0} ⦃e : Pub P⦄ where
  -- A publisher that a peer advertises is stored and reported to the connection callback exactly
  -- when it is visible from here and was not known; every other list of publishers is left alone.
  pub on_advertise-stored :
      (near : Bool) (m : Msg) (t u : String) (d : Discovery C P)
      → let p : P = told m in
        let s = d.known_publishers in
        let news =
          not (hidden near (scope_of p)) && not (known p (stored (topic_of p) (process_of p) s)) in
        ((on_advertise near m d).1 ≡ (if news then called d.connection_cb p else []))
        × (stored t u (on_advertise near m d).0.known_publishers ≡ (
            if news && str_eq (topic_of p) t && str_eq (process_of p) u
            then stored t u s ++ p ∷ []
            else stored t u s))
  unfolding on_advertise
  on_advertise-stored near m t u d =
      let p : P = told m in
      let h = stored-add_publisher p t u d.known_publishers in
      (
        ground (arith, h.0),
        ground (arith, h.0, h.1, eq_iff (topic_of p) t, eq_iff (process_of p) u),
      )

  -- an ADVERTISE for each publisher of a list
  unfoldable pub send_each : Discovery C P → List P → List (Event C P)
  unfolding send_msg
  send_each d [] = []
  send_each d (p ∷ ps) = send_msg MsgType.advertise p d ++ send_each d ps

  answer_each-send_each :
      (near : Bool) (d : Discovery C P) (ps : List P)
      → answer_each near d ps ≡ send_each d (remove_if (λ p. hidden near (scope_of p)) ps)
  unfolding answer_each send_each
  answer_each-send_each near d [] = refl
  answer_each-send_each near d (p ∷ ps) = ground (arith, answer_each-send_each near d ps)

  pub on_subscribe-cases :
      (near : Bool) (m : Msg) (topic : String) (d : Discovery C P)
      → m.contents ≡ subscriber topic
      → on_subscribe near m d ≡ answer_each near d (stored topic d.process_uuid d.known_publishers)
  unfolding on_subscribe answer_each has_any_publishers has_topic contains stored listed
      get_publishers find_or
  on_subscribe-cases near m topic d h = ground (arith, h)

  -- A SUBSCRIBE is answered by one ADVERTISE for each publisher of the topic that this process has
  -- and that is visible from the sender, in their order.
  pub on_subscribe-answers :
      (near : Bool) (m : Msg) (topic : String) (d : Discovery C P)
      → m.contents ≡ subscriber topic
      → on_subscribe near m d
        ≡ send_each d (
            remove_if
              (λ p. hidden near (scope_of p))
              (stored topic d.process_uuid d.known_publishers))
  on_subscribe-answers near m topic d h =
      on_subscribe-cases near m topic d h ∙ answer_each-send_each near d _

  -- the lists of this process after a message of another one
  own_after_advertise :
      (near : Bool) (m : Msg) (t : String) (d : Discovery C P)
      → m.process_uuid ≢ d.process_uuid
      → d.process_uuid ≢ ""
      → stored t d.process_uuid (on_advertise near m d).0.known_publishers
        ≡ stored t d.process_uuid d.known_publishers
  own_after_advertise near m t d h o = ground (
    arith,
    (on_advertise-stored near m t d.process_uuid d).1,
    process_of-told P m,
    eq_iff (process_of (told {P = P} m)) d.process_uuid,
  )

  own_after_unadvertise :
      (near : Bool) (m : Msg) (t : String) (d : Discovery C P)
      → m.process_uuid ≢ d.process_uuid
      → d.process_uuid ≢ ""
      → stored t d.process_uuid (on_unadvertise near m d).0.known_publishers
        ≡ stored t d.process_uuid d.known_publishers
  unfolding on_unadvertise
  own_after_unadvertise near m t d h o =
      let p : P = told m in
      ground (
        arith,
        stored-del_publishers_by_node (topic_of p) (process_of p) (node_of p) t d.process_uuid
            d.known_publishers,
        process_of-told P m,
        eq_iff (process_of p) d.process_uuid,
      )

  own_after_bye :
      (m : Msg) (t : String) (d : Discovery C P)
      → IsValid d.known_publishers
      → m.process_uuid ≢ d.process_uuid
      → stored t d.process_uuid (on_bye m d).0.known_publishers
        ≡ stored t d.process_uuid d.known_publishers
  unfolding on_bye
  own_after_bye m t d v h = ground (
    arith,
    stored-del_publishers_by_proc m.process_uuid t d.process_uuid d.known_publishers v.sorted,
    eq_iff m.process_uuid d.process_uuid,
  )

  own_after_handle :
      (near : Bool) (m : Msg) (t : String) (d : Discovery C P)
      → IsValid d.known_publishers
      → m.process_uuid ≢ d.process_uuid
      → d.process_uuid ≢ ""
      → stored t d.process_uuid (handle_msg near m d).0.known_publishers
        ≡ stored t d.process_uuid d.known_publishers
  unfolding handle_msg
  own_after_handle near m t d v h o = ground (
    arith,
    own_after_advertise near m t d h o,
    own_after_unadvertise near m t d h o,
    own_after_bye m t d v h,
  )

  -- No datagram changes what the process knows of its own publishers, unless the process has the
  -- empty uuid.
  pub own_publishers-dispatch :
      (now : ℕ) (from_ip : String) (parsed : Option Msg) (t : String) (d : Discovery C P)
      → IsValid d.known_publishers
      → d.process_uuid ≢ ""
      → stored t d.process_uuid (dispatch_discovery_msg now from_ip parsed d).0.known_publishers
        ≡ stored t d.process_uuid d.known_publishers
  unfolding dispatch_discovery_msg
  own_publishers-dispatch now from_ip none t d v o = refl
  own_publishers-dispatch now from_ip (some m) t d v o =
      let seen = record d {
        last_seen_by_process = assign m.process_uuid now d.last_seen_by_process;
      } in
      ground (
        arith,
        eq_iff m.process_uuid d.process_uuid,
        own_after_handle (is_local d.host_addr from_ip) m t seen v,
        o,
      )

  -- After the BYE of a peer nothing of it is known under any topic, and its time is forgotten; what
  -- is known of the other processes stays.
  pub dispatch-bye :
      (now : ℕ) (from_ip t u : String) (m : Msg) (d : Discovery C P)
      → IsValid d.known_publishers
      → m.msg_type ≡ MsgType.bye
      → m.process_uuid ≢ d.process_uuid
      → (stored t u (dispatch_discovery_msg now from_ip (some m) d).0.known_publishers
          ≡ (if str_eq m.process_uuid u then [] else stored t u d.known_publishers))
        × (find u (dispatch_discovery_msg now from_ip (some m) d).0.last_seen_by_process
            ≡ (if str_eq m.process_uuid u then none else find u d.last_seen_by_process))
  unfolding dispatch_discovery_msg handle_msg on_bye
  dispatch-bye now from_ip t u m d v b h = (
    ground (
      arith,
      b,
      eq_iff m.process_uuid d.process_uuid,
      stored-del_publishers_by_proc m.process_uuid t u d.known_publishers v.sorted,
    ),
    ground (
      arith,
      b,
      eq_iff m.process_uuid d.process_uuid,
      find-erase m.process_uuid u (assign m.process_uuid now d.last_seen_by_process),
      find-assign m.process_uuid u now d.last_seen_by_process,
    ),
  )
