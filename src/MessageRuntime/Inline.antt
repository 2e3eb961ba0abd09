-- ===== src/MessageRuntime/Inline.antt =====
-- A message by the socket (src/message_runtime.cc): what a publisher sends, a subscriber is called
-- with.
use rf_trans_v.Base.{
  ◌≡◌, ◌≢◌, refl, ◌&&◌, ◌++◌, ap, ℕ, String, Bool, true, false, Option, some, List, [], ◌∷◌, arith,
  if◌then◌else◌, inl, inr,
}
use rf_trans_v.Map.{Map}
use rf_trans_v.Options.{Scope, scope_eq}
use rf_trans_v.Info.Class.{message_pub}
use rf_trans_v.Info.Message.{MessagePublisherInfo}
use rf_trans_v.TopicStorage.{has_topic_of_type}
use rf_trans_v.HandlerStorage.{NodeHandlerMap, HandlerStorage, get_handlers}
use rf_trans_v.MessageRuntime.{Links}
use rf_trans_v.MessageRuntime.Handler.{SubscriptionHandler}
use rf_trans_v.MessageRuntime.Shm.{Memory, Calls}
use rf_trans_v.MessageRuntime.Publish.{
  ShmDescriptor, Outside, Outlet, Frames, tag, publish, publish_to_remote, publish_remote,
  publish_remote_shm, publish_to_local, fitting,
}
use rf_trans_v.MessageRuntime.Receive.{
  RemoteMsg, message_of, untag, info_of, queue_message, receive_message, dispatch_remote,
}
use rf_trans_v.MessageRuntime.Queue.{untag_lem}
use rf_trans_v.MessageRuntime.Deliver.{delivered, deliver-delivered}

-- a type that does not begin with the mark is read back as it is
untag_of_plain : (t : String) → ((u : String) → t ≢ tag u) → untag t ≡ (false, t)
untag_of_plain t plain = elim (untag_lem t).1 [
  | inl same ↦ same
  | inr tagged ↦ elim (plain tagged.0 tagged.1) [ ]
]

module _ {M : Type 0} (out : Outside M) (p : MessagePublisherInfo) (msg : M) where
  -- the message by the socket
  abbrev pub inline_frames : String → List ℕ → Frames
  inline_frames address bytes = record {
    topic = p.info.topic;
    sender = address;
    payload = bytes;
    msg_type = p.msg_type;
  }

  -- whether shared memory is asked for and takes the message
  abbrev pub by_shm : {K : Type 0} → Links M K → Outlet M K → Bool
  by_shm l o =
      if p.msg_opts.use_shm && scope_eq p.msg_opts.scope Scope.host
      then (publish_remote_shm out p msg l.address o.writers o.memory).3
      else false

  module _ {K : Type 0} where
    publish-inline :
        (l : Links M K) (o : Outlet M K) (bytes : List ℕ)
        → by_shm l o ≡ false
        → has_topic_of_type
            (λ (q : MessagePublisherInfo). q.msg_type)
            p.info.topic
            p.msg_type
            l.remote_subscribers
          ≡ true
        → out.serialize msg ≡ some bytes
        → out.sends_inline ≡ true
        → let after = publish out p msg l o in
          (after.1 ≡ inline_frames l.address bytes ∷ [])
          × (after.2 ≡ true)
          × (after.0.local_publish_queue ≡ o.local_publish_queue ++ publish_to_local p msg l)
    unfolding publish publish_to_remote publish_remote
    publish-inline l o bytes inline wanted is sends = (
      ground (arith, inline, wanted, is, sends),
      ground (arith, inline, wanted, is, sends),
      ground (arith, inline, wanted, is, sends),
    )

    -- A message of a type that does not begin with the mark of shared memory is published where a
    -- remote subscriber of the type is known, shared memory is not asked for or does not take it, it
    -- can be serialized and the socket takes the frames. The publisher answers true, queues it for the
    -- subscribers of its own process, and sends one message. A process with handlers for the topic
    -- that receives this message calls all handlers of its type with what the first of them makes of
    -- the bytes, whatever its memory and its rings are.
    pub publish-handled :
        (l : Links M K) (o : Outlet M K) (bytes : List ℕ) (unpack : List ℕ → Option ShmDescriptor)
        (calls : Calls) (mem after : Memory) (seen : List ℕ) (queue : List RemoteMsg)
        (nodes : NodeHandlerMap (SubscriptionHandler M K))
        (s : HandlerStorage (SubscriptionHandler M K)) (readers : Map ℕ)
        → ((u : String) → p.msg_type ≢ tag u)
        → by_shm l o ≡ false
        → has_topic_of_type
            (λ (q : MessagePublisherInfo). q.msg_type)
            p.info.topic
            p.msg_type
            l.remote_subscribers
          ≡ true
        → out.serialize msg ≡ some bytes
        → out.sends_inline ≡ true
        → get_handlers p.info.topic s ≡ some nodes
        → let sent = publish out p msg l o in
          (f : Frames) × (m : RemoteMsg) × (sent.1 ≡ f ∷ [])
          × (sent.2 ≡ true)
          × (sent.0.local_publish_queue ≡ o.local_publish_queue ++ publish_to_local p msg l)
          × (receive_message (some f) queue ≡ queue_message m queue)
          × (dispatch_remote unpack calls mem seen after m s readers ≡ (
            readers,
            delivered true bytes
                (record { topic = p.info.topic; msg_type = p.msg_type })
                (fitting p.msg_type nodes),
          ))
    unfolding receive_message dispatch_remote
    publish-handled l o bytes unpack calls mem after seen queue nodes s readers plain inline wanted
          is sends handlers =
        let f = inline_frames l.address bytes in
        let out_there = publish-inline l o bytes inline wanted is sends in
        let same = untag_of_plain p.msg_type plain in
        let type_back : (message_of f).msg_type ≡ p.msg_type = ap (λ x. x.1) same in
        let inline_there : (message_of f).is_shm ≡ false = ap (λ x. x.0) same in
        (
          f,
          message_of f,
          out_there.0,
          out_there.1,
          out_there.2,
          refl,
          ground (
            arith,
            handlers,
            inline_there,
            type_back,
            deliver-delivered true bytes (info_of (message_of f)) nodes,
          ),
        )
