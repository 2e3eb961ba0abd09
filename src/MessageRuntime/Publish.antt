-- ===== src/MessageRuntime/Publish.antt =====
-- `publish` of src/message_runtime.cc: to the subscribers of other processes by a ring of shared
-- memory or by the socket, and to those of this process by a queue.
use rf_trans_v.Base.{
  ℕ, ◌<◌, ◌^◌, ◌&&◌, String, Bool, true, false, not, Option, none, some, List, [], ◌∷◌, ◌++◌,
  str_eq, if◌then◌else◌, get_elem?, set,
}
use Prim.Native.Char.{Char}
use rf_trans_v.Map.{Map}
use rf_trans_v.Options.{Scope, scope_eq}
use rf_trans_v.Info.Class.{message_pub}
use rf_trans_v.Info.Message.{MessagePublisherInfo}
use rf_trans_v.TopicStorage.{has_topic_of_type}
use rf_trans_v.HandlerStorage.{NodeHandlerMap, get_handlers}
use rf_trans_v.ShmRing.{Ring, SlotHandle, reserve_write, copy_in, commit_slots, commit_handle}
use rf_trans_v.MessageRuntime.{Links}
use rf_trans_v.MessageRuntime.Handler.{SubscriptionHandler, MessageInfo}
use rf_trans_v.MessageRuntime.Shm.{Memory, Calls, Writer, writer_ring_for}

pub record ShmDescriptor : Type 0 where
  pub shm_name : String
  pub handle : SlotHandle

-- The numbers of a handle are those that the fields of the descriptor hold: 32, 64 and 32 bits.
abbrev pub HasWidths : SlotHandle → Type 0
HasWidths h = (h.slot_index < 2 ^ 32) × (h.seq < 2 ^ 64) × (h.size < 2 ^ 32)

-- The four frames of a message on the socket.
pub record Frames : Type 0 where
  pub topic : String
  pub sender : String
  pub payload : List ℕ
  pub msg_type : String

-- kShmMsgTypeMarker
abbrev pub shm_marker : Char
shm_marker = "\u{1}"

unfoldable pub tag : String → String
tag msg_type = String.◌∷◌ shm_marker msg_type

-- What the generated class does with a message that is sent, and what the runtime asks of the
-- operating system and the socket: the bytes of a descriptor, the names of rings, the success of
-- the calls that make a ring, and whether the socket takes the frames.
pub record Outside (M : Type 0) : Type 0 where
  pub byte_size : M → ℕ
  pub serialize : M → Option (List ℕ)
  pub pack : ShmDescriptor → List ℕ
  pub name_of : String → String
  pub calls : Calls
  pub sends_shm : Bool
  pub sends_inline : Bool

-- What is published, besides the links: the rings, the queue to the subscribers of this process.
pub record PublishMsgDetails (M K : Type 0) : Type 0 where
  pub local_handlers : List (SubscriptionHandler M K)
  pub msg_copy : M
  pub info : MessageInfo
  pub publisher_node_uuid : String

pub record Outlet (M K : Type 0) : Type 0 where
  pub writers : Map Writer
  pub memory : Memory
  pub local_publish_queue : List (PublishMsgDetails M K)

-- the memory with a segment's ring replaced
abbrev pub put_ring : ℕ → Ring → Memory → Memory
put_ring i r mem = record mem { segments = set mem.segments i r }

-- the result of a transport: the rings, the memory, the frames it sent, its answer
abbrev pub Sent : Type 0
Sent = Map Writer × Memory × List Frames × Bool

module _ {M K : Type 0} where
  -- the handlers that a message is queued for
  unfoldable pub fitting_of_node :
      String → Map (SubscriptionHandler M K) → List (SubscriptionHandler M K)
  fitting_of_node msg_type [] = []
  fitting_of_node msg_type ((u, h) ∷ hs) =
      let rest = fitting_of_node msg_type hs in
      if not (str_eq h.msg_type msg_type) then rest else h ∷ rest

  unfoldable pub fitting :
      String → NodeHandlerMap (SubscriptionHandler M K) → List (SubscriptionHandler M K)
  unfolding fitting_of_node
  fitting msg_type [] = []
  fitting msg_type ((n, hs) ∷ nodes) = fitting_of_node msg_type hs ++ fitting msg_type nodes

  -- the branch for the subscribers of this process
  unfoldable pub publish_to_local :
      MessagePublisherInfo → M → Links M K → List (PublishMsgDetails M K)
  unfolding get_handlers fitting
  publish_to_local p msg l = elim (get_handlers p.info.topic l.local_subscribers) [
    | none ↦ []
    | some nodes ↦
        record {
          local_handlers = fitting p.msg_type nodes;
          msg_copy = msg;
          info = record { topic = p.info.topic; msg_type = p.msg_type };
          publisher_node_uuid = p.info.node_uuid;
        }
        ∷ []
  ]

module _ {M : Type 0} (out : Outside M) where
  abbrev pub descriptor_frames : MessagePublisherInfo → String → Writer → SlotHandle → Frames
  descriptor_frames p address w h = record {
    topic = p.info.topic;
    sender = address;
    payload = out.pack (record { shm_name = w.name; handle = h });
    msg_type = tag p.msg_type;
  }

  -- `publishRemoteShm` from the ring on: a slot that was reserved stays odd where the message is
  -- not serialized
  unfoldable pub write_shm :
      MessagePublisherInfo → M → String → Writer → Map Writer → Memory → Ring → Sent
  unfolding reserve_write copy_in commit_slots commit_handle tag
  write_shm p msg address w writers mem ring =
      let size = out.byte_size msg in
      let (r1, reserved) = reserve_write size ring in
      elim reserved [
        | none ↦ (writers, put_ring w.segment r1 mem, [], false)
        | some v ↦ elim (out.serialize msg) [
          | none ↦ (writers, put_ring w.segment r1 mem, [], false)
          | some bytes ↦
              let r2 = record r1 {
                slots = commit_slots v size (copy_in v.slot_index bytes r1.slots);
              } in
              (
                writers,
                put_ring w.segment r2 mem,
                if out.sends_shm
                    then descriptor_frames p address w (commit_handle v size) ∷ []
                    else [],
                out.sends_shm,
              )
        ]
      ]

  unfoldable pub publish_remote_shm : MessagePublisherInfo → M → String → Map Writer → Memory → Sent
  unfolding writer_ring_for write_shm
  publish_remote_shm p msg address writers mem =
      let (kept, grown, ring) =
        writer_ring_for out.calls out.name_of p.info.topic (out.byte_size msg) writers mem in
      elim ring [
        | none ↦ (kept, grown, [], false)
        | some w ↦ elim (get_elem? grown.segments w.segment) [
          | none ↦ (kept, grown, [], false)
          | some r ↦ write_shm p msg address w kept grown r
        ]
      ]

  -- `publishRemote`, after the serialization
  unfoldable pub publish_remote : MessagePublisherInfo → String → List ℕ → List Frames
  publish_remote p address bytes =
      if out.sends_inline
      then record { topic = p.info.topic; sender = address; payload = bytes; msg_type = p.msg_type }
        ∷ []
      else []

  -- the branch of `publish` for remote subscribers
  unfoldable pub publish_to_remote : MessagePublisherInfo → M → String → Map Writer → Memory → Sent
  unfolding scope_eq publish_remote_shm publish_remote
  publish_to_remote p msg address writers mem =
      let use_shm = p.msg_opts.use_shm && scope_eq p.msg_opts.scope Scope.host in
      let (kept, grown, frames, sent) =
        if use_shm
        then publish_remote_shm p msg address writers mem
        else (writers, mem, [], false) in
      if sent then (kept, grown, frames, true) else elim (out.serialize msg) [
        | none ↦ (kept, grown, [], false)
        | some bytes ↦ (kept, grown, publish_remote p address bytes, out.sends_inline)
      ]

  module _ {K : Type 0} where
    unfoldable pub publish :
        MessagePublisherInfo → M → Links M K → Outlet M K → Outlet M K × List Frames × Bool
    unfolding has_topic_of_type publish_to_remote publish_to_local
    publish p msg l o =
        let (kept, grown, frames, sent) =
          if has_topic_of_type (λ (q : MessagePublisherInfo). q.msg_type) p.info.topic p.msg_type
            l.remote_subscribers
          then publish_to_remote p msg l.address o.writers o.memory
          else (o.writers, o.memory, [], true) in
        (
          record {
            writers = kept;
            memory = grown;
            local_publish_queue =
                if sent
                then o.local_publish_queue ++ publish_to_local p msg l
                else o.local_publish_queue;
          },
          frames,
          sent,
        )
