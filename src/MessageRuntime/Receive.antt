-- ===== src/MessageRuntime/Receive.antt =====
-- `receiveMessage`, `localDispatchLoop` and `remoteDispatchLoop` of src/message_runtime.cc: a
-- message from the socket to the queue, and from the queues to the subscribers' callbacks.
use rf_trans_v.Base.{
  ℕ, String, Bool, true, false, not, Option, none, some, List, [], ◌∷◌, ◌++◌, str_eq, ltb, ◌==◌,
  if◌then◌else◌, length, get_elem?,
}
use Prim.Native.Char.{code}
use rf_trans_v.Map.{Map}
use rf_trans_v.HandlerStorage.{NodeHandlerMap, HandlerStorage, get_handlers}
use rf_trans_v.ShmRing.{begin_read, finish_read, take}
use rf_trans_v.MessageRuntime.Handler.{
  SubscriptionHandler, MessageInfo, Call, run_local_callback, create_msg,
}
use rf_trans_v.MessageRuntime.Shm.{Memory, Calls, reader_ring_for}
use rf_trans_v.MessageRuntime.Publish.{ShmDescriptor, Frames, PublishMsgDetails}

-- kMsgQueueLimit
abbrev pub msg_queue_limit : ℕ
msg_queue_limit = 1000

pub record RemoteMsg : Type 0 where
  pub topic : String
  pub sender : String
  pub payload : List ℕ
  pub msg_type : String
  pub is_shm : Bool

-- the last frame: whether it has the marker, and the type in it
unfoldable pub untag : String → Bool × String
untag String.[] = (false, String.[])
untag (String.◌∷◌ c t) = if code c == 1 then (true, t) else (false, String.◌∷◌ c t)

abbrev pub message_of : Frames → RemoteMsg
message_of f = record {
  topic = f.topic;
  sender = f.sender;
  payload = f.payload;
  msg_type = (untag f.msg_type).1;
  is_shm = (untag f.msg_type).0;
}

-- `pop_front`
unfoldable pub pop_front : List RemoteMsg → List RemoteMsg
pop_front [] = []
pop_front (m ∷ q) = q

unfoldable pub queue_message : RemoteMsg → List RemoteMsg → List RemoteMsg
unfolding pop_front
queue_message m queue =
    let grown = queue ++ m ∷ [] in
    if ltb msg_queue_limit (length grown) then pop_front grown else grown

-- `receiveMessage`; `none` where the socket does not give the four frames
unfoldable pub receive_message : Option Frames → List RemoteMsg → List RemoteMsg
unfolding untag queue_message
receive_message none queue = queue
receive_message (some f) queue = queue_message (message_of f) queue

-- What the loops over a remote message's handlers come to: `proto_msg`, `invalid_msg`, and the calls.
abbrev pub Delivery : Type 0 → Type 0 → Type 0
Delivery M K = Option M × Bool × List (Call M K)

abbrev pub info_of : RemoteMsg → MessageInfo
info_of m = record { topic = m.topic; msg_type = m.msg_type }

-- what the slot of a message's descriptor holds, in the ring that a reader has or maps: the bytes
-- that `beginRead` points to
unfoldable pub peeked :
    (List ℕ → Option ShmDescriptor) → Calls → Memory → RemoteMsg → Map ℕ → List ℕ
unfolding reader_ring_for
peeked unpack calls mem m readers = elim (unpack m.payload) [
  | none ↦ []
  | some d ↦ elim ((reader_ring_for calls d.shm_name readers mem).1) [
    | none ↦ []
    | some segment ↦ elim (get_elem? mem.segments segment) [
      | none ↦ []
      | some r ↦ elim (get_elem? r.slots d.handle.slot_index) [
        | none ↦ []
        | some slot ↦ take d.handle.size slot.payload
      ]
    ]
  ]
]

module _ {M K : Type 0} where
  -- a round of `localDispatchLoop` over the queue that it took
  unfoldable pub call_each : M → MessageInfo → List (SubscriptionHandler M K) → List (Call M K)
  unfolding run_local_callback
  call_each msg info [] = []
  call_each msg info (h ∷ hs) = (run_local_callback h msg info).1 ++ call_each msg info hs

  unfoldable pub dispatch_local : List (PublishMsgDetails M K) → List (Call M K)
  unfolding call_each
  dispatch_local [] = []
  dispatch_local (d ∷ ds) = call_each d.msg_copy d.info d.local_handlers ++ dispatch_local ds

  -- The loops over the handlers of a remote message. `made` is `proto_msg`, `bytes` what is parsed
  -- and `whole` what `finishRead` answers after it.
  unfoldable pub deliver_node :
      Bool → List ℕ → MessageInfo → Map (SubscriptionHandler M K) → Option M → Delivery M K
  unfolding create_msg run_local_callback
  deliver_node whole bytes info [] made = (made, false, [])
  deliver_node whole bytes info ((u, h) ∷ hs) made =
      let rest = deliver_node whole bytes info hs in
      if not (str_eq h.msg_type info.msg_type) then rest made else elim made [
        | some msg ↦
            let (last, invalid, calls) = rest (some msg) in
            (last, invalid, (run_local_callback h msg info).1 ++ calls)
        | none ↦ elim (create_msg h bytes) [
          | none ↦ (none, true, [])
          | some msg ↦
              let (last, invalid, calls) = rest (some msg) in
              if whole
              then (last, invalid, (run_local_callback h msg info).1 ++ calls)
              else (some msg, true, [])
        ]
      ]

  unfoldable pub deliver :
      Bool
      → List ℕ
      → MessageInfo
      → NodeHandlerMap (SubscriptionHandler M K)
      → Option M
      → Delivery M K
  unfolding deliver_node
  deliver whole bytes info [] made = (made, false, [])
  deliver whole bytes info ((n, hs) ∷ nodes) made =
      let (here, invalid, calls) = deliver_node whole bytes info hs made in
      let (last, bad, more) = deliver whole bytes info nodes here in
      if invalid then (here, true, calls) else (last, bad, calls ++ more)

  -- A message in `remoteDispatchLoop`. `unpack` is the descriptor of bytes of its size. The parse
  -- reads shared memory: `seen` is what it sees there, from the memory `mem` at `beginRead` to
  -- `after` at `finishRead`.
  unfoldable pub dispatch_remote :
      (List ℕ → Option ShmDescriptor)
      → Calls
      → Memory
      → List ℕ
      → Memory
      → RemoteMsg
      → HandlerStorage (SubscriptionHandler M K)
      → Map ℕ
      → Map ℕ × List (Call M K)
  unfolding get_handlers reader_ring_for begin_read finish_read deliver
  dispatch_remote unpack calls mem seen after m s readers = elim (get_handlers m.topic s) [
    | none ↦ (readers, [])
    | some nodes ↦
        if not m.is_shm
        then (readers, (deliver true m.payload (info_of m) nodes none).2)
        else elim (unpack m.payload) [
          | none ↦ (readers, [])
          | some d ↦
              let (kept, ring) = reader_ring_for calls d.shm_name readers mem in
              elim ring [
                | none ↦ (kept, [])
                | some segment ↦ elim (get_elem? mem.segments segment) [
                  | none ↦ (kept, [])
                  | some r ↦ elim (get_elem? after.segments segment) [
                    | none ↦ (kept, [])
                    | some later ↦
                        if begin_read d.handle r.slots
                        then (
                          kept,
                          (deliver (finish_read d.handle later.slots) seen (info_of m) nodes
                              none).2,
                        )
                        else (kept, [])
                  ]
                ]
              ]
        ]
  ]
