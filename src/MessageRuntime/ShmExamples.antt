-- ===== src/MessageRuntime/ShmExamples.antt =====
-- A topic on shared memory, and the theorems on what is published at it.
use rf_trans_v.Base.{
  ◌≡◌, ◌≢◌, ap, Bool, false, ◌++◌, ◌%◌, ◌^◌, refl, ℕ, String, true, Option, none, some, List, [],
  ◌∷◌, arith, length, get_elem?,
}
use native.Mathlib.Nat.{mod-eq_of_lt}
use rf_trans_v.Map.{Map, find}
use rf_trans_v.Info.Class.{message_pub}
use rf_trans_v.Options.{scope_eq}
use rf_trans_v.Info.Message.{MessagePublisherInfo}
use rf_trans_v.TopicStorage.{has_topic_of_type}
use rf_trans_v.HandlerStorage.{HandlerStorage, get_handlers}
use rf_trans_v.ShmRing.{Ring, SlotHandle, write, read}
use rf_trans_v.MessageRuntime.{Links, subscriber_registered, call_back}
use rf_trans_v.MessageRuntime.Shm.{Memory, Calls, Writer, slot_size_for}
use rf_trans_v.MessageRuntime.Publish.{
  ShmDescriptor, HasWidths, Outside, Outlet, Frames, put_ring, descriptor_frames, tag, publish,
  publish_to_local, publish_remote_shm, fitting,
}
use rf_trans_v.MessageRuntime.Receive.{
  RemoteMsg, untag, receive_message, queue_message, message_of, peeked, dispatch_remote,
}
use rf_trans_v.MessageRuntime.Deliver.{delivered}
use rf_trans_v.MessageRuntime.SlotSize.{slot_size_for_lem}
use rf_trans_v.MessageRuntime.Inline.{by_shm, publish-handled}
use rf_trans_v.MessageRuntime.Shared.{publish-delivered}
use rf_trans_v.MessageRuntime.FirstRing.{first_ring, first_ring-IsRing}
use rf_trans_v.MessageRuntime.Stale.{after_second, second-stale}
use rf_trans_v.MessageRuntime.Examples.{Handler, nodes, imu, links, registered, info}

-- A descriptor of the one ring there is, by its three numbers in fields of 32, 64 and 32 bits.
abbrev pack : ShmDescriptor → List ℕ
pack d = d.handle.slot_index % 2 ^ 32 ∷ d.handle.seq % 2 ^ 64 ∷ d.handle.size % 2 ^ 32 ∷ []

abbrev unpack : List ℕ → Option ShmDescriptor
unpack (i ∷ s ∷ n ∷ []) =
    some
      (record { shm_name = "/rf_shm_1_a"; handle = record { slot_index = i; seq = s; size = n } })
unpack _ = none

abbrev named : SlotHandle → ShmDescriptor
named h = record { shm_name = "/rf_shm_1_a"; handle = h }

unpack-pack : (h : SlotHandle) → HasWidths h → unpack (pack (named h)) ≡ some (named h)
unpack-pack h fits = ground (
  arith,
  mod-eq_of_lt {n = h.slot_index} {m = 2 ^ 32} fits.0,
  mod-eq_of_lt {n = h.seq} {m = 2 ^ 64} fits.1,
  mod-eq_of_lt {n = h.size} {m = 2 ^ 32} fits.2,
)

abbrev all_work : Calls
all_work = record { opened = true; second = true; mapped = true }

abbrev out : Outside (List ℕ)
out = record {
  byte_size = length;
  serialize = λ msg. some msg;
  pack = pack;
  name_of = λ topic. "/rf_shm_1_a";
  calls = all_work;
  sends_shm = true;
  sends_inline = true;
}

abbrev empty_memory : Memory
empty_memory = record { segments = []; linked = [] }

abbrev outlet : Outlet (List ℕ) String
outlet = record { writers = []; memory = empty_memory; local_publish_queue = [] }

-- "a" after the registration of a node of "b"
abbrev joined : Links (List ℕ) String
joined = call_back subscriber_registered registered (links "a" [])

abbrev store : HandlerStorage Handler
store = ("/imu", nodes) ∷ []

imu_is_plain : (u : String) → imu.msg_type ≢ tag u
unfolding untag tag
imu_is_plain u h = let e : ◌≡◌ {A = Bool} false true = ap (λ t. (untag t).0) h in cc

-- where no segment can be made, so that the socket is used
abbrev no_shm : Outside (List ℕ)
no_shm = record out { calls = record all_work { opened = false } }

is_inline : by_shm no_shm imu (7 ∷ 8 ∷ []) joined outlet ≡ false
unfolding scope_eq publish_remote_shm find
is_inline = refl

is_wanted :
    has_topic_of_type
      (λ (q : MessagePublisherInfo). q.msg_type)
      "/imu"
      "msgs.Imu"
      joined.remote_subscribers
    ≡ true
unfolding has_topic_of_type call_back
is_wanted = refl

has_nodes : get_handlers "/imu" store ≡ some nodes
unfolding get_handlers
has_nodes = refl

publish-handled_example :
    let sent = publish no_shm imu (7 ∷ 8 ∷ []) joined outlet in
    (f : Frames) × (m : RemoteMsg) × (sent.1 ≡ f ∷ [])
    × (sent.2 ≡ true)
    × (sent.0.local_publish_queue
        ≡ outlet.local_publish_queue ++ publish_to_local imu (7 ∷ 8 ∷ []) joined)
    × (receive_message (some f) [] ≡ queue_message m [])
    × (dispatch_remote unpack all_work empty_memory [] empty_memory m store []
        ≡ ([], delivered true (7 ∷ 8 ∷ []) info (fitting "msgs.Imu" nodes)))
publish-handled_example =
    publish-handled no_shm imu (7 ∷ 8 ∷ []) joined outlet (7 ∷ 8 ∷ []) unpack all_work empty_memory
      empty_memory [] [] nodes store [] imu_is_plain is_inline is_wanted refl refl has_nodes

abbrev writer : Writer
writer = record { name = "/rf_shm_1_a"; segment = 0; slot_size = slot_size_for 2 }

abbrev memory : Memory
memory = record { segments = first_ring 2 ∷ []; linked = ("/rf_shm_1_a", 0) ∷ [] }

has_writer : find "/imu" (("/imu", writer) ∷ []) ≡ some writer
unfolding find
has_writer = refl

abbrev readers : Map ℕ
readers = ("/rf_shm_1_a", 0) ∷ []

has_reader : find "/rf_shm_1_a" readers ≡ some 0
unfolding find
has_reader = refl

publish-delivered_example :
    let written = write (7 ∷ 8 ∷ []) 2 (first_ring 2) in
    let after = put_ring 0 written.0 memory in
    let f = descriptor_frames out imu "tcp://1" writer written.1 in
    (publish_remote_shm out imu (7 ∷ 8 ∷ []) "tcp://1" (("/imu", writer) ∷ []) memory
      ≡ (("/imu", writer) ∷ [], after, f ∷ [], true))
    × (read written.1 written.0 ≡ some (7 ∷ 8 ∷ []))
    × (peeked unpack all_work after (message_of f) readers ≡ 7 ∷ 8 ∷ [])
    × ((dispatch_remote unpack all_work after
          (peeked unpack all_work after (message_of f) readers)
          after
          (message_of f)
          store
          readers).1
        ≡ delivered true (7 ∷ 8 ∷ []) info (fitting "msgs.Imu" nodes))
publish-delivered_example =
    publish-delivered out unpack all_work imu (7 ∷ 8 ∷ []) "tcp://1" writer (("/imu", writer) ∷ [])
      memory (first_ring 2) (7 ∷ 8 ∷ []) nodes store readers unpack-pack refl refl refl
      (slot_size_for_lem 2 (omega arith)).0 refl (first_ring-IsRing 2 (omega arith)) (omega arith)
      has_writer refl has_nodes has_reader

no_writer : find {V = Writer} "/imu" [] ≡ none
unfolding find
no_writer = refl

second-stale_example :
    let second = after_second out imu "tcp://1" (7 ∷ 8 ∷ []) (1 ∷ 2 ∷ []) [] empty_memory in
    (f : Frames) × (second.2 ≡ f ∷ [])
    × ((dispatch_remote unpack all_work second.1
          (peeked unpack all_work second.1 (message_of f) readers)
          second.1
          (message_of f)
          store
          readers).1
        ≡ delivered true (7 ∷ 8 ∷ []) info (fitting "msgs.Imu" nodes))
    × ((r : Ring) × (h : SlotHandle) × (get_elem? second.1.segments 0 ≡ some r)
        × (unpack f.payload ≡ some (record { shm_name = "/rf_shm_1_a"; handle = h }))
        × (read h r ≡ some (7 ∷ 8 ∷ [])))
second-stale_example =
    second-stale out unpack all_work imu "tcp://1" (7 ∷ 8 ∷ []) (1 ∷ 2 ∷ []) (7 ∷ 8 ∷ [])
      (1 ∷ 2 ∷ []) [] empty_memory nodes store readers unpack-pack (refl, refl, refl) refl refl refl
      refl refl (omega arith) refl no_writer has_nodes has_reader
