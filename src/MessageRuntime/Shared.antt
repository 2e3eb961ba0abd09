-- ===== src/MessageRuntime/Shared.antt =====
-- A message through shared memory: what a publisher writes, a subscriber on the host is called with.
use rf_trans_v.Base.{
  ◌≡◌, ◌+◌, ◌*◌, ◌^◌, ◌≤◌, ◌<◌, refl, ◌∙◌, ℕ, String, true, Option, some, List, [], ◌∷◌, arith,
  length, get_elem?,
}
use mathlib.Core.Option.{map}
use rf_trans_v.Map.{Map, find}
use rf_trans_v.Info.Class.{message_pub}
use rf_trans_v.Info.Message.{MessagePublisherInfo}
use rf_trans_v.HandlerStorage.{NodeHandlerMap, HandlerStorage, get_handlers}
use rf_trans_v.ShmRing.{
  take, Slot, Ring, SlotHandle, reserve_write, write, read, begin_read, finish_read,
}
use rf_trans_v.ShmRing.Slots.{get_elem?-set}
use rf_trans_v.ShmRing.Sequential.{IsRing, write-eq}
use rf_trans_v.ShmRing.Laps.{read-write_all}
use rf_trans_v.MessageRuntime.Handler.{SubscriptionHandler}
use rf_trans_v.MessageRuntime.Shm.{Memory, Calls, Writer, writer_ring_for, reader_ring_for}
use rf_trans_v.MessageRuntime.Publish.{
  ShmDescriptor, HasWidths, Outside, put_ring, tag, descriptor_frames, write_shm,
  publish_remote_shm, fitting,
}
use rf_trans_v.MessageRuntime.Receive.{
  RemoteMsg, message_of, untag, info_of, peeked, dispatch_remote,
}
use rf_trans_v.MessageRuntime.Deliver.{delivered, deliver-delivered}

-- a read that gives bytes finds them in the slot
read_slot :
    (h : SlotHandle) (r : Ring) (bytes : List ℕ)
    → read h r ≡ some bytes
    → map (λ (s : Slot). take h.size s.payload) (get_elem? r.slots h.slot_index) ≡ some bytes
unfolding read
read_slot h r bytes is = ground (arith, is)

-- a read that gives bytes passed both tests
pub read_parts :
    (h : SlotHandle) (r : Ring) (bytes : List ℕ)
    → read h r ≡ some bytes
    → (begin_read h r.slots ≡ true) × (finish_read h r.slots ≡ true)
unfolding read
read_parts h r bytes is = (ground (arith, is), ground (arith, is))

-- what `write` hands out fits the fields of a descriptor
pub write-HasWidths :
    (bytes : List ℕ) (r : Ring)
    → IsRing r
    → length bytes ≤ r.slot_size
    → 2 * (r.write_cursor + 1) < 2 ^ 64
    → HasWidths (write bytes (length bytes) r).1
write-HasWidths bytes r v fits low =
    rw (write-eq bytes r v fits (omega (arith, low)))
      (omega (arith, v.count, v.count_fits), omega (arith, low), omega (arith, fits, v.size_fits))

module _ {M : Type 0} (out : Outside M) where
  -- a message that is serialized to its size is written as `ShmRing::write` does it
  pub write_shm-write :
      (p : MessagePublisherInfo) (msg : M) (address : String) (w : Writer) (writers : Map Writer)
      (mem : Memory) (r : Ring) (bytes : List ℕ)
      → out.serialize msg ≡ some bytes
      → out.byte_size msg ≡ length bytes
      → length bytes ≤ r.slot_size
      → out.sends_shm ≡ true
      → let written = write bytes (length bytes) r in
        write_shm out p msg address w writers mem r ≡ (
          writers,
          put_ring w.segment written.0 mem,
          descriptor_frames out p address w written.1 ∷ [],
          true,
        )
  unfolding write_shm write reserve_write
  write_shm-write p msg address w writers mem r bytes is size fits sends =
      ground (arith, is, size, fits, sends)

  -- and it goes to the ring that the topic has
  pub publish_remote_shm-write :
      (p : MessagePublisherInfo) (msg : M) (address : String) (w : Writer) (writers : Map Writer)
      (mem : Memory) (r : Ring) (bytes : List ℕ)
      → out.serialize msg ≡ some bytes
      → out.byte_size msg ≡ length bytes
      → length bytes ≤ r.slot_size
      → out.sends_shm ≡ true
      → w.slot_size ≡ r.slot_size
      → find p.info.topic writers ≡ some w
      → get_elem? mem.segments w.segment ≡ some r
      → let written = write bytes (length bytes) r in
        publish_remote_shm out p msg address writers mem ≡ (
          writers,
          put_ring w.segment written.0 mem,
          descriptor_frames out p address w written.1 ∷ [],
          true,
        )
  unfolding publish_remote_shm writer_ring_for
  publish_remote_shm-write p msg address w writers mem r bytes is size fits sends room has at =
      ground (
        arith,
        size,
        fits,
        room,
        has,
        at,
        write_shm-write p msg address w writers mem r bytes is size fits sends,
      )

module _ (unpack : List ℕ → Option ShmDescriptor) (calls : Calls) where
  -- what a reader that has the ring mapped finds in the slot
  pub peeked-whole :
      (m : RemoteMsg) (d : ShmDescriptor) (seen : List ℕ) (segment : ℕ) (r : Ring) (mem : Memory)
      (readers : Map ℕ)
      → unpack m.payload ≡ some d
      → find d.shm_name readers ≡ some segment
      → get_elem? mem.segments segment ≡ some r
      → read d.handle r ≡ some seen
      → peeked unpack calls mem m readers ≡ seen
  unfolding peeked reader_ring_for
  peeked-whole m d seen segment r mem readers is mapped at back =
      ground (arith, is, mapped, at, read_slot d.handle r seen back)

module _ {M K : Type 0} (unpack : List ℕ → Option ShmDescriptor) (calls : Calls) where
  -- the dispatch of a message whose slot is whole, by a reader that has the ring mapped
  pub dispatch-whole :
      (m : RemoteMsg) (d : ShmDescriptor) (seen : List ℕ) (segment : ℕ) (r : Ring) (mem : Memory)
      (nodes : NodeHandlerMap (SubscriptionHandler M K))
      (s : HandlerStorage (SubscriptionHandler M K)) (readers : Map ℕ)
      → get_handlers m.topic s ≡ some nodes
      → m.is_shm ≡ true
      → unpack m.payload ≡ some d
      → find d.shm_name readers ≡ some segment
      → get_elem? mem.segments segment ≡ some r
      → begin_read d.handle r.slots ≡ true
      → finish_read d.handle r.slots ≡ true
      → (dispatch_remote unpack calls mem seen mem m s readers).1
        ≡ delivered true seen (info_of m) (fitting m.msg_type nodes)
  unfolding dispatch_remote reader_ring_for
  dispatch-whole m d seen segment r mem nodes s readers has shm is mapped at begins ends =
      ground (
        arith,
        has,
        shm,
        is,
        mapped,
        at,
        begins,
        ends,
        deliver-delivered true seen (info_of m) nodes,
      )

module _ {M K : Type 0} (out : Outside M) (unpack : List ℕ → Option ShmDescriptor)
    (calls : Calls) where
  -- A message that is serialized to its size is published in the well-formed ring that its topic has,
  -- with the size of its slots, and fits them; the socket takes the frames, no sequence number wraps, and a descriptor is
  -- read back from its bytes where its numbers fit their fields. A process on the host that has the
  -- ring mapped, and handlers for the topic, gets the frames before the memory changes. What the
  -- frames name in the memory is the bytes of the message, and the process calls all handlers of its
  -- type with what the first of them makes of these bytes.
  pub publish-delivered :
      (p : MessagePublisherInfo) (msg : M) (address : String) (w : Writer) (writers : Map Writer)
      (mem : Memory) (r : Ring) (bytes : List ℕ) (nodes : NodeHandlerMap (SubscriptionHandler M K))
      (s : HandlerStorage (SubscriptionHandler M K)) (readers : Map ℕ)
      → ((h : SlotHandle)
          → HasWidths h
          → unpack (out.pack (record { shm_name = w.name; handle = h }))
            ≡ some (record { shm_name = w.name; handle = h }))
      → out.serialize msg ≡ some bytes
      → out.byte_size msg ≡ length bytes
      → out.sends_shm ≡ true
      → length bytes ≤ r.slot_size
      → w.slot_size ≡ r.slot_size
      → IsRing r
      → 2 * (r.write_cursor + 1) < 2 ^ 64
      → find p.info.topic writers ≡ some w
      → get_elem? mem.segments w.segment ≡ some r
      → get_handlers p.info.topic s ≡ some nodes
      → find w.name readers ≡ some w.segment
      → let written = write bytes (length bytes) r in
        let after = put_ring w.segment written.0 mem in
        let f = descriptor_frames out p address w written.1 in
        (publish_remote_shm out p msg address writers mem ≡ (writers, after, f ∷ [], true))
        × (read written.1 written.0 ≡ some bytes)
        × (peeked unpack calls after (message_of f) readers ≡ bytes)
        × ((dispatch_remote unpack calls after
              (peeked unpack calls after (message_of f) readers)
              after
              (message_of f)
              s
              readers).1
            ≡ delivered true bytes
                (record { topic = p.info.topic; msg_type = p.msg_type })
                (fitting p.msg_type nodes))
  unfolding untag tag
  publish-delivered p msg address w writers mem r bytes nodes s readers law is size sends fits room
        v low has at handlers mapped =
      let written = write bytes (length bytes) r in
      let after = put_ring w.segment written.0 mem in
      let f = descriptor_frames out p address w written.1 in
      let back : read written.1 written.0 ≡ some bytes =
        read-write_all bytes [] r v fits tt (omega (arith, low)) ∙ ground (arith, v.count) in
      let parts = read_parts written.1 written.0 bytes back in
      let there : get_elem? after.segments w.segment ≡ some written.0 =
        ground (arith, at, get_elem?-set mem.segments w.segment w.segment written.0) in
      let d : ShmDescriptor = record { shm_name = w.name; handle = written.1 } in
      let widths : HasWidths written.1 = write-HasWidths bytes r v fits low in
      let seen : peeked unpack calls after (message_of f) readers ≡ bytes =
        peeked-whole unpack calls (message_of f) d bytes w.segment written.0 after readers
          (law written.1 widths) mapped there back in
      (
        publish_remote_shm-write out p msg address w writers mem r bytes is size fits sends room has
            at,
        back,
        seen,
        rw seen (
            dispatch-whole unpack calls (message_of f)
              (record { shm_name = w.name; handle = written.1 }) bytes w.segment written.0 after
              nodes s readers handlers refl (law written.1 widths) mapped there parts.0 parts.1),
      )
