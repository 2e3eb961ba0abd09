-- ===== src/MessageRuntime/Stale.antt =====
-- A topic that is withdrawn and advertised again has a new ring under the old name, and a subscriber
-- that has the old ring mapped goes on reading there.
use rf_trans_v.Base.{
  ◌≡◌, ◌^◌, ◌<◌, refl, sym, ◌∙◌, ap, ℕ, String, Bool, true, Option, none, some, List, [], ◌∷◌,
  arith, length, get_elem?,
}
use rf_trans_v.Map.{Map, find}
use rf_trans_v.Info.Class.{message_pub}
use rf_trans_v.Info.Message.{MessagePublisherInfo}
use rf_trans_v.HandlerStorage.{NodeHandlerMap, HandlerStorage, get_handlers}
use rf_trans_v.ShmRing.{Ring, SlotHandle, write, read}
use rf_trans_v.ShmRing.Laps.{read-write_all}
use rf_trans_v.MessageRuntime.Handler.{SubscriptionHandler}
use rf_trans_v.MessageRuntime.Shm.{Memory, Calls, Writer, remove_writer_ring}
use rf_trans_v.MessageRuntime.Publish.{
  ShmDescriptor, HasWidths, Outside, Frames, descriptor_frames, publish_remote_shm, fitting, tag,
}
use rf_trans_v.MessageRuntime.Receive.{message_of, untag, peeked, dispatch_remote}
use rf_trans_v.MessageRuntime.Deliver.{delivered}
use rf_trans_v.MessageRuntime.SlotSize.{slot_size_for_lem}
use rf_trans_v.MessageRuntime.Shared.{dispatch-whole, peeked-whole, read_parts}
use rf_trans_v.MessageRuntime.FirstRing.{
  first_ring, first_ring-IsRing, Makes, first_writer, publish-first, remove-keeps, get_elem?-bound,
  first_handle, write-first,
}

module _ {M : Type 0} (out : Outside M) (p : MessagePublisherInfo) (address : String) where
  -- The memory and the rings after a message was published, its topic withdrawn, and a second
  -- message published.
  abbrev pub after_first : M → Map Writer → Memory → Map Writer × Memory × List Frames × Bool
  after_first msg writers mem = publish_remote_shm out p msg address writers mem

  abbrev pub withdrawn : M → Map Writer → Memory → Map Writer × Memory
  withdrawn msg writers mem =
      let first = after_first msg writers mem in remove_writer_ring p.info.topic first.0 first.1

  abbrev pub after_second : M → M → Map Writer → Memory → Map Writer × Memory × List Frames × Bool
  after_second msg1 msg2 writers mem =
      let gone = withdrawn msg1 writers mem in publish_remote_shm out p msg2 address gone.0 gone.1

module _ {M K : Type 0} (out : Outside M) (unpack : List ℕ → Option ShmDescriptor) (calls : Calls)
    (p : MessagePublisherInfo) (address : String) where
  -- A process publishes a message of a new topic by shared memory, withdraws the topic, and publishes
  -- another message of the same length, below 2 ^ 31, on it. Both messages are serialized to their
  -- sizes, rings can be made, the socket takes the frames, and a descriptor is read back from its
  -- bytes where its numbers fit their fields. A subscriber with handlers that mapped the ring for the
  -- first message finds that message's bytes whole in its memory under the handle of the second, and
  -- calls its handlers with the first message again.
  pub second-stale :
      (msg1 msg2 : M) (bytes1 bytes2 : List ℕ) (writers : Map Writer) (mem : Memory)
      (nodes : NodeHandlerMap (SubscriptionHandler M K))
      (s : HandlerStorage (SubscriptionHandler M K)) (readers : Map ℕ)
      → ((h : SlotHandle)
          → HasWidths h
          → unpack (out.pack (record { shm_name = out.name_of p.info.topic; handle = h }))
            ≡ some (record { shm_name = out.name_of p.info.topic; handle = h }))
      → Makes out.calls
      → out.sends_shm ≡ true
      → out.serialize msg1 ≡ some bytes1
      → out.byte_size msg1 ≡ length bytes1
      → out.serialize msg2 ≡ some bytes2
      → out.byte_size msg2 ≡ length bytes2
      → length bytes1 < 2 ^ 31
      → length bytes2 ≡ length bytes1
      → find p.info.topic writers ≡ none
      → get_handlers p.info.topic s ≡ some nodes
      → find (out.name_of p.info.topic) readers ≡ some (length mem.segments)
      → let second = after_second out p address msg1 msg2 writers mem in
        (f : Frames) × (second.2 ≡ f ∷ [])
        × ((dispatch_remote unpack calls second.1
              (peeked unpack calls second.1 (message_of f) readers)
              second.1
              (message_of f)
              s
              readers).1
            ≡ delivered true bytes1
                (record { topic = p.info.topic; msg_type = p.msg_type })
                (fitting p.msg_type nodes))
        × ((r : Ring) × (h : SlotHandle) × (get_elem? second.1.segments (length mem.segments)
              ≡ some r)
            × (unpack f.payload ≡ some (record { shm_name = out.name_of p.info.topic; handle = h }))
            × (read h r ≡ some bytes1))
  unfolding untag tag
  second-stale msg1 msg2 bytes1 bytes2 writers mem nodes s readers law makes sends is1 size1 is2
        size2 low same new handlers mapped =
      let n = length bytes1 in
      let k = length mem.segments in
      let w1 = first_writer out p address n mem in
      let r1 = (write bytes1 n (first_ring n)).0 in
      let h1 = (write bytes1 n (first_ring n)).1 in
      let first =
        publish-first out p address msg1 writers mem bytes1 makes is1 size1 low sends new in
      let gone = withdrawn out p address msg1 writers mem in
      let done = after_first out p address msg1 writers mem in
      let kept = remove-keeps p w1 done.0 done.1 first.1 in
      let m = length bytes2 in
      let short : m < 2 ^ 31 = ground (arith, same, low) in
      let second =
        publish-first out p address msg2 gone.0 gone.1 bytes2 makes is2 size2 short sends kept.0 in
      let all = after_second out p address msg1 msg2 writers mem in
      let there : get_elem? gone.1.segments k ≡ some r1 =
        ap (λ l. get_elem? l k) kept.1 ∙ first.2 in
      let old : get_elem? all.1.segments k ≡ some r1 =
        second.3 k (get_elem?-bound gone.1.segments k r1 there) ∙ there in
      let h2 = (write bytes2 m (first_ring m)).1 in
      let h : h2 ≡ h1 =
        write-first bytes2 short ∙ ap first_handle same ∙ sym (write-first bytes1 low) in
      let back : read h1 r1 ≡ some bytes1 =
        read-write_all bytes1 [] (first_ring n) (first_ring-IsRing n low)
          (slot_size_for_lem n low).0 tt (omega arith) in
      let again : read h2 r1 ≡ some bytes1 = ap (λ x. read x r1) h ∙ back in
      let parts = read_parts h2 r1 bytes1 again in
      let f = descriptor_frames out p address (first_writer out p address m gone.1) h2 in
      let d : ShmDescriptor = record { shm_name = out.name_of p.info.topic; handle = h2 } in
      let widths : HasWidths h2 =
        rw (write-first bytes2 short) (omega arith, omega arith, omega (arith, short)) in
      let seen =
        peeked-whole unpack calls (message_of f) d bytes1 k r1 all.1 readers (law h2 widths) mapped
          old again in
      (
        f,
        second.0,
        rw seen (
            dispatch-whole unpack calls (message_of f) d bytes1 k r1 all.1 nodes s readers handlers
              refl (law h2 widths) mapped old parts.0 parts.1),
        (r1, h2, old, law h2 widths, again),
      )
