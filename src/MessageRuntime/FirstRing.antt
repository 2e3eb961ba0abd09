-- ===== src/MessageRuntime/FirstRing.antt =====
-- The ring that a topic gets for its first message, and what stands in it after that message.
use rf_trans_v.Base.{
  ◌≡◌, ◌^◌, ◌<◌, refl, ◌∙◌, ap, ℕ, zero, suc, String, true, none, some, List, [], ◌∷◌, ◌++◌, arith,
  eq_refl, length, get_elem?, replicate,
}
use rf_trans_v.Map.{Map, find, find_or, emplace, erase, assign}
use rf_trans_v.Map.Laws.{find-emplace, find-erase}
use rf_trans_v.Info.Class.{message_pub}
use rf_trans_v.Info.Message.{MessagePublisherInfo}
use rf_trans_v.ShmRing.{Slot, Ring, SlotHandle, create_as_writer, write}
use rf_trans_v.ShmRing.Slots.{get_elem?-set}
use rf_trans_v.ShmRing.Sequential.{IsRing, write-eq}
use rf_trans_v.MessageRuntime.Shm.{
  Memory, Calls, Writer, slot_size_for, create_segment, writer_ring_for, remove_writer_ring,
}
use rf_trans_v.MessageRuntime.Publish.{Outside, descriptor_frames, put_ring, publish_remote_shm}
use rf_trans_v.MessageRuntime.SlotSize.{slot_size_for_lem}
use rf_trans_v.MessageRuntime.Shared.{write_shm-write}

module _ {A : Type 0} where
  length-replicate : (n : ℕ) (x : A) → length (replicate n x) ≡ n
  length-replicate zero x = refl
  length-replicate (suc n) x = ground (arith, length-replicate n x)

  get_elem?-replicate : (n i : ℕ) (x y : A) → get_elem? (replicate n x) i ≡ some y → y ≡ x
  get_elem?-replicate zero i x y h = cc
  get_elem?-replicate (suc n) zero x y h = ground (arith, h)
  get_elem?-replicate (suc n) (suc i) x y h = get_elem?-replicate n i x y h

  get_elem?-append :
      (xs : List A) (x : A) (j : ℕ) → j < length xs → get_elem? (xs ++ x ∷ []) j ≡ get_elem? xs j
  get_elem?-append [] x j h = ground (arith, h)
  get_elem?-append (y ∷ xs) x zero h = refl
  get_elem?-append (y ∷ xs) x (suc j) h = get_elem?-append xs x j (omega (arith, h))

  get_elem?-last : (xs : List A) (x : A) → get_elem? (xs ++ x ∷ []) (length xs) ≡ some x
  get_elem?-last [] x = refl
  get_elem?-last (y ∷ xs) x = ground (arith, get_elem?-last xs x)

-- the ring that is made for a first message of `n` bytes
abbrev pub first_ring : ℕ → Ring
first_ring n = record {
  slot_size = slot_size_for n;
  slot_count = 4;
  write_cursor = 0;
  slots = replicate 4 (record { seq = 0; size = 0; payload = replicate (slot_size_for n) 0 });
}

pub first_ring-IsRing : (n : ℕ) → n < 2 ^ 31 → IsRing (first_ring n)
first_ring-IsRing n h = record {
  count = omega arith;
  count_fits = omega arith;
  size_fits = omega (arith, slot_size_for_lem n h);
  slots = refl;
  payloads = λ i s at.
      let made : Slot = record { seq = 0; size = 0; payload = replicate (slot_size_for n) 0 } in
      ap (λ (x : Slot). length x.payload) (get_elem?-replicate 4 i made s at)
      ∙ length-replicate (slot_size_for n) 0;
}

-- every call of the operating system by which a ring is made succeeds
abbrev pub Makes : Calls → Type 0
Makes calls = (calls.opened ≡ true) × (calls.second ≡ true) × (calls.mapped ≡ true)

module _ {M : Type 0} (out : Outside M) (p : MessagePublisherInfo) (address : String) where
  abbrev pub first_writer : ℕ → Memory → Writer
  first_writer n mem = record {
    name = out.name_of p.info.topic;
    segment = length mem.segments;
    slot_size = slot_size_for n;
  }

  -- the first message of a topic makes a segment, and goes into it
  pub publish-first :
      (msg : M) (writers : Map Writer) (mem : Memory) (bytes : List ℕ)
      → Makes out.calls
      → out.serialize msg ≡ some bytes
      → out.byte_size msg ≡ length bytes
      → length bytes < 2 ^ 31
      → out.sends_shm ≡ true
      → find p.info.topic writers ≡ none
      → let n = length bytes in
        let result = publish_remote_shm out p msg address writers mem in
        let written = write bytes n (first_ring n) in
        (result.2 ≡ descriptor_frames out p address (first_writer n mem) written.1 ∷ [])
        × (find p.info.topic result.0 ≡ some (first_writer n mem))
        × (get_elem? result.1.segments (length mem.segments) ≡ some written.0)
        × ((j : ℕ)
            → j < length mem.segments
            → get_elem? result.1.segments j ≡ get_elem? mem.segments j)
  unfolding publish_remote_shm writer_ring_for create_segment create_as_writer find_or
  publish-first msg writers mem bytes makes is size low sends new =
      let n = length bytes in
      let k = length mem.segments in
      let w = first_writer n mem in
      let r = first_ring n in
      let written = write bytes n r in
      let name = out.name_of p.info.topic in
      let grown : Memory = record {
        segments = mem.segments ++ r ∷ [];
        linked = assign name k (erase name mem.linked);
      } in
      let kept = emplace p.info.topic w writers in
      let result = publish_remote_shm out p msg address writers mem in
      let eq : result ≡ (
        kept,
        put_ring k written.0 grown,
        descriptor_frames out p address w written.1 ∷ [],
        true,
      ) =
        ground (
          arith,
          makes,
          size,
          new,
          get_elem?-last mem.segments r,
          write_shm-write out p msg address w kept grown r bytes is size (slot_size_for_lem n low).0
              sends,
        ) in
      (
        ap (λ x. x.2) eq,
        ap (λ x. find p.info.topic x.0) eq
            ∙ ground (
              arith,
              new,
              find-emplace p.info.topic p.info.topic w writers,
              eq_refl p.info.topic,
            ),
        ap (λ x. get_elem? x.1.segments k) eq
            ∙ ground
                (arith, get_elem?-set grown.segments k k written.0, get_elem?-last mem.segments r),
        λ j h.
            ap (λ x. get_elem? x.1.segments j) eq
            ∙ ground (
              arith,
              h,
              get_elem?-set grown.segments k j written.0,
              get_elem?-append mem.segments r j h,
            ),
      )

-- withdrawing a topic forgets its ring, and leaves all segments
pub remove-keeps :
    (p : MessagePublisherInfo) (w : Writer) (writers : Map Writer) (mem : Memory)
    → find p.info.topic writers ≡ some w
    → (find p.info.topic (remove_writer_ring p.info.topic writers mem).0 ≡ none)
      × ((remove_writer_ring p.info.topic writers mem).1.segments ≡ mem.segments)
unfolding remove_writer_ring
remove-keeps p w writers mem has = (
  ground (arith, has, find-erase p.info.topic p.info.topic writers, eq_refl p.info.topic),
  ground (arith, has),
)

pub get_elem?-bound :
    {A : Type 0} (xs : List A) (i : ℕ) (y : A) → get_elem? xs i ≡ some y → i < length xs
get_elem?-bound [] i y h = cc
get_elem?-bound (x ∷ xs) zero y h = omega arith
get_elem?-bound (x ∷ xs) (suc i) y h = omega (arith, get_elem?-bound xs i y h)

-- the handle of a first message
abbrev pub first_handle : ℕ → SlotHandle
first_handle n = record { slot_index = 0; seq = 2; size = n }

pub write-first :
    (bytes : List ℕ)
    → length bytes < 2 ^ 31
    → (write bytes (length bytes) (first_ring (length bytes))).1 ≡ first_handle (length bytes)
write-first bytes low =
    ap (λ x. x.1)
      (write-eq bytes (first_ring (length bytes)) (first_ring-IsRing (length bytes) low)
        (slot_size_for_lem (length bytes) low).0 (omega arith))
