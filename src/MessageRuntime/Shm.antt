-- ===== src/MessageRuntime/Shm.antt =====
-- The rings of shared memory in src/message_runtime.cc: `writerRingFor`, `readerRingFor` and
-- `removeWriterRing`. The memory of the host is a list of segments, each with the ring in it, and
-- the names under which segments can be opened; a segment whose name is gone stays for those that
-- have it mapped.
use rf_trans_v.Base.{
  ℕ, ◌+◌, ◌-◌, ◌*◌, ◌/◌, ◌%◌, ◌^◌, String, Bool, Option, none, some, List, [], ◌∷◌, ◌++◌, ltb,
  if◌then◌else◌, length, get_elem?,
}
use rf_trans_v.Map.{Map, find, assign, emplace, erase}
use rf_trans_v.ShmRing.{Ring, create_as_writer, header_of, open_as_reader}

pub record Memory : Type 0 where
  pub segments : List Ring
  pub linked : Map ℕ

-- the success of the calls of the operating system by which a ring is made or opened
pub record Calls : Type 0 where
  pub opened : Bool
  pub second : Bool
  pub mapped : Bool

-- what the object of a ring keeps
pub record Writer : Type 0 where
  pub name : String
  pub segment : ℕ
  pub slot_size : ℕ

-- kShmGranularity and kDefaultSlotCount
abbrev pub granularity : ℕ
granularity = 4096

abbrev pub default_slot_count : ℕ
default_slot_count = 4

-- the size of a topic's slots, from that of its first message
unfoldable pub slot_size_for : ℕ → ℕ
slot_size_for required = (required + granularity - 1) % 2 ^ 64 / granularity * granularity

-- `createAsWriter`, with the name that it unlinks first
unfoldable pub create_segment : Calls → String → ℕ → Memory → Memory × Option ℕ
unfolding create_as_writer assign erase
create_segment calls name slot_size mem =
    elim (create_as_writer calls.opened calls.second calls.mapped slot_size default_slot_count) [
      | none ↦ (record mem { linked = erase name mem.linked }, none)
      | some r ↦ (
        record {
          segments = mem.segments ++ r ∷ [];
          linked = assign name (length mem.segments) (erase name mem.linked);
        },
        some (length mem.segments),
      )
    ]

-- `writerRingFor`, over `makeShmName` of the topic and this process
unfoldable pub writer_ring_for :
    Calls
    → (String → String)
    → String
    → ℕ
    → Map Writer
    → Memory
    → Map Writer × Memory × Option Writer
unfolding slot_size_for create_segment find emplace
writer_ring_for calls name_of topic required writers mem = elim (find topic writers) [
  | some w ↦ if ltb w.slot_size required then (writers, mem, none) else (writers, mem, some w)
  | none ↦
      let slot_size = slot_size_for required in
      let (grown, made) = create_segment calls (name_of topic) slot_size mem in
      elim made [
        | none ↦ (writers, grown, none)
        | some segment ↦
            let w : Writer = record {
              name = name_of topic;
              segment = segment;
              slot_size = slot_size;
            } in
            (emplace topic w writers, grown, some w)
      ]
]

-- `removeWriterRing`: the ring's destructor unlinks its name
unfoldable pub remove_writer_ring : String → Map Writer → Memory → Map Writer × Memory
unfolding find erase
remove_writer_ring topic writers mem = elim (find topic writers) [
  | none ↦ (writers, mem)
  | some w ↦ (erase topic writers, record mem { linked = erase w.name mem.linked })
]

-- `readerRingFor`: the segment that a reader has mapped under the name, or maps now
unfoldable pub reader_ring_for : Calls → String → Map ℕ → Memory → Map ℕ × Option ℕ
unfolding find emplace header_of open_as_reader
reader_ring_for calls name readers mem = elim (find name readers) [
  | some segment ↦ (readers, some segment)
  | none ↦ elim (find name mem.linked) [
    | none ↦ (readers, none)
    | some segment ↦ elim (get_elem? mem.segments segment) [
      | none ↦ (readers, none)
      | some r ↦ elim (open_as_reader calls.opened calls.second calls.mapped (header_of r)) [
        | none ↦ (readers, none)
        | some sizes ↦ (emplace name segment readers, some segment)
      ]
    ]
  ]
]
