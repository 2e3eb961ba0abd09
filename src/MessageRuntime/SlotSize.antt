-- ===== src/MessageRuntime/SlotSize.antt =====
-- The size of the slots of a ring that src/message_runtime.cc makes for a topic.
use rf_trans_v.Base.{◌≡◌, ◌+◌, ◌%◌, ◌^◌, ◌≤◌, ◌<◌, ℕ, arith}
use rf_trans_v.Info.Class.{message_pub}
use rf_trans_v.MessageRuntime.Shm.{slot_size_for}

-- The slots of a ring are whole pages of 4096 bytes, as few as hold the first message, which is
-- shorter than 2 ^ 31 bytes.
pub slot_size_for_lem :
    (required : ℕ)
    → required < 2 ^ 31
    → (required ≤ slot_size_for required)
      × (slot_size_for required < required + 4096)
      × (slot_size_for required % 4096 ≡ 0)
unfolding slot_size_for
slot_size_for_lem required h = (omega (arith, h), omega (arith, h), omega (arith, h))
