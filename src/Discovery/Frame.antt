-- ===== src/Discovery/Frame.antt =====
-- The datagrams of include/trans/details/discovery.hpp: two bytes with the length of the message,
-- the higher one first, and the message. What protobuf makes of a message is a list of bytes.
use rf_trans_v.Base.{
  ℕ, ◌+◌, ◌*◌, ◌/◌, ◌%◌, ◌^◌, ◌<◌, ◌≤◌, ◌≡◌, Option, none, some, List, [], ◌∷◌, ◌++◌, arith, ltb,
  Bool-cases, ◌⊎◌, inl, inr, All, ◌≢◌, ◌==◌, length, if◌then◌else◌,
}

-- kMaxRcvStr
abbrev pub max_rcv_str : ℕ
max_rcv_str = 65535

-- `sendMulticast` up to the sending: `none` where the message is too large
unfoldable pub frame : List ℕ → Option (List ℕ)
frame bytes =
    let msg_size = length bytes % 2 ^ 16 in
    if ltb max_rcv_str (length bytes + 2)
    then none
    else some (msg_size / 256 ∷ msg_size % 256 ∷ bytes)

-- what `sendto` may answer: all was sent, EPERM or ENOBUFS, another error
pub data SendResult : Type 0 where
  done refused failed : SendResult

-- the loop over the sockets: those that `sendto` was called on
unfoldable pub send_to_all : (ℕ → SendResult) → List ℕ → List ℕ
send_to_all result [] = []
send_to_all result (sock ∷ socks) =
    let rest = send_to_all result socks in
    elim (result sock) [ done ↦ sock ∷ rest | refused ↦ sock ∷ rest | failed ↦ sock ∷ [] ]

-- `recvDiscoveryMsg`: the message in the bytes received, where their number is right
unfoldable pub unframe : List ℕ → Option (List ℕ)
unframe [] = none
unframe (high ∷ []) = none
unframe (high ∷ low ∷ bytes) =
    let msg_len = high * 256 + low in if length bytes + 2 == msg_len + 2 then some bytes else none

-- A message of at most 65533 bytes is framed in a datagram that fits the receiver's buffer and
-- from which the receiver takes the message again; a longer one is not framed.
pub unframe-frame :
    (bytes : List ℕ)
    → ((datagram : List ℕ) × (length bytes ≤ 65533)
        × (frame bytes ≡ some datagram)
        × (unframe datagram ≡ some bytes)
        × (length datagram ≤ max_rcv_str))
      ⊎ ((65533 < length bytes) × (frame bytes ≡ none))
unfolding frame unframe
unframe-frame bytes = elim (Bool-cases (ltb max_rcv_str (length bytes + 2))) [
  | inl h ↦ inr (ground (arith, h), ground (arith, h))
  | inr h ↦
      let n = length bytes % 2 ^ 16 in
      inl (
        n / 256 ∷ n % 256 ∷ bytes,
        ground (arith, h),
        ground (arith, h),
        ground (arith, h),
        ground (arith, h),
      )
]

-- A datagram of bytes, no longer than the receiver's buffer, from which the receiver takes a
-- message is the one that frames the message.
pub frame-unframe :
    (high low : ℕ) (rest bytes : List ℕ)
    → high < 256
    → low < 256
    → length (high ∷ low ∷ rest) ≤ max_rcv_str
    → unframe (high ∷ low ∷ rest) ≡ some bytes
    → frame bytes ≡ some (high ∷ low ∷ rest)
unfolding frame unframe
frame-unframe high low rest bytes hh hl hr h = ground arith

-- Every socket is tried until one fails otherwise than by EPERM or ENOBUFS, and none after it.
pub send_to_all-append :
    (result : ℕ → SendResult) (tried left : List ℕ) (sock : ℕ)
    → All (λ s. result s ≢ failed) tried
    → result sock ≡ failed
    → send_to_all result (tried ++ sock ∷ left) ≡ tried ++ sock ∷ []
unfolding send_to_all
send_to_all-append result [] left sock h f = ground (arith, f)
send_to_all-append result (s ∷ tried) left sock h f =
    ground (arith, h.0, send_to_all-append result tried left sock h.1 f)
