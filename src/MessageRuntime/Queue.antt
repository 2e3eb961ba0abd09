-- ===== src/MessageRuntime/Queue.antt =====
-- The queue of remote messages: what is left of those that were received.
use rf_trans_v.Base.{
  ℕ, zero, suc, ◌+◌, ◌-◌, ◌≤◌, ◌⊎◌, ◌==◌, ◌≡◌, refl, ◌∙◌, sym, ap, String, true, false, Option,
  none, some, List, [], ◌∷◌, ◌++◌, arith, length, length-append, Bool-cases, inl, inr,
}
use Prim.Native.Char.{code}
use mathlib.Core.List.{append_assoc, append-nil}
use text.Mathlib.TextEquality.{Char-path}
use rf_trans_v.MessageRuntime.Publish.{Frames, shm_marker, tag}
use rf_trans_v.MessageRuntime.Receive.{
  RemoteMsg, msg_queue_limit, untag, message_of, pop_front, queue_message, receive_message,
}

-- The last `n` messages.
unfoldable pub drop : ℕ → List RemoteMsg → List RemoteMsg
drop zero l = l
drop (suc k) [] = []
drop (suc k) (m ∷ l) = drop k l

unfoldable pub newest : ℕ → List RemoteMsg → List RemoteMsg
unfolding drop
newest n l = drop (length l - n) l

-- The messages that arrive whole.
unfoldable pub arrived : List (Option Frames) → List RemoteMsg
arrived [] = []
arrived (none ∷ fs) = arrived fs
arrived (some f ∷ fs) = message_of f ∷ arrived fs

unfoldable pub receive_all : List (Option Frames) → List RemoteMsg → List RemoteMsg
unfolding receive_message
receive_all [] queue = queue
receive_all (f ∷ fs) queue = receive_all fs (receive_message f queue)

length-drop : (k : ℕ) (l : List RemoteMsg) → length (drop k l) ≡ length l - k
unfolding drop
length-drop zero l = omega arith
length-drop (suc k) [] = omega arith
length-drop (suc k) (m ∷ l) = ground (arith, length-drop k l)

drop-append : (k : ℕ) (l r : List RemoteMsg) → k ≤ length l → drop k (l ++ r) ≡ drop k l ++ r
unfolding drop
drop-append zero l r h = refl
drop-append (suc k) [] r h = ground (arith, h)
drop-append (suc k) (m ∷ l) r h = drop-append k l r (omega (arith, h))

drop-nil : (k : ℕ) → drop k [] ≡ []
unfolding drop
drop-nil zero = refl
drop-nil (suc k) = refl

drop-drop : (j k : ℕ) (l : List RemoteMsg) → drop j (drop k l) ≡ drop (k + j) l
unfolding drop
drop-drop j zero l = ground arith
drop-drop j (suc k) [] = ground (arith, drop-nil j, drop-nil (suc k + j))
drop-drop j (suc k) (m ∷ l) =
    let same : suc (k + j) ≡ suc k + j = omega arith in
    drop-drop j k l ∙ ap (λ n. drop n (m ∷ l)) same

pop_front-drop : (l : List RemoteMsg) → pop_front l ≡ drop 1 l
unfolding pop_front drop
pop_front-drop [] = refl
pop_front-drop (m ∷ l) = refl

length-newest : (n : ℕ) (l : List RemoteMsg) → length (newest n l) ≤ n
unfolding newest
length-newest n l = ground (arith, length-drop (length l - n) l)

-- the newest messages of all are among the newest of any part that ends them
newest-append : (n : ℕ) (l r : List RemoteMsg) → newest n (newest n l ++ r) ≡ newest n (l ++ r)
unfolding newest
newest-append n l r =
    let k = length l - n in
    ground (
      arith,
      drop-append k l r,
      length-append (drop k l) r,
      length-append l r,
      length-drop k l,
      drop-drop (length (drop k l ++ r) - n) k (l ++ r),
    )

newest_of_short : (n : ℕ) (l : List RemoteMsg) → length l ≤ n → newest n l ≡ l
unfolding newest drop
newest_of_short n l h = ground (arith, h)

queue_message-newest :
    (m : RemoteMsg) (q : List RemoteMsg)
    → length q ≤ msg_queue_limit
    → queue_message m q ≡ newest msg_queue_limit (q ++ m ∷ [])
unfolding queue_message newest drop
queue_message-newest m q h =
    ground (arith, h, length-append q (m ∷ []), pop_front-drop (q ++ m ∷ []))

-- A queue of at most 1000 messages has, after any receipts, the newest 1000 of its messages and of
-- those that arrived whole, in their order.
pub receive_all-newest :
    (fs : List (Option Frames)) (q : List RemoteMsg)
    → length q ≤ msg_queue_limit
    → receive_all fs q ≡ newest msg_queue_limit (q ++ arrived fs)
unfolding receive_all arrived
receive_all-newest [] q h = sym (
    newest_of_short msg_queue_limit (q ++ []) (ground (arith, h, length-append q []))
    ∙ append-nil q)
receive_all-newest (none ∷ fs) q h = receive_all-newest fs q h
receive_all-newest (some f ∷ fs) q h =
    let m = message_of f in
    let step = queue_message-newest m q h in
    let short : length (queue_message m q) ≤ msg_queue_limit =
      ground (arith, step, length-newest msg_queue_limit (q ++ m ∷ [])) in
    receive_all-newest fs (queue_message m q) short
    ∙ ap (λ l. newest msg_queue_limit (l ++ arrived fs)) step
    ∙ newest-append msg_queue_limit (q ++ m ∷ []) (arrived fs)
    ∙ ap (newest msg_queue_limit) (append_assoc q (m ∷ []) (arrived fs))

-- The type of a message that is tagged for shared memory is read back with the mark, and every
-- other type frame is read back as it is, without the mark.
pub untag_lem :
    (t : String)
    → (untag (tag t) ≡ (true, t)) × ((untag t ≡ (false, t)) ⊎ ((u : String) × (t ≡ tag u)))
unfolding untag tag
untag_lem String.[] = (refl, inl refl)
untag_lem (String.◌∷◌ c t) = (
  refl,
  elim (Bool-cases (code c == 1)) [
    | inl same ↦
        let one : code c ≡ 1 = ground (arith, same) in
        inr (t, ap (λ d. String.◌∷◌ d t) (Char-path c shm_marker one))
    | inr other ↦ inl (ground (arith, other))
  ],
)
