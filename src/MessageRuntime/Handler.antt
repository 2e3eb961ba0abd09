-- ===== src/MessageRuntime/Handler.antt =====
-- include/trans/details/subscription_handler.hpp: a subscriber's handler. `M` is the type of
-- messages and `K` that of callbacks. What the message's generated class does is a field: `parse`
-- is `ParseFromArray` on a new message, with its success, and `cast` the cast to that class.
use rf_trans_v.Base.{ℕ, String, Bool, true, false, Option, none, some, List, [], ◌∷◌}

pub record SubscriptionHandler (M K : Type 0) : Type 0 where
  pub handler_uuid : String
  pub node_uuid : String
  pub msg_type : String
  pub parse : List ℕ → M × Bool
  pub cast : M → Option M
  pub cb : Option K

-- include/trans/details/message_info.hpp
pub record MessageInfo : Type 0 where
  pub topic : String
  pub msg_type : String

-- A call of a subscriber's callback; the message is `none` where the cast fails.
pub record Call (M K : Type 0) : Type 0 where
  pub cb : K
  pub msg : Option M
  pub info : MessageInfo

module _ {M K : Type 0} where
  unfoldable pub run_local_callback :
      SubscriptionHandler M K → M → MessageInfo → Bool × List (Call M K)
  run_local_callback h msg info = elim h.cb [
    | none ↦ (false, [])
    | some cb ↦ (true, record { cb = cb; msg = h.cast msg; info = info } ∷ [])
  ]

  -- A failure to parse is only logged: the message is handed out all the same.
  unfoldable pub create_msg : SubscriptionHandler M K → List ℕ → Option M
  create_msg h bytes = some (h.parse bytes).0
