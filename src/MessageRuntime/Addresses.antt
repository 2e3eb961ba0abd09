-- ===== src/MessageRuntime/Addresses.antt =====
-- The addresses of publishers, in the storages and in the commands of the subscriber socket.
use rf_trans_v.Base.{
  ◌≡◌, refl, String, Bool, true, false, ◌||◌, List, [], ◌∷◌, ◌++◌, arith, str_eq, any_of, remove_if,
  Bool-cases, inl, inr,
}
use rf_trans_v.Info.Class.{message_pub}
use rf_trans_v.Info.Message.{MessagePublisherInfo}
use rf_trans_v.TopicStorage.{TopicStorage, has_publisher}
use rf_trans_v.TopicStorage.Stored.{stored}
use rf_trans_v.TopicStorage.Valid.{IsValid}
use rf_trans_v.TopicStorage.Queries.{has_publisher_iff}
use rf_trans_v.MessageRuntime.{
  Callback, SubscriberCommand, SocketCall, connect, unsubscribe, connects, subscribes, unsubscribes,
  registers, publisher_connected, publisher_disconnected, subscriber_registered,
  subscriber_unregistered,
}

module _ {A : Type 0} (test : A → Bool) where
  pub any_of-append : (xs ys : List A) → any_of test (xs ++ ys) ≡ any_of test xs || any_of test ys
  any_of-append [] ys = refl
  any_of-append (x ∷ xs) ys = ground (arith, any_of-append xs ys)

  pub any_of-remove_if :
      (gone : A → Bool) (xs : List A)
      → any_of test (remove_if gone xs) ≡ true
      → any_of test xs ≡ true
  any_of-remove_if gone [] h = h
  any_of-remove_if gone (x ∷ xs) h = ground (arith, any_of-remove_if gone xs)

-- Whether a command connects to the address, and whether a call on the socket does.
abbrev pub asks : String → SubscriberCommand → Bool
asks a (connect addr) = str_eq addr a
asks a (SubscriberCommand.subscribe topic ps) = false
asks a (unsubscribe topic) = false

abbrev pub makes : String → SocketCall → Bool
makes a (connects addr) = str_eq addr a
makes a (subscribes topic) = false
makes a (unsubscribes topic) = false
makes a (registers p) = false

abbrev pub has_addr : String → MessagePublisherInfo → Bool
has_addr a p = str_eq p.info.addr a

-- whether a callback may make the address known
abbrev pub found : Callback → String → MessagePublisherInfo → Bool
found publisher_connected a p = has_addr a p
found publisher_disconnected a p = false
found subscriber_registered a p = false
found subscriber_unregistered a p = false

-- an address that is known after a change of the lists was known, or is the exception `b`
pub has_publisher-change :
    (a : String) (b : Bool) (s s' : TopicStorage MessagePublisherInfo)
    → IsValid s
    → IsValid s'
    → ((t u : String)
        → any_of (has_addr a) (stored t u s') ≡ true
        → (any_of (has_addr a) (stored t u s) || b) ≡ true)
    → has_publisher a s' ≡ true
    → (has_publisher a s || b) ≡ true
has_publisher-change a b s s' v v' h k =
    let (t, u, here) = (has_publisher_iff a s' v').0 k in
    elim (Bool-cases (any_of (has_addr a) (stored t u s))) [
      | inl yet ↦ ground (arith, (has_publisher_iff a s v).1 (t, u, yet))
      | inr new ↦ ground (arith, h t u here)
    ]
