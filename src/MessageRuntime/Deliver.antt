-- ===== src/MessageRuntime/Deliver.antt =====
-- What the loops over the handlers of a remote message come to.
use rf_trans_v.Base.{
  ℕ, ◌≡◌, refl, ◌∙◌, sym, ap, Bool, true, false, Option, none, some, List, [], ◌∷◌, ◌++◌, arith,
  if◌then◌else◌,
}
use mathlib.Core.List.{append_assoc}
use rf_trans_v.Map.{Map}
use rf_trans_v.HandlerStorage.{NodeHandlerMap}
use rf_trans_v.MessageRuntime.Handler.{
  SubscriptionHandler, MessageInfo, Call, run_local_callback, create_msg,
}
use rf_trans_v.MessageRuntime.Publish.{fitting_of_node, fitting}
use rf_trans_v.MessageRuntime.Receive.{call_each, deliver_node, deliver, Delivery}

module _ {M K : Type 0} where
  -- What the loops should come to, from the handlers of the message's type: the first one parses
  -- the message, and all of them are called with what it makes of it, unless the slot was
  -- overwritten meanwhile.
  unfoldable pub delivered :
      Bool → List ℕ → MessageInfo → List (SubscriptionHandler M K) → List (Call M K)
  unfolding call_each
  delivered whole bytes info [] = []
  delivered whole bytes info (h ∷ hs) =
      if whole then call_each (h.parse bytes).0 info (h ∷ hs) else []

  -- the same from `made` on, with the whole result
  abbrev resumed :
      Bool → List ℕ → MessageInfo → List (SubscriptionHandler M K) → Option M → Delivery M K
  resumed whole bytes info hs (some msg) = (some msg, false, call_each msg info hs)
  resumed whole bytes info [] none = (none, false, [])
  resumed whole bytes info (h ∷ hs) none =
      if whole
      then (some (h.parse bytes).0, false, call_each (h.parse bytes).0 info (h ∷ hs))
      else (some (h.parse bytes).0, true, [])

  call_each-append :
      (msg : M) (info : MessageInfo) (a b : List (SubscriptionHandler M K))
      → call_each msg info (a ++ b) ≡ call_each msg info a ++ call_each msg info b
  unfolding call_each
  call_each-append msg info [] b = refl
  call_each-append msg info (h ∷ a) b =
      ap (λ l. (run_local_callback h msg info).1 ++ l) (call_each-append msg info a b)
      ∙ sym (append_assoc _ (call_each msg info a) (call_each msg info b))

  deliver_node-resumed :
      (whole : Bool) (bytes : List ℕ) (info : MessageInfo) (hs : Map (SubscriptionHandler M K))
      (made : Option M)
      → deliver_node whole bytes info hs made
        ≡ resumed whole bytes info (fitting_of_node info.msg_type hs) made
  unfolding deliver_node fitting_of_node call_each create_msg
  deliver_node-resumed whole bytes info [] none = refl
  deliver_node-resumed whole bytes info [] (some msg) = refl
  deliver_node-resumed whole bytes info ((u, h) ∷ hs) none = ground (
    arith,
    deliver_node-resumed whole bytes info hs none,
    deliver_node-resumed whole bytes info hs (some (h.parse bytes).0),
  )
  deliver_node-resumed whole bytes info ((u, h) ∷ hs) (some msg) =
      ground (arith, deliver_node-resumed whole bytes info hs (some msg))

  -- one list of handlers after another
  abbrev after : Delivery M K → Delivery M K → Delivery M K
  after first next =
      if first.1 then (first.0, true, first.2) else (next.0, next.1, first.2 ++ next.2)

  resumed-append :
      (whole : Bool) (bytes : List ℕ) (info : MessageInfo) (a b : List (SubscriptionHandler M K))
      (made : Option M)
      → after
          (resumed whole bytes info a made)
          (resumed whole bytes info b (resumed whole bytes info a made).0)
        ≡ resumed whole bytes info (a ++ b) made
  resumed-append whole bytes info a b (some msg) =
      ap (λ l. (some msg, false, l)) (sym (call_each-append msg info a b))
  resumed-append whole bytes info [] [] none = refl
  resumed-append whole bytes info [] (h ∷ b) none = ground arith
  resumed-append true bytes info (h ∷ a) b none =
      let msg = (h.parse bytes).0 in
      ap (λ l. (some msg, false, l)) (sym (call_each-append msg info (h ∷ a) b))
  resumed-append false bytes info (h ∷ a) b none = refl

  deliver-resumed :
      (whole : Bool) (bytes : List ℕ) (info : MessageInfo)
      (nodes : NodeHandlerMap (SubscriptionHandler M K)) (made : Option M)
      → deliver whole bytes info nodes made
        ≡ resumed whole bytes info (fitting info.msg_type nodes) made
  unfolding deliver fitting call_each
  deliver-resumed whole bytes info [] none = refl
  deliver-resumed whole bytes info [] (some msg) = refl
  deliver-resumed whole bytes info ((n, hs) ∷ nodes) made =
      let a = fitting_of_node info.msg_type hs in
      let here = resumed whole bytes info a made in
      rw
        (
          deliver_node-resumed whole bytes info hs made,
          deliver-resumed whole bytes info nodes here.0,
        )
        (resumed-append whole bytes info a (fitting info.msg_type nodes) made)

  resumed-delivered :
      (whole : Bool) (bytes : List ℕ) (info : MessageInfo) (hs : List (SubscriptionHandler M K))
      → (resumed whole bytes info hs none).2 ≡ delivered whole bytes info hs
  unfolding delivered
  resumed-delivered whole bytes info [] = refl
  resumed-delivered whole bytes info (h ∷ hs) = ground arith

  -- The loops over the handlers of a remote message call just the handlers of its type, each once
  -- and in the order of nodes and handlers, with what the first of them parses; where the slot
  -- was overwritten while it was parsed, they call none.
  pub deliver-delivered :
      (whole : Bool) (bytes : List ℕ) (info : MessageInfo)
      (nodes : NodeHandlerMap (SubscriptionHandler M K))
      → (deliver whole bytes info nodes none).2
        ≡ delivered whole bytes info (fitting info.msg_type nodes)
  unfolding delivered
  deliver-delivered whole bytes info nodes =
      ap (λ r. r.2) (deliver-resumed whole bytes info nodes none)
      ∙ resumed-delivered whole bytes info (fitting info.msg_type nodes)
