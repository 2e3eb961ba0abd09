-- ===== src/MessageRuntime/Reached.antt =====
-- The addresses of the remote publishers: the subscriber socket is connected to each, or a command
-- to connect it waits.
use rf_trans_v.Base.{
  ◌≡◌, sym, ◌∙◌, ap, String, Bool, true, ◌||◌, List, [], ◌∷◌, ◌++◌, arith, eq_iff, any_of, All,
  Bool-cases, inl, inr,
}
use mathlib.Core.List.{append_assoc, append-nil}
use mathlib.Core.Path.{subst}
use rf_trans_v.Info.Class.{message_pub}
use rf_trans_v.Info.Message.{MessagePublisherInfo}
use rf_trans_v.TopicStorage.{at_node, has_publisher}
use rf_trans_v.TopicStorage.Stored.{stored}
use rf_trans_v.MessageRuntime.{
  Links, Callback, SubscriberCommand, SocketCall, connect, unsubscribe, publisher_connected,
  publisher_disconnected, subscriber_registered, subscriber_unregistered, registrations, call_back,
  on_publisher_connected, on_publisher_disconnected, on_subscriber_registered,
  on_subscriber_unregistered, unsubscribe_locally, subscribe_locally,
}
use rf_trans_v.MessageRuntime.Socket.{apply_command, apply_commands, apply_subscriber_commands}
use rf_trans_v.MessageRuntime.Registry.{
  IsWell, call_back-IsWell, publishers_after, remote_publishers-call_back,
}
use rf_trans_v.MessageRuntime.Run.{
  Op, calling, subscribing, unsubscribing, applying, step, run, step-IsWell,
}
use rf_trans_v.MessageRuntime.Addresses.{
  any_of-append, any_of-remove_if, asks, makes, has_addr, found, has_publisher-change,
}

module _ {M K : Type 0} where
  -- Every address of a remote publisher is connected in `done`, or waits to be.
  abbrev pub Reached : Links M K → List SocketCall → Type 0
  Reached l done =
      (a : String)
      → has_publisher a l.remote_publishers ≡ true
      → (any_of (asks a) l.subscriber_commands || any_of (makes a) done) ≡ true

  changed :
      (cb : Callback) (p : MessagePublisherInfo) (l : Links M K) (a t u : String)
      (known : List MessagePublisherInfo)
      → any_of (has_addr a) (publishers_after cb p l t u known) ≡ true
      → (any_of (has_addr a) known || found cb a p) ≡ true
  unfolding publishers_after
  changed publisher_connected p l a t u known h =
      ground (arith, h, any_of-append (has_addr a) known (p ∷ []))
  changed publisher_disconnected p l a t u known h =
      ground (arith, h, any_of-remove_if (has_addr a) (at_node p.info.node_uuid) known)
  changed subscriber_registered p l a t u known h = ground (arith, h)
  changed subscriber_unregistered p l a t u known h = ground (arith, h)

  -- the addresses that a callback makes known
  call_back-addresses :
      (cb : Callback) (p : MessagePublisherInfo) (l : Links M K) (a : String)
      → IsWell l
      → has_publisher a (call_back cb p l).remote_publishers ≡ true
      → (has_publisher a l.remote_publishers || found cb a p) ≡ true
  unfolding publishers_after
  call_back-addresses cb p l a w =
      has_publisher-change a (found cb a p) l.remote_publishers _ w.publishers
        (call_back-IsWell cb p l w).publishers
        (λ t u h.
          changed cb p l a t u (stored t u l.remote_publishers)
            (ap (any_of (has_addr a)) (sym (remote_publishers-call_back cb p l t u w)) ∙ h))

  enqueued :
      (p : MessagePublisherInfo) (l : Links M K) (a : String)
      → has_publisher a (on_publisher_connected p l).remote_publishers ≡ true
      → (has_publisher a l.remote_publishers || has_addr a p) ≡ true
      → (has_publisher a l.remote_publishers
          || any_of (asks a) (on_publisher_connected p l).subscriber_commands)
        ≡ true
  unfolding on_publisher_connected
  enqueued p l a h k =
      let c = connect p.info.addr in
      let cs = l.subscriber_commands in
      ground (
        arith,
        h,
        k,
        eq_iff p.info.addr a,
        any_of-append (asks a) cs (c ∷ []),
        any_of-append (asks a) (cs ++ c ∷ [])
            (SubscriberCommand.subscribe p.info.topic (registrations p l) ∷ []),
      )

  keeps_commands :
      (p : MessagePublisherInfo) (l : Links M K) (a : String)
      → any_of (asks a) l.subscriber_commands ≡ true
      → any_of (asks a) (on_publisher_connected p l).subscriber_commands ≡ true
  unfolding on_publisher_connected
  keeps_commands p l a h =
      let c = connect p.info.addr in
      let cs = l.subscriber_commands in
      let s = SubscriberCommand.subscribe p.info.topic (registrations p l) in
      ground (
        arith,
        h,
        any_of-append (asks a) cs (c ∷ []),
        any_of-append (asks a) cs (s ∷ []),
        any_of-append (asks a) (cs ++ c ∷ []) (s ∷ []),
      )

  connected-Reached :
      (p : MessagePublisherInfo) (l : Links M K) (done : List SocketCall)
      → IsWell l
      → Reached l done
      → Reached (on_publisher_connected p l) done
  unfolding call_back
  connected-Reached p l done w r a h =
      let k = call_back-addresses publisher_connected p l a w h in
      elim (Bool-cases (has_publisher a l.remote_publishers)) [
        | inl yet ↦ elim (Bool-cases (any_of (asks a) l.subscriber_commands)) [
          | inl waits ↦ ground (arith, keeps_commands p l a waits)
          | inr gone ↦ ground (arith, r a yet)
        ]
        | inr new ↦ ground (arith, enqueued p l a h k)
      ]

  -- every command to connect that the socket takes is done
  apply-makes :
      (takes : SubscriberCommand → Bool) (a : String) (cs : List SubscriberCommand) (l : Links M K)
      → ((c : SubscriberCommand) → takes c ≡ true)
      → any_of (asks a) cs ≡ true
      → any_of (makes a) (apply_commands takes cs l) ≡ true
  unfolding apply_commands apply_command
  apply-makes takes a [] l ok h = cc
  apply-makes takes a (connect addr ∷ cs) l ok h = ground (
    arith,
    h,
    ok (connect addr),
    any_of-append (makes a) (apply_command (takes (connect addr)) (connect addr) l)
        (apply_commands takes cs l),
    apply-makes takes a cs l ok,
  )
  apply-makes takes a (unsubscribe topic ∷ cs) l ok h = ground (
    arith,
    any_of-append (makes a) (apply_command (takes (unsubscribe topic)) (unsubscribe topic) l)
        (apply_commands takes cs l),
    apply-makes takes a cs l ok h,
  )
  apply-makes takes a (SubscriberCommand.subscribe topic ps ∷ cs) l ok h =
      let c = SubscriberCommand.subscribe topic ps in
      ground (
        arith,
        any_of-append (makes a) (apply_command (takes c) c l) (apply_commands takes cs l),
        apply-makes takes a cs l ok h,
      )

  -- The socket takes every command.
  abbrev pub Takes : Op M K → Type 0
  Takes (applying takes) = (c : SubscriberCommand) → takes c ≡ true
  Takes (calling cb p) = Unit
  Takes (subscribing topic node h) = Unit
  Takes (unsubscribing topic node known) = Unit

  call_back-Reached :
      (cb : Callback) (p : MessagePublisherInfo) (l : Links M K) (done : List SocketCall)
      → IsWell l
      → Reached l done
      → Reached (call_back cb p l) done
  unfolding call_back on_publisher_disconnected on_subscriber_registered on_subscriber_unregistered
  call_back-Reached publisher_connected p l done w r a h = connected-Reached p l done w r a h
  call_back-Reached publisher_disconnected p l done w r a h =
      ground (arith, r a, call_back-addresses publisher_disconnected p l a w h)
  call_back-Reached subscriber_registered p l done w r a h =
      ground (arith, r a, call_back-addresses subscriber_registered p l a w h)
  call_back-Reached subscriber_unregistered p l done w r a h =
      ground (arith, r a, call_back-addresses subscriber_unregistered p l a w h)

  step-Reached :
      (op : Op M K) (l : Links M K) (done : List SocketCall)
      → IsWell l
      → Takes op
      → Reached l done
      → Reached (step op l).0 (done ++ (step op l).1)
  unfolding step unsubscribe_locally subscribe_locally apply_subscriber_commands
  step-Reached (calling cb p) l done w ok r a k =
      ground (arith, call_back-Reached cb p l done w r a k, any_of-append (makes a) done [])
  step-Reached (subscribing topic node h) l done w ok r a k =
      ground (arith, r a k, any_of-append (makes a) done [])
  step-Reached (unsubscribing topic node known) l done w ok r a k = ground (
    arith,
    r a,
    k,
    any_of-append (makes a) done [],
    any_of-append (asks a) l.subscriber_commands (unsubscribe topic ∷ []),
  )
  step-Reached (applying takes) l done w ok r a k = ground (
    arith,
    r a k,
    any_of-append (makes a) done (apply_commands takes l.subscriber_commands l),
    apply-makes takes a l.subscriber_commands l ok,
  )

  -- While the socket takes every command, any sequence of steps leaves the address of every remote
  -- publisher connected, in one of the calls that were made, or in a command that waits, where this
  -- was so before.
  pub run-Reached :
      (ops : List (Op M K)) (l : Links M K) (done : List SocketCall)
      → IsWell l
      → All Takes ops
      → Reached l done
      → Reached (run ops l).0 (done ++ (run ops l).1)
  unfolding run
  run-Reached [] l done w ok r = subst (Reached l) (sym (append-nil done)) r
  run-Reached (op ∷ ops) l done w ok r =
      let (l1, more) = step op l in
      subst (Reached (run ops l1).0) (append_assoc done more (run ops l1).1) (
        run-Reached ops l1 (done ++ more) (step-IsWell op l w) ok.1
          (step-Reached op l done w ok.0 r))
