-- ===== src/MessageRuntime/Run.antt =====
-- Any sequence of callbacks, calls and rounds of the thread of the subscriber socket.
use rf_trans_v.Base.{String, Bool, Option, List, [], ◌∷◌, ◌++◌}
use rf_trans_v.Info.Message.{MessagePublisherInfo}
use rf_trans_v.TopicStorage.{ProcessMap}
use rf_trans_v.HandlerStorage.{remove_handlers_for_node}
use rf_trans_v.MessageRuntime.{
  Links, Callback, SocketCall, SubscriberCommand, call_back, subscribe_locally, unsubscribe_locally,
  has_subscriber,
}
use rf_trans_v.MessageRuntime.Socket.{apply_subscriber_commands}
use rf_trans_v.MessageRuntime.Handler.{SubscriptionHandler}
use rf_trans_v.MessageRuntime.Registry.{IsWell, either-IsWell, call_back-IsWell}

pub data Op (M K : Type 0) : Type 0 where
  calling : Callback → MessagePublisherInfo → Op M K
  subscribing : String → String → SubscriptionHandler M K → Op M K
  unsubscribing : String → String → Option (ProcessMap MessagePublisherInfo) → Op M K
  applying : (SubscriberCommand → Bool) → Op M K

module _ {M K : Type 0} where
  unfoldable pub step : Op M K → Links M K → Links M K × List SocketCall
  unfolding call_back subscribe_locally unsubscribe_locally apply_subscriber_commands
  step (calling cb p) l = (call_back cb p l, [])
  step (subscribing topic node h) l = (subscribe_locally topic node h l, [])
  step (unsubscribing topic node known) l = ((unsubscribe_locally topic node known l).0, [])
  step (applying takes) l = apply_subscriber_commands takes l

  unfoldable pub run : List (Op M K) → Links M K → Links M K × List SocketCall
  unfolding step
  run [] l = (l, [])
  run (op ∷ ops) l = let (l1, done) = step op l in let (l2, more) = run ops l1 in (l2, done ++ more)

  pub step-IsWell : (op : Op M K) (l : Links M K) → IsWell l → IsWell (step op l).0
  unfolding step unsubscribe_locally subscribe_locally apply_subscriber_commands
  step-IsWell (calling cb p) l w = call_back-IsWell cb p l w
  step-IsWell (subscribing topic node h) l w = record {
    publishers = w.publishers;
    subscribers = w.subscribers;
  }
  step-IsWell (unsubscribing topic node known) l w =
      let left = (remove_handlers_for_node topic node l.local_subscribers).0 in
      either-IsWell (has_subscriber topic left) _ _
        (record { publishers = w.publishers; subscribers = w.subscribers })
        (record { publishers = w.publishers; subscribers = w.subscribers })
  step-IsWell (applying takes) l w = record {
    publishers = w.publishers;
    subscribers = w.subscribers;
  }

  -- Any sequence of steps keeps the links well formed.
  pub run-IsWell : (ops : List (Op M K)) (l : Links M K) → IsWell l → IsWell (run ops l).0
  unfolding run
  run-IsWell [] l w = w
  run-IsWell (op ∷ ops) l w = run-IsWell ops (step op l).0 (step-IsWell op l w)
