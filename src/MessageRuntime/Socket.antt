-- ===== src/MessageRuntime/Socket.antt =====
-- `applySubscriberCommands` of src/message_runtime.cc: the commands of the subscriber socket's thread.
use rf_trans_v.Base.{◌&&◌, Bool, not, List, [], ◌∷◌, ◌++◌, if◌then◌else◌}
use rf_trans_v.Info.Class.{message_pub}
use rf_trans_v.MessageRuntime.{
  SubscriberCommand, SocketCall, Links, connect, connects, subscribes, unsubscribes, register_all,
  has_subscriber,
}

module _ {M K : Type 0} where
  -- One command of `applySubscriberCommands`, where the socket takes the call (`true`) or throws.
  unfoldable pub apply_command : Bool → SubscriberCommand → Links M K → List SocketCall
  unfolding has_subscriber
  apply_command takes (connect addr) l = if takes then connects addr ∷ [] else []
  apply_command takes (SubscriberCommand.subscribe topic ps) l =
      if has_subscriber topic l.local_subscribers && takes
      then subscribes topic ∷ register_all ps
      else []
  apply_command takes (SubscriberCommand.unsubscribe topic) l =
      if not (has_subscriber topic l.local_subscribers) && takes
      then unsubscribes topic ∷ []
      else []

  -- `applySubscriberCommands`, over what the socket answers to each command
  unfoldable pub apply_commands :
      (SubscriberCommand → Bool) → List SubscriberCommand → Links M K → List SocketCall
  unfolding apply_command
  apply_commands takes [] l = []
  apply_commands takes (c ∷ cs) l = apply_command (takes c) c l ++ apply_commands takes cs l

  unfoldable pub apply_subscriber_commands :
      (SubscriberCommand → Bool) → Links M K → Links M K × List SocketCall
  unfolding apply_commands
  apply_subscriber_commands takes l =
      (record l { subscriber_commands = [] }, apply_commands takes l.subscriber_commands l)
