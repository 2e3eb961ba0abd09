-- ===== src/MessageRuntime/Registry.antt =====
-- What the four callbacks of src/message_runtime.cc leave in the two storages of publishers.
use rf_trans_v.Base.{
  ◌≡◌, sym, String, Bool, true, false, not, ◌&&◌, ◌||◌, List, [], arith, str_eq, if◌then◌else◌,
  remove_if,
}
use mathlib.Core.Path.{subst}
use rf_trans_v.Info.Class.{message_pub}
use rf_trans_v.Info.Message.{MessagePublisherInfo}
use rf_trans_v.TopicStorage.{TopicStorage, at_node, add_publisher}
use rf_trans_v.TopicStorage.Stored.{stored, with_publisher, stored-add_publisher}
use rf_trans_v.TopicStorage.Valid.{IsValid}
use rf_trans_v.TopicStorage.Keeps.{del_publishers_by_node-IsValid, del_publishers_by_proc-IsValid}
use rf_trans_v.TopicStorage.Adds.{add_publisher-IsValid}
use rf_trans_v.TopicStorage.Delete.{stored-del_publishers_by_node, stored-del_publishers_by_proc}
use rf_trans_v.MessageRuntime.{
  Links, Callback, publisher_connected, publisher_disconnected, subscriber_registered,
  subscriber_unregistered, has_subscriber, on_publisher_connected, on_publisher_disconnected,
  on_subscriber_registered, on_subscriber_unregistered, call_back,
}

-- whether a list under a topic and a process is the one that a publisher belongs to
abbrev belongs : MessagePublisherInfo → String → String → Bool
belongs p t u = str_eq p.info.topic t && str_eq p.info.process_uuid u

-- a publisher that speaks for a whole process that has gone
abbrev pub whole_process : MessagePublisherInfo → Bool
whole_process p = str_eq p.info.topic "" && str_eq p.info.node_uuid ""

either-IsValid :
    (b : Bool) {x y : TopicStorage MessagePublisherInfo}
    → IsValid x
    → IsValid y
    → IsValid (if b then x else y)
either-IsValid true v w = v
either-IsValid false v w = w

module _ {M K : Type 0} where
  -- the links are well formed
  pub record IsWell (l : Links M K) : Type 0 where
    pub publishers : IsValid l.remote_publishers
    pub subscribers : IsValid l.remote_subscribers

  abbrev skips : MessagePublisherInfo → Links M K → Bool
  skips p l =
      not (has_subscriber p.info.topic l.local_subscribers)
      || str_eq p.info.process_uuid l.process_uuid

  connected-publishers :
      (p : MessagePublisherInfo) (l : Links M K)
      → (on_publisher_connected p l).remote_publishers
        ≡ (if skips p l then l.remote_publishers else (add_publisher p l.remote_publishers).0)
  unfolding on_publisher_connected
  connected-publishers p l = ground arith

  connected-subscribers :
      (p : MessagePublisherInfo) (l : Links M K)
      → (on_publisher_connected p l).remote_subscribers ≡ l.remote_subscribers
  unfolding on_publisher_connected
  connected-subscribers p l = ground arith

  -- the storages after the callback are those of one of two forms
  pub either-IsWell :
      (b : Bool) (x y : Links M K) → IsWell x → IsWell y → IsWell (if b then x else y)
  either-IsWell true x y v w = v
  either-IsWell false x y v w = w

  pub call_back-IsWell :
      (cb : Callback) (p : MessagePublisherInfo) (l : Links M K)
      → IsWell l
      → IsWell (call_back cb p l)
  unfolding call_back on_publisher_disconnected on_subscriber_registered on_subscriber_unregistered
  call_back-IsWell publisher_connected p l w = record {
    publishers = subst IsValid (sym (connected-publishers p l)) (
        either-IsValid (skips p l) w.publishers
          (add_publisher-IsValid p l.remote_publishers w.publishers));
    subscribers = subst IsValid (sym (connected-subscribers p l)) w.subscribers;
  }
  call_back-IsWell publisher_disconnected p l w =
      either-IsWell (whole_process p) _ _
        (record {
          publishers =
              del_publishers_by_proc-IsValid p.info.process_uuid l.remote_publishers w.publishers;
          subscribers =
              del_publishers_by_proc-IsValid p.info.process_uuid l.remote_subscribers w.subscribers;
        })
        (record {
          publishers =
              del_publishers_by_node-IsValid p.info.topic p.info.process_uuid p.info.node_uuid
                l.remote_publishers w.publishers;
          subscribers = w.subscribers;
        })
  call_back-IsWell subscriber_registered p l w =
      either-IsWell (not (str_eq p.ctrl l.process_uuid)) _ _ w (record {
        publishers = w.publishers;
        subscribers = add_publisher-IsValid p l.remote_subscribers w.subscribers;
      })
  call_back-IsWell subscriber_unregistered p l w =
      either-IsWell (not (str_eq p.ctrl "") && not (str_eq p.ctrl l.process_uuid)) _ _ w (record {
        publishers = w.publishers;
        subscribers =
            del_publishers_by_node-IsValid p.info.topic p.info.process_uuid p.info.node_uuid
              l.remote_subscribers w.subscribers;
      })

  -- What a callback should make of the list of remote subscribers under a topic and a process.
  unfoldable pub subscribers_after :
      Callback
      → MessagePublisherInfo
      → Links M K
      → String
      → String
      → List MessagePublisherInfo
      → List MessagePublisherInfo
  subscribers_after publisher_connected p l t u known = known
  subscribers_after publisher_disconnected p l t u known =
      if whole_process p && str_eq p.info.process_uuid u then [] else known
  subscribers_after subscriber_registered p l t u known =
      if str_eq p.ctrl l.process_uuid && belongs p t u then with_publisher p known else known
  subscribers_after subscriber_unregistered p l t u known =
      if (str_eq p.ctrl "" || str_eq p.ctrl l.process_uuid) && belongs p t u
      then remove_if (at_node p.info.node_uuid) known
      else known

  -- Of the remote subscribers, a registration that names this process adds its node; one that is
  -- withdrawn, naming this process or none, takes its node out; the end of a process takes all of
  -- the process out, under every topic; nothing else changes any list.
  pub remote_subscribers-call_back :
      (cb : Callback) (p : MessagePublisherInfo) (l : Links M K) (t u : String)
      → IsWell l
      → stored t u (call_back cb p l).remote_subscribers
        ≡ subscribers_after cb p l t u (stored t u l.remote_subscribers)
  unfolding call_back on_publisher_connected on_publisher_disconnected on_subscriber_registered
      on_subscriber_unregistered subscribers_after
  remote_subscribers-call_back publisher_connected p l t u w = ground arith
  remote_subscribers-call_back publisher_disconnected p l t u w = ground (
    arith,
    (stored-del_publishers_by_proc p.info.process_uuid t u l.remote_subscribers
        w.subscribers.sorted).1,
  )
  remote_subscribers-call_back subscriber_registered p l t u w =
      ground (arith, (stored-add_publisher p t u l.remote_subscribers).1)
  remote_subscribers-call_back subscriber_unregistered p l t u w = ground (
    arith,
    (stored-del_publishers_by_node p.info.topic p.info.process_uuid p.info.node_uuid t u
        l.remote_subscribers).1,
  )

  -- What a callback should make of the list of remote publishers under a topic and a process.
  unfoldable pub publishers_after :
      Callback
      → MessagePublisherInfo
      → Links M K
      → String
      → String
      → List MessagePublisherInfo
      → List MessagePublisherInfo
  publishers_after publisher_connected p l t u known =
      if has_subscriber p.info.topic l.local_subscribers
        && not (str_eq p.info.process_uuid l.process_uuid)
        && belongs p t u
      then with_publisher p known
      else known
  publishers_after publisher_disconnected p l t u known =
      if whole_process p
      then (if str_eq p.info.process_uuid u then [] else known)
      else if belongs p t u
      then remove_if (at_node p.info.node_uuid) known
      else known
  publishers_after subscriber_registered p l t u known = known
  publishers_after subscriber_unregistered p l t u known = known

  -- Of the remote publishers, one that is found is added where this process subscribes to its topic
  -- and the publisher is not its own; one that is lost is taken out, and with the end of a process
  -- all of the process, under every topic; nothing else changes any list.
  pub remote_publishers-call_back :
      (cb : Callback) (p : MessagePublisherInfo) (l : Links M K) (t u : String)
      → IsWell l
      → stored t u (call_back cb p l).remote_publishers
        ≡ publishers_after cb p l t u (stored t u l.remote_publishers)
  unfolding call_back on_publisher_connected on_publisher_disconnected on_subscriber_registered
      on_subscriber_unregistered publishers_after
  remote_publishers-call_back publisher_connected p l t u w =
      ground (arith, (stored-add_publisher p t u l.remote_publishers).1)
  remote_publishers-call_back publisher_disconnected p l t u w = ground (
    arith,
    (stored-del_publishers_by_proc p.info.process_uuid t u l.remote_publishers
        w.publishers.sorted).1,
    (stored-del_publishers_by_node p.info.topic p.info.process_uuid p.info.node_uuid t u
        l.remote_publishers).1,
  )
  remote_publishers-call_back subscriber_registered p l t u w = ground arith
  remote_publishers-call_back subscriber_unregistered p l t u w = ground arith
