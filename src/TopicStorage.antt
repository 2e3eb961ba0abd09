-- ===== src/TopicStorage.antt =====
-- include/trans/details/topic_storage.hpp: the publishers that a process knows, by topic and then
-- by the uuid of the process that publishes. Each method holds the storage's lock from its first
-- statement to its end, so a method is one function from state to state.
pub mod Stored
pub mod Valid
pub mod Keeps
pub mod Adds
pub mod Delete
pub mod Queries
pub mod Gather
pub mod Spec
mod Examples
use rf_trans_v.Base.{
  ℕ, ◌+◌, ◌-◌, String, Bool, true, false, ◌&&◌, ◌||◌, Option, none, some, List, [], ◌∷◌, ◌++◌,
  str_eq, ltb, if◌then◌else◌, length, is_empty, find_if, any_of, remove_if, keep_if,
}
use rf_trans_v.Map.{Map, find, contains, find_or, assign, emplace, erase, keys}
use rf_trans_v.Info.Class.{Pub, topic_of, addr_of, process_of, node_of}

-- process uuid to publishers
abbrev pub ProcessMap : Type 0 → Type 0
ProcessMap P = Map (List P)

-- topic to processes
abbrev pub TopicStorage : Type 0 → Type 0
TopicStorage P = Map (ProcessMap P)

-- kGenericMessageType of include/trans/details/trans_types.hpp
abbrev pub generic_message_type : String
generic_message_type = "google.protobuf.Message"

module _ {P : Type 0} where
  unfoldable pub has_topic : String → TopicStorage P → Bool
  unfolding contains
  has_topic topic s = contains topic s

  unfoldable pub has_any_publishers : String → String → TopicStorage P → Bool
  unfolding has_topic find_or contains
  has_any_publishers topic p_uuid s =
      if has_topic topic s then contains p_uuid (find_or [] topic s) else false

  unfoldable pub get_publishers : String → TopicStorage P → Option (ProcessMap P)
  unfolding find
  get_publishers topic s = find topic s

  -- `mp` with the list of a process put back, or the process erased where the list is empty
  unfoldable pub put_process : String → List P → ProcessMap P → ProcessMap P
  unfolding erase assign
  put_process p_uuid rest mp = if is_empty rest then erase p_uuid mp else assign p_uuid rest mp

  unfoldable pub put_topic : String → ProcessMap P → TopicStorage P → TopicStorage P
  unfolding erase assign
  put_topic topic mp s = if is_empty mp then erase topic s else assign topic mp s

  -- the loop of `delPublishersByProc`, with `count`
  unfoldable pub del_by_proc : String → TopicStorage P → TopicStorage P × ℕ
  unfolding erase contains
  del_by_proc p_uuid [] = ([], 0)
  del_by_proc p_uuid ((topic, mp) ∷ s) =
      let (rest, count) = del_by_proc p_uuid s in
      let left = erase p_uuid mp in
      let total = (if contains p_uuid mp then 1 else 0) + count in
      (if is_empty left then rest else (topic, left) ∷ rest, total)

  unfoldable pub del_publishers_by_proc : String → TopicStorage P → TopicStorage P × Bool
  unfolding del_by_proc
  del_publishers_by_proc p_uuid s = let (rest, count) = del_by_proc p_uuid s in (rest, ltb 0 count)

  unfoldable pub get_topic_list : TopicStorage P → List String
  get_topic_list s = keys s

module _ {P : Type 0} ⦃e : Pub P⦄ where
  -- the test by which `addPublisher` finds a publisher that is there already
  abbrev pub same_endpoint : P → P → Bool
  same_endpoint publisher known =
      str_eq (addr_of known) (addr_of publisher) && str_eq (node_of known) (node_of publisher)

  abbrev pub at_node : String → P → Bool
  at_node n_uuid known = str_eq (node_of known) n_uuid

  -- the part of `addPublisher` after `data_[topic]`, on the processes of the topic
  unfoldable pub add_to_process : P → ProcessMap P → Option (ProcessMap P)
  unfolding contains find_or
  add_to_process publisher mp =
      let pub_list = find_or [] (process_of publisher) mp in
      if contains (process_of publisher) mp && any_of (same_endpoint publisher) pub_list
      then none
      else some (assign (process_of publisher) (pub_list ++ publisher ∷ []) mp)

  -- the rest of `addPublisher`, on the storage that `data_[topic]` leaves
  unfoldable pub add_opened : P → TopicStorage P → TopicStorage P × Bool
  unfolding add_to_process assign find_or
  add_opened publisher s = elim (add_to_process publisher (find_or [] (topic_of publisher) s)) [
    | none ↦ (s, false)
    | some mp ↦ (assign (topic_of publisher) mp s, true)
  ]

  unfoldable pub add_publisher : P → TopicStorage P → TopicStorage P × Bool
  unfolding add_opened emplace
  add_publisher publisher s = add_opened publisher (emplace (topic_of publisher) [] s)

  -- the overload that takes a message type, over the type's accessor
  unfoldable pub has_topic_of_type : (P → String) → String → String → TopicStorage P → Bool
  unfolding has_topic find_or
  has_topic_of_type type_of topic msg_type s =
      if has_topic topic s
      then any_of
          (λ proc.
            any_of
              (λ known.
                str_eq (type_of known) msg_type || str_eq (type_of known) generic_message_type)
              proc.1)
          (find_or [] topic s)
      else false

  unfoldable pub has_publisher : String → TopicStorage P → Bool
  has_publisher addr s =
      any_of
        (λ topic. any_of (λ proc. any_of (λ known. str_eq (addr_of known) addr) proc.1) topic.1) s

  unfoldable pub get_publisher : String → String → String → TopicStorage P → Option P
  get_publisher topic p_uuid n_uuid s = elim (find topic s) [
    | none ↦ none
    | some mp ↦ elim (find p_uuid mp) [
      | none ↦ none
      | some pub_list ↦ find_if (at_node n_uuid) pub_list
    ]
  ]

  unfoldable pub del_publishers_by_node :
      String → String → String → TopicStorage P → TopicStorage P × Bool
  unfolding put_process put_topic find
  del_publishers_by_node topic p_uuid n_uuid s = elim (find topic s) [
    | none ↦ (s, false)
    | some mp ↦ elim (find p_uuid mp) [
      | none ↦ (s, false)
      | some pub_list ↦
          let rest = remove_if (at_node n_uuid) pub_list in
          (put_topic topic (put_process p_uuid rest mp) s, ltb 0 (length pub_list - length rest))
    ]
  ]

  -- `pubs[pub.getNodeUuid()].push_back(pub)` for each publisher of a list
  unfoldable pub group_by_node : List P → Map (List P) → Map (List P)
  unfolding find_or assign
  group_by_node [] pubs = pubs
  group_by_node (known ∷ rest) pubs =
      group_by_node rest
        (assign (node_of known) (find_or [] (node_of known) pubs ++ known ∷ []) pubs)

  unfoldable pub gather_by_proc : String → TopicStorage P → Map (List P) → Map (List P)
  unfolding group_by_node find
  gather_by_proc p_uuid [] pubs = pubs
  gather_by_proc p_uuid ((topic, mp) ∷ s) pubs =
      gather_by_proc p_uuid s
        (elim (find p_uuid mp) [ none ↦ pubs | some pub_list ↦ group_by_node pub_list pubs ])

  unfoldable pub get_publishers_by_proc : String → TopicStorage P → Map (List P)
  unfolding gather_by_proc
  get_publishers_by_proc p_uuid s = gather_by_proc p_uuid s []

  unfoldable pub get_publishers_by_node : String → String → TopicStorage P → List P
  unfolding find
  get_publishers_by_node p_uuid n_uuid [] = []
  get_publishers_by_node p_uuid n_uuid ((topic, mp) ∷ s) =
      elim (find p_uuid mp) [ none ↦ [] | some pub_list ↦ keep_if (at_node n_uuid) pub_list ]
      ++ get_publishers_by_node p_uuid n_uuid s
