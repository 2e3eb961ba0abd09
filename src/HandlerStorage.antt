-- ===== src/HandlerStorage.antt =====
-- include/trans/details/handler_storage.hpp: the handlers of this process, by topic, by the uuid of
-- the node that registered them, and by their own uuid. Each method holds the storage's lock, so a
-- method is one function from state to state. The handlers' classes are parameters: what the
-- storage asks of them are their accessors.
pub mod Contents
pub mod Valid
pub mod Pick
pub mod First
mod Examples
use rf_trans_v.Base.{
  String, Bool, true, false, not, ◌&&◌, Option, none, some, List, [], ◌∷◌, str_eq, if◌then◌else◌,
  is_empty,
}
use rf_trans_v.Map.{Map, find, contains, find_or, assign, emplace, erase}

-- handler uuid to handler, for one node; and the nodes of one topic
abbrev pub NodeHandlerMap {ℓ} : Type ℓ → Type ℓ
NodeHandlerMap H = Map (Map H)

abbrev pub HandlerStorage {ℓ} : Type ℓ → Type ℓ
HandlerStorage H = Map (NodeHandlerMap H)

module _ {ℓ} {H : Type ℓ} where
  unfoldable pub has_topic : String → HandlerStorage H → Bool
  unfolding contains
  has_topic topic s = contains topic s

  unfoldable pub get_handlers : String → HandlerStorage H → Option (NodeHandlerMap H)
  unfolding find
  get_handlers topic s = find topic s

  -- over `getHandlerUuid`
  unfoldable pub add_handler :
      (H → String) → String → String → H → HandlerStorage H → HandlerStorage H
  unfolding find_or assign emplace
  add_handler uuid_of topic node_uuid handler s =
      let nodes = find_or [] topic s in
      let handlers = find_or [] node_uuid nodes in
      assign topic (assign node_uuid (emplace (uuid_of handler) handler handlers) nodes) s

  -- the loop over the handlers of one node
  unfoldable pub first_of_node : (H → Bool) → Map H → Option H
  first_of_node test [] = none
  first_of_node test ((handler_uuid, handler) ∷ m) =
      let rest = first_of_node test m in if test handler then some handler else rest

  -- the loop over the nodes
  unfoldable pub first_of_topic : (H → Bool) → NodeHandlerMap H → Option H
  unfolding first_of_node
  first_of_topic test [] = none
  first_of_topic test ((node_uuid, node_map) ∷ m) =
      let rest = first_of_topic test m in
      elim (first_of_node test node_map) [ none ↦ rest | some handler ↦ some handler ]

  unfoldable pub first_matching : (H → Bool) → String → HandlerStorage H → Option H
  unfolding find first_of_topic
  first_matching test topic s = elim (find topic s) [
    | none ↦ none
    | some mp ↦ first_of_topic test mp
  ]

  -- `getFirstHandler` by the types of request and response, over the handler's accessors
  unfoldable pub get_first_service_handler :
      (H → String) → (H → String) → String → String → String → HandlerStorage H → Option H
  unfolding first_matching
  get_first_service_handler req_of rep_of topic req_type_name rep_type_name s =
      first_matching (λ h. str_eq req_type_name (req_of h) && str_eq rep_type_name (rep_of h)) topic
        s

  -- `getFirstHandler` by the type of a message
  unfoldable pub get_first_handler : (H → String) → String → String → HandlerStorage H → Option H
  unfolding first_matching
  get_first_handler type_of topic msg_type s =
      first_matching (λ h. str_eq msg_type (type_of h)) topic s

  unfoldable pub get_handler : String → String → String → HandlerStorage H → Option H
  unfolding find
  get_handler topic node_uuid handler_uuid s = elim (find topic s) [
    | none ↦ none
    | some mp ↦ elim (find node_uuid mp) [
      | none ↦ none
      | some handlers ↦ find handler_uuid handlers
    ]
  ]

  unfoldable pub has_handlers_for_topic : String → HandlerStorage H → Bool
  unfolding find
  has_handlers_for_topic topic s = elim (find topic s) [
    | none ↦ false
    | some mp ↦ not (is_empty mp)
  ]

  unfoldable pub has_handlers_for_node : String → String → HandlerStorage H → Bool
  unfolding find contains
  has_handlers_for_node topic node_uuid s = elim (find topic s) [
    | none ↦ false
    | some mp ↦ contains node_uuid mp
  ]

  -- `data_[topic]` after the first test of `removeHandler`; the second test erases the key `topic`
  -- from the nodes of the topic, and not from the topics
  unfoldable pub drop_handler :
      String → String → String → Map H → NodeHandlerMap H → NodeHandlerMap H
  unfolding erase assign
  drop_handler topic node_uuid req_uuid handlers mp =
      let left = erase req_uuid handlers in
      let nodes = if is_empty left then erase node_uuid mp else assign node_uuid left mp in
      if is_empty nodes then erase topic nodes else nodes

  unfoldable pub remove_handler :
      String → String → String → HandlerStorage H → HandlerStorage H × Bool
  unfolding find assign contains drop_handler
  remove_handler topic node_uuid req_uuid s = elim (find topic s) [
    | none ↦ (s, false)
    | some mp ↦ elim (find node_uuid mp) [
      | none ↦ (s, false)
      | some handlers ↦ (
        assign topic (drop_handler topic node_uuid req_uuid handlers mp) s,
        contains req_uuid handlers,
      )
    ]
  ]

  unfoldable pub remove_handlers_for_node :
      String → String → HandlerStorage H → HandlerStorage H × Bool
  unfolding find assign erase contains
  remove_handlers_for_node topic node_uuid s = elim (find topic s) [
    | none ↦ (s, false)
    | some mp ↦
        let nodes = erase node_uuid mp in
        (if is_empty nodes then erase topic s else assign topic nodes s, contains node_uuid mp)
  ]
