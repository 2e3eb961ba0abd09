-- ===== src/HandlerStorage/Examples.antt =====
-- The storage on a few handlers, each with its uuid and two type names, and its theorems at them.
use rf_trans_v.Base.{◌≡◌, refl, String, true, not, some, [], is_empty}
use rf_trans_v.Map.{find_or, erase}
use rf_trans_v.HandlerStorage.{
  HandlerStorage, has_topic, add_handler, get_handler, get_first_handler, get_first_service_handler,
  remove_handler, remove_handlers_for_node,
}
use rf_trans_v.HandlerStorage.Contents.{
  handler_at, get_handler-eq-handler_at, has_topic-remove_handler,
  has_topic-remove_handlers_for_node,
}
use rf_trans_v.HandlerStorage.Valid.{
  IsValid, nil-IsValid, add_handler-IsValid, remove_handlers_for_node-IsValid,
}

record Handler : Type 0 where
  uuid : String
  req : String
  rep : String

abbrev uuid_of : Handler → String
uuid_of h = h.uuid

abbrev req_of : Handler → String
req_of h = h.req

abbrev rep_of : Handler → String
rep_of h = h.rep

abbrev handler1 : Handler
handler1 = record { uuid = "h1"; req = "Ping"; rep = "Pong" }

abbrev handler2 : Handler
handler2 = record { uuid = "h2"; req = "Ping"; rep = "Pong" }

abbrev one : HandlerStorage Handler
one = add_handler uuid_of "/echo" "node2" handler2 []

abbrev two : HandlerStorage Handler
two = add_handler uuid_of "/echo" "node1" handler1 one

two-IsValid : IsValid uuid_of two
two-IsValid =
    add_handler-IsValid uuid_of "/echo" "node1" handler1 one
      (add_handler-IsValid uuid_of "/echo" "node2" handler2 [] (nil-IsValid uuid_of))

-- the node of the smaller uuid comes first, although it was added last
first_by_node : get_first_service_handler req_of rep_of "/echo" "Ping" "Pong" two ≡ some handler1
unfolding add_handler get_first_service_handler
first_by_node = refl

-- the topic stays after its only handler is gone
empty_topic_stays : has_topic "/echo" (remove_handler "/echo" "node2" "h2" one).0 ≡ true
unfolding add_handler remove_handler has_topic
empty_topic_stays = refl

remove_handlers_for_node-IsValid_example :
    IsValid uuid_of (remove_handlers_for_node "/echo" "node1" two).0
remove_handlers_for_node-IsValid_example =
    remove_handlers_for_node-IsValid uuid_of "/echo" "node1" two two-IsValid

get_handler-eq-handler_at_example :
    get_handler "/echo" "node1" "h1" two ≡ handler_at "/echo" "node1" "h1" two
get_handler-eq-handler_at_example = get_handler-eq-handler_at "/echo" "node1" "h1" two

has_topic-remove_handler_example :
    has_topic "/echo" (remove_handler "/echo" "node2" "h2" one).0 ≡ has_topic "/echo" one
has_topic-remove_handler_example = has_topic-remove_handler "/echo" "node2" "h2" "/echo" one

has_topic-remove_handlers_for_node_example :
    has_topic "/echo" (remove_handlers_for_node "/echo" "node2" one).0
    ≡ not (is_empty (erase "node2" (find_or [] "/echo" one)))
has_topic-remove_handlers_for_node_example =
    has_topic-remove_handlers_for_node "/echo" "node2" "/echo" one

held : handler_at "/echo" "node2" "h2" two ≡ some handler2
unfolding add_handler handler_at
held = refl

found_by_type : get_first_handler req_of "/echo" "Ping" two ≡ some handler1
unfolding add_handler get_first_handler
found_by_type = refl
