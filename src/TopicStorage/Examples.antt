-- ===== src/TopicStorage/Examples.antt =====
-- The storage on a few publishers, and its theorems at them.
use rf_trans_v.Base.{
  ◌≡◌, ◌↔◌, refl, String, true, false, not, List, [], ◌∷◌, any_of, is_empty, str_eq,
}
use rf_trans_v.Options.{default_message_options}
use rf_trans_v.Info.Message.{MessagePublisherInfo, make_message_info}
use rf_trans_v.Info.Class.{message_pub, addr_of}
use rf_trans_v.TopicStorage.{
  TopicStorage, add_publisher, has_topic, has_any_publishers, has_publisher, get_topic_list,
}
use rf_trans_v.TopicStorage.Stored.{stored}
use rf_trans_v.TopicStorage.Valid.{IsValid}
use rf_trans_v.TopicStorage.Queries.{has_any_publishers-eq, has_topic_iff, has_publisher_iff}
use rf_trans_v.TopicStorage.Spec.{Op, add, run, spec_run, run_refines_spec}

abbrev publisher_on : String → String → String → String → MessagePublisherInfo
publisher_on topic addr proc node =
    make_message_info topic addr "unused" proc node "msgs.Example" default_message_options

abbrev pub_b : MessagePublisherInfo
pub_b = publisher_on "/b" "tcp://1" "proc1" "node1"

abbrev pub_a : MessagePublisherInfo
pub_a = publisher_on "/a" "tcp://1" "proc1" "node2"

abbrev pub_c : MessagePublisherInfo
pub_c = publisher_on "/b" "tcp://2" "proc2" "node3"

abbrev calls : List (Op MessagePublisherInfo)
calls = add pub_b ∷ add pub_a ∷ add pub_c ∷ add pub_b ∷ []

abbrev three : TopicStorage MessagePublisherInfo
three = run calls []

-- topics come out in order, whatever the order of the calls
topics_in_order : get_topic_list three ≡ "/a" ∷ "/b" ∷ []
unfolding run get_topic_list
topics_in_order = refl

second_add_fails : (add_publisher pub_b three).1 ≡ false
unfolding run add_publisher
second_add_fails = refl

three-IsValid : IsValid three
three-IsValid = (run_refines_spec calls "" "").0

run_refines_spec_example :
    IsValid three × (stored "/b" "proc1" three ≡ spec_run calls (λ _ _. []) "/b" "proc1")
run_refines_spec_example = run_refines_spec calls "/b" "proc1"

has_any_publishers-eq_example :
    has_any_publishers "/b" "proc2" three ≡ not (is_empty (stored "/b" "proc2" three))
has_any_publishers-eq_example = has_any_publishers-eq "/b" "proc2" three three-IsValid

has_topic_iff_example :
    (has_topic "/b" three ≡ true) ↔ ((u : String) × (is_empty (stored "/b" u three) ≡ false))
has_topic_iff_example = has_topic_iff "/b" three three-IsValid

has_publisher_iff_example : (has_publisher "tcp://2" three ≡ true) ↔ (
    (t : String) × (u : String) × (any_of (λ p. str_eq (addr_of p) "tcp://2") (stored t u three)
      ≡ true))
has_publisher_iff_example = has_publisher_iff "tcp://2" three three-IsValid
