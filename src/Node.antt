-- ===== src/Node.antt =====
-- src/node.cc and include/trans/node.hpp: a node, which keeps what it subscribes to and advertises,
-- over the process that its nodes share (src/node_shared.cc). What the shared process answers to a
-- call is an argument, and the calls are a list. The sets are lists without order.
pub mod Destroy
pub mod Wait
pub mod Request
mod Examples
use rf_trans_v.Base.{
  ◌++◌, String, Bool, true, false, List, [], ◌∷◌, str_eq, if◌then◌else◌, any_of, remove_if,
}

pub record Node : Type 0 where
  pub node_uuid : String
  pub subscribed_topics : List String
  pub advertised_topics : List String
  pub advertised_srvs : List String

-- a call on the shared process, by the topic
pub data SharedCall : Type 0 where
  subscribes unsubscribes : String → SharedCall
  advertises_message unadvertises_message : String → SharedCall
  advertises_service unadvertises_service : String → SharedCall

abbrev pub holds : String → List String → Bool
holds topic s = any_of (str_eq topic) s

abbrev pub insert : String → List String → List String
insert topic s = if holds topic s then s else topic ∷ s

abbrev pub erase_topic : String → List String → List String
erase_topic topic s = remove_if (str_eq topic) s

-- `advertise` of a message: whether it returns a publisher that is valid
unfoldable pub advertise_message : Bool → String → Node → Node × Bool × List SharedCall
advertise_message ok topic n =
    if holds topic n.advertised_topics
    then (n, false, [])
    else if ok
    then (
      record n { advertised_topics = insert topic n.advertised_topics },
      true,
      advertises_message topic ∷ [],
    )
    else (n, false, advertises_message topic ∷ [])

-- `subscribe`: the topic is kept whatever the shared process answers
unfoldable pub subscribe : Bool → String → Node → Node × Bool × List SharedCall
subscribe ok topic n =
    (record n { subscribed_topics = insert topic n.subscribed_topics }, ok, subscribes topic ∷ [])

-- `advertise` of a service: so is this
unfoldable pub advertise_service : Bool → String → Node → Node × Bool × List SharedCall
advertise_service ok topic n = if holds topic n.advertised_srvs then (n, false, []) else (
  record n { advertised_srvs = insert topic n.advertised_srvs },
  ok,
  advertises_service topic ∷ [],
)

unfoldable pub unadvertise_service : Bool → String → Node → Node × Bool × List SharedCall
unadvertise_service ok topic n = (
  record n { advertised_srvs = erase_topic topic n.advertised_srvs },
  ok,
  unadvertises_service topic ∷ [],
)

unfoldable pub unsubscribe : Bool → String → Node → Node × Bool × List SharedCall
unsubscribe ok topic n =
    if ok
    then (
      record n { subscribed_topics = erase_topic topic n.subscribed_topics },
      true,
      unsubscribes topic ∷ [],
    )
    else (n, false, unsubscribes topic ∷ [])

unfoldable pub unadvertise : Bool → String → Node → Node × Bool × List SharedCall
unadvertise ok topic n = (
  record n { advertised_topics = erase_topic topic n.advertised_topics },
  ok,
  unadvertises_message topic ∷ [],
)

-- The loops of the destructor, over copies of the sets; `answers` is what the shared process says.
unfoldable pub for_each :
    (String → Node → Node × Bool × List SharedCall) → List String → Node → Node × List SharedCall
for_each call [] n = (n, [])
for_each call (topic ∷ topics) n =
    let (after, ok, here) = call topic n in
    let (last, more) = for_each call topics after in (last, here ++ more)

unfoldable pub destroy : (SharedCall → Bool) → Node → Node × List SharedCall
unfolding for_each unsubscribe unadvertise unadvertise_service
destroy answers n =
    let (n1, a) = for_each (λ t. unsubscribe (answers (unsubscribes t)) t) n.subscribed_topics n in
    let (n2, b) =
      for_each (λ t. unadvertise (answers (unadvertises_message t)) t) n1.advertised_topics n1 in
    let (n3, c) =
      for_each (λ t. unadvertise_service (answers (unadvertises_service t)) t) n2.advertised_srvs
        n2 in
    (n3, a ++ (b ++ c))
