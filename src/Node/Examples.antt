-- ===== src/Node/Examples.antt =====
-- A node with a subscription, a topic and a service, and the theorems on nodes at it.
use rf_trans_v.Base.{◌≡◌, refl, ◌+◌, ◌*◌, ℕ, Bool, false, some, [], ◌∷◌, arith}
use rf_trans_v.Node.{Node, advertise_service}
use rf_trans_v.Node.Wait.{round_sleep, wait_for_service, wait_for_service-ends}

abbrev node : Node
node = record {
  node_uuid = "node1";
  subscribed_topics = "/gps" ∷ "/imu" ∷ [];
  advertised_topics = "/map" ∷ [];
  advertised_srvs = "/echo" ∷ [];
}

abbrev clock : ℕ → ℕ
clock j = 5 + (j + 1) * round_sleep

wait_for_service-ends_example :
    (r : Bool) × (wait_for_service (λ i. false) clock 5 50000000 ≡ some r)
wait_for_service-ends_example =
    wait_for_service-ends (λ i. false) clock 5 50000000 (λ j. omega arith)

-- a service that the shared process refuses stays in the node's set, so the next try is refused
refused_stays :
    let first = advertise_service false "/sum" node in
    (first.1 ≡ false) × (first.0.advertised_srvs ≡ "/sum" ∷ "/echo" ∷ [])
unfolding advertise_service
refused_stays = (refl, refl)
