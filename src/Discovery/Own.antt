-- ===== src/Discovery/Own.antt =====
-- What any run leaves of the publishers of the process itself.
use mathlib.Core.Path.{fun_ext, ◌∙◌}
use rf_trans_v.Base.{
  ◌≡◌, refl, ap, sym, ℕ, String, Bool, none, List, [], ◌∷◌, arith, eq_iff, remove_if, find_if, All,
}
use rf_trans_v.Info.Class.{Pub, topic_of, process_of}
use rf_trans_v.TopicStorage.{at_node}
use rf_trans_v.TopicStorage.Stored.{stored, stored-add_publisher}
use rf_trans_v.TopicStorage.Delete.{stored-del_publishers_by_node}
use rf_trans_v.TopicStorage.Queries.{get_publisher-eq-find_if}
use rf_trans_v.Discovery.{Discovery, advertise, unadvertise}
use rf_trans_v.Discovery.Peers.{own_publishers-dispatch}
use rf_trans_v.Discovery.Loop.{start, stop, update_heartbeat, update_activity}
use rf_trans_v.Discovery.Expiry.{expire-stored, lapsed}
use rf_trans_v.Discovery.Kept.{step-kept, step-IsWell}
use rf_trans_v.Discovery.System.{
  Op, advertising, unadvertising, discovering, registering, unregistering, starting, stopping,
  receiving, heart_ticking, activity_ticking, setting_intervals, setting_callbacks, step, run,
  Local, own_step, own_run, IsWell, own_view,
}

module _ {A : Type 0} (test : A → Bool) where
  pub remove_if_of_find_if : (l : List A) → find_if test l ≡ none → remove_if test l ≡ l
  remove_if_of_find_if [] h = refl
  remove_if_of_find_if (x ∷ l) h = ground (arith, remove_if_of_find_if l)

pair_eq : {A B : Type 0} {a b : A} {c d : B} → a ≡ b → c ≡ d → Path (A × B) (a, c) (b, d)
pair_eq h k = cc

module _ {C P : Type 0} ⦃e : Pub P⦄ where
  advertise-own :
      (p : P) (t : String) (d : Discovery C P)
      → process_of p ≡ d.process_uuid
      → stored t d.process_uuid (advertise p d).0.known_publishers
        ≡ (own_step {C = C} (advertising p) (own_view d)).1 t
  unfolding advertise
  advertise-own p t d h = ground (
    arith,
    stored-add_publisher p t d.process_uuid d.known_publishers,
    eq_iff (topic_of p) t,
    eq_iff (process_of p) d.process_uuid,
    h,
  )

  unadvertise-own :
      (topic node t : String) (d : Discovery C P)
      → stored t d.process_uuid (unadvertise topic node d).0.known_publishers
        ≡ (own_step {C = C} (unadvertising topic node) (own_view d)).1 t
  unfolding unadvertise
  unadvertise-own topic node t d = ground (
    arith,
    get_publisher-eq-find_if topic d.process_uuid node d.known_publishers,
    remove_if_of_find_if (at_node node) (stored topic d.process_uuid d.known_publishers),
    stored-del_publishers_by_node topic d.process_uuid node t d.process_uuid d.known_publishers,
    eq_iff topic t,
    eq_iff d.process_uuid d.process_uuid,
  )

  activity-own :
      (now later : ℕ) (t uuid : String) (d : Discovery C P)
      → IsWell uuid d
      → stored t d.process_uuid (update_activity now later d).0.known_publishers
        ≡ stored t d.process_uuid d.known_publishers
  unfolding update_activity lapsed
  activity-own now later t uuid d w = ground (
    arith,
    w.named,
    w.untracked,
    expire-stored d.silence_interval now d.last_seen_by_process d.known_publishers t d.process_uuid
        w.sorted w.valid,
  )

  step-own :
      (op : Op C P) (t uuid : String) (d : Discovery C P)
      → IsWell uuid d
      → Local uuid op
      → stored t d.process_uuid (step op d).0.known_publishers ≡ (own_step op (own_view d)).1 t
  unfolding step start stop update_heartbeat
  step-own (advertising p) t uuid d w l = advertise-own p t d (l ∙ sym w.named)
  step-own (unadvertising topic node) t uuid d w l = unadvertise-own topic node t d
  step-own (discovering topic) t uuid d w l = refl
  step-own (registering p) t uuid d w l = refl
  step-own (unregistering p) t uuid d w l = refl
  step-own (starting now) t uuid d w l = ground arith
  step-own stopping t uuid d w l = refl
  step-own (receiving now from_ip parsed) t uuid d w l =
      own_publishers-dispatch now from_ip parsed t d w.valid (ground (arith, w.named, w.nonempty))
  step-own (heart_ticking now later) t uuid d w l = ground arith
  step-own (activity_ticking now later) t uuid d w l = activity-own now later t uuid d w
  step-own (setting_intervals a h s) t uuid d w l = refl
  step-own (setting_callbacks a b c f) t uuid d w l = refl

  pub own_view-step :
      (op : Op C P) (uuid : String) (d : Discovery C P)
      → IsWell uuid d
      → Local uuid op
      → own_view (step op d).0 ≡ own_step op (own_view d)
  own_view-step op uuid d w l =
      let kept = step-kept op d in
      pair_eq kept.1 (fun_ext (λ t. rw kept.0 (step-own op t uuid d w l)))

  -- A run of local calls, of datagrams with any contents from anywhere and of clock ticks, in any
  -- order, leaves of the publishers of the process itself exactly what its own calls of `advertise`
  -- and `unadvertise` make of them while it is enabled, and keeps the object well formed.
  pub run-own :
      (ops : List (Op C P)) (t uuid : String) (d : Discovery C P)
      → IsWell uuid d
      → All (Local uuid) ops
      → IsWell uuid (run ops d).0
        × ((run ops d).0.enabled ≡ (own_run ops (own_view d)).0)
        × (stored t uuid (run ops d).0.known_publishers ≡ (own_run ops (own_view d)).1 t)
  unfolding run own_run
  run-own [] t uuid d w l = (w, refl, ap (λ u. stored t u d.known_publishers) (sym w.named))
  run-own (op ∷ ops) t uuid d w l =
      let after = (step op d).0 in
      let rest = run-own ops t uuid after (step-IsWell op uuid d w) l.1 in
      let same : own_view after ≡ own_step op (own_view d) = own_view-step op uuid d w l.0 in
      (
        rest.0,
        rest.1 ∙ ap (λ v. (own_run ops v).0) same,
        rest.2 ∙ ap (λ v. (own_run ops v).1 t) same,
      )
