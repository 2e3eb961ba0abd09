-- ===== src/Discovery/Expiry.antt =====
-- When a silent process is forgotten: `updateActivity`.
use rf_trans_v.Base.{
  ◌≡◌, refl, ℕ, ◌+◌, ◌*◌, ◌≤◌, String, Bool, false, Option, none, some, List, [], ◌∷◌, arith,
  eq_iff, if◌then◌else◌, keep_if,
}
use rf_trans_v.Map.{Map, find, keys}
use rf_trans_v.Map.Order.{Above, IsSorted, find_of_Above}
use rf_trans_v.Info.Class.{Pub}
use rf_trans_v.TopicStorage.{TopicStorage, del_publishers_by_proc}
use rf_trans_v.TopicStorage.Stored.{stored}
use rf_trans_v.TopicStorage.Delete.{stored-del_publishers_by_proc}
use rf_trans_v.TopicStorage.Valid.{IsValid}
use rf_trans_v.TopicStorage.Keeps.{del_publishers_by_proc-IsValid}
use rf_trans_v.Discovery.{Discovery}
use rf_trans_v.Discovery.Loop.{ms, expired, expire, update_activity, disconnect_each}

-- whether a process that was last seen then, if ever, has expired
unfoldable pub lapsed : ℕ → ℕ → Option ℕ → Bool
lapsed silence now none = false
lapsed silence now (some seen) = expired silence now seen

-- the processes of a map that have expired, in their order
abbrev pub expired_keys : ℕ → ℕ → Map ℕ → List String
expired_keys silence now m = keys (keep_if (λ (e : String × ℕ). expired silence now e.1) m)

module _ {P : Type 0} ⦃e : Pub P⦄ where
  pub expire-IsValid :
      (silence now : ℕ) (m : Map ℕ) (s : TopicStorage P)
      → IsValid s
      → IsValid (expire silence now m s).1
  unfolding expire
  expire-IsValid silence now [] s v = v
  expire-IsValid silence now ((u, seen) ∷ m) s v = ground (
    arith,
    expire-IsValid silence now m s v,
    expire-IsValid silence now m (del_publishers_by_proc u s).0
        (del_publishers_by_proc-IsValid u s v),
  )

  pub expire-stored :
      (silence now : ℕ) (m : Map ℕ) (s : TopicStorage P) (t u : String)
      → IsSorted m
      → IsValid s
      → stored t u (expire silence now m s).1
        ≡ (if lapsed silence now (find u m) then [] else stored t u s)
  unfolding expire find lapsed
  expire-stored silence now [] s t u o v = refl
  expire-stored silence now ((k, seen) ∷ m) s t u o v = ground (
    arith,
    find_of_Above k m o.0,
    eq_iff k u,
    stored-del_publishers_by_proc k t u s v.sorted,
    expire-stored silence now m s t u o.1 v,
    expire-stored silence now m (del_publishers_by_proc k s).0 t u o.1
        (del_publishers_by_proc-IsValid k s v),
  )

module _ {P : Type 0} where
  expire-Above :
      (silence now : ℕ) (k : String) (m : Map ℕ) (s : TopicStorage P)
      → Above k m
      → Above k (expire silence now m s).0
  unfolding expire
  expire-Above silence now k [] s a = a
  expire-Above silence now k ((j, seen) ∷ m) s a = ground (
    arith,
    expire-Above silence now k m s a.1,
    expire-Above silence now k m (del_publishers_by_proc j s).0 a.1,
  )

  pub expire-IsSorted :
      (silence now : ℕ) (m : Map ℕ) (s : TopicStorage P)
      → IsSorted m
      → IsSorted (expire silence now m s).0
  unfolding expire
  expire-IsSorted silence now [] s o = o
  expire-IsSorted silence now ((k, seen) ∷ m) s o = ground (
    arith,
    expire-Above silence now k m s o.0,
    expire-IsSorted silence now m s o.1,
    expire-IsSorted silence now m (del_publishers_by_proc k s).0 o.1,
  )

  pub expire-find :
      (silence now : ℕ) (m : Map ℕ) (s : TopicStorage P) (u : String)
      → IsSorted m
      → find u (expire silence now m s).0
        ≡ (if lapsed silence now (find u m) then none else find u m)
  unfolding expire find lapsed
  expire-find silence now [] s u o = refl
  expire-find silence now ((k, seen) ∷ m) s u o = ground (
    arith,
    find_of_Above k m o.0,
    eq_iff k u,
    expire-find silence now m s u o.1,
    expire-find silence now m (del_publishers_by_proc k s).0 u o.1,
  )

  expire-keys :
      (silence now : ℕ) (m : Map ℕ) (s : TopicStorage P)
      → (expire silence now m s).2 ≡ expired_keys silence now m
  unfolding expire
  expire-keys silence now [] s = refl
  expire-keys silence now ((k, seen) ∷ m) s =
      ground (
        arith,
        expire-keys silence now m s,
        expire-keys silence now m (del_publishers_by_proc k s).0,
      )

module _ {C P : Type 0} ⦃e : Pub P⦄ where
  -- From the time of the next check on, a process is forgotten with all its publishers exactly when
  -- it has been silent for longer than the interval; the others keep their times and publishers.
  -- The disconnection callback is called once for each forgotten process, in the order of the
  -- uuids, and the next check is an interval later.
  pub update_activity-due :
      (now later : ℕ) (t u : String) (d : Discovery C P)
      → d.time_next_activity ≤ now
      → IsSorted d.last_seen_by_process
      → IsValid d.known_publishers
      → let gone = lapsed d.silence_interval now (find u d.last_seen_by_process) in
        let r = update_activity now later d in
        (find u r.0.last_seen_by_process ≡ (if gone then none else find u d.last_seen_by_process))
        × (stored t u r.0.known_publishers ≡ (if gone then [] else stored t u d.known_publishers))
        × (r.1
            ≡ disconnect_each d.disconnection_cb
                (expired_keys d.silence_interval now d.last_seen_by_process))
        × (r.0.time_next_activity ≡ later + d.activity_interval * ms)
  unfolding update_activity
  update_activity-due now later t u d due o v =
      let m = d.last_seen_by_process in
      let s = d.known_publishers in
      let q = d.silence_interval in
      (
        ground (arith, due, expire-find q now m s u o),
        ground (arith, due, expire-stored q now m s t u o v),
        ground (arith, due, expire-keys q now m s),
        ground (arith, due),
      )
