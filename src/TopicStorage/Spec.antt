-- ===== src/TopicStorage/Spec.antt =====
-- The contract of the storage: a list of publishers for each topic and process, with no trace of
-- the two maps; and that any calls, from the empty storage, behave by it.
use mathlib.Core.Path.{fun_ext, ◌∙◌}
use rf_trans_v.Base.{◌≡◌, refl, String, ◌&&◌, List, [], ◌∷◌, str_eq, if◌then◌else◌, remove_if, ap}
use rf_trans_v.Info.Class.{Pub, topic_of, process_of}
use rf_trans_v.TopicStorage.{
  TopicStorage, at_node, add_publisher, del_publishers_by_node, del_publishers_by_proc,
}
use rf_trans_v.TopicStorage.Stored.{stored, with_publisher, stored-add_publisher, stored-nil}
use rf_trans_v.TopicStorage.Delete.{stored-del_publishers_by_node, stored-del_publishers_by_proc}
use rf_trans_v.TopicStorage.Valid.{IsValid}
use rf_trans_v.TopicStorage.Keeps.{
  nil-IsValid, del_publishers_by_node-IsValid, del_publishers_by_proc-IsValid,
}
use rf_trans_v.TopicStorage.Adds.{add_publisher-IsValid}

-- The calls that change the storage.
pub data Op (P : Type 0) : Type 0 where
  add : P → Op P
  del_node : String → String → String → Op P
  del_proc : String → Op P
  clear : Op P

abbrev pub Lists : Type 0 → Type 0
Lists P = String → String → List P

module _ {P : Type 0} ⦃e : Pub P⦄ where
  unfoldable pub step : Op P → TopicStorage P → TopicStorage P
  unfolding add_publisher del_publishers_by_node del_publishers_by_proc
  step (add p) s = (add_publisher p s).0
  step (del_node t u n) s = (del_publishers_by_node t u n s).0
  step (del_proc u) s = (del_publishers_by_proc u s).0
  step clear s = []

  unfoldable pub run : List (Op P) → TopicStorage P → TopicStorage P
  unfolding step
  run [] s = s
  run (op ∷ ops) s = run ops (step op s)

  -- the same calls, on the lists alone
  abbrev pub spec_step : Op P → Lists P → Lists P
  spec_step (add p) f t u =
      if str_eq (topic_of p) t && str_eq (process_of p) u then with_publisher p (f t u) else f t u
  spec_step (del_node x v n) f t u =
      if str_eq x t && str_eq v u then remove_if (at_node n) (f t u) else f t u
  spec_step (del_proc v) f t u = if str_eq v u then [] else f t u
  spec_step clear f t u = []

  pub spec_run : List (Op P) → Lists P → Lists P
  spec_run [] f = f
  spec_run (op ∷ ops) f = spec_run ops (spec_step op f)

  step-IsValid : (op : Op P) (s : TopicStorage P) → IsValid s → IsValid (step op s)
  unfolding step
  step-IsValid (add p) s v = add_publisher-IsValid p s v
  step-IsValid (del_node t u n) s v = del_publishers_by_node-IsValid t u n s v
  step-IsValid (del_proc u) s v = del_publishers_by_proc-IsValid u s v
  step-IsValid clear s v = nil-IsValid

  stored-step :
      (op : Op P) (s : TopicStorage P)
      → IsValid s
      → (t u : String) → stored t u (step op s) ≡ spec_step op (λ x y. stored x y s) t u
  unfolding step
  stored-step (add p) s v t u = (stored-add_publisher p t u s).1
  stored-step (del_node x y n) s v t u = (stored-del_publishers_by_node x y n t u s).1
  stored-step (del_proc q) s v t u = (stored-del_publishers_by_proc q t u s v.sorted).1
  stored-step clear s v t u = stored-nil t u

  run_refines :
      (ops : List (Op P)) (s : TopicStorage P)
      → IsValid s
      → IsValid (run ops s)
        × ((t u : String) → stored t u (run ops s) ≡ spec_run ops (λ x y. stored x y s) t u)
  unfolding run spec_run
  run_refines [] s v = (v, λ t u. refl)
  run_refines (op ∷ ops) s v =
      let h = run_refines ops (step op s) (step-IsValid op s v) in
      (
        h.0,
        λ t u.
            h.1 t u ∙ ap (λ f. spec_run ops f t u) (fun_ext (λ x. fun_ext (stored-step op s v x))),
      )

  -- After any calls from the empty storage, the storage is well formed, and every topic and process
  -- has the list that the calls give on lists alone.
  pub run_refines_spec :
      (ops : List (Op P)) (t u : String)
      → IsValid (run ops []) × (stored t u (run ops []) ≡ spec_run ops (λ _ _. []) t u)
  run_refines_spec ops t u =
      let h = run_refines ops [] nil-IsValid in
      (h.0, h.1 t u ∙ ap (λ f. spec_run ops f t u) (fun_ext (λ x. fun_ext (stored-nil x))))
