-- ===== src/TopicStorage/Stored.antt =====
-- The abstract view of the storage, a list of publishers for each topic and process, and what the
-- operations that change one topic do to it.
use rf_trans_v.Base.{
  ◌≡◌, refl, ap, ◌∙◌, String, Bool, not, ◌&&◌, none, some, List, [], ◌∷◌, ◌++◌, arith, str_eq,
  eq_iff, if◌then◌else◌, any_of,
}
use rf_trans_v.Map.{find, find_or, assign, emplace}
use rf_trans_v.Map.Laws.{find-nil, find-assign, find-erase, find-emplace}
use rf_trans_v.Info.Class.{Pub, topic_of, process_of}
use rf_trans_v.TopicStorage.{
  ProcessMap, TopicStorage, same_endpoint, add_to_process, add_opened, add_publisher, put_process,
  put_topic,
}

module _ {P : Type 0} where
  -- The publishers of a process in the processes of one topic, and in the storage.
  unfoldable pub listed : String → ProcessMap P → List P
  unfolding find_or
  listed p_uuid mp = find_or [] p_uuid mp

  unfoldable pub stored : String → String → TopicStorage P → List P
  unfolding listed find_or
  stored topic p_uuid s = listed p_uuid (find_or [] topic s)

  pub listed-assign :
      (u v : String) (l : List P) (mp : ProcessMap P)
      → listed v (assign u l mp) ≡ (if str_eq u v then l else listed v mp)
  unfolding listed
  listed-assign u v l mp = ground (arith, find-assign u v l mp)

  pub stored-assign :
      (t x v : String) (mp : ProcessMap P) (s : TopicStorage P)
      → stored x v (assign t mp s) ≡ (if str_eq t x then listed v mp else stored x v s)
  unfolding stored
  stored-assign t x v mp s = ground (arith, find-assign t x mp s)

  -- opening a topic by `data_[topic]` shows nothing new
  pub stored-emplace :
      (t x v : String) (s : TopicStorage P) → stored x v (emplace t [] s) ≡ stored x v s
  unfolding stored
  stored-emplace t x v s =
      ground (arith, eq_iff t x, find-emplace t x [] s, find-nil {V = List P} v)

  pub listed-put_process :
      (u v : String) (l : List P) (mp : ProcessMap P)
      → listed v (put_process u l mp) ≡ (if str_eq u v then l else listed v mp)
  unfolding listed put_process
  listed-put_process u v [] mp = ground (arith, find-erase u v mp)
  listed-put_process u v (p ∷ l) mp = ground (arith, find-assign u v (p ∷ l) mp)

  pub stored-put_topic :
      (t x v : String) (mp : ProcessMap P) (s : TopicStorage P)
      → stored x v (put_topic t mp s) ≡ (if str_eq t x then listed v mp else stored x v s)
  unfolding stored put_topic
  stored-put_topic t x v [] s = ground (arith, find-erase t x s, find-nil {V = List P} v)
  stored-put_topic t x v (e ∷ mp) s = ground (arith, find-assign t x (e ∷ mp) s)

  pub stored-cons :
      (t x v : String) (mp : ProcessMap P) (s : TopicStorage P)
      → stored x v ((t, mp) ∷ s) ≡ (if str_eq t x then listed v mp else stored x v s)
  unfolding stored find
  stored-cons t x v mp s = ground arith

  pub stored-nil : (x v : String) → stored x v [] ≡ []
  unfolding stored listed find
  stored-nil x v = refl

module _ {P : Type 0} ⦃e : Pub P⦄ where
  -- whether the storage knows the publisher's address and node under its topic and process
  abbrev pub known : P → List P → Bool
  known p l = any_of (same_endpoint p) l

  -- `l` with `p` at its end, where it is not known
  abbrev pub with_publisher : P → List P → List P
  with_publisher p l = if known p l then l else l ++ p ∷ []

  pub add_to_process-cases :
      (p : P) (mp : ProcessMap P)
      → add_to_process p mp ≡ (
          if known p (listed (process_of p) mp)
          then none
          else some (assign (process_of p) (listed (process_of p) mp ++ p ∷ []) mp))
  unfolding add_to_process listed
  add_to_process-cases p mp = ground arith

  -- The two halves of `addPublisher`'s contract, from the storage `s` to `r`.
  abbrev pub Adds : P → TopicStorage P → TopicStorage P × Bool → Type 0
  Adds p s r =
      (r.1 ≡ not (known p (stored (topic_of p) (process_of p) s)))
      × ((t u : String)
          → stored t u r.0 ≡ (
              if str_eq (topic_of p) t && str_eq (process_of p) u
              then with_publisher p (stored t u s)
              else stored t u s))

  add_opened-Adds : (p : P) (s : TopicStorage P) → Adds p s (add_opened p s)
  unfolding add_opened stored
  add_opened-Adds p s =
      let mp = find_or [] (topic_of p) s in
      let grown = listed (process_of p) mp ++ p ∷ [] in
      let added = assign (process_of p) grown mp in
      (
        ground (arith, add_to_process-cases p mp),
        λ t u. ground (
          arith,
          add_to_process-cases p mp,
          eq_iff (topic_of p) t,
          eq_iff (process_of p) u,
          stored-assign (topic_of p) t u added s,
          listed-assign (process_of p) u grown mp,
        ),
      )

  -- `addPublisher` answers whether the publisher was unknown, and if so puts it at the end of the
  -- list of its topic and process; the lists of the other topics and processes stay as they were.
  pub stored-add_publisher :
      (p : P) (t u : String) (s : TopicStorage P)
      → ((add_publisher p s).1 ≡ not (known p (stored (topic_of p) (process_of p) s)))
        × (stored t u (add_publisher p s).0 ≡ (
            if str_eq (topic_of p) t && str_eq (process_of p) u
            then with_publisher p (stored t u s)
            else stored t u s))
  unfolding add_publisher
  stored-add_publisher p t u s =
      let opened = emplace (topic_of p) [] s in
      let adds = add_opened-Adds p opened in
      (
        adds.0 ∙ ap (λ l. not (known p l)) (stored-emplace (topic_of p) _ _ s),
        adds.1 t u ∙ rw (stored-emplace (topic_of p) t u s),
      )
