-- ===== src/HandlerStorage/Contents.antt =====
-- What the storage holds at a topic, a node and a handler's uuid, and what the operations do to it.
use rf_trans_v.Base.{
  ◌≡◌, refl, String, Bool, true, not, ◌&&◌, Option, none, some, [], ◌∷◌, arith, str_eq, eq_iff,
  if◌then◌else◌, is_empty, is_some, Option-cases, inl, inr,
}
use rf_trans_v.Map.{Map, find, find_or, assign, emplace, erase}
use rf_trans_v.Map.Laws.{find-nil, find-assign, find-erase, find-emplace}
use rf_trans_v.HandlerStorage.{
  NodeHandlerMap, HandlerStorage, has_topic, add_handler, get_handler, drop_handler, remove_handler,
  remove_handlers_for_node, has_handlers_for_node,
}

-- Whether two triples of keys are the same.
abbrev pub same_key : String → String → String → String → String → String → Bool
same_key t n u x m v = str_eq t x && str_eq n m && str_eq u v

module _ {H : Type 0} where
  unfoldable pub at_node : String → String → NodeHandlerMap H → Option H
  unfolding find_or
  at_node node_uuid handler_uuid mp = find handler_uuid (find_or [] node_uuid mp)

  unfoldable pub handler_at : String → String → String → HandlerStorage H → Option H
  unfolding at_node find_or
  handler_at topic node_uuid handler_uuid s = at_node node_uuid handler_uuid (find_or [] topic s)

  -- `getHandler` returns what stands at the three keys, and fails exactly where nothing does.
  pub get_handler-eq-handler_at :
      (t n u : String) (s : HandlerStorage H) → get_handler t n u s ≡ handler_at t n u s
  unfolding get_handler handler_at
  get_handler-eq-handler_at t n u s = ground (arith, find-nil {V = H} u, find-nil {V = Map H} n)

  at_node-assign :
      (n m u : String) (hs : Map H) (mp : NodeHandlerMap H)
      → at_node m u (assign n hs mp) ≡ (if str_eq n m then find u hs else at_node m u mp)
  unfolding at_node
  at_node-assign n m u hs mp = ground (arith, find-assign n m hs mp)

  at_node-erase :
      (n m u : String) (mp : NodeHandlerMap H)
      → at_node m u (erase n mp) ≡ (if str_eq n m then none else at_node m u mp)
  unfolding at_node
  at_node-erase n m u mp = ground (arith, find-erase n m mp, find-nil {V = H} u)

  at_node_of_empty :
      (m u : String) (mp : NodeHandlerMap H) → is_empty mp ≡ true → at_node m u mp ≡ none
  unfolding at_node
  at_node_of_empty m u [] h = ground (arith, find-nil {V = Map H} m, find-nil {V = H} u)
  at_node_of_empty m u (x ∷ mp) h = cc

  pub handler_at-assign :
      (t x m u : String) (mp : NodeHandlerMap H) (s : HandlerStorage H)
      → handler_at x m u (assign t mp s)
        ≡ (if str_eq t x then at_node m u mp else handler_at x m u s)
  unfolding handler_at
  handler_at-assign t x m u mp s = ground (arith, find-assign t x mp s)

  handler_at-erase :
      (t x m u : String) (s : HandlerStorage H)
      → handler_at x m u (erase t s) ≡ (if str_eq t x then none else handler_at x m u s)
  unfolding handler_at
  handler_at-erase t x m u s = ground (arith, find-erase t x s, at_node_of_empty m u [] refl)

  -- `addHandler` puts the handler at its keys where nothing stood there, and otherwise leaves what
  -- stands there; all other keys stay as they were.
  pub handler_at-add_handler :
      (uuid_of : H → String) (t n x m v : String) (h : H) (s : HandlerStorage H)
      → handler_at x m v (add_handler uuid_of t n h s) ≡ (
          if same_key t n (uuid_of h) x m v && not (is_some (handler_at x m v s))
          then some h
          else handler_at x m v s)
  unfolding add_handler
  handler_at-add_handler uuid_of t n x m v h s =
      let nodes = find_or [] t s in
      let hs = find_or [] n nodes in
      unfold handler_at at_node in
      ground (
        arith,
        eq_iff t x,
        eq_iff n m,
        eq_iff (uuid_of h) v,
        find-assign t x (assign n (emplace (uuid_of h) h hs) nodes) s,
        find-assign n m (emplace (uuid_of h) h hs) nodes,
        find-emplace (uuid_of h) v h hs,
      )

  find_of_empty : (v : String) (hs : Map H) → is_empty hs ≡ true → find v hs ≡ none
  find_of_empty v [] h = find-nil v
  find_of_empty v (x ∷ hs) h = cc

  at_node-drop_handler :
      (t n u m v : String) (hs : Map H) (mp : NodeHandlerMap H)
      → at_node m v (drop_handler t n u hs mp)
        ≡ (if str_eq n m then (if str_eq u v then none else find v hs) else at_node m v mp)
  unfolding drop_handler
  at_node-drop_handler t n u m v hs mp =
      let left = erase u hs in
      let nodes = if is_empty left then erase n mp else assign n left mp in
      ground (
        arith,
        find-erase u v hs,
        find_of_empty v left,
        at_node-erase n m v mp,
        at_node-assign n m v left mp,
        at_node_of_empty m v nodes,
        at_node-erase t m v nodes,
      )

  pub handler_at_cases :
      (t m v : String) (s : HandlerStorage H)
      → handler_at t m v s
        ≡ (elim (find t s) as (λ _. Option H) [ none ↦ none | some mp ↦ at_node m v mp ])
  unfolding handler_at
  handler_at_cases t m v s = ground (arith, at_node_of_empty m v [] refl)

  pub at_node_cases :
      (n v : String) (mp : NodeHandlerMap H)
      → at_node n v mp ≡ (elim (find n mp) as (λ _. Option H) [ none ↦ none | some hs ↦ find v hs ])
  unfolding at_node
  at_node_cases n v mp = ground (arith, find-nil {V = H} v)

  -- `removeHandler` empties just its three keys, and answers whether a handler stood there.
  pub handler_at-remove_handler :
      (t n u x m v : String) (s : HandlerStorage H)
      → ((remove_handler t n u s).1 ≡ is_some (handler_at t n u s))
        × (handler_at x m v (remove_handler t n u s).0
            ≡ (if same_key t n u x m v then none else handler_at x m v s))
  unfolding remove_handler
  handler_at-remove_handler t n u x m v s = elim (Option-cases (find t s)) [
    | inl out ↦ (
      ground (arith, handler_at_cases t n u s),
      ground (arith, eq_iff t x, handler_at_cases t m v s),
    )
    | inr (mp, at) ↦ elim (Option-cases (find n mp)) [
      | inl out ↦ (
        ground (arith, handler_at_cases t n u s, at_node_cases n u mp),
        ground (arith, eq_iff t x, eq_iff n m, handler_at_cases t m v s, at_node_cases n v mp),
      )
      | inr (hs, there) ↦ (
        ground (arith, handler_at_cases t n u s, at_node_cases n u mp),
        ground (
          arith,
          eq_iff t x,
          eq_iff n m,
          handler_at_cases t m v s,
          at_node_cases n v mp,
          handler_at-assign t x m v (drop_handler t n u hs mp) s,
          at_node-drop_handler t n u m v hs mp,
        ),
      )
    ]
  ]

  -- `removeHandlersForNode` empties the keys of the node on the topic, and no others; it answers
  -- whether the node had an entry there.
  pub handler_at-remove_handlers_for_node :
      (t n x m v : String) (s : HandlerStorage H)
      → ((remove_handlers_for_node t n s).1 ≡ has_handlers_for_node t n s)
        × (handler_at x m v (remove_handlers_for_node t n s).0
            ≡ (if str_eq t x && str_eq n m then none else handler_at x m v s))
  unfolding remove_handlers_for_node has_handlers_for_node
  handler_at-remove_handlers_for_node t n x m v s = elim (Option-cases (find t s)) [
    | inl out ↦ (ground arith, ground (arith, eq_iff t x, handler_at_cases t m v s))
    | inr (mp, at) ↦ (
      ground arith,
      ground (
        arith,
        eq_iff t x,
        handler_at_cases t m v s,
        at_node-erase n m v mp,
        at_node_of_empty m v (erase n mp),
        handler_at-erase t x m v s,
        handler_at-assign t x m v (erase n mp) s,
      ),
    )
  ]

  -- `removeHandler` never takes a topic out, not even with its last handler.
  pub has_topic-remove_handler :
      (t n u x : String) (s : HandlerStorage H)
      → has_topic x (remove_handler t n u s).0 ≡ has_topic x s
  unfolding has_topic remove_handler
  has_topic-remove_handler t n u x s = elim (Option-cases (find t s)) [
    | inl out ↦ ground arith
    | inr (mp, at) ↦ elim (Option-cases (find n mp)) [
      | inl out ↦ ground arith
      | inr (hs, there) ↦ ground (arith, eq_iff t x, find-assign t x (drop_handler t n u hs mp) s)
    ]
  ]

  -- `removeHandlersForNode` takes a topic out exactly where it leaves the topic without a node.
  pub has_topic-remove_handlers_for_node :
      (t n x : String) (s : HandlerStorage H)
      → has_topic x (remove_handlers_for_node t n s).0
        ≡ (if str_eq t x then not (is_empty (erase n (find_or [] t s))) else has_topic x s)
  unfolding has_topic remove_handlers_for_node find_or erase
  has_topic-remove_handlers_for_node t n x s = elim (Option-cases (find t s)) [
    | inl out ↦ ground (arith, eq_iff t x)
    | inr (mp, at) ↦ ground (arith, eq_iff t x, find-assign t x (erase n mp) s, find-erase t x s)
  ]
