-- ===== src/HandlerStorage/First.antt =====
-- Which handler `getFirstHandler` returns: of those that match, the one at the smallest node and,
-- on that node, the smallest handler uuid.
use rf_trans_v.Base.{
  ◌≡◌, refl, sym, ◌∙◌, String, Bool, true, false, ◌&&◌, Option, none, some, [], ◌∷◌, arith, str_eq,
  eq_iff, if◌then◌else◌, Option-cases, inl, inr, ◌⊎◌,
}
use mathlib.Core.Path.{subst}
use rf_trans_v.Base.Order.{◌≺◌, order_cases}
use rf_trans_v.Map.{Map, find}
use rf_trans_v.Map.Order.{IsSorted}
use rf_trans_v.HandlerStorage.{
  NodeHandlerMap, HandlerStorage, first_of_node, first_of_topic, first_matching, get_first_handler,
  get_first_service_handler,
}
use rf_trans_v.HandlerStorage.Contents.{handler_at, handler_at_cases, at_node_cases}
use rf_trans_v.HandlerStorage.Valid.{IsTopicValid, IsValid}
use rf_trans_v.HandlerStorage.Pick.{IsFirst, first_of, first_of-IsFirst, first_of-none}

module _ {H : Type 0} (test : H → Bool) where
  abbrev pub when_matching : H → Option H
  when_matching h = if test h then some h else none

  first_of_node-eq : (m : Map H) → first_of_node test m ≡ first_of when_matching m
  unfolding first_of_node
  first_of_node-eq [] = refl
  first_of_node-eq ((k, h) ∷ m) = ground (arith, first_of_node-eq m)

  first_of_topic-eq :
      (m : NodeHandlerMap H) → first_of_topic test m ≡ first_of (first_of_node test) m
  unfolding first_of_topic
  first_of_topic-eq [] = refl
  first_of_topic-eq ((k, hs) ∷ m) = ground (arith, first_of_topic-eq m)

-- The keys `n`, `u` come no later than `m`, `v`.
abbrev pub NotAfter : String → String → String → String → Type 0
NotAfter n u m v = (n ≺ m) ⊎ ((n ≡ m) × ((u ≺ v) ⊎ (u ≡ v)))

module _ {H : Type 0} (uuid_of : H → String) (test : H → Bool) where
  -- the place of the handler that the two loops return
  record Place (mp : NodeHandlerMap H) (h : H) : Type 0 where
    pub node : String
    pub handlers : Map H
    pub uuid : String
    pub on_topic : IsFirst (first_of_node test) mp node handlers h
    pub on_node : IsFirst (when_matching test) handlers uuid h h
    pub passes : test h ≡ true

  Place-on_node :
      (mp : NodeHandlerMap H) (n : String) (hs : Map H) (h : H)
      → IsSorted hs
      → IsFirst (first_of_node test) mp n hs h
      → Place mp h
  Place-on_node mp n hs h o f =
      let (u, k, g) =
        first_of-IsFirst (when_matching test) hs h o (sym (first_of_node-eq test hs) ∙ f.picked) in
      let same : k ≡ h = ground (arith, g.picked) in
      record {
        node = n;
        handlers = hs;
        uuid = u;
        on_topic = f;
        on_node = subst (λ x. IsFirst (when_matching test) hs u x h) same g;
        passes = ground (arith, g.picked);
      }

  place :
      (t : String) (mp : NodeHandlerMap H) (h : H)
      → IsTopicValid uuid_of t mp
      → first_of_topic test mp ≡ some h
      → Place mp h
  place t mp h v e =
      let (n, hs, f) =
        first_of-IsFirst (first_of_node test) mp h v.sorted (sym (first_of_topic-eq test mp) ∙ e) in
      Place-on_node mp n hs h (v.nodes n hs f.there).handlers.sorted f

  -- nothing is returned only where no handler of the topic passes
  topic_none :
      (mp : NodeHandlerMap H) (m v : String) (hs : Map H) (k : H)
      → first_of_node test hs ≡ none
      → find v hs ≡ some k
      → test k ≡ false
  topic_none mp m v hs k e at =
      ground (arith, first_of_node-eq test hs, first_of-none (when_matching test) hs v k)

  -- In a well-formed storage, what `getFirstHandler` returns is registered for the topic and has the
  -- types that were asked for.
  pub first_matching_sound :
      (t : String) (h : H) (s : HandlerStorage H)
      → IsValid uuid_of s
      → first_matching test t s ≡ some h
      → (n : String) × (u : String) × (handler_at t n u s ≡ some h) × (test h ≡ true)
  unfolding first_matching
  first_matching_sound t h s v e = elim (Option-cases (find t s)) [
    | inl out ↦ absurd (ground arith)
    | inr (mp, at) ↦
        let p = place t mp h (v.topics t mp at) (ground arith) in
        (
          p.node,
          p.uuid,
          ground (
            arith,
            handler_at_cases t p.node p.uuid s,
            at_node_cases p.node p.uuid mp,
            p.on_topic.there,
            p.on_node.there,
          ),
          p.passes,
        )
  ]

  -- a place is not after any handler of the topic that passes
  Place-NotAfter :
      (mp : NodeHandlerMap H) (h k : H) (m v : String) (hs : Map H)
      → (p : Place mp h) → find m mp ≡ some hs
      → find v hs ≡ some k
      → test k ≡ true
      → NotAfter p.node p.uuid m v
  Place-NotAfter mp h k m v hs p a b c = elim (order_cases p.node m) [
    | inl before ↦ inl before
    | inr (inr after) ↦
        absurd (ground (arith, p.on_topic.least m hs after a, topic_none mp m v hs k))
    | inr (inl same) ↦ elim (order_cases p.uuid v) [
      | inl before ↦ inr (same, inl before)
      | inr (inl equal) ↦ inr (same, inr equal)
      | inr (inr after) ↦
          let one : p.handlers ≡ hs = ground (arith, p.on_topic.there) in
          absurd (ground (arith, one, p.on_node.least v k after))
    ]
  ]

  first_of_topic-first :
      (t m v : String) (k : H) (mp : NodeHandlerMap H) (hs : Map H)
      → IsTopicValid uuid_of t mp
      → find m mp ≡ some hs
      → find v hs ≡ some k
      → test k ≡ true
      → (h : H) × (first_of_topic test mp ≡ some h) × Place mp h
  first_of_topic-first t m v k mp hs w a b c = elim (Option-cases (first_of_topic test mp)) [
    | inl out ↦ absurd (
        ground (
          arith,
          first_of_topic-eq test mp,
          first_of-none (first_of_node test) mp m hs,
          topic_none mp m v hs k,
        ))
    | inr (h, e) ↦ (h, e, place t mp h w e)
  ]

  -- In a well-formed storage, where a handler of the topic has the types that were asked for,
  -- `getFirstHandler` returns such a handler, and one that does not come after it in the order of
  -- the node uuids and then of the handler uuids.
  pub first_matching_first :
      (t m v : String) (k : H) (s : HandlerStorage H)
      → IsValid uuid_of s
      → handler_at t m v s ≡ some k
      → test k ≡ true
      → (h : H) × (n : String) × (u : String) × (first_matching test t s ≡ some h)
        × (handler_at t n u s ≡ some h)
        × (test h ≡ true)
        × NotAfter n u m v
  unfolding first_matching
  first_matching_first t m v k s w e p = elim (Option-cases (find t s)) [
    | inl out ↦ absurd (ground (arith, handler_at_cases t m v s))
    | inr (mp, at) ↦ elim (Option-cases (find m mp)) [
      | inl out ↦ absurd (ground (arith, handler_at_cases t m v s, at_node_cases m v mp))
      | inr (hs, there) ↦
          let held : find v hs ≡ some k =
            ground (arith, handler_at_cases t m v s, at_node_cases m v mp) in
          let (h, first, pl) = first_of_topic-first t m v k mp hs (w.topics t mp at) there held p in
          (
            h,
            pl.node,
            pl.uuid,
            ground arith,
            ground (
              arith,
              handler_at_cases t pl.node pl.uuid s,
              at_node_cases pl.node pl.uuid mp,
              pl.on_topic.there,
              pl.on_node.there,
            ),
            pl.passes,
            Place-NotAfter mp h k m v hs pl there held p,
          )
    ]
  ]

module _ {H : Type 0} (uuid_of req_of rep_of : H → String) where
  -- In a well-formed storage, where a handler of the topic has the two types that were asked for,
  -- `getFirstHandler` returns such a handler, and one that does not come after it in the order of
  -- the node uuids and then of the handler uuids.
  pub get_first_service_handler_first :
      (t req rep m v : String) (k : H) (s : HandlerStorage H)
      → IsValid uuid_of s
      → handler_at t m v s ≡ some k
      → req_of k ≡ req
      → rep_of k ≡ rep
      → (h : H) × (n : String) × (u : String) × (get_first_service_handler req_of rep_of t req rep s
          ≡ some h)
        × (handler_at t n u s ≡ some h)
        × (str_eq req (req_of h) && str_eq rep (rep_of h) ≡ true)
        × NotAfter n u m v
  unfolding get_first_service_handler
  get_first_service_handler_first t req rep m v k s w e p q =
      first_matching_first uuid_of (λ h. str_eq req (req_of h) && str_eq rep (rep_of h)) t m v k s w
        e (ground (arith, eq_iff req (req_of k), eq_iff rep (rep_of k)))

module _ {H : Type 0} (uuid_of type_of : H → String) where
  -- In a well-formed storage, what `getFirstHandler` returns for a message type is a handler that is
  -- registered for the topic and has that type.
  pub get_first_handler_sound :
      (t ty : String) (h : H) (s : HandlerStorage H)
      → IsValid uuid_of s
      → get_first_handler type_of t ty s ≡ some h
      → (n : String) × (u : String) × (handler_at t n u s ≡ some h) × (type_of h ≡ ty)
  unfolding get_first_handler
  get_first_handler_sound t ty h s v e =
      let (n, u, at, p) = first_matching_sound uuid_of (λ k. str_eq ty (type_of k)) t h s v e in
      (n, u, at, ground (arith, eq_iff ty (type_of h)))
