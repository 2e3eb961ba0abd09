-- ===== src/HandlerStorage/Valid.antt =====
-- The well-formedness of the storage, and that its operations keep it. A topic may be left without
-- a node (by `removeHandler`), a node is never left without a handler.
use rf_trans_v.Base.{
  ◌≡◌, refl, String, Bool, true, false, [], ◌∷◌, arith, if◌then◌else◌, is_empty, Option-cases, inl,
  inr,
}
use rf_trans_v.Map.{Map, find, find_or, assign, emplace, erase}
use rf_trans_v.Map.Order.{IsSorted, assign-IsSorted, erase-IsSorted}
use rf_trans_v.Map.Holds.{Holds, Holds-nil, Holds-assign, Holds-erase}
use rf_trans_v.HandlerStorage.{
  NodeHandlerMap, HandlerStorage, add_handler, drop_handler, remove_handler,
  remove_handlers_for_node,
}

module _ {H : Type 0} (uuid_of : H → String) where
  abbrev pub OwnKey : String → H → Type 0
  OwnKey u h = uuid_of h ≡ u

  -- the handlers of a node, each under its own uuid
  pub record AreHandlers (hs : Map H) : Type 0 where
    pub sorted : IsSorted hs
    pub own : Holds OwnKey hs

  pub record IsNodeValid (n : String) (hs : Map H) : Type 0 where
    pub filled : is_empty hs ≡ false
    pub handlers : AreHandlers hs

  pub record IsTopicValid (t : String) (mp : NodeHandlerMap H) : Type 0 where
    pub sorted : IsSorted mp
    pub nodes : Holds IsNodeValid mp

  pub record IsValid (s : HandlerStorage H) : Type 0 where
    pub sorted : IsSorted s
    pub topics : Holds IsTopicValid s

  nil-AreHandlers : AreHandlers []
  nil-AreHandlers = record { sorted = tt; own = Holds-nil OwnKey }

  nil-IsTopicValid : (t : String) → IsTopicValid t []
  nil-IsTopicValid t = record { sorted = tt; nodes = Holds-nil IsNodeValid }

  pub nil-IsValid : IsValid []
  nil-IsValid = record { sorted = tt; topics = Holds-nil IsTopicValid }

  found-IsTopicValid :
      (t : String) (s : HandlerStorage H) → IsValid s → IsTopicValid t (find_or [] t s)
  unfolding find_or
  found-IsTopicValid t s v = elim (Option-cases (find t s)) [
    | inl out ↦ rw (out, find_or) (nil-IsTopicValid t)
    | inr (mp, at) ↦ rw (at, find_or) (v.topics t mp at)
  ]

  found-AreHandlers :
      (t n : String) (mp : NodeHandlerMap H) → IsTopicValid t mp → AreHandlers (find_or [] n mp)
  unfolding find_or
  found-AreHandlers t n mp v = elim (Option-cases (find n mp)) [
    | inl out ↦ rw (out, find_or) nil-AreHandlers
    | inr (hs, at) ↦ rw (at, find_or) (v.nodes n hs at).handlers
  ]

  emplace-AreHandlers :
      (h : H) (hs : Map H) → AreHandlers hs → AreHandlers (emplace (uuid_of h) h hs)
  unfolding emplace
  emplace-AreHandlers h hs v = elim (Option-cases (find (uuid_of h) hs)) [
    | inl out ↦
        rw (out, emplace)
          (record {
            sorted = assign-IsSorted (uuid_of h) h hs v.sorted;
            own = Holds-assign OwnKey (uuid_of h) h hs refl v.own;
          })
    | inr (k, at) ↦ rw (at, emplace) v
  ]

  is_empty-emplace : (u : String) (h : H) (hs : Map H) → is_empty (emplace u h hs) ≡ false
  unfolding emplace find assign
  is_empty-emplace u h [] = refl
  is_empty-emplace u h ((j, k) ∷ hs) = ground arith

  assign-IsTopicValid :
      (t n : String) (hs : Map H) (mp : NodeHandlerMap H)
      → IsNodeValid n hs
      → IsTopicValid t mp
      → IsTopicValid t (assign n hs mp)
  assign-IsTopicValid t n hs mp w v = record {
    sorted = assign-IsSorted n hs mp v.sorted;
    nodes = Holds-assign IsNodeValid n hs mp w v.nodes;
  }

  erase-IsTopicValid :
      (t n : String) (mp : NodeHandlerMap H) → IsTopicValid t mp → IsTopicValid t (erase n mp)
  erase-IsTopicValid t n mp v = record {
    sorted = erase-IsSorted n mp v.sorted;
    nodes = Holds-erase IsNodeValid n mp v.nodes;
  }

  pub assign-IsValid :
      (t : String) (mp : NodeHandlerMap H) (s : HandlerStorage H)
      → IsTopicValid t mp
      → IsValid s
      → IsValid (assign t mp s)
  assign-IsValid t mp s w v = record {
    sorted = assign-IsSorted t mp s v.sorted;
    topics = Holds-assign IsTopicValid t mp s w v.topics;
  }

  -- `addHandler` keeps the storage well formed.
  pub add_handler-IsValid :
      (t n : String) (h : H) (s : HandlerStorage H)
      → IsValid s
      → IsValid (add_handler uuid_of t n h s)
  unfolding add_handler
  add_handler-IsValid t n h s v =
      let w = found-IsTopicValid t s v in
      let nodes = find_or [] t s in
      let hs = find_or [] n nodes in
      assign-IsValid t (assign n (emplace (uuid_of h) h hs) nodes) s
        (assign-IsTopicValid t n (emplace (uuid_of h) h hs) nodes
          (record {
            filled = is_empty-emplace (uuid_of h) h hs;
            handlers = emplace-AreHandlers h hs (found-AreHandlers t n nodes w);
          })
          w)
        v

  put_node-IsTopicValid :
      (t n : String) (hs : Map H) (mp : NodeHandlerMap H)
      → AreHandlers hs
      → IsTopicValid t mp
      → IsTopicValid t (if is_empty hs then erase n mp else assign n hs mp)
  put_node-IsTopicValid t n [] mp a v = erase-IsTopicValid t n mp v
  put_node-IsTopicValid t n (x ∷ hs) mp a v =
      assign-IsTopicValid t n (x ∷ hs) mp (record { filled = refl; handlers = a }) v

  if-IsTopicValid :
      (b : Bool) (t n : String) (mp : NodeHandlerMap H)
      → IsTopicValid t mp
      → IsTopicValid t (if b then erase n mp else mp)
  if-IsTopicValid true t n mp v = erase-IsTopicValid t n mp v
  if-IsTopicValid false t n mp v = v

  erase-AreHandlers : (u : String) (hs : Map H) → AreHandlers hs → AreHandlers (erase u hs)
  erase-AreHandlers u hs a = record {
    sorted = erase-IsSorted u hs a.sorted;
    own = Holds-erase OwnKey u hs a.own;
  }

  -- `removeHandler` keeps the storage well formed.
  pub remove_handler-IsValid :
      (t n u : String) (s : HandlerStorage H) → IsValid s → IsValid (remove_handler t n u s).0
  unfolding remove_handler drop_handler
  remove_handler-IsValid t n u s v = elim (Option-cases (find t s)) [
    | inl out ↦ rw (out, remove_handler) v
    | inr (mp, at) ↦ elim (Option-cases (find n mp)) [
      | inl out ↦ rw (at, out, remove_handler) v
      | inr (hs, there) ↦
          let w = v.topics t mp at in
          rw (at, there, remove_handler)
            (assign-IsValid t (drop_handler t n u hs mp) s
              (if-IsTopicValid _ t t _ (
                put_node-IsTopicValid t n (erase u hs) mp
                  (erase-AreHandlers u hs (w.nodes n hs there).handlers) w))
              v)
    ]
  ]

  put_topic-IsValid :
      (t : String) (mp : NodeHandlerMap H) (s : HandlerStorage H)
      → IsTopicValid t mp
      → IsValid s
      → IsValid (if is_empty mp then erase t s else assign t mp s)
  put_topic-IsValid t [] s w v = record {
    sorted = erase-IsSorted t s v.sorted;
    topics = Holds-erase IsTopicValid t s v.topics;
  }
  put_topic-IsValid t (x ∷ mp) s w v = assign-IsValid t (x ∷ mp) s w v

  -- `removeHandlersForNode` keeps the storage well formed.
  pub remove_handlers_for_node-IsValid :
      (t n : String) (s : HandlerStorage H) → IsValid s → IsValid (remove_handlers_for_node t n s).0
  unfolding remove_handlers_for_node
  remove_handlers_for_node-IsValid t n s v = elim (Option-cases (find t s)) [
    | inl out ↦ rw (out, remove_handlers_for_node) v
    | inr (mp, at) ↦
        rw (at, remove_handlers_for_node)
          (put_topic-IsValid t (erase n mp) s (erase-IsTopicValid t n mp (v.topics t mp at)) v)
  ]
