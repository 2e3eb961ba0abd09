-- ===== src/Discovery/Public.antt =====
-- Which messages of a discovery object are public, and that what it sends piece by piece is.
use rf_trans_v.Base.{
  ◌≡◌, ◌≢◌, refl, ap, ◌∙◌, String, Bool, true, false, Option, none, some, List, [], ◌∷◌, ◌++◌,
  arith, All, All-append, if◌then◌else◌, inl, inr, ◌⊎◌,
}
use rf_trans_v.Map.{Map}
use rf_trans_v.Options.{Scope, scope_eq}
use rf_trans_v.Wire.{Msg, MsgType, Contents}
use rf_trans_v.Info.Class.{Pub, topic_of, scope_of, set_process}
use rf_trans_v.TopicStorage.{ProcessMap}
use rf_trans_v.Discovery.{
  Discovery, Event, call, send, called, sent, hidden, build_msg, send_msg, call_each, call_all,
}
use rf_trans_v.Discovery.Handlers.{answer_each}
use rf_trans_v.Discovery.Loop.{resend, resend_all, disconnect_each}
use rf_trans_v.Discovery.Owned.{EachAll}

-- whether a message announces or withdraws a publisher
abbrev pub announces : MsgType → Bool
announces MsgType.advertise = true
announces MsgType.unadvertise = true
announces _ = false

build_msg-type :
    (fill : Msg → Msg) (topic u n : String) (ty : MsgType) (m : Msg)
    → ((x : Msg) → (fill x).msg_type ≡ x.msg_type)
    → build_msg fill topic u n ty ≡ some m
    → m.msg_type ≡ ty
unfolding build_msg
build_msg-type fill topic u n ty m k h =
    let blank : Msg = record {
      version = 0;
      process_uuid = u;
      msg_type = ty;
      process_name = n;
      contents = Contents.unset;
    } in
    ground (arith, h, k blank, k (fill blank))

module _ {C P : Type 0} ⦃e : Pub P⦄ (Q : P → Type 0) where
  -- A message that announces or withdraws a publisher is made of one of the collection, that is not
  -- of scope PROCESS.
  pub IsPublic : Event C P → Type 0
  IsPublic (call cb p) = Unit
  IsPublic (send m) =
      (announces m.msg_type ≡ false)
      ⊎ ((p : P) × (u n : String) × Q p
          × (build_msg (e.fill p) (topic_of p) u n m.msg_type ≡ some m)
          × (scope_of p ≢ Scope.process))

  pub IsPublic-called : (cb : Option C) (p : P) → All IsPublic (called cb p)
  unfolding IsPublic
  IsPublic-called none p = tt
  IsPublic-called (some cb) p = (tt, tt)

module _ (C : Type 0) {P : Type 0} ⦃e : Pub P⦄ (Q : P → Type 0) where
  pub IsPublic-sent :
      (o : Option Msg)
      → ((m : Msg) → o ≡ some m → IsPublic {C = C} Q (send m))
      → All (IsPublic {C = C} Q) (sent o)
  IsPublic-sent none h = tt
  IsPublic-sent (some m) h = (h m refl, tt)

  -- a message of a type that announces nothing
  pub IsPublic-silent :
      (fill : Msg → Msg) (topic u n : String) (ty : MsgType)
      → ((m : Msg) → (fill m).msg_type ≡ m.msg_type)
      → announces ty ≡ false
      → All (IsPublic {C = C} Q) (sent (build_msg fill topic u n ty))
  unfolding IsPublic
  IsPublic-silent fill topic u n ty k h =
      IsPublic-sent (build_msg fill topic u n ty)
        (λ m made. inl (rw (build_msg-type fill topic u n ty m k made) h))

module _ {C P : Type 0} ⦃e : Pub P⦄ (Q : P → Type 0) where
  pub IsPublic-send_msg :
      (ty : MsgType) (p : P) (d : Discovery C P)
      → Q p
      → scope_of p ≢ Scope.process
      → All (IsPublic Q) (send_msg ty p d)
  unfolding send_msg IsPublic
  IsPublic-send_msg ty p d q h =
      let u = d.process_uuid in
      let n = d.process_name in
      IsPublic-sent C Q (build_msg (e.fill p) (topic_of p) u n ty) (λ m made.
        let same = build_msg-type (e.fill p) (topic_of p) u n ty m (e.type-fill p) made in
        inr (p, u, n, q, ap (λ x. build_msg (e.fill p) (topic_of p) u n x) same ∙ made, h))

  pub IsPublic-unless :
      (ty : MsgType) (p : P) (d : Discovery C P)
      → Q p
      → All (IsPublic Q) (if scope_eq (scope_of p) Scope.process then [] else send_msg ty p d)
  unfolding scope_eq
  IsPublic-unless ty p d q = ground (arith, IsPublic-send_msg ty p d q)

  pub IsPublic-call_each : (cb : Option C) (ps : List P) → All (IsPublic Q) (call_each cb ps)
  IsPublic-call_each cb [] = tt
  IsPublic-call_each cb (p ∷ ps) =
      All-append (IsPublic Q) _ _ (IsPublic-called Q cb p) (IsPublic-call_each cb ps)

  pub IsPublic-call_all : (cb : Option C) (m : ProcessMap P) → All (IsPublic Q) (call_all cb m)
  IsPublic-call_all cb [] = tt
  IsPublic-call_all cb ((u, ps) ∷ m) =
      All-append (IsPublic Q) _ _ (IsPublic-call_each cb ps) (IsPublic-call_all cb m)

  pub IsPublic-answer_each :
      (near : Bool) (d : Discovery C P) (ps : List P)
      → All Q ps
      → All (IsPublic Q) (answer_each near d ps)
  unfolding answer_each hidden scope_eq
  IsPublic-answer_each near d [] qs = tt
  IsPublic-answer_each near d (p ∷ ps) qs =
      let rest = IsPublic-answer_each near d ps qs.1 in
      let shown : scope_of p ≢ Scope.process
          → All (IsPublic Q) (send_msg MsgType.advertise p d ++ answer_each near d ps) =
        λ h.
          All-append (IsPublic Q) (send_msg MsgType.advertise p d) _
            (IsPublic-send_msg MsgType.advertise p d qs.0 h) rest in
      ground (arith, rest, shown)

  pub IsPublic-resend :
      (d : Discovery C P) (ps : List P) → All Q ps → All (IsPublic Q) (resend d ps)
  unfolding scope_eq
  IsPublic-resend d [] qs = tt
  IsPublic-resend d (p ∷ ps) qs =
      let rest = IsPublic-resend d ps qs.1 in
      let shown : scope_of p ≢ Scope.process
          → All (IsPublic Q) (send_msg MsgType.advertise p d ++ resend d ps) =
        λ h.
          All-append (IsPublic Q) (send_msg MsgType.advertise p d) _
            (IsPublic-send_msg MsgType.advertise p d qs.0 h) rest in
      ground (arith, rest, shown)

  pub IsPublic-resend_all :
      (d : Discovery C P) (m : Map (List P)) → EachAll Q m → All (IsPublic Q) (resend_all d m)
  IsPublic-resend_all d [] qs = tt
  IsPublic-resend_all d ((u, ps) ∷ m) qs =
      All-append (IsPublic Q) _ _ (IsPublic-resend d ps qs.0) (IsPublic-resend_all d m qs.1)

  pub IsPublic-disconnect_each :
      (cb : Option C) (us : List String) → All (IsPublic Q) (disconnect_each cb us)
  IsPublic-disconnect_each cb [] = tt
  IsPublic-disconnect_each cb (u ∷ us) =
      All-append (IsPublic Q) (called cb (set_process u e.fresh)) _ (IsPublic-called Q cb _)
        (IsPublic-disconnect_each cb us)
