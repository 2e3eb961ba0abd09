-- ===== src/Publisher/Rate.antt =====
-- How many messages a publisher with a limit lets through.
use rf_trans_v.Base.{
  ◌≡◌, ◌⊎◌, ℕ, suc, ◌+◌, ◌-◌, ◌*◌, ◌≤◌, String, Bool, true, false, inl, inr, List, [], ◌∷◌, arith,
  if◌then◌else◌,
}
use rf_trans_v.Options.{throttled}
use rf_trans_v.Publisher.{
  Publisher, second_ns, throttled_update_ready, update_throttling, publish_impl,
}

-- A call of `publish`: the two readings of the clock, the type of the message, and what the runtime
-- answers.
pub record Call : Type 0 where
  pub now : ℕ
  pub later : ℕ
  pub msg_type : String
  pub answer : Bool

-- the number of messages that the runtime is given
unfoldable pub handed : List Call → Publisher → ℕ
unfolding publish_impl
handed [] p = 0
handed (c ∷ calls) p =
    let (q, result, given) = publish_impl c.now c.later c.msg_type c.answer p in
    let rest = handed calls q in if given then suc rest else rest

-- The clock does not go back, from a time on.
abbrev pub IsClock : ℕ → List Call → Type 0
IsClock t [] = Unit
IsClock t (c ∷ calls) = (t ≤ c.now) × (c.now ≤ c.later) × IsClock c.later calls

-- the last reading
abbrev pub end_time : ℕ → List Call → ℕ
end_time t [] = t
end_time t (c ∷ calls) = end_time c.later calls

end_time-le : (t : ℕ) (calls : List Call) → IsClock t calls → t ≤ end_time t calls
end_time-le t [] k = omega arith
end_time-le t (c ∷ calls) (a, b, k) = omega (arith, a, b, end_time-le c.later calls k)

-- what one call does to a publisher with a limit
call_cases :
    (c : Call) (p : Publisher)
    → throttled p.message_publisher.msg_opts ≡ true
    → let r = publish_impl c.now c.later c.msg_type c.answer p in
      ((r.2 ≡ false) × (r.0 ≡ p))
      ⊎ ((r.2 ≡ true)
          × (r.0 ≡ record p { last_pub_time = c.later })
          × (second_ns ≤ (c.now - p.last_pub_time) * p.message_publisher.msg_opts.msgs_per_sec))
unfolding publish_impl update_throttling throttled_update_ready
call_cases c p h = ground (arith, h)

add-mul-add : (a b c r : ℕ) → (a + b + c) * r ≡ a * r + b * r + c * r
add-mul-add a b c r = grind arith

-- the step of the count: one message and the ones after it
rate_step :
    (k last now later end rate : ℕ)
    → last ≤ now
    → now ≤ later
    → later ≤ end
    → second_ns ≤ (now - last) * rate
    → k * second_ns ≤ (end - later) * rate
    → suc k * second_ns ≤ (end - last) * rate
rate_step k last now later end rate a b c d e =
    let whole : end - last ≡ (now - last) + (later - now) + (end - later) =
      omega (arith, a, b, c) in
    rw whole (omega (arith, d, e, add-mul-add (now - last) (later - now) (end - later) rate))

-- A publisher with a limit gives the runtime no more messages than the limit allows for the time
-- from its last message to the end of the calls, whatever the calls are, as long as the clock does
-- not go back: a second for each message, divided by the rate.
pub handed-le :
    (calls : List Call) (t : ℕ) (p : Publisher)
    → throttled p.message_publisher.msg_opts ≡ true
    → p.last_pub_time ≤ t
    → IsClock t calls
    → handed calls p * second_ns
      ≤ (end_time t calls - p.last_pub_time) * p.message_publisher.msg_opts.msgs_per_sec
unfolding handed
handed-le [] t p h l k = omega arith
handed-le (c ∷ calls) t p h l (a, b, k) = elim (call_cases c p h) [
  | inl q ↦ rw (q.0, q.1) (handed-le calls c.later p h (omega (arith, l, a, b)) k)
  | inr q ↦
      let after : Publisher = record p { last_pub_time = c.later } in
      rw (q.0, q.1)
        (rate_step (handed calls after) p.last_pub_time c.now c.later (end_time c.later calls)
          p.message_publisher.msg_opts.msgs_per_sec (omega (arith, l, a)) b
          (end_time-le c.later calls k) q.2 (handed-le calls c.later after h (omega arith) k))
]
