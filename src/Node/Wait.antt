-- ===== src/Node/Wait.antt =====
-- `waitForService` of src/node.cc. A round of its loop asks whether the service is there, sleeps and
-- reads the clock; what the round `i` finds is an argument, and the loop has fuel for so many rounds.
use rf_trans_v.Base.{
  ◌≡◌, ◌+◌, ◌-◌, ◌*◌, ◌/◌, ◌≤◌, ◌<◌, ℕ, zero, suc, Bool, true, false, Option, none, some, arith,
  ltb, lt→ltb, if◌then◌else◌, Bool-cases, inl, inr,
}

-- the sleep of a round, in nanoseconds
abbrev pub round_sleep : ℕ
round_sleep = 20000000

-- the rounds from the round `i` on; `none` where the fuel is out
unfoldable pub wait_loop : (ℕ → Bool) → (ℕ → ℕ) → ℕ → ℕ → ℕ → ℕ → Option Bool
wait_loop has_service clock begin timeout zero i = none
wait_loop has_service clock begin timeout (suc fuel) i =
    let rest = wait_loop has_service clock begin timeout fuel (suc i) in
    if has_service i then some true else if ltb timeout (clock i - begin) then some false else rest

unfoldable pub wait_for_service : (ℕ → Bool) → (ℕ → ℕ) → ℕ → ℕ → Option Bool
unfolding wait_loop
wait_for_service has_service clock begin timeout =
    wait_loop has_service clock begin timeout (timeout / round_sleep + 2) 0

module _ (has_service : ℕ → Bool) (clock : ℕ → ℕ) (begin timeout : ℕ) where
  loop_ends :
      (fuel i : ℕ)
      → ((j : ℕ) → begin + (j + 1) * round_sleep ≤ clock j)
      → timeout < (i + fuel) * round_sleep
      → 0 < fuel
      → (r : Bool) × (wait_loop has_service clock begin timeout fuel i ≡ some r)
  unfolding wait_loop
  loop_ends zero i slow enough some_left = (true, ground (arith, some_left))
  loop_ends (suc zero) i slow enough some_left = elim (Bool-cases (has_service i)) [
    | inl there ↦ (true, ground (arith, there))
    | inr not_there ↦ (
      false,
      ground (arith, not_there, lt→ltb timeout (clock i - begin) (omega (arith, slow i, enough))),
    )
  ]
  loop_ends (suc (suc fuel)) i slow enough some_left = elim (Bool-cases (has_service i)) [
    | inl there ↦ (true, ground (arith, there))
    | inr not_there ↦ elim (Bool-cases (ltb timeout (clock i - begin))) [
      | inl late ↦ (false, ground (arith, not_there, late))
      | inr early ↦
          let (r, is) = loop_ends (suc fuel) (suc i) slow (omega (arith, enough)) (omega arith) in
          (r, ground (arith, not_there, early, is))
    ]
  ]

  -- Where each round takes at least the 20 ms that it sleeps, the wait ends within as many rounds as
  -- the timeout has sleeps, and two more.
  pub wait_for_service-ends :
      ((j : ℕ) → begin + (j + 1) * round_sleep ≤ clock j)
      → (r : Bool) × (wait_for_service has_service clock begin timeout ≡ some r)
  unfolding wait_for_service
  wait_for_service-ends slow =
      loop_ends (timeout / round_sleep + 2) 0 slow (omega arith) (omega arith)
