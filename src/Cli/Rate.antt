-- ===== src/Cli/Rate.antt =====
-- `RateTracker` of tools/rf_trans.cc: the messages of a trailing window. Times are in nanoseconds and
-- do not go back; the rate is the number of the timestamps that are left, over the window.
use rf_trans_v.Base.{
  ◌≡◌, refl, ◌-◌, ◌≤◌, ◌++◌, ℕ, Bool, true, not, List, [], ◌∷◌, arith, ltb, if◌then◌else◌, All,
  All-append, keep_if, ◌∙◌, sym,
}
use mathlib.Core.Path.{subst}

-- the loop that drops what is older than the window
unfoldable pub drop_old : ℕ → ℕ → List ℕ → List ℕ
drop_old window now [] = []
drop_old window now (t ∷ ts) =
    let rest = drop_old window now ts in if ltb window (now - t) then rest else t ∷ ts

unfoldable pub record_time : ℕ → ℕ → List ℕ → List ℕ
unfolding drop_old
record_time window now ts = drop_old window now (ts ++ now ∷ [])

-- The timestamps go up.
abbrev pub Rises : List ℕ → Type 0
Rises [] = Unit
Rises (t ∷ ts) = All (λ u. t ≤ u) ts × Rises ts

abbrev fresh : ℕ → ℕ → ℕ → Bool
fresh window now t = not (ltb window (now - t))

all_fresh :
    (window now t : ℕ) (ts : List ℕ)
    → fresh window now t ≡ true
    → All (λ u. t ≤ u) ts
    → keep_if (fresh window now) ts ≡ ts
all_fresh window now t [] h a = refl
all_fresh window now t (u ∷ ts) h a = ground (arith, h, a.0, all_fresh window now t ts h a.1)

-- Of timestamps that go up, just those within the window are left.
pub drop_old-keep_if :
    (window now : ℕ) (ts : List ℕ)
    → Rises ts
    → drop_old window now ts ≡ keep_if (fresh window now) ts
unfolding drop_old
drop_old-keep_if window now [] r = refl
drop_old-keep_if window now (t ∷ ts) r =
    ground (arith, drop_old-keep_if window now ts r.1, all_fresh window now t ts)

pub append-Rises :
    (now : ℕ) (ts : List ℕ) → All (λ t. t ≤ now) ts → Rises ts → Rises (ts ++ now ∷ [])
append-Rises now [] a r = (tt, tt)
append-Rises now (t ∷ ts) a r =
    (All-append (λ u. t ≤ u) ts (now ∷ []) r.0 (a.0, tt), append-Rises now ts a.1 r.1)

keep_if-All :
    (t : ℕ) (test : ℕ → Bool) (ts : List ℕ)
    → All (λ u. t ≤ u) ts
    → All (λ u. t ≤ u) (keep_if test ts)
keep_if-All t test [] a = tt
keep_if-All t test (u ∷ ts) a = ground (arith, a.0, keep_if-All t test ts a.1)

keep_if-Rises : (test : ℕ → Bool) (ts : List ℕ) → Rises ts → Rises (keep_if test ts)
keep_if-Rises test [] r = tt
keep_if-Rises test (t ∷ ts) r = ground (arith, keep_if-All t test ts r.0, keep_if-Rises test ts r.1)

keep_if-append :
    (window now : ℕ) (ts : List ℕ)
    → keep_if (fresh window now) (ts ++ now ∷ []) ≡ keep_if (fresh window now) ts ++ now ∷ []
keep_if-append window now [] = ground arith
keep_if-append window now (t ∷ ts) = ground (arith, keep_if-append window now ts)

-- A message that comes no earlier than those before leaves the timestamps of the window, its own at
-- the end, and they still go up.
pub record_time-window :
    (window now : ℕ) (ts : List ℕ)
    → All (λ t. t ≤ now) ts
    → Rises ts
    → (record_time window now ts ≡ keep_if (fresh window now) ts ++ now ∷ [])
      × Rises (record_time window now ts)
unfolding record_time
record_time-window window now ts a r =
    let grown = append-Rises now ts a r in
    let eq = drop_old-keep_if window now (ts ++ now ∷ []) grown in
    (
      eq ∙ keep_if-append window now ts,
      subst Rises (sym eq) (keep_if-Rises (fresh window now) (ts ++ now ∷ []) grown),
    )
