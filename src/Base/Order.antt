-- ===== src/Base/Order.antt =====
-- The order of `std::string`, by which `std::map` keeps its keys. `compare` goes by code points,
-- which is the order of the bytes of UTF-8.
use Prim.Native.Char.{Char, code}
use Prim.Native.Nat.{Ordering, compare as compare_ℕ}
use Prim.Native.String.compare
use Prim.Native.String.{String, compare, then}
use mathlib.Core.Bool.{false}
use mathlib.Core.Logic.{◌⊎◌, inl, inr}
use mathlib.Core.Path.{◌≡◌, sym, ◌∙◌, refl}
use native.Mathlib.Omega.{arith}
use text.Mathlib.Text.{◌==◌}
use text.Mathlib.TextEquality.{eq_iff, path_by_compare}
use text.Mathlib.TextPositions.{compare_refl}

infix 50 ◌≺◌
abbrev pub ◌≺◌ : String → String → Type 0
a ≺ b = compare a b ≡ Ordering.lt

not-lt_self : (a : String) → ¬ (a ≺ a)
not-lt_self a h = cc (compare_refl a)

module _ (c d e : Char) (x y z : Ordering) where
  then_trans :
      (x ≡ Ordering.lt → y ≡ Ordering.lt → z ≡ Ordering.lt)
      → then (compare_ℕ (code c) (code d)) x ≡ Ordering.lt
      → then (compare_ℕ (code d) (code e)) y ≡ Ordering.lt
      → then (compare_ℕ (code c) (code e)) z ≡ Ordering.lt
  then_trans h p q = ground arith

then_flip :
    (c d : Char) (x y : Ordering)
    → (x ≡ Ordering.gt → y ≡ Ordering.lt)
    → then (compare_ℕ (code c) (code d)) x ≡ Ordering.gt
    → then (compare_ℕ (code d) (code c)) y ≡ Ordering.lt
then_flip c d x y h p = ground arith

pub lt_trans : (a b c : String) → a ≺ b → b ≺ c → a ≺ c
lt_trans String.[] String.[] c p q = q
lt_trans String.[] (String.◌∷◌ d t) String.[] p q = cc (compare.cons-nil d t)
lt_trans String.[] (String.◌∷◌ d t) (String.◌∷◌ e u) p q = compare.nil-cons e u
lt_trans (String.◌∷◌ c s) String.[] u p q = cc (compare.cons-nil c s)
lt_trans (String.◌∷◌ c s) (String.◌∷◌ d t) String.[] p q = cc (compare.cons-nil d t)
lt_trans (String.◌∷◌ c s) (String.◌∷◌ d t) (String.◌∷◌ e u) p q =
    compare.cons-cons c e s u
    ∙ then_trans c d e (compare s t) (compare t u) (compare s u) (lt_trans s t u)
        (sym (compare.cons-cons c d s t) ∙ p) (sym (compare.cons-cons d e t u) ∙ q)

pub lt_of_gt : (a b : String) → compare a b ≡ Ordering.gt → b ≺ a
lt_of_gt String.[] String.[] p = cc (compare_refl String.[])
lt_of_gt String.[] (String.◌∷◌ d t) p = cc (compare.nil-cons d t)
lt_of_gt (String.◌∷◌ c s) String.[] p = compare.nil-cons c s
lt_of_gt (String.◌∷◌ c s) (String.◌∷◌ d t) p =
    compare.cons-cons d c t s
    ∙ then_flip c d (compare s t) (compare t s) (lt_of_gt s t) (sym (compare.cons-cons c d s t) ∙ p)

pub not-eq_of_lt : (a b : String) → a ≺ b → (a == b) ≡ false
not-eq_of_lt a b h = ground (arith, eq_iff a b, compare_refl a)

pub order_cases : (a b : String) → (a ≺ b) ⊎ ((a ≡ b) ⊎ (b ≺ a))
order_cases a b = go (compare a b) refl
  where
    go : (o : Ordering) → compare a b ≡ o → (a ≺ b) ⊎ ((a ≡ b) ⊎ (b ≺ a))
    go Ordering.lt h = inl h
    go Ordering.eq h = inr (inl (path_by_compare a b h))
    go Ordering.gt h = inr (inr (lt_of_gt a b h))
