-- ===== src/NodeShared/Loops.antt =====
-- A loop that makes one call for each topic of a list, as the destructor of src/node.cc does, on a
-- state that is read at a topic.
use rf_trans_v.Base.{
  ◌≡◌, refl, String, Bool, true, false, List, [], ◌∷◌, arith, str_eq, eq_iff, if◌then◌else◌,
  remove_if,
}
use rf_trans_v.Node.{holds}

module _ {S : Type 0} where
  abbrev pub each : (String → S → S) → List String → S → S
  each step [] s = s
  each step (t ∷ ts) s = each step ts (step t s)

  pub each-Inv :
      (step : String → S → S) (Inv : S → Type 0)
      → ((t : String) (s : S) → Inv s → Inv (step t s))
      → (ts : List String) (s : S) → Inv s
      → Inv (each step ts s)
  each-Inv step Inv keeps [] s i = i
  each-Inv step Inv keeps (t ∷ ts) s i = each-Inv step Inv keeps ts (step t s) (keeps t s i)

  pub view-each :
      {A : Type 0} (step : String → S → S) (Inv : S → Type 0) (view : String → S → A) (f : A → A)
      → ((t : String) (s : S) → Inv s → Inv (step t s))
      → ((t x : String) (s : S)
          → Inv s
          → view x (step t s) ≡ (if str_eq t x then f (view x s) else view x s))
      → ((a : A) → f (f a) ≡ f a)
      → (ts : List String) (x : String) (s : S) → Inv s
      → view x (each step ts s) ≡ (if holds x ts then f (view x s) else view x s)
  view-each step Inv view f keeps once again [] x s i = refl
  view-each step Inv view f keeps once again (t ∷ ts) x s i = ground (
    arith,
    eq_iff t x,
    eq_iff x t,
    once t x s i,
    again (view x s),
    view-each step Inv view f keeps once again ts x (step t s) (keeps t s i),
  )

pub remove_if_twice :
    {A : Type 0} (test : A → Bool) (l : List A)
    → remove_if test (remove_if test l) ≡ remove_if test l
remove_if_twice test [] = refl
remove_if_twice test (x ∷ l) = ground (arith, remove_if_twice test l)

pub if_twice :
    {A : Type 0} (b : Bool) (a : A) (f : A → A)
    → ((a : A) → f (f a) ≡ f a)
    → let g = λ (c : A). if b then f c else c in g (g a) ≡ g a
if_twice true a f again = again a
if_twice false a f again = refl
