-- ===== src/Cli/Table/Aligned.antt =====
-- The tables of tools/rf_trans.cc: the widths of their columns.
use rf_trans_v.Base.{
  ◌≡◌, refl, ◌≤◌, ◌-◌, ◌+◌, ◌++◌, ◌∙◌, ap, ℕ, zero, suc, max, String, List, [], ◌∷◌, arith, str_eq,
  Bool-cases, inl, inr, if◌then◌else◌, length, length-append, replicate, All,
}
use rf_trans_v.Cli.Print.{codes}
use rf_trans_v.Cli.Table.{
  Column, padded, gap, event_cell, longest, width_of, cells, heading_front, row_front,
}

length-replicate : {A : Type 0} (n : ℕ) (x : A) → length (replicate n x) ≡ n
length-replicate zero x = refl
length-replicate (suc n) x = omega (arith, length-replicate n x)

length-padded : (width : ℕ) (t : List ℕ) → length t ≤ width → length (padded width t) ≡ width
unfolding padded
length-padded width t h = omega (
  arith,
  length-append t (replicate (width - length t) b' '),
  length-replicate {A = ℕ} (width - length t) b' ',
)

length-event_cell :
    (event t : String)
    → length (codes t) ≤ 7
    → length (event_cell event t) ≡ (if str_eq event "" then 0 else 9)
unfolding event_cell
length-event_cell event t h = elim (Bool-cases (str_eq event "")) [
  | inl e ↦ rw e refl
  | inr e ↦
      rw e (omega (arith, length-padded 7 (codes t) h, length-append (padded 7 (codes t)) gap))
]

module _ {E : Type 0} where
  longest-ge : (width : ℕ) (get : E → String) (es : List E) → width ≤ longest width get es
  unfolding longest
  longest-ge width get [] = omega arith
  longest-ge width get (e ∷ es) =
      omega (arith, longest-ge (max width (length (codes (get e)))) get es)

  longest-covers :
      (width : ℕ) (get : E → String) (es : List E)
      → All (λ e. length (codes (get e)) ≤ longest width get es) es
  unfolding longest
  longest-covers width get [] = tt
  longest-covers width get (e ∷ es) =
      let wider = max width (length (codes (get e))) in
      (omega (arith, longest-ge wider get es), longest-covers wider get es)

  All-zip :
      {P Q R : E → Type 0} (es : List E)
      → ((e : E) → P e → Q e → R e)
      → All P es
      → All Q es
      → All R es
  All-zip [] f p q = tt
  All-zip (e ∷ es) f p q = (f e p.0 q.0, All-zip es f p.1 q.1)

  -- how wide the cells before the last are together
  abbrev total : List (Column E) → List E → ℕ
  total [] es = 0
  total (c ∷ cs) es = width_of c es + 2 + total cs es

  length-cells :
      (c : Column E) (cs : List (Column E)) (es : List E) (show : Column E → String)
      → length (codes (show c)) ≤ width_of c es
      → length (cells (c ∷ cs) es show) ≡ width_of c es + 2 + length (cells cs es show)
  unfolding cells
  length-cells c cs es show h = omega (
    arith,
    length-padded (width_of c es) (codes (show c)) h,
    length-append (padded (width_of c es) (codes (show c))) (gap ++ cells cs es show),
  )

  headings-total :
      (cs : List (Column E)) (es : List E) → length (cells cs es (λ c. c.0)) ≡ total cs es
  unfolding cells
  headings-total [] es = refl
  headings-total (c ∷ cs) es = omega (
    arith,
    length-cells c cs es (λ d. d.0) (longest-ge (length (codes c.0)) c.1 es),
    headings-total cs es,
  )

  rows-total :
      (cs : List (Column E)) (es : List E)
      → All (λ e. length (cells cs es (λ c. c.1 e)) ≡ total cs es) es
  unfolding cells
  rows-total [] es = trivial es
    where
      trivial : (l : List E) → All (λ e. ◌≡◌ {A = ℕ} 0 0) l
      trivial [] = tt
      trivial (x ∷ l) = (refl, trivial l)
  rows-total (c ∷ cs) es =
      All-zip es
        (λ e fits rest.
          length-cells c cs es (λ d. d.1 e) fits ∙ ap (λ n. width_of c es + 2 + n) rest)
        (longest-covers (length (codes c.0)) c.1 es) (rows-total cs es)

  -- In every row of a table the last column begins where it does in the heading, whatever the
  -- endpoints are, for an event that is no longer than its column.
  row_front-aligned :
      (cs : List (Column E)) (event : String) (es : List E)
      → length (codes event) ≤ 7
      → All (λ e. length (row_front cs event es e) ≡ length (heading_front cs event es)) es
  row_front-aligned cs event es h =
      All-zip es
        (λ e r _. omega (
          arith,
          r,
          headings-total cs es,
          length-append (event_cell event event) (cells cs es (λ c. c.1 e)),
          length-append (event_cell event "EVENT") (cells cs es (λ c. c.0)),
          length-event_cell event event h,
          length-event_cell event "EVENT" (omega arith),
        ))
        (rows-total cs es) (rows-total cs es)
