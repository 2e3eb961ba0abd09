-- ===== src/Cli/Reader.antt =====
-- A reader of the objects that tools/rf_trans.cc prints as JSON, and that it reads them as they are.
use mathlib.Core.List.{append_assoc}
use mathlib.Core.Option
use rf_trans_v.Base.{
  ◌≡◌, ◌<◌, ◌∙◌, ap, refl, ◌++◌, ◌||◌, ℕ, zero, suc, Bool, true, false, Option, none, some, List,
  [], ◌∷◌, arith, ◌==◌, if◌then◌else◌, length, All,
}
use rf_trans_v.Cli.Json.{json_escape, escape_byte, quote_json, read_char, read-escape_byte}
use rf_trans_v.Cli.Print.{
  Value, text, raw, Member, print_value, print_member, print_rest, print_object,
}

-- A text and what follows its closing quote; `rounds` bounds the characters.
unfoldable pub read_text : ℕ → List ℕ → Option (List ℕ × List ℕ)
unfolding read_char
read_text zero s = none
read_text (suc rounds) [] = none
read_text (suc rounds) (c ∷ s) = if c == b'"' then some ([], s) else elim (read_char (c ∷ s)) [
  | none ↦ none
  | some (d, rest) ↦ Option.map (λ r. (d ∷ r.0, r.1)) (read_text rounds rest)
]

-- whether a character ends what is not quoted
abbrev pub ends : ℕ → Bool
ends c = c == b',' || c == b'}'

unfoldable pub read_raw : List ℕ → List ℕ × List ℕ
read_raw [] = ([], [])
read_raw (c ∷ s) = let (t, rest) = read_raw s in if ends c then ([], c ∷ s) else (c ∷ t, rest)

unfoldable pub read_value : ℕ → List ℕ → Option (Value × List ℕ)
unfolding read_text read_raw
read_value rounds [] = none
read_value rounds (c ∷ s) =
    if c == b'"'
    then Option.map (λ r. (text r.0, r.1)) (read_text rounds s)
    else let (t, rest) = read_raw (c ∷ s) in some (raw t, rest)

-- a character that has to stand there
abbrev skip : ℕ → List ℕ → Option (List ℕ)
skip c [] = none
skip c (d ∷ s) = if d == c then some s else none

infixl 5 ◌>>=◌
abbrev ◌>>=◌ : {A B : Type 0} → Option A → (A → Option B) → Option B
none >>= f = none
some a >>= f = f a

unfoldable pub read_member : ℕ → List ℕ → Option (Member × List ℕ)
unfolding read_text read_value
read_member rounds s = do
  s1 ← skip b'"' s
  (name, s2) ← read_text rounds s1
  s3 ← skip b':' s2
  (v, s4) ← read_value rounds s3
  some ((name, v), s4)

-- The members after one: `rounds` bounds the characters of a text, the first argument the members.
unfoldable pub read_rest : ℕ → ℕ → List ℕ → Option (List Member × List ℕ)
unfolding read_member
read_rest zero rounds s = none
read_rest (suc members) rounds [] = none
read_rest (suc members) rounds (c ∷ s) =
    if c == b'}'
    then some ([], s)
    else if c == b','
    then elim (read_member rounds s) [
      | none ↦ none
      | some (m, rest) ↦ Option.map (λ r. (m ∷ r.0, r.1)) (read_rest members rounds rest)
    ]
    else none

unfoldable pub read_object : ℕ → ℕ → List ℕ → Option (List Member × List ℕ)
unfolding read_member read_rest
read_object members rounds s = do
  s1 ← skip b'{' s
  (m, s2) ← read_member rounds s1
  (ms, s3) ← read_rest members rounds s2
  some (m ∷ ms, s3)

-- What may stand for a value: a text of less than so many characters, or what has no end inside and
-- is no text.
abbrev pub IsPlain : List ℕ → Type 0
IsPlain [] = ⊥
IsPlain (c ∷ t) = (c == b'"' ≡ false) × All (λ d. ends d ≡ false) (c ∷ t)

abbrev pub IsReadable : ℕ → Value → Type 0
IsReadable rounds (text t) = length t < rounds
IsReadable rounds (raw t) = IsPlain t

abbrev pub Fits : ℕ → Member → Type 0
Fits rounds m = (length m.0 < rounds) × IsReadable rounds m.1

-- whether what follows ends an unquoted value
abbrev Ended : List ℕ → Type 0
Ended [] = ⊥
Ended (c ∷ s) = ends c ≡ true

read_text_step :
    (rounds d : ℕ) (s rest : List ℕ)
    → read_char s ≡ some (d, rest)
    → read_text (suc rounds) s ≡ Option.map (λ r. (d ∷ r.0, r.1)) (read_text rounds rest)
unfolding read_text
read_text_step rounds d [] rest h = ground (arith, h)
read_text_step rounds d (c ∷ s) rest h = ground (arith, h)

read_text-json_escape :
    (rounds : ℕ) (t rest : List ℕ)
    → length t < rounds
    → read_text rounds (json_escape t ++ b'"' ∷ rest) ≡ some (t, rest)
unfolding read_text json_escape
read_text-json_escape zero t rest h = elim h [ ]
read_text-json_escape (suc rounds) [] rest h = refl
read_text-json_escape (suc rounds) (c ∷ t) rest h =
    ap (read_text (suc rounds)) (append_assoc (escape_byte c) (json_escape t) (b'"' ∷ rest))
    ∙ read_text_step rounds c (escape_byte c ++ (json_escape t ++ b'"' ∷ rest))
        (json_escape t ++ b'"' ∷ rest) (read-escape_byte c (json_escape t ++ b'"' ∷ rest))
    ∙ ap (Option.map (λ r. (c ∷ r.0, r.1))) (read_text-json_escape rounds t rest (omega arith))

read_raw-append :
    (t rest : List ℕ) → All (λ d. ends d ≡ false) t → Ended rest → read_raw (t ++ rest) ≡ (t, rest)
unfolding read_raw
read_raw-append [] [] a e = elim e [ ]
read_raw-append [] (c ∷ rest) a e = ground (arith, e)
read_raw-append (c ∷ t) rest a e = ground (arith, a.0, read_raw-append t rest a.1 e)

read-print_value :
    (rounds : ℕ) (v : Value) (rest : List ℕ)
    → IsReadable rounds v
    → Ended rest
    → read_value rounds (print_value v ++ rest) ≡ some (v, rest)
unfolding read_value print_value quote_json
read-print_value rounds (text t) rest h e =
    ap (read_value rounds) (ap (λ s. b'"' ∷ s) (append_assoc (json_escape t) (b'"' ∷ []) rest))
    ∙ ap (Option.map (λ r. (text r.0, r.1))) (read_text-json_escape rounds t rest h)
read-print_value rounds (raw []) rest h e = elim h [ ]
read-print_value rounds (raw (c ∷ t)) rest h e =
    ground (arith, h.0, read_raw-append (c ∷ t) rest h.1 e)

read-print_member :
    (rounds : ℕ) (m : Member) (rest : List ℕ)
    → Fits rounds m
    → Ended rest
    → read_member rounds (print_member m ++ rest) ≡ some (m, rest)
unfolding read_member print_member quote_json
read-print_member rounds (name, v) rest h e = simp (
  append_assoc,
  read_text-json_escape rounds name (b':' ∷ (print_value v ++ rest)) h.0,
  read-print_value rounds v rest h.1 e,
)

print_rest-Ended : (ms : List Member) (rest : List ℕ) → Ended (print_rest ms ++ rest)
unfolding print_rest
print_rest-Ended [] rest = refl
print_rest-Ended (m ∷ ms) rest = refl

read_rest_step :
    (members rounds : ℕ) (m : Member) (s rest : List ℕ)
    → read_member rounds s ≡ some (m, rest)
    → read_rest (suc members) rounds (b',' ∷ s)
      ≡ Option.map (λ r. (m ∷ r.0, r.1)) (read_rest members rounds rest)
unfolding read_rest
read_rest_step members rounds m s rest h = ground (arith, h)

read-print_rest :
    (members rounds : ℕ) (ms : List Member) (rest : List ℕ)
    → length ms < members
    → All (Fits rounds) ms
    → read_rest members rounds (print_rest ms ++ rest) ≡ some (ms, rest)
unfolding read_rest print_rest
read-print_rest zero rounds ms rest h a = elim h [ ]
read-print_rest (suc members) rounds [] rest h a = refl
read-print_rest (suc members) rounds (m ∷ ms) rest h a =
    ap (λ s. read_rest (suc members) rounds (b',' ∷ s))
      (append_assoc (print_member m) (print_rest ms) rest)
    ∙ read_rest_step members rounds m (print_member m ++ (print_rest ms ++ rest))
        (print_rest ms ++ rest)
        (read-print_member rounds m (print_rest ms ++ rest) a.0 (print_rest-Ended ms rest))
    ∙ ap (Option.map (λ r. (m ∷ r.0, r.1)))
        (read-print_rest members rounds ms rest (omega arith) a.1)

read_object_step :
    (members rounds : ℕ) (m : Member) (ms : List Member) (s s2 s3 : List ℕ)
    → read_member rounds s ≡ some (m, s2)
    → read_rest members rounds s2 ≡ some (ms, s3)
    → read_object members rounds (b'{' ∷ s) ≡ some (m ∷ ms, s3)
unfolding read_object
read_object_step members rounds m ms s s2 s3 h k = ground (arith, h, k)

-- An object that is printed is read as its members, whatever follows it.
pub read-print_object :
    (members rounds : ℕ) (m : Member) (ms : List Member) (rest : List ℕ)
    → length ms < members
    → Fits rounds m
    → All (Fits rounds) ms
    → read_object members rounds (print_object m ms ++ rest) ≡ some (m ∷ ms, rest)
unfolding print_object
read-print_object members rounds m ms rest h f a =
    ap (λ s. read_object members rounds (b'{' ∷ s))
      (append_assoc (print_member m) (print_rest ms) rest)
    ∙ read_object_step members rounds m ms (print_member m ++ (print_rest ms ++ rest))
        (print_rest ms ++ rest) rest
        (read-print_member rounds m (print_rest ms ++ rest) f (print_rest-Ended ms rest))
        (read-print_rest members rounds ms rest h a)
