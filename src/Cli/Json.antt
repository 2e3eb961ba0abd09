-- ===== src/Cli/Json.antt =====
-- `jsonEscape` and `quoteJson` of tools/rf_trans.cc, over bytes.
use rf_trans_v.Base.{
  ◌≡◌, ◌+◌, ◌*◌, ◌/◌, ◌%◌, ◌-◌, ◌<◌, ◌++◌, ◌∙◌, ap, refl, ℕ, zero, suc, ◌&&◌, ◌||◌, Option, none,
  some, List, [], ◌∷◌, arith, ltb, ◌==◌, if◌then◌else◌, length,
}
use mathlib.Core.Option.{map}

-- a digit as `std::hex` prints it
unfoldable pub hex_digit : ℕ → ℕ
hex_digit d = if ltb d 10 then b'0' + d else b'a' + (d - 10)

-- what one byte is escaped to
unfoldable pub escape_byte : ℕ → List ℕ
unfolding hex_digit
escape_byte c =
    if c == b'"'
    then b'\\' ∷ b'"' ∷ []
    else if c == b'\\'
    then b'\\' ∷ b'\\' ∷ []
    else if c == 8
    then b'\\' ∷ b'b' ∷ []
    else if c == 12
    then b'\\' ∷ b'f' ∷ []
    else if c == 10
    then b'\\' ∷ b'n' ∷ []
    else if c == 13
    then b'\\' ∷ b'r' ∷ []
    else if c == 9
    then b'\\' ∷ b't' ∷ []
    else if ltb c 32
    then b'\\' ∷ b'u' ∷ b'0' ∷ b'0' ∷ hex_digit (c / 16) ∷ hex_digit (c % 16) ∷ []
    else c ∷ []

unfoldable pub json_escape : List ℕ → List ℕ
unfolding escape_byte
json_escape [] = []
json_escape (c ∷ value) = escape_byte c ++ json_escape value

unfoldable pub quote_json : List ℕ → List ℕ
unfolding json_escape
quote_json value = b'"' ∷ (json_escape value ++ b'"' ∷ [])

-- The number of a lower-case hexadecimal digit.
unfoldable pub digit_of : ℕ → ℕ
digit_of d = if ltb d b'a' then d - b'0' else d - b'a' + 10

-- What a reader of JSON makes of the letter after a backslash, other than `u`.
unfoldable pub letter_of : ℕ → Option ℕ
letter_of c =
    if c == b'"'
    then some b'"'
    else if c == b'\\'
    then some b'\\'
    else if c == b'b'
    then some 8
    else if c == b'f'
    then some 12
    else if c == b'n'
    then some 10
    else if c == b'r'
    then some 13
    else if c == b't'
    then some 9
    else none

-- the four digits after `\u`, for characters below 256
unfoldable pub read_hex : List ℕ → Option (ℕ × List ℕ)
unfolding digit_of
read_hex (a ∷ b ∷ c ∷ d ∷ s) =
    if a == b'0' && b == b'0' then some (digit_of c * 16 + digit_of d, s) else none
read_hex _ = none

unfoldable pub read_escape : List ℕ → Option (ℕ × List ℕ)
unfolding letter_of read_hex
read_escape [] = none
read_escape (d ∷ s) = if d == b'u' then read_hex s else map (λ x. (x, s)) (letter_of d)

-- The first character of the inside of a JSON string, for `\u` only those below 256, and the rest of
-- it; `none` where there is none, as at a bare quote or control character.
unfoldable pub read_char : List ℕ → Option (ℕ × List ℕ)
unfolding read_escape
read_char [] = none
read_char (c ∷ s) =
    if c == b'\\' then read_escape s else if c == b'"' || ltb c 32 then none else some (c, s)

-- The text of a string, read to its end: `rounds` bounds the characters.
unfoldable pub unescape : ℕ → List ℕ → Option (List ℕ)
unfolding read_char
unescape rounds [] = some []
unescape zero (c ∷ s) = none
unescape (suc rounds) (c ∷ s) = elim (read_char (c ∷ s)) [
  | none ↦ none
  | some (d, rest) ↦ map (λ t. d ∷ t) (unescape rounds rest)
]

digit_of-hex_digit : (d : ℕ) → d < 16 → digit_of (hex_digit d) ≡ d
unfolding digit_of hex_digit
digit_of-hex_digit d h = ground (arith, h)

pub read-escape_byte : (c : ℕ) (s : List ℕ) → read_char (escape_byte c ++ s) ≡ some (c, s)
unfolding escape_byte read_char read_escape letter_of read_hex
read-escape_byte c s = ground (arith, digit_of-hex_digit (c / 16), digit_of-hex_digit (c % 16))

unescape_step :
    (rounds d : ℕ) (s rest : List ℕ)
    → read_char s ≡ some (d, rest)
    → unescape (suc rounds) s ≡ map (λ t. d ∷ t) (unescape rounds rest)
unfolding unescape
unescape_step rounds d [] rest h = ground (arith, h)
unescape_step rounds d (c ∷ s) rest h = ground (arith, h)

-- What `jsonEscape` makes of any text is read as that text, by as many characters as it has, without
-- a bare quote or control character.
pub unescape-json_escape :
    (value : List ℕ) → unescape (length value) (json_escape value) ≡ some value
unfolding unescape json_escape
unescape-json_escape [] = refl
unescape-json_escape (c ∷ value) =
    unescape_step (length value) c (escape_byte c ++ json_escape value) (json_escape value)
      (read-escape_byte c (json_escape value))
    ∙ ap (map (λ t. c ∷ t)) (unescape-json_escape value)
