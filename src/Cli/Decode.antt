-- ===== src/Cli/Decode.antt =====
-- `printablePreview`, `decodeUnknownField`, `decodeRawProtobuf`, `unknownFieldWireType`,
-- `unknownFieldJsonValue` and `fieldsJson` of tools/rf_trans.cc. The fields without a schema and
-- `ParseFromString`, which reads them of bytes, are of the protobuf library: the parser is a parameter.
-- A decoding that runs out of rounds is `none`.
use rf_trans_v.Base.{
  ◌+◌, ◌++◌, ◌||◌, ◌&&◌, ℕ, zero, suc, String, Option, none, some, List, [], ◌∷◌, ◌==◌, ltb, leb,
  if◌then◌else◌, length, is_empty,
}
use mathlib.Core.Option.{map}
use rf_trans_v.Cli.Json.{quote_json}
use rf_trans_v.Cli.Print.{codes, decimal}

-- `UnknownField` and `UnknownFieldSet`
mutual
  pub data Field : Type 0 where
    varint fixed32 fixed64 : ℕ → ℕ → Field
    delimited : ℕ → List ℕ → Field
    group : ℕ → Fields → Field

  pub data Fields : Type 0 where
    no_fields : Fields
    cons_field : Field → Fields → Fields

abbrev pub number_of : Field → ℕ
number_of (varint n v) = n
number_of (fixed32 n v) = n
number_of (fixed64 n v) = n
number_of (delimited n bytes) = n
number_of (group n fs) = n

-- the bytes that fields take at least: one for each, and those of texts
unfoldable mutual
  pub weight : Field → ℕ
  weight (varint n v) = 1
  weight (fixed32 n v) = 1
  weight (fixed64 n v) = 1
  weight (delimited n bytes) = suc (length bytes)
  weight (group n fs) = suc (weights fs)

  pub weights : Fields → ℕ
  weights no_fields = 0
  weights (cons_field f fs) = weight f + weights fs

unfoldable pub preview_char : ℕ → List ℕ
preview_char c =
    if c == b'"' || c == b'\\'
    then b'\\' ∷ c ∷ []
    else if leb 32 c && ltb c 127
    then c ∷ []
    else b'.' ∷ []

-- the loop over the first `left` characters
unfoldable pub preview : ℕ → List ℕ → List ℕ
unfolding preview_char
preview zero s = []
preview (suc left) [] = []
preview (suc left) (c ∷ s) = preview_char c ++ preview left s

abbrev pub max_len : ℕ
max_len = 64

unfoldable pub printable_preview : List ℕ → List ℕ
unfolding preview decimal
printable_preview value =
    b'"'
    ∷ (preview max_len value
        ++ b'"'
          ∷ (if ltb max_len (length value)
              then codes "...(" ++ (decimal (length value) ++ codes "B)")
              else []))

abbrev pub both : Option (List ℕ) → Option (List ℕ) → Option (List ℕ)
both none b = none
both (some a) none = none
both (some a) (some b) = some (a ++ b)

-- the loops over fields, with a separator before each but the first
unfoldable pub more_fields : ℕ → (Field → Option (List ℕ)) → Fields → Option (List ℕ)
more_fields sep show no_fields = some []
more_fields sep show (cons_field f fs) =
    both (some (sep ∷ [])) (both (show f) (more_fields sep show fs))

unfoldable pub joined : ℕ → (Field → Option (List ℕ)) → Fields → Option (List ℕ)
unfolding more_fields
joined sep show no_fields = some []
joined sep show (cons_field f fs) = both (show f) (more_fields sep show fs)

abbrev pub braces : Option (List ℕ) → Option (List ℕ)
braces inside = both (some (b'{' ∷ [])) (both inside (some (b'}' ∷ [])))

abbrev pub numbered : ℕ → Option (List ℕ) → Option (List ℕ)
numbered n value = both (some (decimal n ++ b':' ∷ [])) value

unfoldable pub wire_type : Field → String
wire_type (varint n v) = "varint"
wire_type (fixed32 n v) = "fixed32"
wire_type (fixed64 n v) = "fixed64"
wire_type (delimited n bytes) = "length_delimited"
wire_type (group n fs) = "group"

-- the members of a field before its value
unfoldable pub field_head : Field → List ℕ
unfolding quote_json decimal wire_type
field_head f =
    codes "{\"number\":"
    ++ (decimal (number_of f)
        ++ (codes ",\"wire_type\":" ++ (quote_json (codes (wire_type f)) ++ codes ",\"value\":")))

module _ (parse : List ℕ → Option Fields) where
  unfoldable pub decode_unknown_field : ℕ → Field → Option (List ℕ)
  unfolding joined decimal printable_preview
  decode_unknown_field zero f = none
  decode_unknown_field (suc rounds) (varint n v) = numbered n (some (decimal v))
  decode_unknown_field (suc rounds) (fixed32 n v) = numbered n (some (decimal v))
  decode_unknown_field (suc rounds) (fixed64 n v) = numbered n (some (decimal v))
  decode_unknown_field (suc rounds) (delimited n bytes) = numbered n (elim (parse bytes) [
    | none ↦ some (printable_preview bytes)
    | some nested ↦
        if is_empty bytes
        then some (printable_preview bytes)
        else braces (joined b' ' (decode_unknown_field rounds) nested)
  ])
  decode_unknown_field (suc rounds) (group n fs) =
      numbered n (braces (joined b' ' (decode_unknown_field rounds) fs))

  unfoldable pub decode_raw_protobuf : List ℕ → Option (List ℕ)
  unfolding decode_unknown_field joined
  decode_raw_protobuf raw_data =
      if is_empty raw_data then some (codes "<undecodable>") else elim (parse raw_data) [
        | none ↦ some (codes "<undecodable>")
        | some fields ↦ joined b' ' (decode_unknown_field (length raw_data)) fields
      ]

  unfoldable pub json_value : ℕ → Field → Option (List ℕ)
  unfolding decode_unknown_field quote_json printable_preview decimal
  json_value rounds (varint n v) = some (decimal v)
  json_value rounds (fixed32 n v) = some (decimal v)
  json_value rounds (fixed64 n v) = some (decimal v)
  json_value rounds (delimited n bytes) = some (quote_json (printable_preview bytes))
  json_value rounds (group n fs) = map quote_json (decode_unknown_field rounds (group n fs))

  unfoldable pub field_json : ℕ → Field → Option (List ℕ)
  unfolding json_value field_head
  field_json rounds f = both (some (field_head f)) (both (json_value rounds f) (some (codes "}")))

  unfoldable pub fields_json : List ℕ → Option (List ℕ)
  unfolding field_json joined
  fields_json raw_data = if is_empty raw_data then some (codes "[]") else elim (parse raw_data) [
    | none ↦ some (codes "[]")
    | some fields ↦
        both (some (b'[' ∷ []))
          (both (joined b',' (field_json (length raw_data)) fields) (some (b']' ∷ [])))
  ]
