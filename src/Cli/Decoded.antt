-- ===== src/Cli/Decoded.antt =====
-- What is printed of fields without a schema is made within the rounds that it is given.
use rf_trans_v.Base.{
  ◌≡◌, refl, ◌≤◌, ◌++◌, ℕ, zero, suc, Option, some, List, [], ◌∷◌, arith, length, is_empty,
  Option-cases, Bool-cases, inl, inr,
}
use rf_trans_v.Cli.Json.{quote_json}
use rf_trans_v.Cli.Print.{codes, decimal}
use rf_trans_v.Cli.Decode.{
  Field, Fields, varint, fixed32, fixed64, delimited, group, no_fields, cons_field, weight, weights,
  printable_preview, both, more_fields, joined, braces, numbered, field_head, decode_unknown_field,
  decode_raw_protobuf, json_value, field_json, fields_json,
}

-- The text is made: the rounds do not run out.
abbrev pub Ends : Option (List ℕ) → Type 0
Ends t = (text : List ℕ) × (t ≡ some text)

both-Ends : {a b : Option (List ℕ)} → Ends a → Ends b → Ends (both a b)
both-Ends (x, p) (y, q) = (x ++ y, ground (arith, p, q))

more-Ends :
    (sep : ℕ) (show : Field → Option (List ℕ)) (rounds : ℕ)
    → ((f : Field) → weight f ≤ rounds → Ends (show f))
    → (fs : Fields) → weights fs ≤ rounds
    → Ends (more_fields sep show fs)
unfolding more_fields weights
more-Ends sep show rounds each no_fields h = ([], refl)
more-Ends sep show rounds each (cons_field f fs) h =
    both-Ends (sep ∷ [], refl)
      (both-Ends (each f (omega arith)) (more-Ends sep show rounds each fs (omega arith)))

joined-Ends :
    (sep : ℕ) (show : Field → Option (List ℕ)) (rounds : ℕ)
    → ((f : Field) → weight f ≤ rounds → Ends (show f))
    → (fs : Fields) → weights fs ≤ rounds
    → Ends (joined sep show fs)
unfolding joined weights
joined-Ends sep show rounds each no_fields h = ([], refl)
joined-Ends sep show rounds each (cons_field f fs) h =
    both-Ends (each f (omega arith)) (more-Ends sep show rounds each fs (omega arith))

braces-Ends : {t : Option (List ℕ)} → Ends t → Ends (braces t)
braces-Ends e = both-Ends (b'{' ∷ [], refl) (both-Ends e (b'}' ∷ [], refl))

numbered-Ends : (n : ℕ) {t : Option (List ℕ)} → Ends t → Ends (numbered n t)
numbered-Ends n e = both-Ends (decimal n ++ b':' ∷ [], refl) e

-- what the library's parser promises: a field takes its tag, and a text its bytes
module _ (parse : List ℕ → Option Fields)
    (fits : (bytes : List ℕ) (fs : Fields)
      → parse bytes ≡ some fs
      → weights fs ≤ length bytes) where
  decode-Ends :
      (rounds : ℕ) (f : Field) → weight f ≤ rounds → Ends (decode_unknown_field parse rounds f)
  unfolding decode_unknown_field weight
  decode-Ends zero (varint n v) h = absurd (omega arith)
  decode-Ends zero (fixed32 n v) h = absurd (omega arith)
  decode-Ends zero (fixed64 n v) h = absurd (omega arith)
  decode-Ends zero (delimited n bytes) h = absurd (omega arith)
  decode-Ends zero (group n fs) h = absurd (omega arith)
  decode-Ends (suc rounds) (varint n v) h = (_, refl)
  decode-Ends (suc rounds) (fixed32 n v) h = (_, refl)
  decode-Ends (suc rounds) (fixed64 n v) h = (_, refl)
  decode-Ends (suc rounds) (delimited n bytes) h = elim (Option-cases (parse bytes)) [
    | inl e ↦ rw e (numbered-Ends n (printable_preview bytes, refl))
    | inr (fs, e) ↦ elim (Bool-cases (is_empty bytes)) [
      | inl b ↦ rw (e, b) (numbered-Ends n (printable_preview bytes, refl))
      | inr b ↦
          rw (e, b)
            (numbered-Ends n (
              braces-Ends (
                joined-Ends b' ' (decode_unknown_field parse rounds) rounds (decode-Ends rounds) fs
                  (omega (arith, fits bytes fs e)))))
    ]
  ]
  decode-Ends (suc rounds) (group n fs) h = numbered-Ends n (
      braces-Ends (
        joined-Ends b' ' (decode_unknown_field parse rounds) rounds (decode-Ends rounds) fs
          (omega arith)))

  json_value-Ends : (rounds : ℕ) (f : Field) → weight f ≤ rounds → Ends (json_value parse rounds f)
  unfolding json_value
  json_value-Ends rounds (varint n v) h = (_, refl)
  json_value-Ends rounds (fixed32 n v) h = (_, refl)
  json_value-Ends rounds (fixed64 n v) h = (_, refl)
  json_value-Ends rounds (delimited n bytes) h = (_, refl)
  json_value-Ends rounds (group n fs) h =
      let (t, e) = decode-Ends rounds (group n fs) h in (quote_json t, ground (arith, e))

  field_json-Ends : (rounds : ℕ) (f : Field) → weight f ≤ rounds → Ends (field_json parse rounds f)
  unfolding field_json
  field_json-Ends rounds f h =
      both-Ends (field_head f, refl) (both-Ends (json_value-Ends rounds f h) (codes "}", refl))

  -- For a parser whose fields are no larger than what they were read from, the decoding of any
  -- message ends, as text and as JSON, however deep messages are nested in it: one round for each
  -- byte is enough.
  pub decode-ends :
      (raw_data : List ℕ)
      → Ends (decode_raw_protobuf parse raw_data) × Ends (fields_json parse raw_data)
  unfolding decode_raw_protobuf fields_json
  decode-ends raw_data = elim (Bool-cases (is_empty raw_data)) [
    | inl b ↦ rw b ((_, refl), (_, refl))
    | inr b ↦ elim (Option-cases (parse raw_data)) [
      | inl e ↦ rw (b, e) ((_, refl), (_, refl))
      | inr (fs, e) ↦
          let n = length raw_data in
          rw (b, e)
            (
              joined-Ends b' ' (decode_unknown_field parse n) n (decode-Ends n) fs
                  (fits raw_data fs e),
              both-Ends (b'[' ∷ [], refl)
                  (both-Ends
                    (joined-Ends b',' (field_json parse n) n (field_json-Ends n) fs
                      (fits raw_data fs e))
                    (_, refl)),
            )
    ]
  ]
