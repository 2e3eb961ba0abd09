-- ===== src/Cli/Arguments.antt =====
-- `parseUnsigned` and `parseOptions` of tools/rf_trans.cc; an exception is a value. `std::stoul` is a
-- parameter: the number it reads and whether it reads the whole text, or nothing where it throws.
use text.Mathlib.Text.{starts_with}
use mathlib.Core.List.{append_assoc, append-nil}
use rf_trans_v.Base.{
  ◌≡◌, ◌≤◌, ◌<◌, ◌||◌, ◌++◌, refl, ℕ, String, Bool, true, false, not, Option, none, some, List, [],
  ◌∷◌, arith, str_eq, ltb, ◌==◌, if◌then◌else◌, any_of, All,
}

pub data OutputFormat : Type 0 where
  table json json_lines : OutputFormat

pub record Settings : Type 0 where
  pub host_address : String
  pub multicast_group : String
  pub message_port : ℕ
  pub service_port : ℕ
  pub output : OutputFormat
  pub wait_ms : ℕ
  pub watch_interval_ms : ℕ
  pub prefix : String
  pub positional : List String

-- what `parseOptions` throws
pub data Failure : Type 0 where
  requires_value not_positive out_of_range unknown_option : String → Failure
  bad_output : Failure

pub data Parsed (A : Type 0) : Type 0 where
  ok : A → Parsed A
  failed : Failure → Parsed A

unfoldable pub parse_unsigned : (String → Option (ℕ × Bool)) → String → String → ℕ → Parsed ℕ
parse_unsigned stoul name value max_value = elim (stoul value) [
  | none ↦ failed (not_positive name)
  | some (parsed, whole) ↦
      if not whole || (parsed == 0) || ltb max_value parsed
      then failed (out_of_range name)
      else ok parsed
]

-- the options that take a value
abbrev pub takes_value : String → Bool
takes_value a = any_of (str_eq a) (
    "--output" ∷ "--wait-ms" ∷ "--watch-interval-ms" ∷ "--host-ip" ∷ "--discovery-group"
    ∷ "--message-port" ∷ "--service-port" ∷ "--prefix" ∷ [])

unfoldable pub output_of : String → Parsed OutputFormat
output_of value =
    if str_eq value "table"
    then ok table
    else if str_eq value "json"
    then ok json
    else if str_eq value "jsonl"
    then ok json_lines
    else failed bad_output

abbrev pub with_value : {A : Type 0} → (A → Settings) → Parsed A → Parsed Settings
with_value f (ok a) = ok (f a)
with_value f (failed e) = failed e

unfoldable pub set_option :
    (String → Option (ℕ × Bool)) → String → String → Settings → Parsed Settings
unfolding parse_unsigned output_of
set_option stoul a value o =
    if str_eq a "--output"
    then with_value (λ v. record o { output = v }) (output_of value)
    else if str_eq a "--wait-ms"
    then with_value (λ n. record o { wait_ms = n }) (parse_unsigned stoul a value 600000)
    else if str_eq a "--watch-interval-ms"
    then with_value (λ n. record o { watch_interval_ms = n }) (parse_unsigned stoul a value 600000)
    else if str_eq a "--host-ip"
    then ok (record o { host_address = value })
    else if str_eq a "--discovery-group"
    then ok (record o { multicast_group = value })
    else if str_eq a "--message-port"
    then with_value (λ n. record o { message_port = n }) (parse_unsigned stoul a value 65535)
    else if str_eq a "--service-port"
    then with_value (λ n. record o { service_port = n }) (parse_unsigned stoul a value 65535)
    else ok (record o { prefix = value })

abbrev pub push_positional : String → Settings → Settings
push_positional a o = record o { positional = o.positional ++ a ∷ [] }

unfoldable pub parse_options :
    (String → Option (ℕ × Bool)) → List String → Settings → Parsed Settings
unfolding set_option
parse_options stoul [] o = ok o
parse_options stoul (a ∷ []) o =
    if takes_value a
    then failed (requires_value a)
    else if starts_with a "--"
    then failed (unknown_option a)
    else ok (push_positional a o)
parse_options stoul (a ∷ v ∷ rest) o =
    let next = parse_options stoul (v ∷ rest) (push_positional a o) in
    let after : Settings → Parsed Settings = λ p. parse_options stoul rest p in
    if takes_value a
    then elim (set_option stoul a v o) [ ok p ↦ after p | failed e ↦ failed e ]
    else if starts_with a "--"
    then failed (unknown_option a)
    else next

-- An argument that is no option.
abbrev pub Plain : String → Type 0
Plain a = (takes_value a ≡ false) × (starts_with a "--" ≡ false)

pub parse-positional :
    (stoul : String → Option (ℕ × Bool)) (args : List String) (o : Settings)
    → All Plain args
    → parse_options stoul args o ≡ ok (record o { positional = o.positional ++ args })
unfolding parse_options
parse-positional stoul [] o plain = ground (arith, append-nil o.positional)
parse-positional stoul (a ∷ []) o plain = ground (arith, plain.0)
parse-positional stoul (a ∷ v ∷ rest) o plain = ground (
  arith,
  plain.0,
  parse-positional stoul (v ∷ rest) (push_positional a o) plain.1,
  append_assoc o.positional (a ∷ []) (v ∷ rest),
)

abbrev pub name_of : OutputFormat → String
name_of table = "table"
name_of json = "json"
name_of json_lines = "jsonl"

-- The arguments that say all settings, over a way to print numbers.
unfoldable pub arguments_of : (ℕ → String) → Settings → List String
arguments_of show o =
    "--output"
    ∷ name_of o.output
    ∷ "--wait-ms"
    ∷ show o.wait_ms
    ∷ "--watch-interval-ms"
    ∷ show o.watch_interval_ms
    ∷ "--host-ip"
    ∷ o.host_address
    ∷ "--discovery-group"
    ∷ o.multicast_group
    ∷ "--message-port"
    ∷ show o.message_port
    ∷ "--service-port"
    ∷ show o.service_port
    ∷ "--prefix"
    ∷ o.prefix
    ∷ o.positional

-- Numbers that `parseOptions` takes.
pub record IsAccepted (o : Settings) : Type 0 where
  pub wait : (0 < o.wait_ms) × (o.wait_ms ≤ 600000)
  pub watch : (0 < o.watch_interval_ms) × (o.watch_interval_ms ≤ 600000)
  pub message : (0 < o.message_port) × (o.message_port ≤ 65535)
  pub service : (0 < o.service_port) × (o.service_port ≤ 65535)

parse_unsigned-show :
    (stoul : String → Option (ℕ × Bool)) (show : ℕ → String) (name : String) (n max_value : ℕ)
    → stoul (show n) ≡ some (n, true)
    → 0 < n
    → n ≤ max_value
    → parse_unsigned stoul name (show n) max_value ≡ ok n
unfolding parse_unsigned
parse_unsigned-show stoul show name n max_value is low high = ground (arith, is, low, high)

output_of-name_of : (f : OutputFormat) → output_of (name_of f) ≡ ok f
unfolding output_of
output_of-name_of table = refl
output_of-name_of json = refl
output_of-name_of json_lines = refl

-- The arguments that say some settings, with numbers in their ranges and positional arguments that
-- are no options, are parsed as these settings, whatever was set before and where no positional
-- argument was, if `std::stoul` reads these four numbers as they are printed.
pub parse-arguments_of :
    (stoul : String → Option (ℕ × Bool)) (show : ℕ → String) (o before : Settings)
    → All
        (λ n. stoul (show n) ≡ some (n, true))
        (o.wait_ms ∷ o.watch_interval_ms ∷ o.message_port ∷ o.service_port ∷ [])
    → IsAccepted o
    → All Plain o.positional
    → before.positional ≡ []
    → parse_options stoul (arguments_of show o) before ≡ ok o
unfolding parse_options arguments_of set_option
parse-arguments_of stoul show o before law v plain none_yet = ground (
  arith,
  none_yet,
  output_of-name_of o.output,
  parse_unsigned-show stoul show "--wait-ms" o.wait_ms 600000 law.0 v.wait.0 v.wait.1,
  parse_unsigned-show stoul show "--watch-interval-ms" o.watch_interval_ms 600000 law.1.0 v.watch.0
      v.watch.1,
  parse_unsigned-show stoul show "--message-port" o.message_port 65535 law.1.1.0 v.message.0
      v.message.1,
  parse_unsigned-show stoul show "--service-port" o.service_port 65535 law.1.1.1.0 v.service.0
      v.service.1,
  parse-positional stoul o.positional (record o { positional = [] }) plain,
)
