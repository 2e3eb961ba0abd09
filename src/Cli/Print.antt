-- ===== src/Cli/Print.antt =====
-- `scopeName`, `messageJson`, `serviceJson`, `printMessages` and `printServices` of tools/rf_trans.cc,
-- as JSON. What is printed is a list of characters; a text counts as its code points, which are its
-- bytes where it is ASCII.
use Prim.Native.Char.{code}
use rf_trans_v.Base.{
  ◌+◌, ◌/◌, ◌%◌, ◌++◌, ℕ, zero, suc, String, List, [], ◌∷◌, str_eq, ltb, if◌then◌else◌,
}
use rf_trans_v.Options.{Scope}
use rf_trans_v.Cli.Arguments.{OutputFormat, table, json, json_lines}
use rf_trans_v.Cli.Endpoints.{MessageEndpointInfo, ServiceEndpointInfo}
use rf_trans_v.Cli.Json.{quote_json}

abbrev pub codes : String → List ℕ
codes String.[] = []
codes (String.◌∷◌ c s) = code c ∷ codes s

-- what a stream prints of an unsigned number; `rounds` bounds its digits
unfoldable pub digits : ℕ → ℕ → List ℕ
digits zero n = []
digits (suc rounds) n =
    let front = digits rounds (n / 10) in
    if ltb n 10 then (b'0' + n) ∷ [] else front ++ (b'0' + n % 10) ∷ []

unfoldable pub decimal : ℕ → List ℕ
unfolding digits
decimal n = digits (suc n) n

unfoldable pub scope_name : Scope → String
scope_name Scope.process = "process"
scope_name Scope.host = "host"
scope_name Scope.all = "all"

unfoldable pub process_display_name : String → String
process_display_name name = if str_eq name "" then "unknown" else name

-- A value of an object: a text, which is quoted, or what is printed as it stands.
pub data Value : Type 0 where
  text raw : List ℕ → Value

abbrev pub Member : Type 0
Member = List ℕ × Value

abbrev pub text_member : String → String → Member
text_member name value = (codes name, text (codes value))

unfoldable pub print_value : Value → List ℕ
unfolding quote_json
print_value (text v) = quote_json v
print_value (raw v) = v

unfoldable pub print_member : Member → List ℕ
unfolding quote_json print_value
print_member (name, v) = quote_json name ++ b':' ∷ print_value v

-- the members after the first, each behind a comma, and the end of the object
unfoldable pub print_rest : List Member → List ℕ
unfolding print_member
print_rest [] = b'}' ∷ []
print_rest (m ∷ ms) = b',' ∷ (print_member m ++ print_rest ms)

unfoldable pub print_object : Member → List Member → List ℕ
unfolding print_member print_rest
print_object m ms = b'{' ∷ (print_member m ++ print_rest ms)

abbrev pub event_member : String → List Member
event_member event = if str_eq event "" then [] else text_member "event" event ∷ []

-- what `messageJson` prints after the kind
unfoldable pub message_members : String → MessageEndpointInfo → List Member
unfolding scope_name decimal
message_members event e =
    event_member event
    ++ (text_member "topic" e.topic
        ∷ text_member "address" e.address
        ∷ text_member "control_id" e.control_id
        ∷ text_member "process_name" e.process_name
        ∷ text_member "node_uuid" e.node_uuid
        ∷ text_member "message_type" e.message_type
        ∷ text_member "scope" (scope_name e.scope)
        ∷ (codes "throttled", raw (if e.throttled then codes "true" else codes "false"))
        ∷ (
          codes "messages_per_second",
          raw (if e.throttled then decimal e.messages_per_second else codes "null"),
        )
        ∷ [])

unfoldable pub message_json : String → MessageEndpointInfo → List ℕ
unfolding print_object message_members
message_json event e = print_object (text_member "kind" "message") (message_members event e)

unfoldable pub service_members : String → ServiceEndpointInfo → List Member
unfolding scope_name
service_members event e =
    event_member event
    ++ (text_member "topic" e.topic
        ∷ text_member "address" e.address
        ∷ text_member "socket_id" e.socket_id
        ∷ text_member "process_name" e.process_name
        ∷ text_member "node_uuid" e.node_uuid
        ∷ text_member "request_type" e.request_type
        ∷ text_member "response_type" e.response_type
        ∷ text_member "scope" (scope_name e.scope)
        ∷ [])

unfoldable pub service_json : String → ServiceEndpointInfo → List ℕ
unfolding print_object service_members
service_json event e = print_object (text_member "kind" "service") (service_members event e)

-- The loop that prints the rest of an array, with the index past the first.
unfoldable pub print_items : List (List ℕ) → List ℕ
print_items [] = b']' ∷ 10 ∷ []
print_items (x ∷ xs) = b',' ∷ (x ++ print_items xs)

unfoldable pub print_array : List (List ℕ) → List ℕ
unfolding print_items
print_array [] = b'[' ∷ b']' ∷ 10 ∷ []
print_array (x ∷ xs) = b'[' ∷ (x ++ print_items xs)

unfoldable pub print_lines : List (List ℕ) → List ℕ
print_lines [] = []
print_lines (x ∷ xs) = x ++ 10 ∷ print_lines xs

-- `printMessages` and `printServices`, over the objects and the table of the endpoints
unfoldable pub print_as : OutputFormat → List ℕ → List (List ℕ) → List ℕ
unfolding print_array print_lines
print_as table rows objects = rows
print_as json rows objects = print_array objects
print_as json_lines rows objects = print_lines objects
