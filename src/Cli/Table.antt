-- ===== src/Cli/Table.antt =====
-- The tables and the details of tools/rf_trans.cc: `printMessageTable`, `printServiceTable`,
-- `printMessageDetails` and `printServiceDetails`. The columns of a table but the last are a list of
-- their headings and of the text that each shows of an endpoint.
pub mod Aligned
use rf_trans_v.Base.{
  ◌≡◌, refl, ◌≤◌, ◌-◌, ◌+◌, ◌++◌, ◌∙◌, ap, ℕ, zero, suc, max, String, List, [], ◌∷◌, arith, str_eq,
  Bool-cases, inl, inr, if◌then◌else◌, length, length-append, replicate, All,
}
use rf_trans_v.Cli.Endpoints.{MessageEndpointInfo, ServiceEndpointInfo}
use rf_trans_v.Cli.Print.{codes, decimal, scope_name, process_display_name}

-- a text behind `std::left << std::setw(width)`
unfoldable pub padded : ℕ → List ℕ → List ℕ
padded width t = t ++ replicate (width - length t) b' '

abbrev pub gap : List ℕ
gap = b' ' ∷ b' ' ∷ []

abbrev pub Column : Type 0 → Type 0
Column E = String × (E → String)

-- the cell of the event, where there is one
unfoldable pub event_cell : String → String → List ℕ
unfolding padded
event_cell event t = if str_eq event "" then [] else padded 7 (codes t) ++ gap

module _ {E : Type 0} where
  -- `longest`
  unfoldable pub longest : ℕ → (E → String) → List E → ℕ
  longest width get [] = width
  longest width get (e ∷ es) = longest (max width (length (codes (get e)))) get es

  abbrev pub width_of : Column E → List E → ℕ
  width_of c es = longest (length (codes c.0)) c.1 es

  -- the padded cells before the last, each with the gap behind it
  unfoldable pub cells : List (Column E) → List E → (Column E → String) → List ℕ
  unfolding longest padded
  cells [] es show = []
  cells (c ∷ cs) es show = padded (width_of c es) (codes (show c)) ++ (gap ++ cells cs es show)

  abbrev pub heading_front : List (Column E) → String → List E → List ℕ
  heading_front cs event es = event_cell event "EVENT" ++ cells cs es (λ c. c.0)

  abbrev pub row_front : List (Column E) → String → List E → E → List ℕ
  row_front cs event es e = event_cell event event ++ cells cs es (λ c. c.1 e)

  -- the loop over the endpoints that are left
  unfoldable pub rows : List (Column E) → (E → String) → String → List E → List E → List ℕ
  unfolding cells event_cell padded longest process_display_name
  rows cs name event es [] = []
  rows cs name event es (e ∷ left) =
      row_front cs event es e
      ++ (padded (width_of ("PROCESS", λ x. process_display_name (name x)) es)
            (codes (process_display_name (name e)))
          ++ 10 ∷ rows cs name event es left)

  unfoldable pub print_table : List (Column E) → (E → String) → String → List E → List ℕ
  unfolding rows cells event_cell
  print_table cs name event es =
      heading_front cs event es ++ (codes "PROCESS" ++ 10 ∷ rows cs name event es es)

abbrev pub message_columns : List (Column MessageEndpointInfo)
message_columns =
    ("TOPIC", λ e. e.topic)
    ∷ ("TYPE", λ e. e.message_type)
    ∷ ("ADDRESS", λ e. e.address)
    ∷ ("SCOPE", λ e. scope_name e.scope)
    ∷ []

unfoldable pub message_table : String → List MessageEndpointInfo → List ℕ
unfolding print_table scope_name
message_table event es = print_table message_columns (λ e. e.process_name) event es

abbrev pub service_columns : List (Column ServiceEndpointInfo)
service_columns =
    ("TOPIC", λ e. e.topic)
    ∷ ("REQUEST TYPE", λ e. e.request_type)
    ∷ ("RESPONSE TYPE", λ e. e.response_type)
    ∷ ("SCOPE", λ e. scope_name e.scope)
    ∷ ("ADDRESS", λ e. e.address)
    ∷ []

unfoldable pub service_table : String → List ServiceEndpointInfo → List ℕ
unfolding print_table scope_name
service_table event es = print_table service_columns (λ e. e.process_name) event es

-- a line of the details, and what follows it
abbrev pub detail : String → List ℕ → List ℕ → List ℕ
detail label value rest = codes label ++ (codes ": " ++ (value ++ 10 ∷ rest))

unfoldable pub message_details : List MessageEndpointInfo → List ℕ
unfolding scope_name decimal
message_details [] = []
message_details (e ∷ es) = detail "TOPIC" (codes e.topic) (
    detail "MESSAGE_TYPE" (codes e.message_type) (
      detail "ADDRESS" (codes e.address) (
        detail "CONTROL_ID" (codes e.control_id) (
          detail "PROCESS_NAME" (codes e.process_name) (
            detail "NODE_UUID" (codes e.node_uuid) (
              detail "SCOPE" (codes (scope_name e.scope)) (
                detail "MESSAGES_PER_SECOND"
                  (if e.throttled then decimal e.messages_per_second else codes "unlimited")
                  (10 ∷ message_details es))))))))

unfoldable pub service_details : List ServiceEndpointInfo → List ℕ
unfolding scope_name
service_details [] = []
service_details (e ∷ es) = detail "TOPIC" (codes e.topic) (
    detail "REQUEST_TYPE" (codes e.request_type) (
      detail "RESPONSE_TYPE" (codes e.response_type) (
        detail "ADDRESS" (codes e.address) (
          detail "SOCKET_ID" (codes e.socket_id) (
            detail "PROCESS_NAME" (codes e.process_name) (
              detail "NODE_UUID" (codes e.node_uuid)
                (detail "SCOPE" (codes (scope_name e.scope)) (10 ∷ service_details es))))))))
