-- ===== src/Cli/Command.antt =====
-- `run` and `main` of tools/rf_trans.cc. What the observer of
-- discovery sees is an argument, and so are the snapshots of a watch and the messages of a sniff until
-- a signal stops it. The usage and the messages on the standard error are left out, but for the exit
-- status; an exception is a value. Discovery that cannot be initialized, when the observer or the
-- sniffer is made, is `none`.
use rf_trans_v.Base.{
  ◌++◌, ◌||◌, ◌&&◌, ℕ, String, Bool, true, false, not, Option, none, some, List, [], ◌∷◌, map,
  str_eq, if◌then◌else◌, any_of, length, is_empty,
}
use rf_trans_v.Cli.Arguments.{
  Settings, OutputFormat, table, json, json_lines, ok, failed, parse_options,
}
use rf_trans_v.Cli.Endpoints.{
  MessageEndpointInfo, ServiceEndpointInfo, filter_by_prefix, filter_by_topic,
}
use rf_trans_v.Cli.Json.{quote_json}
use rf_trans_v.Cli.Print.{codes, decimal}
use rf_trans_v.Cli.Table.{message_details, service_details}
use rf_trans_v.Cli.Decode.{Fields}
use rf_trans_v.Cli.Sniffer.{SniffedMessage}
use rf_trans_v.Cli.Output.{
  print_messages, print_services, watch_endpoints, message_key, service_key, sniff,
}

-- What the observer and the sniffer deliver: the endpoints of the first snapshot, those of the
-- snapshots after it, and the messages, if the sniffer can be made.
pub record Observed : Type 0 where
  pub host_address : String
  pub messages : List MessageEndpointInfo
  pub services : List ServiceEndpointInfo
  pub later_messages : List (List MessageEndpointInfo)
  pub later_services : List (List ServiceEndpointInfo)
  pub sniffed : Option (List SniffedMessage)

pub data Misuse : Type 0 where
  doctor_takes_no_arguments watch_requires_topics_or_services : Misuse
  requires_list_or_info action_must_be_list_or_info : String → Misuse
  list_takes_no_topic info_requires_topic unknown_command : String → Misuse

-- The exit status, and the output; `none` where a decoding runs out of rounds. A `std::runtime_error`
-- of the initialization of discovery is `broken`.
pub data Outcome : Type 0 where
  finished : ℕ → Option (List ℕ) → Outcome
  misused : Misuse → Outcome
  broken : Outcome

-- kExitUsage, kExitNotFound and kExitRuntime
abbrev pub exit_usage : ℕ
exit_usage = 2

abbrev pub exit_not_found : ℕ
exit_not_found = 3

abbrev pub exit_runtime : ℕ
exit_runtime = 4

-- the arguments of `topic` after which it sniffs
unfoldable pub is_sniff : List String → Bool
is_sniff (action ∷ topic ∷ []) = str_eq action "sniff"
is_sniff _ = false

-- The checks of `topic` and `service`, before `list` or `info` of a topic.
unfoldable pub list_or_info : String → List String → Outcome → (String → Outcome) → Outcome
list_or_info command [] list info = misused (requires_list_or_info command)
list_or_info command (action ∷ []) list info =
    if not (str_eq action "list") && not (str_eq action "info")
    then misused (action_must_be_list_or_info command)
    else if str_eq action "list"
    then list
    else misused (info_requires_topic command)
list_or_info command (action ∷ topic ∷ []) list info =
    if not (str_eq action "list") && not (str_eq action "info")
    then misused (action_must_be_list_or_info command)
    else if str_eq action "list"
    then misused (list_takes_no_topic command)
    else info topic
list_or_info command (action ∷ topic ∷ next ∷ more) list info =
    misused (requires_list_or_info command)

abbrev pub is_table : OutputFormat → Bool
is_table table = true
is_table json = false
is_table json_lines = false

unfoldable pub list_messages : Settings → Observed → Outcome
unfolding print_messages filter_by_prefix
list_messages s o =
    finished 0
      (some (print_messages s.output "" (filter_by_prefix (λ e. e.topic) s.prefix o.messages)))

unfoldable pub info_messages : Settings → Observed → String → Outcome
unfolding print_messages filter_by_prefix filter_by_topic message_details
info_messages s o topic =
    let es =
      filter_by_topic (λ e. e.topic) topic (filter_by_prefix (λ e. e.topic) s.prefix o.messages) in
    finished (if is_empty es then exit_not_found else 0)
      (some (if is_table s.output then message_details es else print_messages s.output "" es))

unfoldable pub list_services : Settings → Observed → Outcome
unfolding print_services filter_by_prefix
list_services s o =
    finished 0
      (some (print_services s.output "" (filter_by_prefix (λ e. e.topic) s.prefix o.services)))

unfoldable pub info_services : Settings → Observed → String → Outcome
unfolding print_services filter_by_prefix filter_by_topic service_details
info_services s o topic =
    let es =
      filter_by_topic (λ e. e.topic) topic (filter_by_prefix (λ e. e.topic) s.prefix o.services) in
    finished (if is_empty es then exit_not_found else 0)
      (some (if is_table s.output then service_details es else print_services s.output "" es))

-- the report of `doctor`
unfoldable pub doctor : Settings → Observed → List ℕ
unfolding filter_by_prefix decimal quote_json
doctor s o =
    let messages = decimal (length (filter_by_prefix (λ e. e.topic) s.prefix o.messages)) in
    let services = decimal (length (filter_by_prefix (λ e. e.topic) s.prefix o.services)) in
    if is_table s.output
    then codes "HOST_ADDRESS: "
      ++ (codes o.host_address
          ++ (codes "\nMULTICAST_GROUP: "
              ++ (codes s.multicast_group
                  ++ (codes "\nMESSAGE_PORT: "
                      ++ (decimal s.message_port
                          ++ (codes "\nSERVICE_PORT: "
                              ++ (decimal s.service_port
                                  ++ (codes "\nDISCOVERY_WINDOW_MS: "
                                      ++ (decimal s.wait_ms
                                          ++ (codes "\nMESSAGE_ENDPOINTS: "
                                              ++ (messages
                                                  ++ (codes "\nSERVICE_ENDPOINTS: "
                                                      ++ (services ++ 10 ∷ [])))))))))))))
    else codes "{\"host_address\":"
      ++ (quote_json (codes o.host_address)
          ++ (codes ",\"multicast_group\":"
              ++ (quote_json (codes s.multicast_group)
                  ++ (codes ",\"message_port\":"
                      ++ (decimal s.message_port
                          ++ (codes ",\"service_port\":"
                              ++ (decimal s.service_port
                                  ++ (codes ",\"discovery_window_ms\":"
                                      ++ (decimal s.wait_ms
                                          ++ (codes ",\"message_endpoints\":"
                                              ++ (messages
                                                  ++ (codes ",\"service_endpoints\":"
                                                      ++ (services ++ codes "}\n")))))))))))))

unfoldable pub watch : List String → Settings → Observed → Outcome
unfolding watch_endpoints filter_by_prefix print_messages print_services
watch (what ∷ []) s o =
    if str_eq what "topics"
    then finished 0 (
        some (
          watch_endpoints message_key (print_messages s.output)
            (filter_by_prefix (λ e. e.topic) s.prefix o.messages)
            (map (filter_by_prefix (λ e. e.topic) s.prefix) o.later_messages)))
    else if str_eq what "services"
    then finished 0 (
        some (
          watch_endpoints service_key (print_services s.output)
            (filter_by_prefix (λ e. e.topic) s.prefix o.services)
            (map (filter_by_prefix (λ e. e.topic) s.prefix) o.later_services)))
    else misused watch_requires_topics_or_services
watch _ s o = misused watch_requires_topics_or_services

abbrev pub asks_help : String → Bool
asks_help a = str_eq a "--help" || str_eq a "-h"

module _ (parse : List ℕ → Option Fields) where
  unfoldable pub run_command : String → List String → Settings → Observed → Outcome
  unfolding doctor is_sniff sniff list_or_info list_messages info_messages list_services
      info_services watch
  run_command command args s o =
      if str_eq command "doctor"
      then (if is_empty args
          then finished 0 (some (doctor s o))
          else misused doctor_takes_no_arguments)
      else if str_eq command "topic" && is_sniff args
      then elim o.sniffed [
        | none ↦ broken
        | some messages ↦ finished 0 (sniff parse s.output messages [])
      ]
      else if str_eq command "topic"
      then list_or_info command args (list_messages s o) (info_messages s o)
      else if str_eq command "service"
      then list_or_info command args (list_services s o) (info_services s o)
      else if str_eq command "watch"
      then watch args s o
      else misused (unknown_command command)

  -- The observer is made after the test for a command, and before the command is looked at.
  unfoldable pub run : Settings → Option Observed → Outcome
  unfolding run_command
  run s observer = elim s.positional [
    | [] ↦ finished exit_usage (some [])
    | command ∷ args ↦ elim observer [ none ↦ broken | some o ↦ run_command command args s o ]
  ]

  -- The exit status of `main`, from the options before the arguments.
  unfoldable pub main : (String → Option (ℕ × Bool)) → List String → Settings → Option Observed → ℕ
  unfolding run parse_options
  main stoul args defaults observer =
      if any_of asks_help args then 0 else elim (parse_options stoul args defaults) [
        | failed e ↦ exit_usage
        | ok s ↦ elim (run s observer) [
          | finished exit out ↦ exit
          | misused m ↦ exit_usage
          | broken ↦ exit_runtime
        ]
      ]
