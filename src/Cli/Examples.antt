-- ===== src/Cli/Examples.antt =====
-- The command line tool on a few inputs, and the theorems on it at them.
use rf_trans_v.Base.{
  ◌≡◌, refl, ◌&&◌, String, true, not, none, some, List, [], ◌∷◌, arith, str_eq, All, any_of,
}
use rf_trans_v.Map.{Map, contains}
use rf_trans_v.Cli.Watch.{watch_round, watch_round-keys}
use rf_trans_v.Cli.Arguments.{
  Settings, table, json, failed, requires_value, unknown_option, ok, Plain, IsAccepted,
  parse_options, arguments_of, parse-arguments_of,
}

abbrev key_of : String → String
key_of e = e

abbrev last_round : Map String
last_round = ("/imu", "/imu") ∷ ("/map", "/map") ∷ []

abbrev this_round : List String
this_round = "/imu" ∷ "/gps" ∷ []

watch_round-keys_example :
    let r = watch_round key_of this_round last_round in
    let now = any_of (λ e. str_eq (key_of e) "/gps") this_round in
    (contains "/gps" r.added ≡ now && not (contains "/gps" last_round))
    × (contains "/gps" r.removed ≡ contains "/gps" last_round && not now)
    × (contains "/gps" r.previous ≡ now)
watch_round-keys_example = watch_round-keys key_of "/gps" this_round last_round

abbrev defaults : Settings
defaults = record {
  host_address = "";
  multicast_group = "239.255.0.7";
  message_port = 10319;
  service_port = 10320;
  output = table;
  wait_ms = 1200;
  watch_interval_ms = 500;
  prefix = "";
  positional = [];
}

-- all numbers are as their port
abbrev asked : Settings
asked = record defaults {
  output = json;
  message_port = 7;
  service_port = 7;
  wait_ms = 7;
  watch_interval_ms = 7;
  positional = "topic" ∷ "list" ∷ [];
}

-- an option at the end, and one that is unknown
missing_value :
    parse_options (λ s. none) ("--prefix" ∷ []) defaults ≡ failed (requires_value "--prefix")
unfolding parse_options
missing_value = refl

unknown : parse_options (λ s. none) ("--all" ∷ []) defaults ≡ failed (unknown_option "--all")
unfolding parse_options
unknown = refl

plain : All Plain asked.positional
plain = ((refl, refl), ((refl, refl), tt))

asked-IsAccepted : IsAccepted asked
asked-IsAccepted = record {
  wait = (omega arith, omega arith);
  watch = (omega arith, omega arith);
  message = (omega arith, omega arith);
  service = (omega arith, omega arith);
}

parse-arguments_of_example :
    parse_options (λ s. some (7, true)) (arguments_of (λ n. "7") asked) defaults ≡ ok asked
parse-arguments_of_example =
    parse-arguments_of (λ s. some (7, true)) (λ n. "7") asked defaults
      (refl, (refl, (refl, (refl, tt)))) asked-IsAccepted plain refl
