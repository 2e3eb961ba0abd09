-- ===== src/Cli/Exit.antt =====
-- The exit status of the command line tool (tools/rf_trans.cc).
use rf_trans_v.Base.{
  ◌≡◌, ◌&&◌, ◌++◌, ℕ, String, Bool, false, Option, none, some, List, [], ◌∷◌, arith, str_eq,
  if◌then◌else◌, any_of, All,
}
use rf_trans_v.Cli.Arguments.{Settings, Plain, parse-positional}
use rf_trans_v.Cli.Endpoints.{has_prefix}
use rf_trans_v.Cli.Decode.{Fields}
use rf_trans_v.Cli.Command.{
  Observed, exit_usage, exit_not_found, exit_runtime, asks_help, run_command, run, main,
}

abbrev pub shown : {E : Type 0} → (E → String) → String → String → List E → Bool
shown topic_of prefix topic es =
    any_of (λ e. has_prefix (topic_of e) prefix && str_eq (topic_of e) topic) es

-- the exit status of an `info`, by whether what is seen shows the topic
abbrev pub info_status : (Observed → Bool) → Option Observed → ℕ
info_status sees none = exit_runtime
info_status sees (some o) = if sees o then 0 else exit_not_found

module _ (parse : List ℕ → Option Fields) (stoul : String → Option (ℕ × Bool)) (defaults : Settings)
    (observer : Option Observed) where
  -- A command that is none of the tool's exits with 2, whatever words follow it, once discovery is
  -- initialized.
  pub main-unknown :
      (o : Observed) (command : String) (args : List String)
      → any_of (str_eq command) ("doctor" ∷ "topic" ∷ "service" ∷ "watch" ∷ []) ≡ false
      → All Plain (command ∷ args)
      → any_of asks_help (command ∷ args) ≡ false
      → defaults.positional ≡ []
      → main parse stoul (command ∷ args) defaults (some o) ≡ exit_usage
  unfolding main run run_command
  main-unknown o command args other plain word none_yet =
      let s = record defaults { positional = defaults.positional ++ (command ∷ args) } in
      ground (arith, word, parse-positional stoul (command ∷ args) defaults plain, none_yet, other)
