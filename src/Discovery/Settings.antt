-- ===== src/Discovery/Settings.antt =====
-- How an object of include/trans/details/discovery.hpp begins, and its setters. What the
-- constructor does with sockets is left out, and so are the exceptions it throws of them.
use rf_trans_v.Base.{ℕ, String, false, Option, none, []}
use rf_trans_v.Discovery.{Discovery}

module _ {C P : Type 0} where
  -- the default intervals, in milliseconds, and no callback; `start` sets the times
  abbrev pub make_discovery : String → String → String → Discovery C P
  make_discovery process_uuid process_name host_addr = record {
    process_uuid = process_uuid;
    process_name = process_name;
    host_addr = host_addr;
    silence_interval = 3000;
    activity_interval = 200;
    heartbeat_interval = 1000;
    connection_cb = none;
    disconnection_cb = none;
    registration_cb = none;
    unregistration_cb = none;
    known_publishers = [];
    last_seen_by_process = [];
    time_next_heartbeat = 0;
    time_next_activity = 0;
    enabled = false;
    exit = false;
  }

  abbrev pub set_activity_interval : ℕ → Discovery C P → Discovery C P
  set_activity_interval ms d = record d { activity_interval = ms }

  abbrev pub set_heartbeat_interval : ℕ → Discovery C P → Discovery C P
  set_heartbeat_interval ms d = record d { heartbeat_interval = ms }

  abbrev pub set_silence_interval : ℕ → Discovery C P → Discovery C P
  set_silence_interval ms d = record d { silence_interval = ms }

  abbrev pub set_connection_cb : Option C → Discovery C P → Discovery C P
  set_connection_cb cb d = record d { connection_cb = cb }

  abbrev pub set_disconnection_cb : Option C → Discovery C P → Discovery C P
  set_disconnection_cb cb d = record d { disconnection_cb = cb }

  abbrev pub set_registration_cb : Option C → Discovery C P → Discovery C P
  set_registration_cb cb d = record d { registration_cb = cb }

  abbrev pub set_unregistration_cb : Option C → Discovery C P → Discovery C P
  set_unregistration_cb cb d = record d { unregistration_cb = cb }
