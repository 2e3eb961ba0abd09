-- ===== src/Cli/Sniffed.antt =====
-- What the sniffer of src/cli/topic_sniffer.cc connects to, and what it registers and withdraws.
use rf_trans_v.Base.{
  Option, some, ◌≡◌, refl, ◌≤◌, ◌+◌, ◌++◌, ◌∙◌, ap, ℕ, String, true, List, [], ◌∷◌, arith, str_eq,
  eq_iff, eq_refl, if◌then◌else◌,
}
use mathlib.Core.List.{append_assoc, append-nil}
use rf_trans_v.Info.Message.{MessagePublisherInfo}
use rf_trans_v.MessageRuntime.{SocketCall, connects, subscribes, registers, unsubscribes}
use rf_trans_v.Info.Class.{message_pub}
use rf_trans_v.Discovery.{discover}
use rf_trans_v.Discovery.Loop.{start}
use rf_trans_v.Discovery.Settings.{set_connection_cb}
use rf_trans_v.MessageRuntime.Publish.{Frames}
use rf_trans_v.Cli.Sniffer.{
  Answer, refuses, connects_only, takes, Sniffer, connected, on_publisher_found, find_each,
  stop_sniffer, start_sniffer, receive_loop, found_by, publisher_found,
}

-- how often an address is connected
abbrev pub times_connected : String → List SocketCall → ℕ
times_connected addr [] = 0
times_connected addr (connects a ∷ calls) =
    (if str_eq addr a then 1 else 0) + times_connected addr calls
times_connected addr (subscribes t ∷ calls) = times_connected addr calls
times_connected addr (unsubscribes t ∷ calls) = times_connected addr calls
times_connected addr (registers p ∷ calls) = times_connected addr calls

abbrev pub registered_by : List SocketCall → List MessagePublisherInfo
registered_by [] = []
registered_by (registers p ∷ calls) = p ∷ registered_by calls
registered_by (connects a ∷ calls) = registered_by calls
registered_by (subscribes t ∷ calls) = registered_by calls
registered_by (unsubscribes t ∷ calls) = registered_by calls

times-append :
    (addr : String) (a b : List SocketCall)
    → times_connected addr (a ++ b) ≡ times_connected addr a + times_connected addr b
times-append addr [] b = omega arith
times-append addr (connects x ∷ a) b = omega (arith, times-append addr a b)
times-append addr (subscribes t ∷ a) b = times-append addr a b
times-append addr (unsubscribes t ∷ a) b = times-append addr a b
times-append addr (registers p ∷ a) b = times-append addr a b

registered-append :
    (a b : List SocketCall) → registered_by (a ++ b) ≡ registered_by a ++ registered_by b
registered-append [] b = refl
registered-append (connects x ∷ a) b = registered-append a b
registered-append (subscribes t ∷ a) b = registered-append a b
registered-append (unsubscribes t ∷ a) b = registered-append a b
registered-append (registers p ∷ a) b = ap (λ l. p ∷ l) (registered-append a b)

found-registered :
    (answer : Answer) (p : MessagePublisherInfo) (s : Sniffer)
    → (on_publisher_found answer p s).0.registrations
      ≡ s.registrations ++ registered_by (on_publisher_found answer p s).1
unfolding on_publisher_found
found-registered refuses p s = ground (arith, append-nil s.registrations)
found-registered connects_only p s = ground (arith, append-nil s.registrations)
found-registered takes p s = ground (arith, append-nil s.registrations)

find_each-registered :
    (ps : List (MessagePublisherInfo × Answer)) (s : Sniffer)
    → (find_each ps s).0.registrations ≡ s.registrations ++ registered_by (find_each ps s).1
unfolding find_each
find_each-registered [] s = ground (arith, append-nil s.registrations)
find_each-registered ((p, answer) ∷ ps) s =
    let (s1, calls) = on_publisher_found answer p s in
    ground (
      arith,
      found-registered answer p s,
      find_each-registered ps s1,
      registered-append calls (find_each ps s1).1,
      append_assoc s.registrations (registered_by calls) (registered_by (find_each ps s1).1),
    )

-- connections to an address that is in the set, and after a call
found-connected :
    (addr : String) (answer : Answer) (p : MessagePublisherInfo) (s : Sniffer)
    → let (s1, calls) = on_publisher_found answer p s in
      times_connected addr calls + (if connected addr s1.connected_addresses then 0 else 1)
      ≤ (if connected addr s.connected_addresses then 0 else 1)
unfolding on_publisher_found
found-connected addr refuses p s = ground (arith, eq_iff addr p.info.addr)
found-connected addr connects_only p s = ground (arith, eq_iff addr p.info.addr)
found-connected addr takes p s = ground (arith, eq_iff addr p.info.addr)

find_each-connected :
    (addr : String) (ps : List (MessagePublisherInfo × Answer)) (s : Sniffer)
    → times_connected addr (find_each ps s).1
      ≤ (if connected addr s.connected_addresses then 0 else 1)
unfolding find_each
find_each-connected addr [] s = ground arith
find_each-connected addr ((p, answer) ∷ ps) s =
    let (s1, calls) = on_publisher_found answer p s in
    omega (
      arith,
      found-connected addr answer p s,
      find_each-connected addr ps s1,
      times-append addr calls (find_each ps s1).1,
    )

find_each-started :
    (ps : List (MessagePublisherInfo × Answer)) (s : Sniffer)
    → (find_each ps s).0.started ≡ s.started
unfolding find_each on_publisher_found
find_each-started [] s = refl
find_each-started ((p, refuses) ∷ ps) s =
    ground (arith, find_each-started ps (on_publisher_found refuses p s).0)
find_each-started ((p, connects_only) ∷ ps) s =
    ground (arith, find_each-started ps (on_publisher_found connects_only p s).0)
find_each-started ((p, takes) ∷ ps) s =
    ground (arith, find_each-started ps (on_publisher_found takes p s).0)

-- A sniffer that runs and has found nothing yet connects to no address twice, whatever is found and
-- whatever the socket answers, and at its stop it withdraws just the registrations that it made, in
-- their order, and keeps none.
pub stop-find_each :
    (addr : String) (ps : List (MessagePublisherInfo × Answer)) (s : Sniffer)
    → s.started ≡ true
    → s.registrations ≡ []
    → s.connected_addresses ≡ []
    → let (s1, calls) = find_each ps s in
      let (s2, withdrawn) = stop_sniffer s1 in
      (times_connected addr calls ≤ 1)
      × (withdrawn ≡ registered_by calls)
      × (s2.registrations ≡ [])
      × (s2.connected_addresses ≡ [])
unfolding stop_sniffer
stop-find_each addr ps s on none_yet nowhere = (
  ground (arith, find_each-connected addr ps s, nowhere),
  ground (arith, find_each-registered ps s, find_each-started ps s, none_yet, on),
  ground (arith, find_each-started ps s, on),
  ground (arith, find_each-started ps s, on),
)

-- After the socket refused to connect to a publisher of the topic, no publisher that is found later
-- makes the sniffer connect to that address, even where the socket would take it.
pub find_each-refused :
    (p : MessagePublisherInfo) (ps : List (MessagePublisherInfo × Answer)) (s : Sniffer)
    → str_eq p.info.topic s.topic ≡ true
    → times_connected p.info.addr (find_each ps (on_publisher_found refuses p s).0).1 ≡ 0
unfolding on_publisher_found
find_each-refused p ps s same =
    let s1 = (on_publisher_found refuses p s).0 in
    ground (arith, find_each-connected p.info.addr ps s1, eq_refl p.info.addr, same)

find_each-exit :
    (ps : List (MessagePublisherInfo × Answer)) (s : Sniffer) → (find_each ps s).0.exit ≡ s.exit
unfolding find_each on_publisher_found
find_each-exit [] s = refl
find_each-exit ((p, refuses) ∷ ps) s =
    ground (arith, find_each-exit ps (on_publisher_found refuses p s).0)
find_each-exit ((p, connects_only) ∷ ps) s =
    ground (arith, find_each-exit ps (on_publisher_found connects_only p s).0)
find_each-exit ((p, takes) ∷ ps) s =
    ground (arith, find_each-exit ps (on_publisher_found takes p s).0)

receive_loop-exit :
    (polls : List (ℕ × Option Frames)) (s : Sniffer) → s.exit ≡ true → receive_loop polls s ≡ []
unfolding receive_loop
receive_loop-exit [] s h = refl
receive_loop-exit ((now, frames) ∷ polls) s h = ground (arith, h)

start_sniffer-exit :
    (answers : String → Answer) (now : ℕ) (s : Sniffer)
    → (start_sniffer answers now s).0.exit ≡ s.exit
unfolding start_sniffer
start_sniffer-exit answers now s =
    let d = (start now (set_connection_cb (some publisher_found) s.discovery)).0 in
    ground (
      arith,
      find_each-exit (found_by answers (discover s.topic d).1)
          (record s { started = true; discovery = d }),
    )

stopped-exit : (s : Sniffer) → s.started ≡ true → (stop_sniffer s).0.exit ≡ true
unfolding stop_sniffer
stopped-exit s on = ground (arith, on)

-- A sniffer that runs, is stopped and is started again takes no message, whatever the socket answers
-- and whatever comes in: `exit` is never reset.
pub receive_loop-restarted :
    (answers : String → Answer) (now : ℕ) (polls : List (ℕ × Option Frames)) (s : Sniffer)
    → s.started ≡ true
    → receive_loop polls (start_sniffer answers now (stop_sniffer s).0).0 ≡ []
receive_loop-restarted answers now polls s on =
    let stopped = (stop_sniffer s).0 in
    receive_loop-exit polls (start_sniffer answers now stopped).0
      (start_sniffer-exit answers now stopped ∙ stopped-exit s on)
