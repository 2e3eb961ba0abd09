-- ===== src/NodeShared/Lifetime.antt =====
-- The constructor and the destructor of src/node_shared.cc.
use rf_trans_v.Base.{
  ◌≡◌, ◌&&◌, inl, inr, map, arith, is_some, option_or, Option-cases, ◌++◌, ℕ, String, false, not,
  Option, [], ◌∷◌, List, if◌then◌else◌,
}
use rf_trans_v.Wire.{Msg, MsgType}
use rf_trans_v.Discovery.{Event, send, call}
use rf_trans_v.Discovery.Loop.{stop, destroy}
use rf_trans_v.Discovery.Settings.{make_discovery}
use rf_trans_v.MessageRuntime.Publish.{Outlet}
use rf_trans_v.MessageRuntime.Process.{
  Process as MessageProcess, initialize as initialize_messages, start_runtime as start_messages,
  stop_runtime as stop_messages,
}
use rf_trans_v.ServiceRuntime.Process.{
  Process as ServiceProcess, SrvDiscovery, initialize as initialize_services,
  start_runtime as start_services, stop_runtime as stop_services,
}
use rf_trans_v.NodeShared.{NodeShared, Services, no_runtime, with_runtime, through}

-- What the constructor is given: uuids, names, and the addresses that the sockets of the two
-- runtimes are bound to, where that works.
pub record Setup : Type 0 where
  pub process_uuid : String
  pub process_name : String
  pub host_addr : String
  pub replier_uuid : String
  pub message_address : Option String
  pub replier_address : Option String

module _ {M K : Type 0} where
  -- the members before the runtimes are initialized
  abbrev pub new_messages : Setup → MessageProcess M K
  new_messages c = record {
    discovery = make_discovery c.process_uuid c.process_name c.host_addr;
    links = record {
      process_uuid = c.process_uuid;
      address = "";
      remote_publishers = [];
      remote_subscribers = [];
      local_subscribers = [];
      subscriber_commands = [];
    };
    initialized = false;
    started = false;
    exit = false;
  }

module _ {V R : Type 0} where
  abbrev pub new_services : Setup → ServiceProcess V R
  new_services c = record {
    discovery = make_discovery c.process_uuid c.process_name c.host_addr;
    runtime = record {
      requester_connections = [];
      response_handlers = [];
      request_handlers = [];
      request_queue = [];
      response_queue = [];
    };
    process_uuid = c.process_uuid;
    replier_uuid = c.replier_uuid;
    replier_address = "";
    initialized = false;
    started = false;
    exit = false;
  }

  unfoldable pub stop_each : Services V R → Services V R
  unfolding stop stop_services
  stop_each (no_runtime d) = no_runtime (stop d)
  stop_each (with_runtime p) =
      with_runtime (stop_services (record p { discovery = stop p.discovery }))

  abbrev pub srv_discovery : Services V R → SrvDiscovery
  srv_discovery (no_runtime d) = d
  srv_discovery (with_runtime p) = p.discovery

-- the messages that discovery sends when it ends
unfoldable pub sent_of : {C P : Type 0} → List (Event C P) → List Msg
sent_of [] = []
sent_of (send m ∷ es) = m ∷ sent_of es
sent_of (call cb p ∷ es) = sent_of es

abbrev pub sender : Msg → MsgType × String
sender m = (m.msg_type, m.process_uuid)

module _ {M K V R : Type 0} where
  -- The constructor: an early return leaves what is not made yet.
  unfoldable pub make_shared : Setup → Outlet M K → ℕ → NodeShared M K V R
  unfolding initialize_messages initialize_services start_messages start_services
  make_shared c o now =
      let (m, bound) = initialize_messages c.message_address (new_messages c) in
      let (s, ready) = initialize_services c.replier_address (new_services c) in
      if not bound
      then record {
        messages = m;
        outlet = o;
        services = no_runtime (make_discovery c.process_uuid c.process_name c.host_addr);
      }
      else if not ready
      then record { messages = m; outlet = o; services = with_runtime s }
      else record {
        messages = start_messages now m;
        outlet = o;
        services = with_runtime (start_services now s);
      }

  -- The destructor's body, and then the destructors of the members: those of the two discoveries
  -- say goodbye, that of services first.
  unfoldable pub stop_all : NodeShared M K V R → NodeShared M K V R
  unfolding stop stop_messages stop_each
  stop_all s = record s {
    messages = stop_messages (record s.messages { discovery = stop s.messages.discovery });
    services = stop_each s.services;
  }

  unfoldable pub destroy_shared : NodeShared M K V R → NodeShared M K V R × List Msg
  unfolding stop_all destroy sent_of
  destroy_shared s =
      let stopped = stop_all s in
      (
        stopped,
        sent_of (destroy (srv_discovery stopped.services)).1
            ++ sent_of (destroy stopped.messages.discovery).1,
      )

  -- The destructor leaves both discoveries stopped and both runtimes stopped, and says goodbye in the
  -- name of the process twice, to the peers of services and then to those of messages.
  pub destroy_shared-bye :
      (s : NodeShared M K V R)
      → let (after, out) = destroy_shared s in
        (after.messages.discovery.enabled ≡ false)
        × ((srv_discovery after.services).enabled ≡ false)
        × (after.messages.started ≡ false)
        × (map sender out
            ≡ (MsgType.bye, (srv_discovery s.services).process_uuid)
              ∷ (MsgType.bye, s.messages.discovery.process_uuid)
              ∷ [])
  unfolding destroy_shared
  destroy_shared-bye s = (ground arith, ground arith, ground arith, ground arith)

-- The pointer to the service runtime is set exactly where the sockets of the message runtime could
-- be bound, and both runtimes and both discoveries run exactly where those of both could.
pub make_shared-cases :
    {M K : Type 0} (V R : Type 0) (c : Setup) (o : Outlet M K) (now : ℕ)
    → let s = make_shared {V = V} {R = R} c o now in
      let both = is_some c.message_address && is_some c.replier_address in
      (is_some (through (λ p. p.started) s) ≡ is_some c.message_address)
      × (option_or (through (λ p. p.started) s) false ≡ both)
      × (s.messages.started ≡ both)
      × (s.messages.discovery.enabled ≡ both)
      × ((srv_discovery s.services).enabled ≡ both)
unfolding make_shared through
make_shared-cases V R c o now = elim (Option-cases c.message_address) [
  | inl e ↦ (ground arith, ground arith, ground arith, ground arith, ground arith)
  | inr (a, e) ↦ elim (Option-cases c.replier_address) [
    | inl f ↦ (ground arith, ground arith, ground arith, ground arith, ground arith)
    | inr (b, f) ↦ (ground arith, ground arith, ground arith, ground arith, ground arith)
  ]
]
