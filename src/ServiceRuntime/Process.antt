-- ===== src/ServiceRuntime/Process.antt =====
-- `initialize`, `start`, `stop`, `advertise`, `unadvertise` and `request` of src/service_runtime.cc:
-- a process with its discovery of services and its runtime. The callbacks of discovery run while a
-- call or a message is handled; what is sent by then is a list.
use rf_trans_v.Base.{
  ◌++◌, ◌||◌, ℕ, String, Bool, true, false, not, Option, none, some, List, [], ◌∷◌, if◌then◌else◌,
}
use rf_trans_v.Options.{AdvertiseServiceOptions}
use rf_trans_v.Wire.{Msg}
use rf_trans_v.Info.Service.{ServicePublisherInfo, make_service_info}
use rf_trans_v.Info.Class.{service_pub}
use rf_trans_v.TopicStorage.{get_publishers}
use rf_trans_v.Discovery.{Discovery, Event, call, send, advertise, unadvertise}
use rf_trans_v.Discovery.Handlers.{dispatch_discovery_msg}
use rf_trans_v.Discovery.Loop.{start}
use rf_trans_v.Discovery.Settings.{set_connection_cb, set_disconnection_cb}
use rf_trans_v.ServiceRuntime.{
  RemoteRequest, ServiceRuntime, Told, nothing, on_service_connected, on_service_disconnected,
}
use rf_trans_v.ServiceRuntime.Calls.{advertise_locally, unadvertise_locally, request}
use rf_trans_v.ServiceRuntime.Handler.{ReqHandler, RepHandler}

-- The two callbacks that `start` gives to discovery.
pub data Callback : Type 0 where
  service_connected service_disconnected : Callback

abbrev pub SrvDiscovery : Type 0
SrvDiscovery = Discovery Callback ServicePublisherInfo

pub record Process (V K : Type 0) : Type 0 where
  pub discovery : SrvDiscovery
  pub runtime : ServiceRuntime V K
  pub process_uuid : String
  pub replier_uuid : String
  pub replier_address : String
  pub initialized : Bool
  pub started : Bool
  pub exit : Bool

-- What is sent: messages of discovery, and what the sockets are told.
pub record Output : Type 0 where
  pub messages : List Msg
  pub told : Told

abbrev silent : Output
silent = record { messages = []; told = nothing }

abbrev both : Told → Told → Told
both a b = record { connects = a.connects ++ b.connects; requests = a.requests ++ b.requests }

module _ {V K : Type 0} (takes : RemoteRequest → Bool) where
  unfoldable pub call_back :
      Callback
      → ServicePublisherInfo
      → SrvDiscovery
      → ServiceRuntime V K
      → ServiceRuntime V K × Told
  unfolding on_service_connected on_service_disconnected get_publishers
  call_back service_connected p d r =
      on_service_connected takes p (get_publishers p.info.topic d.known_publishers) r
  call_back service_disconnected p d r = (on_service_disconnected p r, nothing)

  -- the callbacks and messages of discovery, in their order
  unfoldable pub handle_events :
      List (Event Callback ServicePublisherInfo)
      → SrvDiscovery
      → ServiceRuntime V K
      → ServiceRuntime V K × Output
  unfolding call_back
  handle_events [] d r = (r, silent)
  handle_events (call cb p ∷ es) d r =
      let (r1, told) = call_back cb p d r in
      let (r2, out) = handle_events es d r1 in (r2, record out { told = both told out.told })
  handle_events (send m ∷ es) d r =
      let (r1, out) = handle_events es d r in (r1, record out { messages = m ∷ out.messages })

  abbrev pub settle :
      Process V K → SrvDiscovery → List (Event Callback ServicePublisherInfo) → Process V K × Output
  settle p d es =
      let (r, out) = handle_events es d p.runtime in (record p { discovery = d; runtime = r }, out)

  -- a datagram of discovery
  unfoldable pub receive : ℕ → String → Option Msg → Process V K → Process V K × Output
  unfolding dispatch_discovery_msg handle_events
  receive now from_ip parsed p =
      let (d, es) = dispatch_discovery_msg now from_ip parsed p.discovery in settle p d es

  unfoldable pub advertise_service :
      String
      → String
      → RepHandler
      → String
      → String
      → AdvertiseServiceOptions
      → Process V K
      → Process V K × Output × Bool
  unfolding advertise_locally advertise handle_events
  advertise_service topic node_uuid h req_type rep_type options p =
      let published =
        make_service_info topic p.replier_address p.replier_uuid p.process_uuid node_uuid req_type
          rep_type options in
      let (d, ok, es) = advertise published p.discovery in
      let (after, out) =
        settle (record p { runtime = advertise_locally topic node_uuid h p.runtime }) d es in
      (after, out, ok)

  unfoldable pub unadvertise_service : String → String → Process V K → Process V K × Output × Bool
  unfolding unadvertise_locally unadvertise handle_events
  unadvertise_service topic node_uuid p =
      let (d, ok, es) = unadvertise topic node_uuid p.discovery in
      let (after, out) =
        settle (record p { runtime = unadvertise_locally topic node_uuid p.runtime }) d es in
      (after, out, ok)

  unfoldable pub request_service :
      String → String → ReqHandler V K → Process V K → Process V K × Told × Bool
  unfolding request get_publishers
  request_service topic node_uuid h p =
      let (r, told, ok) =
        request takes topic node_uuid h (get_publishers topic p.discovery.known_publishers)
          p.runtime in
      (record p { runtime = r }, told, ok)

module _ {V K : Type 0} where
  -- `initialize`: the address that the replier is bound to, where that works
  unfoldable pub initialize : Option String → Process V K → Process V K × Bool
  initialize bound p = if p.initialized then (p, true) else elim bound [
    | none ↦ (p, false)
    | some address ↦ (record p { replier_address = address; initialized = true }, true)
  ]

  unfoldable pub start_runtime : ℕ → Process V K → Process V K
  unfolding start
  start_runtime now p = if not p.initialized || p.started then p else record p {
    discovery =
        (start now (
          set_disconnection_cb (some service_disconnected)
            (set_connection_cb (some service_connected) p.discovery))).0;
    started = true;
  }

  unfoldable pub stop_runtime : Process V K → Process V K
  stop_runtime p = if not p.started then p else record p {
    exit = true;
    discovery = set_disconnection_cb none (set_connection_cb none p.discovery);
    started = false;
  }
