-- ===== src/ServiceRuntime/Gone.antt =====
-- What src/service_runtime.cc makes of the end of a process whose services it is connected to.
use rf_trans_v.Base.{◌≡◌, ◌≢◌, ℕ, String, Bool, some, str_eq, eq_iff, remove_if, arith}
use rf_trans_v.Wire.{Msg, MsgType}
use rf_trans_v.Info.Class.{service_pub}
use rf_trans_v.Discovery.Handlers.{dispatch_discovery_msg, handle_msg, on_bye}
use rf_trans_v.ServiceRuntime.{RemoteRequest, on_service_disconnected}
use rf_trans_v.ServiceRuntime.Process.{
  Process, service_disconnected, call_back, handle_events, receive,
}

-- The BYE of a process takes no address out of the connections but the empty one: the publisher that
-- discovery calls back with has the uuid of the process alone.
pub connections-receive-bye :
    {V K : Type 0} (takes : RemoteRequest → Bool) (now : ℕ) (from_ip : String) (m : Msg)
    (p : Process V K)
    → m.msg_type ≡ MsgType.bye
    → m.process_uuid ≢ p.discovery.process_uuid
    → p.discovery.disconnection_cb ≡ some service_disconnected
    → (receive takes now from_ip (some m) p).0.runtime.requester_connections
      ≡ remove_if (str_eq "") p.runtime.requester_connections
unfolding receive dispatch_discovery_msg handle_msg on_bye handle_events call_back
    on_service_disconnected
connections-receive-bye takes now from_ip m p is other cb =
    ground (arith, is, cb, eq_iff m.process_uuid p.discovery.process_uuid, other)
