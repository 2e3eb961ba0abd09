-- ===== src/Cli/Output.antt =====
-- `endpointMap`, `printMessages`, `printServices`, `watchEndpoints` and `printSniffedMessage` of
-- tools/rf_trans.cc, with the snapshots of a watch and the messages of a sniff as arguments.
use Prim.Native.String.{◌++◌ as ◌+++◌}
use rf_trans_v.Base.{
  ◌*◌, ◌/◌, ◌%◌, ◌^◌, ◌++◌, ℕ, String, Option, some, List, [], ◌∷◌, map, ◌==◌, if◌then◌else◌,
  length, is_empty,
}
use rf_trans_v.Map.{Map}
use rf_trans_v.Cli.Arguments.{OutputFormat, table}
use rf_trans_v.Cli.Endpoints.{MessageEndpointInfo, ServiceEndpointInfo}
use rf_trans_v.Cli.Watch.{endpoint_map, watch_round}
use rf_trans_v.Cli.Rate.{record_time}
use rf_trans_v.Cli.Json.{quote_json}
use rf_trans_v.Cli.Print.{codes, decimal, print_as, message_json, service_json}
use rf_trans_v.Cli.Table.{message_table, service_table}
use rf_trans_v.Cli.Decode.{Fields, both, decode_raw_protobuf, fields_json}
use rf_trans_v.Cli.Sniffer.{SniffedMessage}

-- the keys of `endpointMap`
abbrev pub message_key : MessageEndpointInfo → String
message_key e =
    e.topic +++ ("\n" +++ (e.address +++ ("\n" +++ (e.process_uuid +++ ("\n" +++ e.node_uuid)))))

abbrev pub service_key : ServiceEndpointInfo → String
service_key e =
    e.topic
    +++ ("\n"
        +++ (e.address
            +++ ("\n"
                +++ (e.socket_id +++ ("\n" +++ (e.process_uuid +++ ("\n" +++ e.node_uuid)))))))

unfoldable pub print_messages : OutputFormat → String → List MessageEndpointInfo → List ℕ
unfolding print_as message_table message_json
print_messages output event es =
    print_as output (message_table event es) (map (message_json event) es)

unfoldable pub print_services : OutputFormat → String → List ServiceEndpointInfo → List ℕ
unfolding print_as service_table service_json
print_services output event es =
    print_as output (service_table event es) (map (service_json event) es)

module _ {E : Type 0} (key_of : E → String) (print : String → List E → List ℕ) where
  -- what is printed of endpoints with an event, where there are any
  abbrev printed : String → Map E → List ℕ
  printed event m = if is_empty m then [] else print event (map (λ x. x.1) m)

  unfoldable pub watch_rounds : List (List E) → Map E → List ℕ
  unfolding watch_round
  watch_rounds [] previous = []
  watch_rounds (snapshot ∷ later) previous =
      let r = watch_round key_of snapshot previous in
      printed "added" r.added ++ (printed "removed" r.removed ++ watch_rounds later r.previous)

  unfoldable pub watch_endpoints : List E → List (List E) → List ℕ
  unfolding endpoint_map watch_rounds
  watch_endpoints first later =
      let previous = endpoint_map key_of first in
      printed "added" previous ++ watch_rounds later previous

-- 2000 ms, in nanoseconds
abbrev pub rate_window : ℕ
rate_window = 2 * 10 ^ 9

-- The rate of so many messages in two seconds, with the zeros of its precision behind.
unfoldable pub rate_text : ℕ → List ℕ → List ℕ
unfolding decimal
rate_text count zeros =
    decimal (count / 2) ++ (b'.' ∷ (if count % 2 == 0 then b'0' else b'5') ∷ zeros)

module _ (parse : List ℕ → Option Fields) where
  -- `printSniffedMessage`; the rate is that of so many messages in the window
  unfoldable pub print_sniffed : OutputFormat → ℕ → SniffedMessage → Option (List ℕ)
  unfolding rate_text decimal quote_json decode_raw_protobuf fields_json
  print_sniffed table count m =
      both
        (some (
          codes "size="
          ++ (decimal (length m.raw_data)
              ++ (codes "B  rate="
                  ++ (rate_text count []
                      ++ (codes "Hz  sender="
                          ++ (codes m.sender
                              ++ (codes "  msg_type=" ++ (codes m.msg_type ++ codes "  ")))))))))
        (both (decode_raw_protobuf parse m.raw_data) (some (10 ∷ [])))
  print_sniffed output count m =
      both
        (some (
          codes "{\"kind\":\"sniff\",\"topic\":"
          ++ (quote_json (codes m.topic)
              ++ (codes ",\"sender\":"
                  ++ (quote_json (codes m.sender)
                      ++ (codes ",\"msg_type\":"
                          ++ (quote_json (codes m.msg_type)
                              ++ (codes ",\"size\":"
                                  ++ (decimal (length m.raw_data)
                                      ++ (codes ",\"rate\":"
                                          ++ (rate_text count (b'0' ∷ b'0' ∷ [])
                                              ++ codes ",\"fields\":")))))))))))
        (both (fields_json parse m.raw_data) (some (b'}' ∷ 10 ∷ [])))

  -- the callback of the sniffer, over the messages and the times that the tracker keeps
  unfoldable pub sniff : OutputFormat → List SniffedMessage → List ℕ → Option (List ℕ)
  unfolding record_time print_sniffed
  sniff output [] times = some []
  sniff output (m ∷ ms) times =
      let kept = record_time rate_window m.received_at times in
      both (print_sniffed output (length kept) m) (sniff output ms kept)
