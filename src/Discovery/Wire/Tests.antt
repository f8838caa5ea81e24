-- ===== src/Discovery/Wire/Tests.antt =====
-- Messages of the host broker, and the theorem at one.
use lumen_sdk.Base.{◌≡◌, refl, [], ◌∷◌, none, some, arith}
use lumen_sdk.Base.Int.{pos}
use lumen_sdk.Base.Text.{codes}
use lumen_sdk.Base.Text.HostPort.{join_host_port, split_host_port, atoi}
use lumen_sdk.Discovery.Identity.{candidate_endpoints, clean_address}
use lumen_sdk.Discovery.Wire.{
  BrokerNode, only_id, broker_resolved, join_csv, parse_node_events, ws_host, ws_scheme,
}
use lumen_sdk.Discovery.Wire.Endpoint.{IsHost, HasAddress, candidate_endpoints-broker_resolved}

abbrev v6 : BrokerNode
v6 = record (only_id (codes "local-a")) {
  address = codes "[fe80::1]:50051";
  tasks = codes "ocr" ∷ [];
}

v6-IsHost : IsHost (codes "fe80::1")
unfolding clean_address lumen_sdk.Base.Text.contains_rune
v6-IsHost = record { set = refl; plain = refl; trimmed = refl }

v6_address : HasAddress v6 (codes "fe80::1") 50051
unfolding join_host_port lumen_sdk.Base.Text.itoa
v6_address = record { address = refl; others = refl; no_port = refl }

candidate_endpoints-broker_resolved_example :
    candidate_endpoints (broker_resolved v6 (codes "local")) ≡ v6.address ∷ []
candidate_endpoints-broker_resolved_example =
    candidate_endpoints-broker_resolved v6 (codes "local") (codes "fe80::1") 50051 v6-IsHost
      (omega arith) (omega arith) v6_address

bad_addresses :
    (split_host_port (codes "a:b:1") ≡ none)
    × (split_host_port (codes "host") ≡ none)
    × (split_host_port (codes "[a]b:1") ≡ none)
    × (split_host_port (codes ":1") ≡ some ([], codes "1"))
    × (atoi (codes "12x") ≡ none)
    × (atoi (codes "-12") ≡ some (lumen_sdk.Base.Int.negsuc 11))
unfolding split_host_port atoi
bad_addresses = (refl, refl, refl, refl, refl, refl)

tasks_once : join_csv (codes " ocr" ∷ [] ∷ codes "face" ∷ codes "ocr" ∷ []) ≡ codes "ocr,face"
unfolding join_csv
tasks_once = refl

unknown_type :
    parse_node_events
      (record { event_type = codes "gone"; nodes = []; node = none; node_id = codes "a" })
    ≡ none
unfolding parse_node_events
unknown_type = refl

host_of_url :
    (ws_host (codes "https://b:1") ≡ codes "b:1") × (ws_scheme (codes "https://b:1") ≡ codes "wss")
unfolding ws_host ws_scheme
host_of_url = (refl, refl)
