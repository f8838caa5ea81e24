-- ===== src/Discovery/Mdns/Tests.antt =====
-- Answers of the local network, and the theorem at them.
use lumen_sdk.Base.{ℕ, ◌≡◌, refl, Bool, true, false, List, [], ◌∷◌, none, some, length, ltb}
use lumen_sdk.Base.Int.{pos}
use lumen_sdk.Base.Text.{Text, codes}
use lumen_sdk.Base.Dict.{lookup}
use lumen_sdk.Base.Unique.{is_some}
use lumen_sdk.Discovery.Identity.{ResolvedNode, candidate_endpoints, is_zero, key}
use lumen_sdk.Discovery.Mdns.{
  ServiceEntry, MdnsResolver, resolved_node_from_mdns, miss_threshold, polls, extract_instance_name,
}
use lumen_sdk.Discovery.Mdns.Expiry.{finds, polls-found}

abbrev resolver : MdnsResolver
resolver = record {
  service_type = codes "_lumen._tcp";
  domain = codes "local";
  poll_interval = pos 30;
  query_timeout = pos 3;
  deployment_id = codes "local";
}

abbrev entry : ServiceEntry
entry = record {
  name = codes "a._lumen._tcp.local.";
  host = codes "box.local.";
  addr_v4 = some (codes "10.0.0.2");
  addr_v6_ip = none;
  addr_v6 = none;
  port = pos 50051;
  info_fields = codes "v=1" ∷ codes "=x" ∷ codes "tasks=ocr" ∷ [];
}

abbrev node : ResolvedNode
node = resolved_node_from_mdns resolver entry

node_lem :
    (candidate_endpoints node ≡ codes "10.0.0.2:50051" ∷ [])
    × (node.host_name ≡ codes "box.local")
    × (node.txt ≡ some ((codes "v", codes "1") ∷ (codes "tasks", codes "ocr") ∷ []))
unfolding candidate_endpoints resolved_node_from_mdns
node_lem = (refl, refl, refl)

odd_name : extract_instance_name (codes "a.b.c") (codes "_x._tcp") (codes "local") ≡ codes "a"
unfolding extract_instance_name
odd_name = refl

found : finds (codes "local-a") (node ∷ []) ≡ true
unfolding is_zero key resolved_node_from_mdns lumen_sdk.Base.Text.has_prefix
found = refl

-- After one poll without the node it is still known.
polls-found_example :
    is_some (lookup (codes "local-a") (polls ((node ∷ []) ∷ [] ∷ []) [])) ≡ ltb 1 miss_threshold
polls-found_example = polls-found (node ∷ []) ([] ∷ []) [] (codes "local-a") tt found (refl, tt)
