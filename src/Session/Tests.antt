-- ===== src/Session/Tests.antt =====
-- A client and a host broker at concrete nodes.
use lumen_sdk.Base.{ℕ, ◌≡◌, refl, Bool, true, false, List, [], ◌∷◌, All, Option, none, some}
use lumen_sdk.Base.Text.{Text, codes, is_empty}
use lumen_sdk.Base.Dict.{lookup, insert}
use lumen_sdk.Base.Unique.{is_some}
use lumen_sdk.Discovery.Identity.{active, is_zero, key, parse_node_identity}
use lumen_sdk.Discovery.NodeInfo.{NodeInfo}
use lumen_sdk.HostBroker.NodeWatch.{Hub, WsNodeInfo, snapshot, added, diff, ws_node_info_from}
use lumen_sdk.HostBroker.NodeWatch.Laws.{lists_active, has}
use lumen_sdk.Client.Resolver.{Nodes, ResolvedEntry}
use lumen_sdk.Session.{session}
use lumen_sdk.Session.Events.{IsKey}
use lumen_sdk.Session.Laws.{HasKeys, session-follows, session-snapshot_stale}

abbrev node : NodeInfo
node = record {
  id = codes "local-a";
  address = codes "10.0.0.2:50051";
  status = active;
  tasks = [];
  version = codes "1.0";
  runtime = [];
}

abbrev empty_hub : Hub
empty_hub = record { clients = []; prev_nodes = [] }

abbrev local : Text
local = codes "local"

local_a-IsKey : IsKey local (codes "local-a")
unfolding is_zero key parse_node_identity lumen_sdk.Base.Text.trim_suffix
    lumen_sdk.Base.Text.has_prefix
local_a-IsKey = record { named = refl; same = refl; set = refl }

diff-HasKeys : All (HasKeys local) (diff empty_hub (some node ∷ []))
unfolding diff lumen_sdk.HostBroker.NodeWatch.active_nodes lookup insert
diff-HasKeys = (local_a-IsKey, tt)

no_nodes : (k : Text) → is_some (lookup {V = ResolvedEntry} k []) ≡ has {V = Unit {0}} k []
unfolding lookup
no_nodes k = refl

session-follows_example :
    is_some (lookup (codes "local-a") (session local (diff empty_hub (some node ∷ [])) []))
    ≡ lists_active (some node ∷ []) (codes "local-a")
session-follows_example =
    session-follows empty_hub (some node ∷ []) local [] diff-HasKeys no_nodes (codes "local-a")

-- The address of the node is told to gRPC.
abbrev held : Nodes
held = session local (added (ws_node_info_from node) ∷ []) []

held_endpoints : is_some (lookup (codes "local-a") held) ≡ true
unfolding session lookup ws_node_info_from lumen_sdk.Base.Text.trim_suffix
    lumen_sdk.Base.Text.has_prefix
held_endpoints = refl

session-snapshot_stale_example :
    is_some (lookup (codes "local-a") (session local (snapshot [] ∷ []) held)) ≡ true
session-snapshot_stale_example =
    session-snapshot_stale [] local held (codes "local-a") held_endpoints
