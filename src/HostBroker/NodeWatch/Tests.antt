-- ===== src/HostBroker/NodeWatch/Tests.antt =====
-- The hub at concrete nodes: a client that follows, and one that joins with an old list of nodes.
use lumen_sdk.Base.{ℕ, ◌≡◌, refl, Bool, true, false, List, [], ◌∷◌, Option, none, some}
use lumen_sdk.Base.Text.{Text, codes}
use lumen_sdk.Discovery.Identity.{active, starting}
use lumen_sdk.Discovery.NodeInfo.{NodeInfo}
use lumen_sdk.HostBroker.NodeWatch.{Hub, join, broadcast, diff}
use lumen_sdk.HostBroker.NodeWatch.Laws.{
  View, see, has, see_events, lists_active, broadcasts, broadcast-follows, broadcasts-stale,
}

abbrev node : NodeInfo
node = record {
  id = codes "local-a";
  address = codes "h:1";
  status = active;
  tasks = [];
  version = codes "1.0";
  runtime = [];
}

abbrev nodes : List (Option NodeInfo)
nodes = some node ∷ none ∷ some (record node { id = codes "local-b"; status = starting }) ∷ []

abbrev empty_hub : Hub
empty_hub = record { clients = []; prev_nodes = [] }

same :
    (id : Text)
    → has {V = lumen_sdk.HostBroker.NodeWatch.WsNodeInfo} id [] ≡ has {V = Unit {0}} id []
unfolding lumen_sdk.Base.Dict.lookup
same id = refl

broadcast-follows_example :
    (has (codes "local-a") (see_events (diff empty_hub nodes) [])
      ≡ lists_active nodes (codes "local-a"))
    × (has (codes "local-a") (broadcast (λ _. 9) nodes empty_hub).0.prev_nodes
        ≡ lists_active nodes (codes "local-a"))
broadcast-follows_example = broadcast-follows (λ _. 9) empty_hub nodes [] same (codes "local-a")

-- The client has read the nodes before the broadcast that told of the end of the node, and joins after it.
abbrev old_view : View
old_view = see (join 1 nodes empty_hub).1 []

old_view-has : has (codes "local-a") old_view ≡ true
unfolding join lumen_sdk.Base.Dict.lookup lumen_sdk.Base.Dict.insert
old_view-has = refl

forgotten : has (codes "local-a") empty_hub.prev_nodes ≡ false
unfolding lumen_sdk.Base.Dict.lookup
forgotten = refl

gone : lists_active [] (codes "local-a") ≡ false
unfolding lumen_sdk.Base.Dict.lookup lumen_sdk.HostBroker.NodeWatch.active_nodes
gone = refl

broadcasts-stale_example :
    has (codes "local-a") (broadcasts empty_hub ([] ∷ [] ∷ []) old_view) ≡ true
broadcasts-stale_example =
    broadcasts-stale ([] ∷ [] ∷ []) empty_hub old_view (codes "local-a") forgotten old_view-has
      (gone, (gone, tt))
