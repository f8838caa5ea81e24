-- ===== src/Client/Resolver/Tests.antt =====
-- Events of discovery, and the theorem at them.
use lumen_sdk.Base.{◌≡◌, refl, true, false, [], ◌∷◌, none, some}
use lumen_sdk.Base.Int.{pos}
use lumen_sdk.Base.Text.{codes}
use lumen_sdk.Base.Dict.{lookup}
use lumen_sdk.Base.Unique.{is_some}
use lumen_sdk.Discovery.Events.{NodeEvent, node_discovered, node_expired}
use lumen_sdk.Client.Resolver.{Nodes, push_state, watch}
use lumen_sdk.Client.Resolver.Laws.{known_after, watch-known_after}

abbrev found : NodeEvent
found = record {
  event_type = node_discovered;
  identity = record { deployment_id = []; node_id = codes "a" };
  resolved = record {
    identity = record { deployment_id = []; node_id = codes "a" };
    instance_name = [];
    host_name = [];
    addresses = codes "10.0.0.2" ∷ [];
    port = pos 50051;
    txt = none;
    expires_at = none;
  };
  addresses = [];
  tasks = codes "ocr" ∷ codes "face" ∷ [];
  txt = none;
  explicit_remove = false;
}

abbrev expired : NodeEvent
expired = record found { event_type = node_expired }

abbrev revoked : NodeEvent
revoked = record expired { explicit_remove = true }

-- The record of the node expires, and the node is still told to gRPC, with its tasks.
told :
    push_state (watch (found ∷ expired ∷ []) [])
    ≡ record {
      addr = codes "10.0.0.2:50051";
      attr = some (record {
        identity = record { deployment_id = codes "local"; node_id = codes "a" };
        tasks = codes "ocr" ∷ codes "face" ∷ [];
        txt = some ((codes "tasks", codes "ocr,face") ∷ []);
      });
    }
      ∷ []
unfolding watch push_state
told = refl

untold : push_state (watch (found ∷ revoked ∷ []) []) ≡ []
unfolding watch push_state
untold = refl

watch-known_after_example :
    is_some (lookup (codes "local-a") (watch (found ∷ expired ∷ revoked ∷ []) []))
    ≡ known_after
        (codes "local-a")
        (found ∷ expired ∷ revoked ∷ [])
        (is_some (lookup {V = lumen_sdk.Client.Resolver.ResolvedEntry} (codes "local-a") []))
watch-known_after_example = watch-known_after (found ∷ expired ∷ revoked ∷ []) [] (codes "local-a")
