-- ===== src/Client/New/Tests.antt =====
-- The client of the default configuration with a static node.
use lumen_sdk.Base.{◌≡◌, refl, false, [], ◌∷◌, some, ok}
use lumen_sdk.Base.Int.{ltb_ℤ}
use lumen_sdk.Base.Text.{codes}
use lumen_sdk.Config.{Config, default_config, validate}
use lumen_sdk.Discovery.Static.{new_static_resolver}
use lumen_sdk.Client.New.{
  NewClient, new_lumen_client, pool_options, new_mdns_resolver, mdns, static,
}
use lumen_sdk.Client.New.Laws.{new_lumen_client-options}

abbrev pinned : Config
pinned = record default_config {
  discovery = record default_config.discovery { static_nodes = codes "gpu:5000" ∷ [] };
}

abbrev client : NewClient
client = record {
  options = pool_options pinned.discovery;
  resolvers =
      mdns (new_mdns_resolver pinned.discovery)
      ∷ static (new_static_resolver (codes "gpu:5000" ∷ []) (codes "local"))
      ∷ [];
}

pinned_is_valid : validate pinned ≡ ok tt
unfolding validate
pinned_is_valid = refl

pinned-client : new_lumen_client (some pinned) ≡ some client
unfolding new_lumen_client
pinned-client = refl

new_lumen_client-options_example :
    (client.options ≡ pool_options pinned.discovery)
    × (ltb_ℤ client.options.rediscovery_backoff_max client.options.rediscovery_backoff_min ≡ false)
new_lumen_client-options_example =
    new_lumen_client-options pinned client pinned_is_valid pinned-client
