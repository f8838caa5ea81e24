-- ===== src/Client/New.antt =====
-- NewLumenClient of pkg/client/client.go: the options of the pool and the resolvers of a configuration.
pub mod Laws
mod Tests
use lumen_sdk.Base.{
  ℕ, Bool, not, if◌then◌else◌, List, [], ◌∷◌, ◌++◌, Option, none, some, length, ◌==◌,
}
use lumen_sdk.Base.Text.{Text, codes, is_empty}
use lumen_sdk.Base.Int.{ℤ, pos}
use lumen_sdk.Config.{is_positive, seconds, Config, DiscoveryConfig, default_config}
use lumen_sdk.Discovery.Identity.{default_deployment_id}
use lumen_sdk.Discovery.Mdns.{MdnsResolver}
use lumen_sdk.Discovery.Static.{StaticResolver, new_static_resolver}
use lumen_sdk.Client.Pool.{PoolOptions, normalized}

pub record BrokerResolver : Type 0 where
  pub broker_url : Text
  pub deployment_id : Text

pub data NodeResolver : Type 0 where
  mdns : MdnsResolver → NodeResolver
  broker : BrokerResolver → NodeResolver
  static : StaticResolver → NodeResolver

abbrev pub or_text : Text → Text → Text
or_text default given = if is_empty given then default else given

abbrev pub or_duration : ℕ → ℤ → ℤ
or_duration default given = if is_positive given then given else seconds default

unfoldable pub new_mdns_resolver : DiscoveryConfig → MdnsResolver
new_mdns_resolver d = record {
  service_type = or_text (codes "_lumen._tcp") d.service_type;
  domain = or_text (codes "local") d.domain;
  deployment_id = or_text default_deployment_id d.deployment_id;
  poll_interval = or_duration 30 d.scan_interval;
  query_timeout = or_duration 3 d.resolve_timeout;
}

unfoldable pub new_broker_resolver : Text → Text → BrokerResolver
new_broker_resolver broker_url deployment_id = record {
  broker_url = broker_url;
  deployment_id = or_text default_deployment_id deployment_id;
}

abbrev when_set : Bool → NodeResolver → List NodeResolver
when_set b r = if b then r ∷ [] else []

unfoldable pub resolvers_of : DiscoveryConfig → List NodeResolver
unfolding new_mdns_resolver new_broker_resolver new_static_resolver
resolvers_of d =
    if d.enabled
    then when_set d.mdns_enabled (mdns (new_mdns_resolver d))
      ++ (when_set (not (is_empty d.broker_url))
            (broker (new_broker_resolver d.broker_url d.deployment_id))
          ++ when_set (not (length d.static_nodes == 0))
              (static (new_static_resolver d.static_nodes d.deployment_id)))
    else []

abbrev pub pool_options : DiscoveryConfig → PoolOptions
pool_options d = record {
  connect_timeout = d.connect_timeout;
  rediscovery_backoff_min = d.rediscovery_backoff_min;
  rediscovery_backoff_max = d.rediscovery_backoff_max;
}

-- A client: the options of its pool as NewPoolWithOptions normalises them, and its resolvers.
pub record NewClient : Type 0 where
  pub options : PoolOptions
  pub resolvers : List NodeResolver

abbrev pub or_default : Option Config → Config
or_default none = default_config
or_default (some c) = c

abbrev pub client_of : PoolOptions → List NodeResolver → Option NewClient
client_of options [] = none
client_of options (r ∷ rs) = some (record { options = options; resolvers = r ∷ rs })

-- `none` is the error that no backend is configured.
unfoldable pub new_lumen_client : Option Config → Option NewClient
unfolding normalized resolvers_of
new_lumen_client cfg =
    let c = or_default cfg in
    client_of (normalized (pool_options c.discovery)) (resolvers_of c.discovery)
