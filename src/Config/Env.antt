-- ===== src/Config/Env.antt =====
-- pkg/config/config.go: the overrides of the configuration by environment variables, and what LoadConfig does
-- after it has read the file.
use lumen_sdk.Base.{
  Bool, if◌then◌else◌, List, [], ◌∷◌, Option, none, some, Result, ok, err, ◌>>=◌, ◌>>◌,
}
use lumen_sdk.Base.Int.{ℤ}
use lumen_sdk.Base.Text.{Text, codes, is_empty, trim_space, split}
use lumen_sdk.Config.{
  Config, DiscoveryConfig, ConfigError, bad_variable, parse_bool, parse_port, validate,
}

-- One override: nothing if the variable is empty.
abbrev pub with_env :
    (Text → Text)
    → Text
    → (Text → Config → Result ConfigError Config)
    → Config
    → Result ConfigError Config
with_env getenv name set c = if is_empty (getenv name) then ok c else set (getenv name) c

-- A value that is parsed, and the error that names the variable.
abbrev pub parsed {ℓ} : {A : Type ℓ} → Text → Option A → (A → Config) → Result ConfigError Config
parsed name none set = err (bad_variable name)
parsed name (some a) set = ok (set a)

abbrev pub on_discovery : (DiscoveryConfig → DiscoveryConfig) → Config → Config
on_discovery set c = record c { discovery = set c.discovery }

abbrev pub named_parts : List Text → List Text
unfolding trim_space
named_parts [] = []
named_parts (part ∷ parts) =
    let rest = named_parts parts in
    if is_empty (trim_space part) then rest else trim_space part ∷ rest

module _ (getenv : Text → Text) (parse_duration : Text → Option ℤ) where
  abbrev pub env_bool :
      Text → (Bool → DiscoveryConfig → DiscoveryConfig) → Config → Result ConfigError Config
  unfolding parse_bool
  env_bool name set =
      with_env getenv name (λ v c. parsed name (parse_bool v) (λ b. on_discovery (set b) c))

  abbrev pub env_text :
      Text → (Text → DiscoveryConfig → DiscoveryConfig) → Config → Result ConfigError Config
  env_text name set = with_env getenv name (λ v c. ok (on_discovery (set v) c))

  abbrev pub env_duration :
      Text → (ℤ → DiscoveryConfig → DiscoveryConfig) → Config → Result ConfigError Config
  env_duration name set =
      with_env getenv name (λ v c. parsed name (parse_duration v) (λ d. on_discovery (set d) c))

  unfoldable pub load_from_env : Config → Result ConfigError Config
  unfolding parse_bool parse_port trim_space split
  load_from_env c =
      env_bool (codes "LUMEN_DISCOVERY_ENABLED") (λ b d. record d { enabled = b }) c
      >>= env_text (codes "LUMEN_DISCOVERY_SERVICE_TYPE") (λ v d. record d { service_type = v })
      >>= env_text (codes "LUMEN_DISCOVERY_DOMAIN") (λ v d. record d { domain = v })
      >>= env_text (codes "LUMEN_DISCOVERY_DEPLOYMENT_ID") (λ v d. record d { deployment_id = v })
      >>= env_duration (codes "LUMEN_DISCOVERY_RESOLVE_TIMEOUT")
          (λ t d. record d { resolve_timeout = t })
      >>= env_duration (codes "LUMEN_DISCOVERY_CONNECT_TIMEOUT")
          (λ t d. record d { connect_timeout = t })
      >>= env_duration (codes "LUMEN_DISCOVERY_REDISCOVERY_BACKOFF_MIN")
          (λ t d. record d { rediscovery_backoff_min = t })
      >>= env_duration (codes "LUMEN_DISCOVERY_REDISCOVERY_BACKOFF_MAX")
          (λ t d. record d { rediscovery_backoff_max = t })
      >>= env_bool (codes "LUMEN_DISCOVERY_MDNS_ENABLED") (λ b d. record d { mdns_enabled = b })
      >>= env_text (codes "LUMEN_DISCOVERY_BROKER_URL") (λ v d. record d { broker_url = v })
      >>= env_text (codes "LUMEN_DISCOVERY_STATIC_NODES")
          (λ v d. record d { static_nodes = named_parts (split b',' v) })
      >>= with_env getenv (codes "LUMEN_BROKER_HOST")
          (λ v c. ok (record c { broker = record c.broker { host = v } }))
      >>= with_env getenv (codes "LUMEN_BROKER_PORT") (λ v c.
        parsed (codes "LUMEN_BROKER_PORT") (parse_port v)
          (λ p. record c { broker = record c.broker { port = p } }))
      >>= with_env getenv (codes "LUMEN_LOG_LEVEL")
          (λ v c. ok (record c { logging = record c.logging { level = v } }))
      >>= with_env getenv (codes "LUMEN_LOG_FORMAT")
          (λ v c. ok (record c { logging = record c.logging { format = v } }))
      >>= with_env getenv (codes "LUMEN_LOG_OUTPUT")
          (λ v c. ok (record c { logging = record c.logging { output = v } }))

  -- The overrides and the validation of what was read from the file.
  unfoldable pub load_config : Config → Result ConfigError Config
  unfolding load_from_env validate
  load_config read = load_from_env read >>= (λ c. validate c >> ok c)
