-- ===== src/Config.antt =====
-- pkg/config: the configuration, its defaults, the overrides by environment variables, and its validation. The
-- environment is a function, in which a variable that is not set is empty; time.ParseDuration is the
-- argument `parse_duration`. Reading and writing the YAML file is I/O.
pub mod Env
mod Tests
use lumen_sdk.Base.{
  ℕ, ◌*◌, Bool, true, false, not, ◌||◌, ◌&&◌, if◌then◌else◌, List, [], ◌∷◌, Option, none, some,
  Result, ok, err, ◌>>=◌, ◌>>◌, guard,
}
use lumen_sdk.Base.Int.{ℤ, pos, negsuc, ltb_ℤ}
use lumen_sdk.Base.Text.{Text, codes, text_eq, is_empty, trim_space, split}
use lumen_sdk.Base.Text.HostPort.{split_host_port, atoi}
use lumen_sdk.Client.Chunker.{ChunkConfig}

pub record DiscoveryConfig : Type 0 where
  pub enabled : Bool
  pub service_type : Text
  pub domain : Text
  pub deployment_id : Text
  pub resolve_timeout : ℤ
  pub connect_timeout : ℤ
  pub rediscovery_backoff_min : ℤ
  pub rediscovery_backoff_max : ℤ
  pub scan_interval : ℤ
  pub mdns_enabled : Bool
  pub broker_url : Text
  pub static_nodes : List Text

pub record BrokerConfig : Type 0 where
  pub enabled : Bool
  pub host : Text
  pub port : ℤ

pub record LoggingConfig : Type 0 where
  pub level : Text
  pub format : Text
  pub output : Text

pub record Config : Type 0 where
  pub discovery : DiscoveryConfig
  pub broker : BrokerConfig
  pub logging : LoggingConfig
  pub chunk : ChunkConfig

pub data ConfigError : Type 0 where
  bad_variable : (name : Text) → ConfigError
  no_service_type no_deployment_id bad_resolve_timeout bad_connect_timeout : ConfigError
  bad_backoff_min bad_backoff_max bad_scan_interval bad_port : ConfigError
  bad_static_node bad_log_level bad_log_format : Text → ConfigError

abbrev pub seconds : ℕ → ℤ
seconds n = pos (n * 1000000000)

abbrev pub default_config : Config
default_config = record {
  discovery = record {
    enabled = true;
    service_type = codes "_lumen._tcp";
    domain = codes "local";
    deployment_id = codes "local";
    resolve_timeout = seconds 10;
    connect_timeout = seconds 10;
    rediscovery_backoff_min = seconds 10;
    rediscovery_backoff_max = seconds 120;
    scan_interval = seconds 30;
    mdns_enabled = true;
    broker_url = codes "";
    static_nodes = [];
  };
  broker = record { enabled = true; host = codes "0.0.0.0"; port = pos 5866 };
  logging = record { level = codes "info"; format = codes "json"; output = codes "stdout" };
  chunk = record { enable_auto = true; threshold = pos 1048576; max_chunk_bytes = pos 262144 };
}

abbrev pub is_any : List Text → Text → Bool
unfolding text_eq
is_any [] t = false
is_any (x ∷ xs) t = text_eq t x || is_any xs t

-- strconv.ParseBool
unfoldable pub parse_bool : Text → Option Bool
unfolding text_eq
parse_bool v =
    if is_any (codes "1" ∷ codes "t" ∷ codes "T" ∷ codes "TRUE" ∷ codes "true" ∷ codes "True" ∷ [])
      v
    then some true
    else if is_any
        (codes "0" ∷ codes "f" ∷ codes "F" ∷ codes "FALSE" ∷ codes "false" ∷ codes "False" ∷ []) v
    then some false
    else none

unfoldable pub parse_port : Text → Option ℤ
unfolding trim_space atoi
parse_port s = atoi (trim_space s)

-- `v <= 0` of a duration or a port
abbrev pub is_positive : ℤ → Bool
is_positive z = ltb_ℤ (pos 0) z

abbrev pub check_nodes : List Text → Result ConfigError (Unit {0})
unfolding split_host_port trim_space
check_nodes [] = ok tt
check_nodes (node ∷ nodes) = elim (split_host_port (trim_space node)) [
  | none ↦ err (bad_static_node node)
  | some _ ↦ check_nodes nodes
]

unfoldable pub check_discovery : DiscoveryConfig → Result ConfigError (Unit {0})
unfolding split_host_port trim_space
check_discovery d =
    guard (not (is_empty d.service_type)) no_service_type
    >> (guard (not (is_empty d.deployment_id)) no_deployment_id
        >> (guard (is_positive d.resolve_timeout) bad_resolve_timeout
            >> (guard (is_positive d.connect_timeout) bad_connect_timeout
                >> (guard (is_positive d.rediscovery_backoff_min) bad_backoff_min
                    >> (guard (not (ltb_ℤ d.rediscovery_backoff_max d.rediscovery_backoff_min))
                          bad_backoff_max
                        >> (guard (not (ltb_ℤ d.scan_interval (pos 0))) bad_scan_interval
                            >> check_nodes d.static_nodes))))))

abbrev pub valid_log_level : List Text
valid_log_level = codes "debug" ∷ codes "info" ∷ codes "warn" ∷ codes "error" ∷ codes "fatal" ∷ []

abbrev pub valid_log_format : List Text
valid_log_format = codes "json" ∷ codes "text" ∷ []

unfoldable pub validate : Config → Result ConfigError (Unit {0})
unfolding text_eq check_discovery
validate c =
    (if c.discovery.enabled then check_discovery c.discovery else ok tt)
    >> (guard
          (not c.broker.enabled || (is_positive c.broker.port && ltb_ℤ c.broker.port (pos 65536)))
          bad_port
        >> (guard (is_any valid_log_level c.logging.level) (bad_log_level c.logging.level)
            >> guard (is_any valid_log_format c.logging.format) (bad_log_format c.logging.format)))
