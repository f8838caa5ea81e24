-- ===== src/Config/Tests.antt =====
-- The default configuration, and overrides of it.
use lumen_sdk.Base.{◌≡◌, refl, if◌then◌else◌, [], ◌∷◌, none, ok, err}
use lumen_sdk.Base.Int.{pos}
use lumen_sdk.Base.Text.{Text, codes, text_eq}
use lumen_sdk.Discovery.Static.{new_static_resolver, static_watch}
use lumen_sdk.Config.{Config, default_config, validate, bad_port, bad_variable}
use lumen_sdk.Config.Env.{load_from_env, load_config}

default_is_valid : validate default_config ≡ ok tt
unfolding validate
default_is_valid = refl

abbrev port_80000 : Config
port_80000 = record default_config { broker = record default_config.broker { port = pos 80000 } }

port_is_refused : validate port_80000 ≡ err bad_port
unfolding validate
port_is_refused = refl

-- An endpoint that is accepted, and that the static resolver does not resolve.
abbrev named_port : Config
named_port = record default_config {
  discovery = record default_config.discovery { static_nodes = codes "gpu:http" ∷ [] };
}

named_port_is_lost :
    (validate named_port ≡ ok tt)
    × (static_watch (new_static_resolver named_port.discovery.static_nodes (codes "")) ≡ [])
unfolding validate static_watch new_static_resolver
named_port_is_lost = (refl, refl)

abbrev env : Text → Text
env name =
    if text_eq name (codes "LUMEN_BROKER_PORT")
    then codes " 8080 "
    else if text_eq name (codes "LUMEN_DISCOVERY_STATIC_NODES")
    then codes "a:1, ,b:2"
    else codes ""

overridden :
    load_config env (λ v. none) default_config
    ≡ ok (record default_config {
      discovery = record default_config.discovery { static_nodes = codes "a:1" ∷ codes "b:2" ∷ [] };
      broker = record default_config.broker { port = pos 8080 };
    })
unfolding load_config text_eq
overridden = refl

abbrev bad_env : Text → Text
bad_env name = if text_eq name (codes "LUMEN_DISCOVERY_ENABLED") then codes "yes" else codes ""

yes_is_no_bool :
    load_from_env bad_env (λ v. none) default_config
    ≡ err (bad_variable (codes "LUMEN_DISCOVERY_ENABLED"))
unfolding load_from_env text_eq
yes_is_no_bool = refl
