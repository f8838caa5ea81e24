-- ===== src/Discovery/Identity/Tests.antt =====
-- The theorems on identities at concrete ones, and a few runs.
use lumen_sdk.Base.{◌≡◌, refl, List, [], ◌∷◌, ◌++◌, none, some}
use lumen_sdk.Base.Int.{pos}
use lumen_sdk.Base.Text.{codes, trim_space}
use lumen_sdk.Discovery.Identity.{NodeIdentity, key, parse_node_identity, candidate_endpoints}
use lumen_sdk.Discovery.Identity.Keys.{IsNormal, parse_node_identity-key, key_collision}

abbrev garage : NodeIdentity
garage = record { deployment_id = codes "home"; node_id = codes "garage-2" }

garage-IsNormal : IsNormal garage
unfolding trim_space
garage-IsNormal = record {
  deployment = refl;
  node = refl;
  deployment_set = λ e. cc;
  node_set = λ e. cc;
}

parse_node_identity-key_example : parse_node_identity (key garage) (codes "home") ≡ garage
unfolding lumen_sdk.Base.Text.trim_suffix
parse_node_identity-key_example = parse_node_identity-key garage garage-IsNormal refl

low-IsNormal :
    IsNormal (record { deployment_id = codes "a"; node_id = codes "b" ++ (codes "-" ++ codes "c") })
unfolding trim_space
low-IsNormal = record {
  deployment = refl;
  node = refl;
  deployment_set = λ e. cc;
  node_set = λ e. cc;
}

high-IsNormal :
    IsNormal (record { deployment_id = codes "a" ++ (codes "-" ++ codes "b"); node_id = codes "c" })
unfolding trim_space
high-IsNormal = record {
  deployment = refl;
  node = refl;
  deployment_set = λ e. cc;
  node_set = λ e. cc;
}

key_collision_example :
    key (record { deployment_id = codes "a"; node_id = codes "b" ++ (codes "-" ++ codes "c") })
    ≡ key (record { deployment_id = codes "a" ++ (codes "-" ++ codes "b"); node_id = codes "c" })
key_collision_example = key_collision (codes "a") (codes "b") (codes "c") low-IsNormal high-IsNormal

v6_endpoint :
    candidate_endpoints (record {
      identity = garage;
      instance_name = [];
      host_name = [];
      addresses = codes "[fe80::1]" ∷ codes "" ∷ codes "fe80::1" ∷ [];
      port = pos 50051;
      txt = none;
      expires_at = none;
    })
    ≡ codes "[fe80::1]:50051" ∷ []
unfolding candidate_endpoints
v6_endpoint = refl
