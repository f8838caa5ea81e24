-- ===== src/Discovery/Wire/Endpoint.antt =====
-- The endpoint at which a node of the host broker is dialled.
use lumen_sdk.Base.{ℕ, ◌^◌, ◌<◌, ◌≡◌, refl, ap, ◌∙◌, false, [], ◌∷◌, some, ◌==◌, arith}
use lumen_sdk.Base.Int.{pos}
use lumen_sdk.Base.Text.{Text, is_empty, itoa}
use lumen_sdk.Base.Text.HostPort.{join_host_port, has_bracket}
use lumen_sdk.Base.Text.HostPort.RoundTrip.{split_host_port-join_host_port, itoa-clean, atoi-itoa}
use lumen_sdk.Base.Unique.{visit_all-one}
use lumen_sdk.Discovery.Identity.{
  normalize_addresses, clean_address, candidate_endpoints, endpoints_from, normalized,
}
use lumen_sdk.Discovery.Wire.{BrokerNode, split_address, broker_addresses, broker_resolved, port_in}

-- A host name or an IP address: no brackets and no white space around it.
pub record IsHost (host : Text) : Type 0 where
  pub set : is_empty host ≡ false
  pub plain : has_bracket host ≡ false
  pub trimmed : clean_address host ≡ host

-- The node gives one address, and no list of addresses or port beside it, as the host broker sends it.
pub record HasAddress (n : BrokerNode) (host : Text) (port : ℕ) : Type 0 where
  pub address : n.address ≡ join_host_port host (itoa port)
  pub others : n.addresses ≡ []
  pub no_port : n.port ≡ pos 0

split_address-join_host_port :
    (host : Text) (port : ℕ)
    → IsHost host
    → port < 2 ^ 63
    → split_address (join_host_port host (itoa port)) ≡ some (host, pos port)
unfolding split_address
split_address-join_host_port host port is h =
    ap (port_in (join_host_port host (itoa port))) (
      split_host_port-join_host_port host (itoa port) is.plain
        (rw (itoa-clean b'[' port (omega arith), itoa-clean b']' port (omega arith)) refl)
        (itoa-clean b':' port (omega arith)))
    ∙ rw (atoi-itoa port h, port_in) refl

joined_is_set :
    (host port : Text) → is_empty host ≡ false → is_empty (join_host_port host port) ≡ false
unfolding join_host_port
joined_is_set [] port h = cc
joined_is_set (c ∷ s) port h = ground arith

broker_addresses-HasAddress :
    (n : BrokerNode) (host : Text) (port : ℕ)
    → IsHost host
    → port < 2 ^ 63
    → HasAddress n host port
    → broker_addresses n ≡ (host ∷ [], pos port)
unfolding broker_addresses
broker_addresses-HasAddress n host port is h has =
    rw
      (
        has.address,
        joined_is_set host (itoa port) is.set,
        split_address-join_host_port host port is h,
        has.others,
        has.no_port,
      )
      refl

one_address : (host : Text) → IsHost host → normalize_addresses (host ∷ []) ≡ host ∷ []
unfolding normalize_addresses
one_address host is = visit_all-one clean_address host host is.trimmed is.set

-- A positive port gives one endpoint for each address.
endpoints_from-one :
    (host : Text) (port : ℕ)
    → 0 < port
    → endpoints_from (host ∷ []) (pos port) ≡ join_host_port host (itoa port) ∷ []
unfolding endpoints_from
endpoints_from-one host port h = rw (not_zero port h) refl
  where
    not_zero : (n : ℕ) → 0 < n → (n == 0) ≡ false
    not_zero n h = ground arith

-- A node of the host broker whose address is a host and a positive port, as JoinHostPort joins them, is
-- dialled at exactly that address, whatever its tasks and TXT records.
pub candidate_endpoints-broker_resolved :
    (n : BrokerNode) (deployment host : Text) (port : ℕ)
    → IsHost host
    → 0 < port
    → port < 2 ^ 63
    → HasAddress n host port
    → candidate_endpoints (broker_resolved n deployment) ≡ n.address ∷ []
unfolding candidate_endpoints broker_resolved normalized
candidate_endpoints-broker_resolved n deployment host port is low high has =
    rw
      (
        broker_addresses-HasAddress n host port is high has,
        one_address host is,
        one_address host is,
        endpoints_from-one host port low,
        has.address,
      )
      refl
