-- ===== src/Client/New/Laws.antt =====
-- What the validation of a configuration gives to the pool of a client.
use lumen_sdk.Base.{
  ◌≡◌, refl, ap, sym, ◌∙◌, Bool, true, false, not, Option, none, some, Result, ok, ◌>>◌, List, [],
  ◌∷◌, Bool-cases, inl, inr, if◌then◌else◌, guard, arith, >>-eq-ok,
}
use lumen_sdk.Base.Int.{ℤ, pos, negsuc, ltb_ℤ}
use lumen_sdk.Config.{
  Config, DiscoveryConfig, ConfigError, is_positive, check_discovery, validate, no_service_type,
  no_deployment_id, bad_resolve_timeout, bad_connect_timeout, bad_backoff_min, bad_backoff_max,
}
use lumen_sdk.Base.Text.{is_empty}
use lumen_sdk.Client.Pool.{PoolOptions, is_unset, normalized}
use lumen_sdk.Client.Pool.Laws.{normalized_kept}
use lumen_sdk.Client.New.{
  pool_options, new_lumen_client, NewClient, NodeResolver, client_of, resolvers_of,
}

-- The timeouts that the pool takes are set and in order.
record IsTimed (d : DiscoveryConfig) : Type 0 where
  connect : is_positive d.connect_timeout ≡ true
  low : is_positive d.rediscovery_backoff_min ≡ true
  ordered : ltb_ℤ d.rediscovery_backoff_max d.rediscovery_backoff_min ≡ false

not-true : (b : Bool) → not b ≡ true → b ≡ false
not-true b e = ground arith

-- A check that has passed, and the checks after it.
passed :
    (b : Bool) (e : ConfigError) (rest : Result ConfigError (Unit {0}))
    → (guard b e >> rest) ≡ ok tt
    → (b ≡ true) × (rest ≡ ok tt)
passed true e rest h = (refl, h)
passed false e rest h = cc

check_discovery-IsTimed : (d : DiscoveryConfig) → check_discovery d ≡ ok tt → IsTimed d
unfolding check_discovery
check_discovery-IsTimed d e =
    let (_, e1) = passed (not (is_empty d.service_type)) no_service_type _ e in
    let (_, e2) = passed (not (is_empty d.deployment_id)) no_deployment_id _ e1 in
    let (_, e3) = passed (is_positive d.resolve_timeout) bad_resolve_timeout _ e2 in
    let (connect, e4) = passed (is_positive d.connect_timeout) bad_connect_timeout _ e3 in
    let (low, e5) = passed (is_positive d.rediscovery_backoff_min) bad_backoff_min _ e4 in
    let ordered = not (ltb_ℤ d.rediscovery_backoff_max d.rediscovery_backoff_min) in
    let (in_order, _) = passed ordered bad_backoff_max _ e5 in
    record {
      connect = connect;
      low = low;
      ordered = not-true (ltb_ℤ d.rediscovery_backoff_max d.rediscovery_backoff_min) in_order;
    }

is_unset-positive : (z : ℤ) → is_positive z ≡ true → is_unset z ≡ false
is_unset-positive (pos n) e = ground (arith, e)
is_unset-positive (negsuc n) e = ground (arith, e)

normalized-pool_options :
    (d : DiscoveryConfig) → IsTimed d → normalized (pool_options d) ≡ pool_options d
normalized-pool_options d timed =
    normalized_kept (pool_options d) (is_unset-positive d.connect_timeout timed.connect)
      (is_unset-positive d.rediscovery_backoff_min timed.low) timed.ordered

client_of-options :
    (o : PoolOptions) (rs : List NodeResolver) (client : NewClient)
    → client_of o rs ≡ some client
    → client.options ≡ o
client_of-options o [] client e = cc
client_of-options o (r ∷ rs) client e = sym (ap (λ n. or_given n) e)
  where
    or_given : Option NewClient → PoolOptions
    or_given none = o
    or_given (some n) = n.options

client_of-none : (o : PoolOptions) (rs : List NodeResolver) → rs ≡ [] → client_of o rs ≡ none
client_of-none o rs e = ap (client_of o) e

-- A configuration without discovery has no resolver.
resolvers_of-disabled : (d : DiscoveryConfig) → d.enabled ≡ false → resolvers_of d ≡ []
unfolding resolvers_of
resolvers_of-disabled d e = rw e refl

enabled-IsTimed :
    (c : Config) (client : NewClient)
    → validate c ≡ ok tt
    → new_lumen_client (some c) ≡ some client
    → IsTimed c.discovery
unfolding validate new_lumen_client
enabled-IsTimed c client v e = elim (Bool-cases c.discovery.enabled) [
  | inl on ↦
      check_discovery-IsTimed c.discovery (checked c.discovery.enabled on ((>>-eq-ok _ _ v).0))
  | inr off ↦ absurd (
      both
        (client_of-none (normalized (pool_options c.discovery)) (resolvers_of c.discovery)
          (resolvers_of-disabled c.discovery off))
        e)
]
  where
    checked :
        (on : Bool)
        → on ≡ true
        → (if on then check_discovery c.discovery else ok tt) ≡ ok tt
        → check_discovery c.discovery ≡ ok tt
    checked true on e = e
    checked false on e = cc

    both : {o : Option NewClient} → o ≡ none → o ≡ some client → ⊥
    both e f = cc

-- A client that NewLumenClient makes of a configuration that Validate accepts has a pool with the
-- timeouts of the configuration: none of them is replaced by a default, and the maximal backoff is not
-- less than the minimal one.
pub new_lumen_client-options :
    (c : Config) (client : NewClient)
    → validate c ≡ ok tt
    → new_lumen_client (some c) ≡ some client
    → (client.options ≡ pool_options c.discovery)
      × (ltb_ℤ client.options.rediscovery_backoff_max client.options.rediscovery_backoff_min
          ≡ false)
unfolding new_lumen_client
new_lumen_client-options c client v e =
    (same, ap (λ o. ltb_ℤ o.rediscovery_backoff_max o.rediscovery_backoff_min) same ∙ timed.ordered)
  where
    timed : IsTimed c.discovery
    timed = enabled-IsTimed c client v e

    same : client.options ≡ pool_options c.discovery
    same =
        client_of-options (normalized (pool_options c.discovery)) (resolvers_of c.discovery) client
          e
        ∙ normalized-pool_options c.discovery timed
