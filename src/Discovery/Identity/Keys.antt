-- ===== src/Discovery/Identity/Keys.antt =====
-- Keys of identities: what they tell apart, and how an identity is read back from one.
use lumen_sdk.Base.{
  ◌≡◌, ◌≢◌, refl, sym, ap, ◌∙◌, subst, true, [], ◌∷◌, ◌++◌, arith, length, ltb, lt→ltb,
  append_assoc,
}
use lumen_sdk.Base.Text.{Text, codes, trim_space, trim_space_idem, trim_suffix, trim, is_space}
use lumen_sdk.Base.Text.Trimmed.{
  trim-append, has_prefix-append, drop-length, length-append, trim_suffix-append,
}
use lumen_sdk.Discovery.Identity.{
  NodeIdentity, new_node_identity, normalized_identity, key, key_from, parse_node_identity,
  parse_from, dash, or_default_deployment,
}

-- An identity that `Normalized` leaves as it is, with a node id.
pub record IsNormal (i : NodeIdentity) : Type 0 where
  pub deployment : trim_space i.deployment_id ≡ i.deployment_id
  pub node : trim_space i.node_id ≡ i.node_id
  pub deployment_set : i.deployment_id ≢ []
  pub node_set : i.node_id ≢ []

or_default_set : (s : Text) → s ≢ [] → or_default_deployment s ≡ s
unfolding or_default_deployment
or_default_set [] h = absurd (h refl)
or_default_set (c ∷ s) h = refl

new_node_identity_lem :
    (i : NodeIdentity) → IsNormal i → new_node_identity i.deployment_id i.node_id ≡ i
unfolding new_node_identity
new_node_identity_lem i n =
    rw (n.deployment, n.node, or_default_set i.deployment_id n.deployment_set) refl

key_from_lem : (i : NodeIdentity) → i.node_id ≢ [] → key_from i ≡ dash i.deployment_id ++ i.node_id
unfolding key_from
key_from_lem i h = go i.node_id refl h
  where
    go : (n : Text) → i.node_id ≡ n → n ≢ [] → key_from i ≡ dash i.deployment_id ++ i.node_id
    go [] e h = absurd (h refl)
    go (c ∷ n) e h = rw e (sym (append_assoc i.deployment_id (codes "-") (c ∷ n)))

key_lem : (i : NodeIdentity) → IsNormal i → key i ≡ dash i.deployment_id ++ i.node_id
unfolding key normalized_identity
key_lem i n = ap key_from (new_node_identity_lem i n) ∙ key_from_lem i n.node_set

-- A name that starts with the default deployment and a dash is split behind them.
parse_from-dash :
    (d n : Text) → d ≢ [] → n ≢ [] → parse_from (dash d ++ n) d ≡ new_node_identity d n
unfolding parse_from
parse_from-dash [] n h k = absurd (h refl)
parse_from-dash d [] h k = absurd (k refl)
parse_from-dash (c ∷ d) (b ∷ n) h k =
    let prefix = dash (c ∷ d) in
    let longer : ltb (length prefix) (length (prefix ++ b ∷ n)) ≡ true =
      lt→ltb (length prefix) (length (prefix ++ b ∷ n))
        (omega (arith, length-append prefix (b ∷ n))) in
    rw (has_prefix-append prefix (b ∷ n), longer)
      (ap (new_node_identity (c ∷ d)) (drop-length prefix (b ∷ n)))

trim_suffix-key :
    (d n : Text) → n ≢ [] → trim_suffix n b'.' ≡ n → trim_suffix (dash d ++ n) b'.' ≡ dash d ++ n
trim_suffix-key d [] h e = absurd (h refl)
trim_suffix-key d (c ∷ n) h e = trim_suffix-append (dash d) c n b'.' ∙ ap (λ t. dash d ++ t) e

trim_space-key :
    (i : NodeIdentity)
    → IsNormal i
    → trim_space (dash i.deployment_id ++ i.node_id) ≡ dash i.deployment_id ++ i.node_id
unfolding trim_space
trim_space-key i n =
    subst (λ s. trim_space s ≡ s) (sym (append_assoc i.deployment_id (codes "-") i.node_id))
      (trim-append is_space i.deployment_id (codes "-") i.node_id n.deployment_set n.node_set
        n.deployment n.node)

-- The instance name that is the key of an identity, read with its own deployment as the default, gives
-- the identity back, if the identity is normal and its node id does not end in a dot.
pub parse_node_identity-key :
    (i : NodeIdentity)
    → IsNormal i
    → trim_suffix i.node_id b'.' ≡ i.node_id
    → parse_node_identity (key i) i.deployment_id ≡ i
unfolding parse_node_identity
parse_node_identity-key i n h =
    let d = i.deployment_id in
    let name = dash d ++ i.node_id in
    ap (λ s. parse_node_identity s d) (key_lem i n)
    ∙ ap (λ s. parse_from (trim_space s) (or_default_deployment (trim_space d)))
        (trim_suffix-key d i.node_id n.node_set h)
    ∙ ap (λ s. parse_from s (or_default_deployment (trim_space d))) (trim_space-key i n)
    ∙ ap (parse_from name)
        (ap or_default_deployment n.deployment ∙ or_default_set d n.deployment_set)
    ∙ parse_from-dash d i.node_id n.deployment_set n.node_set
    ∙ new_node_identity_lem i n

or_default-trimmed :
    (s : Text) → trim_space s ≡ s → trim_space (or_default_deployment s) ≡ or_default_deployment s
unfolding or_default_deployment trim_space trim is_space
or_default-trimmed [] h = refl
or_default-trimmed (c ∷ s) h = h

or_default_deployment_idem :
    (s : Text) → or_default_deployment (or_default_deployment s) ≡ or_default_deployment s
unfolding or_default_deployment
or_default_deployment_idem [] = refl
or_default_deployment_idem (c ∷ s) = refl

-- Normalizing an identity twice does what doing it once does.
pub normalized_identity_idem :
    (i : NodeIdentity) → normalized_identity (normalized_identity i) ≡ normalized_identity i
unfolding normalized_identity new_node_identity
normalized_identity_idem i = cc (
  or_default-trimmed (trim_space i.deployment_id) (trim_space_idem i.deployment_id),
  or_default_deployment_idem (trim_space i.deployment_id),
  trim_space_idem i.node_id,
)

-- The key does not tell every two nodes apart: two normal identities in different deployments, with
-- different node ids, have one key.
pub key_collision :
    (a b c : Text)
    → IsNormal (record { deployment_id = a; node_id = b ++ (codes "-" ++ c) })
    → IsNormal (record { deployment_id = a ++ (codes "-" ++ b); node_id = c })
    → key (record { deployment_id = a; node_id = b ++ (codes "-" ++ c) })
      ≡ key (record { deployment_id = a ++ (codes "-" ++ b); node_id = c })
key_collision a b c m n =
    key_lem _ m
    ∙ append_assoc a (codes "-") (b ++ (codes "-" ++ c))
    ∙ sym (append_assoc a (codes "-" ++ b) (codes "-" ++ c))
    ∙ sym (append_assoc (a ++ (codes "-" ++ b)) (codes "-") c)
    ∙ sym (key_lem _ n)
