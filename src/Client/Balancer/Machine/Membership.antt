-- ===== src/Client/Balancer/Machine/Membership.antt =====
-- Which nodes the balancer holds after an update of the resolver.
use lumen_sdk.Base.{
  ℕ, ◌≡◌, refl, ap, subst, ◌∙◌, Bool, true, false, not, ◌&&◌, ◌||◌, if◌then◌else◌, List, [], ◌∷◌,
  Option, none, some, arith, Bool-cases, Option-cases, inl, inr, length,
}
use lumen_sdk.Base.Text.{Text, text_eq, text_eq_iff, text_eq_refl}
use lumen_sdk.Base.Dict.{lookup, insert, lookup-insert, lookup-delete}
use lumen_sdk.Base.Unique.{is_some}
use lumen_sdk.Discovery.Identity.{key}
use lumen_sdk.Client.Balancer.State.{Balancer, Address, NodeAttr, sync_registry, rebuild_picker}
use lumen_sdk.Client.Balancer.Handlers.{
  Dial, add_node, visit_node, visit_addresses, drop_sub_conn, prune, prune_inactive,
  update_client_conn_state,
}

abbrev has_key : Text → Option NodeAttr → Bool
has_key k none = false
has_key k (some attr) = text_eq (key attr.identity) k

-- Some address of the list belongs to the node.
abbrev pub names_key : List Address → Text → Bool
names_key [] k = false
names_key (addr ∷ addrs) k = has_key k addr.attr || names_key addrs k

abbrev prune_one : List (Text × Unit {0}) → Text → ℕ → Balancer → Balancer
prune_one active j p lb = if is_some (lookup j active) then lb else drop_sub_conn j p lb

lookup-prune_one :
    (active : List (Text × Unit {0})) (j : Text) (p : ℕ) (lb : Balancer) (k : Text)
    → lookup k (prune_one active j p lb).sub_conns
      ≡ (if text_eq j k && not (is_some (lookup k active)) then none else lookup k lb.sub_conns)
lookup-prune_one active j p lb k = elim (Bool-cases (text_eq j k)) [
  | inl same ↦
      let e : j ≡ k = (text_eq_iff j k).0 same in
      elim (Bool-cases (is_some (lookup j active))) [
        | inl kept ↦
            let kept' = subst (λ x. is_some (lookup x active) ≡ true) e kept in
            rw (kept, same, kept') refl
        | inr gone ↦
            let gone' = subst (λ x. is_some (lookup x active) ≡ false) e gone in
            rw (gone, same, gone') (lookup-delete j k lb.sub_conns ∙ rw same refl)
      ]
  | inr other ↦ elim (Bool-cases (is_some (lookup j active))) [
    | inl kept ↦ rw (kept, other) refl
    | inr gone ↦ rw (gone, other) (lookup-delete j k lb.sub_conns ∙ rw other refl)
  ]
]

either_test :
    (o : Option ℕ) (a b : Bool) (p : ℕ) {x : Option ℕ} (y : Option ℕ)
    → x ≡ (if a && not b then none else y)
    → (if is_some o && not b then none else x)
      ≡ (if is_some (if a then some p else o) && not b then none else y)
either_test o true true p y e = ground (arith, e)
either_test o true false p y e = ground (arith, e)
either_test o false true p y e = ground (arith, e)
either_test o false false p y e = ground (arith, e)

lookup-prune :
    (active : List (Text × Unit {0})) (m : List (Text × ℕ)) (lb : Balancer) (k : Text)
    → lookup k (prune active m lb).sub_conns ≡ (
        if is_some (lookup k m) && not (is_some (lookup k active))
        then none
        else lookup k lb.sub_conns)
unfolding prune lookup
lookup-prune active [] lb k = refl
lookup-prune active ((j, p) ∷ m) lb k =
    let later = lookup-prune active m (prune_one active j p lb) k in
    let first = lookup-prune_one active j p lb k in
    later
    ∙ either_test (lookup k m) (text_eq j k) (is_some (lookup k active)) p (lookup k lb.sub_conns)
        first

insert-keeps :
    (j k : Text) (v : ℕ) (m : List (Text × ℕ)) {p : ℕ}
    → lookup j m ≡ none
    → lookup k m ≡ some p
    → lookup k (insert j v m) ≡ some p
insert-keeps j k v m unknown e = elim (Bool-cases (text_eq j k)) [
  | inl same ↦
      let unknown' = subst (λ x. lookup x m ≡ none) ((text_eq_iff j k).0 same) unknown in
      absurd (ground (arith, e, unknown'))
  | inr other ↦ lookup-insert j k v m ∙ rw other e
]

inserted : (k : Text) (v : ℕ) (m : List (Text × ℕ)) → is_some (lookup k (insert k v m)) ≡ true
inserted k v m = rw (lookup-insert k k v m, text_eq_refl k) refl

-- What the second loop leaves of an entry, where `active` tells whether the node is active.
kept_if : Bool → Option ℕ → Option ℕ
kept_if active o = if active then o else none

after_prune :
    (o : Option ℕ) (a n : Bool) → a ≡ n → (if is_some o && not a then none else o) ≡ kept_if n o
unfolding kept_if
after_prune none a true e = refl
after_prune none a false e = refl
after_prune (some p) a true e = rw e refl
after_prune (some p) a false e = rw e refl

module _ (dial : Dial) where
  visit_node-keeps :
      (j : Text) (addr : Address) (attr : NodeAttr) (lb : Balancer) (k : Text) {p : ℕ}
      → lookup k lb.sub_conns ≡ some p
      → lookup k (visit_node dial j addr attr lb).sub_conns ≡ some p
  unfolding visit_node add_node
  visit_node-keeps j addr attr lb k e = elim (Option-cases (lookup j lb.sub_conns)) [
    | inl unknown ↦ elim (Option-cases (dial (length lb.effects) addr)) [
      | inl failed ↦ rw (unknown, visit_node) (rw (failed, add_node) e)
      | inr (sc, made) ↦
          rw (unknown, visit_node)
            (rw (made, add_node) (insert-keeps j k lb.next lb.sub_conns unknown e))
    ]
    | inr (q, known) ↦ rw (known, visit_node) e
  ]

  visit_node-adds :
      (k : Text) (addr : Address) (attr : NodeAttr) (lb : Balancer)
      → ((n : ℕ) (a : Address) → is_some (dial n a) ≡ true)
      → is_some (lookup k (visit_node dial k addr attr lb).sub_conns) ≡ true
  unfolding visit_node add_node
  visit_node-adds k addr attr lb dials = elim (Option-cases (lookup k lb.sub_conns)) [
    | inl unknown ↦ elim (Option-cases (dial (length lb.effects) addr)) [
      | inl failed ↦ absurd (ground (arith, dials (length lb.effects) addr))
      | inr (sc, made) ↦
          rw (unknown, visit_node) (rw (made, add_node) (inserted k lb.next lb.sub_conns))
    ]
    | inr (q, known) ↦ rw (known, visit_node) (rw known refl)
  ]

  visit_addresses-keeps :
      (addrs : List Address) (active : List (Text × Unit {0})) (lb : Balancer) (k : Text) {p : ℕ}
      → lookup k lb.sub_conns ≡ some p
      → lookup k (visit_addresses dial addrs active lb).1.sub_conns ≡ some p
  unfolding visit_addresses
  visit_addresses-keeps [] active lb k e = e
  visit_addresses-keeps (addr ∷ addrs) active lb k e = elim (Option-cases addr.attr) [
    | inl bare ↦ rw (bare, visit_addresses) (visit_addresses-keeps addrs active lb k e)
    | inr (attr, has) ↦
        rw (has, visit_addresses)
          (visit_addresses-keeps addrs (insert (key attr.identity) tt active)
            (visit_node dial (key attr.identity) addr attr lb) k
            (visit_node-keeps (key attr.identity) addr attr lb k e))
  ]

  lookup-active :
      (addrs : List Address) (active : List (Text × Unit {0})) (lb : Balancer) (k : Text)
      → is_some (lookup k (visit_addresses dial addrs active lb).0)
        ≡ (is_some (lookup k active) || names_key addrs k)
  unfolding visit_addresses
  lookup-active [] active lb k = ground arith
  lookup-active (addr ∷ addrs) active lb k = elim (Option-cases addr.attr) [
    | inl bare ↦ rw (bare, visit_addresses) (lookup-active addrs active lb k)
    | inr (attr, has) ↦
        let first = lookup-insert (key attr.identity) k tt active in
        let later =
          lookup-active addrs (insert (key attr.identity) tt active)
            (visit_node dial (key attr.identity) addr attr lb) k in
        rw (has, visit_addresses) (ground (arith, later, first))
  ]

  visit_addresses-adds :
      (addrs : List Address) (active : List (Text × Unit {0})) (lb : Balancer) (k : Text)
      → ((n : ℕ) (a : Address) → is_some (dial n a) ≡ true)
      → names_key addrs k ≡ true
      → is_some (lookup k (visit_addresses dial addrs active lb).1.sub_conns) ≡ true
  unfolding visit_addresses
  visit_addresses-adds [] active lb k dials named = absurd (ground arith)
  visit_addresses-adds (addr ∷ addrs) active lb k dials named = elim (Option-cases addr.attr) [
    | inl bare ↦
        rw (bare, visit_addresses) (visit_addresses-adds addrs active lb k dials (rw bare at named))
    | inr (attr, has) ↦
        let next = visit_node dial (key attr.identity) addr attr lb in
        let seen = insert (key attr.identity) tt active in
        rw (has, visit_addresses)
          (elim (Bool-cases (text_eq (key attr.identity) k)) [
            | inl same ↦
                let made =
                  subst (λ x. is_some (lookup x next.sub_conns) ≡ true) ((text_eq_iff _ k).0 same)
                    (visit_node-adds (key attr.identity) addr attr lb dials) in
                elim (Option-cases (lookup k next.sub_conns)) [
                  | inl gone ↦ absurd (ground arith)
                  | inr (p, there) ↦ ap is_some (visit_addresses-keeps addrs seen next k there)
                ]
            | inr other ↦ visit_addresses-adds addrs seen next k dials (rw (has, other) at named)
          ])
  ]

  lookup-update :
      (addrs : List Address) (now : ℕ) (lb : Balancer) (k : Text)
      → lookup k (update_client_conn_state dial addrs now lb).sub_conns
        ≡ kept_if (names_key addrs k) (lookup k (visit_addresses dial addrs [] lb).1.sub_conns)
  unfolding update_client_conn_state prune_inactive sync_registry rebuild_picker
  lookup-update addrs now lb k =
      let visited = visit_addresses dial addrs [] lb in
      lookup-prune visited.0 visited.1.sub_conns visited.1 k
      ∙ after_prune (lookup k visited.1.sub_conns) (is_some (lookup k visited.0))
          (names_key addrs k) (lookup-active addrs [] lb k)

  -- After an update of the resolver, the balancer holds no node that is missing from the addresses, and
  -- keeps the SubConn of each node of theirs that it knew; if gRPC creates every SubConn asked of it,
  -- the balancer holds every node of the addresses.
  pub update-members :
      (addrs : List Address) (now : ℕ) (lb : Balancer) (k : Text)
      → (names_key addrs k ≡ false
          → lookup k (update_client_conn_state dial addrs now lb).sub_conns ≡ none)
        × ((p : ℕ)
            → names_key addrs k ≡ true
            → lookup k lb.sub_conns ≡ some p
            → lookup k (update_client_conn_state dial addrs now lb).sub_conns ≡ some p)
        × (((n : ℕ) (a : Address) → is_some (dial n a) ≡ true)
            → names_key addrs k ≡ true
            → is_some (lookup k (update_client_conn_state dial addrs now lb).sub_conns) ≡ true)
  unfolding kept_if
  update-members addrs now lb k = (
    λ missing. lookup-update addrs now lb k ∙ rw missing refl,
    λ p named known.
        lookup-update addrs now lb k ∙ rw named (visit_addresses-keeps addrs [] lb k known),
    λ dials named.
        rw (lookup-update addrs now lb k, named) (visit_addresses-adds addrs [] lb k dials named),
  )
