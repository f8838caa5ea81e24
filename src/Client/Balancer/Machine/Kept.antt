-- ===== src/Client/Balancer/Machine/Kept.antt =====
-- What UpdateClientConnState keeps of every SubConn state, and what it means to keep it.
use lumen_sdk.Base.{ℕ, ◌≡◌, Bool, List, [], ◌∷◌, ◌==◌, Bool-cases, inl, inr, Option-cases, length}
use lumen_sdk.Base.Text.{Text}
use lumen_sdk.Base.Dict.{lookup, insert}
use lumen_sdk.Base.Unique.{is_some}
use lumen_sdk.Discovery.Identity.{key}
use lumen_sdk.Types.Proto.{Capability}
use lumen_sdk.Client.Balancer.State.{
  Balancer, BalancerOptions, SubConnState, Address, NodeAttr, ConnState, write, clear_failures,
  count_failure, sync_registry, rebuild_picker,
}
use lumen_sdk.Client.Balancer.Handlers.{
  Dial, refresh, moved, fresh_sub_conn, add_node, visit_node, visit_addresses, prune,
  prune_inactive, drop_sub_conn, update_client_conn_state,
}
use lumen_sdk.Client.Balancer.Fetch.{with_capabilities}

-- What the code does to one SubConn state keeps the property `P`; the counting of a failure, which a step does
-- once at most, gives the weaker `Q`.
pub record IsKept (o : BalancerOptions) (P Q : SubConnState → Type 0) : Type 0 where
  pub fresh : (sc : ℕ) (addr : Address) (attr : NodeAttr) → P (fresh_sub_conn sc addr attr)
  pub refreshed :
      (addr : Address) (attr : NodeAttr) (s : SubConnState) → P s → P (refresh addr attr s)
  pub changed : (state : ConnState) (s : SubConnState) → P s → P (record s { state = state })
  pub cleared : (s : SubConnState) → P s → P (clear_failures s)
  pub counted : (now : ℕ) (s : SubConnState) → P s → Q (count_failure o now s)
  pub published : (caps : List Capability) (s : SubConnState) → P s → P (with_capabilities caps s)
  pub fetching : (b : Bool) (s : SubConnState) → P s → P (record s { cap_fetching = b })
  pub weaker : (s : SubConnState) → P s → Q s

-- The options are `o`, and every SubConn state has the property.
pub record Holds (o : BalancerOptions) (P : SubConnState → Type 0) (lb : Balancer) : Type 0 where
  pub options : lb.options ≡ o
  pub cells : (q : ℕ) → P (lb.store q)

module _ (o : BalancerOptions) (P : SubConnState → Type 0) where
  pub write-Holds :
      (p : ℕ) (s : SubConnState) (lb : Balancer) → Holds o P lb → P s → Holds o P (write p s lb)
  write-Holds p s lb h ps = record {
    options = h.options;
    cells = λ q. elim (Bool-cases (q == p)) [
      | inl same ↦ rw same ps
      | inr other ↦ rw other (h.cells q)
    ];
  }

  pub update-Holds :
      (now : ℕ) (lb : Balancer) → Holds o P lb → Holds o P (rebuild_picker now (sync_registry lb))
  unfolding rebuild_picker sync_registry
  update-Holds now lb h = record { options = h.options; cells = h.cells }

module _ (o : BalancerOptions) (P Q : SubConnState → Type 0) (keep : IsKept o P Q) where
  pub weaker-Holds : (lb : Balancer) → Holds o P lb → Holds o Q lb
  weaker-Holds lb h = record {
    options = h.options;
    cells = λ q. keep.weaker (lb.store q) (h.cells q);
  }

  visit_node-Holds :
      (dial : Dial) (k : Text) (addr : Address) (attr : NodeAttr) (lb : Balancer)
      → Holds o P lb
      → Holds o P (visit_node dial k addr attr lb)
  unfolding visit_node add_node
  visit_node-Holds dial k addr attr lb h = elim (Option-cases (lookup k lb.sub_conns)) [
    | inl e ↦
        rw (e, visit_node)
          (elim (Option-cases (dial (length lb.effects) addr)) [
            | inl failed ↦ rw (failed, add_node) (record { options = h.options; cells = h.cells })
            | inr (sc, e') ↦
                rw (e', add_node)
                  (record {
                    options = h.options;
                    cells =
                        (write-Holds o P lb.next (fresh_sub_conn sc addr attr) lb h
                          (keep.fresh sc addr attr)).cells;
                  })
          ])
    | inr (p, e) ↦
        rw (e, visit_node)
          (write-Holds o P p (refresh addr attr (lb.store p)) (moved addr (lb.store p) lb)
            (record { options = h.options; cells = h.cells })
            (keep.refreshed addr attr (lb.store p) (h.cells p)))
  ]

  visit_addresses-Holds :
      (dial : Dial) (addrs : List Address) (active : List (Text × Unit {0})) (lb : Balancer)
      → Holds o P lb
      → Holds o P (visit_addresses dial addrs active lb).1
  unfolding visit_addresses
  visit_addresses-Holds dial [] active lb h = h
  visit_addresses-Holds dial (addr ∷ addrs) active lb h = elim (Option-cases addr.attr) [
    | inl e ↦ rw (e, visit_addresses) (visit_addresses-Holds dial addrs active lb h)
    | inr (attr, e) ↦
        rw (e, visit_addresses)
          (visit_addresses-Holds dial addrs (insert (key attr.identity) tt active) _
            (visit_node-Holds dial (key attr.identity) addr attr lb h))
  ]

  prune-Holds :
      (active : List (Text × Unit {0})) (m : List (Text × ℕ)) (lb : Balancer)
      → Holds o P lb
      → Holds o P (prune active m lb)
  unfolding prune
  prune-Holds active [] lb h = h
  prune-Holds active ((k, p) ∷ m) lb h = elim (Bool-cases (is_some (lookup k active))) [
    | inl kept ↦ rw kept (prune-Holds active m lb h)
    | inr gone ↦ rw gone (
        prune-Holds active m (drop_sub_conn k p lb)
          (record { options = h.options; cells = h.cells }))
  ]

  pub kept-Holds :
      (dial : Dial) (addrs : List Address) (now : ℕ) (lb : Balancer)
      → Holds o P lb
      → Holds o P (update_client_conn_state dial addrs now lb)
  unfolding update_client_conn_state prune_inactive
  kept-Holds dial addrs now lb h = update-Holds o P now _ (
      prune-Holds (visit_addresses dial addrs [] lb).0
        (visit_addresses dial addrs [] lb).1.sub_conns _ (visit_addresses-Holds dial addrs [] lb h))
