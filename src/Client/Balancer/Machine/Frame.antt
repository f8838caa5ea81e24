-- ===== src/Client/Balancer/Machine/Frame.antt =====
-- The rule for a property of every SubConn state: if it is kept by what the code does to one, it is kept
-- by every step of the balancer.
use lumen_sdk.Base.{
  ℕ, ◌+◌, sym, subst, true, false, List, [], ◌∷◌, Option, none, some, not, ◌&&◌, Bool-cases, inl,
  inr, Option-cases,
}
use lumen_sdk.Base.Text.{Text}
use lumen_sdk.Base.Dict.{lookup}
use lumen_sdk.Types.Proto.{Capability}
use lumen_sdk.Client.Balancer.State.{
  Balancer, BalancerOptions, SubConnState, ConnState, Effect, log, clear_failures, count_failure,
  sync_registry, is_ready, is_idle, is_transient_failure,
}
use lumen_sdk.Client.Balancer.Handlers.{
  ready_again, after_change, update_client_conn_state, become_ready, change_state, change_known,
  handle_sub_conn_state_change, connect_idle, exit_idle,
}
use lumen_sdk.Client.Balancer.Picker.{RpcError, done, should_affect_node_health}
use lumen_sdk.Client.Balancer.Fetch.{
  Received, receive, publish, publish_some, fetch_capabilities_for_node, end_fetch,
}
use lumen_sdk.Client.Balancer.Machine.{
  Step, resolved, state_changed, rpc_done, fetched, fetch_ended, idle_exited, Steps, start, next,
}
use lumen_sdk.Client.Balancer.Machine.Kept.{
  IsKept, Holds, write-Holds, update-Holds, weaker-Holds, kept-Holds,
}

module _ (o : BalancerOptions) (P Q : SubConnState → Type 0) (keep : IsKept o P Q) where
  become_ready-Holds :
      (k : Text) (p : ℕ) (lb : Balancer) → Holds o P lb → Holds o P (become_ready k p lb)
  unfolding become_ready
  become_ready-Holds k p lb h =
      let w = write-Holds o P p (ready_again (lb.store p)) lb h (
        keep.fetching true _
          (keep.cleared _ (keep.changed ConnState.ready (lb.store p) (h.cells p)))) in
      record { options = w.options; cells = w.cells }

  -- The options of the balancer are `o`.
  counted :
      (now : ℕ) (s : SubConnState) (lb : Balancer)
      → Holds o P lb
      → P s
      → Q (count_failure lb.options now s)
  counted now s lb h ps =
      subst (λ o'. Q (count_failure o' now s)) (sym h.options) (keep.counted now s ps)

  after_change-keeps :
      (p : ℕ) (state : ConnState) (now : ℕ) (lb : Balancer)
      → Holds o P lb
      → Q (after_change lb.options state now (lb.store p))
  unfolding after_change
  after_change-keeps p state now lb h =
      let changed = keep.changed state (lb.store p) (h.cells p) in
      elim (Bool-cases (is_transient_failure state)) [
        | inl failed ↦ rw (failed, after_change) (counted now _ lb h changed)
        | inr other ↦ rw (other, after_change) (keep.weaker _ changed)
      ]

  change_state-Holds :
      (p : ℕ) (state : ConnState) (now : ℕ) (lb : Balancer)
      → Holds o P lb
      → Holds o Q (change_state p state now lb)
  unfolding change_state
  change_state-Holds p state now lb h =
      let w =
        write-Holds o Q p (after_change lb.options state now (lb.store p)) lb
          (weaker-Holds o P Q keep lb h) (after_change-keeps p state now lb h) in
      record { options = w.options; cells = w.cells }

  change_known-Holds :
      (k : Text) (p : ℕ) (state : ConnState) (now : ℕ) (lb : Balancer)
      → Holds o P lb
      → Holds o Q (change_known k p state now lb)
  unfolding change_known
  change_known-Holds k p state now lb h =
      elim (Bool-cases (is_ready state && not (is_ready (lb.store p).state))) [
        | inl up ↦
            rw up (weaker-Holds o P Q keep (become_ready k p lb) (become_ready-Holds k p lb h))
        | inr other ↦ rw other (change_state-Holds p state now lb h)
      ]

  connect_idle-Holds :
      (m : List (Text × ℕ)) (lb : Balancer) → Holds o P lb → Holds o P (connect_idle m lb)
  unfolding connect_idle
  connect_idle-Holds [] lb h = h
  connect_idle-Holds ((k, p) ∷ m) lb h = elim (Bool-cases (is_idle (lb.store p).state)) [
    | inl idle ↦ rw idle (
        connect_idle-Holds m (log (Effect.connect (lb.store p).sc) lb)
          (record { options = h.options; cells = h.cells }))
    | inr other ↦ rw other (connect_idle-Holds m lb h)
  ]

  publish-Holds :
      (k : Text) (caps : List Capability) (now : ℕ) (lb : Balancer)
      → Holds o P lb
      → Holds o P (publish k caps now lb)
  unfolding publish
  publish-Holds k caps now lb h = elim (Option-cases (lookup k lb.sub_conns)) [
    | inl e ↦ rw (e, publish) (update-Holds o P now lb h)
    | inr (p, e) ↦
        rw (e, publish)
          (update-Holds o P now _
            (write-Holds o P p _ lb h (keep.published caps (lb.store p) (h.cells p))))
  ]

  fetch-Holds :
      (k : Text) (reply : Option (List Received)) (now : ℕ) (lb : Balancer)
      → Holds o P lb
      → Holds o P (fetch_capabilities_for_node k reply now lb).0
  unfolding fetch_capabilities_for_node
  fetch-Holds k none now lb h = h
  fetch-Holds k (some rs) now lb h = go (receive rs)
    where
      go : (caps : List Capability) → Holds o P (publish_some k caps now lb).0
      go [] = h
      go (c ∷ cs) = publish-Holds k (c ∷ cs) now lb h

  done-Holds :
      (p : ℕ) (outcome : Option RpcError) (now later : ℕ) (lb : Balancer)
      → Holds o P lb
      → Holds o Q (done p outcome now later lb)
  unfolding done sync_registry
  done-Holds p none now later lb h =
      let w =
        write-Holds o P p (clear_failures (lb.store p)) lb h
          (keep.cleared (lb.store p) (h.cells p)) in
      weaker-Holds o P Q keep (done p none now later lb)
        (record { options = w.options; cells = w.cells })
  done-Holds p (some e) now later lb h = elim (Bool-cases (should_affect_node_health e)) [
    | inl counts ↦ rw counts (
        update-Holds o Q later _ (
          write-Holds o Q p (count_failure lb.options now (lb.store p)) lb
            (weaker-Holds o P Q keep lb h) (counted now _ lb h (h.cells p))))
    | inr ignored ↦ rw ignored (weaker-Holds o P Q keep lb h)
  ]

  end_fetch-Holds : (k : Text) (lb : Balancer) → Holds o P lb → Holds o P (end_fetch k lb)
  unfolding end_fetch
  end_fetch-Holds k lb h = elim (Option-cases (lookup k lb.sub_conns)) [
    | inl e ↦ rw (e, end_fetch) h
    | inr (p, e) ↦
        rw (e, end_fetch) (write-Holds o P p _ lb h (keep.fetching false (lb.store p) (h.cells p)))
  ]

  -- A step keeps the options, and takes the one property of every SubConn state to the other.
  pub Step-Holds : {b c : Balancer} → Step b c → Holds o P b → Holds o Q c
  unfolding handle_sub_conn_state_change exit_idle
  Step-Holds (resolved dial addrs now lb) h =
      weaker-Holds o P Q keep (update_client_conn_state dial addrs now lb)
        (kept-Holds o P Q keep dial addrs now lb h)
  Step-Holds (state_changed k state now later lb) h = elim (Option-cases (lookup k lb.sub_conns)) [
    | inl e ↦ rw (e, handle_sub_conn_state_change) (weaker-Holds o P Q keep lb h)
    | inr (p, e) ↦
        rw (e, handle_sub_conn_state_change)
          (update-Holds o Q later _ (change_known-Holds k p state now lb h))
  ]
  Step-Holds (rpc_done p outcome now later lb) h = done-Holds p outcome now later lb h
  Step-Holds (fetched k reply now lb) h = weaker-Holds o P Q keep _ (fetch-Holds k reply now lb h)
  Step-Holds (fetch_ended k lb) h =
      weaker-Holds o P Q keep (end_fetch k lb) (end_fetch-Holds k lb h)
  Step-Holds (idle_exited lb) h =
      weaker-Holds o P Q keep (exit_idle lb) (connect_idle-Holds lb.sub_conns lb h)

-- The number of steps of a history.
abbrev pub steps_taken : {b c : Balancer} → Steps b c → ℕ
steps_taken start = 0
steps_taken (next s step) = steps_taken s + 1

-- A property that may depend on the number of steps, through a history.
pub Steps-Holds :
    (o : BalancerOptions) (P : ℕ → SubConnState → Type 0)
    → ((n : ℕ) → IsKept o (P n) (P (n + 1)))
    → {b c : Balancer} → Holds o (P 0) b
    → (s : Steps b c) → Holds o (P (steps_taken s)) c
Steps-Holds o P keep h start = h
Steps-Holds o P keep h (next s step) =
    Step-Holds o (P (steps_taken s)) (P (steps_taken s + 1)) (keep (steps_taken s)) step
      (Steps-Holds o P keep h s)
