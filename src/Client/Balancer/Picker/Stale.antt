-- ===== src/Client/Balancer/Picker/Stale.antt =====
-- A picker as a snapshot, and a node whose cooldown runs when it is built.
use lumen_sdk.Base.{
  ℕ, ◌+◌, ◌≤◌, ◌<◌, ◌%◌, ◌^◌, ◌≡◌, ◌≢◌, inl, inr, refl, Bool, true, List, [], ◌∷◌, some, arith,
  Bool-cases, ==_refl, ap, ◌∙◌,
}
use lumen_sdk.Base.Text.{Text}
use lumen_sdk.Client.Balancer.State.{
  Balancer, SubConnState, ConnState, select, rebuild_picker, sync_registry, is_ready_candidate,
  is_probe_candidate, write, count_failure, next_cooldown, reaches_threshold, int64_max,
  add_duration,
}
use lumen_sdk.Client.Balancer.Picker.{RpcError, should_affect_node_health, pick, picked, done}
use lumen_sdk.Client.Balancer.Picker.Choice.{IsIn, pick_sound}

select_sound :
    (test : SubConnState → Bool) (store : ℕ → SubConnState) (m : List (Text × ℕ)) (q : ℕ)
    → IsIn q (select test store m)
    → test (store q) ≡ true
unfolding select
select_sound test store [] q h = absurd h
select_sound test store ((k, p) ∷ m) q h = elim (Bool-cases (test (store p))) [
  | inl good ↦
      let h' : IsIn q (p ∷ select test store m) = rw good at h in
      elim h' [ inl same ↦ rw same good | inr i ↦ select_sound test store m q i ]
  | inr bad ↦ select_sound test store m q (rw bad at h)
]

resting-unpicked :
    (now : ℕ) (lb : Balancer) (q t : ℕ)
    → (lb.store q).state ≡ ConnState.ready
    → (lb.store q).cooldown_until ≡ some t
    → now ≤ t
    → (store : ℕ → SubConnState) (idx : ℕ) (task : Text) (later : ℕ)
    → (pick store (record (rebuild_picker now lb).picker { rr_idx = idx }) task later).1 ≢ picked q
unfolding rebuild_picker
resting-unpicked now lb q t ready until early store idx task later e =
    let chosen =
      (pick_sound store (record (rebuild_picker now lb).picker { rr_idx = idx }) task later q
        e).1 in
    elim chosen [
      | inl (i, _) ↦
          let c = select_sound (is_ready_candidate now) lb.store lb.sub_conns q i in ground arith
      | inr (i, _, _) ↦
          let c = select_sound (is_probe_candidate now) lb.store lb.sub_conns q i in ground arith
    ]

-- If an RPC to a ready node fails for the third time or more (and not yet for the 2 ^ 63rd), with an
-- error that counts against the node, and the picker is built before the cooldown that this starts is over, then no Pick with that
-- picker ever routes to the node, at any later time, whatever has become of the nodes: the node is out
-- of service until some other event builds a new picker.
pub done-unpicked :
    (lb : Balancer) (q now built : ℕ) (e : RpcError)
    → (lb.store q).state ≡ ConnState.ready
    → 2 ≤ (lb.store q).hard_failures
    → (lb.store q).hard_failures < int64_max
    → should_affect_node_health e ≡ true
    → built ≤ add_duration now (next_cooldown lb.options (lb.store q).cooldown)
    → (store : ℕ → SubConnState) (idx : ℕ) (task : Text) (later : ℕ)
    → (pick store (record (done q (some e) now built lb).picker { rr_idx = idx }) task later).1
      ≢ picked q
unfolding done count_failure sync_registry
done-unpicked lb q now built e ready failed small counts early store idx task later =
    let counted = count_failure lb.options now (lb.store q) in
    let cell : (write q counted lb).store q ≡ counted = rw (==_refl q) refl in
    let enough : reaches_threshold (((lb.store q).hard_failures + 1) % 2 ^ 64) ≡ true =
      ground arith in
    rw counts (
      resting-unpicked built (sync_registry (write q counted lb)) q
        (add_duration now (next_cooldown lb.options (lb.store q).cooldown))
        (ap (λ s. s.state) cell ∙ rw enough ready)
        (ap (λ s. s.cooldown_until) cell ∙ rw enough refl) early store idx task later)
