-- ===== src/HostBroker/NodeWatch/Laws.antt =====
-- What a client knows of the nodes after the messages that it receives.
use lumen_sdk.Base.{
  ℕ, ◌≡◌, refl, ap, ◌∙◌, subst, Bool, true, false, not, ◌&&◌, ◌||◌, List, [], ◌∷◌, ◌++◌, Option,
  none, some, arith, Bool-cases, inl, inr,
}
use lumen_sdk.Base.Text.{Text, text_eq, text_eq_iff}
use lumen_sdk.Base.Dict.{lookup, insert, delete, lookup-insert, lookup-delete}
use lumen_sdk.Base.Unique.{is_some}
use lumen_sdk.Discovery.NodeInfo.{NodeInfo, is_active}
use lumen_sdk.HostBroker.NodeWatch.{
  WsNodeInfo, WsNodeEvent, snapshot, added, removed, Hub, ws_node_info_from, active_nodes,
  added_msgs, removed_msgs, id_set, diff, broadcast,
}

-- A client's view: the nodes by their ids. A snapshot only adds nodes, as BrokerResolver takes it.
abbrev pub View : Type 0
View = List (Text × WsNodeInfo)

abbrev pub see_all : List WsNodeInfo → View → View
see_all [] v = v
see_all (n ∷ ns) v = see_all ns (insert n.node_id n v)

abbrev pub see : WsNodeEvent → View → View
see (snapshot ns) v = see_all ns v
see (added n) v = insert n.node_id n v
see (removed id) v = delete id v

unfoldable pub see_events : List WsNodeEvent → View → View
see_events [] v = v
see_events (e ∷ es) v = see_events es (see e v)

abbrev pub has {ℓ} : {V : Type ℓ} → Text → List (Text × V) → Bool
has id m = is_some (lookup id m)

see_events-append :
    (es fs : List WsNodeEvent) (v : View)
    → see_events (es ++ fs) v ≡ see_events fs (see_events es v)
unfolding see_events
see_events-append [] fs v = refl
see_events-append (e ∷ es) fs v = see_events-append es fs (see e v)

pub has-insert :
    {V : Type 0} (k j : Text) (x : V) (m : List (Text × V))
    → has j (insert k x m) ≡ (text_eq k j || has j m)
has-insert k j x m = ground (arith, lookup-insert k j x m)

pub has-delete :
    {V : Type 0} (k j : Text) (m : List (Text × V))
    → has j (delete k m) ≡ (not (text_eq k j) && has j m)
has-delete k j m = ground (arith, lookup-delete k j m)

-- The map of nodes is by their ids.
abbrev IsKeyed : List (Text × NodeInfo) → Type 0
IsKeyed [] = Unit {0}
IsKeyed ((id, n) ∷ m) = (n.id ≡ id) × IsKeyed m

insert-IsKeyed : (n : NodeInfo) (m : List (Text × NodeInfo)) → IsKeyed m → IsKeyed (insert n.id n m)
unfolding insert
insert-IsKeyed n [] h = (refl, tt)
insert-IsKeyed n ((id, o) ∷ m) (p, h) = elim (Bool-cases (text_eq id n.id)) [
  | inl same ↦ rw same (refl, h)
  | inr other ↦ rw other (p, insert-IsKeyed n m h)
]

active_nodes-IsKeyed :
    (m : List (Text × NodeInfo)) (nodes : List (Option NodeInfo))
    → IsKeyed m
    → IsKeyed (active_nodes m nodes)
unfolding active_nodes
active_nodes-IsKeyed m [] h = h
active_nodes-IsKeyed m (none ∷ nodes) h = active_nodes-IsKeyed m nodes h
active_nodes-IsKeyed m (some n ∷ nodes) h = elim (Bool-cases (is_active n.status)) [
  | inl on ↦ rw on (active_nodes-IsKeyed (insert n.id n m) nodes (insert-IsKeyed n m h))
  | inr off ↦ rw off (active_nodes-IsKeyed m nodes h)
]

has-id_set : (id : Text) (m : List (Text × NodeInfo)) → has id (id_set m) ≡ has id m
unfolding lookup
has-id_set id [] = refl
has-id_set id ((k, n) ∷ m) = ground (arith, has-id_set id m)

has-cons :
    {V : Type 0} (k j : Text) (x : V) (m : List (Text × V))
    → has {V = V} j ((k, x) ∷ m) ≡ (text_eq k j || has j m)
unfolding lookup
has-cons k j x m = ground arith

-- What is known of one key is known of an equal one.
has-same :
    {V : Type 0} (k j : Text) (m : List (Text × V)) {b : Bool}
    → has k m ≡ b
    → text_eq k j ≡ true
    → has j m ≡ b
has-same k j m {b} e same = subst (λ x. has x m ≡ b) ((text_eq_iff k j).0 same) e

-- One entry more, where `t` tells whether it is the key asked for.
known_entry :
    (v m t p : Bool) → (t ≡ true → p ≡ true) → (v || (m && not p)) ≡ (v || ((t || m) && not p))
known_entry v m true p h = rw (h refl) (ground arith)
known_entry v m false p h = refl

new_entry :
    (v m t p : Bool)
    → (t ≡ true → p ≡ false)
    → ((t || v) || (m && not p)) ≡ (v || ((t || m) && not p))
new_entry v m true p h = rw (h refl) (ground arith)
new_entry v m false p h = refl

kept_entry :
    (v m t c : Bool)
    → (t ≡ true → c ≡ true)
    → (v && not (m && not c)) ≡ (v && not ((t || m) && not c))
kept_entry v m true c h = rw (h refl) (ground arith)
kept_entry v m false c h = refl

gone_entry :
    (v m t c : Bool)
    → (t ≡ true → c ≡ false)
    → ((not t && v) && not (m && not c)) ≡ (v && not ((t || m) && not c))
gone_entry v m true c h = rw (h refl) (ground arith)
gone_entry v m false c h = refl

has-added :
    (prev : List (Text × Unit {0})) (m : List (Text × NodeInfo)) (v : View) (id : Text)
    → IsKeyed m
    → has id (see_events (added_msgs prev m) v) ≡ (has id v || (has id m && not (has id prev)))
unfolding added_msgs see_events ws_node_info_from
has-added prev [] v id h = ground arith
has-added prev ((k, n) ∷ m) v id (p, h) = rw (has-cons k id n m) (elim (Bool-cases (has k prev)) [
  | inl known ↦ rw known (
      has-added prev m v id h
      ∙ known_entry (has id v) (has id m) (text_eq k id) (has id prev) (has-same k id prev known))
  | inr new ↦ rw new (
      has-added prev m (insert n.id (ws_node_info_from n) v) id h
      ∙ ap (λ b. b || (has id m && not (has id prev)))
          (has-insert n.id id (ws_node_info_from n) v ∙ ap (λ x. text_eq x id || has id v) p)
      ∙ new_entry (has id v) (has id m) (text_eq k id) (has id prev) (has-same k id prev new))
])

has-removed :
    (current : List (Text × NodeInfo)) (prev : List (Text × Unit {0})) (v : View) (id : Text)
    → has id (see_events (removed_msgs current prev) v)
      ≡ (has id v && not (has id prev && not (has id current)))
unfolding removed_msgs see_events
has-removed current [] v id = ground arith
has-removed current ((k, u) ∷ m) v id = rw (has-cons k id u m) (elim (Bool-cases (has k current)) [
  | inl there ↦ rw there (
      has-removed current m v id
      ∙ kept_entry (has id v) (has id m) (text_eq k id) (has id current)
          (has-same k id current there))
  | inr gone ↦ rw gone (
      has-removed current m (delete k v) id
      ∙ ap (λ b. b && not (has id m && not (has id current))) (has-delete k id v)
      ∙ gone_entry (has id v) (has id m) (text_eq k id) (has id current)
          (has-same k id current gone))
])

-- The id belongs to an active node of the list.
abbrev pub lists_active : List (Option NodeInfo) → Text → Bool
lists_active nodes id = has id (active_nodes [] nodes)

has-diff :
    (hub : Hub) (nodes : List (Option NodeInfo)) (v : View) (id : Text)
    → has id (see_events (diff hub nodes) v) ≡ (
        (has id v || (lists_active nodes id && not (has id hub.prev_nodes)))
        && not (has id hub.prev_nodes && not (lists_active nodes id)))
unfolding diff
has-diff hub nodes v id =
    let current = active_nodes [] nodes in
    ap (has id) (
      see_events-append (added_msgs hub.prev_nodes current) (removed_msgs current hub.prev_nodes) v)
    ∙ has-removed current hub.prev_nodes (see_events (added_msgs hub.prev_nodes current) v) id
    ∙ ap (λ b. b && not (has id hub.prev_nodes && not (has id current)))
        (has-added hub.prev_nodes current v id (active_nodes-IsKeyed [] nodes tt))

-- A client that knows what the hub has told before, and receives all messages of a broadcast, then knows
-- exactly the active nodes; the hub remembers exactly them.
pub broadcast-follows :
    (writes : ℕ → ℕ) (hub : Hub) (nodes : List (Option NodeInfo)) (v : View)
    → ((id : Text) → has id v ≡ has id hub.prev_nodes)
    → (id : Text)
    → (has id (see_events (diff hub nodes) v) ≡ lists_active nodes id)
      × (has id (broadcast writes nodes hub).0.prev_nodes ≡ lists_active nodes id)
unfolding broadcast
broadcast-follows writes hub nodes v h id =
    (has-diff hub nodes v id ∙ ground (arith, h id), has-id_set id (active_nodes [] nodes))

-- The diffs of one broadcast after another.
unfoldable pub broadcasts : Hub → List (List (Option NodeInfo)) → View → View
broadcasts hub [] v = v
broadcasts hub (nodes ∷ later) v =
    broadcasts (broadcast (λ _. 0) nodes hub).0 later (see_events (diff hub nodes) v)

-- The node is never active again.
abbrev pub NeverActive : Text → List (List (Option NodeInfo)) → Type 0
NeverActive id [] = Unit {0}
NeverActive id (nodes ∷ later) = (lists_active nodes id ≡ false) × NeverActive id later

-- A client whose snapshot has a node that the hub has forgotten already is never told that it is gone: it
-- still knows the node after any number of broadcasts in which the node is not active.
pub broadcasts-stale :
    (later : List (List (Option NodeInfo))) (hub : Hub) (v : View) (id : Text)
    → has id hub.prev_nodes ≡ false
    → has id v ≡ true
    → NeverActive id later
    → has id (broadcasts hub later v) ≡ true
unfolding broadcasts broadcast
broadcasts-stale [] hub v id forgotten known h = known
broadcasts-stale (nodes ∷ later) hub v id forgotten known (h, hs) =
    broadcasts-stale later (broadcast (λ _. 0) nodes hub).0 (see_events (diff hub nodes) v) id
      (has-id_set id (active_nodes [] nodes) ∙ h)
      (has-diff hub nodes v id ∙ ground (arith, forgotten, known, h)) hs
