-- ===== src/Client/Resolver/Laws.antt =====
-- Which nodes the resolver holds after a sequence of events.
use lumen_sdk.Base.{◌≡◌, refl, ap, ◌∙◌, Bool, true, false, not, ◌&&◌, ◌||◌, List, [], ◌∷◌, arith}
use lumen_sdk.Base.Text.{Text, text_eq, is_empty}
use lumen_sdk.Base.Dict.{lookup, lookup-insert, lookup-delete}
use lumen_sdk.Base.Unique.{is_some}
use lumen_sdk.Discovery.Identity.{ResolvedNode, is_zero, key, candidate_endpoints}
use lumen_sdk.Discovery.Events.{
  NodeEvent, NodeEventType, node_discovered, node_expired, node_resolve_failed,
}
use lumen_sdk.Client.Resolver.{
  Nodes, ResolvedEntry, resolved_from_event, event_key, discover, expire, handle_event, watch,
}

-- The event is a discovery of the node.
abbrev pub discovers : Text → NodeEvent → Bool
discovers k ev = elim ev.event_type [
  | node_discovered ↦
      not (is_zero (resolved_from_event ev).identity)
      && text_eq (key (resolved_from_event ev).identity) k
  | node_expired ↦ false
  | node_resolve_failed ↦ false
]

-- The event removes the node explicitly.
abbrev pub removes : Text → NodeEvent → Bool
removes k ev = elim ev.event_type [
  | node_discovered ↦ false
  | node_expired ↦
      ev.explicit_remove
      && (not (is_empty (event_key ev (resolved_from_event ev)))
          && text_eq (event_key ev (resolved_from_event ev)) k)
  | node_resolve_failed ↦ false
]

-- Whether the node is known after the events: the last one that discovers or removes it decides.
abbrev pub known_after : Text → List NodeEvent → Bool → Bool
known_after k [] known = known
known_after k (ev ∷ events) known =
    known_after k events (discovers k ev || (known && not (removes k ev)))

has-discover :
    (resolved : ResolvedNode) (nodes : Nodes) (k : Text)
    → is_some (lookup k (discover resolved nodes)) ≡ (
        (not (is_zero resolved.identity) && text_eq (key resolved.identity) k)
        || is_some (lookup k nodes))
unfolding discover
has-discover resolved nodes k =
    let entry : ResolvedEntry = record {
      node = resolved;
      endpoints = candidate_endpoints resolved;
    } in
    ground (arith, lookup-insert (key resolved.identity) k entry nodes)

has-expire :
    (ev : NodeEvent) (j : Text) (nodes : Nodes) (k : Text)
    → is_some (lookup k (expire ev j nodes))
      ≡ (is_some (lookup k nodes) && not (ev.explicit_remove && (not (is_empty j) && text_eq j k)))
unfolding expire
has-expire ev j nodes k = ground (arith, lookup-delete j k nodes)

with_true : (d b : Bool) → (d || b) ≡ (d || (b && true))
with_true d b = ground arith

has-handle_event :
    (ev : NodeEvent) (nodes : Nodes) (k : Text)
    → is_some (lookup k (handle_event ev nodes))
      ≡ (discovers k ev || (is_some (lookup k nodes) && not (removes k ev)))
unfolding handle_event event_key resolved_from_event
has-handle_event ev nodes k = go ev.event_type refl
  where
    go :
        (t : NodeEventType)
        → ev.event_type ≡ t
        → is_some (lookup k (handle_event ev nodes))
          ≡ (discovers k ev || (is_some (lookup k nodes) && not (removes k ev)))
    go node_discovered e =
        rw (e, handle_event)
          (has-discover (resolved_from_event ev) nodes k ∙ with_true _ (is_some (lookup k nodes)))
    go node_expired e =
        rw (e, handle_event) (has-expire ev (event_key ev (resolved_from_event ev)) nodes k)
    go node_resolve_failed e = rw (e, handle_event) (with_true false (is_some (lookup k nodes)))

-- After any sequence of events, the resolver holds a node exactly if the last event that discovers the
-- node or removes it explicitly is a discovery, or there is none and it was held before: a record that
-- merely expires, or fails to resolve, takes no node away.
pub watch-known_after :
    (events : List NodeEvent) (nodes : Nodes) (k : Text)
    → is_some (lookup k (watch events nodes)) ≡ known_after k events (is_some (lookup k nodes))
unfolding watch
watch-known_after [] nodes k = refl
watch-known_after (ev ∷ events) nodes k =
    watch-known_after events (handle_event ev nodes) k
    ∙ ap (known_after k events) (has-handle_event ev nodes k)
