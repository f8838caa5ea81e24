-- ===== src/Discovery/Mdns.antt =====
-- pkg/discovery/mdns_resolver.go: the nodes that one poll after another finds on the local network, and those that
-- it tells as expired. What a query answers is an argument; waiting, and the end of the context, are left
-- out. Go ranges over the known nodes in no fixed order; here it is that of the association list.
pub mod Sweep
pub mod Expiry
mod Tests
use lumen_sdk.Base.{
  ℕ, ◌+◌, Bool, true, false, if◌then◌else◌, List, [], ◌∷◌, ◌++◌, Option, none, some, ltb, leb, ◌==◌,
}
use lumen_sdk.Base.Dict.{lookup, insert}
use lumen_sdk.Base.Int.{ℤ}
use lumen_sdk.Base.Text.{Text, codes, text_eq, is_empty, trim_suffix}
use lumen_sdk.Base.Unique.{is_some}
use lumen_sdk.Types.Tensor.Marshal.{format_int}
use lumen_sdk.Discovery.Identity.{ResolvedNode, is_zero, key, parse_node_identity, normalized}
use lumen_sdk.Discovery.Events.{NodeEvent, node_discovered, node_expired, event_from_resolved}

abbrev pub miss_threshold : ℕ
miss_threshold = 2

-- What is before the first rune `c`, and behind it.
unfoldable pub cut_at : ℕ → Text → Option (Text × Text)
cut_at c [] = none
cut_at c (d ∷ s) =
    let rest = cut_at c s in
    if d == c
    then some ([], s)
    else elim rest [ none ↦ none | some (before, behind) ↦ some (d ∷ before, behind) ]

-- A TXT record; `none` has no key.
abbrev pub pair_of : Text → Option (Text × Text) → Option (Text × Text)
pair_of [] cut = none
pair_of (c ∷ s) none = some (c ∷ s, codes "")
pair_of (c ∷ s) (some (k, v)) = if is_empty k then none else some (k, v)

unfoldable pub split_txt : Text → Option (Text × Text)
unfolding cut_at
split_txt txt = pair_of txt (cut_at b'=' txt)

abbrev pub put_txt : Option (Text × Text) → List (Text × Text) → List (Text × Text)
unfolding insert
put_txt none out = out
put_txt (some (k, v)) out = insert k v out

abbrev pub parse_txt_into : List (Text × Text) → List Text → List (Text × Text)
unfolding split_txt insert
parse_txt_into out [] = out
parse_txt_into out (r ∷ rs) = parse_txt_into (put_txt (split_txt r) out) rs

unfoldable pub parse_txt : List Text → List (Text × Text)
unfolding split_txt insert
parse_txt records = parse_txt_into [] records

-- The text without the suffix, if it ends with it.
unfoldable pub cut_suffix : Text → Text → Option Text
unfolding text_eq
cut_suffix [] suffix = if is_empty suffix then some [] else none
cut_suffix (c ∷ s) suffix =
    let rest = cut_suffix s suffix in
    if text_eq (c ∷ s) suffix
    then some []
    else elim rest [ none ↦ none | some before ↦ some (c ∷ before) ]

-- The name up to its first dot, unless it starts with one.
abbrev pub before_dot : Text → Option (Text × Text) → Text
before_dot full none = full
before_dot full (some (before, behind)) = if is_empty before then full else before

abbrev pub instance_in : Text → Option Text → Text
unfolding cut_at
instance_in full none = before_dot full (cut_at b'.' full)
instance_in full (some before) = before

unfoldable pub extract_instance_name : (full_name service_type domain : Text) → Text
unfolding trim_suffix cut_suffix cut_at
extract_instance_name full_name service_type domain =
    let full = trim_suffix full_name b'.' in
    instance_in full (cut_suffix full (codes "." ++ (service_type ++ (codes "." ++ domain))))

-- A service entry of the mDNS library, with its addresses printed.
pub record ServiceEntry : Type 0 where
  pub name : Text
  pub host : Text
  pub addr_v4 : Option Text
  pub addr_v6_ip : Option Text
  pub addr_v6 : Option Text
  pub port : ℤ
  pub info_fields : List Text

abbrev pub add_address : Option Text → List Text → List Text
add_address none addresses = addresses
add_address (some a) addresses = addresses ++ a ∷ []

abbrev pub or_else : Option Text → Option Text → Option Text
or_else none other = other
or_else (some a) other = some a

abbrev pub or_host_port : Text → ServiceEntry → Text
unfolding format_int
or_host_port [] entry = entry.host ++ (codes ":" ++ format_int entry.port)
or_host_port (c ∷ s) entry = c ∷ s

pub record MdnsResolver : Type 0 where
  pub service_type : Text
  pub domain : Text
  pub deployment_id : Text
  pub poll_interval : ℤ
  pub query_timeout : ℤ

unfoldable pub resolved_node_from_mdns : MdnsResolver → ServiceEntry → ResolvedNode
unfolding extract_instance_name parse_node_identity trim_suffix parse_txt normalized format_int
resolved_node_from_mdns r entry =
    let instance_name =
      or_host_port (extract_instance_name entry.name r.service_type r.domain) entry in
    normalized (record {
      identity = parse_node_identity instance_name r.deployment_id;
      instance_name = instance_name;
      host_name = trim_suffix entry.host b'.';
      addresses =
          add_address (or_else entry.addr_v6_ip entry.addr_v6) (add_address entry.addr_v4 []);
      port = entry.port;
      txt = some (parse_txt entry.info_fields);
      expires_at = none;
    })

pub record KnownNode : Type 0 where
  pub resolved : ResolvedNode
  pub misses : ℕ

abbrev pub Known : Type 0
Known = List (Text × KnownNode)

pub record Query : Type 0 where
  pub known : Known
  pub seen : List (Text × Unit {0})
  pub events : List NodeEvent

-- One answer of a query: a node by its key, unless it has no id.
unfoldable pub keyed_answer : (no_id : Bool) → Text → ResolvedNode → Query → Query
unfolding insert event_from_resolved
keyed_answer true k resolved q = q
keyed_answer false k resolved q = record {
  known = insert k (record { resolved = resolved; misses = 0 }) q.known;
  seen = insert k tt q.seen;
  events = q.events ++ event_from_resolved node_discovered resolved ∷ [];
}

unfoldable pub answer : ResolvedNode → Query → Query
unfolding is_zero key keyed_answer
answer resolved q = keyed_answer (is_zero resolved.identity) (key resolved.identity) resolved q

unfoldable pub answers : List ResolvedNode → Query → Query
unfolding answer
answers [] q = q
answers (r ∷ rs) q = answers rs (answer r q)

unfoldable pub run_query : List ResolvedNode → Known → Query
unfolding answers
run_query found known = answers found (record { known = known; seen = []; events = [] })

pub record Swept : Type 0 where
  pub known : Known
  pub events : List NodeEvent

-- A known node that the query has not seen has missed a poll, and expires at the threshold.
unfoldable pub sweep : List (Text × Unit {0}) → Known → Swept
unfolding lookup event_from_resolved
sweep seen [] = record { known = []; events = [] }
sweep seen ((k, kn) ∷ known) =
    let rest = sweep seen known in
    if is_some (lookup k seen)
    then record rest { known = (k, record kn { misses = 0 }) ∷ rest.known }
    else if leb miss_threshold (kn.misses + 1)
    then record rest { events = event_from_resolved node_expired kn.resolved ∷ rest.events }
    else record rest { known = (k, record kn { misses = kn.misses + 1 }) ∷ rest.known }

-- A round of the poll loop: the nodes that are known after it, and the events that it sends.
unfoldable pub poll : List ResolvedNode → Known → Swept
unfolding run_query sweep
poll found known =
    let query = run_query found known in
    let swept = sweep query.seen query.known in
    record swept { events = query.events ++ swept.events }

unfoldable pub polls : List (List ResolvedNode) → Known → Known
unfolding poll
polls [] known = known
polls (found ∷ later) known = polls later (poll found known).known
