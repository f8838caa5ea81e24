-- ===== src/Discovery/Mdns/Sweep.antt =====
-- What one sweep of pkg/discovery/mdns_resolver.go does to the nodes that are known.
use lumen_sdk.Base.{
  ◌+◌, ◌≡◌, inl, inr, refl, ◌∙◌, subst, Bool, false, List, [], ◌∷◌, Option, none, some, leb, arith,
  if◌then◌else◌, Bool-cases,
}
use lumen_sdk.Base.Dict.{lookup, insert, lookup-insert}
use lumen_sdk.Base.Text.{Text, text_eq, text_eq_iff, text_eq_refl}
use lumen_sdk.Base.Unique.{is_some}
use lumen_sdk.Discovery.Mdns.{KnownNode, Known, miss_threshold, sweep}

-- No key stands twice, as in a Go map.
abbrev pub IsMap : Known → Type 0
IsMap [] = Unit {0}
IsMap ((k, kn) ∷ known) = (lookup k known ≡ none) × IsMap known

lookup-cons :
    (k asked : Text) (kn : KnownNode) (known : Known)
    → lookup asked ((k, kn) ∷ known) ≡ (if text_eq k asked then some kn else lookup asked known)
unfolding lookup
lookup-cons k asked kn known = refl

pub insert-IsMap :
    (k : Text) (kn : KnownNode) (known : Known) → IsMap known → IsMap (insert k kn known)
unfolding insert
insert-IsMap k kn [] m = (unfold lookup in refl, tt)
insert-IsMap k kn ((j, old) ∷ known) (fresh, m) = elim (Bool-cases (text_eq j k)) [
  | inl same ↦ rw same (subst (λ x. lookup x known ≡ none) ((text_eq_iff j k).0 same) fresh, m)
  | inr other ↦ rw other (
    lookup-insert k j kn known ∙ ground (arith, text_eq_iff j k, text_eq_iff k j, other, fresh),
    insert-IsMap k kn known m,
  )
]

-- What a sweep makes of one node.
abbrev pub swept_node : Bool → Option KnownNode → Option KnownNode
swept_node seen none = none
swept_node seen (some kn) =
    if seen
    then some (record kn { misses = 0 })
    else if leb miss_threshold (kn.misses + 1)
    then none
    else some (record kn { misses = kn.misses + 1 })

lookup-sweep-none :
    (seen : List (Text × Unit {0})) (known : Known) (k : Text)
    → lookup k known ≡ none
    → lookup k (sweep seen known).known ≡ none
unfolding sweep
lookup-sweep-none seen [] k h = h
lookup-sweep-none seen ((j, kn) ∷ known) k h = ground (
  arith,
  lookup-sweep-none seen known k,
  lookup-cons j k kn known,
  lookup-cons j k (record kn { misses = 0 }) (sweep seen known).known,
  lookup-cons j k (record kn { misses = kn.misses + 1 }) (sweep seen known).known,
  h,
)

pub lookup-sweep :
    (seen : List (Text × Unit {0})) (known : Known) (k : Text)
    → IsMap known
    → lookup k (sweep seen known).known ≡ swept_node (is_some (lookup k seen)) (lookup k known)
unfolding sweep
lookup-sweep seen [] k m = unfold lookup in refl
lookup-sweep seen ((j, kn) ∷ known) k (fresh, m) = elim (Bool-cases (text_eq j k)) [
  | inl same ↦
      subst
        (λ x.
          lookup x (sweep seen ((j, kn) ∷ known)).known
          ≡ swept_node (is_some (lookup x seen)) (lookup x ((j, kn) ∷ known)))
        ((text_eq_iff j k).0 same) (own (lookup-sweep-none seen known j fresh))
  | inr other ↦ different other (lookup-sweep seen known k m)
]
  where
    own :
        lookup j (sweep seen known).known ≡ none
        → lookup j (sweep seen ((j, kn) ∷ known)).known
          ≡ swept_node (is_some (lookup j seen)) (lookup j ((j, kn) ∷ known))
    own gone = ground (
      arith,
      gone,
      text_eq_refl j,
      lookup-cons j j kn known,
      lookup-cons j j (record kn { misses = 0 }) (sweep seen known).known,
      lookup-cons j j (record kn { misses = kn.misses + 1 }) (sweep seen known).known,
    )

    different :
        text_eq j k ≡ false
        → lookup k (sweep seen known).known ≡ swept_node (is_some (lookup k seen)) (lookup k known)
        → lookup k (sweep seen ((j, kn) ∷ known)).known
          ≡ swept_node (is_some (lookup k seen)) (lookup k ((j, kn) ∷ known))
    different other ih = ground (
      arith,
      other,
      ih,
      lookup-cons j k kn known,
      lookup-cons j k (record kn { misses = 0 }) (sweep seen known).known,
      lookup-cons j k (record kn { misses = kn.misses + 1 }) (sweep seen known).known,
    )

pub sweep-IsMap :
    (seen : List (Text × Unit {0})) (known : Known) → IsMap known → IsMap (sweep seen known).known
unfolding sweep
sweep-IsMap seen [] m = tt
sweep-IsMap seen ((j, kn) ∷ known) (fresh, m) =
    ground (arith, sweep-IsMap seen known m, lookup-sweep-none seen known j fresh)
