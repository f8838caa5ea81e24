-- ===== src/Client/Pool/Laws.antt =====
-- What the options of a pool are after `normalized`, and what `merge_tasks` lists.
use lumen_sdk.Base.{
  ℕ, ◌≡◌, ◌↔◌, inl, inr, refl, ap, ◌∙◌, Bool, true, false, ◌||◌, List, Bool-cases, arith,
  if◌then◌else◌,
}
use lumen_sdk.Base.Int.{ℤ, pos, ltb_ℤ}
use lumen_sdk.Base.Text.{Text, trim_space}
use lumen_sdk.Base.Unique.{
  nothing_seen, nothing_seen-Agrees, visit_all-Agrees, visit_all, contains, cleans_to,
  visit_all-contains, IsUnique, visit_all-IsUnique,
}
use lumen_sdk.Client.Pool.{PoolOptions, is_unset, normalized, merge_tasks, seconds}

abbrev at_least_ℤ : ℤ → ℕ → Bool
at_least_ℤ d n = ltb_ℤ d (pos n)

-- The options written out.
defaults : PoolOptions → PoolOptions
defaults o =
    let low =
      if is_unset o.rediscovery_backoff_min then pos (seconds 10) else o.rediscovery_backoff_min in
    record {
      connect_timeout = if is_unset o.connect_timeout then pos (seconds 10) else o.connect_timeout;
      rediscovery_backoff_min = low;
      rediscovery_backoff_max =
          if ltb_ℤ o.rediscovery_backoff_max low
          then pos (seconds 120)
          else o.rediscovery_backoff_max;
    }

normalized-defaults : (o : PoolOptions) → normalized o ≡ defaults o
unfolding normalized defaults
normalized-defaults o = elim (Bool-cases (is_unset o.connect_timeout)) [
  | inl c ↦ elim (Bool-cases (is_unset o.rediscovery_backoff_min)) [
    | inl b ↦ elim (Bool-cases (ltb_ℤ o.rediscovery_backoff_max (pos (seconds 10)))) [
      | inl m ↦ rw (c, b, m) refl
      | inr m ↦ rw (c, b, m) refl
    ]
    | inr b ↦ elim (Bool-cases (ltb_ℤ o.rediscovery_backoff_max o.rediscovery_backoff_min)) [
      | inl m ↦ rw (c, b, m) refl
      | inr m ↦ rw (c, b, m) refl
    ]
  ]
  | inr c ↦ elim (Bool-cases (is_unset o.rediscovery_backoff_min)) [
    | inl b ↦ elim (Bool-cases (ltb_ℤ o.rediscovery_backoff_max (pos (seconds 10)))) [
      | inl m ↦ rw (c, b, m) refl
      | inr m ↦ rw (c, b, m) refl
    ]
    | inr b ↦ elim (Bool-cases (ltb_ℤ o.rediscovery_backoff_max o.rediscovery_backoff_min)) [
      | inl m ↦ rw (c, b, m) refl
      | inr m ↦ rw (c, b, m) refl
    ]
  ]
]

-- An option that is unset is ten seconds after `normalized` and one that is set is kept, for the connect
-- timeout and the smallest backoff; a largest backoff below the smallest one that results is two minutes,
-- and any other is kept. Every option is then positive, and the backoffs are in order unless the smallest
-- is more than two minutes and the largest is given below it.
pub normalized_lem :
    (o : PoolOptions)
    → ((normalized o).connect_timeout
        ≡ (if is_unset o.connect_timeout then pos (seconds 10) else o.connect_timeout))
      × ((normalized o).rediscovery_backoff_min ≡ (
          if is_unset o.rediscovery_backoff_min
          then pos (seconds 10)
          else o.rediscovery_backoff_min))
      × ((normalized o).rediscovery_backoff_max ≡ (
          if ltb_ℤ o.rediscovery_backoff_max (normalized o).rediscovery_backoff_min
          then pos (seconds 120)
          else o.rediscovery_backoff_max))
      × (is_unset (normalized o).connect_timeout ≡ false)
      × (is_unset (normalized o).rediscovery_backoff_min ≡ false)
      × (is_unset (normalized o).rediscovery_backoff_max ≡ false)
      × ((ltb_ℤ (normalized o).rediscovery_backoff_max (normalized o).rediscovery_backoff_min
            ≡ true)
          ↔ ((ltb_ℤ (pos (seconds 120)) o.rediscovery_backoff_min ≡ true)
              × (ltb_ℤ o.rediscovery_backoff_max o.rediscovery_backoff_min ≡ true)))
unfolding defaults
normalized_lem o = rw (normalized-defaults o) (
  refl,
  refl,
  refl,
  ground arith,
  ground arith,
  ground arith,
  (λ h. ground arith, λ h. ground arith),
)

-- Options that are set and in order are kept.
pub normalized_kept :
    (o : PoolOptions)
    → is_unset o.connect_timeout ≡ false
    → is_unset o.rediscovery_backoff_min ≡ false
    → ltb_ℤ o.rediscovery_backoff_max o.rediscovery_backoff_min ≡ false
    → normalized o ≡ o
unfolding defaults
normalized_kept o c b m = normalized-defaults o ∙ rw (c, b, m) refl

-- The merged list has exactly the texts that are not empty and that some text of the two lists is
-- trimmed to.
pub merge_tasks-contains :
    (current incoming : List Text) (u : Text)
    → contains (merge_tasks current incoming) u
      ≡ (cleans_to trim_space current u || cleans_to trim_space incoming u)
unfolding merge_tasks contains
merge_tasks-contains current incoming u =
    let first = visit_all-Agrees trim_space nothing_seen current nothing_seen-Agrees in
    visit_all-contains trim_space (visit_all trim_space nothing_seen current) incoming u first
    ∙ ap (λ b. b || cleans_to trim_space incoming u)
        (visit_all-contains trim_space nothing_seen current u nothing_seen-Agrees)

-- No text stands twice in the merged list.
pub merge_tasks-IsUnique : (current incoming : List Text) → IsUnique (merge_tasks current incoming)
unfolding merge_tasks
merge_tasks-IsUnique current incoming =
    visit_all-IsUnique trim_space (visit_all trim_space nothing_seen current) incoming
      (visit_all-Agrees trim_space nothing_seen current nothing_seen-Agrees)
      (visit_all-IsUnique trim_space nothing_seen current nothing_seen-Agrees tt)
