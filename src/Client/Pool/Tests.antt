-- ===== src/Client/Pool/Tests.antt =====
-- The theorems on options and task lists at concrete values.
use lumen_sdk.Base.{◌≡◌, ◌↔◌, refl, true, false, ◌||◌, [], ◌∷◌, if◌then◌else◌}
use lumen_sdk.Base.Int.{pos, ltb_ℤ}
use lumen_sdk.Base.Text.{codes, trim_space}
use lumen_sdk.Base.Unique.{contains, cleans_to, IsUnique}
use lumen_sdk.Client.Pool.{PoolOptions, normalized, merge_tasks, seconds, is_unset}
use lumen_sdk.Client.Pool.Laws.{normalized_lem, merge_tasks-contains, merge_tasks-IsUnique}

-- A minimum of three minutes.
abbrev slow : PoolOptions
slow = record {
  connect_timeout = pos 0;
  rediscovery_backoff_min = pos (seconds 180);
  rediscovery_backoff_max = pos (seconds 60);
}

normalized_lem_example :
    ((normalized slow).connect_timeout
      ≡ (if is_unset slow.connect_timeout then pos (seconds 10) else slow.connect_timeout))
    × ((normalized slow).rediscovery_backoff_min ≡ (
        if is_unset slow.rediscovery_backoff_min
        then pos (seconds 10)
        else slow.rediscovery_backoff_min))
    × ((normalized slow).rediscovery_backoff_max ≡ (
        if ltb_ℤ slow.rediscovery_backoff_max (normalized slow).rediscovery_backoff_min
        then pos (seconds 120)
        else slow.rediscovery_backoff_max))
    × (is_unset (normalized slow).connect_timeout ≡ false)
    × (is_unset (normalized slow).rediscovery_backoff_min ≡ false)
    × (is_unset (normalized slow).rediscovery_backoff_max ≡ false)
    × ((ltb_ℤ (normalized slow).rediscovery_backoff_max (normalized slow).rediscovery_backoff_min
          ≡ true)
        ↔ ((ltb_ℤ (pos (seconds 120)) slow.rediscovery_backoff_min ≡ true)
            × (ltb_ℤ slow.rediscovery_backoff_max slow.rediscovery_backoff_min ≡ true)))
normalized_lem_example = normalized_lem slow

-- The finding: the maximum is less than the minimum.
inverted : normalized slow ≡ record {
  connect_timeout = pos (seconds 10);
  rediscovery_backoff_min = pos (seconds 180);
  rediscovery_backoff_max = pos (seconds 120);
}
unfolding normalized
inverted = refl

merge_tasks-contains_example :
    contains (merge_tasks (codes "ocr" ∷ []) (codes " ocr" ∷ codes "face" ∷ [])) (codes "face") ≡ (
      cleans_to trim_space (codes "ocr" ∷ []) (codes "face")
      || cleans_to trim_space (codes " ocr" ∷ codes "face" ∷ []) (codes "face"))
merge_tasks-contains_example =
    merge_tasks-contains (codes "ocr" ∷ []) (codes " ocr" ∷ codes "face" ∷ []) (codes "face")

merge_tasks-IsUnique_example :
    IsUnique (merge_tasks (codes "ocr" ∷ []) (codes " ocr" ∷ codes "face" ∷ []))
merge_tasks-IsUnique_example =
    merge_tasks-IsUnique (codes "ocr" ∷ []) (codes " ocr" ∷ codes "face" ∷ [])
