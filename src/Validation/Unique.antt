-- ===== src/Validation/Unique.antt =====
-- deduplicateEntities of internal/extractors/entity_validator.go. A pointer to an entity is a number
-- beside the entity: the slice is searched for the pointer that the map holds.
pub mod Best
pub mod Agrees
use ideas.Base.{
  ℕ, zero, suc, ◌+◌, Bool, true, false, ◌==◌, List, [], ◌∷◌, ◌++◌, Option, none, some, map,
  if◌then◌else◌,
}
use ideas.Base.Int.{ℤ, ltb_ℤ}
use ideas.Base.Text.{Bytes, bytes_eq, to_lower, trim_space}
use ideas.Validation.Types.{ExtractedEntity}

abbrev pub Ref : Type 0
Ref = ℕ × ExtractedEntity

unfoldable pub get_duplication_key : ExtractedEntity → Bytes
unfolding to_lower trim_space
get_duplication_key e = e.entity_type ++ (b':' ∷ to_lower (trim_space e.text))

abbrev pub key_of : Ref → Bytes
key_of r = get_duplication_key r.1

abbrev pub better : Ref → Ref → Bool
better r u = let e = r.1 in let f = u.1 in ltb_ℤ f.confidence e.confidence

-- The map `seen`, the last write of a key first.
abbrev pub lookup : Bytes → List (Bytes × Ref) → Option Ref
lookup k [] = none
lookup k (kv ∷ seen) = if bytes_eq k kv.0 then some kv.1 else lookup k seen

-- The entity at the pointer is replaced.
unfoldable pub replace_at : ℕ → Ref → List Ref → List Ref
replace_at a r [] = []
replace_at a r (u ∷ us) = let rest = replace_at a r us in if u.0 == a then r ∷ us else u ∷ rest

pub record Deduplication : Type 0 where
  pub seen : List (Bytes × Ref)
  pub unique : List Ref
  pub duplicate_count : ℕ

abbrev pub on_seen : Ref → Deduplication → Option Ref → Deduplication
on_seen r d none = record d { seen = (key_of r, r) ∷ d.seen; unique = d.unique ++ (r ∷ []) }
on_seen r d (some existing) =
    if better r existing
    then record d {
      seen = (key_of r, r) ∷ d.seen;
      unique = replace_at existing.0 r d.unique;
      duplicate_count = d.duplicate_count + 1;
    }
    else record d { duplicate_count = d.duplicate_count + 1 }

unfoldable pub deduplicate_step : Ref → Deduplication → Deduplication
deduplicate_step r d = on_seen r d (lookup (key_of r) d.seen)

unfoldable pub deduplicate_from : List Ref → Deduplication → Deduplication
deduplicate_from [] d = d
deduplicate_from (r ∷ rs) d = deduplicate_from rs (deduplicate_step r d)

-- The entities with their pointers, which are different.
abbrev pub refs_from : ℕ → List ExtractedEntity → List Ref
refs_from n [] = []
refs_from n (e ∷ es) = (n, e) ∷ refs_from (n + 1) es

abbrev pub entities_of : List Ref → List ExtractedEntity
entities_of [] = []
entities_of (r ∷ rs) = r.1 ∷ entities_of rs

abbrev pub nothing_seen : Deduplication
nothing_seen = record { seen = []; unique = []; duplicate_count = 0 }

unfoldable pub deduplicate_entities : List ExtractedEntity → List ExtractedEntity × ℕ
deduplicate_entities es =
    let d = deduplicate_from (refs_from 0 es) nothing_seen in
    (entities_of d.unique, d.duplicate_count)
