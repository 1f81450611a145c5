-- ===== src/Validation/Unique/Best.antt =====
-- The reference for deduplicateEntities: each entity is put into the list, where at most one of a key
-- stays, that of the highest confidence.
use ideas.Base.{◌≡◌, Bool, true, List, All}
use ideas.Base.Best.{
  same_key as same, above as worthier, insert_all, OnePerKey as Single, represented as covers,
  insert_best, insert_all-All, insert_all-OnePerKey, insert_all-represented,
}
use ideas.Base.Int.{ℤ}
use ideas.Validation.Types.{ExtractedEntity}
use ideas.Validation.Unique.{get_duplication_key}

abbrev pub confidence_of : ExtractedEntity → ℤ
confidence_of e = e.confidence

abbrev pub same_key : ExtractedEntity → ExtractedEntity → Bool
same_key = same get_duplication_key confidence_of

abbrev pub above : ExtractedEntity → ExtractedEntity → Bool
above = worthier get_duplication_key confidence_of

abbrev pub put_best : ExtractedEntity → List ExtractedEntity → List ExtractedEntity
put_best = insert_best get_duplication_key confidence_of

abbrev pub put_all : List ExtractedEntity → List ExtractedEntity → List ExtractedEntity
put_all = insert_all get_duplication_key confidence_of

abbrev pub OnePerKey : List ExtractedEntity → Type 0
OnePerKey = Single get_duplication_key confidence_of

abbrev pub represented : ExtractedEntity → List ExtractedEntity → Bool
represented = covers get_duplication_key confidence_of

pub put_all-All {ℓ} :
    (P : ExtractedEntity → Type ℓ) (es us : List ExtractedEntity)
    → All P es
    → All P us
    → All P (put_all es us)
put_all-All = insert_all-All get_duplication_key confidence_of

pub put_all-OnePerKey : (es us : List ExtractedEntity) → OnePerKey us → OnePerKey (put_all es us)
put_all-OnePerKey = insert_all-OnePerKey get_duplication_key confidence_of

pub put_all-represented :
    (es us : List ExtractedEntity)
    → All (λ (e : ExtractedEntity). represented e (put_all es us) ≡ true) es
put_all-represented = insert_all-represented get_duplication_key confidence_of
