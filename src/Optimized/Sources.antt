-- ===== src/Optimized/Sources.antt =====
-- From which chunks the entities in internal/extractors/optimized_extractor.go come.
use ideas.Base.{
  ◌<◌, ◌≡◌, refl, Bool, true, false, List, [], ◌∷◌, ◌++◌, some, All, arith, if◌then◌else◌,
  Bool-cases, ◌⊎◌, inl, inr, sym, subst, ◌∙◌,
}
use ideas.Optimized.{Entity, ChunkResult, all_entities, tagged, valid_results}

-- Some element satisfies the predicate.
abbrev pub Any : {A : Type 0} → (A → Type 0) → List A → Type 0
Any P [] = ⊥
Any P (x ∷ xs) = P x ⊎ Any P xs

-- An entity with the index and the identifier of the chunk of a result.
abbrev pub tag : ChunkResult → Entity → Entity
tag r e = record e { chunk = some (r.chunk_index, r.chunk_id) }

-- The entity is one of a chunk that succeeded, tagged with that chunk.
abbrev pub FromSucceeded : List ChunkResult → Entity → Type 0
FromSucceeded rs e =
    Any (λ (r : ChunkResult). (r.failed ≡ false) × Any (λ (s : Entity). e ≡ tag r s) r.entities) rs

-- Each entity of the chunks that succeeded satisfies the predicate, once it is tagged.
abbrev pub AllSucceeded : (Entity → Type 0) → List ChunkResult → Type 0
AllSucceeded P rs =
    All (λ (r : ChunkResult). r.failed ≡ false → All (λ (s : Entity). P (tag r s)) r.entities) rs

pub All-map {ℓ κ} :
    (P : Entity → Type ℓ) (Q : Entity → Type κ) (es : List Entity)
    → ((e : Entity) → P e → Q e)
    → All P es
    → All Q es
All-map P Q [] f h = tt
All-map P Q (e ∷ es) f h = (f e h.0, All-map P Q es f h.1)

All-append {ℓ κ} :
    {A : Type ℓ} (P : A → Type κ) (xs ys : List A) → All P xs → All P ys → All P (xs ++ ys)
All-append P [] ys h k = k
All-append P (x ∷ xs) ys h k = (h.0, All-append P xs ys h.1 k)

All-left {ℓ κ} : {A : Type ℓ} (P : A → Type κ) (xs ys : List A) → All P (xs ++ ys) → All P xs
All-left P [] ys h = tt
All-left P (x ∷ xs) ys h = (h.0, All-left P xs ys h.1)

All-right {ℓ κ} : {A : Type ℓ} (P : A → Type κ) (xs ys : List A) → All P (xs ++ ys) → All P ys
All-right P [] ys h = h
All-right P (x ∷ xs) ys h = All-right P xs ys h.1

tagged-from :
    (r : ChunkResult) (es : List Entity)
    → All (λ (e : Entity). Any (λ (s : Entity). e ≡ tag r s) es) (tagged r es)
tagged-from r [] = tt
tagged-from r (e ∷ es) = (
  inl refl,
  All-map (λ (x : Entity). Any (λ (s : Entity). x ≡ tag r s) es)
      (λ (x : Entity). Any (λ (s : Entity). x ≡ tag r s) (e ∷ es)) (tagged r es) (λ x h. inr h)
      (tagged-from r es),
)

abbrev with_tagged : Bool → ChunkResult → List ChunkResult → List Entity
with_tagged b r rs = if b then all_entities rs else tagged r r.entities ++ all_entities rs

pub all_entities-from : (rs : List ChunkResult) → All (FromSucceeded rs) (all_entities rs)
all_entities-from [] = tt
all_entities-from (r ∷ rs) =
    let later : All (FromSucceeded (r ∷ rs)) (all_entities rs) =
      All-map (FromSucceeded rs) (FromSucceeded (r ∷ rs)) (all_entities rs) (λ e h. inr h)
        (all_entities-from rs) in
    elim (Bool-cases r.failed) [
      | inl t ↦ subst (λ b. All (FromSucceeded (r ∷ rs)) (with_tagged b r rs)) (sym t) later
      | inr t ↦
          subst (λ b. All (FromSucceeded (r ∷ rs)) (with_tagged b r rs)) (sym t)
            (All-append (FromSucceeded (r ∷ rs)) (tagged r r.entities) (all_entities rs)
              (All-map (λ (e : Entity). Any (λ (s : Entity). e ≡ tag r s) r.entities)
                (FromSucceeded (r ∷ rs)) (tagged r r.entities) (λ e h. inl (t, h))
                (tagged-from r r.entities))
              later)
    ]

tagged-All :
    (P : Entity → Type 0) (r : ChunkResult) (es : List Entity)
    → All P (tagged r es)
    → All (λ (s : Entity). P (tag r s)) es
tagged-All P r [] h = tt
tagged-All P r (e ∷ es) h = (h.0, tagged-All P r es h.1)

pub all_entities-All :
    (P : Entity → Type 0) (rs : List ChunkResult) → All P (all_entities rs) → AllSucceeded P rs
all_entities-All P [] h = tt
all_entities-All P (r ∷ rs) h = elim (Bool-cases r.failed) [
  | inl t ↦
      let rest : All P (all_entities rs) = subst (λ b. All P (with_tagged b r rs)) t h in
      (λ f. absurd (differ (sym t ∙ f)), all_entities-All P rs rest)
  | inr t ↦
      let both : All P (tagged r r.entities ++ all_entities rs) =
        subst (λ b. All P (with_tagged b r rs)) t h in
      (
        λ f. tagged-All P r r.entities (All-left P (tagged r r.entities) (all_entities rs) both),
        all_entities-All P rs (All-right P (tagged r r.entities) (all_entities rs) both),
      )
]
  where
    differ : true ≡ false → ⊥
    differ e = cc

pub valid_results-none :
    (rs : List ChunkResult) → valid_results rs ≡ 0 → All (λ (r : ChunkResult). r.failed ≡ true) rs
valid_results-none [] h = tt
valid_results-none (r ∷ rs) h = elim (Bool-cases r.failed) [
  | inl t ↦ (t, valid_results-none rs (ground (arith, h, t)))
  | inr t ↦ absurd (ground (arith, h, t))
]

pub valid_results-some :
    (rs : List ChunkResult) → 0 < valid_results rs → Any (λ (r : ChunkResult). r.failed ≡ false) rs
valid_results-some [] h = omega (arith, h)
valid_results-some (r ∷ rs) h = elim (Bool-cases r.failed) [
  | inl t ↦ inr (valid_results-some rs (ground (arith, h, t)))
  | inr t ↦ inl t
]
