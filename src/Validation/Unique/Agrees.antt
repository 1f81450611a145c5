-- ===== src/Validation/Unique/Agrees.antt =====
-- deduplicateEntities of internal/extractors/entity_validator.go agrees with its reference.
use ideas.Base.{
  ℕ, suc, ◌+◌, ◌<◌, ◌≡◌, ◌≢◌, refl, sym, ap, subst, ◌∙◌, Bool, true, false, ◌==◌, List, [], ◌∷◌,
  ◌++◌, Option, none, some, length, length-append, All, arith, if◌then◌else◌, eq_true, eq_false,
  Bool-cases, inl, inr,
}
use ideas.Base.Best.{insert_best, insert_all}
use ideas.Base.TextLaws.{bytes_eq_sound, bytes_eq_sym}
use ideas.Base.Text.{Bytes, bytes_eq}
use ideas.Validation.Types.{ExtractedEntity}
use ideas.Validation.Unique.{
  get_duplication_key, Ref, key_of, better, lookup, replace_at, Deduplication, on_seen,
  deduplicate_step, deduplicate_from, refs_from, entities_of, nothing_seen, deduplicate_entities,
}
use ideas.Validation.Unique.Best.{
  put_best, put_all, OnePerKey, represented, put_all-OnePerKey, put_all-represented,
}
use mathlib.Core.Option.{some-injective}

-- The first with a key.
find : Bytes → List Ref → Option Ref
find k [] = none
find k (u ∷ us) = if bytes_eq k (key_of u) then some u else find k us

-- No pointer is twice in the list.
abbrev Distinct : List Ref → Type 0
Distinct [] = Unit
Distinct (u ∷ us) = All (λ (v : Ref). v.0 ≢ u.0) us × Distinct us

abbrev Below : ℕ → List Ref → Type 0
Below n = All (λ (u : Ref). u.0 < n)

find-All {ℓ} :
    (P : Ref → Type ℓ) (k : Bytes) (us : List Ref) (u : Ref) → All P us → find k us ≡ some u → P u
unfolding find
find-All P k [] u h e = absurd (cc e)
find-All P k (v ∷ us) u h e = elim (Bool-cases (bytes_eq k (key_of v))) [
  | inl t ↦ subst P (some-injective v u (rw t at e)) h.0
  | inr t ↦ find-All P k us u h.1 (rw t at e)
]

apart : (k r v : Bytes) → bytes_eq k v ≡ true → bytes_eq r v ≡ false → bytes_eq k r ≡ false
apart k r v h n = ap (λ z. bytes_eq z r) (bytes_eq_sound k v h) ∙ bytes_eq_sym v r ∙ n

find-snoc :
    (k : Bytes) (r : Ref) (us : List Ref)
    → find (key_of r) us ≡ none
    → find k (us ++ (r ∷ [])) ≡ (if bytes_eq k (key_of r) then some r else find k us)
unfolding find
find-snoc k r [] h = refl
find-snoc k r (v ∷ us) h = elim (Bool-cases (bytes_eq (key_of r) (key_of v))) [
  | inl t ↦ absurd (cc (rw t at h))
  | inr t ↦ elim (Bool-cases (bytes_eq k (key_of v))) [
    | inl q ↦ rw (q, apart k (key_of r) (key_of v) q t) refl
    | inr q ↦ rw q (find-snoc k r us (rw t at h))
  ]
]

overwrite {ℓ} :
    {A : Type ℓ} (b : Bool) (x y z : A)
    → (if b then x else z) ≡ (if b then x else (if b then y else z))
overwrite true x y z = refl
overwrite false x y z = refl

find-replace :
    (k : Bytes) (r u : Ref) (us : List Ref)
    → Distinct us
    → find (key_of r) us ≡ some u
    → find k (replace_at u.0 r us) ≡ (if bytes_eq k (key_of r) then some r else find k us)
unfolding find replace_at
find-replace k r u [] d h = absurd (cc h)
find-replace k r u (v ∷ us) d h = elim (Bool-cases (bytes_eq (key_of r) (key_of v))) [
  | inl t ↦
      let e = some-injective v u (rw t at h) in
      rw (eq_true v.0 u.0 (ap (λ (w : Ref). w.0) e), sym (bytes_eq_sound (key_of r) (key_of v) t))
        (overwrite (bytes_eq k (key_of r)) _ _ _)
  | inr t ↦
      let n : v.0 ≢ u.0 =
        λ q. find-All (λ (w : Ref). w.0 ≢ v.0) (key_of r) us u d.0 (rw t at h) (sym q) in
      rw (eq_false v.0 u.0 n) (elim (Bool-cases (bytes_eq k (key_of v))) [
        | inl q ↦ rw (q, apart k (key_of r) (key_of v) q t) refl
        | inr q ↦ rw q (find-replace k r u us d.1 (rw t at h))
      ])
]

put_best-snoc :
    (r : Ref) (us : List Ref)
    → find (key_of r) us ≡ none
    → entities_of (us ++ (r ∷ [])) ≡ put_best r.1 (entities_of us)
unfolding find insert_best
put_best-snoc r [] h = refl
put_best-snoc r (v ∷ us) h = elim (Bool-cases (bytes_eq (key_of r) (key_of v))) [
  | inl t ↦ absurd (cc (rw t at h))
  | inr t ↦ rw t (ap (λ es. v.1 ∷ es) (put_best-snoc r us (rw t at h)))
]

put_best-worse :
    (r u : Ref) (us : List Ref)
    → find (key_of r) us ≡ some u
    → better r u ≡ false
    → entities_of us ≡ put_best r.1 (entities_of us)
unfolding find insert_best
put_best-worse r u [] h b = absurd (cc h)
put_best-worse r u (v ∷ us) h b = elim (Bool-cases (bytes_eq (key_of r) (key_of v))) [
  | inl t ↦
      let e = some-injective v u (rw t at h) in
      rw (t, subst (λ w. better r w ≡ false) (sym e) b) refl
  | inr t ↦ rw t (ap (λ es. v.1 ∷ es) (put_best-worse r u us (rw t at h) b))
]

put_best-better :
    (r u : Ref) (us : List Ref)
    → Distinct us
    → find (key_of r) us ≡ some u
    → better r u ≡ true
    → entities_of (replace_at u.0 r us) ≡ put_best r.1 (entities_of us)
unfolding find insert_best replace_at
put_best-better r u [] d h b = absurd (cc h)
put_best-better r u (v ∷ us) d h b = elim (Bool-cases (bytes_eq (key_of r) (key_of v))) [
  | inl t ↦
      let e = some-injective v u (rw t at h) in
      rw (t, subst (λ w. better r w ≡ true) (sym e) b, eq_true v.0 u.0 (ap (λ (w : Ref). w.0) e))
        refl
  | inr t ↦
      let n : v.0 ≢ u.0 =
        λ q. find-All (λ (w : Ref). w.0 ≢ v.0) (key_of r) us u d.0 (rw t at h) (sym q) in
      rw (t, eq_false v.0 u.0 n) (ap (λ es. v.1 ∷ es) (put_best-better r u us d.1 (rw t at h) b))
]

Below-weaken : (n : ℕ) (us : List Ref) → Below n us → Below (n + 1) us
Below-weaken n [] h = tt
Below-weaken n (u ∷ us) h = (omega (arith, h.0), Below-weaken n us h.1)

Below-snoc :
    (n : ℕ) (e : ExtractedEntity) (us : List Ref) → Below n us → Below (n + 1) (us ++ ((n, e) ∷ []))
Below-snoc n e [] h = (omega arith, tt)
Below-snoc n e (u ∷ us) h = (omega (arith, h.0), Below-snoc n e us h.1)

All-snoc {ℓ} :
    (P : Ref → Type ℓ) (us : List Ref) (r : Ref) → All P us → P r → All P (us ++ (r ∷ []))
All-snoc P [] r h p = (p, tt)
All-snoc P (u ∷ us) r h p = (h.0, All-snoc P us r h.1 p)

Distinct-snoc :
    (n : ℕ) (e : ExtractedEntity) (us : List Ref)
    → Below n us
    → Distinct us
    → Distinct (us ++ ((n, e) ∷ []))
Distinct-snoc n e [] b d = (tt, tt)
Distinct-snoc n e (u ∷ us) b d = (
  All-snoc (λ (v : Ref). v.0 ≢ u.0) us (n, e) d.0 (λ q. omega (arith, q, b.0)),
  Distinct-snoc n e us b.1 d.1,
)

replace-All {ℓ} :
    (P : Ref → Type ℓ) (a : ℕ) (r : Ref) (us : List Ref)
    → All P us
    → P r
    → All P (replace_at a r us)
unfolding replace_at
replace-All P a r [] h p = tt
replace-All P a r (u ∷ us) h p = elim (Bool-cases (u.0 == a)) [
  | inl t ↦ rw t (p, h.1)
  | inr t ↦ rw t (h.0, replace-All P a r us h.1 p)
]

away : (n : ℕ) (us : List Ref) → Below n us → All (λ (v : Ref). v.0 ≢ n) us
away n [] h = tt
away n (u ∷ us) h = (λ q. omega (arith, q, h.0), away n us h.1)

Distinct-replace :
    (a n : ℕ) (e : ExtractedEntity) (us : List Ref)
    → Below n us
    → Distinct us
    → Distinct (replace_at a (n, e) us)
unfolding replace_at
Distinct-replace a n e [] b d = tt
Distinct-replace a n e (u ∷ us) b d = elim (Bool-cases (u.0 == a)) [
  | inl t ↦ rw t (away n us b.1, d.1)
  | inr t ↦ rw t (
    replace-All (λ (v : Ref). v.0 ≢ u.0) a (n, e) us d.0 (λ q. omega (arith, q, b.0)),
    Distinct-replace a n e us b.1 d.1,
  )
]

length-replace : (a : ℕ) (r : Ref) (us : List Ref) → length (replace_at a r us) ≡ length us
unfolding replace_at
length-replace a r [] = refl
length-replace a r (u ∷ us) = elim (Bool-cases (u.0 == a)) [
  | inl t ↦ rw t refl
  | inr t ↦ rw t (ap suc (length-replace a r us))
]

-- The map and the slice hold the same, each under one pointer, made before.
record Tracks (n : ℕ) (d : Deduplication) : Type 0 where
  agrees : (k : Bytes) → lookup k d.seen ≡ find k d.unique
  distinct : Distinct d.unique
  older : Below n d.unique

-- What one step does, by what the map holds.
record Stepped (n total : ℕ) (r : Ref) (before : List ExtractedEntity) (d : Deduplication)
    : Type 0 where
  tracks : Tracks (n + 1) d
  result : entities_of d.unique ≡ put_best r.1 before
  counted : length d.unique + d.duplicate_count ≡ total + 1

on_better : ℕ → ExtractedEntity → Ref → Deduplication → Deduplication
on_better n e u d = record d {
  seen = (get_duplication_key e, (n, e)) ∷ d.seen;
  unique = replace_at u.0 (n, e) d.unique;
  duplicate_count = d.duplicate_count + 1;
}

on_worse : Deduplication → Deduplication
on_worse d = record d { duplicate_count = d.duplicate_count + 1 }

step-Stepped :
    (n : ℕ) (e : ExtractedEntity) (d : Deduplication) (o : Option Ref)
    → Tracks n d
    → find (get_duplication_key e) d.unique ≡ o
    → Stepped n
        (length d.unique + d.duplicate_count)
        (n, e)
        (entities_of d.unique)
        (on_seen (n, e) d o)
unfolding on_better on_worse
step-Stepped n e d none t h = record {
  tracks = record {
    agrees = λ k.
        ap (λ z. if bytes_eq k (get_duplication_key e) then some (n, e) else z) (t.agrees k)
        ∙ sym (find-snoc k (n, e) d.unique h);
    distinct = Distinct-snoc n e d.unique t.older t.distinct;
    older = Below-snoc n e d.unique t.older;
  };
  result = put_best-snoc (n, e) d.unique h;
  counted = omega (arith, length-append d.unique ((n, e) ∷ []));
}
step-Stepped n e d (some u) t h =
    let old : Tracks (n + 1) d = record {
      agrees = t.agrees;
      distinct = t.distinct;
      older = Below-weaken n d.unique t.older;
    } in
    let counts = length d.unique + d.duplicate_count in
    elim (Bool-cases (better (n, e) u)) [
      | inl b ↦
          subst
            (λ z.
              Stepped n counts (n, e) (entities_of d.unique)
                (if z then on_better n e u d else on_worse d))
            (sym b)
            (record {
              tracks = record {
                agrees = λ k.
                    ap (λ z. if bytes_eq k (get_duplication_key e) then some (n, e) else z)
                      (t.agrees k)
                    ∙ sym (find-replace k (n, e) u d.unique t.distinct h);
                distinct = Distinct-replace u.0 n e d.unique t.older t.distinct;
                older =
                    replace-All (λ (v : Ref). v.0 < n + 1) u.0 (n, e) d.unique
                      (Below-weaken n d.unique t.older) (omega arith);
              };
              result = put_best-better (n, e) u d.unique t.distinct h b;
              counted = omega (arith, length-replace u.0 (n, e) d.unique);
            })
      | inr b ↦
          subst
            (λ z.
              Stepped n counts (n, e) (entities_of d.unique)
                (if z then on_better n e u d else on_worse d))
            (sym b)
            (record {
              tracks = record { agrees = old.agrees; distinct = old.distinct; older = old.older };
              result = put_best-worse (n, e) u d.unique h b;
              counted = omega arith;
            })
    ]

deduplicate_step-Stepped :
    (n : ℕ) (e : ExtractedEntity) (d : Deduplication)
    → Tracks n d
    → Stepped n
        (length d.unique + d.duplicate_count)
        (n, e)
        (entities_of d.unique)
        (deduplicate_step (n, e) d)
unfolding deduplicate_step
deduplicate_step-Stepped n e d t =
    step-Stepped n e d (lookup (get_duplication_key e) d.seen) t
      (sym (t.agrees (get_duplication_key e)))

deduplicate_from-put_all :
    (n : ℕ) (es : List ExtractedEntity) (d : Deduplication)
    → Tracks n d
    → let r = deduplicate_from (refs_from n es) d in
      (entities_of r.unique ≡ put_all es (entities_of d.unique))
      × (length r.unique + r.duplicate_count ≡ length d.unique + d.duplicate_count + length es)
unfolding deduplicate_from insert_all
deduplicate_from-put_all n [] d t = (refl, omega arith)
deduplicate_from-put_all n (e ∷ es) d t =
    let s = deduplicate_step-Stepped n e d t in
    let (p, q) = deduplicate_from-put_all (n + 1) es (deduplicate_step (n, e) d) s.tracks in
    (p ∙ ap (put_all es) s.result, omega (arith, q, s.counted))

length-entities_of : (us : List Ref) → length (entities_of us) ≡ length us
length-entities_of [] = refl
length-entities_of (u ∷ us) = ap suc (length-entities_of us)

-- The entities that deduplicateEntities keeps are those of the reference, which knows no pointers and no
-- map, and those kept and those counted as duplicates are all that were given.
pub deduplicate_entities-put_all :
    (es : List ExtractedEntity)
    → ((deduplicate_entities es).0 ≡ put_all es [])
      × (length (deduplicate_entities es).0 + (deduplicate_entities es).1 ≡ length es)
unfolding deduplicate_entities find
deduplicate_entities-put_all es =
    let (p, q) =
      deduplicate_from-put_all 0 es nothing_seen
        (record { agrees = λ k. refl; distinct = tt; older = tt }) in
    (
      p,
      omega
          (arith, q, length-entities_of ((deduplicate_from (refs_from 0 es) nothing_seen).unique)),
    )

-- No two entities that deduplicateEntities keeps have the same type and text, but for case and outer
-- white space, and every entity that was given has one with its key among them, of its confidence at
-- least.
pub deduplicate_entities-OnePerKey :
    (es : List ExtractedEntity)
    → OnePerKey (deduplicate_entities es).0
      × All (λ e. represented e (deduplicate_entities es).0 ≡ true) es
deduplicate_entities-OnePerKey es =
    rw ((deduplicate_entities-put_all es).0) (put_all-OnePerKey es [] tt, put_all-represented es [])
