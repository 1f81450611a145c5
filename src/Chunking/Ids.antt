-- ===== src/Chunking/Ids.antt =====
-- The identifiers of chunks (createChunk of internal/extractors/intelligent_chunking.go).
use ideas.Base.{
  ℕ, zero, suc, ◌+◌, ◌-◌, ◌*◌, ◌%◌, ◌/◌, ◌<◌, ◌≡◌, refl, sym, ap, ◌∙◌, [], ◌∷◌, ◌++◌, arith, ltb,
  Bool-cases, inl, inr,
}
use ideas.Base.Text.{Bytes, codes, decimal, decimal_from}
use ideas.Chunking.Split.{chunk_id}

-- The number that a text of digits stands for.
value : ℕ → Bytes → ℕ
value acc [] = acc
value acc (c ∷ s) = value (acc * 10 + (c - 48)) s

value-nil : value 0 [] ≡ 0
unfolding value
value-nil = refl

value-snoc : (acc : ℕ) (s : Bytes) (c : ℕ) → value acc (s ++ (c ∷ [])) ≡ value acc s * 10 + (c - 48)
unfolding value
value-snoc acc [] c = refl
value-snoc acc (d ∷ s) c = value-snoc (acc * 10 + (d - 48)) s c

value-decimal_from : (f n : ℕ) → n < f → value 0 (decimal_from f n) ≡ n
unfolding decimal_from
value-decimal_from zero n h = absurd (omega arith)
value-decimal_from (suc f) n h = elim (Bool-cases (ltb n 10)) [
  | inl small ↦ rw small (value-snoc 0 [] (48 + n % 10) ∙ ground (arith, value-nil))
  | inr large ↦ rw large (
      value-snoc 0 (decimal_from f (n / 10)) (48 + n % 10)
      ∙ ground (arith, value-decimal_from f (n / 10)))
]

decimal-injective : (m n : ℕ) → decimal m ≡ decimal n → m ≡ n
unfolding decimal
decimal-injective m n e =
    sym (value-decimal_from (suc m) m (omega arith))
    ∙ ap (value 0) e
    ∙ value-decimal_from (suc n) n (omega arith)

append-cancel : (xs : Bytes) {ys zs : Bytes} → xs ++ ys ≡ xs ++ zs → ys ≡ zs
append-cancel [] e = e
append-cancel (x ∷ xs) e = append-cancel xs (cc)

-- Two chunks of one document with the same identifier are the same in number.
pub chunk_id-injective : (doc_id : Bytes) (i j : ℕ) → chunk_id doc_id i ≡ chunk_id doc_id j → i ≡ j
unfolding chunk_id
chunk_id-injective doc_id i j e =
    decimal-injective i j (append-cancel (codes "_chunk_") (append-cancel doc_id e))
