-- ===== src/Pipeline/Drain.antt =====
-- The stages of internal/analyzers/pipeline.go bring every document to its end.
use ideas.Base.{
  ℕ, zero, suc, ◌+◌, ◌-◌, ◌<◌, List, [], ◌∷◌, ◌≡◌, ◌⊎◌, refl, sym, ap, subst, ◌∙◌, length, All,
  arith, inl, inr,
}
use ideas.Base.Tally.{tally}
use ideas.Pipeline.Flow.{
  Worker, AnalysisPipeline, Step, went, take_one, start_extraction, start_processing, start_storage,
  hand_over, end_extraction, end_processing, end_storage, Action, extract_begin, extract_end,
  process_begin, process_end, store_begin, store_end, step, then_step, run,
}
use ideas.Pipeline.Places.{
  Weight, document_weight, Advanced, extract_begin-Advanced, extract_end-Advanced,
  process_begin-Advanced, process_end-Advanced, store_begin-Advanced, store_end-Advanced,
}
use ideas.Pipeline.Progress.{
  remaining, present, Goes, start_extraction-Goes, start_processing-Goes, start_storage-Goes,
  end_extraction-Goes, end_processing-Goes, end_storage-Goes,
}
use ideas.Pipeline.Types.{PipelineDocument}
use ideas.Pipeline.Idle.{
  IsReady, find_held, idle_weight, idle_takes, tally-one, held_weight, ended, done-responses,
  IsIdle, SomeHeld,
}

-- A step of a worker that is possible.
abbrev Next : AnalysisPipeline → Type 0
Next p =
    (a : Action) × (k : ℕ) × (k < 6)
    × ((f : Weight) → Advanced f k p (step a p))
    × Goes p (step a p)

abbrev Goes-along : (p : AnalysisPipeline) {s t : Step} → s ≡ t → Goes p t → Goes p s
Goes-along p e g = subst (Goes p) (sym e) g

-- A stage that sends to an empty channel has a next step, or has nothing to do.
abbrev IsQuiet : List Worker → List PipelineDocument → Type 0
IsQuiet ws chan = All IsIdle ws × (chan ≡ [])

module _ (now : ℕ) where
  next_storage_begin :
      (p : AnalysisPipeline) (chan : List PipelineDocument)
      → IsReady p
      → p.storage_chan ≡ chan
      → All IsIdle p.storage_workers
      → Next p ⊎ IsQuiet p.storage_workers p.storage_chan
  unfolding step
  next_storage_begin p [] r e a = inr (a, e)
  next_storage_begin p (d ∷ ds) r e a =
      let t = idle_takes p.storage_workers d ds r.storage a in
      inl (
        store_begin now now 0,
        4,
        omega arith,
        λ f. store_begin-Advanced f now now 0 p,
        Goes-along p (ap (start_storage now now 0 p) (ap (take_one 0 p.storage_workers) e ∙ t.1))
            (start_storage-Goes now now 0 p t.0 r.counted),
      )

  next_storage :
      (p : AnalysisPipeline)
      → IsReady p
      → SomeHeld p.storage_workers ⊎ All IsIdle p.storage_workers
      → Next p ⊎ IsQuiet p.storage_workers p.storage_chan
  unfolding step
  next_storage p r (inl h) = inl (
    store_end h.0,
    5,
    omega arith,
    λ f. store_end-Advanced f h.0 p,
    Goes-along p (ap (end_storage h.0 p) h.2) (
        end_storage-Goes h.0 p h.1 (
          omega
            (arith, r.room, tally-one p.result_chan, held_weight 5 h.0 p.storage_workers h.1 h.2))),
  )
  next_storage p r (inr a) = next_storage_begin p p.storage_chan r refl a

  next_processing_begin :
      (p : AnalysisPipeline) (chan : List PipelineDocument)
      → IsReady p
      → p.processing_chan ≡ chan
      → All IsIdle p.processing_workers
      → Next p ⊎ IsQuiet p.processing_workers p.processing_chan
  unfolding step
  next_processing_begin p [] r e a = inr (a, e)
  next_processing_begin p (d ∷ ds) r e a =
      let t = idle_takes p.processing_workers d ds r.processing a in
      inl (
        process_begin now 0,
        2,
        omega arith,
        λ f. process_begin-Advanced f now 0 p,
        Goes-along p (ap (start_processing now 0 p) (ap (take_one 0 p.processing_workers) e ∙ t.1))
            (start_processing-Goes now 0 p t.0),
      )

  next_processing :
      (p : AnalysisPipeline)
      → IsReady p
      → p.storage_chan ≡ []
      → SomeHeld p.processing_workers ⊎ All IsIdle p.processing_workers
      → Next p ⊎ IsQuiet p.processing_workers p.processing_chan
  unfolding step
  next_processing p r empty (inl h) = inl (
    process_end h.0,
    3,
    omega arith,
    λ f. process_end-Advanced f h.0 p,
    Goes-along p
        (ap (λ o. end_processing p (hand_over p.processing_workers p.storage_chan 10 h.0 o)) h.2)
        (end_processing-Goes h.0 p h.1 (omega (arith, ap length empty))),
  )
  next_processing p r empty (inr a) = next_processing_begin p p.processing_chan r refl a

  next_extraction_begin :
      (p : AnalysisPipeline) (chan : List PipelineDocument)
      → IsReady p
      → p.document_chan ≡ chan
      → All IsIdle p.extraction_workers
      → Next p ⊎ IsQuiet p.extraction_workers p.document_chan
  unfolding step
  next_extraction_begin p [] r e a = inr (a, e)
  next_extraction_begin p (d ∷ ds) r e a =
      let t = idle_takes p.extraction_workers d ds r.extraction a in
      inl (
        extract_begin now 0,
        0,
        omega arith,
        λ f. extract_begin-Advanced f now 0 p,
        Goes-along p (ap (start_extraction now 0 p) (ap (take_one 0 p.extraction_workers) e ∙ t.1))
            (start_extraction-Goes now 0 p t.0),
      )

  next_extraction :
      (p : AnalysisPipeline)
      → IsReady p
      → p.processing_chan ≡ []
      → SomeHeld p.extraction_workers ⊎ All IsIdle p.extraction_workers
      → Next p ⊎ IsQuiet p.extraction_workers p.document_chan
  unfolding step
  next_extraction p r empty (inl h) = inl (
    extract_end h.0,
    1,
    omega arith,
    λ f. extract_end-Advanced f h.0 p,
    Goes-along p
        (ap (λ o. end_extraction p (hand_over p.extraction_workers p.processing_chan 15 h.0 o)) h.2)
        (end_extraction-Goes h.0 p h.1 (omega (arith, ap length empty))),
  )
  next_extraction p r empty (inr a) = next_extraction_begin p p.document_chan r refl a

  -- When nothing is left to do, nothing remains.
  quiet-remaining :
      (p : AnalysisPipeline)
      → IsQuiet p.extraction_workers p.document_chan
      → IsQuiet p.processing_workers p.processing_chan
      → IsQuiet p.storage_workers p.storage_chan
      → remaining p ≡ 0
  quiet-remaining p e c s =
      let f : Weight = λ k id. 6 - k in
      omega (
        arith,
        idle_weight f 1 p.extraction_workers e.0,
        idle_weight f 3 p.processing_workers c.0,
        idle_weight f 5 p.storage_workers s.0,
        ap (tally (document_weight f 0)) e.1,
        ap (tally (document_weight f 2)) c.1,
        ap (tally (document_weight f 4)) s.1,
        ended p.result_chan,
      )

  next : (p : AnalysisPipeline) → IsReady p → Next p ⊎ (remaining p ≡ 0)
  next p r = elim (next_storage p r (find_held p.storage_workers)) [
    | inl n ↦ inl n
    | inr s ↦ elim (next_processing p r s.1 (find_held p.processing_workers)) [
      | inl n ↦ inl n
      | inr c ↦ elim (next_extraction p r c.1 (find_held p.extraction_workers)) [
        | inl n ↦ inl n
        | inr e ↦ inr (quiet-remaining p e c s)
      ]
    ]
  ]

  -- The step leads to a pipeline that is ready again, with one step less to do.
  abbrev Less : AnalysisPipeline → AnalysisPipeline → Type 0
  Less p q = IsReady q × (remaining q + 1 ≡ remaining p) × (present q ≡ present p)

  next-Less : (p : AnalysisPipeline) → IsReady p → (n : Next p) → Less p n.4.0
  next-Less p r n =
      let size = n.4.2 in
      let one : present n.4.0 ≡ present p =
        omega (arith, (subst (Advanced (λ k id. 1) n.1 p) n.4.1 (n.3 (λ k id. 1))).1) in
      (
        record {
          extraction = omega (arith, r.extraction, size.extraction);
          processing = omega (arith, r.processing, size.processing);
          storage = omega (arith, r.storage, size.storage);
          counted = omega (arith, r.counted, size.total);
          room = omega (arith, r.room, one);
        },
        omega (arith, n.2, (subst (Advanced (λ k id. 6 - k) n.1 p) n.4.1 (n.3 (λ k id. 6 - k))).1),
        one,
      )

  -- With a worker in each stage, an analysis counted, and at most 30 documents and responses, the steps that remain
  -- can all be made, one after the other, and after them every document is a response.
  pub run-drains :
      (n : ℕ) (p : AnalysisPipeline)
      → IsReady p
      → remaining p ≡ n
      → (actions : List Action) × (q : AnalysisPipeline) × (run actions p ≡ went q)
        × (length actions ≡ n)
        × (remaining q ≡ 0)
        × (length q.result_chan ≡ present p)
  unfolding run
  run-drains zero p r e = ([], p, refl, refl, e, done-responses p e)
  run-drains (suc n) p r e = elim (next p r) [
    | inr z ↦ absurd (omega (arith, z, e))
    | inl m ↦
        let l = next-Less p r m in
        let t = run-drains n m.4.0 l.0 (omega (arith, l.1, e)) in
        (m.0 ∷ t.0, t.1, ap (λ s. then_step s (run t.0)) m.4.1 ∙ t.2, ap suc t.3, t.4, t.5 ∙ l.2)
  ]
