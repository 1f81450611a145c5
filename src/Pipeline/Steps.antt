-- ===== src/Pipeline/Steps.antt =====
-- What a step of internal/analyzers/pipeline.go can be, and what every step keeps.
use ideas.Base.{
  ℕ, ltb, List, [], ◌∷◌, ◌++◌, Option, none, some, ◌≡◌, refl, length, get_elem?, set, if-holds,
}
use ideas.Pipeline.Extraction.{with_analysis_timeout}
use ideas.Pipeline.Flow.{
  Worker, AnalysisPipeline, idle, busy, Step, blocked, panicked, went, Taken, taken, taken_by,
  take_one, config_for, extraction_begun, start_extraction, start_processing, stored_at,
  start_storage, held, held_in, hand_over, end_extraction, end_processing, end_storage,
  pipeline_document, Action, submit, extract_begin, extract_end, process_begin, process_end,
  store_begin, store_end, receive, receive_from, step, then_step, run,
}
use ideas.Pipeline.Rounds.{storage_round}
use ideas.Pipeline.Types.{AnalysisResponse, PipelineMetrics, PipelineDocument}

-- It holds where a step leads, if it leads anywhere.
abbrev pub OnWent : (AnalysisPipeline → Type 0) → Step → Type 0
OnWent P blocked = Unit
OnWent P panicked = Unit
OnWent P (went q) = P q

pub OnWent-map :
    (P Q : AnalysisPipeline → Type 0) (s : Step)
    → ((q : AnalysisPipeline) → P q → Q q)
    → OnWent P s
    → OnWent Q s
OnWent-map P Q blocked f h = tt
OnWent-map P Q panicked f h = tt
OnWent-map P Q (went q) f h = f q h

-- What `take_one` took from where.
abbrev pub TakenFrom : ℕ → List Worker → List PipelineDocument → Option Taken → Type 0
TakenFrom i ws chan none = Unit
TakenFrom i ws chan (some t) =
    ((w : Worker) × (get_elem? ws i ≡ some w) × (w.holds ≡ none) × (w.deadline ≡ t.deadline))
    × (chan ≡ t.document ∷ t.rest)

taken-From :
    (i : ℕ) (ws : List Worker) (d : PipelineDocument) (ds : List PipelineDocument) (w : Worker)
    (o : Option PipelineDocument)
    → get_elem? ws i ≡ some w
    → w.holds ≡ o
    → TakenFrom i ws (d ∷ ds) (taken w.deadline d ds o)
taken-From i ws d ds w none h e = ((w, h, e, refl), refl)
taken-From i ws d ds w (some x) h e = tt

taken_by-From :
    (i : ℕ) (ws : List Worker) (d : PipelineDocument) (ds : List PipelineDocument)
    (o : Option Worker)
    → get_elem? ws i ≡ o
    → TakenFrom i ws (d ∷ ds) (taken_by o d ds)
taken_by-From i ws d ds none h = tt
taken_by-From i ws d ds (some w) h = taken-From i ws d ds w w.holds h refl

pub take_one-From :
    (i : ℕ) (ws : List Worker) (chan : List PipelineDocument)
    → TakenFrom i ws chan (take_one i ws chan)
take_one-From i ws [] = tt
take_one-From i ws (d ∷ ds) = taken_by-From i ws d ds (get_elem? ws i) refl

-- What `held` found where.
abbrev pub HeldAt : ℕ → List Worker → Option (Worker × PipelineDocument) → Type 0
HeldAt i ws none = Unit
HeldAt i ws (some h) = (get_elem? ws i ≡ some h.0) × (h.0.holds ≡ some h.1)

held_doc-At :
    (i : ℕ) (ws : List Worker) (w : Worker) (o : Option PipelineDocument)
    → get_elem? ws i ≡ some w
    → w.holds ≡ o
    → HeldAt i ws (held_in w o)
held_doc-At i ws w none h e = tt
held_doc-At i ws w (some d) h e = (h, e)

held_worker-At :
    (i : ℕ) (ws : List Worker) (o : Option Worker) → get_elem? ws i ≡ o → HeldAt i ws (held o)
held_worker-At i ws none h = tt
held_worker-At i ws (some w) h = held_doc-At i ws w w.holds h refl

pub held-At : (i : ℕ) (ws : List Worker) → HeldAt i ws (held (get_elem? ws i))
held-At i ws = held_worker-At i ws (get_elem? ws i) refl

-- It holds after any step that is possible, however the step ends.
pub record IsKept (P : AnalysisPipeline → Type 0) (p : AnalysisPipeline) : Type 0 where
  pub submitting : (ds : List PipelineDocument) → P (record p { document_chan = ds })
  pub extracting :
      (now i : ℕ) (t : Taken)
      → TakenFrom i p.extraction_workers p.document_chan (some t)
      → P (extraction_begun now i p t)
  pub extracted :
      (i : ℕ) (h : Worker × PipelineDocument) (ds : List PipelineDocument)
      → HeldAt i p.extraction_workers (some h)
      → P (record p {
        extraction_workers = set p.extraction_workers i (idle h.0.deadline);
        processing_chan = ds;
      })
  pub processing :
      (ws : List Worker) (ds : List PipelineDocument)
      → P (record p { processing_workers = ws; processing_chan = ds })
  pub processed :
      (ws : List Worker) (ds : List PipelineDocument)
      → P (record p { processing_workers = ws; storage_chan = ds })
  pub storing :
      (now finished i : ℕ) (t : Taken) (r : PipelineMetrics × PipelineDocument)
      → TakenFrom i p.storage_workers p.storage_chan (some t)
      → let c = config_for p t.document in
        let deadline = with_analysis_timeout now c t.deadline in
        storage_round p.parts now finished deadline c p.metrics t.document ≡ some r
        → P (record p {
          metrics = r.0;
          storage_chan = t.rest;
          storage_workers = set p.storage_workers i (busy deadline r.1);
        })
  pub storing_done :
      (i : ℕ) (h : Worker × PipelineDocument)
      → HeldAt i p.storage_workers (some h)
      → P (record p {
        storage_workers = set p.storage_workers i (idle h.0.deadline);
        result_chan = p.result_chan ++ (h.1.response ∷ []);
      })
  pub receiving :
      (r : AnalysisResponse) (rs : List AnalysisResponse)
      → p.result_chan ≡ r ∷ rs
      → P (record p { result_chan = rs })

module _ (P : AnalysisPipeline → Type 0) where
  start_extraction-IsKept :
      (now i : ℕ) (p : AnalysisPipeline) (t : Option Taken)
      → IsKept P p
      → TakenFrom i p.extraction_workers p.document_chan t
      → OnWent P (start_extraction now i p t)
  start_extraction-IsKept now i p none k f = tt
  start_extraction-IsKept now i p (some t) k f = k.extracting now i t f

  end_extraction-IsKept :
      (i : ℕ) (p : AnalysisPipeline) (h : Option (Worker × PipelineDocument))
      → IsKept P p
      → HeldAt i p.extraction_workers h
      → OnWent P (end_extraction p (hand_over p.extraction_workers p.processing_chan 15 i h))
  end_extraction-IsKept i p none k at = tt
  end_extraction-IsKept i p (some h) k at =
      let sent = p.processing_chan ++ (h.1 ∷ []) in
      if-holds (λ o. OnWent P (end_extraction p o)) (ltb (length p.processing_chan) 15)
        {x = some (set p.extraction_workers i (idle h.0.deadline), sent)} (k.extracted i h sent at)
        tt

  start_processing-IsKept :
      (now i : ℕ) (p : AnalysisPipeline) (t : Option Taken)
      → IsKept P p
      → OnWent P (start_processing now i p t)
  start_processing-IsKept now i p none k = tt
  start_processing-IsKept now i p (some t) k = k.processing _ t.rest

  end_processing-IsKept :
      (p : AnalysisPipeline) (h : Option (List Worker × List PipelineDocument))
      → IsKept P p
      → OnWent P (end_processing p h)
  end_processing-IsKept p none k = tt
  end_processing-IsKept p (some h) k = k.processed h.0 h.1

  stored_at-IsKept :
      (now finished i : ℕ) (p : AnalysisPipeline) (t : Taken)
      (o : Option (PipelineMetrics × PipelineDocument))
      → IsKept P p
      → TakenFrom i p.storage_workers p.storage_chan (some t)
      → let c = config_for p t.document in
        let deadline = with_analysis_timeout now c t.deadline in
        storage_round p.parts now finished deadline c p.metrics t.document ≡ o
        → OnWent P (stored_at i deadline p t o)
  stored_at-IsKept now finished i p t none k f e = tt
  stored_at-IsKept now finished i p t (some r) k f e = k.storing now finished i t r f e

  start_storage-IsKept :
      (now finished i : ℕ) (p : AnalysisPipeline) (t : Option Taken)
      → IsKept P p
      → TakenFrom i p.storage_workers p.storage_chan t
      → OnWent P (start_storage now finished i p t)
  start_storage-IsKept now finished i p none k f = tt
  start_storage-IsKept now finished i p (some t) k f =
      let c = config_for p t.document in
      let deadline = with_analysis_timeout now c t.deadline in
      stored_at-IsKept now finished i p t
        (storage_round p.parts now finished deadline c p.metrics t.document) k f refl

  end_storage-IsKept :
      (i : ℕ) (p : AnalysisPipeline) (h : Option (Worker × PipelineDocument))
      → IsKept P p
      → HeldAt i p.storage_workers h
      → OnWent P (end_storage i p h)
  end_storage-IsKept i p none k at = tt
  end_storage-IsKept i p (some h) k at =
      if-holds (OnWent P) (ltb (length p.result_chan) 30) (k.storing_done i h at) tt

  receive_from-IsKept :
      (p : AnalysisPipeline) (rs : List AnalysisResponse)
      → IsKept P p
      → p.result_chan ≡ rs
      → OnWent P (receive_from p rs)
  receive_from-IsKept p [] k e = tt
  receive_from-IsKept p (r ∷ rs) k e = k.receiving r rs e

  step-IsKept : (a : Action) (p : AnalysisPipeline) → IsKept P p → OnWent P (step a p)
  unfolding step
  step-IsKept (submit now request) p k =
      if-holds (OnWent P) (ltb (length p.document_chan) 10)
        (k.submitting (p.document_chan ++ (pipeline_document now request ∷ []))) tt
  step-IsKept (extract_begin now i) p k =
      start_extraction-IsKept now i p (take_one i p.extraction_workers p.document_chan) k
        (take_one-From i p.extraction_workers p.document_chan)
  step-IsKept (extract_end i) p k =
      end_extraction-IsKept i p (held (get_elem? p.extraction_workers i)) k
        (held-At i p.extraction_workers)
  step-IsKept (process_begin now i) p k =
      start_processing-IsKept now i p (take_one i p.processing_workers p.processing_chan) k
  step-IsKept (process_end i) p k =
      end_processing-IsKept p
        (hand_over p.processing_workers p.storage_chan 10 i
          (held (get_elem? p.processing_workers i)))
        k
  step-IsKept (store_begin now finished i) p k =
      start_storage-IsKept now finished i p (take_one i p.storage_workers p.storage_chan) k
        (take_one-From i p.storage_workers p.storage_chan)
  step-IsKept (store_end i) p k =
      end_storage-IsKept i p (held (get_elem? p.storage_workers i)) k (held-At i p.storage_workers)
  step-IsKept receive p k = receive_from-IsKept p p.result_chan k refl

  then_step-keeps :
      (s : Step) (g : AnalysisPipeline → Step)
      → OnWent P s
      → ((q : AnalysisPipeline) → P q → OnWent P (g q))
      → OnWent P (then_step s g)
  then_step-keeps blocked g h k = tt
  then_step-keeps panicked g h k = tt
  then_step-keeps (went q) g h k = k q h

  -- What every step keeps, a run keeps.
  pub run-keeps :
      (actions : List Action) (p : AnalysisPipeline)
      → ((q : AnalysisPipeline) → P q → IsKept P q)
      → P p
      → OnWent P (run actions p)
  unfolding run
  run-keeps [] p k h = h
  run-keeps (a ∷ rest) p k h =
      then_step-keeps (step a p) (run rest) (step-IsKept a p (k p h)) (λ q c. run-keeps rest q k c)
