-- ===== src/Pipeline/Deadlines.antt =====
-- The contexts of the extraction workers of internal/analyzers/pipeline.go.
use ideas.Base.{ℕ, ◌≤◌, List, Option, none, some, get_elem?}
use ideas.Pipeline.Flow.{Worker, AnalysisPipeline}
use ideas.Pipeline.Types.{Deadline}

-- The deadline is there, and not after d.
abbrev pub EndsBy : ℕ → Deadline → Type 0
EndsBy d none = ⊥
EndsBy d (some e) = e ≤ d

-- That of the worker i.
abbrev WorkerBy : ℕ → Option Worker → Type 0
WorkerBy d none = Unit
WorkerBy d (some w) = EndsBy d w.deadline

abbrev pub EndsAt : ℕ → ℕ → List Worker → Type 0
EndsAt d i ws = WorkerBy d (get_elem? ws i)

module _ (d i : ℕ) where
  abbrev Bounded : AnalysisPipeline → Type 0
  Bounded p = EndsAt d i p.extraction_workers
