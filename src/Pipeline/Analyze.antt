-- ===== src/Pipeline/Analyze.antt =====
-- AnalyzeDocument of internal/analyzers/pipeline.go, as its caller sees it.
use ideas.Base.{ℕ, ◌-◌, [], ◌++◌, Option, none, some, if◌then◌else◌}
use ideas.Base.Text.{Bytes, codes, bytes_eq}
use ideas.Pipeline.Types.{Returned, failed, returned, AnalysisRequest, AnalysisResponse}

-- The response to a caller of AnalyzeDocument that began and ended at two times, if it goes wrong.
abbrev pub error_response : ℕ → ℕ → AnalysisRequest → Bytes → AnalysisResponse
error_response started ended request err = record {
  request_id = request.request_id;
  document = request.document;
  result = none;
  processing_time = ended - started;
  extractor_used = [];
  error = some err;
  timestamp = started;
}

-- Whatever response is in the channel, the caller takes it.
unfoldable pub take_response : ℕ → ℕ → AnalysisRequest → AnalysisResponse → AnalysisResponse
take_response started ended request response =
    if bytes_eq response.request_id request.request_id
    then response
    else error_response started ended request (codes "pipeline returned wrong response")

-- The waiting for a result, where the context may end first.
unfoldable pub await_result : ℕ → ℕ → AnalysisRequest → Returned AnalysisResponse → AnalysisResponse
unfolding take_response
await_result started ended request (failed err) =
    error_response started ended request (codes "pipeline processing timeout: " ++ err)
await_result started ended request (returned response) =
    take_response started ended request response

-- The submission, which the context may end too.
unfoldable pub analyze_document :
    ℕ → ℕ → AnalysisRequest → Option Bytes → Returned AnalysisResponse → AnalysisResponse
unfolding await_result
analyze_document started ended request (some err) answer =
    error_response started ended request (codes "pipeline submission timeout: " ++ err)
analyze_document started ended request none answer = await_result started ended request answer
