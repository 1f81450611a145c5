-- ===== src/Cleaner/Clean.antt =====
-- The pipeline of internal/extractors/json_cleaner.go.
use ideas.Base.{ℕ, Bool, true, false, not, ◌&&◌, List, [], ◌∷◌, length, ltb, if◌then◌else◌}
use ideas.Base.Text.{Bytes, codes, contains}
use ideas.Cleaner.Repair.{
  basic_clean, remove_markdown_blocks, remove_explanatory_text, fix_common_json_issues,
  remove_json_comments, final_cleanup,
}
use ideas.Cleaner.Structure.{validate_json_structure, extract_json_structure, find_objects}

-- `StrictMode` is never read.
pub record JsonCleaner : Type 0 where
  pub remove_comments : Bool
  pub fix_common_issues : Bool

abbrev pub new_json_cleaner : JsonCleaner
new_json_cleaner = record { remove_comments = true; fix_common_issues = true }

abbrev pub is_empty : Bytes → Bool
is_empty [] = true
is_empty (c ∷ s) = false

-- Step 4: the structure is extracted if that makes the text valid.
unfoldable pub extract_if_needed : Bytes → Bytes
extract_if_needed text =
    if validate_json_structure text
    then text
    else (let found = extract_json_structure text in
        if not (is_empty found) && validate_json_structure found then found else text)

-- Steps 1 to 6.
unfoldable pub prepare : JsonCleaner → Bytes → Bytes
unfolding extract_if_needed
prepare j response =
    let found =
      extract_if_needed (remove_explanatory_text (remove_markdown_blocks (basic_clean response))) in
    let repaired = if j.fix_common_issues then fix_common_json_issues found else found in
    if j.remove_comments then remove_json_comments repaired else repaired

unfoldable pub clean_response : JsonCleaner → Bytes → Bytes
unfolding prepare
clean_response j response = if is_empty response then [] else final_cleanup (prepare j response)

unfoldable pub clean_all : JsonCleaner → List Bytes → List Bytes
clean_all j [] = []
clean_all j (m ∷ ms) =
    let cleaned = clean_response j m in
    let rest = clean_all j ms in if not (is_empty cleaned) then cleaned ∷ rest else rest

unfoldable pub extract_multiple_json_objects : JsonCleaner → Bytes → List Bytes
unfolding clean_all
extract_multiple_json_objects j text =
    clean_all j (find_objects 0 (remove_markdown_blocks (basic_clean text)))

-- `IssuesFixed` and `CommentsRemoved` are never set.
pub record CleaningStats : Type 0 where
  pub original_length : ℕ
  pub cleaned_length : ℕ
  pub markdown_removed : Bool
  pub json_extracted : Bool

unfoldable pub clean_response_with_stats : JsonCleaner → Bytes → Bytes × CleaningStats
unfolding contains
clean_response_with_stats j response =
    let cleaned = clean_response j response in
    (
      cleaned,
      record {
        original_length = length response;
        cleaned_length = length cleaned;
        markdown_removed = contains response (codes "```");
        json_extracted = ltb 0 (length cleaned) && ltb (length cleaned) (length response);
      },
    )
