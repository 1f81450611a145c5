-- ===== src/Cleaner/Samples.antt =====
-- Runs of the cleaner.
use ideas.Base.{◌≡◌, refl, []}
use ideas.Base.Text.{codes}
use ideas.Base.Int.{◌+ℤ◌}
use ideas.Cleaner.Repair.{
  basic_clean, remove_markdown_blocks, remove_explanatory_text, fix_common_json_issues,
  remove_json_comments, final_cleanup,
}
use ideas.Cleaner.Structure.{
  count_step, count_structure, search_step, search_structure, find_objects, validate_json_structure,
  extract_json_structure,
}
use ideas.Cleaner.Clean.{new_json_cleaner, clean_response}
use ideas.Cleaner.Shape.{IsClean, clean_response-IsClean}
use ideas.Base.{◌⊎◌}

fenced :
    clean_response new_json_cleaner (codes "Sure!\n```json\n{'a': True, b: [1,2,],}\n```\nBye")
    ≡ codes "{\"a\": true,\"b\": [1,2]}"
unfolding clean_response basic_clean remove_markdown_blocks remove_explanatory_text
    fix_common_json_issues remove_json_comments final_cleanup validate_json_structure
    extract_json_structure count_step count_structure search_step search_structure find_objects ◌+ℤ◌
fenced = refl

chatty :
    clean_response new_json_cleaner (codes "Response: {\"a\": 1} Hope this helps!")
    ≡ codes "{\"a\": 1}"
unfolding clean_response basic_clean remove_markdown_blocks remove_explanatory_text
    fix_common_json_issues remove_json_comments final_cleanup validate_json_structure
    extract_json_structure count_step count_structure search_step search_structure find_objects ◌+ℤ◌
chatty = refl

url_lost : clean_response new_json_cleaner (codes "{\"url\": \"http://x.org\"}") ≡ []
unfolding clean_response basic_clean remove_markdown_blocks remove_explanatory_text
    fix_common_json_issues remove_json_comments final_cleanup validate_json_structure
    extract_json_structure count_step count_structure search_step search_structure find_objects ◌+ℤ◌
url_lost = refl

-- Escaped quotes inside a string are unescaped, so the string ends too early.
quotes_broken :
    clean_response new_json_cleaner (codes "{\"a\": \"say \\\"hi\\\" now\"}")
    ≡ codes "{\"a\": \"say \"hi\" now\"}"
unfolding clean_response basic_clean remove_markdown_blocks remove_explanatory_text
    fix_common_json_issues remove_json_comments final_cleanup validate_json_structure
    extract_json_structure count_step count_structure search_step search_structure find_objects ◌+ℤ◌
quotes_broken = refl

clean_response-IsClean_example :
    (clean_response new_json_cleaner (codes "Here: {\"a\": 1,}") ≡ [])
    ⊎ IsClean (clean_response new_json_cleaner (codes "Here: {\"a\": 1,}"))
clean_response-IsClean_example = clean_response-IsClean new_json_cleaner (codes "Here: {\"a\": 1,}")
