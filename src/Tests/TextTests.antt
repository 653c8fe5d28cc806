-- ===== src/Tests/TextTests.antt =====
-- Runs of the snippets and the texts of userspace/engine/rule_loader.cpp.
use falco.Prelude.{
  ◌≤◌, ◌*◌, ◌/◌, ◌+◌, String, ◌≡◌, refl, Option, none, some, arith, length, ℕ_discrete, nat_eq,
  string_eq, list_eq, subst,
}
use mathlib.Core.Option.{some_inj}
use falco.ByteString.{Bytes, codes}
use falco.LoadInfo.{LoadResult, new_context, new_result, add_error, load_err_yaml_parse}
use falco.LoadInfo.Snippet.{
  is_newline, move_to_text, walk_back, walk_forward, put_dots, dots_before, dots_after, add_marker,
  mark_line, snippet_of,
}
use falco.LoadInfo.SnippetBounds.{snippet_of-IsShort}
use falco.LoadInfo.Texts.{join_blanks, as_summary_string, as_verbose_string}
use falco.LoadInfo.Verbose.{IsPrintable, HasText, as_verbose_string-HasText}

-- The second line, with the marker below its second character.
marks_line : snippet_of (codes "a\nbcd\ne") 3 160 ≡ some (codes "bcd\n ^\n")
unfolding snippet_of mark_line add_marker dots_before dots_after put_dots walk_back walk_forward
    move_to_text is_newline ℕ_discrete
marks_line = refl

-- A file that starts with a newline: the snippet of its first place is all that follows, however long.
starts_with_newline : snippet_of (codes "\nab\ncd\nefgh") 0 6 ≡ some (codes "...cd\ne...\n")
unfolding snippet_of mark_line add_marker dots_before dots_after put_dots walk_back walk_forward
    move_to_text is_newline ℕ_discrete
starts_with_newline = refl

-- A width of 2: three characters are replaced at the end of a line that has two.
too_narrow : snippet_of (codes "ab") 0 2 ≡ none
unfolding snippet_of mark_line add_marker dots_before dots_after put_dots walk_back walk_forward
    move_to_text is_newline ℕ_discrete
too_narrow = refl

snippet_of-IsShort_example :
    (r : Bytes) × (snippet_of (codes "a\nbcd\ne") 3 160 ≡ some r) × (length r ≤ 3 * (160 / 2) + 4)
unfolding is_newline ℕ_discrete
snippet_of-IsShort_example =
    snippet_of-IsShort (codes "a\nbcd\ne") 3 160 (omega arith) (omega arith) (omega arith) refl

abbrev invalid : LoadResult
invalid = add_error load_err_yaml_parse "bad" (new_context "r.yaml") (new_result "r.yaml")

abbrev contents : String → Option Bytes
contents name = some (codes "- rule")

summary_of_invalid :
    as_summary_string invalid ""
    ≡ "r.yaml: Invalid\n 1 errors: [LOAD_ERR_YAML_PARSE (YAML parse error)]"
unfolding as_summary_string join_blanks add_error
summary_of_invalid = refl

as_verbose_string-HasText_example : HasText (as_verbose_string contents invalid)
unfolding add_error is_newline ℕ_discrete
as_verbose_string-HasText_example =
    as_verbose_string-HasText contents
      (λ name c h. subst (λ t. IsPrintable t) (some_inj.0 h) (omega arith, refl)) invalid
      ((omega arith, (omega arith, refl)), tt) tt
