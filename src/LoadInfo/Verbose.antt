-- ===== src/LoadInfo/Verbose.antt =====
-- userspace/engine/rule_loader.cpp: a result has a verbose text.
use falco.Prelude.{
  ◌^◌, ◌<◌, String, ◌≡◌, refl, ap, false, Option, none, some, List, [], ◌∷◌, ◌++◌, arith, nat_eq,
  string_eq, list_eq, length, All,
}
use falco.ByteString.{Bytes, codes}
use falco.LoadInfo.{Location, Context, RuleLoadException, Warning, LoadResult}
use falco.LoadInfo.Snippet.{
  Snippet, snippet_text, to_size_t, or_out_of_range, snippet_of, content_snippet, file_snippet,
  snippet_at, snippet, is_newline,
}
use falco.LoadInfo.SnippetBounds.{snippet_of-IsShort}
use falco.LoadInfo.Texts.{
  error_line, warning_line, context_text, as_string, followed_by, framed, entry_text, errors_text,
  warnings_text, as_verbose_string,
}

-- Not as long as half of the memory, and without a newline at its start; it may be empty.
abbrev pub IsPrintable : Bytes → Type 0
IsPrintable s = (length s < 2 ^ 63) × (is_newline s 0 ≡ false)

-- What the constructors of a context give, and a printable text of its own.
abbrev pub HasPlace : Context → Type 0
HasPlace ctx = (0 < length ctx.m_locs) × IsPrintable (codes ctx.alt_content)

abbrev pub HasText : Snippet → Type 0
HasText s = (t : Bytes) × (s ≡ snippet_text t)

content_snippet-HasText :
    (content : Bytes) (loc : Location)
    → IsPrintable content
    → HasText (content_snippet content loc 160)
unfolding content_snippet snippet_of
content_snippet-HasText [] loc h = (_, refl)
content_snippet-HasText (c ∷ content) loc (n, e) =
    let (r, rs, _) =
      snippet_of-IsShort (c ∷ content) (to_size_t loc.position.pos) 160 (omega arith) (omega arith)
        n e in
    (r, ap or_out_of_range rs)

file_snippet-HasText :
    (content : Option Bytes) (loc : Location)
    → ((c : Bytes) → content ≡ some c → IsPrintable c)
    → HasText (file_snippet content loc 160)
unfolding file_snippet
file_snippet-HasText none loc h = (_, refl)
file_snippet-HasText (some c) loc h = content_snippet-HasText c loc (h c refl)

followed_by-HasText : (a b : Snippet) → HasText a → HasText b → HasText (followed_by a b)
unfolding followed_by
followed_by-HasText a b (s, e) (t, f) = rw (e, f) (s ++ t, refl)

module _ (rules_contents : String → Option Bytes)
    (printable : (name : String) (c : Bytes) → rules_contents name ≡ some c → IsPrintable c) where
  snippet_at-HasText :
      (locs : List Location) (alt_content : Bytes)
      → 0 < length locs
      → IsPrintable alt_content
      → HasText (snippet_at locs alt_content rules_contents 160)
  unfolding snippet_at
  snippet_at-HasText [] alt_content n h = absurd (omega (arith, n))
  snippet_at-HasText (first ∷ locs) [] n h = file_snippet-HasText _ _ (printable _)
  snippet_at-HasText (first ∷ locs) (c ∷ alt_content) n h =
      content_snippet-HasText (c ∷ alt_content) _ h

  context_text-some :
      (locs : List Location) → 0 < length locs → (t : String) × (context_text locs ≡ some t)
  unfolding context_text
  context_text-some [] n = absurd (omega (arith, n))
  context_text-some (loc ∷ locs) n = (_, refl)

  entry_text-HasText :
      (ctx : Context) (line msg : String)
      → HasPlace ctx
      → HasText (entry_text rules_contents ctx line msg)
  unfolding entry_text as_string snippet framed
  entry_text-HasText ctx line msg (n, h) =
      let (head, e) = context_text-some ctx.m_locs n in
      let (t, f) = snippet_at-HasText ctx.m_locs (codes ctx.alt_content) n h in
      rw (e, entry_text, f) (_, refl)

  errors_text-HasText :
      (errs : List RuleLoadException)
      → All (λ err. HasPlace err.ctx) errs
      → HasText (errors_text rules_contents errs)
  unfolding errors_text
  errors_text-HasText [] h = (_, refl)
  errors_text-HasText (err ∷ errs) (p, h) =
      followed_by-HasText _ _ (entry_text-HasText err.ctx (error_line err) err.msg p)
        (errors_text-HasText errs h)

  warnings_text-HasText :
      (warns : List Warning)
      → All (λ warn. HasPlace warn.ctx) warns
      → HasText (warnings_text rules_contents warns)
  unfolding warnings_text
  warnings_text-HasText [] h = (_, refl)
  warnings_text-HasText (warn ∷ warns) (p, h) =
      followed_by-HasText _ _ (entry_text-HasText warn.ctx (warning_line warn) warn.msg p)
        (warnings_text-HasText warns h)

  -- A result of which every error and warning has a place has a verbose text, where no text that a
  -- snippet may be taken from starts with a newline or is as long as 2 ^ 63 bytes.
  pub as_verbose_string-HasText :
      (res : LoadResult)
      → All (λ err. HasPlace err.ctx) res.errors
      → All (λ warn. HasPlace warn.ctx) res.warnings
      → HasText (as_verbose_string rules_contents res)
  unfolding as_verbose_string
  as_verbose_string-HasText res h k =
      followed_by-HasText _ _ (_, refl)
        (followed_by-HasText _ _ (errors_text-HasText res.errors h)
          (followed_by-HasText _ _ (_, refl) (warnings_text-HasText res.warnings k)))
