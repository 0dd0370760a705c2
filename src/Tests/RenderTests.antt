-- ===== src/Tests/RenderTests.antt =====
-- Runs of the block's half of render.go.
use agentmemory.Prelude.{
  ◌≤◌, ℕ, pos, str_eq, decimal, if◌then◌else◌, List, [], none, length, ◌++◌, false, Bytes, codes,
  ◌≡◌, refl, ◌∷◌,
}
use agentmemory.Neutralise.{neutralise, split_lines, join_lines, close_fences, unclosed}
use agentmemory.Memory.{Entry, Result, ok, err}
use agentmemory.Manifest.{Manifest}
use agentmemory.Render.{
  Part, render_parts, with_max_total, check_bound, check_caps, check_scopes, read_lists,
  render_lists, fixed_cost, total_entries, headings_cost, summary, padded_decimal, pad,
  resolve_options, default_options, apply_render_option, scope_text, contains, join_parts,
}
use agentmemory.Render.Bounds.{EndsWithSummary, render_parts-fits}
use agentmemory.Tests.Setup.{program, style}
use agentmemory.Neutralise.Splitting.{join_lines-split_lines}
use agentmemory.Neutralise.Fences.{close_fences-enough}

-- A heading, an HTML block, a setext underline in a list, and a fence left open.
neutralised :
    neutralise (
      codes "# a"
      ++ (b'\n'
          ∷ (codes "> <b"
              ++ (b'\n' ∷ (codes "t" ++ (b'\n' ∷ (codes "---" ++ (b'\n' ∷ codes " ```go"))))))))
    ≡ codes "#### a"
      ++ (b'\n'
          ∷ (codes "> \\<b"
              ++ (b'\n' ∷ (codes "t" ++ (b'\n' ∷ (codes "\\---" ++ (b'\n' ∷ codes " \\```go")))))))
unfolding neutralise
neutralised = refl

-- Two fences, the second left open.
abbrev fenced : Bytes
fenced =
    codes "```"
    ++ (b'\n' ∷ (codes "~~~" ++ (b'\r' ∷ b'\n' ∷ (codes "```" ++ (b'\n' ∷ codes "~~~ a")))))

fenced_lines_joined : join_lines (split_lines fenced) ≡ fenced
fenced_lines_joined = join_lines-split_lines fenced

close_fences-enough_example :
    unclosed (close_fences (length (split_lines fenced)) (split_lines fenced)) ≡ none
close_fences-enough_example = close_fences-enough (split_lines fenced)

abbrev user_entries : Bytes → Result (List Entry)
user_entries scope = if str_eq scope (codes "user") then ok (style ∷ []) else ok []

abbrev made : Result (List Part × Manifest)
made =
    render_parts (codes "untrusted") user_entries 4096 (codes "user" ∷ codes "team" ∷ [])
      (with_max_total (pos 300) ∷ [])

abbrev block_of : Result (List Part × Manifest) → List Part × Manifest
block_of (ok r) = r
block_of (err e) = ([], record { entries = []; omitted = []; left_out = false })

made_fits : made ≡ ok (block_of made)
unfolding program render_parts check_bound check_caps check_scopes read_lists render_lists
    fixed_cost total_entries headings_cost summary padded_decimal pad decimal resolve_options
    apply_render_option scope_text contains str_eq
made_fits = refl

render_parts-fits_example :
    (max : ℕ) × ((resolve_options default_options (with_max_total (pos 300) ∷ [])).max_total
      ≡ pos max)
    × (length (join_parts (block_of made).0) ≤ max)
    × EndsWithSummary (block_of made).0 (block_of made).1 max 4096
render_parts-fits_example =
    render_parts-fits (codes "untrusted") user_entries 4096 (codes "user" ∷ codes "team" ∷ [])
      (with_max_total (pos 300) ∷ []) made_fits
