-- ===== src/Cassandra/Tokens/Replaced.antt =====
-- What the rewriting of cassandra.yaml leaves.
use cassandra_medusa.Base.{
  Bool, true, false, ◌||◌, List, [], ◌∷◌, ◌++◌, ◌≡◌, ◌∙◌, ap, refl, arith, map, filter, any,
  append-nil, filter-append, Bool-cases, inl, inr, not, ◌&&◌, sym,
}
use mathlib.Core.List.{map-append}
use cassandra_medusa.Base.Text.{Text}
use cassandra_medusa.Cassandra.Tokens.{
  initial_token_line, auto_bootstrap_line, Kind, initial_token, auto_bootstrap, other, kind,
  printed, is_initial, is_auto, is_other, replaced_line, File, all_lines, rewritten, append_line,
  append_unless, has_kind, replace_tokens,
}
use cassandra_medusa.Cassandra.Tokens.Lines.{
  kind-initial, kind-auto, replaced_line_idem, map-replaced, any-replaced, replaced_other,
  any-append, kind_empty, replaced_fixed, is_kept, kept_lines, not_kept, is_kept-replaced,
  empty_fixed, not_kept-replaced, closed,
}

module _ (tokens : List Text) where
  abbrev IsFixed : File → Type 0
  IsFixed file =
      (map (replaced_line tokens) file.ended ≡ file.ended)
      × (replaced_line tokens file.rest ≡ file.rest)

  map-fixed :
      (ended : List Text) (line : Text)
      → map (replaced_line tokens) ended ≡ ended
      → replaced_line tokens line ≡ line
      → map (replaced_line tokens) (ended ++ (line ∷ [])) ≡ ended ++ (line ∷ [])
  map-fixed ended line h k = map-append (replaced_line tokens) ended (line ∷ []) ∙ rw (h, k) refl

  rewritten-IsFixed : (file : File) → IsFixed (rewritten tokens file)
  unfolding rewritten
  rewritten-IsFixed file = elim (Bool-cases (is_other (kind file.rest))) [
    | inl k ↦ rw k (map-replaced tokens file.ended, replaced_other tokens file.rest k)
    | inr k ↦ rw k (
      map-fixed (map (replaced_line tokens) file.ended) (replaced_line tokens file.rest)
          (map-replaced tokens file.ended) (replaced_line_idem tokens file.rest),
      empty_fixed tokens,
    )
  ]

  append_unless-IsFixed :
      (b : Bool) (line : Text) (file : File)
      → replaced_line tokens line ≡ line
      → IsFixed file
      → IsFixed (append_unless b line file)
  unfolding append_unless append_line
  append_unless-IsFixed true line file h f = f
  append_unless-IsFixed false line file h f = (map-fixed file.ended file.rest f.0 f.1, h)

  -- Rewriting a file of which each line is printed already closes its last line.
  rewritten-closed : (file : File) → IsFixed file → rewritten tokens file ≡ closed file
  unfolding rewritten
  rewritten-closed file (h, k) = rw (h, k) refl

  kept-map :
      (lines : List Text) → filter is_kept (map (replaced_line tokens) lines) ≡ filter is_kept lines
  unfolding filter
  kept-map [] = refl
  kept-map (l ∷ lines) = elim (Bool-cases (is_kept l)) [
    | inl e ↦ rw (is_kept-replaced tokens l e, e, kept-map lines) refl
    | inr e ↦ rw (not_kept-replaced tokens l e, e, kept-map lines) refl
  ]

  kept-rewritten : (file : File) → kept_lines (rewritten tokens file) ≡ kept_lines file
  unfolding rewritten filter
  kept-rewritten file = elim (Bool-cases (is_other (kind file.rest))) [
    | inl k ↦ rw k (
        filter-append is_kept (map (replaced_line tokens) file.ended) (file.rest ∷ [])
        ∙ rw (kept-map file.ended) (sym (filter-append is_kept file.ended (file.rest ∷ []))))
    | inr k ↦ rw k (
        filter-append is_kept
          (map (replaced_line tokens) file.ended ++ (replaced_line tokens file.rest ∷ [])) ([] ∷ [])
        ∙ append-nil _
        ∙ ap (filter is_kept) (sym (map-append (replaced_line tokens) file.ended (file.rest ∷ [])))
        ∙ kept-map (all_lines file))
  ]

  kept-append_unless :
      (b : Bool) (line : Text) (file : File)
      → is_kept line ≡ false
      → kept_lines (append_unless b line file) ≡ kept_lines file
  unfolding append_unless append_line filter
  kept-append_unless true line file h = refl
  kept-append_unless false line file h =
      filter-append is_kept (all_lines file) (line ∷ []) ∙ rw (h, append-nil) refl

  any-replaced_or :
      (p : Kind → Bool) (file : File)
      → (any (λ l. p (kind l)) (map (replaced_line tokens) (all_lines file)) || false)
        ≡ any (λ l. p (kind l)) (all_lines file)
  any-replaced_or p file = rw (any-replaced p tokens (all_lines file)) (ground arith)

  has_kind-rewritten :
      (p : Kind → Bool) (file : File)
      → p other ≡ false
      → has_kind p (rewritten tokens file) ≡ has_kind p file
  unfolding rewritten has_kind any
  has_kind-rewritten p file h = elim (Bool-cases (is_other (kind file.rest))) [
    | inl k ↦ rw k (
        any-append p (map (replaced_line tokens) file.ended) (file.rest ∷ [])
        ∙ rw (any-replaced p tokens file.ended) (sym (any-append p file.ended (file.rest ∷ []))))
    | inr k ↦ rw k (
        any-append p
          (map (replaced_line tokens) file.ended ++ (replaced_line tokens file.rest ∷ [])) ([] ∷ [])
        ∙ rw (kind_empty, h, sym (map-append (replaced_line tokens) file.ended (file.rest ∷ [])))
            (any-replaced_or p file))
  ]

  has_kind-append_unless :
      (p : Kind → Bool) (b : Bool) (line : Text) (file : File)
      → has_kind p (append_unless b line file) ≡ (has_kind p file || (not b && p (kind line)))
  unfolding append_unless append_line has_kind any
  has_kind-append_unless p true line file = ground arith
  has_kind-append_unless p false line file =
      any-append p (all_lines file) (line ∷ []) ∙ ground arith

  -- The two lines that may be appended.
  initial_fixed : replaced_line tokens (initial_token_line tokens) ≡ initial_token_line tokens
  unfolding printed
  initial_fixed =
      replaced_fixed tokens (initial_token_line tokens) initial_token (kind-initial tokens) refl

  auto_fixed : replaced_line tokens auto_bootstrap_line ≡ auto_bootstrap_line
  unfolding printed
  auto_fixed = replaced_fixed tokens auto_bootstrap_line auto_bootstrap kind-auto refl

  initial_not_kept : is_kept (initial_token_line tokens) ≡ false
  initial_not_kept = not_kept (initial_token_line tokens) (rw (kind-initial tokens) refl)

  auto_not_kept : is_kept auto_bootstrap_line ≡ false
  auto_not_kept = not_kept auto_bootstrap_line (rw kind-auto refl)

  sets_initial :
      (b : Bool) (file : File)
      → has_kind is_initial (
          append_unless b auto_bootstrap_line (
            append_unless
              (has_kind is_initial file)
              (initial_token_line tokens)
              (rewritten tokens file)))
        ≡ true
  sets_initial b file =
      has_kind-append_unless is_initial b auto_bootstrap_line _
      ∙ rw
          (
            has_kind-append_unless is_initial (has_kind is_initial file) (initial_token_line tokens)
                (rewritten tokens file),
            has_kind-rewritten is_initial file refl,
            kind-initial tokens,
          )
          (ground arith)

  sets_auto :
      (file first : File)
      → has_kind is_auto first ≡ has_kind is_auto file
      → has_kind is_auto (append_unless (has_kind is_auto file) auto_bootstrap_line first) ≡ true
  sets_auto file first h =
      has_kind-append_unless is_auto (has_kind is_auto file) auto_bootstrap_line first
      ∙ rw (h, kind-auto) (ground arith)

  auto-first :
      (a : Bool) (file : File)
      → has_kind is_auto (append_unless a (initial_token_line tokens) (rewritten tokens file))
        ≡ has_kind is_auto file
  auto-first a file =
      has_kind-append_unless is_auto a (initial_token_line tokens) (rewritten tokens file)
      ∙ rw (has_kind-rewritten is_auto file refl, kind-initial tokens) (ground arith)

-- The rewritten file has a line for initial_token and one for auto_bootstrap, and every line of it
-- is what is printed for the line's key. Its other lines that are not empty are those of the old
-- file, in their order. Rewriting it once more for the same tokens changes nothing but to end its
-- last line, where that is one of a key.
pub replace_tokens-sets :
    (tokens : List Text) (file : File)
    → let out = replace_tokens tokens file in
      (has_kind is_initial out ≡ true)
      × (has_kind is_auto out ≡ true)
      × (map (replaced_line tokens) (all_lines out) ≡ all_lines out)
      × (kept_lines out ≡ kept_lines file)
      × (replace_tokens tokens out ≡ closed out)
unfolding replace_tokens
replace_tokens-sets tokens file =
    let a = has_kind is_initial file in
    let b = has_kind is_auto file in
    let line = initial_token_line tokens in
    let first : File = append_unless a line (rewritten tokens file) in
    let out : File = append_unless b auto_bootstrap_line first in
    let fixed : IsFixed tokens out =
      append_unless-IsFixed tokens b auto_bootstrap_line first (auto_fixed tokens) (
        append_unless-IsFixed tokens a line (rewritten tokens file) (initial_fixed tokens)
          (rewritten-IsFixed tokens file)) in
    let init : has_kind is_initial out ≡ true = sets_initial tokens b file in
    let auto : has_kind is_auto out ≡ true =
      sets_auto tokens file first (auto-first tokens a file) in
    (
      init,
      auto,
      map-fixed tokens out.ended out.rest fixed.0 fixed.1,
      kept-append_unless tokens b auto_bootstrap_line first (auto_not_kept tokens)
          ∙ kept-append_unless tokens a line (rewritten tokens file) (initial_not_kept tokens)
          ∙ kept-rewritten tokens file,
      rw (init, auto) (rewritten-closed tokens out fixed),
    )
