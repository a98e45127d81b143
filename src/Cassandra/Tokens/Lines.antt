-- ===== src/Cassandra/Tokens/Lines.antt =====
-- What the rewriting of cassandra.yaml does to a line and to lists of lines.
use cassandra_medusa.Base.{
  Bool, true, false, ◌||◌, List, [], ◌∷◌, ◌++◌, ◌≡◌, refl, arith, map, filter, any, false≢true,
  if◌then◌else◌,
}
use cassandra_medusa.Base.Text.{Text, starts_with}
use cassandra_medusa.Cassandra.Tokens.{
  initial_token_line, num_tokens_line, auto_bootstrap_line, Kind, initial_token, num_tokens,
  auto_bootstrap, other, kind, printed, is_other, replaced_line, File, all_lines,
}

-- The lines that are written are of their own kinds, whatever the tokens.
pub kind-initial : (tokens : List Text) → kind (initial_token_line tokens) ≡ initial_token
unfolding kind initial_token_line starts_with
kind-initial tokens = refl

kind-num : (tokens : List Text) → kind (num_tokens_line tokens) ≡ num_tokens
unfolding kind num_tokens_line starts_with
kind-num tokens = refl

pub kind-auto : kind auto_bootstrap_line ≡ auto_bootstrap
unfolding kind starts_with
kind-auto = refl

kind-printed :
    (tokens : List Text) (line : Text) (k : Kind) → kind line ≡ k → kind (printed tokens line k) ≡ k
unfolding printed
kind-printed tokens line initial_token h = kind-initial tokens
kind-printed tokens line num_tokens h = kind-num tokens
kind-printed tokens line auto_bootstrap h = kind-auto
kind-printed tokens line other h = h

kind-replaced_line :
    (tokens : List Text) (line : Text) → kind (replaced_line tokens line) ≡ kind line
unfolding replaced_line
kind-replaced_line tokens line = kind-printed tokens line (kind line) refl

printed-printed :
    (tokens : List Text) (line : Text) (k : Kind)
    → printed tokens (printed tokens line k) k ≡ printed tokens line k
unfolding printed
printed-printed tokens line initial_token = refl
printed-printed tokens line num_tokens = refl
printed-printed tokens line auto_bootstrap = refl
printed-printed tokens line other = refl

pub replaced_line_idem :
    (tokens : List Text) (line : Text)
    → replaced_line tokens (replaced_line tokens line) ≡ replaced_line tokens line
unfolding replaced_line
replaced_line_idem tokens line =
    rw (kind-printed tokens line (kind line) refl) (printed-printed tokens line (kind line))

pub map-replaced :
    (tokens : List Text) (file : List Text)
    → map (replaced_line tokens) (map (replaced_line tokens) file) ≡ map (replaced_line tokens) file
map-replaced tokens [] = refl
map-replaced tokens (l ∷ file) = rw (replaced_line_idem tokens l, map-replaced tokens file)

pub any-replaced :
    (p : Kind → Bool) (tokens : List Text) (file : List Text)
    → any (λ l. p (kind l)) (map (replaced_line tokens) file) ≡ any (λ l. p (kind l)) file
unfolding any
any-replaced p tokens [] = refl
any-replaced p tokens (l ∷ file) = rw (kind-replaced_line tokens l, any-replaced p tokens file)

pub replaced_other :
    (tokens : List Text) (line : Text)
    → is_other (kind line) ≡ true
    → replaced_line tokens line ≡ line
unfolding replaced_line printed
replaced_other tokens line h = by_kind (kind line) h
  where
    by_kind : (k : Kind) → is_other k ≡ true → printed tokens line k ≡ line
    by_kind initial_token h = absurd (ground arith)
    by_kind num_tokens h = absurd (ground arith)
    by_kind auto_bootstrap h = absurd (ground arith)
    by_kind other h = refl

pub any-append :
    (p : Kind → Bool) (xs ys : List Text)
    → any (λ l. p (kind l)) (xs ++ ys) ≡ (any (λ l. p (kind l)) xs || any (λ l. p (kind l)) ys)
unfolding any
any-append p [] ys = refl
any-append p (l ∷ xs) ys = ground (arith, any-append p xs ys)

pub kind_empty : kind [] ≡ other
unfolding kind starts_with
kind_empty = refl

pub replaced_fixed :
    (tokens : List Text) (line : Text) (k : Kind)
    → kind line ≡ k
    → printed tokens line k ≡ line
    → replaced_line tokens line ≡ line
unfolding replaced_line
replaced_fixed tokens line k h e = rw h e

-- The lines that are neither of a key nor empty.
abbrev pub is_kept : Text → Bool
is_kept [] = false
is_kept (c ∷ l) = is_other (kind (c ∷ l))

abbrev pub kept_lines : File → List Text
kept_lines file = filter is_kept (all_lines file)

pub not_kept : (l : Text) → is_other (kind l) ≡ false → is_kept l ≡ false
not_kept [] h = refl
not_kept (c ∷ l) h = h

pub is_kept-replaced :
    (tokens : List Text) (line : Text) → is_kept line ≡ true → replaced_line tokens line ≡ line
is_kept-replaced tokens [] h = absurd (false≢true h)
is_kept-replaced tokens (c ∷ l) h = replaced_other tokens (c ∷ l) h

pub empty_fixed : (tokens : List Text) → replaced_line tokens [] ≡ []
unfolding printed
empty_fixed tokens = replaced_fixed tokens [] other kind_empty refl

pub not_kept-replaced :
    (tokens : List Text) (line : Text)
    → is_kept line ≡ false
    → is_kept (replaced_line tokens line) ≡ false
not_kept-replaced tokens [] h = rw (empty_fixed tokens) refl
not_kept-replaced tokens (c ∷ l) h =
    not_kept (replaced_line tokens (c ∷ l)) (rw (kind-replaced_line tokens (c ∷ l)) h)

-- A file whose last line ends, where it is one of a key.
abbrev pub closed : File → File
closed file =
    if is_other (kind file.rest) then file else record { ended = all_lines file; rest = [] }
