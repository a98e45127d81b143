-- ===== src/Cassandra/Tokens.antt =====
-- `replace_tokens_in_cassandra_yaml_and_disable_bootstrap` of medusa/cassandra_utils.py on the
-- lines of the file, with what comes after the last line break.
pub mod Lines
pub mod Replaced
use cassandra_medusa.Base.{
  ℕ, Bool, true, false, not, ◌&&◌, ◌||◌, List, [], ◌∷◌, ◌++◌, ◌≡◌, refl, arith, map, filter, any,
  length, if◌then◌else◌, Bool-cases, inl, inr, ap,
}
use cassandra_medusa.Base.Text.{Text, codes, join, decimal, starts_with}

abbrev pub initial_token_key : Text
initial_token_key = codes "initial_token:"

abbrev pub num_tokens_key : Text
num_tokens_key = codes "num_tokens:"

abbrev pub auto_bootstrap_key : Text
auto_bootstrap_key = codes "auto_bootstrap:"

unfoldable pub initial_token_line : List Text → Text
unfolding join
initial_token_line tokens = initial_token_key ++ codes " " ++ join (codes ",") tokens

unfoldable pub num_tokens_line : List Text → Text
unfolding decimal
num_tokens_line tokens = num_tokens_key ++ codes " " ++ decimal (length tokens)

abbrev pub auto_bootstrap_line : Text
auto_bootstrap_line = auto_bootstrap_key ++ codes " false"

-- What a line sets; the tests come in this order.
pub data Kind : Type 0 where
  initial_token num_tokens auto_bootstrap other : Kind

unfoldable pub kind : Text → Kind
unfolding starts_with
kind line =
    if starts_with line initial_token_key
    then initial_token
    else if starts_with line num_tokens_key
    then num_tokens
    else if starts_with line auto_bootstrap_key
    then auto_bootstrap
    else other

-- What is printed for a line of a kind.
unfoldable pub printed : List Text → Text → Kind → Text
unfolding initial_token_line num_tokens_line
printed tokens line initial_token = initial_token_line tokens
printed tokens line num_tokens = num_tokens_line tokens
printed tokens line auto_bootstrap = auto_bootstrap_line
printed tokens line other = line

abbrev pub is_initial : Kind → Bool
is_initial initial_token = true
is_initial _ = false

abbrev pub is_auto : Kind → Bool
is_auto auto_bootstrap = true
is_auto _ = false

abbrev pub is_other : Kind → Bool
is_other other = true
is_other _ = false

unfoldable pub replaced_line : List Text → Text → Text
unfolding kind printed
replaced_line tokens line = printed tokens line (kind line)

-- A file: its lines that end in a line break, without it, and the rest after the last of these,
-- which is empty where the file ends in a line break.
pub record File : Type 0 where
  pub ended : List Text
  pub rest : Text

abbrev pub all_lines : File → List Text
all_lines file = file.ended ++ (file.rest ∷ [])

-- A line with a key is printed with a line break, another one as it was, so without one at the end
-- of a file that lacks it. Tokens have no line break.
unfoldable pub rewritten : List Text → File → File
unfolding replaced_line kind
rewritten tokens file =
    let ended = map (replaced_line tokens) file.ended in
    if is_other (kind file.rest)
    then record { ended = ended; rest = file.rest }
    else record { ended = ended ++ (replaced_line tokens file.rest ∷ []); rest = [] }

-- `write('\n' + text)` at the end of the file.
unfoldable pub append_line : Text → File → File
append_line text file = record { ended = all_lines file; rest = text }

unfoldable pub append_unless : Bool → Text → File → File
unfolding append_line
append_unless true text file = file
append_unless false text file = append_line text file

unfoldable pub has_kind : (Kind → Bool) → File → Bool
unfolding any kind
has_kind p file = any (λ l. p (kind l)) (all_lines file)

unfoldable pub replace_tokens : List Text → File → File
unfolding rewritten append_unless initial_token_line has_kind
replace_tokens tokens file =
    append_unless (has_kind is_auto file) auto_bootstrap_line
      (append_unless (has_kind is_initial file) (initial_token_line tokens) (rewritten tokens file))
