-- ===== src/VerifyRestore.antt =====
-- medusa/verify_restore.py: the checks after a restore. `wait` is `wait_for_node_to_come_up`, and
-- the rows are the results of the query with each column as a text.
use cassandra_medusa.Base.{ℕ, List, [], ◌∷◌, ◌==◌, length, if◌then◌else◌}
use cassandra_medusa.Base.{Result, ok, err, system_exit, ◌>>=◌}
use cassandra_medusa.Base.Text.{Text, codes, text_eq, join}

-- The options of the section `checks`: the query, the number of rows, and the row that is expected.
pub record Checks : Type 0 where
  pub query : Text
  pub expected_rows : ℕ
  pub expected_result : Text

unfoldable pub wait_all : (Text → Result (Unit {0})) → List Text → Result (Unit {0})
wait_all wait [] = ok tt
wait_all wait (host ∷ hosts) = wait host >>= λ _. wait_all wait hosts

abbrev pub first_row : List (List Text) → List Text
first_row [] = []
first_row (row ∷ rows) = row

-- An expected number 0 and an expected row that is empty are not checked.
unfoldable pub check_rows : Checks → List (List Text) → Result (Unit {0})
check_rows c rows =
    if c.expected_rows == 0
    then ok tt
    else if length rows == c.expected_rows
    then ok tt
    else err (system_exit 1)

abbrev result_matches : Text → List (List Text) → Result (Unit {0})
unfolding join text_eq
result_matches [] rows = ok tt
result_matches (c ∷ expected) rows =
    if text_eq (join (codes ",") (first_row rows)) (c ∷ expected)
    then ok tt
    else err (system_exit 1)

unfoldable pub check_result : Checks → List (List Text) → Result (Unit {0})
unfolding result_matches
check_result c rows = result_matches c.expected_result rows

abbrev run_query : Checks → Text → Result (List (List Text)) → Result (Unit {0})
unfolding check_rows check_result
run_query c [] results = ok tt
run_query c (x ∷ query) results = do rows ← results; _ ← check_rows c rows; check_result c rows

unfoldable pub verify_restore :
    (Text → Result (Unit {0})) → Checks → Result (List (List Text)) → List Text → Result (Unit {0})
unfolding wait_all run_query
verify_restore wait c results hosts = do _ ← wait_all wait hosts; run_query c c.query results

-- `_get_cql_session_provider`: the hosts that the query is sent to.
unfoldable pub cql_hosts : ℕ → List Text → List Text
cql_hosts is_ccm hosts = if is_ccm == 1 then codes "localhost" ∷ [] else hosts
