-- ===== src/Cassandra/Health.antt =====
-- The health checks and waits of medusa/cassandra_utils.py. The decorator `retry` of tenacity is a
-- parameter with its documented behaviour; `is_open` gives whether a port of the host answers, and
-- nodetool's output is none where the call raises.
use cassandra_medusa.Base.{
  ℕ, zero, suc, ◌+◌, ◌*◌, ◌^◌, ◌<◌, Bool, true, false, not, ◌&&◌, Option, none, some, List, [], ◌∷◌,
  ◌≡◌, ◌==◌, if◌then◌else◌,
}
use cassandra_medusa.Base.{Exception, Result, ok, err, runtime_error}
use cassandra_medusa.Base.Text.{Text, codes, text_eq, contains}

-- `retry(stop=stop_after_attempt(n), ...)` on a function that is called again after an exception:
-- the result of the first call that returns, or an exception when the attempts are used up.
pub record Retry : Type 1 where
  pub run : {A : Type 0} → ℕ → (ℕ → Result A) → Result A
  pub run_first :
      {A : Type 0} (n i : ℕ) (f : ℕ → Result A) (a : A)
      → i < n
      → f i ≡ ok a
      → ((j : ℕ) → j < i → (e : Exception) × (f j ≡ err e))
      → run n f ≡ ok a
  pub run_out :
      {A : Type 0} (n : ℕ) (f : ℕ → Result A)
      → ((j : ℕ) → j < n → (e : Exception) × (f j ≡ err e))
      → (e : Exception) × (run n f ≡ err e)

-- 'not running' is no sign of life.
unfoldable pub is_ccm_up : Option Text → Bool
unfolding contains
is_ccm_up none = false
is_ccm_up (some output) =
    not (contains (codes "not running") output) && contains (codes "running") output

-- `output` is what nodetool prints for a command.
unfoldable pub is_ccm_healthy : Text → (Text → Option Text) → Bool
unfolding is_ccm_up text_eq
is_ccm_healthy check_type output =
    if text_eq check_type (codes "thrift")
    then is_ccm_up (output (codes "statusthrift"))
    else if text_eq check_type (codes "all")
    then is_ccm_up (output (codes "statusbinary")) && is_ccm_up (output (codes "statusthrift"))
    else is_ccm_up (output (codes "statusbinary"))

module _ (R : Retry) where
  -- The function returns False where the port is closed: it raises nothing that is retried.
  unfoldable pub is_cassandra_up : (ℕ → ℕ → Bool) → ℕ → Result Bool
  is_cassandra_up is_open port = R.run 5 (λ look. ok (is_open port look))

  abbrev and_result : Result Bool → Result Bool → Result Bool
  and_result (err e) r = err e
  and_result (ok true) r = r
  and_result (ok false) r = ok false

  abbrev or_result : Result Bool → Result Bool → Result Bool
  or_result (err e) r = err e
  or_result (ok true) r = ok true
  or_result (ok false) r = r

  -- An exception counts as not healthy.
  abbrev pub or_false : Result Bool → Bool
  or_false (err e) = false
  or_false (ok b) = b

  unfoldable pub is_cassandra_healthy : Text → Text → (ℕ → ℕ → Bool) → ℕ → ℕ → ℕ → Bool
  unfolding is_cassandra_up text_eq
  is_cassandra_healthy check_type [] is_open native_port storage_port rpc_port = false
  is_cassandra_healthy check_type (c ∷ host) is_open native_port storage_port rpc_port =
      let up : ℕ → Result Bool = is_cassandra_up is_open in
      or_false (
        if text_eq check_type (codes "thrift")
        then up rpc_port
        else if text_eq check_type (codes "all")
        then and_result (and_result (up rpc_port) (up native_port)) (up storage_port)
        else or_result (up native_port) (up storage_port))

  -- `is_node_up`: the health of ccm or of Cassandra, false where its set-up raises.
  unfoldable pub is_node_up : Result ℕ → Bool → Result Bool → Bool
  is_node_up (err e) ccm_healthy cassandra_healthy = false
  is_node_up (ok is_ccm) ccm_healthy cassandra_healthy =
      if is_ccm == 1 then ccm_healthy else or_false cassandra_healthy

  -- `up i` is `is_node_up` at the i-th look. Both waits look seven times at most.
  abbrev pub raise_unless : Bool → Result Bool
  raise_unless true = ok true
  raise_unless false = err runtime_error

  unfoldable pub wait_for_node_to_come_up : (ℕ → Bool) → Result Bool
  wait_for_node_to_come_up up = R.run 7 (λ i. raise_unless (up i))

  unfoldable pub wait_for_node_to_go_down : (ℕ → Bool) → Result Bool
  wait_for_node_to_go_down up = R.run 7 (λ i. raise_unless (not (up i)))

-- `new_session(retry=True)`: the attempts left, the attempts made, and the pauses in seconds.
abbrev pub after_attempt : {A : Type 0} → ℕ → Result A → Result A × List ℕ → Result A × List ℕ
after_attempt attempts (ok session) rest = (ok session, [])
after_attempt attempts (err e) (r, delays) = (r, 5 * 2 ^ (attempts + 1) ∷ delays)

unfoldable pub session_loop : {A : Type 0} → ℕ → (ℕ → Result A) → ℕ → Result A × List ℕ
session_loop zero connect attempts = (err runtime_error, [])
session_loop (suc left) connect attempts =
    after_attempt attempts (connect attempts) (session_loop left connect (attempts + 1))

-- `new_session`; five attempts with `retry`.
unfoldable pub new_session : {A : Type 0} → Bool → (ℕ → Result A) → Result A × List ℕ
unfolding session_loop
new_session retry connect = if retry then session_loop 5 connect 0 else (connect 0, [])
