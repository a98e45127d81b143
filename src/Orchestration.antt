-- ===== src/Orchestration.antt =====
-- medusa/orchestration.py: a command on many hosts, in batches. The SSH client is a parameter:
-- `run` gives the outputs of one call of its `run_command` and `join`.
pub mod Outcome
use cassandra_medusa.Base.{
  ℕ, zero, suc, Bool, true, false, not, List, [], ◌∷◌, ◌++◌, ◌==◌, ltb, length, take, drop, filter,
  if◌then◌else◌,
}
use cassandra_medusa.Base.{Result, ok, err, value_error, orchestration_error, ◌>>=◌}
use cassandra_medusa.Base.Text.{Text}

pub record HostOutput : Type 0 where
  pub host : Text
  pub exit_code : ℕ

-- `divide_chunks` of medusa/storage/__init__.py, on fuel for the number of chunks.
unfoldable pub chunks {ℓ} : {A : Type ℓ} → ℕ → ℕ → List A → List (List A)
chunks zero step xs = []
chunks (suc fuel) step [] = []
chunks (suc fuel) step (x ∷ xs) = take step (x ∷ xs) ∷ chunks fuel step (drop step (x ∷ xs))

unfoldable pub divide_chunks {ℓ} : {A : Type ℓ} → List A → ℕ → Result (List (List A))
unfolding chunks
divide_chunks values zero = err value_error
divide_chunks values (suc k) = ok (chunks (length values) (suc k) values)

abbrev pub succeeded : HostOutput → Bool
succeeded o = o.exit_code == 0

-- Success on all hosts, errors on some, or an exception where neither shows.
unfoldable pub report : List Text → List HostOutput × List HostOutput → Result Bool
report hosts (success, error) =
    if length success == length hosts
    then ok true
    else if ltb 0 (length error)
    then ok false
    else err orchestration_error

-- The arguments of the hosts are given to each call whole, not cut to the batch.
module _ {Args : Type 0} (run : List Text → Args → List HostOutput) where
  -- The loop over the batches: the outputs with exit code 0, and the others.
  unfoldable pub run_batches :
      List (List Text)
      → Args
      → List HostOutput
      → List HostOutput
      → List HostOutput × List HostOutput
  run_batches [] args success error = (success, error)
  run_batches (hosts ∷ batches) args success error =
      let output = run hosts args in
      run_batches batches args (success ++ filter succeeded output)
        (error ++ filter (λ o. not (succeeded o)) output)

  unfoldable pub pssh_run : ℕ → List Text → Args → Result Bool
  unfolding divide_chunks run_batches report
  pssh_run pool_size hosts args = do
    batches ← divide_chunks hosts pool_size
    report hosts (run_batches batches args [] [])
