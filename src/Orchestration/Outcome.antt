-- ===== src/Orchestration/Outcome.antt =====
-- The verdict of `pssh_run` against the exit codes of all hosts.
use cassandra_medusa.Base.{
  ℕ, zero, suc, ◌≤◌, Bool, not, List, [], ◌∷◌, ◌++◌, ◌≡◌, refl, ap, ap₂, All, all, ◌==◌, length,
  length-append, length-drop, length-take, drop, take-append-drop, concat, filter,
  length-filter-not, length-filter-le, arith, Bool-cases, append-nil, append_assoc, filter-append,
}
use cassandra_medusa.Base.{ok}
use cassandra_medusa.Base.Text.{Text}
use cassandra_medusa.Orchestration.{
  HostOutput, chunks, divide_chunks, succeeded, run_batches, report, pssh_run,
}

concat-chunks :
    {A : Type 0} (fuel k : ℕ) (xs : List A)
    → length xs ≤ fuel
    → concat (chunks fuel (suc k) xs) ≡ xs
unfolding chunks
concat-chunks zero k [] h = refl
concat-chunks zero k (x ∷ xs) h = absurd (omega arith)
concat-chunks (suc fuel) k [] h = refl
concat-chunks (suc fuel) k (x ∷ xs) h =
    rw (concat-chunks fuel k (drop k xs) (omega (arith, length-drop k xs)))
      (ap (◌∷◌ x) (take-append-drop k xs))

chunks-short :
    {A : Type 0} (fuel k : ℕ) (xs : List A) → All (λ c. length c ≤ suc k) (chunks fuel (suc k) xs)
unfolding chunks
chunks-short zero k xs = tt
chunks-short (suc fuel) k [] = tt
chunks-short (suc fuel) k (x ∷ xs) =
    (omega (arith, length-take k xs), chunks-short fuel k (drop k xs))

-- The chunks are the list, cut: with a positive step they hold every element once, in order,
-- and none is longer than the step.
pub divide_chunks_exact :
    {A : Type 0} (values : List A) (k : ℕ)
    → (cs : List (List A)) × (divide_chunks values (suc k) ≡ ok cs)
      × (concat cs ≡ values)
      × All (λ c. length c ≤ suc k) cs
unfolding divide_chunks
divide_chunks_exact values k = (
  chunks (length values) (suc k) values,
  refl,
  concat-chunks (length values) k values (omega arith),
  chunks-short (length values) k values,
)

module _ {Args : Type 0} (run : List Text → Args → List HostOutput) where
  abbrev pub all_outputs : List (List Text) → Args → List HostOutput
  all_outputs [] args = []
  all_outputs (hosts ∷ batches) args = run hosts args ++ all_outputs batches args

  run_batches_lem :
      (batches : List (List Text)) (args : Args) (success error : List HostOutput)
      → run_batches run batches args success error ≡ (
        success ++ filter succeeded (all_outputs batches args),
        error ++ filter (λ o. not (succeeded o)) (all_outputs batches args),
      )
  unfolding run_batches filter
  run_batches_lem [] args success error = rw (append-nil success, append-nil error)
  run_batches_lem (hosts ∷ batches) args success error =
      let out = run hosts args in
      rw
        (
          run_batches_lem batches args (success ++ filter succeeded out)
              (error ++ filter (λ o. not (succeeded o)) out),
          filter-append succeeded out (all_outputs batches args),
          filter-append (λ o. not (succeeded o)) out (all_outputs batches args),
        )
        (ap₂ (λ a b. (a, b)) (append_assoc success _ _) (append_assoc error _ _))

  length-all_outputs :
      (args : Args)
      → ((hosts : List Text) → length (run hosts args) ≡ length hosts)
      → (batches : List (List Text)) → length (all_outputs batches args) ≡ length (concat batches)
  length-all_outputs args h [] = refl
  length-all_outputs args h (b ∷ batches) = omega (
    arith,
    length-append (run b args) (all_outputs batches args),
    length-append b (concat batches),
    h b,
    length-all_outputs args h batches,
  )

length-filter-all :
    {A : Type 0} (p : A → Bool) (xs : List A) → (length (filter p xs) == length xs) ≡ all p xs
unfolding filter all
length-filter-all p [] = refl
length-filter-all p (x ∷ xs) = ground (arith, length-filter-all p xs, length-filter-le p xs)

verdict :
    (hosts : List Text) (outs : List HostOutput)
    → length outs ≡ length hosts
    → report hosts (filter succeeded outs, filter (λ o. not (succeeded o)) outs)
      ≡ ok (all succeeded outs)
unfolding report
verdict hosts outs h = ground (
  arith,
  length-filter-all succeeded outs,
  length-filter-not succeeded outs,
  Bool-cases (all succeeded outs),
)

module _ {Args : Type 0} (run : List Text → Args → List HostOutput) where
  -- With a positive pool size, and a client that gives one output for each host of a batch,
  -- `pssh_run` ends without an exception, on any list of hosts. It runs the command on all hosts,
  -- in order, in batches no longer than the pool size, and answers True exactly if every output
  -- has exit code 0.
  pub pssh_run_verdict :
      (k : ℕ) (hosts : List Text) (args : Args)
      → ((batch : List Text) → length (run batch args) ≡ length batch)
      → (batches : List (List Text)) × (concat batches ≡ hosts)
        × All (λ b. length b ≤ suc k) batches
        × (pssh_run run (suc k) hosts args ≡ ok (all succeeded (all_outputs run batches args)))
  unfolding pssh_run divide_chunks report run_batches
  pssh_run_verdict k hosts args h =
      let cs = chunks (length hosts) (suc k) hosts in
      let whole = concat-chunks (length hosts) k hosts (omega arith) in
      (
        cs,
        whole,
        chunks-short (length hosts) k hosts,
        rw (run_batches_lem run cs args [] []) (
            verdict hosts (all_outputs run cs args)
              (ground (arith, length-all_outputs run args h cs, whole))),
      )
