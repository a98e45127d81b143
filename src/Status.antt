-- ===== src/Status.antt =====
-- medusa/status.py: the lines that tell the state of one backup. `show` is the format of a time and
-- `show_size` the one of a number of bytes.
use cassandra_medusa.Base.{ℕ, Option, none, some, List, [], ◌∷◌, ◌++◌, map, length, if◌then◌else◌}
use cassandra_medusa.Base.{Result, ok, err, key_error, type_error, system_exit, ◌>>=◌}
use cassandra_medusa.Base.Text.{Text, codes, decimal}
use cassandra_medusa.ClusterBackup
use cassandra_medusa.ClusterBackup.{
  ClusterBackup, is_complete, finished, complete_nodes, incomplete_nodes, missing_nodes,
  num_objects, size,
}

-- `get_cluster_backup`: a missing backup ends the process.
unfoldable pub or_exit : Result ClusterBackup → Result ClusterBackup
or_exit (ok cb) = ok cb
or_exit (err key_error) = err (system_exit 1)
or_exit (err e) = err e

-- The title and the names below it, where there are any.
abbrev pub listed : Text → List Text → List Text
listed title [] = []
listed title (n ∷ names) = title ∷ map (λ t. codes "    " ++ t) (n ∷ names)

module _ (show show_size : ℕ → Text) where
  abbrev show_start : Option ℕ → Result Text
  show_start none = err type_error
  show_start (some t) = ok (show t)

  abbrev pub times_line : Text → Option ℕ → Text
  times_line start none = codes "- Started: " ++ start ++ codes ", Finished: never"
  times_line start (some t) = codes "- Started: " ++ start ++ codes ", Finished: " ++ show t

  unfoldable pub status_lines : ClusterBackup → Result (List Text)
  unfolding is_complete ClusterBackup.started finished complete_nodes incomplete_nodes missing_nodes
      num_objects size
  status_lines cb = do
    complete ← is_complete cb
    start ← ClusterBackup.started cb
    start_text ← show_start start
    end ← finished cb
    missing ← missing_nodes cb
    objects ← num_objects cb
    bytes ← size cb
    ok (
        ((if complete then cb.name else cb.name ++ codes " [Incomplete!]")
          ∷ times_line start_text end
          ∷ (codes "- "
              ++ decimal (length (complete_nodes cb))
              ++ codes " nodes completed, "
              ++ decimal (length (incomplete_nodes cb))
              ++ codes " nodes incomplete, "
              ++ decimal (length missing)
              ++ codes " nodes missing")
          ∷ [])
        ++ listed (codes "- Incomplete nodes:") (map (λ nb. nb.fqdn) (incomplete_nodes cb))
        ++ listed (codes "- Missing nodes:") missing
        ++ ((codes "- " ++ decimal objects ++ codes " files, " ++ show_size bytes) ∷ []))

  -- The text output of `status`; of an output that raises, the lines before are not told.
  unfoldable pub status : Result ClusterBackup → Result (List Text)
  unfolding or_exit status_lines
  status found = or_exit found >>= status_lines
