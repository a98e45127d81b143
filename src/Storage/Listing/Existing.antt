-- ===== src/Storage/Listing/Existing.antt =====
-- The last steps of `list_node_backups`: the order of the backups that it gives.
use cassandra_medusa.Base.{
  Bool, true, Option, List, [], ◌∷◌, ◌++◌, ◌≡◌, inl, inr, refl, sym, ap, subst, filter, arith, leb,
  In, In-filter, In-append_right, All, In-All, is_some, Bool-cases,
}
use cassandra_medusa.Base.{Result, ok, err}
use cassandra_medusa.Base.Sort.{IsSorted, sorted_by_key-IsSorted, In-sorted}
use cassandra_medusa.Base.Text.{Text}
use cassandra_medusa.Index.{clean_backup_from_index}
use cassandra_medusa.Storage.Driver.{Blob, Driver}
use cassandra_medusa.Storage.NodeBackup.{NodeBackup, started, backup_exists}
use cassandra_medusa.Storage.Listing.{
  start_or_zero, sort_and_pick, sorted_by_start, existing, list_node_backups, prefix_path_of,
}

module _ (D : Driver) (prefix : Text) where
  -- `existing` drops backups from the front only.
  existing_suffix :
      (nbs : List NodeBackup) (s : D.State)
      → (dropped : List NodeBackup) × (nbs ≡ dropped ++ (existing D prefix nbs s).0)
  unfolding existing
  existing_suffix [] s = ([], refl)
  existing_suffix (nb ∷ nbs) s = elim (Bool-cases (backup_exists D nb s)) [
    | inl e ↦ rw e ([], refl)
    | inr e ↦ rw e (
        let (dropped, h) =
          existing_suffix nbs (clean_backup_from_index D (prefix_path_of prefix) nb s) in
        (nb ∷ dropped, ap (◌∷◌ nb) h))
  ]

  abbrev pub started_before : D.State → NodeBackup → NodeBackup → Bool
  started_before s a b = leb (start_or_zero D prefix s a) (start_or_zero D prefix s b)

  sort_and_pick-ok :
      (r : Result (List NodeBackup)) (s s' : D.State) (out : List NodeBackup)
      → sort_and_pick D prefix r s ≡ (ok out, s')
      → (nbs : List NodeBackup) × (out ≡ (existing D prefix (sorted_by_start D prefix nbs s) s).0)
  unfolding sort_and_pick
  sort_and_pick-ok (err e) s s' out h = absurd (ground arith)
  sort_and_pick-ok (ok nbs) s s' out h = (nbs, ground arith)

  IsSorted-suffix :
      (s : D.State) (xs ys : List NodeBackup)
      → IsSorted (started_before s) (xs ++ ys)
      → IsSorted (started_before s) ys
  IsSorted-suffix s [] ys h = h
  IsSorted-suffix s (x ∷ xs) ys h = IsSorted-suffix s xs ys h.1

  In-sorted_by_start :
      (nbs : List NodeBackup) (s : D.State) (nb : NodeBackup)
      → In nb (sorted_by_start D prefix nbs s)
      → is_some (started D nb s) ≡ true
  unfolding sorted_by_start
  In-sorted_by_start nbs s nb m =
      ((In-filter (λ nb. is_some (started D nb s)) nb nbs).0
        ((In-sorted (started_before s) nb (filter (λ nb. is_some (started D nb s)) nbs)).0 m)).1

  -- Where `list_node_backups` ends without an exception, on any index and for any node, its
  -- backups come oldest first, and each has a start time.
  pub list_node_backups-IsSorted :
      (fqdn : Option Text) (index : Option (List Blob)) (s s' : D.State) (out : List NodeBackup)
      → list_node_backups D prefix fqdn index s ≡ (ok out, s')
      → IsSorted (started_before s) out × All (λ nb. is_some (started D nb s) ≡ true) out
  unfolding list_node_backups sorted_by_start
  list_node_backups-IsSorted fqdn index s s' out h =
      let (nbs, e) = sort_and_pick-ok _ s s' out h in
      let (dropped, e') = existing_suffix (sorted_by_start D prefix nbs s) s in
      let whole : sorted_by_start D prefix nbs s ≡ dropped ++ out = rw e e' in
      (
        IsSorted-suffix s dropped out (
            subst (IsSorted (started_before s)) whole
              (sorted_by_key-IsSorted (start_or_zero D prefix s) _)),
        In-All _ out (λ nb m.
            In-sorted_by_start nbs s nb
              (subst (In nb) (sym whole) (In-append_right nb dropped out m))),
      )
