-- ===== src/Cassandra/Services.antt =====
-- The services of medusa/service/snapshot that take and clear snapshots.
use cassandra_medusa.Base.{true, false, List, ◌≡◌, if◌then◌else◌}
use cassandra_medusa.Base.{Result, ok, err, io_error, ◌>>=◌}
use cassandra_medusa.Base.Text.{Text, text_eq, mem}
use cassandra_medusa.Utils.{evaluate_boolean}

-- What a command or a request comes to: done, refused with a status of failure, or not even sent.
pub data Answer : Type 0 where
  done refused unreachable : Answer

-- Cassandra on the node: the names of its snapshots in a state, and its two commands with their
-- documented behaviour. A command touches no other snapshot, and where it is done, the snapshot is
-- there or gone; where it is not, it may be either.
pub record Node : Type 1 where
  pub State : Type 0
  pub tags : State → List Text
  pub take : Text → State → Answer × State
  pub clear : Text → State → Answer × State
  pub take-others :
      (tag x : Text) (s : State)
      → text_eq tag x ≡ false
      → mem x (tags (take tag s).1) ≡ mem x (tags s)
  pub take-done :
      (tag : Text) (s : State) → (take tag s).0 ≡ done → mem tag (tags (take tag s).1) ≡ true
  pub clear-others :
      (tag x : Text) (s : State)
      → text_eq tag x ≡ false
      → mem x (tags (clear tag s).1) ≡ mem x (tags s)
  pub clear-done :
      (tag : Text) (s : State) → (clear tag s).0 ≡ done → mem tag (tags (clear tag s).1) ≡ false

pub data Service : Type 0 where
  ccm nodetool jolokia management_api : Service

-- What the call of a service gives: ccm looks at no status, nodetool logs a status of failure and
-- goes on, and the two that send requests raise.
unfoldable pub answered : Service → Answer → Result (Unit {0})
answered ccm a = ok tt
answered nodetool done = ok tt
answered nodetool refused = ok tt
answered nodetool unreachable = err io_error
answered jolokia done = ok tt
answered jolokia refused = err io_error
answered jolokia unreachable = err io_error
answered management_api done = ok tt
answered management_api refused = err io_error
answered management_api unreachable = err io_error

-- `_create_snapshot_service`, on the options of the configuration.
unfoldable pub create_snapshot_service : Text → Text → Text → Result Service
unfolding evaluate_boolean
create_snapshot_service kubernetes_enabled use_mgmt_api is_ccm =
    evaluate_boolean kubernetes_enabled >>= λ kubernetes.
    if kubernetes
    then (evaluate_boolean use_mgmt_api >>= λ b. ok (if b then management_api else jolokia))
    else (evaluate_boolean is_ccm >>= λ b. ok (if b then ccm else nodetool))

module _ (N : Node) (service : Service) where
  -- `create_snapshot` and `delete_snapshot` of the service.
  unfoldable pub service_create : Text → N.State → Result (Unit {0}) × N.State
  unfolding answered
  service_create tag s = let (a, s') = N.take tag s in (answered service a, s')

  unfoldable pub service_delete : Text → N.State → Result (Unit {0}) × N.State
  unfolding answered
  service_delete tag s = let (a, s') = N.clear tag s in (answered service a, s')
