-- ===== src/GrpcServer/Overall.antt =====
-- The overall status of GetBackups in medusa/service/grpc/server.py.
use cassandra_medusa.Base.{ℕ, List, [], ◌∷◌, ◌≡◌, refl, arith, all, any, leb, if◌then◌else◌}
use cassandra_medusa.GrpcServer.{StatusType, in_progress, success, failed, unknown}
use cassandra_medusa.GrpcServer.Summary.{set_overall_status}

-- How bad a status is.
abbrev pub severity : StatusType → ℕ
severity success = 0
severity in_progress = 1
severity failed = 2
severity unknown = 3

-- The worst of a status and a list, in one pass.
abbrev pub worst : StatusType → List StatusType → StatusType
worst s [] = s
worst s (x ∷ xs) = if leb (severity x) (severity s) then worst s xs else worst x xs

-- For the summaries of one backup or more, the overall status is the worst of theirs, with SUCCESS
-- before IN_PROGRESS, FAILED and UNKNOWN.
pub set_overall_status-worst :
    (s : StatusType) (xs : List StatusType) → set_overall_status (s ∷ xs) ≡ worst s xs
unfolding set_overall_status all any
set_overall_status-worst in_progress [] = refl
set_overall_status-worst success [] = refl
set_overall_status-worst failed [] = refl
set_overall_status-worst unknown [] = refl
set_overall_status-worst in_progress (x ∷ xs) =
    ground (arith, set_overall_status-worst in_progress xs, set_overall_status-worst x xs)
set_overall_status-worst success (x ∷ xs) =
    ground (arith, set_overall_status-worst success xs, set_overall_status-worst x xs)
set_overall_status-worst failed (x ∷ xs) =
    ground (arith, set_overall_status-worst failed xs, set_overall_status-worst x xs)
set_overall_status-worst unknown (x ∷ xs) =
    ground (arith, set_overall_status-worst unknown xs, set_overall_status-worst x xs)
