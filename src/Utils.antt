-- ===== src/Utils.antt =====
-- medusa/utils.py: truth values of the configuration, the marker of a running backup, and what
-- becomes of an exception.
use cassandra_medusa.Base.{◌+◌, Bool, true, false, ◌&&◌, [], ◌∷◌, leb, map, if◌then◌else◌}
use cassandra_medusa.Base.{Exception, Result, ok, err, type_error, system_exit}
use cassandra_medusa.Base.Text.{Text, codes, mem}

-- `str.lower` on the letters of ASCII
unfoldable pub lower : Text → Text
lower = map (λ c. if leb b'A' c && leb c b'Z' then c + 32 else c)

unfoldable pub evaluate_boolean : Text → Result Bool
unfolding lower mem
evaluate_boolean value =
    if mem (lower value) (codes "0" ∷ codes "false" ∷ codes "no" ∷ codes "off" ∷ [])
    then ok false
    else if mem (lower value) (codes "1" ∷ codes "true" ∷ codes "yes" ∷ codes "on" ∷ [])
    then ok true
    else err type_error

-- `MedusaTempFile`: whether this object has opened the file. The file itself is a Bool of the
-- host, `true` where it is there.
pub record MedusaTempFile : Type 0 where
  pub opened : Bool

abbrev pub new_temp_file : MedusaTempFile
new_temp_file = record { opened = false }

-- `marker_exists`, `create` and `delete` of the class, where the host's calls do not fail.
unfoldable pub marker_exists : MedusaTempFile → Bool → Bool
marker_exists t file = if t.opened then file else false

unfoldable pub create : MedusaTempFile → Bool → MedusaTempFile × Bool
create t file = (record { opened = true }, true)

unfoldable pub delete : MedusaTempFile → Bool → Bool
delete t file = if t.opened then false else file

-- `handle_exception`: for the gRPC server the exception goes on, else the process ends.
unfoldable pub handle_exception : Exception → Text → Exception
unfolding evaluate_boolean
handle_exception e grpc_enabled = elim (evaluate_boolean grpc_enabled) [
  | err e' ↦ e'
  | ok true ↦ e
  | ok false ↦ system_exit 1
]
