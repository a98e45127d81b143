-- ===== src/TokenMap.antt =====
-- The token map of a ring: what `CqlSession.tokenmap` of medusa/cassandra_utils.py returns and
-- tokenmap.json holds.
use cassandra_medusa.Base.{Bool, List, Option}
use cassandra_medusa.Base.Int.{ℤ}
use cassandra_medusa.Base.Text.{Text}
use cassandra_medusa.Base.Dict.{Dict}

-- `rack` and `dc` may be missing from the token map of an old backup.
pub record RingItem : Type 0 where
  pub tokens : List ℤ
  pub is_up : Bool
  pub rack : Option Text
  pub dc : Option Text

abbrev pub TokenMap : Type 0
TokenMap = Dict RingItem
