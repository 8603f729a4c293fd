-- ===== src/Pulse/Status.antt =====
-- pulse/status.go
use gorb.Prelude.{Text_eq, ℕ, Bool, true, false, ◌++◌, ◌∷◌, [], Pair_eq}
use gorb.Prelude.Text.{Text, text}

pub data StatusType : Type 0 where
  up down removed : StatusType

-- The number behind a status, from `iota`.
abbrev pub status_code : StatusType → ℕ
status_code up = 0
status_code down = 1
status_code removed = 2

abbrev pub status_eq : StatusType → StatusType → Bool
status_eq up up = true
status_eq down down = true
status_eq removed removed = true
status_eq _ _ = false

-- `StatusType.String`
unfoldable pub status_string : StatusType → Text
status_string up = text "Up"
status_string down = text "Down"
status_string removed = text "Removed"

-- `pulse.ID`: the names of a service and of a backend
abbrev pub PulseId : Type 0
PulseId = Text × Text

-- `ID.String`
unfoldable pub id_string : PulseId → Text
id_string (vs, rs) = b'[' ∷ vs ++ b'/' ∷ rs ++ b']' ∷ []
