-- ===== src/Memory.antt =====
-- Arrays of bytes as the C code sees them: an access outside of the array is a fault.
pub mod Laws
pub mod Move
mod Tests
use armboot.Prelude.{
  ℕ, zero, suc, ◌+◌, List, [], ◌∷◌, Option, none, some, Exec, done, fault, ltb, if◌then◌else◌,
  length, get_elem?, set,
}

abbrev from_option : Option ℕ → Exec ℕ
from_option none = fault
from_option (some c) = done c

-- `p[i]`, read
unfoldable pub load : List ℕ → ℕ → Exec ℕ
load p i = from_option (get_elem? p i)

-- `p[i] = v`
unfoldable pub store : List ℕ → ℕ → ℕ → Exec (List ℕ)
store p i v = if ltb i (length p) then done (set p i v) else fault
