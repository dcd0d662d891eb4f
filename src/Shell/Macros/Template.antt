-- ===== src/Shell/Macros/Template.antt =====
-- A text with variables, and how it is written on the command line.
use armboot.Prelude.{ℕ, ◌≢◌, List, [], ◌∷◌, ◌++◌, Option, none, some, ◌==◌, if◌then◌else◌}
use armboot.CString.{CString}

pub data Piece : Type 0 where
  letter : ℕ → Piece
  variable : CString → Piece

-- Letters stand for themselves, but a '$' is escaped; a variable is written as "$(name)".
abbrev pub written : List Piece → CString
written [] = []
written (letter c ∷ ps) = if c == b'$' then b'\\' ∷ c ∷ written ps else c ∷ written ps
written (variable name ∷ ps) = b'$' ∷ b'(' ∷ (name ++ b')' ∷ written ps)

abbrev pub value_of : Option CString → CString
value_of none = []
value_of (some value) = value

-- The text with the values of its variables; a variable that is not set has the empty value.
abbrev pub expanded : (CString → Option CString) → List Piece → CString
expanded values [] = []
expanded values (letter c ∷ ps) = c ∷ expanded values ps
expanded values (variable name ∷ ps) = value_of (values name) ++ expanded values ps

-- The names that can be written so: with no NUL, '=', ')' or '\\' in them.
abbrev pub IsPlainName : CString → Type 0
IsPlainName [] = Unit {0}
IsPlainName (c ∷ cs) = (c ≢ 0) × (c ≢ b'=') × (c ≢ b')') × (c ≢ b'\\') × IsPlainName cs

abbrev pub ArePieces : List Piece → Type 0
ArePieces [] = Unit {0}
ArePieces (letter c ∷ ps) = (c ≢ b'\\') × ArePieces ps
ArePieces (variable name ∷ ps) = IsPlainName name × ArePieces ps
