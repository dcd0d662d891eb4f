-- ===== src/Shell/Run/Table.antt =====
-- `find_cmd` of common/command.c against the abbreviations of the commands.
use armboot.Prelude.{
  ◌≡◌, ◌⊎◌, inl, inr, refl, List, [], ◌∷◌, Option, none, some, ◌==◌, ==_iff, Bool-cases, arith,
  take,
}
use armboot.CString.{CString, IsCString, strncmp}
use armboot.CString.Laws.{strncmp_iff}
use armboot.Shell.Run.{Command, find_cmd}

-- The word and the name agree in the characters that must be given.
abbrev pub Abbreviates : CString → Command → Type 0
Abbreviates cmd c = take c.lmin cmd ≡ take c.lmin c.name

unfoldable pub AreNames : List Command → Type 0
AreNames [] = Unit {0}
AreNames (c ∷ table) = IsCString c.name × AreNames table

-- The first command that the word abbreviates, if there is one.
pub IsFirst : CString → List Command → Option Command → Type 0
IsFirst cmd [] found = found ≡ none
IsFirst cmd (c ∷ table) found =
    (Abbreviates cmd c × (found ≡ some c)) ⊎ ((¬ Abbreviates cmd c) × IsFirst cmd table found)

-- `find_cmd` returns the first command of the table whose first `lmin` characters are those of the
-- word, and NULL if there is none.
pub find_cmd-IsFirst :
    (cmd : CString) (table : List Command)
    → IsCString cmd
    → AreNames table
    → IsFirst cmd table (find_cmd cmd table)
unfolding find_cmd IsFirst AreNames
find_cmd-IsFirst cmd [] h hs = refl
find_cmd-IsFirst cmd (c ∷ table) h hs =
    let agree = strncmp_iff cmd c.name c.lmin h hs.0 in
    elim (Bool-cases (strncmp cmd c.name c.lmin == 0)) [
      | inl same ↦ rw same (inl (agree.0 ((==_iff (strncmp cmd c.name c.lmin) 0).0 same), refl))
      | inr differs ↦ rw differs (
          inr (λ e. absurd (ground (arith, agree.1 e, differs)), find_cmd-IsFirst cmd table h hs.1))
    ]
