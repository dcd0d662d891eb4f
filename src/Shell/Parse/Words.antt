-- ===== src/Shell/Parse/Words.antt =====
-- The words of a text, between blanks and TABs.
use armboot.Prelude.{ℕ, List, [], ◌∷◌, if◌then◌else◌}
use armboot.Shell.Parse.{is_blank}

-- The word that a text begins with, if it begins with one, and the words behind it.
pub record Split : Type 0 where
  pub first : List ℕ
  pub others : List (List ℕ)

abbrev pub all_of : Split → List (List ℕ)
all_of s = elim s.first [ [] ↦ s.others | c ∷ cs ↦ s.first ∷ s.others ]

abbrev pub split : List ℕ → Split
split [] = record { first = []; others = [] }
split (c ∷ cs) =
    let s = split cs in
    if is_blank c
    then record { first = []; others = all_of s }
    else record { first = c ∷ s.first; others = s.others }

unfoldable pub words : List ℕ → List (List ℕ)
words text = all_of (split text)
