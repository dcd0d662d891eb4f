-- ===== src/Shell/Readline/Editor.antt =====
-- Line editing as it should be: the text is a list, the character before the cursor first.
use armboot.Prelude.{ℕ, ◌+◌, ◌-◌, ◌%◌, ◌||◌, List, [], ◌∷◌, ◌++◌, ◌==◌, ltb, if◌then◌else◌, length}

-- The text in the order it was typed.
abbrev pub line_of : List ℕ → List ℕ
line_of [] = []
line_of (c ∷ cs) = line_of cs ++ c ∷ []

abbrev pub rub_out : List ℕ → List ℕ
rub_out [] = []
rub_out (_ ∷ cs) = cs

-- The last word goes, with the blank before it.
abbrev pub rub_out_word : List ℕ → List ℕ
rub_out_word [] = []
rub_out_word (c ∷ cs) = let rest = rub_out_word cs in if c == b' ' then cs else rest

-- The column behind a character; a TAB goes to the next multiple of 8.
abbrev pub next_column : ℕ → ℕ → ℕ
next_column c col = if c == b'\t' then col + (8 - col % 8) else col + 1

-- The column of the cursor, behind a prompt of `plen` columns.
abbrev pub column : ℕ → List ℕ → ℕ
column plen [] = plen
column plen (c ∷ cs) = next_column c (column plen cs)

pub data Entered : Type 0 where
  entered : List ℕ → List ℕ → Entered
  interrupted : List ℕ → Entered
  waiting : Entered

-- The text that an edit key leaves; a buffer of `size` bytes holds at most size - 2 characters.
abbrev pub edit_key : ℕ → ℕ → List ℕ → List ℕ
edit_key size c text =
    if c == 0x15
    then []
    else if c == 0x17
    then rub_out_word text
    else if c == 0x08 || c == 0x7f
    then rub_out text
    else if ltb (length text + 2) size
    then c ∷ text
    else text

-- All keys up to Enter or ^C.
unfoldable pub edit : ℕ → List ℕ → List ℕ → Entered
edit size text [] = waiting
edit size text (c ∷ cs) =
    let rest = edit size (edit_key size c text) cs in
    if c == b'\r' || c == b'\n' then entered text cs else if c == 0x03 then interrupted cs else rest
