-- ===== src/Shell/Readline/Columns.antt =====
-- The column that `readline` keeps, and the one of the text.
use armboot.Prelude.{
  ℕ, zero, suc, ◌+◌, ◌-◌, ◌≤◌, ◌<◌, ◌≡◌, refl, sym, ap, ◌∙◌, List, [], ◌∷◌, ◌++◌, arith, length,
  length-append, done,
}
use armboot.Memory.{load}
use armboot.Memory.Laws.{Reads}
use armboot.Shell.Readline.{Screen, echo, erase_columns, erase_line, retype}
use armboot.Shell.Readline.Editor.{line_of, next_column, column}

pub echo-col : (c : ℕ) (s : Screen) → (echo c s).col ≡ next_column c s.col
unfolding echo
echo-col c s = ground arith

erase_columns-col : (k : ℕ) (s : Screen) → (erase_columns k s).col ≡ s.col - k
unfolding erase_columns
erase_columns-col zero s = omega arith
erase_columns-col (suc k) s = omega (
  arith,
  erase_columns-col k (record { col = s.col - 1; output = s.output ++ 8 ∷ b' ' ∷ 8 ∷ [] }),
)

pub erase_line-col : (plen : ℕ) (s : Screen) → plen ≤ s.col → (erase_line plen s).col ≡ plen
unfolding erase_line
erase_line-col plen s h = omega (arith, erase_columns-col (s.col - plen) s)

-- The columns behind characters that are typed from a column on.
columns : ℕ → List ℕ → ℕ
columns col [] = col
columns col (c ∷ cs) = columns (next_column c col) cs

columns-append :
    (col : ℕ) (xs : List ℕ) (c : ℕ) → columns col (xs ++ c ∷ []) ≡ next_column c (columns col xs)
unfolding columns
columns-append col [] c = refl
columns-append col (x ∷ xs) c = columns-append (next_column x col) xs c

columns-line_of : (plen : ℕ) (text : List ℕ) → columns plen (line_of text) ≡ column plen text
unfolding columns
columns-line_of plen [] = refl
columns-line_of plen (c ∷ cs) =
    columns-append plen (line_of cs) c ∙ ap (next_column c) (columns-line_of plen cs)

pub column_ge : (plen : ℕ) (text : List ℕ) → plen ≤ column plen text
column_ge plen [] = omega arith
column_ge plen (c ∷ cs) = let h = column_ge plen cs in ground arith

pub column_lt : (plen c : ℕ) (text : List ℕ) → plen < column plen (c ∷ text)
column_lt plen c text = let h = column_ge plen text in ground arith

pub length-line_of : (text : List ℕ) → length (line_of text) ≡ length text
length-line_of [] = refl
length-line_of (c ∷ cs) = omega (arith, length-append (line_of cs) (c ∷ []), length-line_of cs)

retype-columns :
    (xs buffer : List ℕ) (s : ℕ) (screen : Screen)
    → Reads (load buffer) s xs
    → (r : Screen) × (retype (length xs) buffer s screen ≡ done r) × (r.col ≡ columns screen.col xs)
unfolding retype columns
retype-columns [] buffer s screen h = (screen, refl, refl)
retype-columns (x ∷ xs) buffer s screen h =
    let (r, goes, at) = retype-columns xs buffer (s + 1) (echo x screen) h.1 in
    (r, rw h.0 goes, at ∙ ap (λ c. columns c xs) (echo-col x screen))

pub retype-column :
    (text buffer : List ℕ) (screen : Screen)
    → Reads (load buffer) 0 (line_of text)
    → (r : Screen) × (retype (length text) buffer 0 screen ≡ done r)
      × (r.col ≡ column screen.col text)
retype-column text buffer screen h =
    let (r, goes, at) = retype-columns (line_of text) buffer 0 screen h in
    (
      r,
      ap (λ k. retype k buffer 0 screen) (sym (length-line_of text)) ∙ goes,
      at ∙ columns-line_of screen.col text,
    )
