-- ===== src/Shell/Parse.antt =====
-- `parse_line` of common/main.c: the line is cut into words in place. A pointer into the line is its
-- index.
pub mod Words
pub mod Loops
pub mod Cut
use armboot.Prelude.{
  ℕ, zero, suc, ◌+◌, true, false, ◌||◌, List, [], ◌∷◌, Bool, ◌==◌, if◌then◌else◌, length, Exec,
  done, fault, ◌>>=◌,
}
use armboot.Memory.{load, store}

abbrev pub is_blank : ℕ → Bool
is_blank c = c == b' ' || c == b'\t'

-- while ((*line == ' ') || (*line == '\t')) ++line;
unfoldable pub skip_blanks : ℕ → List ℕ → ℕ → Exec ℕ
skip_blanks zero buffer line = fault
skip_blanks (suc fuel) buffer line = do
  c ← load buffer line
  elim (is_blank c) [ true ↦ skip_blanks fuel buffer (line + 1) | false ↦ done line ]

-- while (*line && (*line != ' ') && (*line != '\t')) ++line;
unfoldable pub skip_word : ℕ → List ℕ → ℕ → Exec ℕ
skip_word zero buffer line = fault
skip_word (suc fuel) buffer line = do
  c ← load buffer line
  elim (c == 0 || is_blank c) [ true ↦ done line | false ↦ skip_word fuel buffer (line + 1) ]

-- The line as it is left, argv[0], ..., argv[nargs-1], and whether argv[nargs] has been set to NULL.
pub record Arguments : Type 0 where
  pub buffer : List ℕ
  pub argv : List ℕ
  pub terminated : Bool

abbrev pub add_argument : ℕ → Arguments → Arguments
add_argument line r = record r { argv = line ∷ r.argv }

-- The body of the loop from `argv[nargs++] = line` on; `again` is the next round.
unfoldable pub cut_word : (List ℕ → ℕ → Exec Arguments) → List ℕ → ℕ → Exec Arguments
cut_word again buffer start = do
  end ← skip_word (suc (length buffer)) buffer start
  d ← load buffer end
  elim (d == 0) [
    | true ↦ done (record { buffer = buffer; argv = start ∷ []; terminated = true })
    | false ↦ do b ← store buffer end 0; r ← again b (end + 1); done (add_argument start r)
  ]

-- while (nargs < CFG_MAXARGS) { ... }, by the arguments that argv[] has still room for
unfoldable pub parse_args : ℕ → List ℕ → ℕ → Exec Arguments
parse_args zero buffer line = done (record { buffer = buffer; argv = []; terminated = false })
parse_args (suc k) buffer line = do
  start ← skip_blanks (suc (length buffer)) buffer line
  c ← load buffer start
  elim (c == 0) [
    | true ↦ done (record { buffer = buffer; argv = []; terminated = true })
    | false ↦ cut_word (parse_args k) buffer start
  ]

-- `maxargs` is CFG_MAXARGS.
unfoldable pub parse_line : ℕ → List ℕ → Exec Arguments
parse_line maxargs line = parse_args maxargs line 0
