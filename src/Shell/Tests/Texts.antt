-- ===== src/Shell/Tests/Texts.antt =====
-- A line that is edited, cut into words and expanded, and the theorems at it.
use Prim.Native.Char.{code}
use Prim.Native.String.{String}
use armboot.Prelude.{
  ℕ, ◌≤◌, ◌≡◌, ◌⊎◌, refl, true, false, List, [], ◌∷◌, ◌++◌, Option, none, some, arith, length, take,
  ltb, done,
}
use armboot.Memory.{load}
use armboot.CString.{CString}
use armboot.Env.{Board, Config, env_char, getenv_value}
use armboot.Env.Image.{Entry, encode, lookup, same}
use armboot.Env.Lookup.{Visible}
use armboot.Shell.Readline.{readline}
use armboot.Shell.Readline.Editor.{edit, entered}
use armboot.Shell.Readline.Keys.{Agrees, readline-edit}
use armboot.Shell.Parse.{Arguments, parse_line}
use armboot.Shell.Parse.Words.{words}
use armboot.Shell.Parse.Cut.{parse_line-words}
use armboot.Shell.Parse.Cut.Word.{Holds}
use armboot.Shell.Macros.{process_macros}
use armboot.Shell.Macros.Template.{Piece, letter, variable}
use armboot.Shell.Macros.Expand.{process_macros-environment}
use armboot.Shell.Macros.Room.{process_macros-le-size}

abbrev pub codes : String → List ℕ
codes String.[] = []
codes (String.◌∷◌ c s) = code c ∷ codes s

-- "a ", a TAB that is rubbed out, "cd", the word erased, "x", Enter
abbrev keys : List ℕ
keys = b'a' ∷ b' ' ∷ 9 ∷ 8 ∷ b'c' ∷ b'd' ∷ 0x17 ∷ b'x' ∷ b'\r' ∷ b'z' ∷ []

abbrev pub blank_buffer : List ℕ
blank_buffer = 7 ∷ 7 ∷ 7 ∷ 7 ∷ 7 ∷ 7 ∷ 7 ∷ 7 ∷ []

readline-edit_example : Agrees (edit 8 [] keys) (readline 8 (codes "> ") blank_buffer [] keys)
readline-edit_example = readline-edit 8 (codes "> ") blank_buffer [] keys refl (omega arith)

edited : edit 8 [] keys ≡ entered (b'x' ∷ b'a' ∷ []) (b'z' ∷ [])
unfolding edit
edited = refl

abbrev pub command : List ℕ
command = codes " md  1000"

parse_line-words_example :
    (r : Arguments) × (parse_line 16 (command ++ 0 ∷ 7 ∷ []) ≡ done r)
    × Holds r.buffer r.argv (take 16 (words command))
    × ((r.terminated ≡ true) ⊎ (16 ≤ length (words command)))
parse_line-words_example = parse_line-words 16 command (7 ∷ []) (omega arith)

the_words : words command ≡ codes "md" ∷ codes "1000" ∷ []
unfolding words
the_words = refl

abbrev entries : List Entry
entries = record { name = codes "ip"; value = codes "10.0" } ∷ []

abbrev bd : Board
bd = record {
  baudrate = 9600;
  ip_addr = 0;
  enetaddr = [];
  env = some (record { crc = 0; image = encode entries (0 ∷ 0 ∷ []) });
  load_addr = 0;
  boot_file = [];
  console = [];
}

abbrev cfg : Config
cfg = record {
  default_environment = 0 ∷ 0 ∷ [];
  stored = none;
  baudrate_table = [];
  env_overwrite = false;
  ethaddr_once = none;
}

-- "a=$(ip)\$"
abbrev template : List Piece
template = letter b'a' ∷ letter b'=' ∷ variable (codes "ip") ∷ letter b'$' ∷ []

visible : Visible cfg bd entries
unfolding env_char load
visible = record { slack = 0 ∷ []; reads = ground arith; fits = omega arith; entries = omega arith }

process_macros-environment_example :
    process_macros 64 (getenv_value cfg bd) (codes "a=$(ip)\\$") ≡ done (codes "a=10.0$", true)
unfolding lookup same
process_macros-environment_example =
    process_macros-environment 64 cfg bd template visible (omega arith) (omega arith) (omega arith)

nothing_set : (name : CString) → (v : Option CString) × (done none ≡ done v)
nothing_set name = (none, refl)

process_macros-le-size_example :
    (output : List ℕ) × (process_macros 8 (λ name. done none) (codes "$(a)b")
      ≡ done (output, ltb (length output) 8))
    × (length output ≤ 8)
process_macros-le-size_example =
    process_macros-le-size 8 (λ name. done none) (codes "$(a)b") nothing_set (omega arith)
