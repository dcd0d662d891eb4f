-- ===== src/Env/Tests/Variables.antt =====
-- A small environment that is read, changed and printed, and the theorems at it.
use Prim.Native.Char.{code}
use Prim.Native.String.{String}
use armboot.Prelude.{
  ℕ, ◌≡◌, refl, inl, inr, true, false, List, [], ◌∷◌, ◌++◌, none, some, arith, length, done, fault,
}
use armboot.Memory.{load}
use armboot.CString.{is_among, strlen, simple_strtoul, prefix, after_zero, read_digits}
use armboot.Env.{Env, Board, Config, env_char, find_end, envmatch, getenv_value}
use armboot.Env.Image.{Entry, IsName, encode, same, lookup, erase, Represents}
use armboot.Env.Lookup.{Visible, getenv_value-lookup}
use armboot.Env.Append.{entry}
use armboot.Env.Prepare.{IsPlain}
use armboot.Env.Refine.{do_setenv-erase, do_setenv-refines, do_setenv-overflow, do_setenv-fault}
use armboot.Env.Refuse.{do_setenv-once, do_setenv-baudrate_unsupported, do_setenv-baudrate_null}
use armboot.Env.Reread.{reread, Distinct, getenv-do_setenv}
use armboot.Env.Commands.{print_range, print_all, print_name, print_names, do_printenv}
use armboot.Serial.{Byte, ctrlc}
use armboot.Env.Commands.Printed.{do_printenv-listing}
use armboot.Env.Setenv.{do_setenv, with_image, update_copies, serial, baudrate}

abbrev codes : String → List ℕ
codes String.[] = []
codes (String.◌∷◌ c s) = code c ∷ codes s

abbrev pub var : String → String → Entry
var n v = record { name = codes n; value = codes v }

abbrev pub entries : List Entry
entries = var "serial#" "7" ∷ var "baudrate" "9600" ∷ var "a" "1" ∷ []

abbrev pub slack : List ℕ
slack = 0 ∷ 1 ∷ 0 ∷ 0 ∷ []

abbrev pub image : List ℕ
image = encode entries (0 ∷ slack)

abbrev pub env : Env
env = record { crc = 0; image = image }

abbrev pub cfg : Config
cfg = record {
  default_environment = 0 ∷ 0 ∷ [];
  stored = none;
  baudrate_table = 9600 ∷ 115200 ∷ [];
  env_overwrite = false;
  ethaddr_once = none;
}

abbrev pub bd : Board
bd = record {
  baudrate = 9600;
  ip_addr = 0;
  enetaddr = [];
  env = some env;
  load_addr = 0;
  boot_file = [];
  console = [];
}

represents : Represents image entries
represents = record { slack = slack; image_is = refl; entries = omega arith; two_zeros = λ e. cc }

a-IsPlain : IsPlain (codes "a")
a-IsPlain = record {
  is_string = omega arith;
  ne_serial = λ e. cc;
  ne_ethaddr = λ e. cc;
  ne_baudrate = λ e. cc;
}

visible : Visible cfg bd entries
unfolding env_char load
visible = record { slack = slack; reads = ground arith; fits = omega arith; entries = omega arith }

getenv_value-lookup_example : getenv_value cfg bd (codes "baudrate") ≡ done (some (codes "9600"))
unfolding lookup same
getenv_value-lookup_example = getenv_value-lookup cfg bd (codes "baudrate") visible (omega arith)

distinct : Distinct entries
unfolding lookup same
distinct = (refl, (refl, (refl, tt)))

getenv-do_setenv_example :
    (bd' : Board) × (do_setenv cfg bd (codes "a") (codes "2" ∷ codes "3" ∷ []) ≡ done (0, bd'))
    × ((n : List ℕ) → IsName n → getenv_value cfg bd' n ≡ reread cfg bd (codes "a") (codes "2 3") n)
    × Distinct (erase (codes "a") entries ++ entry (codes "a") (codes "2") (codes "3" ∷ []) ∷ [])
unfolding erase same strlen
getenv-do_setenv_example =
    getenv-do_setenv cfg bd (codes "a") (codes "2") (codes "3" ∷ []) refl represents distinct
      (omega arith) (inr a-IsPlain) (omega arith) (omega arith)

do_setenv-refines_example :
    (r : List ℕ) × (do_setenv cfg bd (codes "a") (codes "2" ∷ [])
      ≡ done (0, update_copies (with_image bd r) (codes "a") (codes "2")))
    × Represents r (erase (codes "a") entries ++ entry (codes "a") (codes "2") [] ∷ [])
    × (length r ≡ 33)
unfolding erase same strlen
do_setenv-refines_example =
    do_setenv-refines cfg bd (codes "a") refl represents (omega arith) (inr a-IsPlain) (codes "2")
      [] (omega arith) (omega arith)

deleted :
    (p : List ℕ) × (do_setenv cfg bd (codes "a") [] ≡ done (0, with_image bd p))
    × Represents p (erase (codes "a") entries)
    × (length p ≡ 33)
deleted = do_setenv-erase cfg bd (codes "a") refl represents (omega arith) (inr a-IsPlain)

-- The old value of `a` is lost, and the CRC is stale.
overflowing :
    (p : List ℕ) × (do_setenv cfg bd (codes "a") (codes "123456789 123456789 123456789 " ∷ [])
      ≡ done (1, record bd { env = some (record env { image = p }) }))
    × Represents p (erase (codes "a") entries)
unfolding strlen
overflowing =
    do_setenv-overflow cfg bd (codes "a") refl represents (omega arith) (inr a-IsPlain)
      (codes "123456789 123456789 123456789 ") [] (omega arith) (omega arith)

does_not_fit : do_setenv cfg bd (codes "a") (codes "123456789" ∷ []) ≡ fault
unfolding erase same strlen
does_not_fit =
    do_setenv-fault cfg bd (codes "a") refl represents (omega arith) (inr a-IsPlain)
      (codes "123456789") [] (omega arith) (omega arith) (omega arith)

serial_is_kept : do_setenv cfg bd serial (codes "8" ∷ []) ≡ done (1, bd)
unfolding lookup same
serial_is_kept =
    do_setenv-once cfg bd refl represents serial (codes "8" ∷ []) refl refl (inl refl) refl

slow_baudrate : do_setenv cfg bd baudrate (codes "1200" ∷ []) ≡ done (1, bd)
unfolding lookup same is_among simple_strtoul prefix after_zero read_digits
slow_baudrate = do_setenv-baudrate_unsupported cfg bd refl represents (codes "1200") [] refl refl

no_baudrate : do_setenv cfg bd baudrate [] ≡ fault
unfolding lookup same
no_baudrate = do_setenv-baudrate_null cfg bd refl represents refl

-- A key that is thrown away behind the first line, and Control-C behind the second; one more key.
abbrev typed : List Byte
typed =
    record { code = b'x'; waiting = true }
    ∷ record { code = 3; waiting = true }
    ∷ record { code = b'y'; waiting = true }
    ∷ []

do_printenv-listing_example :
    do_printenv ctrlc cfg bd ([] ∷ []) typed
    ≡ done (1, codes "serial#=7\nbaudrate=9600\n", record { code = b'y'; waiting = true } ∷ [])
unfolding ctrlc
do_printenv-listing_example = do_printenv-listing ctrlc cfg bd [] typed visible

-- Control-C behind the first line
printed_until_abort :
    do_printenv {S = ℕ} (λ s. (true, s)) cfg bd ([] ∷ []) 5 ≡ done (1, codes "serial#=7\n", 5)
unfolding do_printenv print_all print_range env_char load find_end
printed_until_abort = refl

printed_by_name :
    do_printenv {S = ℕ} (λ s. (false, s)) cfg bd ([] ∷ codes "a" ∷ codes "b" ∷ []) 5
    ≡ done (1, codes "a=1\n", 5)
unfolding do_printenv print_names print_name print_range env_char load find_end envmatch
printed_by_name = refl
