-- ===== src/Env/Setenv.antt =====
-- `_do_setenv` and `setenv` of common/cmd_nvedit.c, and `copy_filename` of net/net.c. A pointer into
-- `bi_env_data` is its index.
pub mod Loops
use armboot.Prelude.{
  ℕ, zero, suc, ◌+◌, ◌-◌, ◌*◌, ◌%◌, ◌^◌, Bool, true, false, not, List, [], ◌∷◌, Option, none, some,
  ◌==◌, ltb, if◌then◌else◌, length, Exec, done, fault, blocked, ◌>>=◌,
}
use armboot.Memory.{load, store}
use armboot.Crc.{crc32}
use armboot.CString.{CString, strcmp, strlen, simple_strtoul, is_among}
use armboot.Env.{Env, Board, Config, find_end, envmatch, string_at}
use armboot.Env.Setenv.Loops.{Found, search, delete, append}

-- The tests for "serial#" and "ethaddr".
abbrev pub serial : CString
serial = b's' ∷ b'e' ∷ b'r' ∷ b'i' ∷ b'a' ∷ b'l' ∷ b'#' ∷ []

abbrev pub ethaddr : CString
ethaddr = b'e' ∷ b't' ∷ b'h' ∷ b'a' ∷ b'd' ∷ b'd' ∷ b'r' ∷ []

abbrev pub baudrate : CString
baudrate = b'b' ∷ b'a' ∷ b'u' ∷ b'd' ∷ b'r' ∷ b'a' ∷ b't' ∷ b'e' ∷ []

abbrev pub ipaddr : CString
ipaddr = b'i' ∷ b'p' ∷ b'a' ∷ b'd' ∷ b'd' ∷ b'r' ∷ []

abbrev pub loadaddr : CString
loadaddr = b'l' ∷ b'o' ∷ b'a' ∷ b'd' ∷ b'a' ∷ b'd' ∷ b'd' ∷ b'r' ∷ []

abbrev pub bootfile : CString
bootfile = b'b' ∷ b'o' ∷ b'o' ∷ b't' ∷ b'f' ∷ b'i' ∷ b'l' ∷ b'e' ∷ []

abbrev pub is : CString → CString → Bool
is name s = strcmp name s == 0

-- With CONFIG_OVERWRITE_ETHADDR_ONCE, an `ethaddr` that still is CONFIG_ETHADDR may be overwritten.
unfoldable pub is_locked : Config → List ℕ → CString → ℕ → Exec Bool
is_locked cfg p name oldval =
    let differs : Exec Bool = elim cfg.ethaddr_once [
      | none ↦ done true
      | some a ↦ do s ← string_at (load p) (suc (length p)) oldval; done (not (is s a))
    ] in
    if cfg.env_overwrite
    then done false
    else if is name serial
    then done true
    else if is name ethaddr
    then differs
    else done false

-- for (;;) { if (getc() == '\r') break; }
unfoldable pub wait_enter : List ℕ → Exec (List ℕ)
wait_enter [] = blocked
wait_enter (c ∷ cs) = let rest = wait_enter cs in if c == b'\r' then done cs else rest

-- argv[2], which is the null pointer where there are no values
abbrev argv2 : List CString → Exec CString
argv2 [] = fault
argv2 (v ∷ _) = done v

-- `none` is the return with "Baudrate not supported".
unfoldable pub switch_baudrate : Config → Board → CString → List CString → Exec (Option Board)
switch_baudrate cfg bd name values =
    let switched = (do
      s ← argv2 values
      let rate = (simple_strtoul s 10).0
      let wait = (do
        c ← wait_enter bd.console
        done (some (record bd { baudrate = rate; console = c })))
      if is_among rate cfg.baudrate_table then wait else done none) in
    if is name baudrate then switched else done (some bd)

-- s = (*e) ? e+1 : e
abbrev next_field : CString → CString
next_field [] = []
next_field (_ ∷ cs) = cs

-- The six numbers of an Ethernet address; each is stored in an unsigned char.
unfoldable pub parse_enetaddr : ℕ → CString → List ℕ
parse_enetaddr zero s = []
parse_enetaddr (suc n) s =
    let (v, e) = simple_strtoul s 16 in (v % 2 ^ 8) ∷ parse_enetaddr n (next_field e)

-- bi_ip_addr <<= 8; bi_ip_addr |= (val & 0xFF)
unfoldable pub parse_ip_addr : ℕ → ℕ → CString → ℕ
parse_ip_addr zero ip s = ip
parse_ip_addr (suc n) ip s =
    let (v, e) = simple_strtoul s 10 in
    parse_ip_addr n (ip * 2 ^ 8 % 2 ^ 32 + v % 2 ^ 8) (next_field e)

-- while ((--size > 0) && *src && (*src != '"')) *dst++ = *src++
copy_chars : ℕ → CString → CString
copy_chars zero src = []
copy_chars (suc n) [] = []
copy_chars (suc n) (c ∷ cs) = let rest = copy_chars n cs in if c == b'"' then [] else c ∷ rest

-- The string that `copy_filename` leaves in `dst`.
unfoldable pub copy_filename : CString → ℕ → CString
unfolding copy_chars
copy_filename [] size = copy_chars (size - 1) []
copy_filename (c ∷ cs) size =
    if c == b'"' then copy_chars (size - 2) cs else copy_chars (size - 1) (c ∷ cs)

abbrev pub boot_file_size : ℕ
boot_file_size = 128

-- Some variables are also kept elsewhere: what is updated once the definition is written.
unfoldable pub update_copies : Board → CString → CString → Board
unfolding parse_enetaddr parse_ip_addr copy_filename
update_copies bd name value =
    if is name ethaddr
    then record bd { enetaddr = parse_enetaddr 6 value }
    else if is name ipaddr
    then record bd { ip_addr = parse_ip_addr 4 0 value }
    else if is name loadaddr
    then record bd { load_addr = (simple_strtoul value 16).0 }
    else if is name bootfile
    then record bd { boot_file = copy_filename value boot_file_size }
    else bd

abbrev pub with_image : Board → List ℕ → Board
with_image bd p = record bd { env = some (record { crc = crc32 0 p; image = p }) }

-- Behind the deletion. An overflow leaves the CRC as it was.
unfoldable pub define : Board → Env → List ℕ → CString → List CString → Exec (ℕ × Board)
define bd e p name [] = done (0, with_image bd p)
define bd e p name (v ∷ vs) = do
  q ← append p name (v ∷ vs)
  elim q [
    | none ↦ done (1, record bd { env = some (record e { image = p }) })
    | some r ↦ done (0, update_copies (with_image bd r) name v)
  ]

unfoldable pub replace : Config → Board → Env → CString → List CString → Found → Exec (ℕ × Board)
replace cfg bd e name values f = do
  locked ← is_locked cfg e.image name f.oldval
  let go_on = (do
    switched ← switch_baudrate cfg bd name values
    elim switched [
      | none ↦ done (1, bd)
      | some bd' ↦ do p ← delete e.image f.env f.nxt; define bd' e p name values
    ])
  if locked then done (1, bd) else go_on

-- `name` is argv[1] and `values` are argv[2], ..., argv[argc-1]: none of them where argc is 2, or
-- where argv[2] is NULL. With `bi_env` still NULL the test `!bd->bi_env_data` does not hold, and the
-- array is looked for near address 0.
unfoldable pub do_setenv_at :
    Config → Board → Option Env → CString → List CString → Exec (ℕ × Board)
do_setenv_at cfg bd none name values = fault
do_setenv_at cfg bd (some e) name values = do
  found ← search (suc (length e.image)) e.image name 0
  elim found [ none ↦ define bd e e.image name values | some f ↦ replace cfg bd e name values f ]

abbrev pub do_setenv : Config → Board → CString → List CString → Exec (ℕ × Board)
do_setenv cfg bd = do_setenv_at cfg bd bd.env

abbrev optional : Option CString → List CString
optional none = []
optional (some v) = v ∷ []

-- `setenv`, which drops what `_do_setenv` returns
unfoldable pub setenv : Config → Board → CString → Option CString → Exec Board
setenv cfg bd name value = do (_, bd') ← do_setenv cfg bd name (optional value); done bd'
