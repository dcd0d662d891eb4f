-- ===== src/Env.antt =====
-- common/cmd_nvedit.c: the environment, a block of '\0'-terminated "name=value" strings that ends in
-- a second '\0'. This file has the reading side; `Setenv` has `_do_setenv`, and the other children
-- the abstract view and the proofs.
pub mod Setenv
pub mod Image
pub mod Lookup
pub mod Shift
pub mod Erase
pub mod Write
pub mod Append
pub mod Sizes
pub mod Search
pub mod Prepare
pub mod Refine
pub mod Refuse
pub mod Reread
pub mod Commands
pub mod Relocate
pub mod Storage
mod Tests
use armboot.Prelude.{
  ℕ, zero, suc, ◌+◌, ◌-◌, ◌*◌, ◌%◌, ◌^◌, Bool, true, false, List, [], ◌∷◌, Option, none, some, ◌==◌,
  ltb, leb, if◌then◌else◌, length, Exec, done, fault, ◌>>=◌, map,
}
use armboot.Memory.{load}
use armboot.CString.{CString}

-- `env_t`
pub record Env : Type 0 where
  pub crc : ℕ
  pub image : List ℕ

-- `bd_t` as far as this file reads and writes it, the globals `load_addr` and `BootFile`, and what
-- is typed at the console. `env` is `none` while `bi_env` is the null pointer.
pub record Board : Type 0 where
  pub baudrate : ℕ
  pub ip_addr : ℕ
  pub enetaddr : List ℕ
  pub env : Option Env
  pub load_addr : ℕ
  pub boot_file : CString
  pub console : List ℕ

-- What the file takes from the configuration and from board/*/env.c. `stored` is the environment
-- in flash, if its CRC is right: what `board_env_getchar` and `board_env_copy` read.
pub record Config : Type 0 where
  pub default_environment : List ℕ
  pub stored : Option Env
  pub baudrate_table : List ℕ
  pub env_overwrite : Bool
  pub ethaddr_once : Option CString

abbrev default_char : Config → ℕ → Exec ℕ
default_char cfg index = load cfg.default_environment index

-- `board_env_getchar`, else the default environment
abbrev stored_char : Config → Option Env → ℕ → Exec ℕ
stored_char cfg none index = default_char cfg index
stored_char cfg (some e) index =
    if ltb index (length e.image) then load e.image index else default_char cfg index

-- A bad index is a call of `panic`.
unfoldable pub env_char : Config → Option Env → ℕ → Exec ℕ
env_char cfg none index = stored_char cfg cfg.stored index
env_char cfg (some e) index = load e.image index

abbrev pub get_env_char : Config → Board → ℕ → Exec ℕ
get_env_char cfg bd = env_char cfg bd.env

module _ (get : ℕ → Exec ℕ) where
  -- for (nxt = i; get_env_char(nxt) != '\0'; ++nxt)
  unfoldable pub find_end : ℕ → ℕ → Exec ℕ
  find_end zero nxt = fault
  find_end (suc fuel) nxt = do
    c ← get nxt
    elim (c == 0) [ true ↦ done nxt | false ↦ find_end fuel (nxt + 1) ]

  -- `none` is -1. To step over the end of `s1` is a fault.
  unfoldable pub envmatch : CString → ℕ → Exec (Option ℕ)
  envmatch [] i2 = do
    c ← get i2
    if c == 0 then fault else if c == b'=' then done (some (i2 + 1)) else done none
  envmatch (s ∷ s1) i2 = do
    c ← get i2
    elim (s == c) [
      | true ↦ elim (s == b'=') [ true ↦ done (some (i2 + 1)) | false ↦ envmatch s1 (i2 + 1) ]
      | false ↦ done none
    ]

  -- The outer loop of `getenv`. `size` is sizeof(bi_env_data), and bounds both loops.
  unfoldable pub getenv_from : ℕ → ℕ → CString → ℕ → Exec (Option ℕ)
  getenv_from zero size name i = fault
  getenv_from (suc fuel) size name i = do
    c ← get i
    elim (c == 0) [
      | true ↦ done none
      | false ↦ do
        nxt ← find_end (suc size) i
        val ← envmatch name i
        elim val [ some v ↦ done (some v) | none ↦ getenv_from fuel size name (nxt + 1) ]
    ]

  -- The C string that stands at an index.
  unfoldable pub string_at : ℕ → ℕ → Exec CString
  string_at zero i = fault
  string_at (suc fuel) i = do
    c ← get i
    elim (c == 0) [ true ↦ done [] | false ↦ do s ← string_at fuel (i + 1); done (c ∷ s) ]

-- The bytes of the environment that `get_env_char` reads. The test `nxt >= sizeof(bi_env_data)` of
-- `getenv` is left out: it stands behind a call of `get_env_char` that panics at such an index, unless
-- the default environment is longer than the array.
abbrev pub env_size : Config → Board → ℕ
env_size cfg bd = elim bd.env [
  | some e ↦ length e.image
  | none ↦ elim cfg.stored [ none ↦ length cfg.default_environment | some e ↦ length e.image ]
]

-- `none` is NULL, and an index stands for the address of that byte.
unfoldable pub getenv : Config → Board → CString → Exec (Option ℕ)
getenv cfg bd name =
    getenv_from (get_env_char cfg bd) (suc (env_size cfg bd)) (env_size cfg bd) name 0

abbrev pub read_value : (ℕ → Exec ℕ) → ℕ → Option ℕ → Exec (Option CString)
read_value get fuel none = done none
read_value get fuel (some v) = do s ← string_at get fuel v; done (some s)

-- What a caller of `getenv` reads at the address.
unfoldable pub getenv_value : Config → Board → CString → Exec (Option CString)
getenv_value cfg bd name = do
  val ← getenv cfg bd name
  read_value (get_env_char cfg bd) (suc (env_size cfg bd)) val
