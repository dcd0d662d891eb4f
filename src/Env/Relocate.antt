-- ===== src/Env/Relocate.antt =====
-- `env_init` and `env_relocate` of common/cmd_nvedit.c.
pub mod Settings
use armboot.Prelude.{
  ℕ, zero, suc, ◌+◌, List, [], ◌∷◌, ◌++◌, Option, none, some, leb, if◌then◌else◌, length, drop,
  Exec, done, fault, ◌>>=◌,
}
use armboot.Crc.{crc32}
use armboot.CString.{CString, simple_strtoul}
use armboot.Env.{Env, Board, Config, getenv_value}
use armboot.Env.Setenv.{
  ethaddr, ipaddr, loadaddr, bootfile, parse_enetaddr, parse_ip_addr, copy_filename, boot_file_size,
}

abbrev pub env_init : Board → Board
env_init bd = record bd { env = none }

-- The environment in RAM. `fresh` is what the memory from `malloc` holds where `board_env_copy`
-- has failed; a default environment that is longer is written past its end.
unfoldable pub relocated : Config → List ℕ → Exec Env
relocated cfg fresh =
    let image = cfg.default_environment ++ drop (length cfg.default_environment) fresh in
    elim cfg.stored [
      | some e ↦ done e
      | none ↦
          if leb (length cfg.default_environment) (length fresh)
          then done (record { crc = crc32 0 image; image = image })
          else fault
    ]

-- `s` is NULL where the variable is not set.
abbrev pub enetaddr_of : Option CString → List ℕ
enetaddr_of none = 0 ∷ 0 ∷ 0 ∷ 0 ∷ 0 ∷ 0 ∷ []
enetaddr_of (some s) = parse_enetaddr 6 s

abbrev pub ip_addr_of : Option CString → ℕ
ip_addr_of none = 0
ip_addr_of (some s) = parse_ip_addr 4 0 s

abbrev pub load_addr_of : ℕ → Option CString → ℕ
load_addr_of old none = old
load_addr_of old (some s) = (simple_strtoul s 16).0

abbrev pub boot_file_of : CString → Option CString → CString
boot_file_of old none = old
boot_file_of old (some s) = copy_filename s boot_file_size

-- "now initialise some variables"
unfoldable pub read_settings : Config → Board → Exec Board
read_settings cfg bd = do
  mac ← getenv_value cfg bd ethaddr
  ip ← getenv_value cfg bd ipaddr
  load ← getenv_value cfg bd loadaddr
  file ← getenv_value cfg bd bootfile
  done (record bd {
    enetaddr = enetaddr_of mac;
    ip_addr = ip_addr_of ip;
    load_addr = load_addr_of bd.load_addr load;
    boot_file = boot_file_of bd.boot_file file;
  })

unfoldable pub env_relocate : Config → List ℕ → Board → Exec Board
env_relocate cfg fresh bd = do
  e ← relocated cfg fresh
  read_settings cfg (record bd { env = some e })
