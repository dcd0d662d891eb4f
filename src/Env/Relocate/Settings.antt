-- ===== src/Env/Relocate/Settings.antt =====
-- What `env_relocate` of common/cmd_nvedit.c takes from the environment.
use armboot.Prelude.{ℕ, ◌≡◌, ◌∙◌, refl, List, some, arith, done, bind-done}
use armboot.Env.{Env, Board, Config}
use armboot.Env.Image.{Entry, lookup, Represents}
use armboot.Env.Lookup.{getenv_value-lookup}
use armboot.Env.Reread.{Represents-Visible}
use armboot.Env.Setenv.{ethaddr, ipaddr, loadaddr, bootfile}
use armboot.Env.Relocate.{
  relocated, read_settings, env_relocate, enetaddr_of, ip_addr_of, load_addr_of, boot_file_of,
}

-- The board behind `env_relocate`, for the environment in RAM and its definitions.
abbrev pub settled : Board → Env → List Entry → Board
settled bd e es = record bd {
  env = some e;
  enetaddr = enetaddr_of (lookup ethaddr es);
  ip_addr = ip_addr_of (lookup ipaddr es);
  load_addr = load_addr_of bd.load_addr (lookup loadaddr es);
  boot_file = boot_file_of bd.boot_file (lookup bootfile es);
}

relocated-stored :
    (cfg : Config) (fresh : List ℕ) (e : Env) → cfg.stored ≡ some e → relocated cfg fresh ≡ done e
unfolding relocated
relocated-stored cfg fresh e h = rw h

read_settings-settled :
    (cfg : Config) (bd : Board) (e : Env) {es : List Entry}
    → Represents e.image es
    → read_settings cfg (record bd { env = some e }) ≡ done (settled bd e es)
unfolding read_settings
read_settings-settled cfg bd e {es} v =
    let bd' : Board = record bd { env = some e } in
    let visible = Represents-Visible cfg bd' e es refl v in
    let mac = getenv_value-lookup cfg bd' ethaddr visible (omega arith) in
    let ip = getenv_value-lookup cfg bd' ipaddr visible (omega arith) in
    let load = getenv_value-lookup cfg bd' loadaddr visible (omega arith) in
    let file = getenv_value-lookup cfg bd' bootfile visible (omega arith) in
    rw (mac, ip, load, file)

-- `env_relocate`, where the environment in flash has a right CRC and represents the definitions
-- `es`: it comes to its end, its copy in RAM is the one in flash, and the Ethernet address, the IP
-- address, the load address and the boot file are those of the first definition of each name in
-- `es`. Where a name is not defined the two addresses of the network are zeros, and the load
-- address and the boot file stay as they were.
pub env_relocate-settled :
    (cfg : Config) (fresh : List ℕ) (bd : Board) (e : Env) {es : List Entry}
    → cfg.stored ≡ some e
    → Represents e.image es
    → env_relocate cfg fresh bd ≡ done (settled bd e es)
unfolding env_relocate
env_relocate-settled cfg fresh bd e stored v =
    bind-done (λ e'. read_settings cfg (record bd { env = some e' }))
      (relocated-stored cfg fresh e stored)
    ∙ read_settings-settled cfg bd e v
