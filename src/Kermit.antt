-- ===== src/Kermit.antt =====
-- common/cmd_boot.c: the binary download of `loadb`. Here: its state, the checked reads and the two
-- layers that take in the data, `k_data_*` and `os_data_*`. `char` is unsigned on the ARM.
pub mod Answer
pub mod Receive
pub mod Frame
pub mod Escape
pub mod Reply
pub mod Stage
pub mod Taken
pub mod Round
pub mod Session
pub mod Download
pub mod Complete
pub mod Region
pub mod Rollback
mod Tests
use armboot.Prelude.{
  ℕ, ◌+◌, ◌-◌, ◌*◌, ◌/◌, ◌%◌, ◌^◌, Bool, true, false, ◌&&◌, List, [], ◌∷◌, Option, ◌==◌, ltb,
  if◌then◌else◌,
}

-- START_CHAR, END_CHAR, SPACE, K_ESCAPE
abbrev pub start_char : ℕ
start_char = 1

abbrev pub end_char : ℕ
end_char = 13

abbrev pub space : ℕ
space = 0x20

abbrev pub k_escape : ℕ
k_escape = 0x23

abbrev pub tochar : ℕ → ℕ
tochar x = (x + space) % 256

abbrev pub untochar : ℕ → ℕ
untochar x = (x + 256 - space) % 256

-- os_data_state, os_data_count, os_data_addr and k_data_escape, as the `*_saved` variables keep
-- them.
pub record Saved : Type 0 where
  pub os_state : ℕ
  pub os_count : ℕ
  pub os_addr : ℕ
  pub escape : Bool

-- The same variables as they are in use, with the memory that `*os_data_addr++` writes to.
pub record Sink : Type 0 where
  pub os_state : ℕ
  pub os_count : ℕ
  pub os_addr : ℕ
  pub escape : Bool
  pub memory : ℕ → ℕ

-- his_eol, his_pad_count, his_pad_char and his_quote
pub record Peer : Type 0 where
  pub eol : ℕ
  pub pad_count : ℕ
  pub pad_char : ℕ
  pub quote : ℕ

-- The serial line, the globals and the locals of `k_recv`. `parms` are the bytes of `send_parms`
-- before `send_ptr`; `last_n` is none for -1.
pub record Link : Type 0 where
  pub input : List ℕ
  pub output : List ℕ
  pub peer : Peer
  pub sink : Sink
  pub saved : Saved
  pub k_state : ℕ
  pub k_state_saved : ℕ
  pub sum : ℕ
  pub n : ℕ
  pub last_n : Option ℕ
  pub parms : List ℕ

-- A piece of the body of `k_recv` goes on, jumps to `packet_error`, or waits for a byte for ever.
pub data Turn (A : Type 0) : Type 0 where
  go : A → Link → Turn A
  packet_error : Link → Turn A
  waits : Link → Turn A

abbrev pub M : Type 0 → Type 0
M A = Link → Turn A

abbrev pub follow : {A B : Type 0} → Turn A → (A → M B) → Turn B
follow (go a l) f = f a l
follow (packet_error l) f = packet_error l
follow (waits l) f = waits l

infixl 5 ◌>>=◌ ◌>>◌
abbrev pub ◌>>=◌ : {A B : Type 0} → M A → (A → M B) → M B
◌>>=◌ m f l = follow (m l) f

abbrev pub ◌>>◌ : {B : Type 0} → M (Unit {0}) → M B → M B
m >> k = m >>= λ _. k

-- (in & 0x60) == 0x40 ⟶ in & ~0x40, (in & 0x7f) == 0x3f ⟶ in | 0x40
unfoldable pub ktrans : ℕ → ℕ
ktrans c = if c / 32 % 4 == 2 then c - 64 else if c % 128 == 63 then c + 64 else c

abbrev pub write : (ℕ → ℕ) → ℕ → ℕ → ℕ → ℕ
write m p v a = if a == p then v else m a

unfoldable pub bin_data_init : ℕ → Sink → Sink
bin_data_init bin_start_address s = record s {
  os_state = 0;
  os_count = 0;
  os_addr = bin_start_address;
}

unfoldable pub bin_data_char : ℕ → Sink → Sink
bin_data_char c s =
    if s.os_state == 0
    then record s {
      memory = write s.memory s.os_addr c;
      os_addr = (s.os_addr + 1) % 2 ^ 32;
      os_count = (s.os_count + 2 ^ 32 - 1) % 2 ^ 32;
    }
    else s

unfoldable pub k_data_init : ℕ → Sink → Sink
unfolding bin_data_init
k_data_init bin_start_address s = bin_data_init bin_start_address (record s { escape = false })

-- with `os_data_save`
unfoldable pub k_data_save : Sink → Saved
k_data_save s = record {
  os_state = s.os_state;
  os_count = s.os_count;
  os_addr = s.os_addr;
  escape = s.escape;
}

-- with `os_data_restore`
unfoldable pub k_data_restore : Saved → Sink → Sink
k_data_restore v s = record s {
  os_state = v.os_state;
  os_count = v.os_count;
  os_addr = v.os_addr;
  escape = v.escape;
}

-- The first argument is `his_quote`.
unfoldable pub k_data_char : ℕ → ℕ → Sink → Sink
unfolding bin_data_char ktrans
k_data_char quote c s =
    if s.escape
    then record (bin_data_char (ktrans c) s) { escape = false }
    else if c == quote
    then record s { escape = true }
    else bin_data_char c s

-- new_char = serial_getc()
unfoldable pub serial_getc : List ℕ → M ℕ
serial_getc [] l = waits l
serial_getc (c ∷ cs) l = go c (record l { input = cs })

abbrev pub get_any : M ℕ
get_any l = serial_getc l.input l

-- A byte with (new_char & 0xE0) == 0 is an error.
abbrev pub refuse_control : ℕ → M ℕ
refuse_control c l = if ltb c space then packet_error l else go c l

unfoldable pub get_checked : M ℕ
unfolding serial_getc
get_checked = do c ← get_any; refuse_control c

-- sum += new_char & 0xff
abbrev pub add_sum : ℕ → M (Unit {0})
add_sum c l = go tt (record l { sum = l.sum + c })

unfoldable pub get_summed : M ℕ
unfolding get_checked
get_summed = do c ← get_checked; add_sum c; λ l. go c l

-- tochar((sum + ((sum >> 6) & 0x03)) & 0x3f)
abbrev pub block_check : ℕ → ℕ
block_check sum = tochar ((sum + sum / 64 % 4) % 64)
