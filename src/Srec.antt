-- ===== src/Srec.antt =====
-- common/s_record.c: the decoder of Motorola S-records. A C string is the list of its bytes before
-- the terminating NUL, and a pointer into it is the rest of the list.
pub mod Line
pub mod Hex
pub mod Decode
pub mod Bounds
pub mod Short
mod Tests
use armboot.Prelude.{
  ℕ, zero, suc, ◌+◌, ◌-◌, ◌*◌, ◌%◌, ◌^◌, Bool, true, false, not, ◌&&◌, ◌||◌, List, [], ◌∷◌, ◌++◌,
  Option, none, some, ◌==◌, leb, if◌then◌else◌,
}
use armboot.Prelude.Int.{ℤ, pos, negsuc, sub_ℕ, rounds}

-- The return codes SREC_START .. SREC_EMPTY and SREC_E_BADTYPE .. SREC_E_BADCHKS.
pub data Status : Type 0 where
  start data2 data3 data4 count_record end4 end3 end2 empty : Status
  bad_type no_srec bad_chks : Status

-- `*input`: the NUL behind the last byte.
abbrev pub peek : List ℕ → ℕ
peek [] = 0
peek (c ∷ _) = c

-- `input += 1`
abbrev pub advance : List ℕ → List ℕ
advance [] = []
advance (_ ∷ cs) = cs

-- `none` is -1
unfoldable pub hex1_bin : ℕ → Option ℕ
hex1_bin c =
    if leb b'0' c && leb c b'9'
    then some (c - b'0')
    else if leb b'a' c && leb c b'f'
    then some (c + 10 - b'a')
    else if leb b'A' c && leb c b'F'
    then some (c + 10 - b'A')
    else none

abbrev pair : Option ℕ → Option ℕ → Option ℕ
pair none _ = none
pair (some i) none = none
pair (some i) (some j) = some (i * 16 + j)

unfoldable pub hex2_bin : List ℕ → Option ℕ
hex2_bin s = pair (hex1_bin (peek s)) (hex1_bin (peek (advance s)))

-- The locals and the out parameters. `bytes` is what has been stored in `data`, from data[0] on.
pub record Decoder : Type 0 where
  pub input : List ℕ
  pub chksum : ℕ
  pub count : ℤ
  pub addr : ℕ
  pub bytes : List ℕ

-- A piece of the function's body goes on, or returns from `srec_decode`.
pub data Step (A : Type 0) : Type 0 where
  go : A → Decoder → Step A
  ret : Status → Decoder → Step A

abbrev pub M : Type 0 → Type 0
M A = Decoder → Step A

infixl 5 ◌>>=◌ ◌>>◌
abbrev pub ◌>>=◌ : {A B : Type 0} → M A → (A → M B) → M B
◌>>=◌ m f d = elim (m d) [ go a d' ↦ f a d' | ret s d' ↦ ret s d' ]

abbrev pub ◌>>◌ : {B : Type 0} → M (Unit {0}) → M B → M B
m >> k = m >>= λ _. k

-- for (; *input; ++input) if (*input == 'S') { ++input; break; }
pub skip_to_s : List ℕ → List ℕ
skip_to_s [] = []
skip_to_s (c ∷ cs) = if c == b'S' then cs else skip_to_s cs

pub unless_empty : M (Unit {0})
unless_empty d = if peek d.input == 0 then ret empty d else go tt d

pub next_char : M ℕ
next_char d = go (peek d.input) (record d { input = advance d.input })

-- if ((v = hex2_bin(input)) < 0) return SREC_E_NOSREC; chksum += v; input += 2;
pub next_byte : M ℕ
next_byte d = elim (hex2_bin d.input) [
  | none ↦ ret no_srec d
  | some v ↦ go v (record d { input = advance (advance d.input); chksum = (d.chksum + v) % 2 ^ 8 })
]

-- `*count` is written before it is tested.
pub read_count : M (Unit {0})
read_count d = elim (hex2_bin d.input) [
  | none ↦ ret no_srec (record d { count = negsuc 0 })
  | some v ↦ go tt (record d {
    input = advance (advance d.input);
    chksum = (d.chksum + v) % 2 ^ 8;
    count = pos v;
  })
]

abbrev pub minus : ℤ → ℕ → ℤ
minus (pos n) k = sub_ℕ n k
minus (negsuc n) k = negsuc (n + k)

abbrev lessen : Status → ℕ → M Status
lessen t k d = go t (record d { count = minus d.count k })

-- the first `switch (v)`
pub record_type : ℕ → M Status
record_type v =
    if v == b'0'
    then lessen start 3
    else if v == b'1'
    then lessen data2 3
    else if v == b'2'
    then lessen data3 4
    else if v == b'3'
    then lessen data4 5
    else if v == b'5'
    then (λ d. go count_record (record d { count = pos 0 }))
    else if v == b'7'
    then lessen end4 5
    else if v == b'8'
    then lessen end3 4
    else if v == b'9'
    then lessen end2 3
    else (λ d. ret bad_type d)

-- *addr += v, where `*addr` was shifted before all but the first byte of four
abbrev add_addr : ℕ → M (Unit {0})
add_addr v d = go tt (record d { addr = (d.addr + v) % 2 ^ 32 })

abbrev shift_addr : M (Unit {0})
shift_addr d = go tt (record d { addr = d.addr * 2 ^ 8 % 2 ^ 32 })

pub addr_byte : M (Unit {0})
addr_byte = do v ← next_byte; shift_addr; add_addr v

-- the second `switch (v)`, with its cases that fall through
pub read_address : ℕ → M (Unit {0})
read_address v =
    if v == b'3' || v == b'7'
    then (do w ← next_byte; add_addr w; addr_byte; addr_byte; addr_byte)
    else if v == b'2' || v == b'8'
    then (do addr_byte; addr_byte; addr_byte)
    else if v == b'0' || v == b'1' || v == b'5' || v == b'9'
    then (do addr_byte; addr_byte)
    else (λ d. ret bad_type d)

abbrev store : ℕ → M (Unit {0})
store v d = go tt (record d { bytes = d.bytes ++ v ∷ [] })

-- for (i=0; i < *count; ++i), by the rounds left
pub read_data : ℕ → M (Unit {0})
read_data zero d = go tt d
read_data (suc n) d = (do v ← next_byte; store v; λ d'. read_data n d') d

-- (unsigned char)v != (unsigned char)~chksum
pub check_sum : Status → M Status
check_sum t d = elim (hex2_bin d.input) [
  | none ↦ ret no_srec d
  | some v ↦ if not (v % 2 ^ 8 == 255 - d.chksum) then ret bad_chks d else ret t d
]

pub decode : M Status
decode = do
  unless_empty
  v ← next_char
  read_count
  t ← record_type v
  (λ d. go tt (record d { addr = 0 }))
  read_address v
  (λ d. read_data (rounds d.count) d)
  check_sum t

-- `d` holds the caller's `*count` and `*addr`; the result is the code that is returned, with all
-- that has been written.
unfoldable pub srec_decode : List ℕ → Decoder → Step Status
srec_decode input d = decode (record d { input = skip_to_s input; chksum = 0; bytes = [] })
