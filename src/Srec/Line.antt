-- ===== src/Srec/Line.antt =====
-- What an S-record line looks like, written out independently of the decoder
-- (include/s_record.h describes the format).
use armboot.Prelude.{
  ℕ, ◌+◌, ◌-◌, ◌/◌, ◌%◌, ◌^◌, ◌<◌, ◌≡◌, ◌≢◌, List, [], ◌∷◌, ltb, if◌then◌else◌, length,
}
use armboot.Srec.{Status, start, data2, data3, data4, count_record, end4, end3, end2}

-- The record types that the decoder knows.
pub data Kind : Type 0 where
  s0 s1 s2 s3 s5 s7 s8 s9 : Kind

abbrev pub digit : Kind → ℕ
digit s0 = b'0'
digit s1 = b'1'
digit s2 = b'2'
digit s3 = b'3'
digit s5 = b'5'
digit s7 = b'7'
digit s8 = b'8'
digit s9 = b'9'

-- The width of the address field in bytes.
abbrev pub width : Kind → ℕ
width s2 = 3
width s3 = 4
width s7 = 4
width s8 = 3
width _ = 2

abbrev pub status : Kind → Status
status s0 = start
status s1 = data2
status s2 = data3
status s3 = data4
status s5 = count_record
status s7 = end4
status s8 = end3
status s9 = end2

pub record Line : Type 0 where
  pub kind : Kind
  pub addr : ℕ
  pub payload : List ℕ

abbrev pub AllBytes : List ℕ → Type 0
AllBytes [] = Unit {0}
AllBytes (b ∷ bs) = (b < 256) × AllBytes bs

abbrev pub NoS : List ℕ → Type 0
NoS [] = Unit {0}
NoS (c ∷ cs) = (c ≢ b'S') × NoS cs

-- Only a count record has no data field.
abbrev pub PayloadFits : Kind → List ℕ → Type 0
PayloadFits s5 bs = bs ≡ []
PayloadFits k bs = width k + length bs + 1 < 256

pub record IsLine (l : Line) : Type 0 where
  pub addr_fits : l.addr < 256 ^ width l.kind
  pub payload_fits : PayloadFits l.kind l.payload
  pub bytes : AllBytes l.payload

abbrev pub hex_digit : ℕ → ℕ
hex_digit n = if ltb n 10 then b'0' + n else b'A' + (n - 10)

-- `hex b rest` is the byte `b` in front of `rest`.
abbrev pub hex : ℕ → List ℕ → List ℕ
hex b rest = hex_digit (b / 16) ∷ hex_digit (b % 16) ∷ rest

abbrev pub hex_all : List ℕ → List ℕ → List ℕ
hex_all [] rest = rest
hex_all (b ∷ bs) rest = hex b (hex_all bs rest)

-- The `w` low bytes of `a`, most significant first.
abbrev pub addr_bytes : Kind → ℕ → List ℕ
addr_bytes s2 a = a / 65536 ∷ (a / 256 % 256) ∷ (a % 256) ∷ []
addr_bytes s8 a = a / 65536 ∷ (a / 256 % 256) ∷ (a % 256) ∷ []
addr_bytes s3 a = a / 16777216 ∷ (a / 65536 % 256) ∷ (a / 256 % 256) ∷ (a % 256) ∷ []
addr_bytes s7 a = a / 16777216 ∷ (a / 65536 % 256) ∷ (a / 256 % 256) ∷ (a % 256) ∷ []
addr_bytes _ a = a / 256 ∷ (a % 256) ∷ []

-- The length field counts the address, the data and the checksum.
abbrev pub length_field : Line → ℕ
length_field l = width l.kind + length l.payload + 1

abbrev pub sum : List ℕ → ℕ
sum [] = 0
sum (b ∷ bs) = b + sum bs

unfoldable pub total : Line → ℕ
total l = length_field l + sum (addr_bytes l.kind l.addr) + sum l.payload

-- The ones' complement of the low byte of the sum.
unfoldable pub checksum : Line → ℕ
unfolding total
checksum l = 255 - total l % 256

-- The line with the checksum byte `c`.
abbrev pub render : Line → ℕ → List ℕ → List ℕ
render l c rest =
    b'S'
    ∷ digit l.kind
    ∷ hex (length_field l) (hex_all (addr_bytes l.kind l.addr) (hex_all l.payload (hex c rest)))
