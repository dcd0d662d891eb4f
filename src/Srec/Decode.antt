-- ===== src/Srec/Decode.antt =====
-- `srec_decode` of common/s_record.c on lines of the format, with any checksum.
pub mod Address
use armboot.Prelude.{
  ℕ, ◌+◌, ◌*◌, ◌/◌, ◌%◌, ◌^◌, ◌<◌, ◌≡◌, ◌∙◌, refl, ap, false, List, [], ◌∷◌, ◌++◌, append-nil,
  append_assoc, arith, ◌==◌, if◌then◌else◌, ==_ne, length,
}
use armboot.Prelude.Int.{ℤ, pos}
use armboot.Srec.{
  bad_chks, empty, Decoder, M, go, addr_byte, add_addr, ◌>>◌, ◌>>=◌, ret, skip_to_s, unless_empty,
  next_char, next_byte, read_count, record_type, read_address, read_data, check_sum, decode,
  srec_decode,
}
use armboot.Srec.Line.{
  Kind, s0, s1, s2, s3, s5, s7, s8, digit, width, status, Line, AllBytes, NoS, PayloadFits, IsLine,
  hex, hex_all, addr_bytes, length_field, sum, total, checksum, render,
}
use armboot.Srec.Hex.{hex2_bin-hex}
use armboot.Srec.Decode.Address.{at, read_data-hex_all, read_address-digit, record_type-digit}

pub skip_to_s-NoS : (junk rest : List ℕ) → NoS junk → skip_to_s (junk ++ b'S' ∷ rest) ≡ rest
unfolding skip_to_s
skip_to_s-NoS [] rest h = refl
skip_to_s-NoS (c ∷ junk) rest h = rw (==_ne c b'S' h.0) (skip_to_s-NoS junk rest h.1)

-- What the decoder has read of a line when it comes to the checksum byte.
abbrev pub before_checksum : Line → List ℕ → Decoder
before_checksum l i = at i (total l % 256) (pos (length l.payload)) l.addr l.payload

length_field-lt : (t : Kind) (bs : List ℕ) → PayloadFits t bs → width t + length bs + 1 < 256
length_field-lt s5 bs h = rw h (omega arith)
length_field-lt s0 bs h = h
length_field-lt _ bs h = h

digit-ne-zero : (t : Kind) → (digit t == 0) ≡ false
digit-ne-zero s0 = refl
digit-ne-zero _ = refl

pub read_count-hex :
    (b : ℕ) (rest : List ℕ) (k : ℕ) (n : ℤ) (a : ℕ) (out : List ℕ)
    → b < 256
    → read_count (at (hex b rest) k n a out) ≡ go tt (at rest ((k + b) % 256) (pos b) a out)
unfolding read_count
read_count-hex b rest k n a out h = ground (arith, hex2_bin-hex b rest h)

pub go-bind :
    {A B : Type 0} (m : M A) (f : A → M B) {d d' : Decoder} {a : A}
    → m d ≡ go a d'
    → (m >>= f) d ≡ f a d'
go-bind m f e = rw (e, ◌>>=◌)

pub unless_empty-digit :
    (t : Kind) (i : List ℕ) (n : ℤ) (a : ℕ)
    → unless_empty (at (digit t ∷ i) 0 n a []) ≡ go tt (at (digit t ∷ i) 0 n a [])
unfolding unless_empty
unless_empty-digit t i n a = rw (digit-ne-zero t)

decode-render :
    (l : Line) (c : ℕ) (rest : List ℕ) (n : ℤ) (a : ℕ)
    → IsLine l
    → decode (
        at
          (digit l.kind
            ∷ hex
                (length_field l)
                (hex_all (addr_bytes l.kind l.addr) (hex_all l.payload (hex c rest))))
          0
          n
          a
          [])
      ≡ check_sum (status l.kind) (before_checksum l (hex c rest))
unfolding decode total next_char
decode-render l c rest n a v =
    go-bind unless_empty _ (unless_empty-digit l.kind _ n a)
    ∙ go-bind read_count _ (read_count-hex (length_field l) after_length 0 n a [] fits)
    ∙ go-bind (record_type (digit l.kind)) _
        (record_type-digit l.kind l.payload after_length _ a [] v.payload_fits)
    ∙ go-bind (read_address (digit l.kind)) _
        (read_address-digit l.addr after_addr _ (pos (length l.payload)) [] l.kind v.addr_fits)
    ∙ go-bind (read_data (length l.payload)) _ (
        read_data-hex_all l.payload (hex c rest) _ (pos (length l.payload)) l.addr [] (omega arith)
          v.bytes)
    ∙ ap
        (λ k.
          check_sum (status l.kind) (at (hex c rest) k (pos (length l.payload)) l.addr l.payload))
        (omega arith)
  where
    fits : length_field l < 256
    fits = length_field-lt l.kind l.payload v.payload_fits

    after_addr : List ℕ
    after_addr = hex_all l.payload (hex c rest)

    after_length : List ℕ
    after_length = hex_all (addr_bytes l.kind l.addr) after_addr

check_sum-before_checksum :
    (l : Line) (c : ℕ) (rest : List ℕ)
    → c < 256
    → check_sum (status l.kind) (before_checksum l (hex c rest))
      ≡ ret (if c == checksum l then status l.kind else bad_chks) (before_checksum l (hex c rest))
unfolding check_sum checksum
check_sum-before_checksum l c rest h = ground (arith, hex2_bin-hex c rest h)

-- `srec_decode` on a line of the format that carries the checksum byte `c`, behind any text with no
-- 'S' in it and before any other text: it returns the code of the line's type if `c` is the right
-- checksum and SREC_E_BADCHKS otherwise. In both cases `*count`, `*addr` and the stored data are
-- those of the line.
pub srec_decode-render :
    (junk rest : List ℕ) (l : Line) (c : ℕ) (d : Decoder)
    → NoS junk
    → IsLine l
    → c < 256
    → srec_decode (junk ++ render l c rest) d
      ≡ ret (if c == checksum l then status l.kind else bad_chks) (before_checksum l (hex c rest))
unfolding srec_decode
srec_decode-render junk rest l c d j v h =
    rw (skip_to_s-NoS junk _ j)
      (decode-render l c rest d.count d.addr v ∙ check_sum-before_checksum l c rest h)

-- The empty line.
pub srec_decode-nil :
    (d : Decoder) → srec_decode [] d ≡ ret empty (record d { input = []; chksum = 0; bytes = [] })
unfolding srec_decode skip_to_s decode unless_empty
srec_decode-nil d = refl
