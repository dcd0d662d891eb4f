-- ===== src/Serial/Text.antt =====
-- common/cmd_boot.c: `read_record` on a line of text whose bytes do not come early, and the record
-- that the decoder makes of it.
use armboot.Prelude.{
  ℕ, zero, suc, ◌+◌, ◌*◌, ◌%◌, ◌/◌, ◌<◌, ◌≤◌, ◌≡◌, ◌∙◌, ◌⊎◌, inl, inr, refl, ap, false, List, [],
  ◌∷◌, ◌++◌, append-nil, append_assoc, arith, done, ==_ne, length,
}
use armboot.Srec.Line.{
  Kind, s0, s1, s2, s3, s5, s7, s8, s9, digit, width, Line, IsLine, PayloadFits, hex_digit, hex,
  hex_all, addr_bytes, length_field, render,
}
use armboot.Serial.{Byte, ctrlc, line, read_chars, max_rec_len, read_record}

-- A byte that is not waiting when the line is polled.
abbrev pub late : ℕ → Byte
late c = record { code = c; waiting = false }

-- A character of a record.
abbrev pub IsPlain : ℕ → Type 0
IsPlain c = 48 ≤ c

abbrev pub ArePlain : List ℕ → Type 0
ArePlain [] = Unit {0}
ArePlain (c ∷ cs) = IsPlain c × ArePlain cs

abbrev pub IsStop : ℕ → Type 0
IsStop c = (c ≡ b'\r') ⊎ (c ≡ b'\n')

-- The text, in front of a rest of the line that may begin with any byte behind the end of line.
unfoldable pub on_line : List ℕ → List Byte → List Byte
on_line [] bs = bs
on_line (c ∷ cs) bs = late c ∷ on_line cs bs

abbrev pub text_line : List ℕ → ℕ → List Byte → List Byte
text_line cs c bs = on_line cs (late c ∷ bs)

pub ctrlc-text_line :
    (cs : List ℕ) (c : ℕ) (bs : List Byte) → ctrlc (text_line cs c bs) ≡ (false, text_line cs c bs)
unfolding ctrlc on_line
ctrlc-text_line [] c bs = refl
ctrlc-text_line (x ∷ cs) c bs = refl

pub read_chars-text_line :
    (cs out : List ℕ) (c len : ℕ) (bs : List Byte)
    → length cs < len
    → ArePlain cs
    → IsStop c
    → read_chars len out (text_line cs c bs) ≡ done (line (out ++ cs), bs)
unfolding read_chars on_line
read_chars-text_line [] out c zero bs lt h e = absurd (omega arith)
read_chars-text_line (x ∷ cs) out c zero bs lt h e = absurd (omega arith)
read_chars-text_line [] out c (suc len) bs lt h (inl e) = rw (e, append-nil) refl
read_chars-text_line [] out c (suc len) bs lt h (inr e) = rw (e, append-nil) refl
read_chars-text_line (x ∷ cs) out c (suc len) bs lt h e =
    rw
      (
        ==_ne x 13 (λ q. absurd (omega (arith, q, h.0))),
        ==_ne x 10 (λ q. absurd (omega (arith, q, h.0))),
        ==_ne x 0 (λ q. absurd (omega (arith, q, h.0))),
        ==_ne x 3 (λ q. absurd (omega (arith, q, h.0))),
      )
      (rw (ctrlc-text_line cs c bs) (
        read_chars-text_line cs (out ++ x ∷ []) c len bs (omega arith) h.1 e
        ∙ ap (λ t. done (line t, bs)) (append_assoc out (x ∷ []) cs)))

pub read_record-text_line :
    (cs : List ℕ) (c : ℕ) (bs : List Byte)
    → length cs < max_rec_len
    → ArePlain cs
    → IsStop c
    → read_record (text_line cs c bs) (max_rec_len + 1) ≡ done (line cs, bs)
unfolding read_record
read_record-text_line cs c bs lt h e = read_chars-text_line cs [] c max_rec_len bs lt h e

hex_digit-IsPlain : (n : ℕ) → IsPlain (hex_digit n)
hex_digit-IsPlain n = ground arith

hex_all-ArePlain : (bs rest : List ℕ) → ArePlain rest → ArePlain (hex_all bs rest)
hex_all-ArePlain [] rest h = h
hex_all-ArePlain (b ∷ bs) rest h =
    (hex_digit-IsPlain (b / 16), (hex_digit-IsPlain (b % 16), hex_all-ArePlain bs rest h))

length-hex_all : (bs rest : List ℕ) → length (hex_all bs rest) ≡ 2 * length bs + length rest
length-hex_all [] rest = omega arith
length-hex_all (b ∷ bs) rest = omega (arith, length-hex_all bs rest)

digit-IsPlain : (k : Kind) → IsPlain (digit k)
digit-IsPlain s0 = omega arith
digit-IsPlain s1 = omega arith
digit-IsPlain s2 = omega arith
digit-IsPlain s3 = omega arith
digit-IsPlain s5 = omega arith
digit-IsPlain s7 = omega arith
digit-IsPlain s8 = omega arith
digit-IsPlain s9 = omega arith

pub render-ArePlain : (l : Line) (c : ℕ) → ArePlain (render l c [])
render-ArePlain l c = (
  omega arith,
  (
    digit-IsPlain l.kind,
    (
      hex_digit-IsPlain (length_field l / 16),
      (
        hex_digit-IsPlain (length_field l % 16),
        hex_all-ArePlain (addr_bytes l.kind l.addr) (hex_all l.payload (hex c [])) (
            hex_all-ArePlain l.payload (hex c [])
              (hex_digit-IsPlain (c / 16), (hex_digit-IsPlain (c % 16), tt))),
      ),
    ),
  ),
)

length-payload : (k : Kind) (bs : List ℕ) → PayloadFits k bs → width k + length bs + 1 < 256
length-payload s5 bs h = rw h (omega arith)
length-payload s0 bs h = h
length-payload s1 bs h = h
length-payload s2 bs h = h
length-payload s3 bs h = h
length-payload s7 bs h = h
length-payload s8 bs h = h
length-payload s9 bs h = h

width-pos : (k : Kind) (a : ℕ) → length (addr_bytes k a) ≤ width k
width-pos s2 a = omega arith
width-pos s8 a = omega arith
width-pos s3 a = omega arith
width-pos s7 a = omega arith
width-pos s0 a = omega arith
width-pos s1 a = omega arith
width-pos s5 a = omega arith
width-pos s9 a = omega arith

-- A record fits the buffer.
pub length-render : (l : Line) (c : ℕ) → IsLine l → length (render l c []) < max_rec_len
length-render l c v = omega (
  arith,
  length-hex_all (addr_bytes l.kind l.addr) (hex_all l.payload (hex c [])),
  length-hex_all l.payload (hex c []),
  length-payload l.kind l.payload v.payload_fits,
  width-pos l.kind l.addr,
)
