-- ===== src/Srec/Tests.antt =====
-- The decoder on lines of include/s_record.h, and the theorems at concrete lines.
use Prim.Native.Char.{code}
use Prim.Native.String.{String}
use armboot.Prelude.{ℕ, ◌≡◌, ◌≤◌, refl, true, List, [], ◌∷◌, ◌++◌, arith, length}
use armboot.Prelude.Int.{pos, is_negative}
use armboot.Srec.{
  Status, data2, end4, bad_chks, no_srec, empty, Decoder, Step, ret, hex1_bin, hex2_bin, skip_to_s,
  unless_empty, next_char, next_byte, read_count, record_type, addr_byte, read_address, read_data,
  check_sum, decode, srec_decode,
}
use armboot.Srec.Line.{Line, s1, s3, IsLine, checksum, total, render}
use armboot.Srec.Decode.{before_checksum, srec_decode-render}
use armboot.Srec.Bounds.{outcome, srec_decode-le-max_data}
use armboot.Srec.Short.{short_line, after_short, srec_decode-short_line}

abbrev codes : String → List ℕ
codes String.[] = []
codes (String.◌∷◌ c s) = code c ∷ codes s

abbrev fresh : Decoder
fresh = record { input = []; chksum = 0; count = pos 0; addr = 0; bytes = [] }

abbrev code_of : Step Status → Status
code_of (Step.go s _) = s
code_of (ret s _) = s

lines :
    (code_of (srec_decode (codes "S70500000000FA") fresh) ≡ end4)
    × (code_of (srec_decode (codes "S70500000000FB") fresh) ≡ bad_chks)
    × (code_of (srec_decode (codes "S705000000") fresh) ≡ no_srec)
    × (code_of (srec_decode (codes "no record") fresh) ≡ empty)
    × ((outcome (srec_decode (codes "S1051000aBCd72") fresh)).bytes ≡ 0xab ∷ 0xcd ∷ [])
unfolding srec_decode decode hex1_bin hex2_bin skip_to_s unless_empty next_char next_byte read_count
    record_type addr_byte read_address read_data check_sum
lines = (refl, refl, refl, refl, refl)

abbrev two_bytes : Line
two_bytes = record { kind = s3; addr = 0x440; payload = 0x3c ∷ 0x08 ∷ [] }

two_bytes-IsLine : IsLine two_bytes
two_bytes-IsLine = omega arith

srec_decode-render_example :
    srec_decode (codes "> " ++ render two_bytes 0x70 []) fresh
    ≡ ret Status.data4 (before_checksum two_bytes (codes "70"))
unfolding checksum total
srec_decode-render_example =
    srec_decode-render (codes "> ") [] two_bytes 0x70 fresh (omega arith) two_bytes-IsLine
      (omega arith)

srec_decode-short_line_example :
    (srec_decode (short_line s1 2 0 []) fresh ≡ ret data2 (after_short s1 2 0 []))
    × (is_negative (after_short s1 2 0 []).count ≡ true)
srec_decode-short_line_example =
    srec_decode-short_line s1 2 0 [] (λ e. cc) (omega arith) (omega arith) [] fresh tt

data_fits : length (outcome (srec_decode (codes "S1051000aBCd72") fresh)).bytes ≤ 252
data_fits = srec_decode-le-max_data (codes "S1051000aBCd72") fresh
