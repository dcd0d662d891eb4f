-- ===== src/Srec/Hex.antt =====
-- `hex2_bin` of common/s_record.c on the hexadecimal digits of the format.
use armboot.Prelude.{ℕ, ◌/◌, ◌%◌, ◌<◌, ◌≡◌, ap, List, some, arith}
use armboot.Srec.{hex1_bin, hex2_bin}
use armboot.Srec.Line.{hex_digit, hex}

pub hex1_bin-hex_digit : (n : ℕ) → n < 16 → hex1_bin (hex_digit n) ≡ some n
unfolding hex1_bin
hex1_bin-hex_digit n h = ground arith

pub hex2_bin-hex : (b : ℕ) (rest : List ℕ) → b < 256 → hex2_bin (hex b rest) ≡ some b
unfolding hex2_bin
hex2_bin-hex b rest h =
    rw (hex1_bin-hex_digit (b / 16) (omega arith), hex1_bin-hex_digit (b % 16) (omega arith))
      (ap some (omega arith))
