-- ===== src/Srec/Short.antt =====
-- Lines whose length field is too small to hold even the address and the checksum.
use armboot.Prelude.{
  ℕ, ◌+◌, ◌-◌, ◌%◌, ◌^◌, ◌<◌, ◌≡◌, ◌≢◌, ◌∙◌, refl, ap, true, List, [], ◌∷◌, ◌++◌, arith,
}
use armboot.Prelude.Int.{ℤ, pos, sub_ℕ, rounds, is_negative}
use armboot.Srec.{
  Decoder, go, ret, next_char, unless_empty, read_count, record_type, read_address, read_data,
  check_sum, decode, srec_decode,
}
use armboot.Srec.Line.{Kind, s0, s2, s5, digit, width, status, NoS, hex, hex_all, addr_bytes, sum}
use armboot.Srec.Hex.{hex2_bin-hex}
use armboot.Srec.Decode.{go-bind, unless_empty-digit, read_count-hex, skip_to_s-NoS}
use armboot.Srec.Decode.Address.{at, read_address-digit}

-- A line of type `t` with the length field `n` and the address `a`, no data, and a checksum that
-- is right for what stands in it.
abbrev pub short_checksum : Kind → ℕ → ℕ → ℕ
short_checksum t n a = 255 - (n + sum (addr_bytes t a)) % 256

abbrev pub short_line : Kind → ℕ → ℕ → List ℕ → List ℕ
short_line t n a rest =
    b'S' ∷ digit t ∷ hex n (hex_all (addr_bytes t a) (hex (short_checksum t n a) rest))

abbrev pub after_short : Kind → ℕ → ℕ → List ℕ → Decoder
after_short t n a rest =
    at (hex (short_checksum t n a) rest) ((n + sum (addr_bytes t a)) % 256) (sub_ℕ n (width t + 1))
      a []

record_type_short :
    (t : Kind) (n : ℕ) (i : List ℕ) (k a : ℕ)
    → t ≢ s5
    → record_type (digit t) (at i k (pos n) a [])
      ≡ go (status t) (at i k (sub_ℕ n (width t + 1)) a [])
unfolding record_type
record_type_short s5 n i k a h = absurd (h refl)
record_type_short s0 n i k a h = refl
record_type_short _ n i k a h = refl

rounds_short : (n w : ℕ) → n < w → (rounds (sub_ℕ n w) ≡ 0) × (is_negative (sub_ℕ n w) ≡ true)
rounds_short n w h = ground arith

module _ (t : Kind) (n a : ℕ) (rest : List ℕ) (ne : t ≢ s5) (short : n < width t + 1)
    (fits : a < 256 ^ width t) where
  n-lt : (t : Kind) → n < width t + 1 → n < 256
  n-lt s2 h = omega arith
  n-lt _ h = omega arith

  decode_short :
      (c : ℤ) (v : ℕ)
      → decode (
          at
            (digit t ∷ hex n (hex_all (addr_bytes t a) (hex (short_checksum t n a) rest)))
            0
            c
            v
            [])
        ≡ check_sum (status t) (after_short t n a rest)
  unfolding decode next_char read_data
  decode_short c v =
      go-bind unless_empty _ (unless_empty-digit t _ c v)
      ∙ go-bind read_count _ (read_count-hex n _ 0 c v [] (n-lt t short))
      ∙ go-bind (record_type (digit t)) _ (record_type_short t n _ _ v ne)
      ∙ go-bind (read_address (digit t)) _ (
          read_address-digit a (hex (short_checksum t n a) rest) _ (sub_ℕ n (width t + 1)) [] t
            fits)
      ∙ go-bind (λ d. read_data (rounds d.count) d) (λ _. check_sum (status t)) {d = left first}
          no_data
      ∙ ap (λ k. check_sum (status t) (left k)) sums
    where
      left : ℕ → Decoder
      left k = at (hex (short_checksum t n a) rest) k (sub_ℕ n (width t + 1)) a []

      sums : ((0 + n) % 256 + sum (addr_bytes t a)) % 256 ≡ (n + sum (addr_bytes t a)) % 256
      sums = omega arith

      first : ℕ
      first = ((0 + n) % 256 + sum (addr_bytes t a)) % 256

      no_data : read_data (rounds (sub_ℕ n (width t + 1))) (left first) ≡ go tt (left first)
      no_data = rw (rounds_short n (width t + 1) short).0

  check_sum_short :
      check_sum (status t) (after_short t n a rest) ≡ ret (status t) (after_short t n a rest)
  unfolding check_sum
  check_sum_short = ground (arith, hex2_bin-hex (short_checksum t n a) rest (omega arith))

  -- A line of any type but S5 whose length field is at most the width of its address field, with a
  -- checksum that is right for it: `srec_decode` accepts it, and leaves a negative `*count`.
  pub srec_decode-short_line :
      (junk : List ℕ) (d : Decoder)
      → NoS junk
      → (srec_decode (junk ++ short_line t n a rest) d ≡ ret (status t) (after_short t n a rest))
        × (is_negative (after_short t n a rest).count ≡ true)
  unfolding srec_decode
  srec_decode-short_line junk d j = (
    rw (skip_to_s-NoS junk _ j) (decode_short d.count d.addr ∙ check_sum_short),
    (rounds_short n (width t + 1) short).1,
  )
