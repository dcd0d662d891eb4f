-- ===== src/Srec/Decode/Address.antt =====
-- The address of a line, and what is in front of it, in common/s_record.c.
use armboot.Prelude.{
  ℕ, ◌+◌, ◌*◌, ◌/◌, ◌%◌, ◌^◌, ◌<◌, ◌≡◌, List, [], ◌∷◌, ◌++◌, append-nil, append_assoc, arith,
  length,
}
use armboot.Prelude.Int.{ℤ, pos}
use armboot.Srec.{
  Decoder, go, addr_byte, add_addr, ◌>>◌, ◌>>=◌, next_byte, record_type, read_address, read_data,
}
use armboot.Srec.Line.{
  Kind, s0, s1, s2, s3, s5, s7, s8, digit, width, status, AllBytes, PayloadFits, hex, hex_all,
  addr_bytes, sum,
}
use armboot.Srec.Hex.{hex2_bin-hex}

abbrev pub at : List ℕ → ℕ → ℤ → ℕ → List ℕ → Decoder
at i k n a bs = record { input = i; chksum = k; count = n; addr = a; bytes = bs }

pub next_byte-hex :
    (b : ℕ) (rest : List ℕ) (k : ℕ) (n : ℤ) (a : ℕ) (out : List ℕ)
    → b < 256
    → next_byte (at (hex b rest) k n a out) ≡ go b (at rest ((k + b) % 256) n a out)
unfolding next_byte
next_byte-hex b rest k n a out h = ground (arith, hex2_bin-hex b rest h)

pub read_data-hex_all :
    (bs rest : List ℕ) (k : ℕ) (n : ℤ) (a : ℕ) (out : List ℕ)
    → k < 256
    → AllBytes bs
    → read_data (length bs) (at (hex_all bs rest) k n a out)
      ≡ go tt (at rest ((k + sum bs) % 256) n a (out ++ bs))
unfolding read_data
read_data-hex_all [] rest k n a out hk hs =
    let e : k ≡ (k + 0) % 256 = omega arith in rw (append-nil, ← e)
read_data-hex_all (b ∷ bs) rest k n a out hk hs =
    let e : ((k + b) % 256 + sum bs) % 256 ≡ (k + (b + sum bs)) % 256 = omega arith in
    ground (
      arith,
      next_byte-hex b (hex_all bs rest) k n a out hs.0,
      read_data-hex_all bs rest ((k + b) % 256) n a (out ++ b ∷ []) (omega arith) hs.1,
      append_assoc out (b ∷ []) bs,
    )

addr_byte-hex :
    (b : ℕ) (rest : List ℕ) (k : ℕ) (n : ℤ) (a : ℕ) (out : List ℕ)
    → b < 256
    → a * 256 + b < 2 ^ 32
    → addr_byte (at (hex b rest) k n a out) ≡ go tt (at rest ((k + b) % 256) n (a * 256 + b) out)
unfolding addr_byte
addr_byte-hex b rest k n a out hb ha = ground (arith, next_byte-hex b rest k n a out hb)

-- The two low bytes, which every address field ends in.
addr_byte_twice :
    (b c : ℕ) (rest : List ℕ) (k : ℕ) (n : ℤ) (a : ℕ) (out : List ℕ)
    → b < 256
    → c < 256
    → (a * 256 + b) * 256 + c < 2 ^ 32
    → (addr_byte >> addr_byte) (at (hex b (hex c rest)) k n a out)
      ≡ go tt (at rest ((k + (b + (c + 0))) % 256) n ((a * 256 + b) * 256 + c) out)
addr_byte_twice b c rest k n a out hb hc ha = ground (
  arith,
  addr_byte-hex b (hex c rest) k n a out hb (omega arith),
  addr_byte-hex c rest ((k + b) % 256) n (a * 256 + b) out hc ha,
)

addr_byte_thrice :
    (b c e : ℕ) (rest : List ℕ) (k : ℕ) (n : ℤ) (a : ℕ) (out : List ℕ)
    → b < 256
    → c < 256
    → e < 256
    → ((a * 256 + b) * 256 + c) * 256 + e < 2 ^ 32
    → (addr_byte >> (addr_byte >> addr_byte)) (at (hex b (hex c (hex e rest))) k n a out)
      ≡ go tt
          (at rest ((k + (b + (c + (e + 0)))) % 256) n (((a * 256 + b) * 256 + c) * 256 + e) out)
addr_byte_thrice b c e rest k n a out hb hc he ha = ground (
  arith,
  addr_byte-hex b (hex c (hex e rest)) k n a out hb (omega arith),
  addr_byte_twice c e rest ((k + b) % 256) n (a * 256 + b) out hc he ha,
)

module _ (a : ℕ) (rest : List ℕ) (k : ℕ) (n : ℤ) (out : List ℕ) where
  address_two :
      a < 256 ^ 2
      → (addr_byte >> addr_byte) (at (hex_all (addr_bytes s1 a) rest) k n 0 out)
        ≡ go tt (at rest ((k + sum (addr_bytes s1 a)) % 256) n a out)
  address_two h =
      ground (arith, addr_byte_twice (a / 256) (a % 256) rest k n 0 out (omega arith) (omega arith))

  address_three :
      a < 256 ^ 3
      → (addr_byte >> (addr_byte >> addr_byte)) (at (hex_all (addr_bytes s2 a) rest) k n 0 out)
        ≡ go tt (at rest ((k + sum (addr_bytes s2 a)) % 256) n a out)
  address_three h = ground (
    arith,
    addr_byte_thrice (a / 65536) (a / 256 % 256) (a % 256) rest k n 0 out (omega arith)
        (omega arith) (omega arith),
  )

  address_four :
      a < 256 ^ 4
      → (do w ← next_byte; add_addr w; addr_byte; addr_byte; addr_byte)
          (at (hex_all (addr_bytes s3 a) rest) k n 0 out)
        ≡ go tt (at rest ((k + sum (addr_bytes s3 a)) % 256) n a out)
  address_four h = ground (
    arith,
    next_byte-hex (a / 16777216) (hex (a / 65536 % 256) (hex (a / 256 % 256) (hex (a % 256) rest)))
        k n 0 out (omega arith),
    addr_byte_thrice (a / 65536 % 256) (a / 256 % 256) (a % 256) rest ((k + a / 16777216) % 256) n
        (a / 16777216) out (omega arith) (omega arith) (omega arith),
  )

  pub read_address-digit :
      (t : Kind)
      → a < 256 ^ width t
      → read_address (digit t) (at (hex_all (addr_bytes t a) rest) k n 0 out)
        ≡ go tt (at rest ((k + sum (addr_bytes t a)) % 256) n a out)
  unfolding read_address
  read_address-digit s2 h = address_three h
  read_address-digit s8 h = address_three h
  read_address-digit s3 h = address_four h
  read_address-digit s7 h = address_four h
  read_address-digit _ h = address_two h

-- What the first `switch` leaves in `*count` is the number of data bytes.
pub record_type-digit :
    (t : Kind) (bs i : List ℕ) (k a : ℕ) (out : List ℕ)
    → PayloadFits t bs
    → record_type (digit t) (at i k (pos (width t + length bs + 1)) a out)
      ≡ go (status t) (at i k (pos (length bs)) a out)
unfolding record_type
record_type-digit s5 bs i k a out h = rw h
record_type-digit s0 bs i k a out h = ground arith
record_type-digit _ bs i k a out h = ground arith
