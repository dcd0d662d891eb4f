-- ===== src/Srec/Bounds.antt =====
-- How much the decoder of common/s_record.c stores, for every input.
use armboot.Prelude.{
  ℕ, zero, suc, ◌+◌, ◌%◌, ◌^◌, ◌≤◌, ◌<◌, ◌≡◌, refl, Bool, true, false, List, [], ◌∷◌, ◌++◌, some,
  arith, ◌==◌, ◌||◌, if◌then◌else◌, length, length-append, inl, inr, Option-cases,
}
use armboot.Prelude.Int.{rounds}
use armboot.Srec.{
  Status, Decoder, Step, M, go, ret, ◌>>=◌, ◌>>◌, hex1_bin, hex2_bin, unless_empty, next_char,
  next_byte, read_count, record_type, addr_byte, read_address, read_data, check_sum, decode,
  srec_decode, peek, advance,
}

-- `P` after going on, `Q` after a return.
abbrev Post : {A : Type 0} → (Decoder → Type 0) → (Decoder → Type 0) → Step A → Type 0
Post P Q (go _ d) = P d
Post P Q (ret _ d) = Q d

module _ (P Q R : Decoder → Type 0) where
  bind-Post :
      {A B : Type 0} (m : M A) (f : A → M B) (d : Decoder)
      → Post P Q (m d)
      → ((a : A) (d' : Decoder) → P d' → Post R Q (f a d'))
      → Post R Q ((m >>= f) d)
  bind-Post {A} {B} m f d h k = after (m d) h
    where
      after :
          (s : Step A)
          → Post P Q s
          → Post R Q (elim s as (λ _. Step B) [ go a d' ↦ f a d' | ret t d' ↦ ret t d' ])
      after (go a d') h = k a d' h
      after (ret t d') h = h

hex1_bin-lt : (c v : ℕ) → hex1_bin c ≡ some v → v < 16
unfolding hex1_bin
hex1_bin-lt c v h = ground arith

pub hex2_bin-lt : (s : List ℕ) (v : ℕ) → hex2_bin s ≡ some v → v < 256
unfolding hex2_bin
hex2_bin-lt s v h = elim (Option-cases (hex1_bin (peek s))) [
  | inl e ↦ absurd (ground arith)
  | inr (i, e) ↦ elim (Option-cases (hex1_bin (peek (advance s)))) [
    | inl e' ↦ absurd (ground arith)
    | inr (j, e') ↦ ground (arith, hex1_bin-lt _ i e, hex1_bin-lt _ j e')
  ]
]

abbrev max_data : ℕ
max_data = 252

abbrev Fits : Decoder → Type 0
Fits d = length d.bytes ≤ max_data

-- Nothing stored yet.
abbrev Fresh : Decoder → Type 0
Fresh d = length d.bytes ≡ 0

-- Nothing stored yet, and the count leaves room for an address and a checksum.
abbrev Counted : Decoder → Type 0
Counted d = (length d.bytes ≡ 0) × (rounds d.count ≤ max_data)

read_count-Post :
    (d : Decoder) → Fresh d → Post (λ d'. Fresh d' × (rounds d'.count < 256)) Fits (read_count d)
unfolding read_count
read_count-Post d h = elim (Option-cases (hex2_bin d.input)) [
  | inl e ↦ rw (e, Post) (omega arith)
  | inr (v, e) ↦ rw (e, Post) (h, hex2_bin-lt d.input v e)
]

record_type-Post :
    (v : ℕ) (d : Decoder) → Fresh d → rounds d.count < 256 → Post Counted Fits (record_type v d)
unfolding record_type
record_type-Post v d h k = ground arith

next_byte-Post : (d : Decoder) → Counted d → Post Counted Fits (next_byte d)
unfolding next_byte
next_byte-Post d h = ground arith

addr_byte-Post : (d : Decoder) → Counted d → Post Counted Fits (addr_byte d)
unfolding addr_byte
addr_byte-Post d h = ground (arith, next_byte-Post d h)

module _ {A : Type 0} (P Q : Decoder → Type 0) where
  if-Post :
      (b : Bool) (m k : M A) (d : Decoder)
      → Post P Q (m d)
      → Post P Q (k d)
      → Post P Q ((if b then m else k) d)
  if-Post true m k d h h' = h
  if-Post false m k d h h' = h'

addr_byte_twice-Post : (d : Decoder) → Counted d → Post Counted Fits ((addr_byte >> addr_byte) d)
addr_byte_twice-Post d h =
    bind-Post Counted Fits Counted addr_byte _ d (addr_byte-Post d h) (λ _ d'. addr_byte-Post d')

addr_byte_thrice-Post :
    (d : Decoder) → Counted d → Post Counted Fits ((addr_byte >> (addr_byte >> addr_byte)) d)
addr_byte_thrice-Post d h =
    bind-Post Counted Fits Counted addr_byte _ d (addr_byte-Post d h)
      (λ _ d'. addr_byte_twice-Post d')

read_address-Post : (v : ℕ) (d : Decoder) → Counted d → Post Counted Fits (read_address v d)
unfolding read_address
read_address-Post v d h =
    if-Post Counted Fits (v == b'3' || v == b'7') _ _ d
      (bind-Post Counted Fits Counted next_byte _ d (next_byte-Post d h)
        (λ w d' h'. addr_byte_thrice-Post (record d' { addr = (d'.addr + w) % 2 ^ 32 }) h'))
      (if-Post Counted Fits (v == b'2' || v == b'8') _ _ d (addr_byte_thrice-Post d h) (
        if-Post Counted Fits (v == b'0' || v == b'1' || v == b'5' || v == b'9') _ _ d
          (addr_byte_twice-Post d h) (ground arith)))

abbrev Room : ℕ → Decoder → Type 0
Room n d = length d.bytes + n ≤ max_data

next_byte-Room : (n : ℕ) (d : Decoder) → Room n d → Post (Room n) Fits (next_byte d)
unfolding next_byte
next_byte-Room n d h = ground arith

-- A loop of `n` rounds stores at most `n` bytes.
read_data-Post : (n : ℕ) (d : Decoder) → Room n d → Post Fits Fits (read_data n d)
unfolding read_data
read_data-Post zero d h = omega arith
read_data-Post (suc n) d h =
    bind-Post (Room (suc n)) Fits Fits next_byte _ d (next_byte-Room (suc n) d h) (λ v d' r.
      read_data-Post n (record d' { bytes = d'.bytes ++ v ∷ [] })
        (omega (arith, length-append d'.bytes (v ∷ []))))

check_sum-Post : (t : Status) (d : Decoder) → Fits d → Post Fits Fits (check_sum t d)
unfolding check_sum
check_sum-Post t d h = ground arith

unless_empty-Post : (d : Decoder) → Fresh d → Post Fresh Fits (unless_empty d)
unfolding unless_empty
unless_empty-Post d h = ground arith

next_char-Post : (d : Decoder) → Fresh d → Post Fresh Fits (next_char d)
unfolding next_char
next_char-Post d h = h

-- The part behind the address.
decode_tail-Post :
    (t : Status) (d : Decoder)
    → Counted d
    → Post Fits Fits (((λ e. read_data (rounds e.count) e) >> check_sum t) d)
decode_tail-Post t d h =
    bind-Post Fits Fits Fits (λ e. read_data (rounds e.count) e) _ d
      (read_data-Post (rounds d.count) d (omega arith)) (λ _. check_sum-Post t)

decode-Post : (d : Decoder) → Fresh d → Post Fits Fits (decode d)
unfolding decode
decode-Post d h = bind-Post Fresh Fits Fits unless_empty _ d (unless_empty-Post d h) λ _ d₁ h₁.
    bind-Post Fresh Fits Fits next_char _ d₁ (next_char-Post d₁ h₁) λ v d₂ h₂.
      bind-Post (λ e. Fresh e × (rounds e.count < 256)) Fits Fits read_count _ d₂
        (read_count-Post d₂ h₂)
        λ _ d₃ h₃.
          bind-Post Counted Fits Fits (record_type v) _ d₃ (record_type-Post v d₃ h₃.0 h₃.1)
            λ t d₄ h₄.
              bind-Post Counted Fits Fits (read_address v) _ (record d₄ { addr = 0 })
                (read_address-Post v (record d₄ { addr = 0 }) h₄) λ _ d₅. decode_tail-Post t d₅

abbrev pub outcome : {A : Type 0} → Step A → Decoder
outcome (go _ d) = d
outcome (ret _ d) = d

outcome-Fits : (s : Step Status) → Post Fits Fits s → Fits (outcome s)
outcome-Fits (go _ d) h = h
outcome-Fits (ret _ d) h = h

-- Whatever the line holds, and whatever `*count` and `*addr` were, `srec_decode` stores at most 252
-- bytes, which is less than SREC_MAXBINLEN.
pub srec_decode-le-max_data :
    (input : List ℕ) (d : Decoder) → length (outcome (srec_decode input d)).bytes ≤ 252
unfolding srec_decode
srec_decode-le-max_data input d = outcome-Fits _ (decode-Post _ refl)
