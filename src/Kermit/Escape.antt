-- ===== src/Kermit/Escape.antt =====
-- common/cmd_boot.c: the escapes of the data in a packet, `k_data_char` and `ktrans`.
use armboot.Prelude.{
  ℕ, ◌+◌, ◌-◌, ◌%◌, ◌/◌, ◌<◌, ◌≡◌, refl, Bool, true, false, ◌||◌, List, [], ◌∷◌, arith, ◌==◌, ltb,
  if◌then◌else◌,
}
use armboot.Kermit.{Sink, k_escape, ktrans, bin_data_char, k_data_char}
use armboot.Kermit.Frame.{AreBytes}

-- The bytes of the file, as the sender escapes them.
pub is_control : ℕ → Bool
is_control c = ltb (c % 128) 32 || c % 128 == 127

pub flip : ℕ → ℕ
flip c = if c / 64 % 2 == 0 then c + 64 else c - 64

unfoldable pub encode : List ℕ → List ℕ
unfolding is_control flip
encode [] = []
encode (c ∷ cs) =
    if is_control c
    then k_escape ∷ flip c ∷ encode cs
    else if c == k_escape
    then k_escape ∷ k_escape ∷ encode cs
    else c ∷ encode cs

abbrev pub AreOctets : List ℕ → Type 0
AreOctets [] = Unit {0}
AreOctets (c ∷ cs) = (c < 256) × AreOctets cs

pub encode-AreBytes : (cs : List ℕ) → AreOctets cs → AreBytes (encode cs)
unfolding encode
encode-AreBytes [] h = tt
encode-AreBytes (c ∷ cs) h = ground (arith, encode-AreBytes cs h.1)

-- What a run of characters does to the sink.
unfoldable pub feed : List ℕ → Sink → Sink
feed [] s = s
feed (c ∷ cs) s = feed cs (k_data_char k_escape c s)

-- The bytes of a file, one after the other: addresses are of 32 bits.
unfoldable pub stored : List ℕ → Sink → Sink
unfolding bin_data_char
stored [] s = s
stored (c ∷ cs) s = stored cs (bin_data_char c s)

-- No escape is pending.
abbrev pub quiet : Sink → Sink
quiet s = record s { escape = false }

bin_data_char-quiet : (c : ℕ) (s : Sink) → bin_data_char c (quiet s) ≡ quiet (bin_data_char c s)
unfolding bin_data_char
bin_data_char-quiet c s = ground arith

ktrans-flip : (c : ℕ) → c < 256 → is_control c ≡ true → ktrans (flip c) ≡ c
unfolding ktrans flip is_control
ktrans-flip c h e = ground arith

ktrans-escape : ktrans k_escape ≡ k_escape
unfolding ktrans
ktrans-escape = refl

escaped_char :
    (c : ℕ) (s : Sink)
    → k_data_char k_escape c (k_data_char k_escape k_escape (quiet s))
      ≡ quiet (bin_data_char (ktrans c) s)
unfolding k_data_char bin_data_char
escaped_char c s = ground arith

plain_char :
    (c : ℕ) (s : Sink)
    → (c == k_escape) ≡ false
    → k_data_char k_escape c (quiet s) ≡ quiet (bin_data_char c s)
unfolding k_data_char
plain_char c s e = rw e (bin_data_char-quiet c s)

-- The escapes are undone: the escaped file is stored as the file itself.
pub feed-encode :
    (cs : List ℕ) (s : Sink) → AreOctets cs → feed (encode cs) (quiet s) ≡ quiet (stored cs s)
unfolding feed encode stored
feed-encode [] s h = refl
feed-encode (c ∷ cs) s h = ground (
  arith,
  escaped_char (flip c) s,
  escaped_char k_escape s,
  ktrans-escape,
  plain_char c s,
  ktrans-flip c h.0,
  feed-encode cs (bin_data_char c s) h.1,
)
