-- ===== src/Kermit/Stage.antt =====
-- common/cmd_boot.c: how far a download is, and what a packet of data does to it.
use armboot.Prelude.{
  ℕ, ◌+◌, ◌^◌, ◌<◌, ◌≤◌, ◌≡◌, ◌∙◌, refl, ap, sym, subst, false, List, [], ◌∷◌, ◌++◌, arith,
  append_assoc, append-nil, ==_ne, ==_refl, length, length-append,
}
use armboot.Kermit.{Sink, write, bin_data_char}
use armboot.Kermit.Escape.{feed, stored, quiet, encode, AreOctets, feed-encode}

-- The memory holds these bytes from an address on.
abbrev pub Holds : (ℕ → ℕ) → ℕ → List ℕ → Type 0
Holds m a [] = Unit {0}
Holds m a (c ∷ cs) = (m a ≡ c) × Holds m (a + 1) cs

pub Holds-write :
    (cs : List ℕ) (m : ℕ → ℕ) (a p v : ℕ)
    → a + length cs ≤ p
    → Holds m a cs
    → Holds (write m p v) a cs
Holds-write [] m a p v le h = tt
Holds-write (c ∷ cs) m a p v le h = (
  rw (==_ne a p (λ e. absurd (omega (arith, e)))) h.0,
  Holds-write cs m (a + 1) p v (omega arith) h.1,
)

Holds-snoc :
    (cs : List ℕ) (m : ℕ → ℕ) (a p v : ℕ)
    → a + length cs ≡ p
    → Holds m a cs
    → Holds (write m p v) a (cs ++ v ∷ [])
Holds-snoc [] m a p v e h = let q : a ≡ p = omega (arith, e) in (rw (q, ==_refl), tt)
Holds-snoc (c ∷ cs) m a p v e h = (
  rw (==_ne a p (λ q. absurd (omega (arith, q, e)))) h.0,
  Holds-snoc cs m (a + 1) p v (omega (arith, e)) h.1,
)

-- So many bytes of a file have arrived, and no escape is pending.
pub record Has (s : Sink) (start : ℕ) (file : List ℕ) : Type 0 where
  pub state : s.os_state ≡ 0
  pub addr : s.os_addr ≡ start + length file
  pub escape : s.escape ≡ false
  pub holds : Holds s.memory start file

pub stored-Has :
    (cs : List ℕ) (s : Sink) (start : ℕ) (file : List ℕ)
    → start + length file + length cs < 2 ^ 32
    → Has (quiet s) start file
    → Has (quiet (stored cs s)) start (file ++ cs)
unfolding stored bin_data_char
stored-Has [] s start file lt h = rw append-nil h
stored-Has (c ∷ cs) s start file lt h =
    let step : Has (quiet (bin_data_char c s)) start (file ++ c ∷ []) = record {
      state = ground (arith, h.state);
      addr = ground (arith, h.state, h.addr, length-append file (c ∷ []));
      escape = refl;
      holds =
          rw h.state (Holds-snoc file s.memory start s.os_addr c (omega (arith, h.addr)) h.holds);
    } in
    let rest =
      stored-Has cs (bin_data_char c s) start (file ++ c ∷ [])
        (omega (arith, length-append file (c ∷ []))) step in
    subst (λ f. Has (quiet (stored (c ∷ cs) s)) start f) (append_assoc file (c ∷ []) cs) rest

quiet_lem : (s : Sink) → s.escape ≡ false → quiet s ≡ s
quiet_lem s e = ground (arith, e)

-- A packet's worth of escaped data.
pub feed-Has :
    (cs : List ℕ) (s : Sink) (start : ℕ) (file : List ℕ)
    → AreOctets cs
    → start + length file + length cs < 2 ^ 32
    → Has s start file
    → Has (feed (encode cs) s) start (file ++ cs)
feed-Has cs s start file octets lt h =
    let e = quiet_lem s h.escape in
    let same : feed (encode cs) s ≡ quiet (stored cs s) =
      ap (feed (encode cs)) (sym e) ∙ feed-encode cs s octets in
    subst (λ t. Has t start (file ++ cs)) (sym same)
      (stored-Has cs s start file lt (subst (λ t. Has t start file) (sym e) h))
