-- ===== src/Net/Header.antt =====
-- net/net.c: addresses and checksums as `NetSetIP` writes them and `NetReceive` reads them.
use armboot.Prelude.{ℕ, ◌+◌, ◌-◌, ◌*◌, ◌%◌, ◌/◌, ◌^◌, ◌<◌, ◌≡◌, refl, true, List, [], ◌∷◌, arith}
use armboot.Net.{Ether, Net, low16, ip_bytes, fold, sum_words, net_cksum, net_cksum_ok}
use armboot.Net.Send.{ip_fields, ether_header}

-- A sum with the complement of its folding folds to 0xffff.
cksum_complement :
    (s : ℕ)
    → s < 2 ^ 20
    → (fold (fold (s + (2 ^ 16 - 1 - fold (fold s) % 2 ^ 16))) % 2 ^ 16 + 1) / 2 % 2 ^ 15 ≡ 0
cksum_complement s h = omega arith

-- Four bytes in network order are the address again.
pub ip_value :
    (ip : ℕ)
    → ip < 2 ^ 32
    → (((0 * 2 ^ 8 % 2 ^ 32 + ip / 2 ^ 24 % 256) * 2 ^ 8 % 2 ^ 32
                + ip * 2 ^ 8 % 2 ^ 32 / 2 ^ 24 % 256)
              * 2 ^ 8
              % 2 ^ 32
            + ip * 2 ^ 8 % 2 ^ 32 * 2 ^ 8 % 2 ^ 32 / 2 ^ 24 % 256)
          * 2 ^ 8
          % 2 ^ 32
        + ip * 2 ^ 8 % 2 ^ 32 * 2 ^ 8 % 2 ^ 32 * 2 ^ 8 % 2 ^ 32 / 2 ^ 24 % 256
      ≡ ip
ip_value ip h = omega arith

-- A packet with the two bytes of its IP checksum.
abbrev pub udp_frame : Net → Ether → ℕ → ℕ → ℕ → ℕ → ℕ → List ℕ → List ℕ → List ℕ
udp_frame net addr dest dport sport len u sum payload =
    ether_header net addr 0x0800 (ip_fields net dest dport sport len u sum payload)

module _ (a : Net) (addr : Ether) (dest dport sport len u : ℕ) (payload : List ℕ) where
  -- The sum of the other words of the IP header.
  others : ℕ
  others = sum_words 10 (udp_frame a addr dest dport sport len u (0 ∷ 0 ∷ []) payload) 14

  others-lt : others < 2 ^ 20
  unfolding others sum_words ip_bytes
  others-lt = omega arith

  others-cleared : sum_words 10 (ip_fields a dest dport sport len u (0 ∷ 0 ∷ []) payload) 0 ≡ others
  unfolding others sum_words ip_bytes
  others-cleared = refl

  others-sum :
      (s : ℕ)
      → s < 2 ^ 16
      → sum_words 10 (udp_frame a addr dest dport sport len u (low16 s) payload) 14 ≡ others + s
  unfolding others sum_words ip_bytes
  others-sum s h = omega arith

  abbrev pub checksum : ℕ
  checksum = 2 ^ 16 - 1 - net_cksum (ip_fields a dest dport sport len u (0 ∷ 0 ∷ []) payload) 0 10

  -- The checksum that `NetSetIP` stores is right.
  pub net_cksum_ok-checksum :
      net_cksum_ok (udp_frame a addr dest dport sport len u (low16 checksum) payload) 14 10 ≡ true
  unfolding net_cksum_ok net_cksum
  net_cksum_ok-checksum =
      let s = 2 ^ 16 - 1 - fold (fold others) % 2 ^ 16 in
      rw (others-cleared)
        (rw (others-sum s (omega arith)) (rw (cksum_complement others others-lt) refl))
