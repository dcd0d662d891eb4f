-- ===== src/Net/Arp.antt =====
-- net/arp.c and net/net.c: a request for an Ethernet address, and the answer to it.
use armboot.Prelude.{
  ℕ, ◌^◌, ◌<◌, ◌≢◌, ◌≡◌, ◌∙◌, refl, ap, sym, Bool-cases, inl, inr, true, false, List, ◌==◌, ==_refl,
  ==_ne, if◌then◌else◌,
}
use armboot.Net.{Ether, Net, ip_bytes, read_ip, put_bytes}
use armboot.Net.Send.{arp_packet, arp_request, broadcast, no_ether}
use armboot.Net.Receive.{ignored, transmitted, notified, receive_arp, net_receive, same_ether}
use armboot.Net.Header.{ip_value}

-- The packet that answers a request as RFC 826 has it: the target is the station that asked.
abbrev pub proper_answer : Net → Net → List ℕ
proper_answer b a = arp_packet b a.our_ether 2 a.our_ether a.our_ip

-- What `NetReceive` makes of a request: sender and target are both the station that answers.
abbrev pub own_answer : Net → Net → List ℕ
own_answer b a = arp_packet b a.our_ether 2 b.our_ether b.our_ip

same_ether_refl : (e : Ether) → same_ether e e ≡ true
same_ether_refl e =
    rw (==_refl e.b0, ==_refl e.b1, ==_refl e.b2, ==_refl e.b3, ==_refl e.b4, ==_refl e.b5) refl

module _ (a b : Net) (ip_fits : b.our_ip < 2 ^ 32) (own : b.our_ip ≢ 0) where
  request_answered :
      net_receive b (arp_packet a broadcast 1 no_ether b.our_ip) 42
      ≡ (b, transmitted (own_answer b a))
  unfolding net_receive receive_arp read_ip ip_bytes put_bytes
  request_answered =
      rw (==_ne b.our_ip 0 own) (rw (ip_value b.our_ip ip_fits) (rw (==_refl b.our_ip) refl))

module _ (a b : Net) (a_fits : a.our_ip < 2 ^ 32) (b_fits : b.our_ip < 2 ^ 32) where
  own_answer-ignored : a.our_ip ≢ b.our_ip → net_receive a (own_answer b a) 42 ≡ (a, ignored)
  unfolding net_receive receive_arp read_ip ip_bytes
  own_answer-ignored differ =
      let e : (b.our_ip == a.our_ip) ≡ false = ==_ne b.our_ip a.our_ip (λ q. differ (sym q)) in
      rw (ip_value b.our_ip b_fits)
        (elim (Bool-cases (a.our_ip == 0)) [ inl z ↦ rw z refl | inr z ↦ rw z (rw e refl) ])

  proper_answer-taken :
      a.our_ip ≢ 0
      → net_receive a (proper_answer b a) 42 ≡ (record a { server_ether = b.our_ether }, notified)
  unfolding net_receive receive_arp read_ip ip_bytes
  proper_answer-taken own = rw (==_ne a.our_ip 0 own) (
      rw (ip_value a.our_ip a_fits) (rw (==_refl a.our_ip) (rw (same_ether_refl a.our_ether) refl)))

-- A station asks, with no gateway set, for the Ethernet address of its server, which is another
-- station with an address of its own. The server sends an answer, but one that names the server as
-- its target too: the station that asked ignores it, and waits on. An answer in the form of RFC 826,
-- with that station as the target, would have set the address of the server and gone on.
pub arp_request-unanswered :
    (a b : Net)
    → a.our_ip < 2 ^ 32
    → b.our_ip < 2 ^ 32
    → a.our_ip ≢ 0
    → b.our_ip ≢ 0
    → a.our_ip ≢ b.our_ip
    → a.gateway_ip ≡ 0
    → a.server_ip ≡ b.our_ip
    → (answer : List ℕ) × (net_receive b (arp_request a) 42 ≡ (b, transmitted answer))
      × (net_receive a answer 42 ≡ (a, ignored))
      × (net_receive a (proper_answer b a) 42 ≡ (record a { server_ether = b.our_ether }, notified))
unfolding arp_request
arp_request-unanswered a b a_fits b_fits a_own b_own differ gateway server =
    let asked : arp_request a ≡ arp_packet a broadcast 1 no_ether b.our_ip =
      ap (λ t. arp_packet a broadcast 1 no_ether t)
        (ap (λ g. if g == 0 then a.server_ip else g) gateway ∙ server) in
    (
      own_answer b a,
      ap (λ p. net_receive b p 42) asked ∙ request_answered a b b_fits b_own,
      own_answer-ignored a b a_fits b_fits differ,
      proper_answer-taken a b a_fits b_fits a_own,
    )
