-- ===== src/Net/Send.antt =====
-- net/net.c and net/arp.c: `NetSetIP` and `ArpRequest`.
use armboot.Prelude.{ℕ, ◌+◌, ◌-◌, ◌%◌, ◌/◌, ◌^◌, List, [], ◌∷◌, ◌++◌, ◌==◌, if◌then◌else◌, length}
use armboot.Net.{
  ip_hdr_size, ip_hdr_size_no_udp, prot_ip, prot_arp, prot_rarp, Ether, Net, swap16, low16,
  ether_bytes, ip_bytes, net_cksum,
}

-- The fields of the header, with the two bytes of `ip_sum`: all of its 28 bytes are set.
abbrev pub ip_fields : Net → ℕ → ℕ → ℕ → ℕ → ℕ → List ℕ → List ℕ → List ℕ
ip_fields net dest dport sport len udp_len sum rest =
    0x45
    ∷ 0
    ∷ (swap16 (ip_hdr_size + len)
        ++ (swap16 net.ip_id
            ++ (0x40
                ∷ 0
                ∷ 255
                ∷ 17
                ∷ (sum
                    ++ (ip_bytes 4 net.our_ip
                        ++ (ip_bytes 4 dest
                            ++ (swap16 sport
                                ++ (swap16 dport ++ (swap16 udp_len ++ (0 ∷ 0 ∷ rest))))))))))

-- `NetSetIP` in front of the data; the byte behind data of odd length, which it clears, is not sent.
unfoldable pub net_set_ip : Net → ℕ → ℕ → ℕ → List ℕ → Net × List ℕ
unfolding ip_bytes net_cksum
net_set_ip net dest dport sport payload =
    let len : ℕ = length payload in
    let cleared = ip_fields net dest dport sport len (8 + len) (0 ∷ 0 ∷ []) payload in
    let sum = 2 ^ 16 - 1 - net_cksum cleared 0 (ip_hdr_size_no_udp / 2) in
    (
      record net { ip_id = (net.ip_id + 1) % 2 ^ 32 },
      ip_fields net dest dport sport len (8 + len) (low16 sum) payload,
    )

-- The Ethernet header in front of a packet.
abbrev pub ether_header : Net → Ether → ℕ → List ℕ → List ℕ
ether_header net addr prot rest =
    ether_bytes addr ++ (ether_bytes net.our_ether ++ (swap16 prot ++ rest))

abbrev pub broadcast : Ether
broadcast = record { b0 = 255; b1 = 255; b2 = 255; b3 = 255; b4 = 255; b5 = 255 }

-- An ARP packet with its operation, its sender and its target.
abbrev pub arp_packet : Net → Ether → ℕ → Ether → ℕ → List ℕ
arp_packet net addr op target target_ip = ether_header net addr prot_arp (
    swap16 1
    ++ (swap16 prot_ip
        ++ (6
            ∷ 4
            ∷ (swap16 op
                ++ (ether_bytes net.our_ether
                    ++ (ip_bytes 4 net.our_ip ++ (ether_bytes target ++ ip_bytes 4 target_ip)))))))

abbrev pub no_ether : Ether
no_ether = record { b0 = 0; b1 = 0; b2 = 0; b3 = 0; b4 = 0; b5 = 0 }

-- The packet that `ArpRequest` sends.
unfoldable pub arp_request : Net → List ℕ
unfolding ip_bytes
arp_request net =
    arp_packet net broadcast 1 no_ether
      (if net.gateway_ip == 0 then net.server_ip else net.gateway_ip)

-- The packet that `RarpRequest` of net/rarp.c sends: its fields are not swapped.
unfoldable pub rarp_request : Net → List ℕ
unfolding ip_bytes
rarp_request net = ether_header net broadcast prot_rarp (
    low16 1
    ++ (low16 prot_ip
        ++ (6
            ∷ 4
            ∷ (low16 3
                ++ (ether_bytes net.our_ether
                    ++ (ip_bytes 4 net.our_ip
                        ++ (ether_bytes net.our_ether ++ 255 ∷ 255 ∷ 255 ∷ 255 ∷ [])))))))
