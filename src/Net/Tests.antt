-- ===== src/Net/Tests.antt =====
-- Concrete packets, and the theorems at them.
use armboot.Prelude.{ℕ, ◌+◌, ◌-◌, ◌%◌, ◌^◌, ◌≡◌, refl, false, true, List, [], ◌∷◌, arith, length}
use armboot.Net.{Net, swap16, put_bytes, ip_bytes, sum_words, net_cksum, net_cksum_ok}
use armboot.Net.Send.{net_set_ip, arp_request, rarp_request, no_ether}
use armboot.Net.Receive.{ignored, transmitted, notified, handled, arp_valid, net_receive}
use armboot.Net.Loop.{udp_packet, net_receive-net_set_ip}
use armboot.Net.Arp.{proper_answer, arp_request-unanswered}

-- 10.0.0.2 with 10.0.0.1 as its server, and the server.
abbrev board_net : Net
board_net = record {
  our_ether = record { b0 = 2; b1 = 0; b2 = 0; b3 = 0; b4 = 0; b5 = 2 };
  server_ether = no_ether;
  our_ip = 0x0a000002;
  server_ip = 0x0a000001;
  gateway_ip = 0;
  ip_id = 7;
}

abbrev server_net : Net
server_net = record {
  our_ether = record { b0 = 2; b1 = 0; b2 = 0; b3 = 0; b4 = 0; b5 = 1 };
  server_ether = no_ether;
  our_ip = 0x0a000001;
  server_ip = 0;
  gateway_ip = 0;
  ip_id = 0;
}

abbrev hi : List ℕ
hi = 104 ∷ 105 ∷ []

-- "hi", to port 69.
abbrev hello : List ℕ
hello = udp_packet board_net server_net.our_ether 0x0a000001 69 1030 hi

net_receive-net_set_ip_example :
    (net_receive server_net hello (length hello) ≡ (server_net, handled hi 69 1030 (length hi)))
    × ((u : ℕ)
        → net_receive server_net
            (put_bytes hello 38 (swap16 u))
            (length (put_bytes hello 38 (swap16 u)))
          ≡ (server_net, handled hi 69 1030 ((u % 2 ^ 16 + 2 ^ 32 - 8) % 2 ^ 32)))
net_receive-net_set_ip_example =
    net_receive-net_set_ip board_net server_net server_net.our_ether 0x0a000001 69 1030 hi
      (omega arith) (omega arith) (omega arith) (omega arith) refl

arp_request-unanswered_example :
    (answer : List ℕ) × (net_receive server_net (arp_request board_net) 42
      ≡ (server_net, transmitted answer))
    × (net_receive board_net answer 42 ≡ (board_net, ignored))
    × (net_receive board_net (proper_answer server_net board_net) 42
        ≡ (record board_net { server_ether = server_net.our_ether }, notified))
arp_request-unanswered_example =
    arp_request-unanswered board_net server_net (omega arith) (omega arith)
      (λ e. absurd (omega (arith, e))) (λ e. absurd (omega (arith, e)))
      (λ e. absurd (omega (arith, e))) refl refl

-- The header of RFC 1071's kind: its sum is checked, and a changed byte is found.
checked :
    (net_cksum_ok hello 14 10 ≡ true) × (net_cksum_ok (put_bytes hello 30 (11 ∷ [])) 14 10 ≡ false)
unfolding net_cksum_ok net_cksum sum_words net_set_ip ip_bytes put_bytes
checked = (refl, refl)

-- A request of RARP does not have the form that `NetReceive` wants of an answer.
rarp_fields : arp_valid (rarp_request board_net) 14 ≡ false
unfolding rarp_request
rarp_fields = refl
