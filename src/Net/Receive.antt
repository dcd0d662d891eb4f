-- ===== src/Net/Receive.antt =====
-- net/net.c: `NetReceive`.
use armboot.Prelude.{
  ℕ, ◌+◌, ◌-◌, ◌%◌, ◌/◌, ◌^◌, Bool, ◌&&◌, ◌||◌, not, List, ◌==◌, ltb, if◌then◌else◌, drop, take,
}
use armboot.Net.{
  ether_hdr_size, e802_hdr_size, ip_hdr_size, ip_hdr_size_no_udp, arp_hdr_size, prot_ip, prot_arp,
  prot_rarp, Ether, Net, byte, swapped, swap16, put_bytes, ether_at, net_copy_ether, ip_bytes,
  net_write_ip, read_ip, net_read_ip, net_cksum_ok,
}

-- What a packet leads to: nothing, a packet that is sent, a call of the packet handler with null
-- arguments, or one with a pointer to a packet, the ports and a length.
pub data Event : Type 0 where
  ignored : Event
  transmitted : List ℕ → Event
  notified : Event
  handled : List ℕ → ℕ → ℕ → ℕ → Event

-- The test of an ARP packet, and of one whose target is not us.
abbrev pub arp_valid : List ℕ → ℕ → Bool
arp_valid pkt arp =
    swapped pkt arp == 1
    && swapped pkt (arp + 2) == prot_ip
    && byte pkt (arp + 4) == 6
    && byte pkt (arp + 5) == 4

abbrev pub same_ether : Ether → Ether → Bool
same_ether e f =
    e.b0 == f.b0 && e.b1 == f.b1 && e.b2 == f.b2 && e.b3 == f.b3 && e.b4 == f.b4 && e.b5 == f.b5

-- `NetSetEther`
abbrev pub net_set_ether : Net → List ℕ → Ether → ℕ → List ℕ
net_set_ether net buf addr prot =
    put_bytes (net_copy_ether (net_copy_ether buf 0 addr) 6 net.our_ether) 12 (swap16 prot)

-- The answer to an ARP request, made in place.
abbrev pub arp_answer : Net → List ℕ → ℕ → List ℕ
arp_answer net pkt arp =
    let p1 = net_set_ether net pkt (ether_at pkt 6) prot_arp in
    let p2 = put_bytes p1 (arp + 6) (swap16 2) in
    let p3 = net_copy_ether p2 (arp + 8) net.our_ether in
    let p4 = net_write_ip p3 (arp + 14) net.our_ip in
    let p5 = net_copy_ether p4 (arp + 18) net.our_ether in net_write_ip p5 (arp + 24) net.our_ip

unfoldable pub receive_arp : Net → List ℕ → ℕ → ℕ → Net × Event
unfolding read_ip ip_bytes put_bytes
receive_arp net pkt arp len =
    if ltb len arp_hdr_size
      || not (arp_valid pkt arp)
      || net.our_ip == 0
      || not (net_read_ip pkt (arp + 24) == net.our_ip)
    then (net, ignored)
    else if swapped pkt (arp + 6) == 1
    then (net, transmitted (take (arp + arp_hdr_size) (arp_answer net pkt arp)))
    else if swapped pkt (arp + 6) == 2
    then (if same_ether net.our_ether (ether_at pkt (arp + 18))
        then (record net { server_ether = ether_at pkt (arp + 8) }, notified)
        else (net, ignored))
    else (net, ignored)

unfoldable pub receive_rarp : Net → List ℕ → ℕ → ℕ → Net × Event
unfolding read_ip
receive_rarp net pkt arp len =
    if ltb len arp_hdr_size || not (swapped pkt (arp + 6) == 4) || not (arp_valid pkt arp)
    then (net, ignored)
    else (
      record net {
        our_ip = net_read_ip pkt (arp + 24);
        server_ip = net_read_ip pkt (arp + 14);
        server_ether = ether_at pkt (arp + 8);
      },
      notified,
    )

-- if (NetOurIP) { … }
abbrev pub for_us : Net → ℕ → Bool
for_us net ipaddr = net.our_ip == 0 || ipaddr == net.our_ip || ipaddr == 0xffffffff

-- The tests of the IP header.
unfoldable pub ip_accepted : Net → List ℕ → ℕ → ℕ → Bool
unfolding net_cksum_ok read_ip
ip_accepted net pkt ip len =
    not (ltb len ip_hdr_size)
    && not (ltb len (swapped pkt (ip + 2)))
    && byte pkt ip / 16 % 16 == 4
    && swapped pkt (ip + 6) % 2 ^ 13 == 0
    && net_cksum_ok pkt ip (ip_hdr_size_no_udp / 2)
    && for_us net (net_read_ip pkt (ip + 16))

-- ip_p: UDP, or an ICMP redirect, which is handed over too.
abbrev pub ip_proto_accepted : List ℕ → ℕ → Bool
ip_proto_accepted pkt ip =
    if byte pkt (ip + 9) == 1
    then byte pkt (ip + 20) == 5 && byte pkt (ip + 21) == 1
    else byte pkt (ip + 9) == 17

unfoldable pub receive_ip : Net → List ℕ → ℕ → ℕ → Net × Event
unfolding ip_accepted
receive_ip net pkt ip len =
    if ip_accepted net pkt ip len && ip_proto_accepted pkt ip
    then (
      net,
      handled (drop (ip + ip_hdr_size) pkt) (swapped pkt (ip + 22)) (swapped pkt (ip + 20))
          ((swapped pkt (ip + 24) + 2 ^ 32 - 8) % 2 ^ 32),
    )
    else (net, ignored)

-- the switch
abbrev pub receive_proto : Net → List ℕ → ℕ → ℕ → ℕ → Net × Event
receive_proto net pkt hdr len x =
    if x == prot_arp
    then receive_arp net pkt hdr len
    else if x == prot_rarp
    then receive_rarp net pkt hdr len
    else if x == prot_ip
    then receive_ip net pkt hdr len
    else (net, ignored)

-- `len - 14` stops at 0 here; a negative length is refused as 0 is.
unfoldable pub net_receive : Net → List ℕ → ℕ → Net × Event
unfolding receive_arp receive_rarp receive_ip
net_receive net pkt len =
    if ltb (swapped pkt 12) 1514
    then receive_proto net pkt e802_hdr_size (len - e802_hdr_size) (swapped pkt 20)
    else receive_proto net pkt ether_hdr_size (len - ether_hdr_size) (swapped pkt 12)
