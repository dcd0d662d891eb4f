-- ===== src/Net.antt =====
-- net/net.c: the packets of Ethernet, ARP, RARP, IP and UDP, as they are made and taken apart. The
-- processor is little-endian: a `ushort` behind SWAP16 has its high byte first.
pub mod Receive
pub mod Send
pub mod Header
pub mod Loop
pub mod Arp
mod Tests
use armboot.Prelude.{
  ℕ, zero, suc, ◌+◌, ◌-◌, ◌*◌, ◌%◌, ◌/◌, ◌^◌, Bool, true, false, ◌&&◌, ◌||◌, not, List, [], ◌∷◌,
  ◌++◌, Option, none, some, ◌==◌, ltb, if◌then◌else◌, get_elem?, set, drop, take,
}

-- ETHER_HDR_SIZE, E802_HDR_SIZE, IP_HDR_SIZE, IP_HDR_SIZE_NO_UDP and ARP_HDR_SIZE
abbrev pub ether_hdr_size : ℕ
ether_hdr_size = 14

abbrev pub e802_hdr_size : ℕ
e802_hdr_size = 22

abbrev pub ip_hdr_size : ℕ
ip_hdr_size = 28

abbrev pub ip_hdr_size_no_udp : ℕ
ip_hdr_size_no_udp = 20

abbrev pub arp_hdr_size : ℕ
arp_hdr_size = 28

abbrev pub prot_ip : ℕ
prot_ip = 0x0800

abbrev pub prot_arp : ℕ
prot_arp = 0x0806

abbrev pub prot_rarp : ℕ
prot_rarp = 0x8035

-- The six bytes of an Ethernet address.
pub record Ether : Type 0 where
  pub b0 : ℕ
  pub b1 : ℕ
  pub b2 : ℕ
  pub b3 : ℕ
  pub b4 : ℕ
  pub b5 : ℕ

-- NetOurEther, NetServerEther, NetOurIP, NetServerIP, NetOurGatewayIP and NetIPID
pub record Net : Type 0 where
  pub our_ether : Ether
  pub server_ether : Ether
  pub our_ip : ℕ
  pub server_ip : ℕ
  pub gateway_ip : ℕ
  pub ip_id : ℕ

abbrev or_zero : Option ℕ → ℕ
or_zero none = 0
or_zero (some b) = b

-- A byte of the packet buffer. The headers lie within its PKTSIZE_ALIGN bytes.
abbrev pub byte : List ℕ → ℕ → ℕ
byte buf i = or_zero (get_elem? buf i)

-- SWAP16 of a field, and the field as the processor reads it
abbrev pub swapped : List ℕ → ℕ → ℕ
swapped buf i = byte buf i * 256 + byte buf (i + 1)

abbrev pub ushort : List ℕ → ℕ → ℕ
ushort buf i = byte buf i + byte buf (i + 1) * 256

-- The bytes of a field that is stored by SWAP16, and of one that is stored as it is.
abbrev pub swap16 : ℕ → List ℕ
swap16 x = (x / 256 % 256) ∷ (x % 256) ∷ []

abbrev pub low16 : ℕ → List ℕ
low16 x = (x % 256) ∷ (x / 256 % 256) ∷ []

-- Bytes into a buffer, from a place on.
unfoldable pub put_bytes : List ℕ → ℕ → List ℕ → List ℕ
put_bytes buf p [] = buf
put_bytes buf p (c ∷ cs) = put_bytes (set buf p c) (p + 1) cs

abbrev pub ether_bytes : Ether → List ℕ
ether_bytes e = e.b0 ∷ e.b1 ∷ e.b2 ∷ e.b3 ∷ e.b4 ∷ e.b5 ∷ []

abbrev pub ether_at : List ℕ → ℕ → Ether
ether_at buf p = record {
  b0 = byte buf p;
  b1 = byte buf (p + 1);
  b2 = byte buf (p + 2);
  b3 = byte buf (p + 3);
  b4 = byte buf (p + 4);
  b5 = byte buf (p + 5);
}

-- `NetCopyEther` into a buffer
abbrev pub net_copy_ether : List ℕ → ℕ → Ether → List ℕ
net_copy_ether buf p from = put_bytes buf p (ether_bytes from)

-- *to++ = ip >> 24; ip <<= 8; by the rounds left
unfoldable pub ip_bytes : ℕ → ℕ → List ℕ
ip_bytes zero ip = []
ip_bytes (suc n) ip = (ip / 2 ^ 24 % 256) ∷ ip_bytes n (ip * 2 ^ 8 % 2 ^ 32)

abbrev pub net_write_ip : List ℕ → ℕ → ℕ → List ℕ
net_write_ip buf p ip = put_bytes buf p (ip_bytes 4 ip)

-- ip = (ip << 8) | *from++, by the rounds left
unfoldable pub read_ip : ℕ → List ℕ → ℕ → ℕ → ℕ
read_ip zero buf p ip = ip
read_ip (suc n) buf p ip = read_ip n buf (p + 1) (ip * 2 ^ 8 % 2 ^ 32 + byte buf p)

abbrev pub net_read_ip : List ℕ → ℕ → ℕ
net_read_ip buf p = read_ip 4 buf p 0

-- while (len-- > 0) xsum += *ptr++
unfoldable pub sum_words : ℕ → List ℕ → ℕ → ℕ
sum_words zero buf p = 0
sum_words (suc len) buf p = ushort buf p + sum_words len buf (p + 2)

-- xsum = (xsum & 0xffff) + (xsum >> 16)
abbrev pub fold : ℕ → ℕ
fold x = x % 2 ^ 16 + x / 2 ^ 16

unfoldable pub net_cksum : List ℕ → ℕ → ℕ → ℕ
unfolding sum_words
net_cksum buf p len = fold (fold (sum_words len buf p)) % 2 ^ 16

-- !((NetCksum(ptr, len) + 1) & 0xfffe)
unfoldable pub net_cksum_ok : List ℕ → ℕ → ℕ → Bool
unfolding net_cksum
net_cksum_ok buf p len = (net_cksum buf p len + 1) / 2 % 2 ^ 15 == 0
