-- ===== src/Net/Loop.antt =====
-- net/net.c: what `NetSetIP` and `NetSetEther` make is taken apart again by `NetReceive`.
use armboot.Prelude.{
  ℕ, ◌+◌, ◌-◌, ◌*◌, ◌%◌, ◌/◌, ◌^◌, ◌<◌, ◌≡◌, ◌∙◌, refl, ap, true, false, List, arith, ltb, le→ltb,
  length,
}
use armboot.Net.{Ether, Net, swap16, low16, ip_bytes, read_ip, swapped, put_bytes, prot_ip}
use armboot.Net.Send.{ether_header, net_set_ip}
use armboot.Net.Receive.{handled, ip_accepted, for_us, receive_ip, net_receive}
use armboot.Net.Header.{udp_frame, checksum, net_cksum_ok-checksum, ip_value}

module _ (a b : Net) (addr : Ether) (dest dport sport u : ℕ) (payload : List ℕ)
    (dest_fits : dest < 2 ^ 32) (dport_fits : dport < 2 ^ 16) (sport_fits : sport < 2 ^ 16)
    (payload_fits : length payload + 28 < 2 ^ 16) (us : for_us b dest ≡ true) where
  abbrev frame : List ℕ
  frame =
      udp_frame a addr dest dport sport (length payload) u
        (low16 (checksum a addr dest dport sport (length payload) u payload)) payload

  frame_accepted : ip_accepted b frame 14 (length frame - 14) ≡ true
  unfolding ip_accepted ip_bytes read_ip
  frame_accepted =
      let long : ltb (length frame - 14) 28 ≡ false = le→ltb _ _ (omega arith) in
      let whole : ltb (length frame - 14) (swapped frame 16) ≡ false = le→ltb _ _ (omega arith) in
      rw long (
        rw whole (
          rw (net_cksum_ok-checksum a addr dest dport sport (length payload) u payload)
            (rw (ip_value dest dest_fits) us)))

  -- The UDP length is in no checksum.
  receive_frame :
      net_receive b frame (length frame)
      ≡ (b, handled payload dport sport ((u % 2 ^ 16 + 2 ^ 32 - 8) % 2 ^ 32))
  unfolding net_receive receive_ip ip_bytes
  receive_frame =
      let d : dport / 256 % 256 * 256 + dport % 256 ≡ dport = omega arith in
      let s : sport / 256 % 256 * 256 + sport % 256 ≡ sport = omega arith in
      let v : u / 256 % 256 * 256 + u % 256 ≡ u % 2 ^ 16 = omega arith in
      rw frame_accepted (rw (d, s, v) refl)

-- The packet for UDP that `TftpSend` and the like put together.
abbrev pub udp_packet : Net → Ether → ℕ → ℕ → ℕ → List ℕ → List ℕ
udp_packet a addr dest dport sport payload =
    ether_header a addr prot_ip (net_set_ip a dest dport sport payload).1

-- A packet that one station makes for another, with any ports of 16 bits and data that fit the 16
-- bits of the IP length, passes all tests of `NetReceive` if it is for that station's address, or
-- for all, or if the station has no address yet: the packet handler is given the data, both ports
-- and the length. The UDP length field is tested by nothing: with any other number in its place the
-- same data are handed over with that number less 8, modulo 2 ^ 32, as their length.
pub net_receive-net_set_ip :
    (a b : Net) (addr : Ether) (dest dport sport : ℕ) (payload : List ℕ)
    → dest < 2 ^ 32
    → dport < 2 ^ 16
    → sport < 2 ^ 16
    → length payload + 28 < 2 ^ 16
    → for_us b dest ≡ true
    → (net_receive b
          (udp_packet a addr dest dport sport payload)
          (length (udp_packet a addr dest dport sport payload))
        ≡ (b, handled payload dport sport (length payload)))
      × ((u : ℕ)
          → net_receive b
              (put_bytes (udp_packet a addr dest dport sport payload) 38 (swap16 u))
              (length (put_bytes (udp_packet a addr dest dport sport payload) 38 (swap16 u)))
            ≡ (b, handled payload dport sport ((u % 2 ^ 16 + 2 ^ 32 - 8) % 2 ^ 32)))
unfolding net_set_ip put_bytes
net_receive-net_set_ip a b addr dest dport sport payload hd hp hs fits us =
    let any : (u : ℕ)
        → net_receive b (put_bytes (udp_packet a addr dest dport sport payload) 38 (swap16 u))
            (length (put_bytes (udp_packet a addr dest dport sport payload) 38 (swap16 u)))
          ≡ (b, handled payload dport sport ((u % 2 ^ 16 + 2 ^ 32 - 8) % 2 ^ 32)) =
      λ u. receive_frame a b addr dest dport sport u payload hd hp hs fits us in
    let size : ((8 + length payload) % 2 ^ 16 + 2 ^ 32 - 8) % 2 ^ 32 ≡ length payload =
      omega arith in
    (
      receive_frame a b addr dest dport sport (8 + length payload) payload hd hp hs fits us
          ∙ ap (λ n. (b, handled payload dport sport n)) size,
      any,
    )
