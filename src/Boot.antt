-- ===== src/Boot.antt =====
-- common/cmd_bootm.c and common/armlinux.c: images, and how they are booted. The memory is a `Bus`;
-- the fields of a header are in network order, and SWAP32 of one has its first byte as the high one.
pub mod Gunzip
pub mod Linux
pub mod Bootm
pub mod Ram
mod Tests
use armboot.Prelude.{
  ℕ, ◌+◌, ◌*◌, ◌%◌, ◌^◌, Bool, true, false, not, List, [], ◌∷◌, ◌++◌, ◌==◌, if◌then◌else◌, take,
  drop,
}
use armboot.Crc.{crc32}
use armboot.CString.{CString, simple_strtoul}
use armboot.MemCommand.{Bus, bytes_at}
use armboot.Net.{byte}

-- SWAP32 of the word at an offset
abbrev pub swapped_at : List ℕ → ℕ → ℕ
swapped_at p i =
    byte p i * 2 ^ 24 + byte p (i + 1) * 2 ^ 16 + byte p (i + 2) * 2 ^ 8 + byte p (i + 3)

-- sizeof(image_header_t)
abbrev pub header_size : ℕ
header_size = 64

-- An `image_header_t` is its bytes.
abbrev pub ih_magic : List ℕ → ℕ
ih_magic hdr = swapped_at hdr 0

abbrev pub ih_hcrc : List ℕ → ℕ
ih_hcrc hdr = swapped_at hdr 4

abbrev pub ih_size : List ℕ → ℕ
ih_size hdr = swapped_at hdr 12

abbrev pub ih_load : List ℕ → ℕ
ih_load hdr = swapped_at hdr 16

abbrev pub ih_ep : List ℕ → ℕ
ih_ep hdr = swapped_at hdr 20

abbrev pub ih_dcrc : List ℕ → ℕ
ih_dcrc hdr = swapped_at hdr 24

abbrev pub ih_os : List ℕ → ℕ
ih_os hdr = byte hdr 28

abbrev pub ih_arch : List ℕ → ℕ
ih_arch hdr = byte hdr 29

abbrev pub ih_type : List ℕ → ℕ
ih_type hdr = byte hdr 30

abbrev pub ih_comp : List ℕ → ℕ
ih_comp hdr = byte hdr 31

-- hdr->ih_hcrc = 0
abbrev pub blank_hcrc : List ℕ → List ℕ
blank_hcrc hdr = take 4 hdr ++ 0 ∷ 0 ∷ 0 ∷ 0 ∷ drop 8 hdr

abbrev pub has_ih_magic : List ℕ → Bool
has_ih_magic hdr = ih_magic hdr == 0x27051956

abbrev pub hcrc_ok : List ℕ → Bool
hcrc_ok hdr = crc32 0 (blank_hcrc hdr) == ih_hcrc hdr

module _ {M : Type 0} (bus : Bus M) where
  -- memcpy (&header, (char *)addr, sizeof(image_header_t))
  abbrev pub header_at : ℕ → M → List ℕ
  header_at addr m = bytes_at bus header_size addr m

  abbrev pub dcrc_ok : List ℕ → ℕ → M → Bool
  dcrc_ok hdr from m = crc32 0 (bytes_at bus (ih_size hdr) from m) == ih_dcrc hdr

  -- SWAP32 of a word in memory
  abbrev pub word_at : ℕ → M → ℕ
  word_at addr m = swapped_at (bytes_at bus 4 addr m) 0

  unfoldable pub image_info : ℕ → M → ℕ
  unfolding bytes_at crc32
  image_info addr m =
      let hdr = header_at addr m in
      if not (has_ih_magic hdr)
      then 1
      else if not (hcrc_ok hdr)
      then 1
      else if not (dcrc_ok hdr ((addr + header_size) % 2 ^ 32) m)
      then 1
      else 0

  -- for (arg = 1; arg < argc && rc == 0; ++arg)
  unfoldable pub check_images : List CString → M → ℕ
  unfolding image_info simple_strtoul
  check_images [] m = 0
  check_images (arg ∷ args) m =
      let rc = image_info (simple_strtoul arg 16).0 m in
      let rest = check_images args m in if rc == 0 then rest else rc

  unfoldable pub do_iminfo : ℕ → List CString → M → ℕ
  unfolding check_images
  do_iminfo load_addr (_ ∷ arg ∷ args) m = check_images (arg ∷ args) m
  do_iminfo load_addr _ m = image_info load_addr m
