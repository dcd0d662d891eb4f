-- ===== src/MemCommand/Tests.antt =====
-- A memory of bytes as a function, and the theorem at it.
use armboot.Prelude.{
  ◌<◌, ◌*◌, ◌+◌, false, some, none, done, ℕ, ◌≡◌, refl, inr, List, [], ◌∷◌, arith, ◌==◌,
  if◌then◌else◌,
}
use armboot.Prelude.Int.{ℤ, pos}
use armboot.CString.{CString, simple_strtoul, prefix, after_zero, read_digits}
use armboot.Flash.Write.{addr2info}
use armboot.MemCommand.{Bus, size_of, fill, do_mem_mw, do_mem_cp, do_mem_cmp}
use armboot.MemCommand.Modify.{modify, mod_mem, do_mem_mm, do_mem_nm}
use armboot.MemCommand.Copied.{IsMemory, do_mem_cmp-do_mem_cp}

abbrev bytes : Bus (ℕ → ℕ)
bytes = record {
  read = λ size addr m. m addr;
  write = λ size addr v m a. if a == addr then v else m a;
}

bytes-IsMemory : IsMemory bytes 1
bytes-IsMemory = record {
  written = λ x y m n. ground arith;
  kept = λ x y v m apart. ground (arith, apart);
}

abbrev cp_b : CString
cp_b = b'c' ∷ b'p' ∷ b'.' ∷ b'b' ∷ []

abbrev cmp_b : CString
cmp_b = b'c' ∷ b'm' ∷ b'p' ∷ b'.' ∷ b'b' ∷ []

abbrev mw_b : CString
mw_b = b'm' ∷ b'w' ∷ b'.' ∷ b'b' ∷ []

abbrev no_flash : ℕ → List ℕ → ℕ → ℕ → ℕ → ℤ × ℕ
no_flash i src addr count flash = (pos 0, flash)

do_mem_cmp-do_mem_cp_example :
    (m' : ℕ → ℕ) × (do_mem_cp bytes no_flash [] 4
        (cp_b ∷ (b'8' ∷ []) ∷ (b'6' ∷ []) ∷ (b'2' ∷ []) ∷ [])
        (λ a. a)
        0
      ≡ (0, m', 0))
    × ((i : ℕ) → i < 2 → m' (10 + i * 1) ≡ 12 + i * 1)
    × (do_mem_cmp bytes 4 (cmp_b ∷ (b'8' ∷ []) ∷ (b'6' ∷ []) ∷ (b'2' ∷ []) ∷ []) m' ≡ (0, 2))
unfolding size_of simple_strtoul prefix after_zero read_digits addr2info
do_mem_cmp-do_mem_cp_example =
    do_mem_cmp-do_mem_cp bytes no_flash [] 4 cp_b cmp_b (b'8' ∷ []) (b'6' ∷ []) (b'2' ∷ []) (λ a. a)
      0 bytes-IsMemory refl refl (omega arith) (omega arith) (inr (omega arith))

-- mw.b 8 ff 2: the first byte behind is left alone.
filled :
    (do_mem_mw bytes 0 (mw_b ∷ (b'8' ∷ []) ∷ (b'f' ∷ b'f' ∷ []) ∷ (b'2' ∷ []) ∷ []) (λ a. a)).1 9
    ≡ 255
unfolding do_mem_mw fill size_of simple_strtoul prefix after_zero read_digits
filled = refl

-- nm.b 8, with the lines "ff", an empty one and "." to leave
modified_twice :
    do_mem_nm bytes false 0
      ((b'n' ∷ b'm' ∷ b'.' ∷ b'b' ∷ []) ∷ (b'8' ∷ []) ∷ [])
      (some (b'f' ∷ b'f' ∷ []) ∷ some [] ∷ some (b'.' ∷ []) ∷ [])
      (record { addr = 0; size = 4 })
      (λ a. a)
    ≡ done (0, record { addr = 8; size = 1 }, λ a. if a == 8 then 255 else a)
unfolding mod_mem modify size_of simple_strtoul prefix after_zero read_digits
modified_twice = refl

-- mm.b 8 goes on behind the objects, and Control-C leaves it.
moved_on :
    do_mem_mm bytes false 0
      ((b'm' ∷ b'm' ∷ b'.' ∷ b'b' ∷ []) ∷ (b'8' ∷ []) ∷ [])
      (some (b'f' ∷ b'f' ∷ []) ∷ some [] ∷ none ∷ [])
      (record { addr = 0; size = 4 })
      (λ a. a)
    ≡ done (0, record { addr = 10; size = 1 }, λ a. if a == 8 then 255 else a)
unfolding mod_mem modify size_of simple_strtoul prefix after_zero read_digits
moved_on = refl
