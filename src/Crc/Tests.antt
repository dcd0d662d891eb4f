-- ===== src/Crc/Tests.antt =====
-- The CRC on concrete input.
use armboot.Prelude.{◌≡◌, [], ◌∷◌, ◌++◌}
use armboot.Crc.{crc32_no_comp}
use armboot.Crc.Laws.{crc32_no_comp-append}

crc32_no_comp-append_example :
    crc32_no_comp 7 ((1 ∷ 2 ∷ []) ++ (3 ∷ []))
    ≡ crc32_no_comp (crc32_no_comp 7 (1 ∷ 2 ∷ [])) (3 ∷ [])
crc32_no_comp-append_example = crc32_no_comp-append 7 (1 ∷ 2 ∷ []) (3 ∷ [])
