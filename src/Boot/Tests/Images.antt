-- ===== src/Boot/Tests/Images.antt =====
-- Images in a memory of bytes.
use armboot.Prelude.{ℕ, ◌-◌, List, [], ◌∷◌, ◌++◌, none, some, ltb, if◌then◌else◌}
use armboot.Net.{byte}
use armboot.Boot.Bootm.{World}

abbrev pub name : List ℕ
name =
    0 ∷ 0 ∷ 0 ∷ 0 ∷ 0 ∷ 0 ∷ 0 ∷ 0 ∷ 0 ∷ 0 ∷ 0 ∷ 0 ∷ 0 ∷ 0 ∷ 0 ∷ 0 ∷ 0 ∷ 0 ∷ 0 ∷ 0 ∷ 0 ∷ 0 ∷ 0 ∷ 0
    ∷ 0 ∷ 0 ∷ 0 ∷ 0 ∷ 0 ∷ 0 ∷ 0 ∷ 0 ∷ []

abbrev kernel : List ℕ
kernel =
    0x27
    ∷ 0x05
    ∷ 0x19
    ∷ 0x56
    ∷ 0xd3
    ∷ 0xa1
    ∷ 0x6c
    ∷ 0xa1
    ∷ 0x00
    ∷ 0x00
    ∷ 0x00
    ∷ 0x00
    ∷ 0x00
    ∷ 0x00
    ∷ 0x00
    ∷ 0x02
    ∷ 0x00
    ∷ 0x00
    ∷ 0x80
    ∷ 0x00
    ∷ 0x00
    ∷ 0x00
    ∷ 0x80
    ∷ 0x00
    ∷ 0xb6
    ∷ 0xcc
    ∷ 0x42
    ∷ 0x92
    ∷ 0x05
    ∷ 0x02
    ∷ 0x02
    ∷ 0x00
    ∷ (name ++ 0x01 ∷ 0x02 ∷ [])

abbrev ramdisk : List ℕ
ramdisk =
    0x27
    ∷ 0x05
    ∷ 0x19
    ∷ 0x56
    ∷ 0x5b
    ∷ 0xcf
    ∷ 0xdc
    ∷ 0xf5
    ∷ 0x00
    ∷ 0x00
    ∷ 0x00
    ∷ 0x00
    ∷ 0x00
    ∷ 0x00
    ∷ 0x00
    ∷ 0x01
    ∷ 0x00
    ∷ 0x00
    ∷ 0x00
    ∷ 0x00
    ∷ 0x00
    ∷ 0x00
    ∷ 0x90
    ∷ 0x00
    ∷ 0x4b
    ∷ 0x0b
    ∷ 0xbe
    ∷ 0x37
    ∷ 0x05
    ∷ 0x02
    ∷ 0x03
    ∷ 0x00
    ∷ (name ++ 0x03 ∷ [])

abbrev application : List ℕ
application =
    0x27
    ∷ 0x05
    ∷ 0x19
    ∷ 0x56
    ∷ 0x21
    ∷ 0x30
    ∷ 0xac
    ∷ 0x4b
    ∷ 0x00
    ∷ 0x00
    ∷ 0x00
    ∷ 0x00
    ∷ 0x00
    ∷ 0x00
    ∷ 0x00
    ∷ 0x01
    ∷ 0x00
    ∷ 0x00
    ∷ 0xa0
    ∷ 0x00
    ∷ 0x00
    ∷ 0x00
    ∷ 0xa0
    ∷ 0x00
    ∷ 0xd5
    ∷ 0x6f
    ∷ 0x2b
    ∷ 0x94
    ∷ 0x05
    ∷ 0x02
    ∷ 0x01
    ∷ 0x00
    ∷ (name ++ 0x04 ∷ [])

-- The kernel's image is at 0x100, the ramdisk's at 0x200 and the application's at 0x300.
abbrev pub memory : ℕ → ℕ
memory a =
    if ltb a 0x100
    then 0
    else if ltb a 0x200
    then byte kernel (a - 0x100)
    else if ltb a 0x300
    then byte ramdisk (a - 0x200)
    else byte application (a - 0x300)

abbrev pub world : World (ℕ → ℕ)
world = record { inflate = λ dst room src len m. none; appl = λ ep argv m. some m }
