-- ===== src/Memory/Tests.antt =====
-- Overlapping moves on concrete arrays.
use armboot.Prelude.{ℕ, ◌≡◌, refl, List, [], ◌∷◌, arith, get_elem?, done}
use armboot.Memory.{load, store}
use armboot.Memory.Move.{copy_backward, memmove}
use armboot.Memory.Move.Overlap.{moved, memmove-moved}

abbrev five : List ℕ
five = 1 ∷ 2 ∷ 3 ∷ 4 ∷ 5 ∷ []

up : memmove five 1 0 4 ≡ done (1 ∷ 1 ∷ 2 ∷ 3 ∷ 4 ∷ [])
unfolding memmove copy_backward load store
up = refl

memmove-moved_example :
    (q : List ℕ) × (memmove five 1 0 4 ≡ done q) × ((i : ℕ) → get_elem? q i ≡ moved five 1 0 4 i)
memmove-moved_example = memmove-moved five 1 0 4 (omega arith) (omega arith)
