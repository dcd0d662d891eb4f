-- ===== src/Memory/Move/Overlap.antt =====
-- The bytes before and after `memmove` of common/string.c, for ranges that may overlap.
use armboot.Prelude.{
  ℕ, zero, suc, ◌+◌, ◌-◌, ◌<◌, ◌≤◌, ◌≡◌, ◌≢◌, refl, sym, ap, ◌∙◌, inl, inr, ◌&&◌, List, [], ◌∷◌,
  Option, some, ◌==◌, leb, ltb, arith, Bool-cases, if◌then◌else◌, length, length-set, get_elem?,
  set, Exec, done, bind-done,
}
use armboot.Memory.{load, store}
use armboot.Memory.Move.{copy_forward, copy_backward, memmove}

-- The byte at `i` once `count` bytes have been moved from `src` to `dest`.
abbrev pub moved : List ℕ → ℕ → ℕ → ℕ → ℕ → Option ℕ
moved p dest src count i =
    if leb dest i && ltb i (dest + count) then get_elem? p (src + (i - dest)) else get_elem? p i

get_elem?-inside : (p : List ℕ) (i : ℕ) → i < length p → (c : ℕ) × (get_elem? p i ≡ some c)
get_elem?-inside [] i h = absurd (omega arith)
get_elem?-inside (x ∷ p) zero h = (x, refl)
get_elem?-inside (x ∷ p) (suc i) h = get_elem?-inside p i (omega arith)

get_elem?-set_same : (p : List ℕ) (i v : ℕ) → i < length p → get_elem? (set p i v) i ≡ some v
get_elem?-set_same [] i v h = absurd (omega arith)
get_elem?-set_same (x ∷ p) zero v h = refl
get_elem?-set_same (x ∷ p) (suc i) v h = get_elem?-set_same p i v (omega arith)

get_elem?-set_other : (p : List ℕ) (i j v : ℕ) → i ≢ j → get_elem? (set p i v) j ≡ get_elem? p j
get_elem?-set_other [] i j v h = refl
get_elem?-set_other (x ∷ p) zero zero v h = absurd (h refl)
get_elem?-set_other (x ∷ p) zero (suc j) v h = refl
get_elem?-set_other (x ∷ p) (suc i) zero v h = refl
get_elem?-set_other (x ∷ p) (suc i) (suc j) v h = get_elem?-set_other p i j v (λ e. h (ap suc e))

record Moved (p : List ℕ) (dest src count : ℕ) (m : Exec (List ℕ)) : Type 0 where
  q : List ℕ
  goes : m ≡ done q
  bytes : (i : ℕ) → get_elem? q i ≡ moved p dest src count i

-- One byte is copied.
copy_byte :
    (p : List ℕ) (d s : ℕ)
    → d < length p
    → s < length p
    → (c : ℕ) × (load p s ≡ done c) × (store p d c ≡ done (set p d c)) × (get_elem? p s ≡ some c)
unfolding load store
copy_byte p d s h k = let (c, at) = get_elem?-inside p s k in (c, rw at refl, ground (arith, h), at)

copy_forward-Moved :
    (p : List ℕ) (dest src count : ℕ)
    → dest ≤ src
    → src + count ≤ length p
    → Moved p dest src count (copy_forward p dest src count)
unfolding copy_forward
copy_forward-Moved p dest src zero h k = record { q = p; goes = refl; bytes = λ i. ground arith }
copy_forward-Moved p dest src (suc count) h k =
    let (c, loaded, stored, at) = copy_byte p dest src (omega (arith, h, k)) (omega (arith, k)) in
    let rest =
      copy_forward-Moved (set p dest c) (dest + 1) (src + 1) count (omega arith)
        (omega (arith, k, length-set p dest c)) in
    record {
      q = rest.q;
      goes = bind-done _ loaded ∙ bind-done _ stored ∙ rest.goes;
      bytes = λ i. rest.bytes i ∙ byte c at i;
    }
  where
    byte :
        (c : ℕ)
        → get_elem? p src ≡ some c
        → (i : ℕ)
        → moved (set p dest c) (dest + 1) (src + 1) count i ≡ moved p dest src (suc count) i
    byte c at i = elim (Bool-cases (i == dest)) [
      | inl here ↦
          let e : i ≡ dest = ground arith in
          let same = get_elem?-set_same p dest c (omega (arith, h, k)) in
          let source : src + (i - dest) ≡ src = omega (arith, e) in
          ground (arith, e, same, at, source)
      | inr away ↦
          let e : i ≢ dest = ground arith in
          let other = get_elem?-set_other p dest i c (λ d. e (sym d)) in
          let other' =
            get_elem?-set_other p dest (src + 1 + (i - (dest + 1))) c (omega (arith, h)) in
          let source : dest < i → src + 1 + (i - (dest + 1)) ≡ src + (i - dest) =
            λ l. omega (arith, l) in
          elim (Bool-cases (leb (dest + 1) i)) [
            | inl behind ↦
                let l : dest < i = ground arith in
                let s = source l in ground (arith, other, other', s, l, ap (get_elem? p) s)
            | inr before ↦ ground (arith, other, e)
          ]
    ]

copy_backward-Moved :
    (p : List ℕ) (dest src count : ℕ)
    → src < dest
    → dest + count ≤ length p
    → Moved p dest src count (copy_backward p dest src count)
unfolding copy_backward
copy_backward-Moved p dest src zero h k = record { q = p; goes = refl; bytes = λ i. ground arith }
copy_backward-Moved p dest src (suc count) h k =
    let (c, loaded, stored, at) =
      copy_byte p (dest + count) (src + count) (omega (arith, k)) (omega (arith, h, k)) in
    let rest =
      copy_backward-Moved (set p (dest + count) c) dest src count h
        (omega (arith, k, length-set p (dest + count) c)) in
    record {
      q = rest.q;
      goes = bind-done _ loaded ∙ bind-done _ stored ∙ rest.goes;
      bytes = λ i. rest.bytes i ∙ byte c at i;
    }
  where
    byte :
        (c : ℕ)
        → get_elem? p (src + count) ≡ some c
        → (i : ℕ) → moved (set p (dest + count) c) dest src count i ≡ moved p dest src (suc count) i
    byte c at i = elim (Bool-cases (i == dest + count)) [
      | inl here ↦
          let e : i ≡ dest + count = ground arith in
          let same = get_elem?-set_same p (dest + count) c (omega (arith, k)) in
          let source : src + (i - dest) ≡ src + count = omega (arith, e) in
          ground (
            arith,
            e,
            same,
            at,
            source,
            ap (get_elem? p) source,
            ap (get_elem? (set p (dest + count) c)) e,
          )
      | inr away ↦
          let e : i ≢ dest + count = ground arith in
          let other = get_elem?-set_other p (dest + count) i c (λ d. e (sym d)) in
          elim (Bool-cases (leb dest i && ltb i (dest + count))) [
            | inl inside ↦
                let l : dest ≤ i = ground arith in
                let u : i < dest + count = ground arith in
                let other' =
                  get_elem?-set_other p (dest + count) (src + (i - dest)) c
                    (λ d. omega (arith, d, l, u, h)) in
                ground (arith, other', l, u)
            | inr outside ↦ ground (arith, other, e, outside)
          ]
    ]

-- `memmove` between two ranges inside of an array: it comes to an end inside of the array, and leaves
-- in the destination the bytes that the source held before, and every other byte as it was, however
-- the two ranges overlap.
pub memmove-moved :
    (p : List ℕ) (dest src count : ℕ)
    → src + count ≤ length p
    → dest + count ≤ length p
    → (q : List ℕ) × (memmove p dest src count ≡ done q)
      × ((i : ℕ) → get_elem? q i ≡ moved p dest src count i)
unfolding memmove
memmove-moved p dest src count h k = elim (Bool-cases (leb dest src)) [
  | inl forward ↦
      let order : dest ≤ src = ground arith in
      let m = copy_forward-Moved p dest src count order h in (m.q, rw forward m.goes, m.bytes)
  | inr backward ↦
      let order : src < dest = ground arith in
      let m = copy_backward-Moved p dest src count order k in (m.q, rw backward m.goes, m.bytes)
]
