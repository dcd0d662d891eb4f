-- ===== src/Env/Storage/Sectors.antt =====
-- The sectors that hold the environment, for board/lart/env.c: their protection, and what a write meets.
use armboot.Prelude.{
  ℕ, suc, ◌+◌, ◌<◌, ◌≤◌, ◌≡◌, ap, sym, subst, refl, false, inl, inr, List, [], ◌∷◌, ◌++◌, arith,
  map, length, ◌==◌,
}
use armboot.Prelude.Int.{pos}
use armboot.Flash.{Sector, Bank, start_of}
use armboot.Flash.Sectors.{IsBank, Ascending, limit_of, last_address, Touched, behind, start_lt}
use armboot.Flash.Erase.{flash_sect_protect, protect_banks}
use armboot.Flash.Erase.Aligned.{protected, protect_bank-aligned}
use armboot.Flash.Write.{next_start}
use armboot.Flash.Write.Guard.Hits.{Guarded}

-- The start addresses stay where they are.
Ascending-protected :
    (limit p : ℕ) (xs ys : List Sector)
    → Ascending limit (xs ++ ys)
    → Ascending limit (map (protected p) xs ++ ys)
Ascending-protected limit p [] ys h = h
Ascending-protected limit p (x ∷ []) [] h = h
Ascending-protected limit p (x ∷ []) (y ∷ ys) h = h
Ascending-protected limit p (x ∷ z ∷ xs) ys h = (h.0, Ascending-protected limit p (z ∷ xs) ys h.1)

Ascending-inner :
    (limit p : ℕ) (pre : List Sector) (s : Sector) (mid post : List Sector)
    → Ascending limit (pre ++ ((s ∷ mid) ++ post))
    → Ascending limit (pre ++ (map (protected p) (s ∷ mid) ++ post))
Ascending-inner limit p [] s mid post h = Ascending-protected limit p (s ∷ mid) post h
Ascending-inner limit p (x ∷ []) s mid post h =
    (h.0, Ascending-protected limit p (s ∷ mid) post h.1)
Ascending-inner limit p (x ∷ y ∷ pre) s mid post h =
    (h.0, Ascending-inner limit p (y ∷ pre) s mid post h.1)

-- No sector that begins behind `end` is met.
pub not_behind :
    (addr end limit : ℕ) (post : List Sector)
    → Ascending limit post
    → end < next_start limit post
    → ¬ Guarded addr end limit post
unfolding Guarded Touched
not_behind addr end limit [] asc h g = g
not_behind addr end limit (t ∷ post) asc h (inl (_, (a, low, _, _, high))) =
    omega (arith, low, high, h)
not_behind addr end limit (t ∷ post) asc h (inr g) =
    not_behind addr end limit post (behind limit t post asc) (further post asc) g
  where
    further : (xs : List Sector) → Ascending limit (t ∷ xs) → end < next_start limit xs
    further [] k = omega (arith, h, k)
    further (u ∷ xs) k = omega (arith, h, k.0)

-- None that is not protected is met.
pub not_inner :
    (addr end limit : ℕ) (xs post : List Sector)
    → ¬ Guarded addr end limit post
    → ¬ Guarded addr end limit (map (protected 0) xs ++ post)
unfolding Guarded
not_inner addr end limit [] post h g = h g
not_inner addr end limit (x ∷ xs) post h (inl (guarded, _)) = guarded refl
not_inner addr end limit (x ∷ xs) post h (inr g) = not_inner addr end limit xs post h g

before_lt :
    (limit : ℕ) (x s : Sector) (pre rest : List Sector)
    → Ascending limit (x ∷ (pre ++ s ∷ rest))
    → x.start < s.start
before_lt limit x s [] rest asc = asc.0
before_lt limit x s (y ∷ pre) rest asc = omega (arith, asc.0, before_lt limit y s pre rest asc.1)

last_before :
    (limit : ℕ) (x s : Sector) (pre rest : List Sector)
    → Ascending limit (x ∷ (pre ++ s ∷ rest))
    → last_address limit (pre ++ s ∷ rest) < s.start
last_before limit x s [] rest asc = omega (arith, asc.0)
last_before limit x s (y ∷ pre) rest asc = omega (arith, before_lt limit y s pre rest asc.1)

pub not_before :
    (addr end limit : ℕ) (pre : List Sector) (s : Sector) (rest : List Sector)
    → Ascending limit (pre ++ s ∷ rest)
    → s.start ≤ addr
    → ¬ Guarded addr end limit (s ∷ rest)
    → ¬ Guarded addr end limit (pre ++ s ∷ rest)
unfolding Guarded Touched
not_before addr end limit [] s rest asc h n g = n g
not_before addr end limit (x ∷ pre) s rest asc h n (inl (_, (a, _, high, low, _))) =
    omega (arith, high, low, h, last_before limit x s pre rest asc)
not_before addr end limit (x ∷ pre) s rest asc h n (inr g) =
    not_before addr end limit pre s rest (behind limit x (pre ++ s ∷ rest) asc) h n g

pub Ascending-rest :
    (limit : ℕ) (xs ys : List Sector) → Ascending limit (xs ++ ys) → Ascending limit ys
Ascending-rest limit [] ys h = h
Ascending-rest limit (x ∷ xs) ys h = Ascending-rest limit xs ys (behind limit x (xs ++ ys) h)

-- The sectors `s ∷ mid` of a bank, once their protection is `p`.
abbrev pub with_protection : ℕ → Bank → List Sector → Sector → List Sector → List Sector → Bank
with_protection p info pre s mid post = record info {
  sectors = pre ++ (map (protected p) (s ∷ mid) ++ post);
}

pub start-with_protection :
    (p : ℕ) (info : Bank) (pre : List Sector) (s : Sector) (mid post : List Sector)
    → info.sectors ≡ pre ++ ((s ∷ mid) ++ post)
    → start_of (with_protection p info pre s mid post).sectors ≡ start_of info.sectors
start-with_protection p info [] s mid post h = rw h refl
start-with_protection p info (x ∷ pre) s mid post h = rw h refl

pub with_protection-IsBank :
    (p : ℕ) (info : Bank) (pre : List Sector) (s : Sector) (mid post : List Sector)
    → IsBank info
    → info.sectors ≡ pre ++ ((s ∷ mid) ++ post)
    → IsBank (with_protection p info pre s mid post)
with_protection-IsBank p info pre s mid post b parts = record {
  known = b.known;
  first = (head_of pre).0;
  others = (head_of pre).1;
  sectors_are = (head_of pre).2;
  ascending =
      subst (λ l. Ascending l (pre ++ (map (protected p) (s ∷ mid) ++ post))) (sym same_limit)
        (Ascending-inner (limit_of info) p pre s mid post
          (subst (Ascending (limit_of info)) parts b.ascending));
  in_range = omega (arith, b.in_range, same_limit);
}
  where
    same_limit : limit_of (with_protection p info pre s mid post) ≡ limit_of info
    same_limit = ap (λ (n : ℕ). n + info.size) (start-with_protection p info pre s mid post parts)

    head_of :
        (xs : List Sector)
        → (first : Sector) × (others : List Sector) × (xs ++ (map (protected p) (s ∷ mid) ++ post)
            ≡ first ∷ others)
    head_of [] = (_, _, refl)
    head_of (x ∷ xs) = (_, _, refl)

pub protected_twice :
    (p q : ℕ) (xs : List Sector) → map (protected p) (map (protected q) xs) ≡ map (protected p) xs
protected_twice p q [] = refl
protected_twice p q (x ∷ xs) = ap (◌∷◌ (protected p x)) (protected_twice p q xs)

pub length-protected : (p : ℕ) (xs : List Sector) → length (map (protected p) xs) ≡ length xs
length-protected p [] = refl
length-protected p (x ∷ xs) = ap suc (length-protected p xs)

pub last-bounds :
    (limit : ℕ) (s : Sector) (mid post : List Sector)
    → Ascending limit (s ∷ (mid ++ post))
    → (last_address limit post < limit) × (last_address limit post < next_start limit post)
last-bounds limit s [] [] asc = (omega (arith, asc), omega (arith, asc))
last-bounds limit s [] (t ∷ post) asc =
    (omega (arith, asc.0, start_lt limit t post asc.1), omega (arith, asc.0))
last-bounds limit s (m ∷ mid) post asc = last-bounds limit m mid post asc.1

pub start-le :
    (limit : ℕ) (pre : List Sector) (s : Sector) (rest : List Sector)
    → Ascending limit (pre ++ s ∷ rest)
    → start_of (pre ++ s ∷ rest) ≤ s.start
start-le limit [] s rest asc = omega arith
start-le limit (x ∷ pre) s rest asc = omega (arith, before_lt limit x s pre rest asc)

pub protect_aligned :
    (p : ℕ) (info : Bank) (pre : List Sector) (s : Sector) (mid post : List Sector)
    → IsBank info
    → info.sectors ≡ pre ++ ((s ∷ mid) ++ post)
    → flash_sect_protect p s.start (last_address (limit_of info) post) (info ∷ [])
      ≡ (pos 0, with_protection p info pre s mid post ∷ [])
unfolding flash_sect_protect protect_banks
protect_aligned p info pre s mid post b parts =
    let some_sectors : (length (s ∷ mid) + 0 == 0) ≡ false = ground arith in
    rw (protect_bank-aligned p info pre s mid post b parts) (rw some_sectors refl)
