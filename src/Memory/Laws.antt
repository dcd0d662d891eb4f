-- ===== src/Memory/Laws.antt =====
-- What stands in memory from an index on, and what a store changes.
use armboot.Prelude.{
  ℕ, ◌+◌, ◌≤◌, ◌≡◌, refl, ap, List, [], ◌∷◌, ◌++◌, append_assoc, arith, Exec, done, fault, length,
  length-append, length-set, set,
}
use armboot.Memory.{load, store}

-- From index `i` on, `get` finds these bytes.
abbrev pub Reads : (ℕ → Exec ℕ) → ℕ → List ℕ → Type 0
Reads get i [] = Unit {0}
Reads get i (c ∷ cs) = (get i ≡ done c) × Reads get (i + 1) cs

pub Reads-append :
    (get : ℕ → Exec ℕ) (i j : ℕ) (xs ys : List ℕ)
    → i + length xs ≡ j
    → Reads get i (xs ++ ys)
    → Reads get i xs × Reads get j ys
Reads-append get i j [] ys e h = let e' : i ≡ j = omega arith in (tt, rw e' at h)
Reads-append get i j (x ∷ xs) ys e h =
    let (before, after) = Reads-append get (i + 1) j xs ys (omega arith) h.1 in
    ((h.0, before), after)

pub load-append : (xs ys : List ℕ) (c i : ℕ) → i ≡ length xs → load (xs ++ c ∷ ys) i ≡ done c
unfolding load
load-append [] ys c i e = rw e
load-append (x ∷ xs) ys c i e = rw e (load-append xs ys c (length xs) refl)

set-append : (xs ys : List ℕ) (c v : ℕ) → set (xs ++ c ∷ ys) (length xs) v ≡ xs ++ v ∷ ys
set-append [] ys c v = refl
set-append (x ∷ xs) ys c v = ap (◌∷◌ x) (set-append xs ys c v)

pub store-append :
    (xs ys : List ℕ) (c v i : ℕ) → i ≡ length xs → store (xs ++ c ∷ ys) i v ≡ done (xs ++ v ∷ ys)
unfolding store
store-append xs ys c v i e = rw e (ground (arith, set-append xs ys c v, length-append xs (c ∷ ys)))

pub Reads-load : (pre xs : List ℕ) (i : ℕ) → i ≡ length pre → Reads (load (pre ++ xs)) i xs
Reads-load pre [] i e = tt
Reads-load pre (x ∷ xs) i e = (
  load-append pre xs x i e,
  rw append_assoc at
      (Reads-load (pre ++ x ∷ []) xs (i + 1) (omega (arith, length-append pre (x ∷ [])))),
)

pub length-store : (p q : List ℕ) (i v : ℕ) → store p i v ≡ done q → length q ≡ length p
unfolding store
length-store p q i v h = ground (arith, length-set p i v)

pub store-fault : (p : List ℕ) (i v : ℕ) → length p ≤ i → store p i v ≡ fault
unfolding store
store-fault p i v h = ground arith
