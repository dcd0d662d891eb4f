-- ===== src/Env/Reread.antt =====
-- `getenv` after `_do_setenv`.
use armboot.Prelude.{
  ℕ, ◌+◌, ◌≤◌, ◌≡◌, ◌∙◌, refl, ap, ◌⊎◌, inl, inr, Bool, true, false, Bool-cases, List, [], ◌∷◌,
  ◌++◌, Option, none, some, arith, if◌then◌else◌, length, Exec, done,
}
use armboot.Memory.Laws.{Reads-load}
use armboot.Crc.{crc32}
use armboot.CString.{CString}
use armboot.Env.{Env, Board, Config, env_char, getenv_value}
use armboot.Env.Image.{
  Entry, IsText, IsName, encode, encoded_length, length-encode, same, same_iff, lookup, erase,
  Represents,
}
use armboot.Env.Lookup.{Visible, getenv_value-lookup}
use armboot.Env.Write.{joined}
use armboot.Env.Append.{entry}
use armboot.Env.Prepare.{IsPlain}
use armboot.Env.Refine.{do_setenv-refines}
use armboot.Env.Setenv.{do_setenv, with_image, update_copies}
use armboot.Env.Setenv.Loops.{entry_length}

-- No name is defined twice.
abbrev pub Distinct : List Entry → Type 0
Distinct [] = Unit {0}
Distinct (e ∷ es) = (lookup e.name es ≡ none) × Distinct es

same_refl : (s : CString) → same s s ≡ true
same_refl s = (same_iff s s).1 refl

lookup_name : (n m : CString) (es : List Entry) → same n m ≡ true → lookup n es ≡ lookup m es
lookup_name n m es h = ap (λ k. lookup k es) ((same_iff n m).0 h)

-- Lookups behind an erasure, and before a definition that is added at the end.
lookup-erase :
    (n name : CString) (es : List Entry)
    → Distinct es
    → lookup n (erase name es) ≡ (if same n name then none else lookup n es)
unfolding lookup erase
lookup-erase n name [] d = elim (Bool-cases (same n name)) [ inl h ↦ rw h | inr h ↦ rw h ]
lookup-erase n name (e ∷ es) d = ground (
  arith,
  lookup-erase n name es d.1,
  same_iff n name,
  same_iff n e.name,
  same_iff name e.name,
  d.0,
)

lookup-concat :
    (n : CString) (es : List Entry) (e : Entry)
    → lookup n (es ++ e ∷ [])
      ≡ elim (lookup n es) [ none ↦ if same n e.name then some e.value else none | some x ↦ some x ]
unfolding lookup
lookup-concat n [] e = refl
lookup-concat n (f ∷ es) e = elim (Bool-cases (same n f.name)) [
  | inl h ↦ rw h
  | inr h ↦ rw h (lookup-concat n es e)
]

Distinct-erase : (name : CString) (es : List Entry) → Distinct es → Distinct (erase name es)
unfolding erase
Distinct-erase name [] d = tt
Distinct-erase name (e ∷ es) d = elim (Bool-cases (same name e.name)) [
  | inl h ↦ rw h d.1
  | inr h ↦ rw h (kept, Distinct-erase name es d.1)
]
  where
    kept : lookup e.name (erase name es) ≡ none
    kept = lookup-erase e.name name es d.1 ∙ ground (arith, d.0)

Distinct-concat :
    (es : List Entry) (e : Entry) → Distinct es → lookup e.name es ≡ none → Distinct (es ++ e ∷ [])
unfolding lookup
Distinct-concat [] e d h = (refl, tt)
Distinct-concat (f ∷ es) e d h = elim (Bool-cases (same e.name f.name)) [
  | inl hit ↦ absurd (ground (arith, hit, h))
  | inr miss ↦ (
    lookup-concat f.name es e
        ∙ ground (arith, d.0, miss, same_iff e.name f.name, same_iff f.name e.name),
    Distinct-concat es e d.1 (ground (arith, miss, h)),
  )
]

env-update_copies : (bd : Board) (name value : CString) → (update_copies bd name value).env ≡ bd.env
unfolding update_copies
env-update_copies bd name value = ground arith

-- The RAM copy is what `get_env_char` reads.
pub Represents-Visible :
    (cfg : Config) (bd : Board) (e : Env) (es : List Entry)
    → bd.env ≡ some e
    → Represents e.image es
    → Visible cfg bd es
unfolding env_char
Represents-Visible cfg bd e es h v = record {
  slack = v.slack;
  reads = rw (h, v.image_is) (Reads-load [] (encode es (0 ∷ v.slack)) 0 refl);
  fits =
      rw h
        (omega (arith, ap (λ (l : List ℕ). length l) v.image_is, length-encode es (0 ∷ v.slack)));
  entries = v.entries;
}

-- What `getenv` gives for `n` once `name` has been set.
abbrev pub reread : Config → Board → CString → CString → CString → Exec (Option CString)
reread cfg bd name value n = if same n name then done (some value) else getenv_value cfg bd n

lookup-set :
    (n name value : CString) (es : List Entry)
    → Distinct es
    → lookup n (erase name es ++ record { name = name; value = value } ∷ [])
      ≡ (if same n name then some value else lookup n es)
lookup-set n name value es d =
    lookup-concat n (erase name es) _
    ∙ rw (lookup-erase n name es d) (set_cases (same n name) (lookup n es))
  where
    set_cases :
        (b : Bool) (o : Option CString)
        → elim (if b then none else o) as (λ _. Option CString) [
          | none ↦ if b then some value else none
          | some x ↦ some x
        ]
          ≡ (if b then some value else o)
    set_cases true o = refl
    set_cases false none = refl
    set_cases false (some x) = refl

-- Setting a variable in an environment with no name defined twice, under the conditions of
-- `do_setenv-refines`: `_do_setenv` returns 0, and then `getenv` gives the new value, joined by
-- blanks, for that name, and for every other name what it gave before. Still no name is defined
-- twice.
pub getenv-do_setenv :
    (cfg : Config) (bd : Board) {e : Env} {es : List Entry} (name value : CString)
    (more : List CString)
    → bd.env ≡ some e
    → Represents e.image es
    → Distinct es
    → IsName name
    → (lookup name es ≡ none) ⊎ IsPlain name
    → IsText (joined value more)
    → encoded_length (erase name es) + entry_length name (value ∷ more) ≤ length e.image
    → (bd' : Board) × (do_setenv cfg bd name (value ∷ more) ≡ done (0, bd'))
      × ((n : CString)
          → IsName n
          → getenv_value cfg bd' n ≡ reread cfg bd name (joined value more) n)
      × Distinct (erase name es ++ entry name value more ∷ [])
getenv-do_setenv cfg bd {e} {es} name value more env_is v d hn allowed hv fits =
    let (r, sets, rep, _) = do_setenv-refines cfg bd name env_is v hn allowed value more hv fits in
    (update_copies (with_image bd r) name value, sets, look r rep, distinct)
  where
    distinct : Distinct (erase name es ++ entry name value more ∷ [])
    distinct =
        Distinct-concat (erase name es) _ (Distinct-erase name es d)
          (lookup-erase name name es d ∙ rw (same_refl name))

    look :
        (r : List ℕ)
        → Represents r (erase name es ++ entry name value more ∷ [])
        → (n : CString) → IsName n
        → getenv_value cfg (update_copies (with_image bd r) name value) n
          ≡ reread cfg bd name (joined value more) n
    look r rep n h =
        getenv_value-lookup cfg (update_copies (with_image bd r) name value) n
          (Represents-Visible cfg _ (record { crc = crc32 0 r; image = r }) _
            (env-update_copies (with_image bd r) name value) rep)
          h
        ∙ ap done (lookup-set n name (joined value more) es d)
        ∙ rw (getenv_value-lookup cfg bd n (Represents-Visible cfg bd e es env_is v) h)
            (at_cases (same n name))
      where
        at_cases :
            (b : Bool)
            → done (if b then some (joined value more) else lookup n es)
              ≡ (if b then done (some (joined value more)) else done (lookup n es))
        at_cases true = refl
        at_cases false = refl
