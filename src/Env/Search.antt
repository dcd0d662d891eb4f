-- ===== src/Env/Search.antt =====
-- The search of `_do_setenv` finds the first definition of the name, with its two ends.
use armboot.Prelude.{
  ℕ, zero, suc, ◌+◌, ◌<◌, ◌≤◌, ◌≡◌, ◌∙◌, refl, ap, ◌⊎◌, inl, inr, true, List, [], ◌∷◌, ◌++◌, Option,
  none, some, arith, if◌then◌else◌, Bool-cases, length, append_assoc, done,
}
use armboot.Memory.{load}
use armboot.Memory.Laws.{Reads, Reads-append, Reads-load}
use armboot.CString.{CString}
use armboot.Env.Image.{
  Entry, IsName, AreEntries, text, encode, encoded_length, length-encode, same, lookup, erase,
  definition-IsText,
}
use armboot.Env.Lookup.{find_end-IsText, envmatch-same, first_char}
use armboot.Env.Setenv.Loops.{Found, search}

abbrev pub locate : CString → List Entry → ℕ → Option Found
locate name [] i = none
locate name (e ∷ es) i =
    if same name e.name
    then some (record { env = i; nxt = i + length (text e); oldval = i + length e.name + 1 })
    else locate name es (i + length (text e) + 1)

search-locate :
    (fuel i : ℕ) (p : List ℕ) (name : CString) (es : List Entry) (rest : List ℕ)
    → encoded_length es < fuel
    → encoded_length es ≤ length p
    → IsName name
    → AreEntries es
    → Reads (load p) i (encode es (0 ∷ rest))
    → search fuel p name i ≡ done (locate name es i)
unfolding search
search-locate zero i p name es rest f k hn hs r = absurd (omega arith)
search-locate (suc fuel) i p name [] rest f k hn hs r = ground (arith, r.0)
search-locate (suc fuel) i p name (e ∷ es) rest f k hn hs r =
    let (c, first, ne) = first_char (load p) e.name e.value (0 ∷ encode es (0 ∷ rest)) i hs.0 r in
    let (_, later) = Reads-append (load p) i _ (text e) (0 ∷ encode es (0 ∷ rest)) refl r in
    let found =
      find_end-IsText (load p) (suc (length p)) i (text e) (encode es (0 ∷ rest)) (omega arith)
        (definition-IsText e.name e.value hs.0 hs.1) r in
    let matched =
      envmatch-same (load p) name e.name i (e.value ++ 0 ∷ encode es (0 ∷ rest)) hn hs.0
        (rw append_assoc at r) in
    let after =
      search-locate fuel (i + length (text e) + 1) p name es rest (omega arith) (omega arith) hn
        hs.2 later.1 in
    ground (arith, first, ne, found, matched, after)

pub search_image :
    (p : List ℕ) (name : CString) (es : List Entry) (slack : List ℕ)
    → p ≡ encode es (0 ∷ slack)
    → IsName name
    → AreEntries es
    → search (suc (length p)) p name 0 ≡ done (locate name es 0)
search_image p name es slack e hn hs =
    search-locate (suc (length p)) 0 p name es slack fits fits' hn hs
      (rw e (Reads-load [] (encode es (0 ∷ slack)) 0 refl))
  where
    size : length p ≡ encoded_length es + suc (length slack)
    size = ap length e ∙ length-encode es (0 ∷ slack)

    fits : encoded_length es < suc (length p)
    fits = omega (arith, size)

    fits' : encoded_length es ≤ length p
    fits' = omega (arith, size)

-- The definitions around the first one of the name.
pub record Around (name : CString) (es : List Entry) : Type 0 where
  pub pre : List Entry
  pub old : Entry
  pub post : List Entry
  pub es_is : es ≡ pre ++ old ∷ post
  pub erased : erase name es ≡ pre ++ post
  pub name_is : same name old.name ≡ true
  pub value_is : lookup name es ≡ some old.value

abbrev pub Around-found : {name : CString} {es : List Entry} → Around name es → ℕ → Found
Around-found a i = record {
  env = i + encoded_length a.pre;
  nxt = i + encoded_length a.pre + length (text a.old);
  oldval = i + encoded_length a.pre + length a.old.name + 1;
}

pub record Absent (name : CString) (es : List Entry) (i : ℕ) : Type 0 where
  pub located : locate name es i ≡ none
  pub erased : erase name es ≡ es
  pub unset : lookup name es ≡ none

pub record Present (name : CString) (es : List Entry) (i : ℕ) : Type 0 where
  pub around : Around name es
  pub located : locate name es i ≡ some (Around-found around i)

pub locate-cases : (name : CString) (es : List Entry) (i : ℕ) → Absent name es i ⊎ Present name es i
unfolding erase lookup
locate-cases name [] i = inl (record { located = refl; erased = refl; unset = refl })
locate-cases name (e ∷ es) i = elim (Bool-cases (same name e.name)) [
  | inl hit ↦ inr (record {
    around = record {
      pre = [];
      old = e;
      post = es;
      es_is = refl;
      erased = rw hit;
      name_is = hit;
      value_is = rw hit;
    };
    located = ground (arith, hit);
  })
  | inr miss ↦ elim (locate-cases name es (i + length (text e) + 1)) [
    | inl a ↦ inl (record {
      located = rw miss a.located;
      erased = rw (miss, a.erased);
      unset = rw miss a.unset;
    })
    | inr p ↦ inr (record {
      around = record {
        pre = e ∷ p.around.pre;
        old = p.around.old;
        post = p.around.post;
        es_is = ap (◌∷◌ e) p.around.es_is;
        erased = rw (miss, p.around.erased);
        name_is = p.around.name_is;
        value_is = rw miss p.around.value_is;
      };
      located = rw miss (p.located ∙ ap some (ground arith));
    })
  ]
]
