-- ===== src/Env/Lookup.antt =====
-- `getenv` of common/cmd_nvedit.c against the abstract lookup, in each copy of the environment.
use armboot.Prelude.{
  ℕ, zero, suc, ◌+◌, ◌<◌, ◌≤◌, ◌≡◌, ◌≢◌, refl, List, [], ◌∷◌, ◌++◌, Option, none, some, arith,
  if◌then◌else◌, length, length-append, append_assoc, Exec, done,
}
use armboot.Memory.Laws.{Reads, Reads-append}
use armboot.CString.{CString}
use armboot.Env.Image.{
  Entry, IsText, IsName, AreEntries, text, encode, encoded_length, same, lookup, definition-IsText,
}
use armboot.Env.{
  Board, Config, find_end, envmatch, getenv_from, string_at, read_value, get_env_char, env_size,
  getenv, getenv_value,
}

-- Where the value of a name begins, counted from index `i`.
abbrev pub position : CString → List Entry → ℕ → Option ℕ
position name [] i = none
position name (e ∷ es) i =
    if same name e.name
    then some (i + length e.name + 1)
    else position name es (i + length (text e) + 1)

module _ (get : ℕ → Exec ℕ) where
  pub find_end-IsText :
      (fuel i : ℕ) (cs rest : List ℕ)
      → length cs < fuel
      → IsText cs
      → Reads get i (cs ++ 0 ∷ rest)
      → find_end get fuel i ≡ done (i + length cs)
  unfolding find_end
  find_end-IsText zero i cs rest f t r = absurd (omega arith)
  find_end-IsText (suc fuel) i [] rest f t r = ground arith
  find_end-IsText (suc fuel) i (c ∷ cs) rest f t r =
      ground (arith, find_end-IsText fuel (i + 1) cs rest (omega arith) t.1 r.1)

  -- `envmatch` compares a name with the one before the '='.
  pub envmatch-same :
      (s n : CString) (i : ℕ) (rest : List ℕ)
      → IsName s
      → IsName n
      → Reads get i (n ++ b'=' ∷ rest)
      → envmatch get s i ≡ done (if same s n then some (i + length n + 1) else none)
  unfolding envmatch same
  envmatch-same [] [] i rest hs hn r = ground arith
  envmatch-same [] (x ∷ n) i rest hs hn r = ground arith
  envmatch-same (s ∷ ss) [] i rest hs hn r = ground arith
  envmatch-same (s ∷ ss) (x ∷ n) i rest hs hn r =
      ground (arith, envmatch-same ss n (i + 1) rest hs.2 hn.2 r.1)

  pub string_at-IsText :
      (fuel i : ℕ) (cs rest : List ℕ)
      → length cs < fuel
      → IsText cs
      → Reads get i (cs ++ 0 ∷ rest)
      → string_at get fuel i ≡ done cs
  unfolding string_at
  string_at-IsText zero i cs rest f t r = absurd (omega arith)
  string_at-IsText (suc fuel) i [] rest f t r = ground arith
  string_at-IsText (suc fuel) i (c ∷ cs) rest f t r =
      ground (arith, string_at-IsText fuel (i + 1) cs rest (omega arith) t.1 r.1)

  -- A definition does not begin with '\0'.
  pub first_char :
      (n v rest : List ℕ) (i : ℕ)
      → IsName n
      → Reads get i ((n ++ b'=' ∷ v) ++ rest)
      → (c : ℕ) × (get i ≡ done c) × (c ≢ 0)
  first_char [] v rest i h r = (b'=', r.0, λ e. omega arith)
  first_char (c ∷ n) v rest i h r = (c, r.0, h.0)

  getenv_from-position :
      (fuel size i : ℕ) (name : CString) (es : List Entry) (rest : List ℕ)
      → encoded_length es < fuel
      → encoded_length es ≤ size
      → IsName name
      → AreEntries es
      → Reads get i (encode es (0 ∷ rest))
      → getenv_from get fuel size name i ≡ done (position name es i)
  unfolding getenv_from
  getenv_from-position zero size i name es rest f k hn hs r = absurd (omega arith)
  getenv_from-position (suc fuel) size i name [] rest f k hn hs r = ground arith
  getenv_from-position (suc fuel) size i name (e ∷ es) rest f k hn hs r =
      let (c, first, ne) = first_char e.name e.value (0 ∷ encode es (0 ∷ rest)) i hs.0 r in
      let (_, later) = Reads-append get i _ (text e) (0 ∷ encode es (0 ∷ rest)) refl r in
      let found =
        find_end-IsText (suc size) i (text e) (encode es (0 ∷ rest)) (omega arith)
          (definition-IsText e.name e.value hs.0 hs.1) r in
      let matched =
        envmatch-same name e.name i (e.value ++ 0 ∷ encode es (0 ∷ rest)) hn hs.0
          (rw append_assoc at r) in
      let after =
        getenv_from-position fuel size (i + length (text e) + 1) name es rest (omega arith)
          (omega arith) hn hs.2 later.1 in
      ground (arith, first, ne, found, matched, after)

  read_value-position :
      (size i : ℕ) (name : CString) (es : List Entry) (rest : List ℕ)
      → encoded_length es ≤ size
      → AreEntries es
      → Reads get i (encode es (0 ∷ rest))
      → read_value get (suc size) (position name es i) ≡ done (lookup name es)
  unfolding lookup
  read_value-position size i name [] rest k hs r = refl
  read_value-position size i name (e ∷ es) rest k hs r =
      let (_, later) = Reads-append get i _ (text e) (0 ∷ encode es (0 ∷ rest)) refl r in
      let (_, behind) =
        Reads-append get i _ e.name (b'=' ∷ e.value ++ 0 ∷ encode es (0 ∷ rest)) refl
          (rw append_assoc at r) in
      let lengths = length-append e.name (b'=' ∷ e.value) in
      let value =
        string_at-IsText (suc size) (i + length e.name + 1) e.value (encode es (0 ∷ rest))
          (omega arith) hs.1 behind.1 in
      let after =
        read_value-position size (i + length (text e) + 1) name es rest (omega arith) hs.2
          later.1 in
      ground (arith, value, after)

-- The bytes that `get_env_char` reads, from the RAM copy, from flash or from the default
-- environment, represent these definitions.
pub record Visible (cfg : Config) (bd : Board) (es : List Entry) : Type 0 where
  pub slack : List ℕ
  pub reads : Reads (get_env_char cfg bd) 0 (encode es (0 ∷ slack))
  pub fits : encoded_length es ≤ env_size cfg bd
  pub entries : AreEntries es

-- `getenv` on an environment that represents the definitions `es`: for a name with no '=' in it,
-- it returns NULL if no definition has the name, and else an address at which the value of the
-- first such definition stands as a C string.
pub getenv_value-lookup :
    (cfg : Config) (bd : Board) (name : CString) {es : List Entry}
    → Visible cfg bd es
    → IsName name
    → getenv_value cfg bd name ≡ done (lookup name es)
unfolding getenv_value getenv
getenv_value-lookup cfg bd name {es} v hn =
    rw
      (getenv_from-position (get_env_char cfg bd) (suc (env_size cfg bd)) (env_size cfg bd) 0 name
        es v.slack (omega (arith, v.fits)) v.fits hn v.entries v.reads)
      (read_value-position (get_env_char cfg bd) (env_size cfg bd) 0 name es v.slack v.fits
        v.entries v.reads)
