-- ===== src/Env/Image.antt =====
-- The abstract environment: a list of definitions, and the bytes that represent it.
use armboot.Prelude.{
  ℕ, ◌+◌, ◌≡◌, ◌≢◌, ◌↔◌, refl, Bool, true, false, ◌&&◌, List, [], ◌∷◌, ◌++◌, Option, none, some,
  arith, ◌==◌, if◌then◌else◌, length, length-append,
}
use armboot.CString.{CString}
pub use armboot.CString.{IsText}

pub record Entry : Type 0 where
  pub name : CString
  pub value : CString

abbrev pub IsName : CString → Type 0
IsName [] = Unit {0}
IsName (c ∷ cs) = (c ≢ 0) × (c ≢ b'=') × IsName cs

abbrev pub AreEntries : List Entry → Type 0
AreEntries [] = Unit {0}
AreEntries (e ∷ es) = IsName e.name × IsText e.value × AreEntries es

-- "name=value"
abbrev pub text : Entry → List ℕ
text e = e.name ++ b'=' ∷ e.value

-- The definitions, each with its '\0', in front of `rest`.
abbrev pub encode : List Entry → List ℕ → List ℕ
encode [] rest = rest
encode (e ∷ es) rest = text e ++ 0 ∷ encode es rest

abbrev pub encoded_length : List Entry → ℕ
encoded_length [] = 0
encoded_length (e ∷ es) = length (text e) + 1 + encoded_length es

unfoldable pub same : CString → CString → Bool
same [] [] = true
same [] (t ∷ ts) = false
same (s ∷ ss) [] = false
same (s ∷ ss) (t ∷ ts) = s == t && same ss ts

pub same_iff : (s t : CString) → (same s t ≡ true) ↔ (s ≡ t)
unfolding same
same_iff (s ∷ ss) (t ∷ ts) = ground (arith, same_iff ss ts)
same_iff [] [] = ground arith
same_iff [] (t ∷ ts) = ground arith
same_iff (s ∷ ss) [] = ground arith

-- The value of a name, and the definitions without the first of that name.
unfoldable pub lookup : CString → List Entry → Option CString
lookup name [] = none
lookup name (e ∷ es) = if same name e.name then some e.value else lookup name es

unfoldable pub erase : CString → List Entry → List Entry
erase name [] = []
erase name (e ∷ es) = if same name e.name then es else e ∷ erase name es

-- The bytes start with the definitions and the second '\0'; where there are no definitions, two
-- of them stand at the start. What lies behind does not matter.
pub record Represents (image : List ℕ) (es : List Entry) : Type 0 where
  pub slack : List ℕ
  pub image_is : image ≡ encode es (0 ∷ slack)
  pub entries : AreEntries es
  pub two_zeros : es ≡ [] → (s : List ℕ) × (slack ≡ 0 ∷ s)

pub encode-append :
    (es fs : List Entry) (rest : List ℕ) → encode (es ++ fs) rest ≡ encode es (encode fs rest)
encode-append [] fs rest = refl
encode-append (e ∷ es) fs rest = rw (encode-append es fs rest)

pub length-encode :
    (es : List Entry) (rest : List ℕ) → length (encode es rest) ≡ encoded_length es + length rest
length-encode [] rest = omega arith
length-encode (e ∷ es) rest =
    omega (arith, length-append (text e) (0 ∷ encode es rest), length-encode es rest)

pub definition-IsText :
    (name value : CString) → IsName name → IsText value → IsText (name ++ b'=' ∷ value)
definition-IsText [] value h k = (λ e. omega arith, k)
definition-IsText (c ∷ cs) value h k = (h.0, definition-IsText cs value h.2 k)
