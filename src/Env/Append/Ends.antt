-- ===== src/Env/Append/Ends.antt =====
-- The searches for the end of the environment, and the lengths, in common/cmd_nvedit.c.
use armboot.Prelude.{
  ℕ, suc, ◌+◌, ◌-◌, ◌<◌, ◌≡◌, ◌∙◌, refl, sym, List, [], ◌∷◌, ◌++◌, arith, ltb, if◌then◌else◌,
  length, length-append, append_assoc, done, fault,
}
use armboot.Memory.{load, store}
use armboot.Memory.Laws.{Reads, Reads-append, Reads-load, load-append, store-append, store-fault}
use armboot.CString.{CString}
use armboot.CString.Laws.{strlen-eq-length}
use armboot.Env.Image.{
  Entry, IsText, AreEntries, text, encode, encoded_length, length-encode, definition-IsText,
}
use armboot.Env.Lookup.{first_char}
use armboot.Env.Write.{joined}
use armboot.Env.Setenv.Loops.{find_double, entry_length, lengths}

-- The loop that looks for two '\0' in a row.
find_double_text :
    (cs rest : List ℕ) (p : List ℕ) (i fuel k : ℕ)
    → IsText cs
    → k ≡ length cs + fuel
    → Reads (load p) i (cs ++ rest)
    → find_double k p i ≡ find_double fuel p (i + length cs)
unfolding find_double
find_double_text [] rest p i fuel k t e r =
    let e' : k ≡ fuel = omega arith in let e'' : i + 0 ≡ i = omega arith in rw (e', e'')
find_double_text (c ∷ cs) rest p i fuel k t e r =
    let e' : k ≡ suc (length cs + fuel) = omega arith in
    let e'' : i + suc (length cs) ≡ i + 1 + length cs = omega arith in
    rw (e', e'')
      (ground
        (arith, r.0, t.0, find_double_text cs rest p (i + 1) fuel (length cs + fuel) t.1 refl r.1))

find_double-encode :
    (fs : List Entry) (f : Entry) (slack p : List ℕ) (i k : ℕ)
    → AreEntries (f ∷ fs)
    → encoded_length (f ∷ fs) < k
    → Reads (load p) i (encode (f ∷ fs) (0 ∷ slack))
    → (last : ℕ) × (find_double k p i ≡ done last) × (last + 1 ≡ i + encoded_length (f ∷ fs))
unfolding find_double
find_double-encode [] f slack p i k hs h r =
    let n : ℕ = k - (length (text f) + 1) in
    let (_, nul) = Reads-append (load p) i _ (text f) (0 ∷ 0 ∷ slack) refl r in
    let skip =
      find_double_text (text f) (0 ∷ 0 ∷ slack) p i (suc n) k
        (definition-IsText f.name f.value hs.0 hs.1) (omega arith) r in
    (i + length (text f), skip ∙ rw (nul.0, nul.1.0), omega arith)
find_double-encode (f' ∷ fs) f slack p i k hs h r =
    let n : ℕ = k - (length (text f) + 1) in
    let rest = encode (f' ∷ fs) (0 ∷ slack) in
    let (_, nul) = Reads-append (load p) i _ (text f) (0 ∷ rest) refl r in
    let (d, next, d_ne) =
      first_char (load p) f'.name f'.value (0 ∷ encode fs (0 ∷ slack)) (i + length (text f) + 1)
        hs.2.0 nul.1 in
    let skip =
      find_double_text (text f) (0 ∷ rest) p i (suc n) k
        (definition-IsText f.name f.value hs.0 hs.1) (omega arith) r in
    let (last, found, last_is) =
      find_double-encode fs f' slack p (i + length (text f) + 1) n hs.2 (omega arith) nul.1 in
    (last, skip ∙ ground (arith, nul.0, next, d_ne, found), omega arith)

-- Where the new definition goes: behind all others.
pub find_double_end :
    (es : List Entry) (slack : List ℕ)
    → AreEntries es
    → (es ≡ [] → (s : List ℕ) × (slack ≡ 0 ∷ s))
    → (e : ℕ) × (find_double (suc (length (encode es (0 ∷ slack)))) (encode es (0 ∷ slack)) 0
        ≡ done e)
      × ((if ltb 0 e then e + 1 else e) ≡ encoded_length es)
unfolding find_double
find_double_end [] slack hs z =
    let (s, e) = z refl in
    (
      0,
      rw e (ground (arith, load-append [] (0 ∷ s) 0 0 refl, load-append (0 ∷ []) s 0 1 refl)),
      refl,
    )
find_double_end (f ∷ fs) slack hs z =
    let p = encode (f ∷ fs) (0 ∷ slack) in
    let (last, found, last_is) =
      find_double-encode fs f slack p 0 (suc (length p)) hs
        (omega (arith, length-encode (f ∷ fs) (0 ∷ slack))) (Reads-load [] p 0 refl) in
    (last, found, ground (arith, length-append f.name (b'=' ∷ f.value)))

lengths-joined : (v : CString) (vs : List CString) → lengths (v ∷ vs) ≡ length (joined v vs) + 1
lengths-joined v [] = omega (arith, strlen-eq-length v)
lengths-joined v (w ∷ ws) =
    omega (arith, strlen-eq-length v, lengths-joined w ws, length-append v (b' ' ∷ joined w ws))

-- `len` counts the new definition and two '\0'.
pub entry_length-eq :
    (name v : CString) (vs : List CString)
    → entry_length name (v ∷ vs) ≡ length name + length (joined v vs) + 3
entry_length-eq name v vs = omega (arith, strlen-eq-length name, lengths-joined v vs)

pub store_second :
    (b rest : List ℕ) (x i : ℕ)
    → i ≡ length b + 1
    → store (b ++ 0 ∷ x ∷ rest) i 0 ≡ done (b ++ 0 ∷ 0 ∷ rest)
store_second b rest x i e =
    rw (sym (append_assoc b (0 ∷ []) (x ∷ rest)), sym (append_assoc b (0 ∷ []) (0 ∷ rest)))
      (store-append (b ++ 0 ∷ []) rest x 0 i (omega (arith, length-append b (0 ∷ []))))

pub store_second-fault : (b : List ℕ) (i : ℕ) → i ≡ length b + 1 → store (b ++ 0 ∷ []) i 0 ≡ fault
store_second-fault b i e = store-fault (b ++ 0 ∷ []) i 0 (omega (arith, length-append b (0 ∷ [])))
