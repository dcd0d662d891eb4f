-- ===== src/Env/Erase.antt =====
-- The deletion of a definition by `_do_setenv`, and the bytes that are left.
use armboot.Prelude.{
  ℕ, suc, ◌+◌, ◌-◌, ◌≡◌, ◌≢◌, ◌∙◌, refl, sym, ap, List, [], ◌∷◌, ◌++◌, arith, lt→ltb, length,
  length-append, ==_ne, append_assoc, Exec, done,
}
use armboot.Memory.{load, store}
use armboot.Memory.Laws.{load-append, store-append}
use armboot.Env.Image.{
  Entry, IsName, AreEntries, text, encode, encoded_length, length-encode, encode-append,
}
use armboot.Env.Shift.{shift-Moved, text-cons, append-cons}
use armboot.Env.Shift.Texts.{Moved}
use armboot.Env.Setenv.Loops.{shift, delete}

pub encode_rest : (es : List Entry) (rest : List ℕ) → encode es rest ≡ encode es [] ++ rest
encode_rest [] rest = refl
encode_rest (e ∷ es) rest = rw (encode_rest es rest, append_assoc (text e) (0 ∷ encode es []) rest)

pub length-encode_nil : (es : List Entry) → length (encode es []) ≡ encoded_length es
length-encode_nil es = omega (arith, length-encode es [])

store_behind :
    (before : List ℕ) (es : List Entry) (h : ℕ) (t : List ℕ) (i : ℕ)
    → i ≡ length before + encoded_length es
    → store (before ++ encode es (h ∷ t)) i 0 ≡ done (before ++ encode es (0 ∷ t))
store_behind before es h t i e =
    rw
      (
        encode_rest es (h ∷ t),
        encode_rest es (0 ∷ t),
        sym (append_assoc before (encode es []) (h ∷ t)),
        sym (append_assoc before (encode es []) (0 ∷ t)),
      )
      (store-append (before ++ encode es []) t h 0 i
        (omega (arith, length-append before (encode es []), length-encode_nil es)))

append_cons_ne_nil : (pre : List Entry) (f : Entry) (fs : List Entry) → pre ++ f ∷ fs ≢ []
append_cons_ne_nil [] f fs h = cc
append_cons_ne_nil (_ ∷ _) f fs h = cc

-- The image before the deletion, and what is left of it.
abbrev pub whole : List Entry → Entry → List Entry → List ℕ → List ℕ
whole pre e post slack = encode pre (text e ++ 0 ∷ encode post (0 ∷ slack))

pub record Left (es : List Entry) (r : Exec (List ℕ)) : Type 0 where
  pub slack : List ℕ
  pub result : r ≡ done (encode es (0 ∷ slack))
  pub two_zeros : es ≡ [] → (s : List ℕ) × (slack ≡ 0 ∷ s)

module _ (e : Entry) (slack : List ℕ) (name : IsName e.name) where
  -- The character behind the definition's '\0'.
  load_next :
      (pre post : List Entry) (c : ℕ) (rest : List ℕ)
      → encode post (0 ∷ slack) ≡ c ∷ rest
      → load (whole pre e post slack) (encoded_length pre + length (text e) + 1) ≡ done c
  load_next pre post c rest h =
      rw
        (
          encode_rest pre (text e ++ 0 ∷ encode post (0 ∷ slack)),
          h,
          sym (append_assoc (encode pre []) (text e) (0 ∷ c ∷ rest)),
          sym (append_assoc (encode pre [] ++ text e) (0 ∷ []) (c ∷ rest)),
        )
        (load-append ((encode pre [] ++ text e) ++ 0 ∷ []) rest c _ (
          omega (
            arith,
            length-append (encode pre [] ++ text e) (0 ∷ []),
            length-append (encode pre []) (text e),
            length-encode_nil pre,
          )))

  pub delete_only : Left [] (delete (whole [] e [] slack) 0 (0 + length (text e)))
  unfolding delete
  delete_only =
      let (d, t, eq, d_ne) = text-cons e.name e.value name in
      let (h, u, eq') = append-cons t 0 (0 ∷ slack) in
      let next = load_next [] [] 0 slack refl in
      let image : whole [] e [] slack ≡ d ∷ h ∷ u = rw (eq, eq') in
      let first = store-append [] (h ∷ u) d 0 0 refl in
      let second = store-append (0 ∷ []) u h 0 (0 + 1) refl in
      record {
        slack = 0 ∷ u;
        result = ground (arith, next, image, first, second);
        two_zeros = λ _. (u, refl);
      }

  pub delete_last :
      (g : Entry) (gs : List Entry)
      → Left (g ∷ gs) (
          delete
            (whole (g ∷ gs) e [] slack)
            (encoded_length (g ∷ gs))
            (encoded_length (g ∷ gs) + length (text e)))
  unfolding delete
  delete_last g gs =
      let (d, t, eq, d_ne) = text-cons e.name e.value name in
      let u = t ++ 0 ∷ 0 ∷ slack in
      let pre = encode (g ∷ gs) [] in
      let env = encoded_length (g ∷ gs) in
      let next = load_next (g ∷ gs) [] 0 slack refl in
      let image : whole (g ∷ gs) e [] slack ≡ pre ++ d ∷ u = encode_rest (g ∷ gs) _ ∙ rw eq in
      let at_env : env - 1 + 1 ≡ length pre = omega (arith, length-encode_nil (g ∷ gs)) in
      let stored = store-append pre u d 0 (env - 1 + 1) at_env in
      let back = encode_rest (g ∷ gs) (0 ∷ u) in
      record {
        slack = u;
        result = rw (next, image, lt→ltb 0 env (omega arith)) (stored ∙ ap done (sym back));
        two_zeros = λ h. cc;
      }

  moves :
      (pre : List Entry) (f : Entry) (fs : List Entry)
      → AreEntries (f ∷ fs)
      → Moved (encode pre []) (f ∷ fs) (
          shift
            (suc (length (whole pre e (f ∷ fs) slack)))
            (whole pre e (f ∷ fs) slack)
            (encoded_length pre)
            (encoded_length pre + length (text e) + 1))
  moves pre f fs hs =
      let gap = text e ++ 0 ∷ [] in
      let rest = encode (f ∷ fs) (0 ∷ slack) in
      let image : whole pre e (f ∷ fs) slack ≡ encode pre [] ++ (gap ++ rest) =
        encode_rest pre _ ∙ rw (append_assoc (text e) (0 ∷ []) rest) in
      let env : encoded_length pre ≡ length (encode pre []) = sym (length-encode_nil pre) in
      let nxt : length (encode pre []) + length (text e) + 1 ≡ length (encode pre []) + length gap =
        omega (arith, length-append (text e) (0 ∷ [])) in
      rw (image, env, nxt)
        (shift-Moved fs f (encode pre []) gap slack (suc (length (encode pre [] ++ (gap ++ rest))))
          (omega (arith, length-append (text e) (0 ∷ []))) hs
          (omega (
            arith,
            length-append (encode pre []) (gap ++ rest),
            length-append gap rest,
            length-encode (f ∷ fs) (0 ∷ slack),
          )))

  pub delete_inner :
      (pre : List Entry) (f : Entry) (fs : List Entry)
      → AreEntries (f ∷ fs)
      → Left (pre ++ f ∷ fs) (
          delete
            (whole pre e (f ∷ fs) slack)
            (encoded_length pre)
            (encoded_length pre + length (text e)))
  unfolding delete
  delete_inner pre f fs hs =
      let m = moves pre f fs hs in
      let (d, t, eq, d_ne) = text-cons f.name f.value hs.0 in
      let rest = t ++ 0 ∷ encode fs (0 ∷ slack) in
      let next = load_next pre (f ∷ fs) d rest (rw eq) in
      let stored = store_behind (encode pre []) (f ∷ fs) m.head m.tail (m.last + 1) m.last_is in
      let back : encode pre [] ++ encode (f ∷ fs) (0 ∷ m.tail)
          ≡ encode (pre ++ f ∷ fs) (0 ∷ m.tail) =
        sym (encode_rest pre _) ∙ sym (encode-append pre (f ∷ fs) (0 ∷ m.tail)) in
      record {
        slack = m.tail;
        result = rw (next, ==_ne d 0 d_ne, m.result) (stored ∙ ap done back);
        two_zeros = λ h. absurd (append_cons_ne_nil pre f fs h);
      }
