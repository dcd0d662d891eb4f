-- ===== src/Env/Append.antt =====
-- Writing a new definition behind the others: what it leaves where it fits, and that it leaves the
-- array where it does not.
mod Ends
use armboot.Prelude.{
  ℕ, suc, ◌+◌, ◌-◌, ◌<◌, ◌≤◌, ◌≡◌, ◌∙◌, refl, sym, ap, List, [], ◌∷◌, ◌++◌, Option, none, some,
  arith, ltb, lt→ltb, le→ltb, ltb→lt, ltb-false→le, Bool-cases, inl, inr, if◌then◌else◌, length,
  length-append, append_assoc, Exec, done, fault, ◌>>=◌,
}
use armboot.Memory.{load, store}
use armboot.Memory.Laws.{Reads, Reads-append, Reads-load, load-append, store-append, store-fault}
use armboot.CString.{CString}
use armboot.CString.Laws.{strlen-eq-length}
use armboot.Env.Image.{
  Entry, IsText, AreEntries, text, encode, encoded_length, length-encode, encode-append,
  definition-IsText,
}
use armboot.Env.Lookup.{first_char}
use armboot.Env.Erase.{encode_rest, length-encode_nil}
use armboot.Env.Write.{
  joined, Written, write_string-Written, write_string-fault, write_values-Written,
  write_values-fault,
}
use armboot.Env.Setenv.Loops.{
  find_double, write_string, write_values, append, entry_length, lengths,
}
use armboot.Env.Append.Ends.{find_double_end, entry_length-eq, store_second, store_second-fault}

abbrev pub entry : CString → CString → List CString → Entry
entry name v vs = record { name = name; value = joined v vs }

module _ (es : List Entry) (slack : List ℕ) (name v : CString) (vs : List CString)
    (hs : AreEntries es) (z : es ≡ [] → (s : List ℕ) × (slack ≡ 0 ∷ s)) where
  abbrev image : List ℕ
  image = encode es (0 ∷ slack)

  length-image : length image ≡ encoded_length es + 1 + length slack
  length-image = omega (arith, length-encode es (0 ∷ slack))

  -- The part of `append` behind the test.
  abbrev write_at : ℕ → Exec (Option (List ℕ))
  write_at env = do
    (q, e₁) ← write_string image env name
    (r, e₂) ← write_values q e₁ b'=' (v ∷ vs)
    s ← store r (e₂ + 1) 0
    done (some s)

  -- No room for the definition: a message, and nothing is written.
  pub append-none :
      length image < entry_length name (v ∷ vs) → append image name (v ∷ vs) ≡ done none
  unfolding append
  append-none h =
      let (e, found, _) = find_double_end es slack hs z in rw found (rw (lt→ltb _ _ h) refl)

  append-write_at :
      entry_length name (v ∷ vs) ≤ length image
      → append image name (v ∷ vs) ≡ write_at (encoded_length es)
  unfolding append
  append-write_at h =
      let (e, found, env_is) = find_double_end es slack hs z in
      rw found (rw (le→ltb _ _ h, env_is) refl)

  abbrev before : List ℕ
  before = encode es []

  abbrev new_text : List ℕ
  new_text = b'=' ∷ joined v vs

  name-Written :
      length name < suc (length slack)
      → Written before name
          (0 ∷ slack)
          (encoded_length es)
          (write_string image (encoded_length es) name)
  name-Written h =
      rw (encode_rest es (0 ∷ slack))
        (write_string-Written name before (0 ∷ slack) _ (sym (length-encode_nil es)) (omega arith))

  abbrev values_at : ℕ
  values_at = encoded_length es + length name

  values_at-eq : values_at ≡ length (before ++ name)
  values_at-eq = omega (arith, length-append before name, length-encode_nil es)

  -- The '\0' behind the value, and the second one, if there is room for it.
  second_fits :
      (rest : List ℕ)
      → 0 < length rest
      → (tail : List ℕ) × (store
            ((before ++ name) ++ (new_text ++ 0 ∷ rest))
            (values_at + length new_text + 1)
            0
          ≡ done (encode (es ++ entry name v vs ∷ []) (0 ∷ tail)))
  second_fits [] h = absurd (omega arith)
  second_fits (x ∷ rest) h =
      let at : values_at + length new_text + 1 ≡ length ((before ++ name) ++ new_text) + 1 =
        omega (arith, values_at-eq, length-append (before ++ name) new_text) in
      let regroup : ((before ++ name) ++ new_text) ++ 0 ∷ 0 ∷ rest
          ≡ encode (es ++ entry name v vs ∷ []) (0 ∷ rest) =
        rw (append_assoc before name new_text, append_assoc before (name ++ new_text))
          (sym (encode-append es (entry name v vs ∷ []) (0 ∷ rest) ∙ encode_rest es _)) in
      (
        rest,
        rw (sym (append_assoc (before ++ name) new_text (0 ∷ x ∷ rest)))
            (store_second ((before ++ name) ++ new_text) rest x _ at ∙ ap done regroup),
      )

  second_faults :
      (rest : List ℕ)
      → length rest ≡ 0
      → store ((before ++ name) ++ (new_text ++ 0 ∷ rest)) (values_at + length new_text + 1) 0
        ≡ fault
  second_faults [] h = rw (sym (append_assoc (before ++ name) new_text (0 ∷ []))) (
      store_second-fault ((before ++ name) ++ new_text) _
        (omega (arith, values_at-eq, length-append (before ++ name) new_text)))
  second_faults (x ∷ rest) h = absurd (omega arith)

  -- The definition fits: it stands behind the others, with the two '\0'.
  pub append-some :
      encoded_length es + entry_length name (v ∷ vs) ≤ length image
      → (tail : List ℕ) × (append image name (v ∷ vs)
          ≡ done (some (encode (es ++ entry name v vs ∷ []) (0 ∷ tail))))
  append-some h =
      let lengths = entry_length-eq name v vs in
      let w = name-Written (omega (arith, length-image)) in
      let u =
        write_values-Written vs v b'=' (before ++ name) (0 ∷ w.rest) values_at values_at-eq
          (omega (arith, length-image, w.room)) in
      let (tail, stored) = second_fits u.rest (omega (arith, length-image, w.room, u.room)) in
      (
        tail,
        append-write_at (omega arith)
            ∙ rw w.result (rw (sym (append_assoc before name (0 ∷ w.rest)), u.result) (rw stored)),
      )

  values_behind-fault :
      (rest : List ℕ)
      → length rest ≤ length new_text
      → (do
        (r, e₂) ← write_values ((before ++ name) ++ 0 ∷ rest) values_at b'=' (v ∷ vs)
        s ← store r (e₂ + 1) 0
        done (some s))
        ≡ fault
  values_behind-fault rest h = elim (Bool-cases (ltb (length new_text) (suc (length rest)))) [
    | inr short ↦ rw (
        write_values-fault vs v b'=' (before ++ name) (0 ∷ rest) values_at values_at-eq
          (ltb-false→le _ _ short))
    | inl fits ↦
        let u =
          write_values-Written vs v b'=' (before ++ name) (0 ∷ rest) values_at values_at-eq
            (ltb→lt _ _ fits) in
        rw u.result (rw (second_faults u.rest (omega (arith, u.room, ltb→lt _ _ fits))) refl)
  ]

  -- It does not fit behind the others, but passes the test: a store goes behind the array.
  pub append-fault :
      entry_length name (v ∷ vs) ≤ length image
      → length image < encoded_length es + entry_length name (v ∷ vs)
      → append image name (v ∷ vs) ≡ fault
  append-fault h k =
      append-write_at h ∙ elim (Bool-cases (ltb (length name) (suc (length slack)))) [
        | inr short ↦ rw (encode_rest es (0 ∷ slack)) (
            rw
              (write_string-fault name before (0 ∷ slack) _ (sym (length-encode_nil es))
                (ltb-false→le _ _ short))
              refl)
        | inl fits ↦
            let lengths = entry_length-eq name v vs in
            let w = name-Written (ltb→lt _ _ fits) in
            rw w.result (
              rw (sym (append_assoc before name (0 ∷ w.rest)))
                (values_behind-fault w.rest (omega (arith, length-image, w.room))))
      ]
