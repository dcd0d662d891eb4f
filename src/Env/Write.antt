-- ===== src/Env/Write.antt =====
-- The loops of `_do_setenv` that write strings: what they leave, and that they leave the array
-- where it is too short.
use armboot.Prelude.{
  ℕ, suc, ◌+◌, ◌<◌, ◌≤◌, ◌≡◌, sym, List, [], ◌∷◌, ◌++◌, arith, ltb, ltb→lt, ltb-false→le,
  Bool-cases, inl, inr, length, length-append, append_assoc, append-nil, Exec, done, fault,
}
use armboot.Memory.Laws.{store-append, store-fault}
use armboot.CString.{CString}
use armboot.Env.Setenv.Loops.{write_string, write_values}

-- The value that several arguments make.
abbrev pub joined : CString → List CString → CString
joined v [] = v
joined v (w ∷ ws) = v ++ b' ' ∷ joined w ws

-- A string and its '\0' have been written over the front of `old`.
pub record Written (before s old : List ℕ) (i : ℕ) (r : Exec (List ℕ × ℕ)) : Type 0 where
  pub rest : List ℕ
  pub result : r ≡ done (before ++ (s ++ 0 ∷ rest), i + length s)
  pub room : length s + 1 + length rest ≡ length old

pub write_string-Written :
    (s before old : List ℕ) (i : ℕ)
    → i ≡ length before
    → length s < length old
    → Written before s old i (write_string (before ++ old) i s)
unfolding write_string
write_string-Written s before [] i e h = absurd (omega arith)
write_string-Written [] before (o ∷ old) i e h = record {
  rest = old;
  result = rw (store-append before old o 0 i e) (ground arith);
  room = omega arith;
}
write_string-Written (c ∷ s) before (o ∷ old) i e h =
    let w =
      write_string-Written s (before ++ c ∷ []) old (i + 1)
        (omega (arith, length-append before (c ∷ []))) (omega arith) in
    let moved : i + 1 + length s ≡ i + suc (length s) = omega arith in
    record {
      rest = w.rest;
      result =
          rw (store-append before old o c i e, sym (append_assoc before (c ∷ []) old), w.result)
            (rw (append_assoc before (c ∷ []), moved));
      room = omega (arith, w.room);
    }

pub write_string-fault :
    (s before old : List ℕ) (i : ℕ)
    → i ≡ length before
    → length old ≤ length s
    → write_string (before ++ old) i s ≡ fault
unfolding write_string
write_string-fault [] before [] i e h = rw (append-nil, store-fault before i 0 (omega arith))
write_string-fault (c ∷ s) before [] i e h = rw (append-nil, store-fault before i c (omega arith))
write_string-fault [] before (o ∷ old) i e h = absurd (omega arith)
write_string-fault (c ∷ s) before (o ∷ old) i e h =
    rw (store-append before old o c i e, sym (append_assoc before (c ∷ []) old))
      (write_string-fault s (before ++ c ∷ []) old (i + 1)
        (omega (arith, length-append before (c ∷ []))) (omega arith))

pub write_values-Written :
    (vs : List CString) (v : CString) (sep : ℕ) (before old : List ℕ) (i : ℕ)
    → i ≡ length before
    → length (sep ∷ joined v vs) < length old
    → Written before (sep ∷ joined v vs) old i (write_values (before ++ old) i sep (v ∷ vs))
unfolding write_values
write_values-Written vs v sep before [] i e h = absurd (omega arith)
write_values-Written [] v sep before (o ∷ old) i e h =
    let w =
      write_string-Written v (before ++ sep ∷ []) old (i + 1)
        (omega (arith, length-append before (sep ∷ []))) (omega arith) in
    let moved : i + 1 + length v ≡ i + suc (length v) = omega arith in
    record {
      rest = w.rest;
      result =
          rw (store-append before old o sep i e, sym (append_assoc before (sep ∷ []) old), w.result)
            (rw (append_assoc before (sep ∷ []), moved));
      room = omega (arith, w.room);
    }
write_values-Written (x ∷ vs) v sep before (o ∷ old) i e h =
    let lengths = length-append v (b' ' ∷ joined x vs) in
    let w =
      write_string-Written v (before ++ sep ∷ []) old (i + 1)
        (omega (arith, length-append before (sep ∷ []))) (omega arith) in
    let later =
      write_values-Written vs x b' ' ((before ++ sep ∷ []) ++ v) (0 ∷ w.rest) (i + 1 + length v)
        (omega (arith, length-append before (sep ∷ []), length-append (before ++ sep ∷ []) v))
        (omega (arith, w.room)) in
    let moved : i + 1 + length v + length (b' ' ∷ joined x vs)
        ≡ i + suc (length (v ++ b' ' ∷ joined x vs)) =
      omega arith in
    record {
      rest = later.rest;
      result =
          rw
            (
              store-append before old o sep i e,
              sym (append_assoc before (sep ∷ []) old),
              w.result,
              sym (append_assoc (before ++ sep ∷ []) v (0 ∷ w.rest)),
              later.result,
            )
            (rw (
              append_assoc (before ++ sep ∷ []) v,
              append_assoc before (sep ∷ []),
              append_assoc v,
              moved,
            ));
      room = omega (arith, w.room, later.room);
    }

pub write_values-fault :
    (vs : List CString) (v : CString) (sep : ℕ) (before old : List ℕ) (i : ℕ)
    → i ≡ length before
    → length old ≤ length (sep ∷ joined v vs)
    → write_values (before ++ old) i sep (v ∷ vs) ≡ fault
unfolding write_values
write_values-fault vs v sep before [] i e h =
    rw (append-nil, store-fault before i sep (omega arith))
write_values-fault [] v sep before (o ∷ old) i e h = rw (
  store-append before old o sep i e,
  sym (append_assoc before (sep ∷ []) old),
  write_string-fault v (before ++ sep ∷ []) old (i + 1)
      (omega (arith, length-append before (sep ∷ []))) (omega arith),
)
write_values-fault (x ∷ vs) v sep before (o ∷ old) i e h =
    elim (Bool-cases (ltb (length v) (length old))) [
      | inl fits ↦
          let lengths = length-append v (b' ' ∷ joined x vs) in
          let w =
            write_string-Written v (before ++ sep ∷ []) old (i + 1)
              (omega (arith, length-append before (sep ∷ []))) (ltb→lt _ _ fits) in
          rw
            (
              store-append before old o sep i e,
              sym (append_assoc before (sep ∷ []) old),
              w.result,
              sym (append_assoc (before ++ sep ∷ []) v (0 ∷ w.rest)),
            )
            (write_values-fault vs x b' ' ((before ++ sep ∷ []) ++ v) (0 ∷ w.rest)
              (i + 1 + length v)
              (omega (arith, length-append before (sep ∷ []), length-append (before ++ sep ∷ []) v))
              (omega (arith, w.room)))
      | inr short ↦ rw (
        store-append before old o sep i e,
        sym (append_assoc before (sep ∷ []) old),
        write_string-fault v (before ++ sep ∷ []) old (i + 1)
            (omega (arith, length-append before (sep ∷ []))) (ltb-false→le _ _ short),
      )
    ]
