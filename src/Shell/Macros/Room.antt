-- ===== src/Shell/Macros/Room.antt =====
-- The output buffer of `process_macros` of common/main.c, and the NUL behind it.
use armboot.Prelude.{
  ℕ, ◌+◌, ◌-◌, ◌<◌, ◌≤◌, ◌≡◌, ◌≢◌, refl, ◌∙◌, true, not, ◌&&◌, List, [], ◌∷◌, Option, none, some,
  ◌==◌, arith, inl, inr, Bool-cases, length, length-append, ltb, take, Exec, done, bind-done,
}
use armboot.CString.{CString}
use armboot.Shell.Macros.{
  Scanner, put, put_value, put_dollar, put_variable, variable_name, scan, scan_next, scan_all,
  process_macros,
}

-- Room and output make up the buffer, and the name starts in the input.
record Fits (size n : ℕ) (m : Scanner) : Type 0 where
  total : m.room + length m.output ≡ size
  short : length m.varname_start ≤ n

Stays : ℕ → ℕ → Exec Scanner → Type 0
Stays size n r = (m' : Scanner) × (r ≡ done m') × Fits size n m'

put-Fits : (size n c : ℕ) (m : Scanner) → m.room ≢ 0 → Fits size n m → Fits size n (put c m)
put-Fits size n c m h f = record {
  total = omega (arith, h, f.total, length-append m.output (c ∷ []));
  short = f.short;
}

put_value-Fits :
    (size n : ℕ) (v : CString) (m : Scanner) → Fits size n m → Fits size n (put_value v m)
unfolding put_value
put_value-Fits size n [] m f = f
put_value-Fits size n (c ∷ cs) m f = elim (Bool-cases (m.room == 0)) [
  | inl full ↦ rw full f
  | inr room ↦
      rw room (put_value-Fits size n cs (put c m) (put-Fits size n c m (ground (arith, room)) f))
]

put_dollar-Fits :
    (size n c : ℕ) (m : Scanner) → m.room ≢ 0 → Fits size n m → Fits size n (put_dollar c m)
unfolding put_dollar
put_dollar-Fits size n c m h f =
    let f' = put-Fits size n b'$' m h f in
    elim (Bool-cases (m.room - 1 == 0)) [
      | inl full ↦ rw full f'
      | inr room ↦ rw room (put-Fits size n c (put b'$' m) (ground (arith, room)) f')
    ]

module _ (size n : ℕ) (lookup : CString → Exec (Option CString)) (n_lt : n < size)
    (total_lookup : (name : CString) → (v : Option CString) × (lookup name ≡ done v)) where
  some_name :
      (start input : CString)
      → length start ≤ n
      → (name : CString) × (variable_name size lookup start input ≡ done name)
  unfolding variable_name
  some_name start input h =
      let fits : ltb (length start - length input - 1) size ≡ true = ground (arith, h, n_lt) in
      (take (length start - length input - 1) start, rw fits refl)

  put_variable-Fits :
      (v : Option CString) (m : Scanner)
      → Fits size n m
      → Fits size n (put_variable size lookup v m)
  unfolding put_variable
  put_variable-Fits none m f = f
  put_variable-Fits (some v) m f = put_value-Fits size n v m f

  scan-Stays :
      (c : ℕ) (input : CString) (m : Scanner)
      → m.room ≢ 0
      → length input ≤ n
      → Fits size n m
      → Stays size n (scan size lookup c input m)
  unfolding scan Stays
  scan-Stays c input m h k f = elim (Bool-cases (m.state == 0)) [
    | inl zeroth ↦ elim (Bool-cases (c == b'$' && not (m.prev == b'\\'))) [
      | inl dollar ↦ (
        record m { state = 1 },
        rw (zeroth, dollar) refl,
        record { total = f.total; short = f.short },
      )
      | inr other ↦ (put c m, rw (zeroth, other) refl, put-Fits size n c m h f)
    ]
    | inr later ↦ elim (Bool-cases (m.state == 1)) [
      | inl first ↦ elim (Bool-cases (c == b'(')) [
        | inl open_ ↦ (
          record m { state = 2; varname_start = input },
          rw (later, first, open_) refl,
          record { total = f.total; short = k },
        )
        | inr other ↦ (
          put_dollar c (record m { state = 0 }),
          rw (later, first, other) refl,
          put_dollar-Fits size n c (record m { state = 0 }) h
              (record { total = f.total; short = f.short }),
        )
      ]
      | inr second ↦ elim (Bool-cases (c == b')')) [
        | inl close ↦
            let (name, named) = some_name m.varname_start input f.short in
            let (v, found) = total_lookup name in
            let f' = put_variable-Fits v m f in
            (
              record (put_variable size lookup v m) { state = 0 },
              rw (later, second, close) (bind-done _ named ∙ bind-done _ found),
              record { total = f'.total; short = f'.short },
            )
        | inr other ↦ (m, rw (later, second, other) refl, f)
      ]
    ]
  ]

  scan_next-Stays :
      (c : ℕ) (input : CString) (m : Scanner)
      → m.room ≢ 0
      → length input ≤ n
      → Fits size n m
      → Stays size n (scan_next size lookup c input m)
  unfolding scan_next Stays
  scan_next-Stays c input m h k f =
      let (m', goes, f') = scan-Stays c input m h k f in
      (record m' { prev = c }, bind-done _ goes, record { total = f'.total; short = f'.short })

  scan_all-Stays :
      (input : CString) (m : Scanner)
      → length input ≤ n
      → Fits size n m
      → Stays size n (scan_all size lookup input m)
  unfolding scan_all Stays
  scan_all-Stays [] m k f = (m, refl, f)
  scan_all-Stays (c ∷ []) m k f = elim (Bool-cases (m.room == 0)) [
    | inl full ↦ (m, rw full refl, f)
    | inr room ↦ elim (Bool-cases (c == b'\\' && not (m.prev == b'\\'))) [
      | inl escape ↦ (m, rw (room, escape) refl, f)
      | inr plain ↦
          let (m', goes, f') = scan_next-Stays c [] m (ground (arith, room)) (omega arith) f in
          (m', rw (room, plain) goes, f')
    ]
  ]
  scan_all-Stays (c ∷ d ∷ input) m k f = elim (Bool-cases (m.room == 0)) [
    | inl full ↦ (m, ground (arith, full), f)
    | inr room ↦ elim (Bool-cases (c == b'\\' && not (m.prev == b'\\'))) [
      | inl escape ↦
          let (m', goes, f') =
            scan_next-Stays d input (record m { prev = c }) (ground (arith, room))
              (omega (arith, k)) (record { total = f.total; short = f.short }) in
          let (m'', more, f'') = scan_all-Stays input m' (omega (arith, k)) f' in
          (m'', ground (arith, room, escape, goes) ∙ more, f'')
      | inr plain ↦
          let (m', goes, f') =
            scan_next-Stays c (d ∷ input) m (ground (arith, room)) (omega (arith, k)) f in
          let (m'', more, f'') = scan_all-Stays (d ∷ input) m' (omega (arith, k)) f' in
          (m'', ground (arith, room, plain, goes) ∙ more, f'')
    ]
  ]

-- For every command line that is shorter than CFG_CBSIZE, where looking up a variable always comes
-- to an end: `process_macros` comes to an end, writes CFG_CBSIZE characters at most, and puts a NUL
-- behind them if and only if there are fewer than that.
pub process_macros-le-size :
    (size : ℕ) (lookup : CString → Exec (Option CString)) (input : CString)
    → ((name : CString) → (v : Option CString) × (lookup name ≡ done v))
    → length input < size
    → (output : List ℕ) × (process_macros size lookup input
        ≡ done (output, ltb (length output) size))
      × (length output ≤ size)
unfolding process_macros Stays
process_macros-le-size size lookup input total short =
    let (m, goes, f) =
      scan_all-Stays size (length input) lookup short total input
        (record { state = 0; prev = 0; varname_start = []; room = size; output = [] }) (omega arith)
        (record { total = omega arith; short = omega arith }) in
    let ended : not (m.room == 0) ≡ ltb (length m.output) size = ground (arith, f.total) in
    (m.output, bind-done _ goes ∙ rw ended refl, omega (arith, f.total))
