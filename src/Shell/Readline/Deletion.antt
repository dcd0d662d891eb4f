-- ===== src/Shell/Readline/Deletion.antt =====
-- `delete_char` and the loop of ^W of common/main.c against `Editor`.
use armboot.Prelude.{
  ℕ, zero, suc, ◌-◌, ◌≤◌, ◌<◌, ◌≡◌, inl, inr, refl, ap, ◌∙◌, false, List, [], ◌∷◌, ◌++◌, ◌==◌,
  arith, append_assoc, Bool-cases, length, Exec, done, ◌>>=◌,
}
use armboot.Memory.{load}
use armboot.Memory.Laws.{Reads, Reads-load, Reads-append, load-append}
use armboot.Shell.Readline.{Screen, Line, erase_line, unshow, delete_at, delete_char, delete_word}
use armboot.Shell.Readline.Editor.{line_of, rub_out, rub_out_word, column}
use armboot.Shell.Readline.Columns.{erase_line-col, column_lt, length-line_of, retype-column}

-- The buffer holds the text, `p` and `n` count it, and `col` is its column.
pub record Shows (size plen : ℕ) (text : List ℕ) (l : Line) : Type 0 where
  pub slack : List ℕ
  pub buffer_is : l.buffer ≡ line_of text ++ slack
  pub p_is : l.p ≡ length text
  pub n_is : l.n ≡ length text
  pub col_is : l.screen.col ≡ column plen text
  pub same_size : length l.buffer ≡ size
  pub fits : length text < size

Unshown : ℕ → List ℕ → Exec Screen → Type 0
Unshown plen text m = (r : Screen) × (m ≡ done r) × (r.col ≡ column plen text)

unshow-column :
    (plen c : ℕ) (text slack buffer : List ℕ) (p : ℕ) (screen : Screen)
    → buffer ≡ line_of text ++ slack
    → p ≡ length text
    → screen.col ≡ column plen (c ∷ text)
    → Unshown plen text (unshow plen c buffer p screen)
unfolding unshow Unshown
unshow-column plen c text slack buffer p screen b e col = elim (Bool-cases (c == b'\t')) [
  | inl tab ↦
      let low : plen ≤ screen.col = let h = column_lt plen c text in omega arith in
      let reads : Reads (load buffer) 0 (line_of text) = rw b (
        (Reads-append (load (line_of text ++ slack)) 0 (length (line_of text)) (line_of text) slack
          (omega arith) (Reads-load [] (line_of text ++ slack) 0 refl)).0) in
      let (r, goes, at) = retype-column text buffer (erase_line plen screen) reads in
      (r, rw (tab, e) goes, at ∙ ap (λ k. column k text) (erase_line-col plen screen low))
  | inr no_tab ↦ (
    record { col = screen.col - 1; output = screen.output ++ 8 ∷ b' ' ∷ 8 ∷ [] },
    rw no_tab refl,
    ground arith,
  )
]

under_cursor :
    (c : ℕ) (text slack buffer : List ℕ) (p : ℕ)
    → buffer ≡ line_of (c ∷ text) ++ slack
    → p ≡ length text
    → load buffer p ≡ done c
under_cursor c text slack buffer p b e =
    rw (b, append_assoc) (load-append (line_of text) slack c p (omega (arith, length-line_of text)))

Deleted : ℕ → ℕ → ℕ → List ℕ → Exec Line → Type 0
Deleted size plen c text m =
    (l' : Line) × (m ≡ done l') × Shows size plen text l' × (load l'.buffer l'.p ≡ done c)

delete_at-Shows :
    (size plen c : ℕ) (text : List ℕ) (l : Line)
    → Shows size plen (c ∷ text) l
    → Deleted size plen c text (delete_at plen l (suc (length text)))
unfolding delete_at Deleted Unshown
delete_at-Shows size plen c text l v =
    let found = under_cursor c text v.slack l.buffer (length text) v.buffer_is refl in
    let b : l.buffer ≡ line_of text ++ c ∷ v.slack =
      v.buffer_is ∙ append_assoc (line_of text) (c ∷ []) v.slack in
    let (r, shown, at) =
      unshow-column plen c text (c ∷ v.slack) l.buffer (length text) l.screen b refl v.col_is in
    (
      record { buffer = l.buffer; p = length text; n = l.n - 1; screen = r },
      rw (found, shown) refl,
      record {
        slack = c ∷ v.slack;
        buffer_is = b;
        p_is = refl;
        n_is = omega (arith, v.n_is);
        col_is = at;
        same_size = v.same_size;
        fits = omega (arith, v.fits);
      },
      found,
    )

pub delete_char-Shows :
    (size plen c : ℕ) (text : List ℕ) (l : Line)
    → Shows size plen (c ∷ text) l
    → (l' : Line) × (delete_char plen l ≡ done l')
      × Shows size plen text l'
      × (load l'.buffer l'.p ≡ done c)
unfolding delete_char Deleted
delete_char-Shows size plen c text l v =
    let (l', goes, shows, found) = delete_at-Shows size plen c text l v in
    (l', ground (arith, v.n_is) ∙ ap (delete_at plen l) v.p_is ∙ goes, shows, found)

pub delete_char-nothing :
    (size plen : ℕ) (l : Line) → Shows size plen [] l → delete_char plen l ≡ done l
unfolding delete_char
delete_char-nothing size plen l v = rw v.n_is refl

pub delete_char-rub_out :
    (size plen : ℕ) (text : List ℕ) (l : Line)
    → Shows size plen text l
    → (l' : Line) × (delete_char plen l ≡ done l') × Shows size plen (rub_out text) l'
delete_char-rub_out size plen [] l v = (l, delete_char-nothing size plen l v, v)
delete_char-rub_out size plen (c ∷ cs) l v =
    let (l', goes, shows, _) = delete_char-Shows size plen c cs l v in (l', goes, shows)

-- Behind a deletion of `c`, which still stands at the cursor.
delete_word-Shows :
    (size plen c : ℕ) (text : List ℕ) (fuel : ℕ) (l : Line)
    → Shows size plen text l
    → load l.buffer l.p ≡ done c
    → length text < fuel
    → (l' : Line) × (delete_word fuel plen l ≡ done l')
      × Shows size plen (rub_out_word (c ∷ text)) l'
unfolding delete_word
delete_word-Shows size plen c text zero l v found h = ground (arith, h)
delete_word-Shows size plen c [] (suc fuel) l v found h =
    let nothing : [] ≡ rub_out_word (c ∷ []) = ground arith in (l, rw v.n_is refl, rw nothing at v)
delete_word-Shows size plen c (x ∷ xs) (suc fuel) l v found h =
    let (l', goes, shows, found') = delete_char-Shows size plen x xs l v in
    let (l'', more, shows') = delete_word-Shows size plen x xs fuel l' shows found' (omega arith) in
    let not_yet : (l.n == 0) ≡ false = ground (arith, v.n_is) in
    elim (Bool-cases (c == b' ')) [
      | inl blank ↦ (l, ground (arith, not_yet, found, blank), rw blank v)
      | inr letter ↦ (l'', ground (arith, not_yet, found, letter, goes) ∙ more, rw letter shows')
    ]

pub delete_word-rub_out_word :
    (size plen : ℕ) (text : List ℕ) (l : Line)
    → Shows size plen text l
    → (l' : Line) × ((delete_char plen l >>= λ l₁. delete_word (suc l₁.n) plen l₁) ≡ done l')
      × Shows size plen (rub_out_word text) l'
unfolding delete_word
delete_word-rub_out_word size plen [] l v =
    (l, rw (delete_char-nothing size plen l v, v.n_is) refl, v)
delete_word-rub_out_word size plen (c ∷ cs) l v =
    let (l₁, goes, shows, found) = delete_char-Shows size plen c cs l v in
    let (l₂, more, shows') =
      delete_word-Shows size plen c cs (suc l₁.n) l₁ shows found (omega (arith, shows.n_is)) in
    (l₂, rw goes more, shows')
