-- ===== src/Shell/Autoboot/Keyed.antt =====
-- common/main.c: a key string that is typed while `abortboot` waits.
use armboot.Prelude.{
  ℕ, ◌≢◌, ◌≡◌, ◌∙◌, ◌⊎◌, inl, inr, refl, ap, sym, true, false, ◌||◌, List, [], ◌∷◌, ◌++◌, Option,
  none, some, ◌==◌, ==_refl, ==_ne, Bool-cases, if◌then◌else◌, Exec, done,
}
use armboot.CString.{CString}
use armboot.Shell.Autoboot.{
  peek, advance, match_one, Match, matched, is_complete, after_round, watch, from_start, or_default,
  bootdelaykey, bootstopkey, abortboot_keyed,
}

-- The character occurs nowhere in the text.
abbrev pub Lacks : ℕ → CString → Type 0
Lacks c [] = Unit {0}
Lacks c (x ∷ xs) = (x ≢ c) × Lacks c xs

-- The characters that come in these rounds.
unfoldable pub typed : List (Option ℕ) → List ℕ
typed [] = []
typed (none ∷ rs) = typed rs
typed (some ch ∷ rs) = ch ∷ typed rs

-- What may be left of the key, `c` in front of `ks`.
abbrev Left : ℕ → CString → CString → Type 0
Left c ks left = (left ≡ c ∷ ks) ⊎ Lacks c left

Lacks-advance : (c : ℕ) (left : CString) → Lacks c left → Lacks c (advance left)
Lacks-advance c [] h = tt
Lacks-advance c (x ∷ xs) h = h.1

-- A character that goes on with what is left, and one that does not.
match_one_next :
    (key left : CString) (ch : ℕ) → (peek left == ch) ≡ true → match_one key left ch ≡ advance left
unfolding match_one
match_one_next key left ch e = rw (e, e) refl

match_one_again :
    (c ch : ℕ) (ks left : CString)
    → (peek left == ch) ≡ false
    → match_one (c ∷ ks) left ch ≡ (if c == ch then ks else c ∷ ks)
unfolding match_one
match_one_again c ch ks left e = rw e refl

module _ (c : ℕ) (ks : CString) (positive : c ≢ 0) (once : Lacks c ks) where
  restarted : (ch : ℕ) → Left c ks (if c == ch then ks else c ∷ ks)
  restarted ch = elim (Bool-cases (c == ch)) [ inl e ↦ rw e (inr once) | inr e ↦ rw e (inl refl) ]

  match_one-Left :
      (left : CString) (ch : ℕ) → Left c ks left → Left c ks (match_one (c ∷ ks) left ch)
  match_one-Left left ch h = elim (Bool-cases (peek left == ch)) [
    | inl e ↦
        rw (match_one_next (c ∷ ks) left ch e) (elim h [
          | inl whole ↦ rw whole (inr once)
          | inr lacks ↦ inr (Lacks-advance c left lacks)
        ])
    | inr e ↦ rw (match_one_again c ch ks left e) (restarted ch)
  ]

  -- The first character of the key, whatever was left.
  Lacks-peek : (left : CString) → Lacks c left → (peek left == c) ≡ false
  Lacks-peek [] h = ==_ne 0 c (λ e. positive (sym e))
  Lacks-peek (x ∷ xs) h = ==_ne x c h.0

  match_one_first : (left : CString) → Left c ks left → match_one (c ∷ ks) left c ≡ ks
  match_one_first left (inl whole) = rw whole (match_one_next (c ∷ ks) (c ∷ ks) c (==_refl c))
  match_one_first left (inr lacks) =
      match_one_again c c ks left (Lacks-peek left lacks) ∙ rw (==_refl c) refl

  abbrev at : CString → Option Match
  at left = some (record { key = c ∷ ks; left = left })

  -- With nothing left the next round ends the wait.
  watch_complete :
      (delay : Option Match) (r : Option ℕ) (rs : List (Option ℕ))
      → watch delay (at []) (r ∷ rs) ≡ true
  unfolding watch
  watch_complete delay r rs = elim (Bool-cases (is_complete delay)) [
    | inl e ↦ rw e refl
    | inr e ↦ rw e refl
  ]

  -- A round that does not end the wait hands it on.
  watch_step :
      (delay stop : Option Match) (r : Option ℕ) (rs : List (Option ℕ))
      → watch (after_round delay r) (after_round stop r) rs ≡ true
      → watch delay stop (r ∷ rs) ≡ true
  unfolding watch
  watch_step delay stop r rs e = elim (Bool-cases (is_complete delay || is_complete stop)) [
    | inl now ↦ rw now refl
    | inr later ↦ rw later e
  ]

  watch_rest :
      (during : List (Option ℕ)) (left : CString) (delay : Option Match) (r : Option ℕ)
      (rs : List (Option ℕ))
      → typed during ≡ left
      → watch delay (at left) (during ++ r ∷ rs) ≡ true
  unfolding typed
  watch_rest [] left delay r rs e = rw (← e) (watch_complete delay r rs)
  watch_rest (none ∷ during) left delay r rs e =
      watch_step delay (at left) none (during ++ r ∷ rs) (watch_rest during left delay r rs e)
  watch_rest (some ch ∷ during) left delay r rs e =
      watch_step delay (at left) (some ch) (during ++ r ∷ rs) (
        rw (← e) (
          rw (match_one_next (c ∷ ks) (ch ∷ typed during) ch (==_refl ch))
            (watch_rest during (typed during) (matched delay ch) r rs refl)))

  watch_key :
      (during : List (Option ℕ)) (left : CString) (delay : Option Match) (r : Option ℕ)
      (rs : List (Option ℕ))
      → Left c ks left
      → typed during ≡ c ∷ ks
      → watch delay (at left) (during ++ r ∷ rs) ≡ true
  unfolding typed
  watch_key [] left delay r rs h e = absurd (cc)
  watch_key (none ∷ during) left delay r rs h e =
      watch_step delay (at left) none (during ++ r ∷ rs) (watch_key during left delay r rs h e)
  watch_key (some ch ∷ during) left delay r rs h e =
      let first : ch ≡ c = cc in
      let others : typed during ≡ ks = cc in
      let step : match_one (c ∷ ks) left ch ≡ ks =
        ap (match_one (c ∷ ks) left) first ∙ match_one_first left h in
      watch_step delay (at left) (some ch) (during ++ r ∷ rs)
        (rw step (watch_rest during ks (matched delay ch) r rs others))

  watch_before :
      (before during : List (Option ℕ)) (left : CString) (delay : Option Match) (r : Option ℕ)
      (rs : List (Option ℕ))
      → Left c ks left
      → typed during ≡ c ∷ ks
      → watch delay (at left) (before ++ (during ++ r ∷ rs)) ≡ true
  watch_before [] during left delay r rs h e = watch_key during left delay r rs h e
  watch_before (none ∷ before) during left delay r rs h e =
      watch_step delay (at left) none (before ++ (during ++ r ∷ rs))
        (watch_before before during left delay r rs h e)
  watch_before (some ch ∷ before) during left delay r rs h e =
      watch_step delay (at left) (some ch) (before ++ (during ++ r ∷ rs)) (
        watch_before before during (match_one (c ∷ ks) left ch) (matched delay ch) r rs
          (match_one-Left left ch h) e)

-- A stop key, from the environment or the configuration, whose first character does not occur again
-- in it, is typed while the time is not over: whatever was typed before, whether or not there is a
-- delay key, and however many rounds pass between its characters, one more round in the time and
-- the autoboot is stopped.
pub abortboot_keyed-stop_key :
    (getenv : CString → Exec (Option CString))
    (delay_str stop_str delaykey stopkey : Option CString) (c : ℕ) (ks : CString)
    (before during after : List (Option ℕ)) (r : Option ℕ)
    → c ≢ 0
    → Lacks c ks
    → getenv bootdelaykey ≡ done delaykey
    → getenv bootstopkey ≡ done stopkey
    → or_default stopkey stop_str ≡ some (c ∷ ks)
    → typed during ≡ c ∷ ks
    → abortboot_keyed getenv delay_str stop_str (before ++ (during ++ r ∷ after)) ≡ done true
unfolding abortboot_keyed
abortboot_keyed-stop_key getenv delay_str stop_str delaykey stopkey c ks before during after r
      positive once delay stop key keys =
    rw delay (
      rw stop (
        rw key (
          ap done (
            watch_before c ks positive once before during (c ∷ ks)
              (from_start (or_default delaykey delay_str)) r after (inl refl) keys))))
