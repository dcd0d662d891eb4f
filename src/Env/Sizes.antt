-- ===== src/Env/Sizes.antt =====
-- No step of `_do_setenv` changes the size of the array.
use armboot.Prelude.{
  ℕ, zero, suc, ◌+◌, ◌≡◌, ◌∙◌, refl, Bool, true, false, List, [], ◌∷◌, Option, none, some, ◌==◌,
  ltb, if◌then◌else◌, length, Exec, done, fault, blocked, ◌>>=◌,
}
use armboot.Memory.{load, store}
use armboot.Memory.Laws.{length-store}
use armboot.CString.{CString}
use armboot.Env.Setenv.Loops.{
  shift, delete, write_string, write_values, find_double, append, entry_length,
}

-- `P` of what a run gives, if it comes to its end.
abbrev pub Ensures {ℓ} : {A : Type ℓ} → (A → Type 0) → Exec A → Type 0
Ensures P (done a) = P a
Ensures P fault = Unit {0}
Ensures P blocked = Unit {0}

module _ {ℓ κ} {A : Type ℓ} {B : Type κ} (P : A → Type 0) (Q : B → Type 0) where
  pub bind-Ensures :
      (m : Exec A) (f : A → Exec B)
      → Ensures P m
      → ((a : A) → P a → Ensures Q (f a))
      → Ensures Q (m >>= f)
  bind-Ensures (done a) f h k = k a h
  bind-Ensures fault f h k = tt
  bind-Ensures blocked f h k = tt

abbrev Any : ℕ → Type 0
Any _ = Unit {0}

abbrev pub Size : ℕ → List ℕ → Type 0
Size n q = length q ≡ n

abbrev pub SizeAt : ℕ → List ℕ × ℕ → Type 0
SizeAt n (q, _) = length q ≡ n

always-Ensures : (m : Exec ℕ) → Ensures Any m
always-Ensures (done _) = tt
always-Ensures fault = tt
always-Ensures blocked = tt

store-Size : (n : ℕ) (p : List ℕ) (i v : ℕ) → Size n p → Ensures (Size n) (store p i v)
store-Size n p i v h = go (store p i v) (λ q e. length-store p q i v e ∙ h)
  where
    go : (r : Exec (List ℕ)) → ((q : List ℕ) → r ≡ done q → Size n q) → Ensures (Size n) r
    go (done q) k = k q refl
    go fault k = tt
    go blocked k = tt

module _ {ℓ} {A : Type ℓ} (P : A → Type 0) where
  elim-Ensures :
      (b : Bool) (m k : Exec A)
      → Ensures P m
      → Ensures P k
      → Ensures P (elim b as (λ _. Exec A) [ true ↦ m | false ↦ k ])
  elim-Ensures true m k h h' = h
  elim-Ensures false m k h h' = h'

  if-Ensures :
      (b : Bool) (m k : Exec A) → Ensures P m → Ensures P k → Ensures P (if b then m else k)
  if-Ensures true m k h h' = h
  if-Ensures false m k h h' = h'

shift-Size :
    (n fuel : ℕ) (p : List ℕ) (env nxt : ℕ) → Size n p → Ensures (SizeAt n) (shift fuel p env nxt)
unfolding shift
shift-Size n zero p env nxt h = tt
shift-Size n (suc fuel) p env nxt h =
    bind-Ensures Any (SizeAt n) (load p nxt) _ (always-Ensures _) λ c _.
      bind-Ensures (Size n) (SizeAt n) (store p env c) _ (store-Size n p env c h) λ q hq.
        let again = shift-Size n fuel q (env + 1) (nxt + 1) hq in
        elim-Ensures (SizeAt n) (c == 0) _ _
          (bind-Ensures Any (SizeAt n) (load q (nxt + 1)) _ (always-Ensures _)
            λ d _. elim-Ensures (SizeAt n) (d == 0) _ _ hq again)
          again

pub delete-Size : (p : List ℕ) (env nxt : ℕ) → Ensures (Size (length p)) (delete p env nxt)
unfolding delete
delete-Size p env nxt = bind-Ensures Any (Size n) (load p (nxt + 1)) _ (always-Ensures _) λ c _.
    bind-Ensures (SizeAt n) (Size n) _ _
      (if-Ensures (SizeAt n) (c == 0) _ _
        (if-Ensures (SizeAt n) (ltb 0 env) _ _ refl
          (bind-Ensures (Size n) (SizeAt n) (store p env 0) _ (store-Size n p env 0 refl) λ q h. h))
        (shift-Size n (suc n) p env (nxt + 1) refl))
      (λ a h. store-Size n a.0 (a.1 + 1) 0 h)
  where
    n : ℕ
    n = length p

write_string-Size :
    (n : ℕ) (s p : List ℕ) (env : ℕ) → Size n p → Ensures (SizeAt n) (write_string p env s)
unfolding write_string
write_string-Size n [] p env h =
    bind-Ensures (Size n) (SizeAt n) (store p env 0) _ (store-Size n p env 0 h) λ q hq. hq
write_string-Size n (c ∷ cs) p env h =
    bind-Ensures (Size n) (SizeAt n) (store p env c) _ (store-Size n p env c h)
      λ q. write_string-Size n cs q (env + 1)

write_values-Size :
    (n : ℕ) (vs : List CString) (p : List ℕ) (env sep : ℕ)
    → Size n p
    → Ensures (SizeAt n) (write_values p env sep vs)
unfolding write_values
write_values-Size n [] p env sep h = h
write_values-Size n (v ∷ vs) p env sep h =
    bind-Ensures (Size n) (SizeAt n) (store p env sep) _ (store-Size n p env sep h) λ q hq.
      bind-Ensures (SizeAt n) (SizeAt n) (write_string q (env + 1) v) _
        (write_string-Size n v q (env + 1) hq) λ a. write_values-Size n vs a.0 a.1 b' '

abbrev pub MaybeSize : ℕ → Option (List ℕ) → Type 0
MaybeSize n none = Unit {0}
MaybeSize n (some q) = length q ≡ n

pub append-Size :
    (p : List ℕ) (name : CString) (values : List CString)
    → Ensures (MaybeSize (length p)) (append p name values)
unfolding append
append-Size p name values =
    bind-Ensures Any (MaybeSize n) (find_double (suc n) p 0) _ (always-Ensures _) λ e _.
      if-Ensures (MaybeSize n) (ltb n (entry_length name values)) _ _ tt (
        bind-Ensures (SizeAt n) (MaybeSize n) _ _
          (write_string-Size n name p (if ltb 0 e then e + 1 else e) refl)
          λ a h.
            bind-Ensures (SizeAt n) (MaybeSize n) (write_values a.0 a.1 b'=' values) _
              (write_values-Size n values a.0 a.1 b'=' h)
              λ b k.
                bind-Ensures (Size n) (MaybeSize n) (store b.0 (b.1 + 1) 0) _
                  (store-Size n b.0 (b.1 + 1) 0 k) λ q hq. hq)
  where
    n : ℕ
    n = length p
