-- ===== src/Env/Prepare.antt =====
-- `_do_setenv` up to the point where the old definition is gone.
use armboot.Prelude.{
  ℕ, ◌+◌, ◌≡◌, ◌≢◌, ◌∙◌, refl, sym, ap, ◌⊎◌, inl, inr, false, List, [], ◌∷◌, ◌++◌, none, some,
  arith, length, append-nil, Exec, done, ==_ne,
}
use armboot.CString.{CString, IsCString, strcmp}
use armboot.CString.Laws.{strcmp_iff}
use armboot.Env.{Env, Board, Config}
use armboot.Env.Image.{
  Entry, IsName, AreEntries, text, encode, encoded_length, lookup, erase, Represents,
}
use armboot.Env.Erase.{whole, Left, delete_only, delete_last, delete_inner}
use armboot.Env.Search.{Around, Around-found, locate-cases, search_image}
use armboot.Env.Sizes.{Ensures, Size, delete-Size}
use armboot.Env.Setenv.{
  is_locked, is, serial, ethaddr, baudrate, switch_baudrate, define, replace, do_setenv_at,
}
use armboot.Env.Setenv.Loops.{delete}

AreEntries-middle :
    (pre : List Entry) (e : Entry) (post : List Entry)
    → AreEntries (pre ++ e ∷ post)
    → AreEntries (pre ++ post) × IsName e.name × AreEntries post
AreEntries-middle [] e post h = (h.2, h.0, h.2)
AreEntries-middle (g ∷ pre) e post h =
    let (a, b, c) = AreEntries-middle pre e post h.2 in ((h.0, h.1, a), b, c)

delete_split :
    (pre : List Entry) (e : Entry) (post : List Entry) (slack : List ℕ)
    → IsName e.name
    → AreEntries post
    → Left (pre ++ post) (
        delete (whole pre e post slack) (encoded_length pre) (encoded_length pre + length (text e)))
delete_split [] e [] slack h k = delete_only e slack h
delete_split (g ∷ gs) e [] slack h k = rw append-nil (delete_last e slack h g gs)
delete_split pre e (f ∷ fs) slack h k = delete_inner e slack h pre f fs k

encode_middle :
    (pre : List Entry) (e : Entry) (post : List Entry) (rest : List ℕ)
    → encode (pre ++ e ∷ post) rest ≡ encode pre (text e ++ 0 ∷ encode post rest)
encode_middle [] e post rest = refl
encode_middle (g ∷ pre) e post rest = rw (encode_middle pre e post rest)

-- The array without the definitions of the name.
pub record Prepared (image : List ℕ) (name : CString) (es : List Entry) (p : List ℕ) : Type 0 where
  pub represents : Represents p (erase name es)
  pub same_size : length p ≡ length image

same_length :
    (p q : List ℕ) (r : Exec (List ℕ))
    → Ensures (Size (length p)) r
    → r ≡ done q
    → length q ≡ length p
same_length p q r h e = rw e at h

remove :
    (image : List ℕ) (name : CString) (es : List Entry)
    → Represents image es
    → (a : Around name es)
    → (p : List ℕ) × (delete image (Around-found a 0).env (Around-found a 0).nxt ≡ done p)
      × Prepared image name es p
remove image name es v a =
    let parts = AreEntries-middle a.pre a.old a.post (rw a.es_is at v.entries) in
    let left = delete_split a.pre a.old a.post v.slack parts.1 parts.2 in
    let start : 0 + encoded_length a.pre ≡ encoded_length a.pre = omega arith in
    let whole_is : image ≡ whole a.pre a.old a.post v.slack =
      v.image_is
      ∙ ap (λ l. encode l (0 ∷ v.slack)) a.es_is
      ∙ encode_middle a.pre a.old a.post (0 ∷ v.slack) in
    let p = encode (a.pre ++ a.post) (0 ∷ left.slack) in
    let deleted : delete image (0 + encoded_length a.pre)
          (0 + encoded_length a.pre + length (text a.old))
        ≡ done p =
      rw (start, whole_is) left.result in
    (
      p,
      deleted,
      record {
        represents = record {
          slack = left.slack;
          image_is = rw a.erased;
          entries = rw a.erased parts.0;
          two_zeros = λ e. left.two_zeros (sym a.erased ∙ e);
        };
        same_size = same_length image p _ (delete-Size image _ _) deleted;
      },
    )

-- Names that get no special treatment when they are overwritten.
pub record IsPlain (name : CString) : Type 0 where
  pub is_string : IsCString name
  pub ne_serial : name ≢ serial
  pub ne_ethaddr : name ≢ ethaddr
  pub ne_baudrate : name ≢ baudrate

pub is-false : (name s : CString) → IsCString name → IsCString s → name ≢ s → is name s ≡ false
is-false name s h k ne = ==_ne (strcmp name s) 0 (λ e. ne ((strcmp_iff name s h k).0 e))

plain_is_locked :
    (cfg : Config) (p : List ℕ) (name : CString) (oldval : ℕ)
    → IsPlain name
    → is_locked cfg p name oldval ≡ done false
unfolding is_locked
plain_is_locked cfg p name oldval h = ground (
  arith,
  is-false name serial h.is_string (omega arith) h.ne_serial,
  is-false name ethaddr h.is_string (omega arith) h.ne_ethaddr,
)

plain_switch_baudrate :
    (cfg : Config) (bd : Board) (name : CString) (values : List CString)
    → IsPlain name
    → switch_baudrate cfg bd name values ≡ done (some bd)
unfolding switch_baudrate
plain_switch_baudrate cfg bd name values h =
    ground (arith, is-false name baudrate h.is_string (omega arith) h.ne_baudrate)

-- A name that is not set yet, or that gets no special treatment: `_do_setenv` goes on to define it
-- on an array that represents the definitions without it.
pub do_setenv-define :
    (cfg : Config) (bd : Board) (e : Env) (es : List Entry) (name : CString) (values : List CString)
    → Represents e.image es
    → IsName name
    → (lookup name es ≡ none) ⊎ IsPlain name
    → (p : List ℕ) × (do_setenv_at cfg bd (some e) name values ≡ define bd e p name values)
      × Prepared e.image name es p
unfolding do_setenv_at replace
do_setenv-define cfg bd e es name values v hn allowed = elim (locate-cases name es 0) [
  | inl a ↦
      let found = search_image e.image name es v.slack v.image_is hn v.entries in
      (
        e.image,
        ground (arith, found, a.located),
        record { represents = rw a.erased v; same_size = refl },
      )
  | inr b ↦
      let found = search_image e.image name es v.slack v.image_is hn v.entries in
      let plain = plain_of b.around allowed in
      let (p, deleted, prepared) = remove e.image name es v b.around in
      (
        p,
        ground (
          arith,
          found,
          b.located,
          deleted,
          plain_is_locked cfg e.image name (Around-found b.around 0).oldval plain,
          plain_switch_baudrate cfg bd name values plain,
        ),
        prepared,
      )
]
  where
    plain_of : Around name es → (lookup name es ≡ none) ⊎ IsPlain name → IsPlain name
    plain_of a (inl unset) = absurd (ground (arith, unset, a.value_is))
    plain_of a (inr h) = h
