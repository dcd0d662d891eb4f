-- ===== src/Boot/Bootm/Checked.antt =====
-- `do_bootm` of common/cmd_bootm.c: what holds of an image that is not refused.
use armboot.Prelude.{
  ℕ, ◌≡◌, ◌≢◌, refl, Bool, true, false, not, ◌&&◌, ◌||◌, inl, inr, List, Option, none, some, arith,
  ◌==◌, Bool-cases, if◌then◌else◌, Exec, done, bind-eq-done,
}
use armboot.CString.{CString}
use armboot.Flash.{Bank}
use armboot.MemCommand.{Bus}
use armboot.Env.{Board, Config, getenv_value}
use armboot.Boot.{ih_arch, ih_type, ih_comp, has_ih_magic, hcrc_ok, header_at, dcrc_ok}
use armboot.Boot.Linux.{Machine}
use armboot.Boot.Bootm.{
  Outcome, refused, reset, kept, started, World, Placed, placed, image_data, Part, Load,
  unimplemented, gunzip_error, loaded, loaded_part, load_image, after_load, load_part, boot_checked,
  boot_image, do_bootm, word_verify, word_bootargs, is_verified, image_addr,
}

abbrev pub is_refused : {M : Type 0} → Outcome M → Bool
is_refused (refused m) = true
is_refused reset = false
is_refused (kept ep) = false
is_refused (started s) = false

-- A test in front of the rest, where the outcome is no refusal.
passed :
    {M : Type 0} (b : Bool) (m : M) {x : Exec (Outcome M)} {o : Outcome M}
    → (if not b then done (refused m) else x) ≡ done o
    → is_refused o ≡ false
    → (b ≡ true) × (x ≡ done o)
passed true m h r = (refl, h)
passed false m h r = cc

passed_if :
    {M : Type 0} (v b : Bool) (m : M) {x : Exec (Outcome M)} {o : Outcome M}
    → (if v && not b then done (refused m) else x) ≡ done o
    → is_refused o ≡ false
    → (v ≡ true → b ≡ true) × (x ≡ done o)
passed_if true true m h r = (λ _. refl, h)
passed_if true false m h r = cc
passed_if false b m h r = (λ e. cc, h)

-- The header and the data are right, and the image is one for this processor, of a type and with a
-- compression that are known.
pub record IsBootable {M : Type 0} (bus : Bus M) (verify : Bool) (hdr : List ℕ) (p : Placed M)
    : Type 0 where
  pub magic : has_ih_magic hdr ≡ true
  pub header_crc : hcrc_ok hdr ≡ true
  pub data_crc : verify ≡ true → dcrc_ok bus hdr (image_data p) p.memory ≡ true
  pub for_arm : (ih_arch hdr == 2) ≡ true
  pub known_type : (ih_type hdr == 1 || ih_type hdr == 2 || ih_type hdr == 4) ≡ true
  pub known_comp : (ih_comp hdr == 0 || ih_comp hdr == 1) ≡ true

loaded_part-some :
    {M : Type 0} (bus : Bus M) (fuel : ℕ) (hdr : List ℕ) (from : ℕ) (m : M) (q : Part)
    → loaded_part bus fuel hdr from m ≡ done (some q)
    → (ih_type hdr == 1 || ih_type hdr == 2 || ih_type hdr == 4) ≡ true
loaded_part-some bus fuel hdr from m q h =
    elim (Bool-cases (ih_type hdr == 1 || ih_type hdr == 2)) [
      | inl e ↦ ground (arith, e)
      | inr e ↦ elim (Bool-cases (ih_type hdr == 4)) [
        | inl k ↦ ground (arith, k)
        | inr k ↦ absurd (cc (rw (e, k) at h))
      ]
    ]

done-injective : {A : Type 0} {a b : A} → Exec.done a ≡ done b → b ≡ a
done-injective h = cc

module _ {M : Type 0} (bus : Bus M) (world : World M) where
  load_image-known :
      (fuel : ℕ) (hdr : List ℕ) (q : Part) (m : M) (l : Load M)
      → load_image bus world fuel hdr q m ≡ done l
      → l ≢ unimplemented
      → (ih_comp hdr == 0 || ih_comp hdr == 1) ≡ true
  load_image-known fuel hdr q m l h ne = elim (Bool-cases (ih_comp hdr == 0)) [
    | inl e ↦ ground (arith, e)
    | inr e ↦ elim (Bool-cases (ih_comp hdr == 1)) [
      | inl k ↦ ground (arith, k)
      | inr k ↦ absurd (ne (done-injective (rw (e, k) at h)))
    ]
  ]

  module _ (fuel : ℕ) (bd : Machine) (verify : Bool) (bootargs : Exec (Option CString))
      (argv : List CString) where
    after_load-known :
        (hdr : List ℕ) (from : ℕ) (m : M) (l : Load M) {o : Outcome M}
        → after_load bus world fuel bd verify bootargs argv hdr from m l ≡ done o
        → is_refused o ≡ false
        → l ≢ unimplemented
    after_load-known hdr from m unimplemented h r = absurd (cc (h, r))
    after_load-known hdr from m gunzip_error h r = λ e. cc
    after_load-known hdr from m (loaded m') h r = λ e. cc

    boot_checked-known :
        (hdr : List ℕ) (from : ℕ) (m : M) {o : Outcome M}
        → boot_checked bus world fuel bd verify bootargs argv hdr from m ≡ done o
        → is_refused o ≡ false
        → ((ih_arch hdr == 2) ≡ true)
          × ((ih_type hdr == 1 || ih_type hdr == 2 || ih_type hdr == 4) ≡ true)
          × ((ih_comp hdr == 0 || ih_comp hdr == 1) ≡ true)
    boot_checked-known hdr from m {o} h r =
        let (arch, rest) = passed (ih_arch hdr == 2) m h r in
        let (part, found, goes) =
          bind-eq-done (loaded_part bus fuel hdr from m)
            (load_part bus world fuel bd verify bootargs argv hdr from m) rest in
        let (of_type, of_comp) = of_part part found goes in (arch, of_type, of_comp)
      where
        of_part :
            (part : Option Part)
            → loaded_part bus fuel hdr from m ≡ done part
            → load_part bus world fuel bd verify bootargs argv hdr from m part ≡ done o
            → ((ih_type hdr == 1 || ih_type hdr == 2 || ih_type hdr == 4) ≡ true)
              × ((ih_comp hdr == 0 || ih_comp hdr == 1) ≡ true)
        of_part none found goes = absurd (cc (goes, r))
        of_part (some q) found goes =
            let (l, loads, ends) =
              bind-eq-done (load_image bus world fuel hdr q m)
                (after_load bus world fuel bd verify bootargs argv hdr from m) goes in
            (
              loaded_part-some bus fuel hdr from m q found,
              load_image-known fuel hdr q m l loads (after_load-known hdr from m l ends r),
            )

    boot_image-IsBootable :
        (banks : List Bank) (load_addr addr : ℕ) (m : M) {o : Outcome M}
        → boot_image bus world fuel bd verify bootargs argv banks load_addr addr m ≡ done o
        → is_refused o ≡ false
        → IsBootable bus verify
            (header_at bus addr m)
            (placed bus banks load_addr (header_at bus addr m) addr m)
    unfolding boot_image
    boot_image-IsBootable banks load_addr addr m h r =
        let hdr = header_at bus addr m in
        let p = placed bus banks load_addr hdr addr m in
        let (magic, h₁) = passed (has_ih_magic hdr) m h r in
        let (header_crc, h₂) = passed (hcrc_ok hdr) m h₁ r in
        let (data_crc, h₃) =
          passed_if verify (dcrc_ok bus hdr (image_data p) p.memory) p.memory h₂ r in
        let (for_arm, known_type, known_comp) =
          boot_checked-known hdr (image_data p) p.memory h₃ r in
        record {
          magic = magic;
          header_crc = header_crc;
          data_crc = data_crc;
          for_arm = for_arm;
          known_type = known_type;
          known_comp = known_comp;
        }

  -- Unless `do_bootm` refuses the image: the magic number and the checksum of the header are right,
  -- the checksum of the data is right or the variable `verify` begins with 'n', the image is one for
  -- the ARM, and its type and its compression are known.
  pub do_bootm-IsBootable :
      (fuel : ℕ) (machine : Machine) (cfg : Config) (bd : Board) (banks : List Bank)
      (argv : List CString) (m : M) (o : Outcome M)
      → do_bootm bus world fuel machine cfg bd banks argv m ≡ done o
      → is_refused o ≡ false
      → (s : Option CString) × (getenv_value cfg bd word_verify ≡ done s)
        × IsBootable bus (is_verified s) (header_at bus (image_addr bd.load_addr argv) m) (
            placed bus banks bd.load_addr
              (header_at bus (image_addr bd.load_addr argv) m)
              (image_addr bd.load_addr argv)
              m)
  unfolding do_bootm
  do_bootm-IsBootable fuel machine cfg bd banks argv m o h r =
      let (s, read, boots) =
        bind-eq-done (getenv_value cfg bd word_verify)
          (λ s.
            boot_image bus world fuel machine (is_verified s) (getenv_value cfg bd word_bootargs)
              argv banks bd.load_addr (image_addr bd.load_addr argv) m)
          h in
      (
        s,
        read,
        boot_image-IsBootable fuel machine (is_verified s) (getenv_value cfg bd word_bootargs) argv
            banks bd.load_addr (image_addr bd.load_addr argv) m boots r,
      )
