-- ===== src/Env/Storage/Saved.antt =====
-- `board_env_save` of board/lart/env.c, where whole sectors of the only bank hold the environment.
use armboot.Prelude.{
  ℕ, suc, ◌+◌, ◌-◌, ◌^◌, ◌<◌, ◌≤◌, ◌≡◌, ◌∙◌, ap, sym, subst, refl, inl, inr, List, [], ◌∷◌, ◌++◌,
  arith, map, length,
}
use armboot.Prelude.Int.{ℤ, pos}
use armboot.Flash.{Sector, Bank, start_of}
use armboot.Flash.Sectors.{IsBank, Ascending, limit_of, last_address}
use armboot.Flash.Erase.{flash_sect_protect, flash_sect_erase}
use armboot.Flash.Erase.Aligned.{protected}
use armboot.Flash.Erase.Errors.{flash_sect_erase-aligned}
use armboot.Flash.Write.{next_start, flash_write}
use armboot.Flash.Write.Guard.{flash_write-Guarded}
use armboot.Flash.Write.Guard.Hits.{Guarded}
use armboot.Env.Storage.{Drivers, Place, board_env_save, write_env, erase_env, end_addr}
use armboot.Env.Storage.Sectors.{
  not_behind, not_inner, not_before, with_protection, with_protection-IsBank, start-with_protection,
  protected_twice, length-protected, last-bounds, start-le, protect_aligned, Ascending-rest,
}

-- The place of the environment: the sectors `s ∷ mid` of a bank, which ends below the last address.
pub record IsPlace {S : Type 0} (drivers : Drivers S) (place : Place) (info : Bank)
    (pre : List Sector) (s : Sector) (mid post : List Sector) : Type 0 where
  pub bank : IsBank info
  pub sectors_are : info.sectors ≡ pre ++ ((s ∷ mid) ++ post)
  pub starts : place.cfg_env_addr ≡ s.start
  pub ends : end_addr drivers place ≡ last_address (limit_of info) post
  pub some_bytes : 0 < place.cfg_env_size
  pub below : limit_of info < 2 ^ 32

module _ {S : Type 0} (drivers : Drivers S) (place : Place) {info : Bank} {pre : List Sector}
    {s : Sector} {mid post : List Sector} (v : IsPlace drivers place info pre s mid post) where
  abbrev open_bank : Bank
  open_bank = with_protection 0 info pre s mid post

  ascending : Ascending (limit_of info) (pre ++ ((s ∷ mid) ++ post))
  ascending = subst (Ascending (limit_of info)) v.sectors_are v.bank.ascending

  same_limit : limit_of open_bank ≡ limit_of info
  same_limit =
      ap (λ (n : ℕ). n + info.size) (start-with_protection 0 info pre s mid post v.sectors_are)

  open-IsBank : IsBank open_bank
  open-IsBank = with_protection-IsBank 0 info pre s mid post v.bank v.sectors_are

  at_place :
      {A : Type 0} (f : ℕ → ℕ → A)
      → f place.cfg_env_addr (end_addr drivers place)
        ≡ f s.start (last_address (limit_of info) post)
  at_place f = ap (λ a. f a (end_addr drivers place)) v.starts ∙ ap (f s.start) v.ends

  unprotects :
      flash_sect_protect 0 place.cfg_env_addr (end_addr drivers place) (info ∷ [])
      ≡ (pos 0, open_bank ∷ [])
  unprotects =
      at_place (λ a e. flash_sect_protect 0 a e (info ∷ []))
      ∙ protect_aligned 0 info pre s mid post v.bank v.sectors_are

  protects :
      flash_sect_protect 1 place.cfg_env_addr (end_addr drivers place) (open_bank ∷ [])
      ≡ (pos 0, with_protection 1 info pre s mid post ∷ [])
  protects =
      at_place (λ a e. flash_sect_protect 1 a e (open_bank ∷ []))
      ∙ ap (λ a. flash_sect_protect 1 s.start (last_address a post) (open_bank ∷ []))
          (sym same_limit)
      ∙ protect_aligned 1 open_bank pre (protected 0 s) (map (protected 0) mid) post open-IsBank
          refl
      ∙ ap (λ xs. (pos 0, record info { sectors = pre ++ (protected 1 s ∷ (xs ++ post)) } ∷ []))
          (protected_twice 1 0 mid)

  -- What the driver leaves when it has erased the sectors.
  abbrev pub erased_flash : S → S
  erased_flash flash = (drivers.flash_erase 0 (length pre) (length pre + length mid) flash).1

  erases :
      (flash : S)
      → flash_sect_erase drivers.flash_erase place.cfg_env_addr
          (end_addr drivers place)
          (open_bank ∷ [])
          flash
        ≡ (pos (length (s ∷ mid)), erased_flash flash)
  erases flash =
      at_place (λ a e. flash_sect_erase drivers.flash_erase a e (open_bank ∷ []) flash)
      ∙ ap
          (λ a.
            flash_sect_erase drivers.flash_erase s.start (last_address a post) (open_bank ∷ [])
              flash)
          (sym same_limit)
      ∙ flash_sect_erase-aligned drivers.flash_erase flash open_bank pre (protected 0 s)
          (map (protected 0) mid) post open-IsBank refl
      ∙ ap (λ (n : ℕ). (pos (suc n), (drivers.flash_erase 0 (length pre) (length pre + n) flash).1))
          (length-protected 0 mid)

  inner : Ascending (limit_of info) (s ∷ (mid ++ post))
  inner = Ascending-rest (limit_of info) pre ((s ∷ mid) ++ post) ascending

  bounds :
      (last_address (limit_of info) post < limit_of info)
      × (last_address (limit_of info) post < next_start (limit_of info) post)
  bounds = last-bounds (limit_of info) s mid post inner

  low : start_of open_bank.sectors ≤ place.cfg_env_addr
  low =
      let k =
        start-le (limit_of open_bank) pre (protected 0 s) (map (protected 0) mid ++ post)
          open-IsBank.ascending in
      omega (arith, k, v.starts)

  high : place.cfg_env_addr + place.cfg_env_size ≤ limit_of open_bank
  high = omega (arith, v.ends, bounds.0, same_limit, v.some_bytes)

  not-Guarded_place :
      ¬ Guarded place.cfg_env_addr
        (place.cfg_env_addr + place.cfg_env_size - 1)
        (limit_of open_bank)
        open_bank.sectors
  not-Guarded_place =
      let last = place.cfg_env_addr + place.cfg_env_size - 1 in
      let after : Ascending (limit_of open_bank) post =
        Ascending-rest (limit_of open_bank) (map (protected 0) (s ∷ mid)) post (
          Ascending-rest (limit_of open_bank) pre (map (protected 0) (s ∷ mid) ++ post)
            open-IsBank.ascending) in
      let below_next : last_address (limit_of info) post < next_start (limit_of open_bank) post =
        subst (λ a. last_address (limit_of info) post < next_start a post) (sym same_limit)
          bounds.1 in
      let behind_mid = not_inner place.cfg_env_addr last (limit_of open_bank) (s ∷ mid) post (
        not_behind place.cfg_env_addr last (limit_of open_bank) post after
          (omega (arith, v.ends, below_next))) in
      not_before place.cfg_env_addr last (limit_of open_bank) pre (protected 0 s)
        (map (protected 0) mid ++ post) open-IsBank.ascending (omega (arith, v.starts)) behind_mid

  writes :
      (env : List ℕ) (flash : S)
      → flash_write drivers.write_buff
          (open_bank ∷ [])
          env
          place.cfg_env_addr
          place.cfg_env_size
          flash
        ≡ drivers.write_buff 0 env place.cfg_env_addr place.cfg_env_size flash
  writes env flash =
      elim (flash_write-Guarded drivers.write_buff env flash open_bank place.cfg_env_addr
        place.cfg_env_size open-IsBank (omega (arith, same_limit, v.below)) v.some_bytes low high) [
          | inl g ↦ absurd (not-Guarded_place g.0)
          | inr n ↦ n.1
        ]

  -- `board_env_save` on a board with one bank, whose sectors lie in order and fill it, and which ends
  -- below the last address 2 ^ 32 - 1, where whole sectors of the bank hold the environment, whatever
  -- the drivers return: the driver is called once to erase these sectors and once to write the
  -- environment at their start, they end up protected, with no change to the other sectors, and the
  -- result is 0, which means success.
  pub board_env_save-whole :
      (env : List ℕ) (flash : S)
      → board_env_save drivers place env (info ∷ []) flash ≡ (
        pos 0,
        with_protection 1 info pre s mid post ∷ [],
        (drivers.write_buff 0 env place.cfg_env_addr place.cfg_env_size (erased_flash flash)).1,
      )
  unfolding board_env_save
  board_env_save-whole env flash =
      ap (λ r. erase_env drivers place r.0 r.1 flash env) unprotects
      ∙ ap (λ r. write_env drivers place r.0 (open_bank ∷ []) r.1 env) (erases flash)
      ∙ ap
          (λ r. (
            pos 0,
            r.1,
            (flash_write drivers.write_buff (open_bank ∷ []) env place.cfg_env_addr
                place.cfg_env_size (erased_flash flash)).1,
          ))
          protects
      ∙ ap (λ (r : ℤ × S). (pos 0, with_protection 1 info pre s mid post ∷ [], r.1))
          (writes env (erased_flash flash))
