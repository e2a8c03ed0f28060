-- ===== src/Fault/Mapping.antt =====
-- When `do_page_fault` of kernel/page.c maps the page of an address, and to which frame.
use epos_arm.Base.{
  sym, ◌⊎◌, inl, inr, ◌^◌, ◌≤◌, if◌then◌else◌, ℕ, ◌+◌, ◌*◌, ◌/◌, ◌%◌, ◌<◌, ◌≡◌, ◌≢◌, refl, ap, ◌∙◌,
  false, some, arith, ◌==◌, bit_and, bit_or,
}
use epos_arm.Base.Word.{pos, size_max}
use epos_arm.Cpu.{page_size, page_truncate, user_max_addr, pte_v, vm_prot_none}
use epos_arm.Cpu.Pages.{or_aligned}
use epos_arm.PageTable.Map.{vtop_entry}
use epos_arm.PageTable.{update, vtopte, vtop}
use epos_arm.Frame.{frame_alloc}
use epos_arm.Vmspace.{page_prot}
use epos_arm.Fault.{
  Machine, Outcome, access_code, pte_flags, cleared_word, clear_page, new_frame, install,
}
use epos_arm.Fault.Flags.{pte_flags_lem}

-- The address lies in a zone that allows some access, and the fault is not one of protection.
pub record IsMissing (m : Machine) (vaddr code : ℕ) : Type 0 where
  pub known : page_prot m.space vaddr ≢ size_max
  pub allowed : page_prot m.space vaddr ≢ vm_prot_none
  pub invalid : bit_and (access_code vaddr code) pte_v ≡ 0

-- The address of a frame that `frame_alloc` can return.
pub record IsFrame (paddr : ℕ) : Type 0 where
  pub word : paddr < size_max
  pub aligned : paddr % page_size ≡ 0

-- The index of the page that holds the word of its own entry.
abbrev pub own_page : ℕ
own_page = 0xBFEFF

-- The address lies outside the page table.
abbrev pub IsOutside : (vaddr : ℕ) → Type 0
IsOutside vaddr = (vaddr < user_max_addr) ⊎ (user_max_addr + 2 ^ 22 ≤ vaddr)

-- The page of `vaddr` is mapped to the frame at `paddr`, writable as its zone is, unless its own entry lies
-- in it, which is then 0. The other entries are 0 if they lie in the page of `vaddr`, and as before if not.
pub record Installed (m : Machine) (vaddr code paddr : ℕ) (o : Outcome) : Type 0 where
  pub ret : o.ret ≡ pos 0
  pub space : o.machine.space ≡ m.space
  pub mapped :
      (off : ℕ)
      → off < page_size
      → vtop o.machine.pt (vaddr / page_size * page_size + off)
        ≡ (if vaddr / page_size == own_page then off else paddr + off)
  pub flags : o.machine.pt (vtopte vaddr) % page_size ≡ (
      if vaddr / page_size == own_page
      then 0
      else 1 + 2 * (page_prot m.space vaddr / 2 % 2) + 4 * (access_code vaddr code / 4 % 2))
  pub others :
      (i : ℕ) → i ≢ vtopte vaddr → o.machine.pt i ≡ (if cleared_word vaddr i then 0 else m.pt i)
  pub cleared : o.cleared ≡ some (page_truncate vaddr)

own_word : (vaddr : ℕ) → cleared_word vaddr (vtopte vaddr) ≡ (vaddr / page_size == own_page)
unfolding cleared_word
own_word vaddr = ground arith

pub outside_kept : (vaddr i : ℕ) → IsOutside vaddr → cleared_word vaddr i ≡ false
unfolding cleared_word
outside_kept vaddr i (inl below) = ground arith
outside_kept vaddr i (inr above) = ground arith

pub outside_own : (vaddr : ℕ) → IsOutside vaddr → (vaddr / page_size == own_page) ≡ false
outside_own vaddr out = sym (own_word vaddr) ∙ outside_kept vaddr (vtopte vaddr) out

module _ (pt : ℕ → ℕ) (vaddr paddr flags : ℕ) where
  mapped_at :
      (off : ℕ)
      → IsFrame paddr
      → flags < page_size
      → pt (vtopte vaddr) ≡ (if vaddr / page_size == own_page then 0 else paddr + flags)
      → off < page_size
      → vtop pt (vaddr / page_size * page_size + off)
        ≡ (if vaddr / page_size == own_page then off else paddr + off)
  mapped_at off f small entry h = ground (
    arith,
    f.aligned,
    f.word,
    vtop_entry pt (vaddr / page_size * page_size + off) paddr flags,
    vtop_entry pt (vaddr / page_size * page_size + off) 0 0,
  )

  flags_at :
      IsFrame paddr
      → flags < page_size
      → pt (vtopte vaddr) ≡ (if vaddr / page_size == own_page then 0 else paddr + flags)
      → pt (vtopte vaddr) % page_size ≡ (if vaddr / page_size == own_page then 0 else flags)
  flags_at f small entry = ground (arith, f.aligned)

module _ (m : Machine) (vaddr code : ℕ) where
  entry_lem :
      (prot c paddr : ℕ)
      → IsFrame paddr
      → bit_or paddr (pte_flags prot c) ≡ paddr + (1 + 2 * (prot / 2 % 2) + 4 * (c / 4 % 2))
  entry_lem prot c paddr f =
      or_aligned paddr (pte_flags prot c) f.aligned (omega (arith, pte_flags_lem prot c))
      ∙ ap (λ (t : ℕ). paddr + t) (pte_flags_lem prot c)

  -- The table after the write and `memset`.
  abbrev table : ℕ → ℕ
  table =
      clear_page
        (update m.pt (vtopte vaddr)
          (bit_or (new_frame m) (pte_flags (page_prot m.space vaddr) (access_code vaddr code))))
        vaddr

  -- The entry of the address in it.
  written_lem :
      IsFrame (new_frame m)
      → table (vtopte vaddr) ≡ (
          if vaddr / page_size == own_page
          then 0
          else new_frame m
            + (1 + 2 * (page_prot m.space vaddr / 2 % 2) + 4 * (access_code vaddr code / 4 % 2)))
  unfolding clear_page update
  written_lem f =
      rw (own_word vaddr) (
        ground
          (arith, entry_lem (page_prot m.space vaddr) (access_code vaddr code) (new_frame m) f))

  -- The word that is written, where it is not cleared.
  pub install-entry :
      IsFrame (new_frame m)
      → (install m vaddr
            (page_prot m.space vaddr)
            (access_code vaddr code)
            (frame_alloc m.pmzone 1)).machine.pt
          (vtopte vaddr)
        ≡ (if vaddr / page_size == own_page
            then 0
            else new_frame m
              + (1 + 2 * (page_prot m.space vaddr / 2 % 2) + 4 * (access_code vaddr code / 4 % 2)))
  unfolding install
  install-entry f =
      let found : (new_frame m == size_max) ≡ false = ground (arith, f.word) in
      rw found (written_lem f)

  pub install-Installed :
      IsFrame (new_frame m)
      → Installed m vaddr code (new_frame m) (
          install m vaddr
            (page_prot m.space vaddr)
            (access_code vaddr code)
            (frame_alloc m.pmzone 1))
  unfolding install clear_page update
  install-Installed f =
      let flags =
        1 + 2 * (page_prot m.space vaddr / 2 % 2) + 4 * (access_code vaddr code / 4 % 2) in
      let found : (new_frame m == size_max) ≡ false = ground (arith, f.word) in
      rw found (record {
        ret = refl;
        space = refl;
        mapped = λ off h.
            mapped_at table vaddr (new_frame m) flags off f (omega arith) (written_lem f) h;
        flags = flags_at table vaddr (new_frame m) flags f (omega arith) (written_lem f);
        others = λ i ne. ground (arith, ne);
        cleared = refl;
      })
