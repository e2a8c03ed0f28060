-- ===== src/PageTable/Map.antt =====
-- What `page_map` and `page_unmap` of kernel/page.c leave in the table, and the addresses that `vtop`
-- then gives.
use epos_arm.Base.{
  ℕ, zero, suc, ◌+◌, ◌-◌, ◌*◌, ◌/◌, ◌%◌, ◌^◌, ◌≤◌, ◌<◌, ◌≡◌, refl, ◌⊎◌, ◌∙◌, ap, arith, leb, ltb,
  if◌then◌else◌, ◌&&◌, bit_or,
}
use epos_arm.Base.Word.{u32}
use epos_arm.Cpu.{page_size}
use epos_arm.Cpu.Pages.{frame_bits, offset_bits, or_aligned}
use epos_arm.PageTable.{update, vtopte, vtop, page_map, page_unmap}

-- Entries outside the `npages` pages from `vaddr` on are left alone.
page_map-outside :
    (npages i : ℕ) (pt : ℕ → ℕ) (vaddr paddr flags : ℕ)
    → vaddr + npages * page_size < 2 ^ 32
    → (i < vtopte vaddr) ⊎ (vtopte vaddr + npages ≤ i)
    → page_map pt vaddr paddr npages flags i ≡ pt i
unfolding page_map
page_map-outside zero i pt vaddr paddr flags fits out = refl
page_map-outside (suc n) i pt vaddr paddr flags fits out = ground (
  arith,
  page_map-outside n i (update pt (vtopte vaddr) (bit_or paddr flags)) (u32 (vaddr + page_size))
      (u32 (paddr + page_size)) flags,
)

page_map-inside :
    (npages k : ℕ) (pt : ℕ → ℕ) (vaddr paddr flags : ℕ)
    → vaddr + npages * page_size < 2 ^ 32
    → paddr < 2 ^ 32
    → k < npages
    → page_map pt vaddr paddr npages flags (vtopte vaddr + k)
      ≡ bit_or (u32 (paddr + k * page_size)) flags
unfolding page_map
page_map-inside zero k pt vaddr paddr flags fits small h = absurd (omega arith)
page_map-inside (suc n) zero pt vaddr paddr flags fits small h = ground (
  arith,
  page_map-outside n (vtopte vaddr + 0) (update pt (vtopte vaddr) (bit_or paddr flags))
      (u32 (vaddr + page_size)) (u32 (paddr + page_size)) flags,
)
page_map-inside (suc n) (suc k) pt vaddr paddr flags fits small h = ground (
  arith,
  page_map-inside n k (update pt (vtopte vaddr) (bit_or paddr flags)) (u32 (vaddr + page_size))
      (u32 (paddr + page_size)) flags,
)

-- After `page_map` of pages that do not wrap, the entry of each of the `npages` pages from `vaddr` on holds the address of its
-- frame with the flags, and every other entry is as before.
pub page_map_lem :
    (pt : ℕ → ℕ) (vaddr paddr npages flags i : ℕ)
    → vaddr + npages * page_size < 2 ^ 32
    → paddr < 2 ^ 32
    → page_map pt vaddr paddr npages flags i ≡ (
        if leb (vtopte vaddr) i && ltb i (vtopte vaddr + npages)
        then bit_or (u32 (paddr + (i - vtopte vaddr) * page_size)) flags
        else pt i)
page_map_lem pt vaddr paddr npages flags i fits small = ground (
  arith,
  page_map-inside npages (i - vtopte vaddr) pt vaddr paddr flags,
  page_map-outside npages i pt vaddr paddr flags,
)

-- `vtop` reads one entry.
pub vtop_same :
    (pt pt' : ℕ → ℕ) (va va' : ℕ) → pt (vtopte va) ≡ pt' (vtopte va) → vtop pt va ≡ vtop pt' va
unfolding vtop
vtop_same pt pt' va va' e = rw e

-- An entry that holds an aligned address and flags gives that address plus the page offset.
pub vtop_entry :
    (pt : ℕ → ℕ) (va frame f : ℕ)
    → frame % page_size ≡ 0
    → frame < 2 ^ 32
    → f < page_size
    → pt (vtopte va) ≡ frame + f
    → vtop pt va ≡ frame + va % 4096
unfolding vtop
vtop_entry pt va frame f aligned small flags entry =
    rw (entry, offset_bits) (ground (arith, frame_bits (frame + f), or_aligned frame (va % 4096)))

-- Where `page_map` has mapped aligned pages to aligned frames, neither range wrapping, with flags below
-- the page size, `vtop` translates each address to the
-- frame's address plus the offset in the range.
pub vtop-page_map :
    (pt : ℕ → ℕ) (vaddr paddr npages flags off : ℕ)
    → vaddr % page_size ≡ 0
    → paddr % page_size ≡ 0
    → vaddr + npages * page_size < 2 ^ 32
    → paddr + npages * page_size < 2 ^ 32
    → flags < page_size
    → off < npages * page_size
    → vtop (page_map pt vaddr paddr npages flags) (vaddr + off) ≡ paddr + off
unfolding vtop
vtop-page_map pt vaddr paddr npages flags off va pa vfits pfits f h =
    rw (page, entry, offset_bits)
      (ground (
        arith,
        or_aligned frame flags,
        frame_bits (frame + flags),
        or_aligned frame ((vaddr + off) % 4096),
      ))
  where
    frame : ℕ
    frame = paddr + off / 4096 * page_size

    page : vtopte (vaddr + off) ≡ vtopte vaddr + off / 4096
    page = omega arith

    entry : page_map pt vaddr paddr npages flags (vtopte vaddr + off / 4096) ≡ bit_or frame flags
    entry =
        page_map-inside npages (off / 4096) pt vaddr paddr flags vfits (omega arith) (omega arith)
        ∙ ap (λ (t : ℕ). bit_or t flags) (omega arith)

page_unmap-outside :
    (npages i : ℕ) (pt : ℕ → ℕ) (vaddr : ℕ)
    → vaddr + npages * page_size < 2 ^ 32
    → (i < vtopte vaddr) ⊎ (vtopte vaddr + npages ≤ i)
    → page_unmap pt vaddr npages i ≡ pt i
unfolding page_unmap
page_unmap-outside zero i pt vaddr fits out = refl
page_unmap-outside (suc n) i pt vaddr fits out =
    ground (arith, page_unmap-outside n i (update pt (vtopte vaddr) 0) (u32 (vaddr + page_size)))

page_unmap-inside :
    (npages k : ℕ) (pt : ℕ → ℕ) (vaddr : ℕ)
    → vaddr + npages * page_size < 2 ^ 32
    → k < npages
    → page_unmap pt vaddr npages (vtopte vaddr + k) ≡ 0
unfolding page_unmap
page_unmap-inside zero k pt vaddr fits h = absurd (omega arith)
page_unmap-inside (suc n) zero pt vaddr fits h = ground (
  arith,
  page_unmap-outside n (vtopte vaddr + 0) (update pt (vtopte vaddr) 0) (u32 (vaddr + page_size)),
)
page_unmap-inside (suc n) (suc k) pt vaddr fits h =
    ground (arith, page_unmap-inside n k (update pt (vtopte vaddr) 0) (u32 (vaddr + page_size)))

-- `page_unmap` of the pages, which do not wrap, that `page_map` has mapped leaves 0 in their entries and the other
-- entries as they were before `page_map`.
pub page_unmap-page_map :
    (pt : ℕ → ℕ) (vaddr paddr npages flags i : ℕ)
    → vaddr + npages * page_size < 2 ^ 32
    → page_unmap (page_map pt vaddr paddr npages flags) vaddr npages i
      ≡ (if leb (vtopte vaddr) i && ltb i (vtopte vaddr + npages) then 0 else pt i)
page_unmap-page_map pt vaddr paddr npages flags i fits = ground (
  arith,
  page_unmap-inside npages (i - vtopte vaddr) (page_map pt vaddr paddr npages flags) vaddr,
  page_unmap-outside npages i (page_map pt vaddr paddr npages flags) vaddr,
  page_map-outside npages i pt vaddr paddr flags,
)
