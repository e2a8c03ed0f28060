-- ===== src/Boot/SmallPages/Reach.antt =====
-- The pages and the directory as the processor reaches them behind the other branch of `init_paging` in
-- kernel/machdep.c, and the pages that `page_map` of kernel/page.c adds.
use epos_arm.Base.{
  ℕ, ◌+◌, ◌-◌, ◌*◌, ◌/◌, ◌%◌, ◌^◌, ◌≤◌, ◌<◌, ◌≡◌, refl, ap, ◌∙◌, ◌⊎◌, inl, inr, some, arith, bit_or,
}
use epos_arm.Cpu.{page_size}
use epos_arm.Cpu.Pages.{or_aligned}
use epos_arm.PageTable.{update, vtopte, page_map}
use epos_arm.PageTable.Map.{page_map_lem}
use epos_arm.Base.Word.{u32}
use epos_arm.Boot.{Memset, IsMemset, kernbase}
use epos_arm.Boot.Tables.{IsStart}
use epos_arm.Boot.Walk.{translate, translate-some, page_at, page_at-small}
use epos_arm.Boot.Window.{ptd, vtopte_address}
use epos_arm.Boot.SmallPages.{small_init_paging}
use epos_arm.Boot.SmallPages.Words.{directory, identity, directory_pages}
use epos_arm.Boot.SmallPages.SelfMap.{translate-written}

module _ (memset : Memset) (m : IsMemset memset) (p : ℕ) (b : IsStart p) (mem : ℕ → ℕ) where
  -- From such an address, `PTD[i]` is the entry `i` of the directory.
  ptd-translate :
      (i : ℕ)
      → i < 0x1000
      → translate (small_init_paging memset p mem).mem p (ptd + i * 4) ≡ some (p + i * 4)
  ptd-translate i h =
      let n = i / 2 ^ 10 in
      translate-some (small_init_paging memset p mem).mem p (ptd + i * 4) (p + 0x5000)
        (p + n * 2 ^ 12) 0x1E 0xC00 (4 + n) (i % 2 ^ 10 * 4) (omega arith)
        (omega (arith, b.multiple, b.low)) (omega (arith, b.multiple, b.low)) (omega arith)
        (directory memset m p b mem 0 (p + 0xC00 * 4) (omega arith) (omega arith) ∙ omega arith)
        (directory_pages memset m p b mem (4 + n) (omega arith) (omega arith) ∙ omega arith)
      ∙ ap some (omega arith)

  -- From such an address, each address below the directory, except the 16 KiB from 0x4000 on, is translated to
  -- itself, and so is its copy above the base of the kernel.
  small_translate-identity :
      (va : ℕ)
      → va < p
      → (va < 0x4000) ⊎ (0x8000 ≤ va)
      → (translate (small_init_paging memset p mem).mem p va ≡ some va)
        × (translate (small_init_paging memset p mem).mem p (kernbase + va) ≡ some va)
  small_translate-identity va below out =
      let mem' = (small_init_paging memset p mem).mem in
      let i = va / 2 ^ 20 in
      let n = va / 2 ^ 12 in
      let second : mem' (p + 0x5000 + i * 2 ^ 10 + n % 256 * 4) ≡ n * 2 ^ 12 + 0x1E =
        ap mem' (omega arith)
        ∙ identity memset m p b mem n (omega (arith, b.multiple)) (omega arith) in
      let find = λ (a k : ℕ) (at : (a ≡ p + i * 4) ⊎ (a ≡ p + (i + 0xC00) * 4)).
        directory memset m p b mem i a (omega (arith, b.low)) at in
      let at_page : n * 2 ^ 12 + va % 2 ^ 12 ≡ va = omega arith in
      let through =
        λ (a k : ℕ)
            (same : (a / 2 ^ 20 ≡ k) × (a / 2 ^ 12 % 256 ≡ n % 256) × (a % 2 ^ 12 ≡ va % 2 ^ 12))
            (first : mem' (p + k * 4) ≡ p + 0x5000 + i * 2 ^ 10 + 1).
          translate-some mem' p a (p + 0x5000 + i * 2 ^ 10) (n * 2 ^ 12) 0x1E k (n % 256)
            (va % 2 ^ 12) same (omega (arith, b.multiple, b.low)) (omega (arith, b.low))
            (omega arith) first second
          ∙ ap some at_page in
      (
        through va i (omega arith) (find (p + i * 4) i (inl refl)),
        through (kernbase + va) (i + 0xC00) (omega (arith, b.low))
            (find (p + (i + 0xC00) * 4) i (inr refl)),
      )

  -- From such an address, for an address of the kernel's 20 MiB, an aligned page of memory and flags below 4096 whose
  -- second bit is set: `vtopte(va)` is translated to a place, and with the word that `page_map` writes for `va`
  -- at that place, `va` is translated into the page.
  translate-page_map :
      (va paddr flags : ℕ)
      → kernbase ≤ va
      → va < kernbase + 20 * 2 ^ 20
      → (paddr % page_size ≡ 0) × (paddr + page_size ≤ 2 ^ 32)
      → (flags < page_size) × (2 ≤ flags % 4)
      → let mem' = (small_init_paging memset p mem).mem in
        let word = page_map (λ i. 0) va paddr 1 flags (vtopte va) in
        (place : ℕ) × (translate mem' p (vtopte_address va) ≡ some place)
        × (translate (update mem' place word) p va ≡ some (paddr + va % page_size))
  translate-page_map va paddr flags low high (page, fits) (offset, kind) =
      let start : u32 (paddr + (vtopte va - vtopte va) * page_size) ≡ paddr = omega arith in
      let word : page_map (λ i. 0) va paddr 1 flags (vtopte va) ≡ paddr + flags =
        page_map_lem (λ i. 0) va paddr 1 flags (vtopte va) (omega arith) (omega arith)
        ∙ ground
            (arith, or_aligned paddr flags page offset, ap (λ (a : ℕ). bit_or a flags) start) in
      let (place, reached, found) =
        translate-written memset m p b mem va (page_map (λ i. 0) va paddr 1 flags (vtopte va)) low
          high in
      (
        place,
        reached,
        found
            ∙ ap (λ (w : ℕ). page_at w va) word
            ∙ page_at-small paddr flags va (page, fits) (offset, kind),
      )
