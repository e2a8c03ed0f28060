-- ===== src/Fault/Stale.antt =====
-- `page_free` of kernel/page.c leaves the entries of the page table as they are.
use epos_arm.Base.{
  ℕ, ◌+◌, ◌*◌, ◌/◌, ◌%◌, ◌^◌, ◌<◌, ◌≡◌, ◌≢◌, refl, inl, inr, true, false, ◌==◌, ◌∙◌, some, [], ◌∷◌,
  arith,
}
use mathlib.Core.Path.{subst}
use epos_arm.Base.Word.{pos, size_max}
use epos_arm.Cpu.{page_size}
use epos_arm.PageTable.{vtop}
use epos_arm.Vmspace.{VmSpace, page_free, page_prot}
use epos_arm.Vmspace.Valid.{IsValid}
use epos_arm.Vmspace.Spec.{Call, alloc, alloc_in_addr, free, IsSmall, free_reply, in_pages}
use epos_arm.Vmspace.Spec
use epos_arm.Vmspace.History.{call-Step}
use epos_arm.Fault.{Machine, new_frame, do_page_fault}
use epos_arm.Fault.Mapping.{IsMissing, own_page}
use epos_arm.Fault.Outcomes.{mapped_lem}
use epos_arm.Fault.History.{zone_call, page_fault, event, events}

-- A zone taken out leaves its addresses without protection.
freed_prot :
    (s s' : VmSpace) (va n node a : ℕ)
    → IsValid s
    → n < 2 ^ 20
    → page_free s va (pos n) ≡ some (s', node)
    → in_pages va n a ≡ true
    → (Spec.call s (free va n) ≡ some (s', 0)) × (page_prot s' a ≡ size_max)
freed_prot s s' va n node a v small freed inside =
    let (s2, r, e, v2, p) = call-Step s (free va n) v small in
    let returned = reply s s' va n node freed in
    let same : s2 ≡ s' = ground (arith, e, returned) in
    let zero_reply : r ≡ 0 = ground (arith, e, returned) in
    elim p [
      | inl (r0, rel) ↦ (
        returned,
        subst (λ t. page_prot t a ≡ size_max) same (ground (arith, rel.change a, inside)),
      )
      | inr (r1, kept, why) ↦ absurd (omega arith)
    ]
  where
    reply :
        (s s' : VmSpace) (va n node : ℕ)
        → page_free s va (pos n) ≡ some (s', node)
        → Spec.call s (free va n) ≡ some (s', 0)
    reply s s' va n node freed = unfold Spec.call in unfold free_reply in rw freed refl

-- In a valid space, with zones of memory that begin at pages, after a page fault on a missing page with a
-- frame left, outside the page at 0xBFEFF000, whose entry lies in it, and a `page_free` that takes out a zone around the address, the address is in no zone any
-- more, but its page is still mapped to the frame.
pub page_free_stale :
    (m : Machine) (vaddr code va n off : ℕ) (s' : VmSpace) (node : ℕ)
    → ((z : ℕ) → (m.pmzone z).base % page_size ≡ 0)
    → IsValid m.space
    → IsMissing m vaddr code
    → vaddr / page_size ≢ own_page
    → new_frame m ≢ size_max
    → n < 2 ^ 20
    → page_free m.space va (pos n) ≡ some (s', node)
    → in_pages va n vaddr ≡ true
    → off < page_size
    → (m' : Machine) × (events m (page_fault vaddr code ∷ zone_call (free va n) ∷ []) ≡ some m')
      × (page_prot m'.space vaddr ≡ size_max)
      × (vtop m'.pt (vaddr / page_size * page_size + off) ≡ new_frame m + off)
unfolding events event
page_free_stale m vaddr code va n off s' node aligned valid missing elsewhere left small freed
      inside low =
    let i = mapped_lem m vaddr code aligned missing left in
    let in_frame : (vaddr / page_size == own_page) ≡ false = ground (arith, elsewhere) in
    let (freed', gone) = freed_prot m.space s' va n node vaddr valid small freed inside in
    rw (i.space, freed')
      (
        record (do_page_fault m vaddr code).machine { space = s' },
        refl,
        gone,
        i.mapped off low ∙ rw in_frame refl,
      )
