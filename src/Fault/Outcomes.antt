-- ===== src/Fault/Outcomes.antt =====
-- The outcomes of `do_page_fault` of kernel/page.c.
use epos_arm.Base.{
  ℕ, ◌+◌, ◌*◌, ◌/◌, ◌%◌, ◌<◌, ◌≡◌, ◌≢◌, refl, ap, ◌∙◌, sym, ◌⊎◌, inl, inr, ◌||◌, none, arith, ◌==◌,
  Bool-cases, not, bit_and,
}
use epos_arm.Base.Word.{negsuc, size_max}
use epos_arm.Cpu.{page_size, pte_v, vm_prot_none}
use epos_arm.PageTable.Map.{vtop_same}
use epos_arm.PageTable.{vtopte, vtop}
use epos_arm.Frame.{PmZone, frame_alloc}
use epos_arm.Frame.Aligned.{frame_alloc_aligned}
use epos_arm.Frame.Alloc.{frame_alloc-fst}
use epos_arm.Vmspace.{page_prot}
use epos_arm.Fault.{Machine, Outcome, access_code, new_frame, install, do_page_fault}
use epos_arm.Fault.Mapping.{
  IsMissing, IsOutside, outside_own, outside_kept, Installed, install-Installed,
}

-- The call fails, and the zones and the table are as before.
pub record Refused (m : Machine) (o : Outcome) : Type 0 where
  pub ret : o.ret ≡ negsuc 0
  pub space : o.machine.space ≡ m.space
  pub pt : o.machine.pt ≡ m.pt
  pub cleared : o.cleared ≡ none

pub missing_lem :
    (m : Machine) (vaddr code : ℕ)
    → IsMissing m vaddr code
    → do_page_fault m vaddr code
      ≡ install m vaddr (page_prot m.space vaddr) (access_code vaddr code) (frame_alloc m.pmzone 1)
unfolding do_page_fault
missing_lem m vaddr code i = ground (arith, i.known, i.allowed, i.invalid)

exhausted_lem :
    (m : Machine) (vaddr prot code : ℕ)
    → new_frame m ≡ size_max
    → Refused m (install m vaddr prot code (frame_alloc m.pmzone 1))
unfolding install
exhausted_lem m vaddr prot code none_left =
    rw none_left (record { ret = refl; space = refl; pt = refl; cleared = refl })

-- No fault but one on a missing page is served.
pub refused_lem :
    (m : Machine) (vaddr code : ℕ)
    → ¬ IsMissing m vaddr code
    → Refused m (do_page_fault m vaddr code)
unfolding do_page_fault
refused_lem m vaddr code not_missing =
    elim (Bool-cases
      (page_prot m.space vaddr == size_max || page_prot m.space vaddr == vm_prot_none)) [
        | inl t ↦ rw t (record { ret = refl; space = refl; pt = refl; cleared = refl })
        | inr f ↦ elim (Bool-cases (bit_and (access_code vaddr code) pte_v == 0)) [
          | inl t ↦ absurd (
              not_missing
                (record { known = ground arith; allowed = ground arith; invalid = ground arith }))
          | inr g ↦ rw (f, g) (record { ret = refl; space = refl; pt = refl; cleared = refl })
        ]
      ]

IsMissing-or-not :
    (m : Machine) (vaddr code : ℕ) → IsMissing m vaddr code ⊎ (¬ IsMissing m vaddr code)
IsMissing-or-not m vaddr code =
    elim (tests (page_prot m.space vaddr) (bit_and (access_code vaddr code) pte_v)) [
      | inl (a, b, c) ↦ inl (record { known = a; allowed = b; invalid = c })
      | inr f ↦ inr λ i. f (i.known, i.allowed, i.invalid)
    ]
  where
    tests :
        (prot v : ℕ)
        → ((prot ≢ size_max) × (prot ≢ vm_prot_none) × (v ≡ 0))
          ⊎ (¬ ((prot ≢ size_max) × (prot ≢ vm_prot_none) × (v ≡ 0)))
    tests prot v = elim (Bool-cases (prot == size_max || prot == vm_prot_none || not (v == 0))) [
      | inl t ↦ inr λ h. ground (arith, h.0, h.1, h.2)
      | inr f ↦ inl (ground arith, ground arith, ground arith)
    ]

pub mapped_lem :
    (m : Machine) (vaddr code : ℕ)
    → ((z : ℕ) → (m.pmzone z).base % page_size ≡ 0)
    → IsMissing m vaddr code
    → new_frame m ≢ size_max
    → Installed m vaddr code (new_frame m) (do_page_fault m vaddr code)
mapped_lem m vaddr code aligned i found =
    let address = frame_alloc_aligned m.pmzone aligned 1 found in
    rw (missing_lem m vaddr code i)
      (install-Installed m vaddr code (record { word = address.0; aligned = address.1 }))

-- With zones of memory that begin at pages, `do_page_fault` maps the page of the address to the frame
-- that `frame_alloc` gives, writable as its zone is, and returns 0, if the address lies in a zone that
-- allows access, the fault is not one of protection and a frame is left. The other entries of the table are
-- 0 after it if their words lie in the page of the address, and as before if not; the page at 0xBFEFF000, in which the word
-- of its own entry lies, is left with the entry 0. In every other case `do_page_fault` returns -1 and changes neither the zones nor the
-- table.
pub do_page_fault-Installed :
    (m : Machine) (vaddr code : ℕ)
    → ((z : ℕ) → (m.pmzone z).base % page_size ≡ 0)
    → (IsMissing m vaddr code
        × (new_frame m ≢ size_max)
        × Installed m vaddr code (new_frame m) (do_page_fault m vaddr code))
      ⊎ ((¬ (IsMissing m vaddr code × (new_frame m ≢ size_max)))
          × Refused m (do_page_fault m vaddr code))
do_page_fault-Installed m vaddr code aligned = elim (IsMissing-or-not m vaddr code) [
  | inr n ↦ inr (λ h. n h.0, refused_lem m vaddr code n)
  | inl i ↦ elim (equal_or_not (new_frame m) size_max) [
    | inl e ↦ inr (
      λ h. h.1 e,
      rw (missing_lem m vaddr code i)
          (exhausted_lem m vaddr (page_prot m.space vaddr) (access_code vaddr code) e),
    )
    | inr n ↦ inl (i, n, mapped_lem m vaddr code aligned i n)
  ]
]
  where
    equal_or_not : (a b : ℕ) → (a ≡ b) ⊎ (a ≢ b)
    equal_or_not a b = omega arith

install-pmzone :
    (m : Machine) (vaddr prot code : ℕ)
    → (install m vaddr prot code (frame_alloc m.pmzone 1)).machine.pmzone ≡ m.pmzone
unfolding install
install-pmzone m vaddr prot code = ground (arith, frame_alloc-fst m.pmzone 1)

-- Two faults on missing pages at addresses outside the page table, one after the other, map the two pages
-- to the same frame, in zones of memory that begin at pages.
pub do_page_fault_again :
    (m : Machine) (vaddr code other code' off : ℕ)
    → ((z : ℕ) → (m.pmzone z).base % page_size ≡ 0)
    → IsMissing m vaddr code
    → IsMissing m other code'
    → new_frame m ≢ size_max
    → vtopte vaddr ≢ vtopte other
    → IsOutside vaddr
    → IsOutside other
    → off < page_size
    → let pt = (do_page_fault (do_page_fault m vaddr code).machine other code').machine.pt in
      vtop pt (vaddr / page_size * page_size + off) ≡ vtop pt (other / page_size * page_size + off)
do_page_fault_again m vaddr code other code' off aligned i j found differ out out' small =
    vtop_same _ mid.pt page page (kept)
    ∙ in_frame m vaddr code (new_frame m) off _ first out small
    ∙ ap (λ (t : ℕ). t + off) (sym frames)
    ∙ sym (in_frame mid other code' (new_frame mid) off _ second out' small)
  where
    in_frame :
        (m : Machine) (vaddr code paddr off : ℕ) (o : Outcome)
        → Installed m vaddr code paddr o
        → IsOutside vaddr
        → off < page_size
        → vtop o.machine.pt (vaddr / page_size * page_size + off) ≡ paddr + off
    in_frame m vaddr code paddr off o i out small =
        i.mapped off small ∙ rw (outside_own vaddr out) refl

    page : ℕ
    page = vaddr / page_size * page_size + off

    mid : Machine
    mid = (do_page_fault m vaddr code).machine

    first : Installed m vaddr code (new_frame m) (do_page_fault m vaddr code)
    first = mapped_lem m vaddr code aligned i found

    zones : mid.pmzone ≡ m.pmzone
    zones =
        ap (λ (o : Outcome). o.machine.pmzone) (missing_lem m vaddr code i)
        ∙ install-pmzone m vaddr (page_prot m.space vaddr) (access_code vaddr code)

    frames : new_frame mid ≡ new_frame m
    frames = ap (λ (p : ℕ → PmZone). (frame_alloc p 1).1) zones

    second : Installed mid other code' (new_frame mid) (do_page_fault mid other code')
    second =
        mapped_lem mid other code' (λ z. rw zones (aligned z))
          (record {
            known = rw first.space j.known;
            allowed = rw first.space j.allowed;
            invalid = j.invalid;
          })
          (λ e. found (sym frames ∙ e))

    kept : (do_page_fault mid other code').machine.pt (vtopte page) ≡ mid.pt (vtopte page)
    kept =
        second.others (vtopte page) (omega arith) ∙ rw (outside_kept other (vtopte page) out') refl
