-- ===== src/Fault/History.antt =====
-- Page faults between the calls of the functions of kernel/page.c: the zones and the page table together.
use epos_arm.Base.{
  ◌>>=◌, ℕ, ◌≡◌, ◌≢◌, refl, ap, sym, ◌∙◌, ◌⊎◌, inl, inr, ◌||◌, Option, some, List, [], ◌∷◌, arith,
  ◌==◌, Bool-cases, bit_and,
}
use mathlib.Core.Option
use mathlib.Core.Path.{subst}
use epos_arm.Base.Word.{size_max}
use epos_arm.Cpu.{pte_v, vm_prot_none}
use epos_arm.Frame.{PmZone, frame_alloc}
use epos_arm.PageTable.{update, vtopte}
use epos_arm.Vmspace.{VmSpace, page_prot}
use epos_arm.Vmspace.Valid.{IsValid}
use epos_arm.Vmspace.Spec.{Call, alloc, alloc_in_addr, free, IsSmall, free_reply, in_pages}
use epos_arm.Vmspace.Spec
use epos_arm.Vmspace.History.{call-Step}
use epos_arm.Vmspace.Keeps.{Permits-keeps, Spares}
use epos_arm.Fault.{Machine, access_code, cleared_word, clear_page, install, do_page_fault}

-- A call of a function for zones, or a page fault.
pub data Event : Type 0 where
  zone_call : Call → Event
  page_fault : (vaddr code : ℕ) → Event

-- `none` is a write through a NULL pointer.
unfoldable pub event : Machine → Event → Option Machine
event m (zone_call c) = Option.map (λ r. record m { space = r.0 }) (Spec.call m.space c)
event m (page_fault vaddr code) = some (do_page_fault m vaddr code).machine

unfoldable pub events : Machine → List Event → Option Machine
events m [] = some m
events m (e ∷ es) = event m e >>= λ m'. events m' es

-- The calls have memory for their nodes and no sum that wraps, and none gives pages back.
abbrev pub OnlyClaim : List Event → Type 0
OnlyClaim [] = Unit {0}
OnlyClaim (zone_call (alloc x n prot user) ∷ es) = IsSmall (alloc x n prot user) × OnlyClaim es
OnlyClaim (zone_call (alloc_in_addr x va n prot) ∷ es) =
    IsSmall (alloc_in_addr x va n prot) × OnlyClaim es
OnlyClaim (zone_call (free va n) ∷ es) = ⊥
OnlyClaim (page_fault vaddr code ∷ es) = OnlyClaim es

-- The zones are valid, and each entry of the page table that is not 0 is of a page with an address in a
-- zone.
pub record IsCovered (m : Machine) : Type 0 where
  pub valid : IsValid m.space
  pub entries : (i : ℕ) → m.pt i ≢ 0 → (a : ℕ) × (vtopte a ≡ i) × (page_prot m.space a ≢ size_max)

claim-IsCovered :
    (m : Machine) (c : Call)
    → IsCovered m
    → IsSmall c
    → ((a : ℕ) → Spares a c)
    → (m' : Machine) × (event m (zone_call c) ≡ some m') × IsCovered m'
unfolding event
claim-IsCovered m c covered small spares =
    let (s', r, e, valid, permitted) = call-Step m.space c covered.valid small in
    (
      record m { space = s' },
      rw e refl,
      record {
        valid = valid;
        entries = λ i used.
            let (a, here, known) = covered.entries i used in
            (
              a,
              here,
              λ none_now.
                  known (sym (Permits-keeps _ _ c r a permitted known (spares a)) ∙ none_now),
            );
      },
    )

install_pt :
    (m : Machine) (vaddr prot code i : ℕ) (r : (ℕ → PmZone) × ℕ)
    → let m' = (install m vaddr prot code r).machine in
      (m'.space ≡ m.space) × ((m'.pt i ≡ m.pt i) ⊎ (vtopte vaddr ≡ i) ⊎ (m'.pt i ≡ 0))
unfolding install update clear_page
install_pt m vaddr prot code i (pmzone, paddr) = elim (Bool-cases (paddr == size_max)) [
  | inl t ↦ rw t (refl, inl refl)
  | inr f ↦ elim (Bool-cases (cleared_word vaddr i)) [
    | inl gone ↦ rw (f, gone) (refl, inr (inr refl))
    | inr stays ↦ elim (Bool-cases (i == vtopte vaddr)) [
      | inl here ↦ rw (f, stays) (refl, inr (inl (ground arith)))
      | inr other ↦ rw (f, stays, other) (refl, inl refl)
    ]
  ]
]

-- A page fault changes no zone, and each entry but that of an address in a zone at most to 0.
fault_pt :
    (m : Machine) (vaddr code i : ℕ)
    → let m' = (do_page_fault m vaddr code).machine in
      (m'.space ≡ m.space)
      × ((m'.pt i ≡ m.pt i)
          ⊎ ((vtopte vaddr ≡ i) × (page_prot m.space vaddr ≢ size_max))
          ⊎ (m'.pt i ≡ 0))
unfolding do_page_fault
fault_pt m vaddr code i =
    elim (Bool-cases
      (page_prot m.space vaddr == size_max || page_prot m.space vaddr == vm_prot_none)) [
        | inl t ↦ rw t (refl, inl refl)
        | inr f ↦ elim (Bool-cases (bit_and (access_code vaddr code) pte_v == 0)) [
          | inr g ↦ rw (f, g) (refl, inl refl)
          | inl g ↦
              let known : page_prot m.space vaddr ≢ size_max = ground arith in
              let (same, entry) =
                install_pt m vaddr (page_prot m.space vaddr) (access_code vaddr code) i
                  (frame_alloc m.pmzone 1) in
              rw (f, g)
                (
                  same,
                  elim entry [
                    | inl old ↦ inl old
                    | inr (inl here) ↦ inr (inl (here, known))
                    | inr (inr gone) ↦ inr (inr gone)
                  ],
                )
        ]
      ]

fault-IsCovered :
    (m : Machine) (vaddr code : ℕ) → IsCovered m → IsCovered (do_page_fault m vaddr code).machine
fault-IsCovered m vaddr code covered =
    let same = (fault_pt m vaddr code 0).0 in
    record {
      valid = subst IsValid (sym same) covered.valid;
      entries = λ i used. elim (fault_pt m vaddr code i).1 [
        | inl old ↦
            (let (a, here, known) = covered.entries i (λ e. used (old ∙ e)) in
              (a, here, λ e. known (ap (λ (t : VmSpace). page_prot t a) (sym same) ∙ e)))
        | inr (inr gone) ↦ absurd (used gone)
        | inr (inl (here, known)) ↦
            (vaddr, here, λ e. known (ap (λ (t : VmSpace). page_prot t vaddr) (sym same) ∙ e))
      ];
    }

fault_event :
    (m : Machine) (vaddr code : ℕ)
    → event m (page_fault vaddr code) ≡ some (do_page_fault m vaddr code).machine
unfolding event
fault_event m vaddr code = refl

-- From covered entries, a history of page faults and of calls that claim pages, with memory for the nodes
-- and with sums that do not wrap, writes through no NULL pointer, keeps the zones valid, and leaves no
-- entry of the page table for a page without an address in a zone.
pub events-IsCovered :
    (m : Machine) (es : List Event)
    → IsCovered m
    → OnlyClaim es
    → (m' : Machine) × (events m es ≡ some m') × IsCovered m'
unfolding events
events-IsCovered m [] covered h = (m, refl, covered)
events-IsCovered m (page_fault vaddr code ∷ es) covered h =
    let (m2, e2, c2) =
      events-IsCovered (do_page_fault m vaddr code).machine es
        (fault-IsCovered m vaddr code covered) h in
    (m2, rw (fault_event m vaddr code, e2) refl, c2)
events-IsCovered m (zone_call (alloc x n prot user) ∷ es) covered (small, h) =
    let (m1, e, c1) = claim-IsCovered m (alloc x n prot user) covered small (λ a. tt) in
    let (m2, e2, c2) = events-IsCovered m1 es c1 h in (m2, rw (e, e2) refl, c2)
events-IsCovered m (zone_call (alloc_in_addr x va n prot) ∷ es) covered (small, h) =
    let (m1, e, c1) = claim-IsCovered m (alloc_in_addr x va n prot) covered small (λ a. tt) in
    let (m2, e2, c2) = events-IsCovered m1 es c1 h in (m2, rw (e, e2) refl, c2)
events-IsCovered m (zone_call (free va n) ∷ es) covered h = absurd h
