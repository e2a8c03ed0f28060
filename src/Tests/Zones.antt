-- ===== src/Tests/Zones.antt =====
-- kernel/page.c at the space that `init_vmspace` makes, with the kernel's memory up to 0xc0400000.
use epos_arm.Base.{ℕ, List, ◌*◌, ◌≡◌, refl, true, [], ◌∷◌, arith, some, ltb}
use epos_arm.Base.Word.{pos, negsuc, size_max}
use epos_arm.Cpu.{page_size, user_max_addr}
use epos_arm.Vmspace.{
  VmSpace, init_vmspace, page_alloc, page_alloc_in_addr, page_free, zones, space_end, page_prot,
  not_positive, size_of,
}
use epos_arm.Vmspace.Chain.{new_zone}
use epos_arm.Vmspace.Valid.{IsValid, init_vmspace-IsValid}
use epos_arm.Vmspace.Alloc
use epos_arm.Vmspace.AllocInAddr
use epos_arm.Vmspace.Free
use epos_arm.Vmspace.Spec.{
  Call, alloc, alloc_in_addr, free, call, free_reply, run, AreSmall, Trace, in_pages, view,
}
use epos_arm.Vmspace.History.{run-Trace}
use epos_arm.Vmspace.Table.{table, lookup}
use epos_arm.Vmspace.Keeps.{AllLeave, run-keeps}

abbrev space : VmSpace
space = init_vmspace 0xc000_5000 0xc040_0000

space-IsValid : IsValid space
space-IsValid = init_vmspace-IsValid 0xc000_5000 0xc040_0000 (omega arith) (omega arith)

-- Three pages of the user's at the start of its addresses.
abbrev used : VmSpace
used = record space { uvmzone = new_zone 16 0x40_0000 0x3000 7 ∷ [] }

three_pages : page_alloc space 16 (pos 3) 7 true ≡ some (used, 0x40_0000)
unfolding page_alloc init_vmspace zones size_of not_positive space_end
three_pages = refl

three_freed : page_free used 0x40_0000 (pos 3) ≡ some (space, 16)
unfolding page_free init_vmspace zones size_of not_positive
three_freed = refl

prot_runs : (page_prot used 0x40_2fff ≡ 7) × (page_prot used 0x40_3000 ≡ size_max)
unfolding page_prot zones
prot_runs = (refl, refl)

negative_count : page_alloc_in_addr space 16 0x40_0000 (negsuc 2) 7 ≡ some (space, size_max)
unfolding page_alloc_in_addr not_positive
negative_count = refl

request : Alloc.IsRequest true 3
unfolding space_end
request = record { some_pages = omega arith; small = omega arith }

page_alloc-Claimed_example :
    Alloc.Result space 16 (3 * page_size) 7 true (page_alloc space 16 (pos 3) 7 true)
page_alloc-Claimed_example =
    Alloc.page_alloc-Claimed space 16 3 7 true (omega arith) space-IsValid request

two_pages : AllocInAddr.IsRequest 0x80_0000 2
unfolding space_end
two_pages = record {
  some_pages = omega arith;
  aligned = refl;
  above = omega arith;
  fits = omega arith;
}

page_alloc_in_addr-Claimed_example :
    AllocInAddr.Result space 16 0x80_0000
      (2 * page_size)
      3
      (page_alloc_in_addr space 16 0x80_0000 (pos 2) 3)
page_alloc_in_addr-Claimed_example =
    AllocInAddr.page_alloc_in_addr-Claimed space 16 0x80_0000 2 3 (omega arith) space-IsValid
      two_pages

page_free-page_alloc_example : page_free used 0x40_0000 (pos 3) ≡ some (space, 16)
page_free-page_alloc_example =
    Free.page_free-page_alloc space used 16 0x40_0000 3 7 true (omega arith) space-IsValid request
      three_pages (omega arith)

used-IsValid : IsValid used
unfolding init_vmspace
used-IsValid = record { user = omega arith; kernel = omega arith; km0 = refl }

page_free-Released_example :
    Free.Result used 0x40_0000
      (3 * page_size)
      (zones used (ltb 0x40_0000 user_max_addr))
      (page_free used 0x40_0000 (pos 3))
page_free-Released_example =
    Free.page_free-Released used 0x40_0000 3 used-IsValid (omega arith) (omega arith) (omega arith)

-- Three pages asked for, two more at an address that meets them, and the three given back.
abbrev calls : List Call
calls = alloc 16 3 7 true ∷ alloc_in_addr 32 0x40_2000 2 3 ∷ free 0x40_0000 3 ∷ []

calls_small : AreSmall calls
unfolding space_end
calls_small = omega arith

three_replies : run space calls ≡ some (space, 0x40_0000 ∷ size_max ∷ 0 ∷ [])
unfolding run call free_reply page_alloc page_alloc_in_addr page_free init_vmspace zones size_of
    not_positive space_end
three_replies = refl

run-Trace_example :
    (s' : VmSpace) × (rs : List ℕ) × (run space calls ≡ some (s', rs))
    × IsValid s'
    × Trace (view space) calls rs (view s')
run-Trace_example = run-Trace space calls space-IsValid calls_small

-- Two pages behind those that are used, asked for and given back, and one more at an address.
abbrev others : List Call
others = alloc 32 2 3 true ∷ free 0x40_3000 2 ∷ alloc_in_addr 48 0x50_0000 1 5 ∷ []

abbrev two_used : VmSpace
two_used = record used {
  uvmzone = new_zone 16 0x40_0000 0x3000 7 ∷ new_zone 48 0x50_0000 0x1000 5 ∷ [];
}

others_small : AreSmall others
unfolding space_end
others_small = omega arith

others_run : run used others ≡ some (two_used, 0x40_3000 ∷ 0 ∷ 0x50_0000 ∷ [])
unfolding run call free_reply page_alloc page_alloc_in_addr page_free init_vmspace zones size_of
    not_positive space_end
others_run = refl

used_range : table used 0x40_0000 ≡ some (3 * page_size, 7)
unfolding table lookup zones
used_range = refl

others_leave : AllLeave 0x40_0000 others
others_leave = omega arith

run-keeps_example :
    ((a : ℕ) → in_pages 0x40_0000 3 a ≡ true → page_prot two_used a ≡ 7)
    × (s2 : VmSpace) × (node : ℕ) × (page_free two_used 0x40_0000 (pos 3) ≡ some (s2, node))
run-keeps_example =
    run-keeps used two_used others (0x40_3000 ∷ 0 ∷ 0x50_0000 ∷ []) 0x40_0000 3 7 used-IsValid
      others_small others_run (omega arith) (omega arith) (omega arith) used_range others_leave
