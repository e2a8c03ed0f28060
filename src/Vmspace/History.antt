-- ===== src/Vmspace/History.antt =====
-- Sequences of calls of the functions of kernel/page.c.
use epos_arm.Base.{
  ℕ, ◌+◌, ◌*◌, ◌^◌, ◌<◌, ◌≡◌, refl, sym, ◌∙◌, ◌⊎◌, inl, inr, Bool, true, false, not, ◌&&◌, ◌||◌,
  some, List, [], ◌∷◌, arith, ltb, leb, ◌==◌, Bool-cases, bit_and,
}
use epos_arm.Base.Word.{u32, size_max, pos}
use epos_arm.Cpu.{page_size, page_mask, user_min_addr, user_max_addr, kern_max_addr}
use epos_arm.Cpu.Pages.{offset_bits}
use epos_arm.Vmspace.{
  VmSpace, space_end, page_alloc, page_alloc_in_addr, page_free, not_positive, size_of,
}
use epos_arm.Vmspace.Table.{table, lookup-NoZone}
use epos_arm.Vmspace.Apart.{Free-AreApart, AreApart-Free, IsTried-Tried}
use epos_arm.Vmspace.Valid.{IsValid}
use epos_arm.Vmspace.Spec.{
  Call, alloc, alloc_in_addr, free, free_reply, call, run, IsSmall, AreSmall, view, Same, Permits,
  Trace, done, next,
}
use epos_arm.Vmspace.Alloc
use epos_arm.Vmspace.AllocInAddr
use epos_arm.Vmspace.Free
use epos_arm.Vmspace.Grant.{Claimed-IsGrant, Released-IsRelease}

-- What one call leaves: it returns, the invariant holds again, and the view has changed as permitted.
abbrev pub Step : VmSpace → Call → Type 0
Step s c =
    (s' : VmSpace) × (r : ℕ) × (call s c ≡ some (s', r))
    × IsValid s'
    × Permits (view s) c r (view s')

unchanged : (s : VmSpace) → Same (view s) (view s)
unchanged s = (λ a. refl, λ b. refl)

alloc-Step :
    (s : VmSpace) (x n prot : ℕ) (user : Bool)
    → IsValid s
    → IsSmall (alloc x n prot user)
    → Step s (alloc x n prot user)
unfolding call page_alloc not_positive
alloc-Step s x n prot user v (memory, fits) = elim (Bool-cases (n == 0)) [
  | inl none_asked ↦
      rw none_asked (s, size_max, refl, v, inr (refl, unchanged s, inl (ground arith)))
  | inr positive ↦
      let some_pages : 0 < n = ground arith in
      elim (Alloc.page_alloc-Claimed s x n prot user memory v
        (record { some_pages = some_pages; small = fits })) [
          | inl (va, s', e, claimed, least, lo, hi, unmet) ↦ (
            s',
            va,
            e,
            claimed.valid,
            inl (
                Claimed-IsGrant s s' x va n prot user some_pages (omega arith) lo hi
                  (Free-AreApart s user v va (n * page_size) unmet) claimed),
          )
          | inr (e, full) ↦ (
            s,
            size_max,
            e,
            v,
            inr (
              refl,
              unchanged s,
              inr λ a tried apart.
                  full a (IsTried-Tried s user v a tried)
                    (AreApart-Free s user v a (n * page_size) apart),
            ),
          )
        ]
]

not_both : true ≡ false → ⊥
not_both e = ground (arith, e)

-- A request is one that the tests of `page_alloc_in_addr` let pass, or it is refused.
pub refused :
    (s : VmSpace) (x va n prot : ℕ)
    → va + n * page_size < 2 ^ 32
    → AllocInAddr.IsRequest va n
      ⊎ ((page_alloc_in_addr s x va (pos n) prot ≡ some (s, size_max))
          × ¬ AllocInAddr.IsRequest va n)
unfolding page_alloc_in_addr not_positive size_of
refused s x va n prot fits =
    let size : u32 (n * page_size) ≡ n * page_size = omega arith in
    rw size
      (elim (Bool-cases (
        (n == 0)
        || not (bit_and va page_mask == 0)
        || (ltb va user_min_addr
            || leb kern_max_addr va
            || ltb kern_max_addr (u32 (va + n * page_size)))
        || (ltb va user_max_addr && ltb user_max_addr (u32 (va + n * page_size))))) [
          | inl bad ↦ rw bad (inr (refl, λ r. not_both (sym bad ∙ AllocInAddr.guards_pass va n r)))
          | inr good ↦ inl (record {
            some_pages = ground arith;
            aligned = ground (arith, offset_bits va);
            above = ground arith;
            fits = unfold space_end in ground arith;
          })
        ])

alloc_in_addr-Step :
    (s : VmSpace) (x va n prot : ℕ)
    → IsValid s
    → IsSmall (alloc_in_addr x va n prot)
    → Step s (alloc_in_addr x va n prot)
unfolding call
alloc_in_addr-Step s x va n prot v (memory, fits) = elim (refused s x va n prot fits) [
  | inr (e, bad) ↦ (s, size_max, e, v, inr (refl, unchanged s, inl bad))
  | inl r ↦ elim (AllocInAddr.page_alloc_in_addr-Claimed s x va n prot memory v r) [
    | inl (s', e, claimed, unmet) ↦ (
      s',
      va,
      e,
      claimed.valid,
      inl (
        refl,
        Claimed-IsGrant s s' x va n prot (ltb va user_max_addr) r.some_pages (omega arith)
            (AllocInAddr.start_le va r.above) r.fits
            (Free-AreApart s (ltb va user_max_addr) v va (n * page_size) unmet) claimed,
      ),
    )
    | inr (e, met) ↦ (
      s,
      size_max,
      e,
      v,
      inr (
        refl,
        unchanged s,
        inr λ apart. met (AreApart-Free s (ltb va user_max_addr) v va (n * page_size) apart),
      ),
    )
  ]
]

free-Step : (s : VmSpace) (va n : ℕ) → IsValid s → n < 2 ^ 20 → Step s (free va n)
unfolding call free_reply page_free not_positive table
free-Step s va n v small = elim (Bool-cases ((n == 0) || va == user_max_addr)) [
  | inl bad ↦ rw bad (s, size_max, refl, v, inr (refl, unchanged s, ground (arith, bad)))
  | inr good ↦ elim (Free.page_free-Released s va n v (ground arith) (ground arith) small) [
    | inl (s', node, e, rel) ↦
        rw e (s', 0, refl, rel.valid, inl (refl, Released-IsRelease s va n node s' v rel))
    | inr (e, other) ↦ rw e (
      s,
      size_max,
      refl,
      v,
      inr (refl, unchanged s, inr (inr λ prot. lookup-NoZone va (n * page_size) prot _ other)),
    )
  ]
]

pub call-Step : (s : VmSpace) (c : Call) → IsValid s → IsSmall c → Step s c
call-Step s (alloc x n prot user) v h = alloc-Step s x n prot user v h
call-Step s (alloc_in_addr x va n prot) v h = alloc_in_addr-Step s x va n prot v h
call-Step s (free va n) v h = free-Step s va n v h

-- From a valid space, a sequence of calls, with memory for the nodes and with sums that do not wrap, writes
-- through no NULL pointer and leaves a valid space, and what the calls return and what they change is what the
-- specification permits: the protections that `page_prot` reads and the table of ranges change by a grant of
-- pages that no range meets or the release of a range with the size asked for, and a call fails, changing
-- nothing, only where the request is refused, no address tried has room, the range asked for meets another,
-- or no range has that address and size.
pub run-Trace :
    (s : VmSpace) (cs : List Call)
    → IsValid s
    → AreSmall cs
    → (s' : VmSpace) × (rs : List ℕ) × (run s cs ≡ some (s', rs))
      × IsValid s'
      × Trace (view s) cs rs (view s')
unfolding run
run-Trace s [] v h = (s, [], refl, v, done (unchanged s))
run-Trace s (c ∷ cs) v (h, hs) =
    let (s1, r, e, v1, p) = call-Step s c v h in
    let (s2, rs, e2, v2, tr) = run-Trace s1 cs v1 hs in (s2, r ∷ rs, rw (e, e2) refl, v2, next p tr)
