-- ===== src/Vmspace/Keeps.antt =====
-- What sequences of calls of the functions of kernel/page.c leave alone.
use epos_arm.Base.{
  ◌≤◌, ℕ, ◌+◌, ◌*◌, ◌^◌, ◌<◌, ◌≡◌, ◌≢◌, refl, ◌∙◌, ◌⊎◌, inl, inr, Bool, true, false, some, List, [],
  ◌∷◌, arith, ltb, ◌==◌, Bool-cases,
}
use mathlib.Core.Path.{subst}
use epos_arm.Base.Word.{size_max, pos}
use epos_arm.Cpu.{page_size, user_max_addr}
use epos_arm.Vmspace.{VmSpace, space_end, page_free, page_prot}
use epos_arm.Vmspace.Table.{table, lookup-NoZone}
use epos_arm.Vmspace.Valid.{IsValid, IsValid-Chain, space_start, space_end-lt}
use epos_arm.Vmspace.Spec.{
  Call, alloc, alloc_in_addr, free, run, AreSmall, View, in_pages, IsGrant, Permits, Trace, done,
  next,
}
use epos_arm.Vmspace.Free
use epos_arm.Vmspace.History.{run-Trace}
use epos_arm.Vmspace.Apart.{user_of, lookup_bounds, table-lookup}
use epos_arm.Vmspace.Chain.{Chain, Chain_bounds}
use epos_arm.Vmspace.Table.{lookup, table}
use epos_arm.Vmspace.{VmZone, zones, prot_loop}

-- The call takes no protection from the address.
abbrev pub Spares : ℕ → Call → Type 0
Spares a (alloc x n prot user) = Unit {0}
Spares a (alloc_in_addr x va n prot) = Unit {0}
Spares a (free va n) = in_pages va n a ≡ false

IsGrant-keeps :
    (user : Bool) (va n prot a : ℕ) (m m' : View)
    → IsGrant user va n prot m m'
    → m.prot a ≢ size_max
    → m'.prot a ≡ m.prot a
IsGrant-keeps user va n prot a m m' g used = elim (Bool-cases (in_pages va n a)) [
  | inl inside ↦ absurd (used (g.unused a inside))
  | inr outside ↦ rw (g.change a, outside) refl
]

pub Permits-keeps :
    (m m' : View) (c : Call) (r a : ℕ)
    → Permits m c r m'
    → m.prot a ≢ size_max
    → Spares a c
    → m'.prot a ≡ m.prot a
Permits-keeps m m' (alloc x n prot user) r a (inl g) used h =
    IsGrant-keeps user r n prot a m m' g used
Permits-keeps m m' (alloc x n prot user) r a (inr (e, same, why)) used h = same.0 a
Permits-keeps m m' (alloc_in_addr x va n prot) r a (inl (e, g)) used h =
    IsGrant-keeps (ltb va user_max_addr) va n prot a m m' g used
Permits-keeps m m' (alloc_in_addr x va n prot) r a (inr (e, same, why)) used h = same.0 a
Permits-keeps m m' (free va n) r a (inl (e, g)) used h = rw (g.change a, h) refl
Permits-keeps m m' (free va n) r a (inr (e, same, why)) used h = same.0 a

-- The call gives back no range that begins at the address.
abbrev pub Leaves : ℕ → Call → Type 0
Leaves va (alloc x n prot user) = Unit {0}
Leaves va (alloc_in_addr x va' n prot) = Unit {0}
Leaves va (free va' n) = va' ≢ va

abbrev pub AllLeave : ℕ → List Call → Type 0
AllLeave va [] = Unit {0}
AllLeave va (c ∷ cs) = Leaves va c × AllLeave va cs

IsGrant-entry :
    (user : Bool) (r n prot va l p : ℕ) (m m' : View)
    → IsGrant user r n prot m m'
    → 0 < l
    → m.ranges va ≡ some (l, p)
    → m'.ranges va ≡ some (l, p)
IsGrant-entry user r n prot va l p m m' g positive e = elim (Bool-cases (va == r)) [
  | inl t ↦
      let same : va ≡ r = ground arith in
      let side = user_of user va (omega (arith, g.above)) (omega (arith, g.below, g.some_pages)) in
      absurd (clash (g.apart va l p side e) same)
  | inr f ↦ rw (g.entry va, f) e
]
  where
    clash : ((r + n * page_size ≤ va) ⊎ (va + l ≤ r)) → va ≡ r → ⊥
    clash apart same = omega (arith, g.some_pages)

Permits-entry :
    (m m' : View) (c : Call) (r va l p : ℕ)
    → Permits m c r m'
    → 0 < l
    → Leaves va c
    → m.ranges va ≡ some (l, p)
    → m'.ranges va ≡ some (l, p)
Permits-entry m m' (alloc x n prot user) r va l p (inl g) positive h e =
    IsGrant-entry user r n prot va l p m m' g positive e
Permits-entry m m' (alloc x n prot user) r va l p (inr (f, same, why)) positive h e = same.1 va ∙ e
Permits-entry m m' (alloc_in_addr x va' n prot) r va l p (inl (f, g)) positive h e =
    IsGrant-entry (ltb va' user_max_addr) va' n prot va l p m m' g positive e
Permits-entry m m' (alloc_in_addr x va' n prot) r va l p (inr (f, same, why)) positive h e =
    same.1 va ∙ e
Permits-entry m m' (free va' n) r va l p (inl (f, g)) positive h e =
    let other : (va == va') ≡ false = ground (arith, h) in rw (g.entry va, other) e
Permits-entry m m' (free va' n) r va l p (inr (f, same, why)) positive h e = same.1 va ∙ e

Trace-entry :
    {m m' : View} (cs : List Call) {rs : List ℕ} (va l p : ℕ)
    → Trace m cs rs m'
    → 0 < l
    → AllLeave va cs
    → m.ranges va ≡ some (l, p)
    → m'.ranges va ≡ some (l, p)
Trace-entry [] va l p (done same) positive h e = same.1 va ∙ e
Trace-entry (c ∷ cs) va l p (next {m} {m'} {r} q rest) positive (h, hs) e =
    Trace-entry cs va l p rest positive hs (Permits-entry m m' c r va l p q positive h e)

-- The addresses of a range have its protection.
lookup-prot_loop :
    (lo hi a b l prot : ℕ) (ps : List VmZone)
    → Chain lo hi ps
    → hi < 2 ^ 32
    → lookup b ps ≡ some (l, prot)
    → b ≤ a
    → a < b + l
    → prot_loop a ps ≡ prot
unfolding lookup prot_loop
lookup-prot_loop lo hi a b l prot [] c small e h h' = absurd (ground arith)
lookup-prot_loop lo hi a b l prot (p ∷ ps) c small e h h' = elim (Bool-cases (b == p.base)) [
  | inl t ↦ ground (arith, t, e, Chain_bounds lo hi [] p ps c)
  | inr g ↦
      let later : lookup b ps ≡ some (l, prot) = ground (arith, g, e) in
      let ih = lookup-prot_loop (p.base + p.limit) hi a b l prot ps c.2 small later h h' in
      let bounds = lookup_bounds (p.base + p.limit) hi b l prot ps c.2 later in
      ground (arith, ih, bounds, Chain_bounds lo hi [] p ps c)
]

table-page_prot :
    (s : VmSpace) (a va l prot : ℕ)
    → IsValid s
    → table s va ≡ some (l, prot)
    → va ≤ a
    → a < va + l
    → page_prot s a ≡ prot
unfolding page_prot
table-page_prot s a va l prot v e h h' =
    let user = ltb va user_max_addr in
    let found = table-lookup s user v va l prot refl e in
    let bounds =
      lookup_bounds (space_start user) (space_end user) va l prot (zones s user)
        (IsValid-Chain user v) found in
    let side : ltb a user_max_addr ≡ user =
      user_of user a (omega (arith, bounds)) (omega (arith, bounds)) in
    rw side (
      lookup-prot_loop (space_start user) (space_end user) a va l prot (zones s user)
        (IsValid-Chain user v) (space_end-lt user) found h h')

-- In a valid space, a range of pages other than the one of `init_vmspace` keeps its protection through any calls, with
-- memory for the nodes and with sums that do not wrap, of which none gives back a range at its first address,
-- and can be given back after them.
pub run-keeps :
    (s s' : VmSpace) (cs : List Call) (rs : List ℕ) (va n prot : ℕ)
    → IsValid s
    → AreSmall cs
    → run s cs ≡ some (s', rs)
    → 0 < n
    → n < 2 ^ 20
    → va ≢ user_max_addr
    → table s va ≡ some (n * page_size, prot)
    → AllLeave va cs
    → ((a : ℕ) → in_pages va n a ≡ true → page_prot s' a ≡ prot)
      × (s2 : VmSpace) × (node : ℕ) × (page_free s' va (pos n) ≡ some (s2, node))
unfolding table
run-keeps s s' cs rs va n prot v h e positive few other range leave =
    let (s2, rs2, e2, v2, tr) = run-Trace s cs v h in
    let same : s2 ≡ s' = ground (arith, e, e2) in
    let v' = subst IsValid same v2 in
    let kept : table s' va ≡ some (n * page_size, prot) =
      subst (λ t. table t va ≡ some (n * page_size, prot)) same
        (Trace-entry cs va (n * page_size) prot tr (omega arith) leave range) in
    let given : (s2 : VmSpace) × (node : ℕ) × (page_free s' va (pos n) ≡ some (s2, node)) =
      elim (Free.page_free-Released s' va n v' other positive few) [
        | inl (s3, node, freed, rel) ↦ (s3, node, freed)
        | inr (fails, missing) ↦ absurd (lookup-NoZone va (n * page_size) prot _ missing kept)
      ] in
    (
      λ a inside.
          table-page_prot s' a va (n * page_size) prot v' kept (ground arith) (ground arith),
      given.0,
      given.1,
      given.2,
    )
