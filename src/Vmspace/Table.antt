-- ===== src/Vmspace/Table.antt =====
-- The ranges that the lists of kernel/page.c hold, as a table by their first addresses.
use epos_arm.Base.{
  ℕ, ◌+◌, ◌≤◌, ◌<◌, ◌≡◌, ◌≢◌, refl, ◌⊎◌, inl, inr, Bool, Option, none, some, List, [], ◌∷◌, ◌++◌,
  arith, ltb, ◌==◌, if◌then◌else◌, Bool-cases,
}
use epos_arm.Cpu.{user_max_addr}
use epos_arm.Vmspace.{VmZone, VmSpace, zones}
use epos_arm.Vmspace.Chain.{Chain, Chain_bounds, Free}
use epos_arm.Vmspace.Unlink.{NoZone}

-- The size and the protection of the range that begins at an address.
abbrev pub Table : Type 0
Table = ℕ → Option (ℕ × ℕ)

unfoldable pub lookup : ℕ → List VmZone → Option (ℕ × ℕ)
lookup b [] = none
lookup b (p ∷ ps) =
    let rest = lookup b ps in if b == p.base then some (p.limit, p.protect) else rest

unfoldable pub table : VmSpace → Table
table s b = lookup b (zones s (ltb b user_max_addr))

-- The ranges of `t` that lie in the user's or in the kernel's addresses are apart from the `size`
-- addresses from `va` on.
abbrev pub AreApart : (user : Bool) (va size : ℕ) → Table → Type 0
AreApart user va size t =
    (b l prot : ℕ)
    → ltb b user_max_addr ≡ user
    → t b ≡ some (l, prot)
    → (va + size ≤ b) ⊎ (b + l ≤ va)

-- No range of a chain begins below it.
lookup-below : (lo hi b : ℕ) (ps : List VmZone) → Chain lo hi ps → b < lo → lookup b ps ≡ none
unfolding lookup
lookup-below lo hi b [] c h = refl
lookup-below lo hi b (p ∷ ps) c h = ground (arith, c.0, lookup-below (p.base + p.limit) hi b ps c.2)

pub lookup_insert :
    (lo hi b : ℕ) (front : List VmZone) (z : VmZone) (back : List VmZone)
    → Chain lo hi (front ++ z ∷ back)
    → lookup b (front ++ z ∷ back)
      ≡ (if b == z.base then some (z.limit, z.protect) else lookup b (front ++ back))
unfolding lookup
lookup_insert lo hi b [] z back c = refl
lookup_insert lo hi b (p ∷ ps) z back c = ground (
  arith,
  Chain_bounds (p.base + p.limit) hi ps z back c.2,
  c.1,
  lookup_insert (p.base + p.limit) hi b ps z back c.2,
)

pub lookup_removed :
    (lo hi : ℕ) (front : List VmZone) (z : VmZone) (back : List VmZone)
    → Chain lo hi (front ++ z ∷ back)
    → lookup z.base (front ++ back) ≡ none
unfolding lookup
lookup_removed lo hi [] z back c =
    lookup-below (z.base + z.limit) hi z.base back c.2 (omega (arith, c.1))
lookup_removed lo hi (p ∷ ps) z back c = ground (
  arith,
  Chain_bounds (p.base + p.limit) hi ps z back c.2,
  c.1,
  lookup_removed (p.base + p.limit) hi ps z back c.2,
)

-- What is in the list is found in the table.
lookup-cons :
    (lo hi : ℕ) (p : VmZone) (ps : List VmZone) (b l prot : ℕ)
    → Chain lo hi (p ∷ ps)
    → lookup b ps ≡ some (l, prot)
    → lookup b (p ∷ ps) ≡ some (l, prot)
unfolding lookup
lookup-cons lo hi p ps b l prot c e =
    ground (arith, e, c.1, lookup-below (p.base + p.limit) hi b ps c.2)

pub Free-lookup :
    (va size : ℕ) (ps : List VmZone) (b l prot : ℕ)
    → Free va size ps
    → lookup b ps ≡ some (l, prot)
    → (va + size ≤ b) ⊎ (b + l ≤ va)
unfolding lookup
Free-lookup va size [] b l prot f e = absurd (ground arith)
Free-lookup va size (p ∷ ps) b l prot f e = elim (Bool-cases (b == p.base)) [
  | inl t ↦ ground (arith, f.0, e, t)
  | inr g ↦ Free-lookup va size ps b l prot f.1 (ground arith)
]

pub lookup-Free :
    (lo hi va size : ℕ) (ps : List VmZone)
    → Chain lo hi ps
    → ((b l prot : ℕ) → lookup b ps ≡ some (l, prot) → (va + size ≤ b) ⊎ (b + l ≤ va))
    → Free va size ps
unfolding lookup
lookup-Free lo hi va size [] c apart = tt
lookup-Free lo hi va size (p ∷ ps) c apart = (
  apart p.base p.limit p.protect (ground arith),
  lookup-Free (p.base + p.limit) hi va size ps c.2
      (λ b l prot e. apart b l prot (lookup-cons lo hi p ps b l prot c e)),
)

-- Where no zone has the base and the size, the table has no range with them.
pub lookup-NoZone :
    (va size prot : ℕ) (ps : List VmZone) → NoZone va size ps → lookup va ps ≢ some (size, prot)
unfolding lookup
lookup-NoZone va size prot [] none_there e = ground arith
lookup-NoZone va size prot (p ∷ ps) none_there e = elim (Bool-cases (va == p.base)) [
  | inl t ↦ none_there.0 (ground arith) (ground (arith, e, t))
  | inr g ↦ lookup-NoZone va size prot ps none_there.1 (ground arith)
]
