-- ===== src/Vmspace/Apart.antt =====
-- The loops of kernel/page.c over the zones, told in terms of the ranges of the table.
use epos_arm.Base.{
  ℕ, ◌+◌, ◌≤◌, ◌<◌, ◌≡◌, refl, ap, sym, ◌∙◌, inl, inr, Bool, true, false, none, some, List, [], ◌∷◌,
  arith, ltb, ◌==◌, Bool-cases,
}
use mathlib.Core.Path.{subst}
use epos_arm.Cpu.{user_max_addr}
use epos_arm.Vmspace.{VmZone, VmSpace, zones, space_end}
use epos_arm.Vmspace.Chain.{Chain, Chain-le, Free}
use epos_arm.Vmspace.Table.{lookup, table, AreApart, Free-lookup, lookup-Free}
use epos_arm.Vmspace.Valid.{IsValid, IsValid-Chain, space_start}
use epos_arm.Vmspace.Alloc.{Tried}
use epos_arm.Vmspace.Alloc
use epos_arm.Vmspace.Spec.{IsTried}

-- An address belongs to the list that its place among the addresses says.
pub user_of :
    (user : Bool) (a : ℕ) → space_start user ≤ a → a < space_end user → ltb a user_max_addr ≡ user
unfolding space_end
user_of true a lo hi = ground arith
user_of false a lo hi = ground arith

pub lookup_bounds :
    (lo hi b l prot : ℕ) (ps : List VmZone)
    → Chain lo hi ps
    → lookup b ps ≡ some (l, prot)
    → (lo ≤ b) × (0 < l) × (b + l ≤ hi)
unfolding lookup
lookup_bounds lo hi b l prot [] c e = absurd (ground arith)
lookup_bounds lo hi b l prot (p ∷ ps) c e = elim (Bool-cases (b == p.base)) [
  | inl t ↦ ground (arith, t, e, c.0, c.1, Chain-le (p.base + p.limit) hi ps c.2)
  | inr g ↦
      omega (
        arith,
        c.0,
        c.1,
        lookup_bounds (p.base + p.limit) hi b l prot ps c.2 (ground (arith, g, e)),
      )
]

module _ (s : VmSpace) (user : Bool) (v : IsValid s) where
  lookup-table :
      (b l prot : ℕ)
      → lookup b (zones s user) ≡ some (l, prot)
      → (ltb b user_max_addr ≡ user) × (table s b ≡ some (l, prot))
  unfolding table
  lookup-table b l prot e =
      let (lo, positive, hi) =
        lookup_bounds (space_start user) (space_end user) b l prot (zones s user)
          (IsValid-Chain user v) e in
      let side = user_of user b lo (omega (arith, hi, positive)) in (side, rw side e)

  pub table-lookup :
      (b l prot : ℕ)
      → ltb b user_max_addr ≡ user
      → table s b ≡ some (l, prot)
      → lookup b (zones s user) ≡ some (l, prot)
  unfolding table
  table-lookup b l prot side e = ap (λ (u : Bool). lookup b (zones s u)) (sym side) ∙ e

  pub Free-AreApart : (va size : ℕ) → Free va size (zones s user) → AreApart user va size (table s)
  Free-AreApart va size free b l prot side e =
      Free-lookup va size (zones s user) b l prot free (table-lookup b l prot side e)

  pub AreApart-Free : (va size : ℕ) → AreApart user va size (table s) → Free va size (zones s user)
  AreApart-Free va size apart =
      lookup-Free (space_start user) (space_end user) va size (zones s user) (IsValid-Chain user v)
        (λ b l prot e. let (side, entry) = lookup-table b l prot e in apart b l prot side entry)

  first_end :
      (lo hi a b l prot : ℕ) (ps : List VmZone)
      → Chain lo hi ps
      → lookup b ps ≡ some (l, prot)
      → b + l ≤ a
      → Tried user a ps
  unfolding lookup
  first_end lo hi a b l prot [] c e h = absurd (ground arith)
  first_end lo hi a b l prot (p ∷ ps) c e h = elim (Bool-cases (b == p.base)) [
    | inl t ↦ ground (arith, t, e, h)
    | inr g ↦
        omega (arith, lookup_bounds (p.base + p.limit) hi b l prot ps c.2 (ground (arith, g, e)), h)
  ]

  none_listed :
      (a : ℕ) (ps : List VmZone)
      → zones s user ≡ ps
      → space_start user ≤ a
      → ((b : ℕ) → ltb b user_max_addr ≡ user → table s b ≡ none)
      → Tried user a ps
  unfolding lookup
  none_listed a [] e lo empty =
      subst (λ (u : Bool). space_start u ≤ a) (Alloc.zones_empty s user v e) lo
  none_listed a (p ∷ ps) e lo empty =
      let found : lookup p.base (p ∷ ps) ≡ some (p.limit, p.protect) = ground arith in
      let (side, entry) = lookup-table p.base p.limit p.protect (ap (lookup p.base) e ∙ found) in
      absurd (ground (arith, empty p.base side, entry))

  pub IsTried-Tried : (a : ℕ) → IsTried user a (table s) → Tried user a (zones s user)
  IsTried-Tried a (inl (b, l, prot, side, e, h)) =
      first_end (space_start user) (space_end user) a b l prot (zones s user) (IsValid-Chain user v)
        (table-lookup b l prot side e) h
  IsTried-Tried a (inr (lo, empty)) = none_listed a (zones s user) refl lo empty
