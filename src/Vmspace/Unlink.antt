-- ===== src/Vmspace/Unlink.antt =====
-- The loop of `page_free` of kernel/page.c over a list of zones.
use mathlib.Core.Option
use epos_arm.Base.{
  ℕ, ◌+◌, ◌^◌, ◌<◌, ◌≡◌, ◌≢◌, refl, ap, inl, inr, true, ◌&&◌, Option, none, some, List, [], ◌∷◌,
  ◌++◌, arith, ◌==◌, Bool-cases,
}
use epos_arm.Base.Word.{size_max}
use epos_arm.Vmspace.{VmZone, unlink_zone, prot_loop}
use epos_arm.Vmspace.Chain.{Chain, Chain_bounds, within, prot_loop-below}

-- The addresses of a zone taken out of a chain are in no zone that is left.
pub prot_loop_removed :
    (lo hi va : ℕ) (front : List VmZone) (z : VmZone) (back : List VmZone)
    → Chain lo hi (front ++ z ∷ back)
    → hi < 2 ^ 32
    → within va z ≡ true
    → prot_loop va (front ++ back) ≡ size_max
unfolding prot_loop
prot_loop_removed lo hi va [] z back c small h =
    prot_loop-below (z.base + z.limit) hi va back c.2 (ground arith)
prot_loop_removed lo hi va (p ∷ ps) z back c small h = ground (
  arith,
  Chain_bounds lo hi [] p (ps ++ z ∷ back) c,
  Chain_bounds (p.base + p.limit) hi ps z back c.2,
  prot_loop_removed (p.base + p.limit) hi va ps z back c.2,
)

-- The bases of a chain are different, so the loop finds a zone by its base and size.
pub unlink_zone_insert :
    (lo hi : ℕ) (front : List VmZone) (z : VmZone) (back : List VmZone)
    → Chain lo hi (front ++ z ∷ back)
    → unlink_zone z.base z.limit (front ++ z ∷ back) ≡ some (front ++ back, z.addr)
unfolding unlink_zone
unlink_zone_insert lo hi [] z back c = ground arith
unlink_zone_insert lo hi (p ∷ ps) z back c = ground (
  arith,
  Chain_bounds (p.base + p.limit) hi ps z back c.2,
  unlink_zone_insert (p.base + p.limit) hi ps z back c.2,
)

-- No zone begins at `va` and has the size.
abbrev pub NoZone : (va size : ℕ) → List VmZone → Type 0
NoZone va size [] = Unit {0}
NoZone va size (p ∷ ps) = ((va ≡ p.base) → size ≢ p.limit) × NoZone va size ps

-- The list `ps` is `qs` with a zone for the range, whose node is `node`.
pub record Unlinked (va size : ℕ) (ps qs : List VmZone) (node : ℕ) : Type 0 where
  pub front : List VmZone
  pub z : VmZone
  pub back : List VmZone
  pub before : ps ≡ front ++ z ∷ back
  pub later : qs ≡ front ++ back
  pub base : z.base ≡ va
  pub limit : z.limit ≡ size
  pub addr : z.addr ≡ node

module _ (va size : ℕ) where
  unfoldable pub Outcome : List VmZone → Option (List VmZone × ℕ) → Type 0
  Outcome ps none = NoZone va size ps
  Outcome ps (some (qs, node)) = Unlinked va size ps qs node

  Outcome-cons :
      (p : VmZone) (ps : List VmZone) (o : Option (List VmZone × ℕ))
      → ((va ≡ p.base) → size ≢ p.limit)
      → Outcome ps o
      → Outcome (p ∷ ps) (Option.map (λ r. (p ∷ r.0, r.1)) o)
  unfolding Outcome
  Outcome-cons p ps none other f = (other, f)
  Outcome-cons p ps (some (qs, node)) other u = record {
    front = p ∷ u.front;
    z = u.z;
    back = u.back;
    before = ap (λ (t : List VmZone). p ∷ t) u.before;
    later = ap (λ (t : List VmZone). p ∷ t) u.later;
    base = u.base;
    limit = u.limit;
    addr = u.addr;
  }

  pub unlink_zone-Outcome : (ps : List VmZone) → Outcome ps (unlink_zone va size ps)
  unfolding unlink_zone
  unlink_zone-Outcome [] = unfold Outcome in tt
  unlink_zone-Outcome (p ∷ ps) = elim (Bool-cases (va == p.base && size == p.limit)) [
    | inl this ↦ rw this (
        unfold Outcome in
        record {
          front = [];
          z = p;
          back = ps;
          before = refl;
          later = refl;
          base = ground arith;
          limit = ground arith;
          addr = refl;
        })
    | inr other ↦ rw other (Outcome-cons p ps _ (λ b l. ground arith) (unlink_zone-Outcome ps))
  ]
