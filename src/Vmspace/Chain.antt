-- ===== src/Vmspace/Chain.antt =====
-- The order of the zones that kernel/page.c keeps, the ranges that are free, and what the loops over
-- the zones find.
use mathlib.Core.Option
use epos_arm.Base.{
  ℕ, ◌+◌, ◌^◌, ◌≤◌, ◌<◌, ◌≡◌, refl, ap, ◌⊎◌, inl, inr, Bool, ◌&&◌, Option, none, some, List, [],
  ◌∷◌, ◌++◌, arith, ltb, leb, if◌then◌else◌, Bool-cases,
}
use epos_arm.Base.Word.{u32, size_max}
use epos_arm.Vmspace.{VmZone, zone_end, find_gap_at, prot_loop}

-- The zones lie in order between `lo` and `hi`, none is empty and no two overlap.
abbrev pub Chain : (lo hi : ℕ) → List VmZone → Type 0
Chain lo hi [] = lo ≤ hi
Chain lo hi (p ∷ ps) = (lo ≤ p.base) × (0 < p.limit) × Chain (p.base + p.limit) hi ps

-- No zone meets the `size` addresses from `va` on.
abbrev pub Free : (va size : ℕ) → List VmZone → Type 0
Free va size [] = Unit {0}
Free va size (p ∷ ps) = ((va + size ≤ p.base) ⊎ (p.base + p.limit ≤ va)) × Free va size ps

pub Chain-le : (lo hi : ℕ) (ps : List VmZone) → Chain lo hi ps → lo ≤ hi
Chain-le lo hi [] c = c
Chain-le lo hi (p ∷ ps) c = omega (arith, Chain-le (p.base + p.limit) hi ps c.2)

-- A zone in a chain lies between its ends.
pub Chain_bounds :
    (lo hi : ℕ) (front : List VmZone) (z : VmZone) (back : List VmZone)
    → Chain lo hi (front ++ z ∷ back)
    → (lo ≤ z.base) × (0 < z.limit) × (z.base + z.limit ≤ hi)
Chain_bounds lo hi [] z back c = (c.0, c.1, Chain-le _ hi back c.2)
Chain_bounds lo hi (p ∷ ps) z back c =
    omega (arith, Chain_bounds (p.base + p.limit) hi ps z back c.2)

pub Chain-remove :
    (lo hi : ℕ) (front : List VmZone) (z : VmZone) (back : List VmZone)
    → Chain lo hi (front ++ z ∷ back)
    → Chain lo hi (front ++ back)
Chain-remove lo hi [] z [] c = omega arith
Chain-remove lo hi [] z (p ∷ ps) c = (omega arith, c.2.1, c.2.2)
Chain-remove lo hi (p ∷ ps) z back c = (c.0, c.1, Chain-remove (p.base + p.limit) hi ps z back c.2)

-- `va` lies in the zone.
abbrev pub within : ℕ → VmZone → Bool
within va z = leb z.base va && ltb va (z.base + z.limit)

-- An address below the chain is in none of its zones.
pub prot_loop-below :
    (lo hi va : ℕ) (ps : List VmZone) → Chain lo hi ps → va < lo → prot_loop va ps ≡ size_max
unfolding prot_loop
prot_loop-below lo hi va [] c h = refl
prot_loop-below lo hi va (p ∷ ps) c h =
    ground (arith, prot_loop-below (p.base + p.limit) hi va ps c.2)

-- One zone more in a chain changes what `page_prot` says at its own addresses only.
pub prot_loop_insert :
    (lo hi va : ℕ) (front : List VmZone) (z : VmZone) (back : List VmZone)
    → Chain lo hi (front ++ z ∷ back)
    → hi < 2 ^ 32
    → prot_loop va (front ++ z ∷ back)
      ≡ (if within va z then z.protect else prot_loop va (front ++ back))
unfolding prot_loop
prot_loop_insert lo hi va [] z back c small = ground (arith, Chain_bounds lo hi [] z back c)
prot_loop_insert lo hi va (p ∷ ps) z back c small = ground (
  arith,
  Chain_bounds lo hi [] p (ps ++ z ∷ back) c,
  Chain_bounds (p.base + p.limit) hi ps z back c.2,
  prot_loop_insert (p.base + p.limit) hi va ps z back c.2,
)

-- The zone that the two allocating functions make.
abbrev pub new_zone : (x va size prot : ℕ) → VmZone
new_zone x va size prot = record { addr = x; base = va; limit = size; protect = prot }

-- A range below a chain is free of its zones.
Free-below :
    (lo hi va size : ℕ) (ps : List VmZone) → Chain lo hi ps → va + size ≤ lo → Free va size ps
Free-below lo hi va size [] c h = tt
Free-below lo hi va size (p ∷ ps) c h =
    (inl (omega arith), Free-below (p.base + p.limit) hi va size ps c.2 (omega arith))

-- The range of a zone in a chain is free of the other zones.
pub Chain-Free :
    (lo hi : ℕ) (front : List VmZone) (z : VmZone) (back : List VmZone)
    → Chain lo hi (front ++ z ∷ back)
    → Free z.base z.limit (front ++ back)
Chain-Free lo hi [] z back c =
    Free-below (z.base + z.limit) hi z.base z.limit back c.2 (omega arith)
Chain-Free lo hi (p ∷ ps) z back c = (
  inr (omega (arith, Chain_bounds (p.base + p.limit) hi ps z back c.2)),
  Chain-Free (p.base + p.limit) hi ps z back c.2,
)

module _ (z : VmZone) where
  -- What the loop of `page_alloc_in_addr` finds out about the range of the new zone `z`.
  unfoldable pub Fits : (lo hi : ℕ) → List VmZone → Option (List VmZone × List VmZone) → Type 0
  Fits lo hi ps none = ¬ Free z.base z.limit ps
  Fits lo hi ps (some (front, back)) =
      (front ++ back ≡ ps) × Chain lo hi (front ++ z ∷ back) × Free z.base z.limit ps

  Fits-cons :
      (lo hi : ℕ) (p : VmZone) (ps : List VmZone) (o : Option (List VmZone × List VmZone))
      → lo ≤ p.base
      → 0 < p.limit
      → p.base + p.limit ≤ z.base
      → Fits (p.base + p.limit) hi ps o
      → Fits lo hi (p ∷ ps) (Option.map (λ r. (p ∷ r.0, r.1)) o)
  unfolding Fits
  Fits-cons lo hi p ps none l q after f = λ free. f free.1
  Fits-cons lo hi p ps (some (front, back)) l q after (e, c, free) =
      (ap (λ (t : List VmZone). p ∷ t) e, (l, q, c), (inr after, free))

  pub find_gap_at-Fits :
      (lo hi : ℕ) (ps : List VmZone)
      → Chain lo hi ps
      → lo ≤ z.base
      → 0 < z.limit
      → z.base + z.limit ≤ hi
      → hi < 2 ^ 32
      → Fits lo hi ps (find_gap_at z.base z.limit ps)
  unfolding find_gap_at
  find_gap_at-Fits lo hi [] c l q h small = unfold Fits in (refl, (l, q, h), tt)
  find_gap_at-Fits lo hi (p ∷ ps) c l q h small =
      elim (Bool-cases (leb p.base z.base && ltb z.base (zone_end p))) [
        | inl inside ↦ rw inside (unfold Fits in λ free. ground (arith, free, ends))
        | inr outside ↦ elim (Bool-cases (ltb z.base p.base)) [
          | inr above ↦
              rw (outside, above)
                (Fits-cons lo hi p ps _ c.0 c.1 (ground (arith, ends))
                  (find_gap_at-Fits (p.base + p.limit) hi ps c.2 (ground (arith, ends)) q h small))
          | inl below ↦ elim (Bool-cases (ltb p.base (u32 (z.base + z.limit)))) [
            | inl meets ↦
                rw (outside, below, meets) (unfold Fits in λ free. ground (arith, free, ends))
            | inr fits ↦
                rw (outside, below, fits)
                  (unfold Fits in
                    (
                      refl,
                      (l, q, (ground arith, c.1, c.2)),
                      (
                        inl (ground arith),
                        Free-below (p.base + p.limit) hi _ _ ps c.2 (ground arith),
                      ),
                    ))
          ]
        ]
      ]
    where
      ends : (lo ≤ p.base) × (0 < p.limit) × (p.base + p.limit ≤ hi)
      ends = Chain_bounds lo hi [] p ps c
