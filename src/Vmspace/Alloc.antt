-- ===== src/Vmspace/Alloc.antt =====
-- `page_alloc` of kernel/page.c.
use epos_arm.Base.{
  ℕ, ◌+◌, ◌*◌, ◌^◌, ◌≤◌, ◌<◌, ◌≡◌, ◌≢◌, refl, ap, ◌⊎◌, inl, inr, Bool, true, false, ◌||◌, Option,
  some, List, [], ◌∷◌, ◌++◌, arith, ltb, leb, ◌==◌, if◌then◌else◌, Bool-cases,
}
use mathlib.Core.Path.{subst}
use epos_arm.Base.Word.{u32, size_max, pos}
use epos_arm.Cpu.{page_size, user_min_addr, user_max_addr}
use epos_arm.Vmspace.{
  VmZone, VmSpace, zone_end, zones, space_end, claim, find_gap, first_gap, page_alloc, size_of,
  not_positive,
}
use epos_arm.Vmspace.Chain.{Chain, Chain_bounds, Chain-Free, Chain-le, Free, new_zone}
use epos_arm.Vmspace.Valid.{
  StartsAt, IsValid, IsValid-Chain, Claimed, claim-Claimed, space_start, space_end-lt,
}

module _ (x size prot hi : ℕ) (pos_size : 0 < size) (fits : hi + size < 2 ^ 32) where
  -- The address and the two parts of the list that a search from `va` on yields.
  record IsGap (va : ℕ) (ps : List VmZone) (r : ℕ × List VmZone × List VmZone) : Type 0 where
    joined : r.1 ++ r.2 ≡ ps
    after : va ≤ r.0
    below : r.0 ≤ hi
    chain : r.0 + size ≤ hi → Chain va hi (r.1 ++ new_zone x r.0 size prot ∷ r.2)
    least : (a : ℕ) → va ≤ a → Free a size ps → r.0 ≤ a

  IsGap-cons :
      (va : ℕ) (p : VmZone) (ps : List VmZone) (r : ℕ × List VmZone × List VmZone)
      → va ≤ p.base
      → 0 < p.limit
      → p.base < va + size
      → IsGap (p.base + p.limit) ps r
      → IsGap va (p ∷ ps) (r.0, p ∷ r.1, r.2)
  IsGap-cons va p ps r l q narrow g = record {
    joined = ap (λ (t : List VmZone). p ∷ t) g.joined;
    after = omega (arith, g.after);
    below = g.below;
    chain = λ h. (l, q, g.chain h);
    least = λ a h free. g.least a (omega (arith, free.0)) free.1;
  }

  find_gap-IsGap : (va : ℕ) (ps : List VmZone) → Chain va hi ps → IsGap va ps (find_gap size va ps)
  unfolding find_gap
  find_gap-IsGap va [] c = record {
    joined = refl;
    after = omega arith;
    below = c;
    chain = λ h. (omega arith, pos_size, h);
    least = λ a h f. h;
  }
  find_gap-IsGap va (p ∷ ps) c =
      let end_le = Chain-le (p.base + p.limit) hi ps c.2 in
      let end_eq : zone_end p ≡ p.base + p.limit = omega arith in
      elim (Bool-cases (leb (u32 (va + size)) p.base)) [
        | inl room ↦ rw room (record {
          joined = refl;
          after = omega arith;
          below = omega arith;
          chain = λ h. (omega arith, pos_size, (ground arith, c.1, c.2));
          least = λ a h f. h;
        })
        | inr narrow ↦
            rw (narrow, end_eq)
              (IsGap-cons va p ps _ c.0 c.1 (ground arith)
                (find_gap-IsGap (p.base + p.limit) ps c.2))
      ]

-- `n` pages asked of the user's or of the kernel's addresses; the sums of the search do not wrap.
pub record IsRequest (user : Bool) (n : ℕ) : Type 0 where
  pub some_pages : 0 < n
  pub small : space_end user + n * page_size < 2 ^ 32

pub size_of-pos : (user : Bool) (n : ℕ) → IsRequest user n → size_of (pos n) ≡ n * page_size
unfolding size_of
size_of-pos user n r = omega (arith, r.small)

-- The addresses that `page_alloc` tries: those behind the first zone of the list, or all if the list
-- is empty.
abbrev pub Tried : Bool → ℕ → List VmZone → Type 0
Tried user a [] = user_min_addr ≤ a
Tried user a (p ∷ ps) = p.base + p.limit ≤ a

module _ (x size prot : ℕ) (user : Bool) (pos_size : 0 < size)
    (fits : space_end user + size < 2 ^ 32) where
  record IsPlace (ps : List VmZone) (r : ℕ × List VmZone × List VmZone) : Type 0 where
    joined : r.1 ++ r.2 ≡ ps
    chain :
        r.0 + size ≤ space_end user
        → Chain (space_start user) (space_end user) (r.1 ++ new_zone x r.0 size prot ∷ r.2)
    below : r.0 ≤ space_end user
    least : (a : ℕ) → Tried user a ps → Free a size ps → r.0 ≤ a

  first_gap-IsPlace :
      (ps : List VmZone)
      → (ps ≡ [] → user ≡ true)
      → Chain (space_start user) (space_end user) ps
      → IsPlace ps (first_gap size ps)
  unfolding first_gap space_end
  first_gap-IsPlace [] h c = record {
    joined = refl;
    chain = λ fit. (ground (arith, h refl), pos_size, fit);
    below = ground (arith, h refl);
    least = λ a tried free. tried;
  }
  first_gap-IsPlace (p ∷ ps) h c =
      let last = Chain-le (p.base + p.limit) (space_end user) ps c.2 in
      let end_eq : zone_end p ≡ p.base + p.limit = omega (arith, space_end-lt user) in
      let g = find_gap-IsGap x size prot (space_end user) pos_size fits (p.base + p.limit) ps c.2 in
      rw end_eq (record {
        joined = ap (λ (t : List VmZone). p ∷ t) g.joined;
        chain = λ fit. (c.0, c.1, g.chain fit);
        below = g.below;
        least = λ a tried free. g.least a tried free.1;
      })

pub zones_empty : (s : VmSpace) (user : Bool) → IsValid s → zones s user ≡ [] → user ≡ true
unfolding zones
zones_empty s true v e = refl
zones_empty s false v e = absurd (subst (StartsAt user_max_addr) e v.km0)

-- Either `o` is the lowest address tried at which `size` addresses are free, all of them the user's or
-- the kernel's as asked, with the space in which they are claimed, or it is SIZE_MAX with the space unchanged, and no address tried has room.
abbrev pub Result : VmSpace → (x size prot : ℕ) → Bool → Option (VmSpace × ℕ) → Type 0
Result s x size prot user o =
    ((va : ℕ) × (s' : VmSpace) × (o ≡ some (s', va))
      × Claimed s (new_zone x va size prot) s'
      × ((a : ℕ) → Tried user a (zones s user) → Free a size (zones s user) → va ≤ a)
      × (space_start user ≤ va)
      × (va + size ≤ space_end user)
      × Free va size (zones s user))
    ⊎ ((o ≡ some (s, size_max))
        × ((a : ℕ)
            → Tried user a (zones s user)
            → Free a size (zones s user)
            → space_end user < a + size))

module _ (s : VmSpace) (x size prot : ℕ) (user : Bool) (ne : x ≢ 0) (v : IsValid s)
    (pos_size : 0 < size) (fits : space_end user + size < 2 ^ 32) where
  -- The tests of `page_alloc` behind its loop, and what follows them.
  finish : ℕ × List VmZone × List VmZone → Option (VmSpace × ℕ)
  finish g =
      if leb (space_end user) g.0 || ltb (space_end user) (u32 (g.0 + size))
      then some (s, size_max)
      else claim s user (some (g.1, g.2)) (new_zone x g.0 size prot)

  finish-Result :
      (g : ℕ × List VmZone × List VmZone)
      → IsPlace x size prot user pos_size fits (zones s user) g
      → Result s x size prot user (finish g)
  unfolding finish
  finish-Result g place =
      elim (Bool-cases (leb (space_end user) g.0 || ltb (space_end user) (u32 (g.0 + size)))) [
        | inl beyond ↦
            rw beyond
              (inr (refl, λ a tried free. ground (arith, place.least a tried free, place.below)))
        | inr room ↦
            let chain = place.chain (ground (arith, place.below)) in
            let (s', e, claimed) = claim-Claimed s user g.1 g.2 _ v ne place.joined chain in
            let (lo, some_bytes, hi) =
              Chain_bounds (space_start user) (space_end user) g.1 (new_zone x g.0 size prot) g.2
                chain in
            rw room (
              inl (
                g.0,
                s',
                e,
                claimed,
                place.least,
                lo,
                hi,
                subst (Free g.0 size) place.joined (
                    Chain-Free (space_start user) (space_end user) g.1 (new_zone x g.0 size prot)
                      g.2 chain),
              ))
      ]

page_alloc-finish :
    (s : VmSpace) (x n prot : ℕ) (user : Bool) (ne : x ≢ 0) (v : IsValid s) (r : IsRequest user n)
    (p : 0 < n * page_size)
    → page_alloc s x (pos n) prot user
      ≡ finish s x
          (n * page_size)
          prot
          user
          ne
          v
          p
          r.small
          (first_gap (n * page_size) (zones s user))
unfolding page_alloc not_positive finish
page_alloc-finish s x n prot user ne v r p =
    let some_pages : (n == 0) ≡ false = ground (arith, r.some_pages) in
    rw (size_of-pos user n r, some_pages)

-- For a valid space, memory for the node and one page or more, so few that no sum of the search wraps,
-- `page_alloc` returns the lowest address behind the first
-- zone of the list (or the lowest of all, if the list is empty) at which the pages are free and fit,
-- within the user's or the kernel's addresses as asked, and the space with the new zone there, exactly the addresses of the request having changed to the
-- protection asked for; it returns SIZE_MAX and changes nothing only if there is no such address.
pub page_alloc-Claimed :
    (s : VmSpace) (x n prot : ℕ) (user : Bool)
    → x ≢ 0
    → IsValid s
    → IsRequest user n
    → Result s x (n * page_size) prot user (page_alloc s x (pos n) prot user)
page_alloc-Claimed s x n prot user ne v r =
    let some_bytes : 0 < n * page_size = omega (arith, r.some_pages) in
    rw (page_alloc-finish s x n prot user ne v r some_bytes) (
      finish-Result s x (n * page_size) prot user ne v some_bytes r.small _ (
        first_gap-IsPlace x (n * page_size) prot user some_bytes r.small (zones s user)
          (zones_empty s user v) (IsValid-Chain user v)))
