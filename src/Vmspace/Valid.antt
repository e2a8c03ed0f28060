-- ===== src/Vmspace/Valid.antt =====
-- The invariant of the two lists of kernel/page.c, and how one more or one less zone changes what
-- `page_prot` says.
use epos_arm.Base.{
  ℕ, ◌+◌, ◌^◌, ◌≤◌, ◌<◌, ◌≡◌, ◌≢◌, refl, ap, Bool, true, false, sym, some, List, [], ◌∷◌, ◌++◌,
  arith, ltb, ◌==◌, if◌then◌else◌,
}
use mathlib.Core.Path.{subst}
use epos_arm.Base.Word.{pos}
use epos_arm.Cpu.{user_min_addr, user_max_addr, kern_max_addr}
use epos_arm.Vmspace.{
  VmZone, VmSpace, zones, space_end, insert_zone, claim, init_vmspace, page_free, set_zones,
  first_matches, size_of, not_positive, page_prot, prot_loop,
}
use epos_arm.Vmspace.Unlink.{unlink_zone_insert}
use epos_arm.Vmspace.Table.{lookup, table, lookup_insert}
use epos_arm.Vmspace.Chain.{Chain, within, Chain_bounds, prot_loop_insert}

-- The first zone begins at `a`.
abbrev pub StartsAt : ℕ → List VmZone → Type 0
StartsAt a [] = ⊥
StartsAt a (p ∷ ps) = p.base ≡ a

-- The user's zones lie between USER_MIN_ADDR and USER_MAX_ADDR, the kernel's between there and
-- KERN_MAX_ADDR, and the first of the kernel's is the one of `init_vmspace`.
pub record IsValid (s : VmSpace) : Type 0 where
  pub user : Chain user_min_addr user_max_addr s.uvmzone
  pub kernel : Chain user_max_addr kern_max_addr s.kvmzone
  pub km0 : StartsAt user_max_addr s.kvmzone

-- The start of the user's or of the kernel's addresses.
abbrev pub space_start : Bool → ℕ
space_start true = user_min_addr
space_start false = user_max_addr

pub IsValid-Chain :
    {s : VmSpace} (user : Bool)
    → IsValid s
    → Chain (space_start user) (space_end user) (zones s user)
unfolding zones space_end
IsValid-Chain true v = v.user
IsValid-Chain false v = v.kernel

pub space_end-lt : (user : Bool) → space_end user < 2 ^ 32
unfolding space_end
space_end-lt true = omega arith
space_end-lt false = omega arith

-- The state `s'` is `s` with the zone `z`.
pub record Claimed (s : VmSpace) (z : VmZone) (s' : VmSpace) : Type 0 where
  pub valid : IsValid s'
  pub prot : (a : ℕ) → page_prot s' a ≡ (if within a z then z.protect else page_prot s a)
  pub entry : (b : ℕ) → table s' b ≡ (if b == z.base then some (z.limit, z.protect) else table s b)
  pub undo :
      (n : ℕ) → 0 < n → size_of (pos n) ≡ z.limit → page_free s' z.base (pos n) ≡ some (s, z.addr)

pub first_matches-false :
    (va size : ℕ) (ps : List VmZone)
    → StartsAt user_max_addr ps
    → user_max_addr < va
    → first_matches va size ps ≡ false
unfolding first_matches
first_matches-false va size [] first above = absurd first
first_matches-false va size (p ∷ ps) first above = ground arith

module _ (s : VmSpace) (front : List VmZone) (z : VmZone) (back : List VmZone) (v : IsValid s) where
  with_user : VmSpace
  with_user = record s { uvmzone = front ++ z ∷ back }

  user_undo :
      front ++ back ≡ s.uvmzone
      → Chain user_min_addr user_max_addr (front ++ z ∷ back)
      → (n : ℕ) → 0 < n
      → size_of (pos n) ≡ z.limit
      → page_free with_user z.base (pos n) ≡ some (s, z.addr)
  unfolding with_user page_free not_positive zones set_zones
  user_undo e c n positive size =
      let bounds = Chain_bounds user_min_addr user_max_addr front z back c in
      let some_pages : (n == 0) ≡ false = ground arith in
      let user : ltb z.base user_max_addr ≡ true = ground (arith, bounds) in
      let inside : (z.base == user_max_addr) ≡ false = ground (arith, bounds) in
      rw
        (
          some_pages,
          user,
          inside,
          size,
          unlink_zone_insert user_min_addr user_max_addr front z back c,
        )
        (ap (λ (t : List VmZone). some (record s { uvmzone = t }, z.addr)) e)

  user-Claimed :
      front ++ back ≡ s.uvmzone
      → Chain user_min_addr user_max_addr (front ++ z ∷ back)
      → Claimed s z with_user
  unfolding with_user page_prot zones table
  user-Claimed e c = record {
    valid = record { user = c; kernel = v.kernel; km0 = v.km0 };
    prot = λ a. ground (
      arith,
      prot_loop_insert user_min_addr user_max_addr a front z back c,
      Chain_bounds user_min_addr user_max_addr front z back c,
      ap (prot_loop a) e,
    );
    entry = λ b. ground (
      arith,
      lookup_insert user_min_addr user_max_addr b front z back c,
      Chain_bounds user_min_addr user_max_addr front z back c,
      ap (lookup b) e,
    );
    undo = user_undo e c;
  }

  with_kernel : VmSpace
  with_kernel = record s { kvmzone = front ++ z ∷ back }

  kernel_undo :
      front ++ back ≡ s.kvmzone
      → Chain user_max_addr kern_max_addr (front ++ z ∷ back)
      → StartsAt user_max_addr (front ++ z ∷ back)
      → user_max_addr < z.base
      → (n : ℕ) → 0 < n
      → size_of (pos n) ≡ z.limit
      → page_free with_kernel z.base (pos n) ≡ some (s, z.addr)
  unfolding with_kernel page_free not_positive zones set_zones
  kernel_undo e c first above n positive size =
      let some_pages : (n == 0) ≡ false = ground arith in
      let user : ltb z.base user_max_addr ≡ false = ground arith in
      let other : (z.base == user_max_addr) ≡ false = ground arith in
      rw
        (
          some_pages,
          user,
          other,
          size,
          unlink_zone_insert user_max_addr kern_max_addr front z back c,
          first_matches-false z.base z.limit (front ++ z ∷ back) first above,
        )
        (ap (λ (t : List VmZone). some (record s { kvmzone = t }, z.addr)) e)

  kernel-Claimed :
      front ++ back ≡ s.kvmzone
      → Chain user_max_addr kern_max_addr (front ++ z ∷ back)
      → StartsAt user_max_addr (front ++ z ∷ back)
      → user_max_addr < z.base
      → Claimed s z with_kernel
  unfolding with_kernel page_prot zones table
  kernel-Claimed e c first above = record {
    valid = record { user = v.user; kernel = c; km0 = first };
    prot = λ a. ground (
      arith,
      prot_loop_insert user_max_addr kern_max_addr a front z back c,
      Chain_bounds user_max_addr kern_max_addr front z back c,
      ap (prot_loop a) e,
    );
    entry = λ b. ground (
      arith,
      lookup_insert user_max_addr kern_max_addr b front z back c,
      Chain_bounds user_max_addr kern_max_addr front z back c,
      ap (lookup b) e,
    );
    undo = kernel_undo e c first above;
  }

-- A zone cannot lie before the first one of the kernel.
first_blocks :
    (hi : ℕ) (z : VmZone) (ps : List VmZone)
    → Chain user_max_addr hi (z ∷ ps)
    → ¬ StartsAt user_max_addr ps
first_blocks hi z [] c h = h
first_blocks hi z (p ∷ ps) c h = omega arith

StartsAt-cons :
    (a : ℕ) (p : VmZone) (front qs rs : List VmZone)
    → StartsAt a (p ∷ front ++ qs)
    → StartsAt a (p ∷ front ++ rs)
StartsAt-cons a p front qs rs h = h

-- Putting a zone where it fits claims its addresses.
pub insert_zone-Claimed :
    (s : VmSpace) (user : Bool) (front back : List VmZone) (z : VmZone)
    → IsValid s
    → front ++ back ≡ zones s user
    → Chain (space_start user) (space_end user) (front ++ z ∷ back)
    → Claimed s z (insert_zone s user front back z)
unfolding insert_zone zones space_end with_user with_kernel
insert_zone-Claimed s true [] back z v e c = user-Claimed s [] z back v e c
insert_zone-Claimed s true (q ∷ front) back z v e c = user-Claimed s (q ∷ front) z back v e c
insert_zone-Claimed s false [] back z v e c =
    absurd (first_blocks kern_max_addr z back c (subst (StartsAt user_max_addr) (sym e) v.km0))
insert_zone-Claimed s false (q ∷ front) back z v e c =
    kernel-Claimed s (q ∷ front) z back v e c
      (StartsAt-cons user_max_addr q front back (z ∷ back)
        (subst (StartsAt user_max_addr) (sym e) v.km0))
      (omega (arith, Chain_bounds (q.base + q.limit) kern_max_addr front z back c.2))

pub claim-Claimed :
    (s : VmSpace) (user : Bool) (front back : List VmZone) (z : VmZone)
    → IsValid s
    → z.addr ≢ 0
    → front ++ back ≡ zones s user
    → Chain (space_start user) (space_end user) (front ++ z ∷ back)
    → (s' : VmSpace) × (claim s user (some (front, back)) z ≡ some (s', z.base)) × Claimed s z s'
unfolding claim
claim-Claimed s user front back z v ne e c =
    let there : (z.addr == 0) ≡ false = ground arith in
    rw there (_, refl, insert_zone-Claimed s user front back z v e c)

-- `init_vmspace` establishes the invariant where the kernel's memory ends within its addresses.
pub init_vmspace-IsValid :
    (km0 brk : ℕ) → user_max_addr < brk → brk ≤ kern_max_addr → IsValid (init_vmspace km0 brk)
unfolding init_vmspace
init_vmspace-IsValid km0 brk lo hi = record { user = omega arith; kernel = omega arith; km0 = refl }
