-- ===== src/Vmspace/Grant.antt =====
-- How the zones that the functions of kernel/page.c make and take out change the protection of addresses.
use epos_arm.Base.{
  ℕ, ◌+◌, ◌*◌, ◌^◌, ◌≤◌, ◌<◌, ◌≡◌, ◌≢◌, refl, ap, sym, ◌∙◌, inl, inr, Bool, true, ◌&&◌, Option,
  none, some, List, arith, ltb, leb,
}
use mathlib.Core.Path.{subst}
use epos_arm.Base.Word.{size_max, pos}
use epos_arm.Cpu.{page_size, user_max_addr}
use epos_arm.Vmspace.{
  VmZone, VmSpace, zones, space_end, page_free, not_positive, size_of, page_prot,
}
use epos_arm.Vmspace.Chain.{Chain, Chain_bounds, new_zone, within, prot_loop_insert}
use epos_arm.Vmspace.Table.{table, AreApart}
use epos_arm.Vmspace.Unlink.{Unlinked}
use epos_arm.Vmspace.Valid.{IsValid, IsValid-Chain, Claimed, space_start, space_end-lt}
use epos_arm.Vmspace.Apart.{user_of}
use epos_arm.Vmspace.Spec.{view, in_pages, IsGrant, IsRelease}
use epos_arm.Vmspace.Free

-- The zone of a range lies within the user's or the kernel's addresses.
Unlinked-bounds :
    (s : VmSpace) (va size node : ℕ) (qs : List VmZone)
    → IsValid s
    → Unlinked va size (zones s (ltb va user_max_addr)) qs node
    → (space_start (ltb va user_max_addr) ≤ va)
      × (0 < size)
      × (va + size ≤ space_end (ltb va user_max_addr))
Unlinked-bounds s va size node qs v u =
    let c =
      subst (Chain (space_start (ltb va user_max_addr)) (space_end (ltb va user_max_addr))) u.before
        (IsValid-Chain (ltb va user_max_addr) v) in
    let b = Chain_bounds _ _ u.front u.z u.back c in omega (arith, b, u.base, u.limit)

-- The addresses of a zone have its protection.
Unlinked-prot :
    (s : VmSpace) (va size node a : ℕ) (qs : List VmZone)
    → IsValid s
    → (u : Unlinked va size (zones s (ltb va user_max_addr)) qs node)
    → (leb va a && ltb a (va + size)) ≡ true
    → page_prot s a ≡ u.z.protect
unfolding page_prot
Unlinked-prot s va size node a qs v u h =
    let user = ltb va user_max_addr in
    let (lo, positive, hi) = Unlinked-bounds s va size node qs v u in
    let same : ltb a user_max_addr ≡ user =
      user_of user a (ground (arith, lo)) (ground (arith, hi)) in
    let c = subst (Chain (space_start user) (space_end user)) u.before (IsValid-Chain user v) in
    let inserted =
      prot_loop_insert (space_start user) (space_end user) a u.front u.z u.back c
        (space_end-lt user) in
    let inside : within a u.z ≡ true = ground (arith, u.base, u.limit, h) in
    rw (same, u.before, inserted, inside) refl

free_nothing : (s : VmSpace) (n : ℕ) → page_free s user_max_addr (pos n) ≡ none
unfolding page_free not_positive
free_nothing s n = ground arith

none_some : {A : Type 0} {a : A} → ◌≡◌ {A = Option A} none (some a) → ⊥
none_some e = ground arith

-- Before a zone was claimed, its addresses were in none.
unused_before :
    (s s' : VmSpace) (x va n prot : ℕ)
    → 0 < n
    → n < 2 ^ 20
    → Claimed s (new_zone x va (n * page_size) prot) s'
    → (a : ℕ) → in_pages va n a ≡ true
    → page_prot s a ≡ size_max
unfolding size_of
unused_before s s' x va n prot positive small claimed a h =
    let undone = claimed.undo n positive (omega arith) in
    let ne : va ≢ user_max_addr = λ e.
      none_some
        (sym (free_nothing s' n) ∙ ap (λ (t : ℕ). page_free s' t (pos n)) (sym e) ∙ undone) in
    elim (Free.page_free-Released s' va n claimed.valid ne positive small) [
      | inl (s2, node, e, rel) ↦
          let same : s2 ≡ s = ground (arith, e, undone) in
          let now = rel.prot a in ground (arith, h, ap (λ (t : VmSpace). page_prot t a) same, now)
      | inr (e, other) ↦ absurd (ground arith)
    ]

pub Claimed-IsGrant :
    (s s' : VmSpace) (x va n prot : ℕ) (user : Bool)
    → 0 < n
    → n < 2 ^ 20
    → space_start user ≤ va
    → va + n * page_size ≤ space_end user
    → AreApart user va (n * page_size) (table s)
    → Claimed s (new_zone x va (n * page_size) prot) s'
    → IsGrant user va n prot (view s) (view s')
Claimed-IsGrant s s' x va n prot user positive small lo hi apart claimed = record {
  some_pages = positive;
  above = lo;
  below = hi;
  apart = apart;
  unused = unused_before s s' x va n prot positive small claimed;
  change = claimed.prot;
  entry = claimed.entry;
}

pub Released-IsRelease :
    (s : VmSpace) (va n node : ℕ) (s' : VmSpace)
    → IsValid s
    → Free.Released s va (n * page_size) node s'
    → IsRelease va n (view s) (view s')
Released-IsRelease s va n node s' v rel =
    let (lo, positive, hi) = Unlinked-bounds s va (n * page_size) node _ v rel.zone in
    record {
      some_pages = omega arith;
      inside = hi;
      taken = rel.taken;
      used = (rel.zone.z.protect, λ a h. Unlinked-prot s va (n * page_size) node a _ v rel.zone h);
      change = rel.prot;
      entry = rel.entry;
    }
