-- ===== src/Vmspace/Free.antt =====
-- `page_free` of kernel/page.c, alone and after the two allocating functions.
use mathlib.Core.Option
use mathlib.Core.Path.{subst}
use epos_arm.Base.{
  ℕ, ◌+◌, ◌*◌, ◌^◌, ◌<◌, ◌≡◌, ◌≢◌, refl, ap, sym, ◌∙◌, ◌⊎◌, inl, inr, Bool, true, false, ◌&&◌,
  Option, none, some, List, [], ◌∷◌, ◌++◌, arith, ltb, leb, ◌==◌, if◌then◌else◌, Bool-cases,
}
use epos_arm.Base.Word.{u32, size_max, pos}
use epos_arm.Cpu.{page_size, user_min_addr, user_max_addr, kern_max_addr}
use epos_arm.Vmspace.{
  VmZone, VmSpace, zones, page_free, page_alloc, set_zones, first_matches, unlink_zone, size_of,
  not_positive, page_prot, prot_loop,
}
use epos_arm.Vmspace.Table.{lookup, table, lookup_insert, lookup_removed}
use epos_arm.Vmspace.Chain.{Chain, Chain_bounds, Chain-remove, prot_loop_insert}
use epos_arm.Vmspace.Unlink.{Unlinked, NoZone, Outcome, unlink_zone-Outcome, prot_loop_removed}
use epos_arm.Vmspace.Valid.{StartsAt, IsValid, first_matches-false}
use epos_arm.Vmspace.Alloc

-- The state `s'` is `s` without a zone for the range of `size` addresses from `va` on.
pub record Released (s : VmSpace) (va size node : ℕ) (s' : VmSpace) : Type 0 where
  pub valid : IsValid s'
  pub zone :
      Unlinked va size (zones s (ltb va user_max_addr)) (zones s' (ltb va user_max_addr)) node
  pub entry : (b : ℕ) → table s' b ≡ (if b == va then none else table s b)
  pub taken : (prot : ℕ) × (table s va ≡ some (size, prot))
  pub prot :
      (a : ℕ) → page_prot s' a ≡ (if leb va a && ltb a (va + size) then size_max else page_prot s a)

module _ (s : VmSpace) (va size node : ℕ) (v : IsValid s) (ne : va ≢ user_max_addr) where
  user-Released :
      (qs : List VmZone)
      → ltb va user_max_addr ≡ true
      → Unlinked va size s.uvmzone qs node
      → Released s va size node (record s { uvmzone = qs })
  unfolding page_prot zones table
  user-Released qs user u =
      let c = subst (Chain user_min_addr user_max_addr) u.before v.user in
      record {
        valid = record {
          user = rw u.later (Chain-remove user_min_addr user_max_addr u.front u.z u.back c);
          kernel = v.kernel;
          km0 = v.km0;
        };
        zone = rw user u;
        entry = λ b. ground (
          arith,
          u.base,
          u.limit,
          Chain_bounds user_min_addr user_max_addr u.front u.z u.back c,
          lookup_insert user_min_addr user_max_addr b u.front u.z u.back c,
          lookup_removed user_min_addr user_max_addr u.front u.z u.back c,
          ap (lookup b) u.before,
          ap (lookup b) u.later,
        );
        taken = (
          u.z.protect,
          ground (
            arith,
            user,
            u.base,
            u.limit,
            lookup_insert user_min_addr user_max_addr va u.front u.z u.back c,
            ap (lookup va) u.before,
          ),
        );
        prot = λ a. ground (
          arith,
          u.base,
          u.limit,
          Chain_bounds user_min_addr user_max_addr u.front u.z u.back c,
          prot_loop_insert user_min_addr user_max_addr a u.front u.z u.back c,
          prot_loop_removed user_min_addr user_max_addr a u.front u.z u.back c,
          ap (prot_loop a) u.before,
          ap (prot_loop a) u.later,
        );
      }

  kernel-Released :
      (qs : List VmZone)
      → ltb va user_max_addr ≡ false
      → Unlinked va size s.kvmzone qs node
      → Released s va size node (record s { kvmzone = qs })
  unfolding page_prot zones table
  kernel-Released qs user u =
      let c = subst (Chain user_max_addr kern_max_addr) u.before v.kernel in
      let first = subst (StartsAt user_max_addr) u.before v.km0 in
      record {
        valid = record {
          user = v.user;
          kernel = rw u.later (Chain-remove user_max_addr kern_max_addr u.front u.z u.back c);
          km0 = rw u.later (StartsAt-remove u.front u.z u.back first (λ e. ne (sym u.base ∙ e)));
        };
        zone = rw user u;
        entry = λ b. ground (
          arith,
          u.base,
          u.limit,
          Chain_bounds user_max_addr kern_max_addr u.front u.z u.back c,
          lookup_insert user_max_addr kern_max_addr b u.front u.z u.back c,
          lookup_removed user_max_addr kern_max_addr u.front u.z u.back c,
          ap (lookup b) u.before,
          ap (lookup b) u.later,
        );
        taken = (
          u.z.protect,
          ground (
            arith,
            user,
            u.base,
            u.limit,
            lookup_insert user_max_addr kern_max_addr va u.front u.z u.back c,
            ap (lookup va) u.before,
          ),
        );
        prot = λ a. ground (
          arith,
          u.base,
          u.limit,
          Chain_bounds user_max_addr kern_max_addr u.front u.z u.back c,
          prot_loop_insert user_max_addr kern_max_addr a u.front u.z u.back c,
          prot_loop_removed user_max_addr kern_max_addr a u.front u.z u.back c,
          ap (prot_loop a) u.before,
          ap (prot_loop a) u.later,
        );
      }
    where
      StartsAt-remove :
          (front : List VmZone) (z : VmZone) (back : List VmZone)
          → StartsAt user_max_addr (front ++ z ∷ back)
          → z.base ≢ user_max_addr
          → StartsAt user_max_addr (front ++ back)
      StartsAt-remove [] z back first other = absurd (other first)
      StartsAt-remove (p ∷ ps) z back first other = first

-- Whether the outcome of `page_free` is a space without the zone, or the return of -1 because no zone
-- has that base and size.
abbrev pub Result : VmSpace → (va size : ℕ) → (old : List VmZone) → Option (VmSpace × ℕ) → Type 0
Result s va size old o =
    ((s' : VmSpace) × (node : ℕ) × (o ≡ some (s', node)) × Released s va size node s')
    ⊎ ((o ≡ none) × NoZone va size old)

module _ (s : VmSpace) (va size : ℕ) (v : IsValid s) (ne : va ≢ user_max_addr) where
  user-Result :
      ltb va user_max_addr ≡ true
      → (o : Option (List VmZone × ℕ)) → Outcome va size s.uvmzone o
      → Result s va size s.uvmzone
          (Option.map (λ r. (set_zones s true (first_matches va size s.uvmzone) r.0, r.1)) o)
  unfolding Outcome set_zones zones
  user-Result user none f = inr (refl, f)
  user-Result user (some (qs, node)) u =
      inl (_, node, refl, user-Released s va size node v ne qs user u)

  kernel-Result :
      ltb va user_max_addr ≡ false
      → (o : Option (List VmZone × ℕ)) → Outcome va size s.kvmzone o
      → Result s va size s.kvmzone
          (Option.map (λ r. (set_zones s false (first_matches va size s.kvmzone) r.0, r.1)) o)
  unfolding Outcome set_zones zones
  kernel-Result user none f = inr (refl, f)
  kernel-Result user (some (qs, node)) u =
      rw (first_matches-false va size s.kvmzone v.km0 (ground arith))
        (inl (_, node, refl, kernel-Released s va size node v ne qs user u))

  lists-Result : Result s va size (zones s (ltb va user_max_addr)) (
      Option.map
        (λ r. (
          set_zones s
              (ltb va user_max_addr)
              (first_matches va size (zones s (ltb va user_max_addr)))
              r.0,
          r.1,
        ))
        (unlink_zone va size (zones s (ltb va user_max_addr))))
  unfolding zones
  lists-Result = elim (Bool-cases (ltb va user_max_addr)) [
    | inl user ↦ rw user (user-Result user _ (unlink_zone-Outcome va size s.uvmzone))
    | inr user ↦ rw user (kernel-Result user _ (unlink_zone-Outcome va size s.kvmzone))
  ]

-- For a valid space, an address that is not the end of the user's, and from 1 to 2^20 - 1 pages,
-- `page_free` takes out the zone with that base and size, which `page_prot` then
-- no longer finds, and hands its node to `kfree`; with no such zone it returns -1.
pub page_free-Released :
    (s : VmSpace) (va n : ℕ)
    → IsValid s
    → va ≢ user_max_addr
    → 0 < n
    → n < 2 ^ 20
    → Result s va (n * page_size) (zones s (ltb va user_max_addr)) (page_free s va (pos n))
unfolding page_free not_positive size_of
page_free-Released s va n v ne positive small =
    let some_pages : (n == 0) ≡ false = ground arith in
    let other : (va == user_max_addr) ≡ false = ground arith in
    let size : u32 (n * page_size) ≡ n * page_size = omega arith in
    rw (some_pages, other, size) (lists-Result s va (n * page_size) v ne)

-- In a valid space, with memory for the node and a request whose sums do not wrap, `page_free` of the
-- pages that `page_alloc` has returned gives back the space as it was before, and
-- the node.
pub page_free-page_alloc :
    (s s' : VmSpace) (x va n prot : ℕ) (user : Bool)
    → x ≢ 0
    → IsValid s
    → Alloc.IsRequest user n
    → page_alloc s x (pos n) prot user ≡ some (s', va)
    → va ≢ size_max
    → page_free s' va (pos n) ≡ some (s, x)
page_free-page_alloc s s' x va n prot user ne v r done ok =
    elim (Alloc.page_alloc-Claimed s x n prot user ne v r) [
      | inl (va', t, e, claimed, least, lo, hi, unmet) ↦
          let size = Alloc.size_of-pos user n r in
          let undone = claimed.undo n r.some_pages size in ground arith
      | inr (e, none_free) ↦ absurd (ground arith)
    ]
