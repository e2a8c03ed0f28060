-- ===== src/Vmspace/Nodes.antt =====
-- The nodes of the lists of kernel/page.c that lie in the heap: all but the first of the kernel's list, which
-- is a static variable.
use epos_arm.Base.{
  ℕ, ◌+◌, ◌*◌, ◌^◌, ◌<◌, ◌≡◌, ◌≢◌, refl, sym, ◌∙◌, ◌⊎◌, inl, inr, Bool, true, false, ◌&&◌, ◌||◌,
  Option, none, some, List, [], ◌∷◌, arith, Bool-cases, ltb, ◌==◌, if◌then◌else◌,
}
use mathlib.Core.Option
use mathlib.Core.Path.{subst}
use epos_arm.Base.Word.{ℤ, pos, size_max}
use epos_arm.Cpu.{page_size, user_max_addr}
use epos_arm.Vmspace.{
  VmZone, VmSpace, zones, size_of, not_positive, unlink_zone, set_zones, first_matches, page_free,
  space_end, page_alloc, page_alloc_in_addr,
}
use epos_arm.Vmspace.Valid.{IsValid, Claimed, StartsAt, first_matches-false, space_end-lt}
use epos_arm.Vmspace.Chain.{new_zone}
use epos_arm.Vmspace.Alloc
use epos_arm.Vmspace.AllocInAddr
use epos_arm.Vmspace.History.{refused}

-- How many nodes have the address `a`.
unfoldable pub count : ℕ → List VmZone → ℕ
count a [] = 0
count a (p ∷ ps) = (if p.addr == a then 1 else 0) + count a ps

unfoldable pub behind : List VmZone → List VmZone
behind [] = []
behind (p ∷ ps) = ps

unfoldable pub node_count : VmSpace → ℕ → ℕ
node_count s a = count a (behind s.kvmzone) + count a s.uvmzone

some_same : {A : Type 0} (a b : A) → ◌≡◌ {A = Option A} (some a) (some b) → a ≡ b
some_same a b e = ground (arith, e)

-- `r` is `ps` with one node less, and the address of that.
abbrev IsLess : List VmZone → List VmZone × ℕ → Type 0
IsLess ps r = (a : ℕ) → count a ps ≡ count a r.0 + (if r.1 == a then 1 else 0)

IsLess-cons :
    (p : VmZone) (ps : List VmZone) (o : Option (List VmZone × ℕ)) (r : List VmZone × ℕ)
    → ((r' : List VmZone × ℕ) → o ≡ some r' → IsLess ps r')
    → Option.map (λ (r' : List VmZone × ℕ). (p ∷ r'.0, r'.1)) o ≡ some r
    → (r' : List VmZone × ℕ) × (r ≡ (p ∷ r'.0, r'.1)) × IsLess ps r'
IsLess-cons p ps none r h e = absurd (ground (arith, e))
IsLess-cons p ps (some r') r h e = (r', sym (some_same (p ∷ r'.0, r'.1) r e), h r' refl)

unlink_zone-IsLess :
    (va size : ℕ) (ps : List VmZone) (r : List VmZone × ℕ)
    → unlink_zone va size ps ≡ some r
    → IsLess ps r
unfolding unlink_zone count
unlink_zone-IsLess va size [] r e a = absurd (ground (arith, e))
unlink_zone-IsLess va size (p ∷ ps) r e a = elim (Bool-cases (va == p.base && size == p.limit)) [
  | inl here ↦
      let same : (ps, p.addr) ≡ r = some_same (ps, p.addr) r (sym (rw here refl) ∙ e) in
      subst (λ (x : List VmZone × ℕ). count a (p ∷ ps) ≡ count a x.0 + (if x.1 == a then 1 else 0))
        same (omega arith)
  | inr other ↦
      let (r', same, less) =
        IsLess-cons p ps (unlink_zone va size ps) r (unlink_zone-IsLess va size ps)
          (sym (rw other refl) ∙ e) in
      rw same (omega (arith, less a))
]

-- The first of the kernel's zones is not the one that goes.
behind-IsLess :
    (va size : ℕ) (ps : List VmZone) (r : List VmZone × ℕ)
    → StartsAt user_max_addr ps
    → user_max_addr < va
    → unlink_zone va size ps ≡ some r
    → (a : ℕ) → count a (behind ps) ≡ count a (behind r.0) + (if r.1 == a then 1 else 0)
unfolding unlink_zone count behind
behind-IsLess va size [] r first above e a = absurd first
behind-IsLess va size (p ∷ ps) r first above e a =
    let other : (va == p.base && size == p.limit) ≡ false = ground (arith, first) in
    let (r', same, less) =
      IsLess-cons p ps (unlink_zone va size ps) r (unlink_zone-IsLess va size ps)
        (sym (rw other refl) ∙ e) in
    rw same (omega (arith, less a))

none_some : {A : Type 0} {a : A} → ◌≡◌ {A = Option A} none (some a) → ⊥
none_some e = ground (arith, e)

map_some :
    {A B : Type 0} (f : A → B) (o : Option A) (b : B)
    → Option.map f o ≡ some b
    → (x : A) × (o ≡ some x) × (f x ≡ b)
map_some f none b e = absurd (ground (arith, e))
map_some f (some x) b e = (x, refl, some_same (f x) b e)

-- `page_free` in a valid space takes out the node that it gives to `kfree`, and no other.
pub page_free-node_count :
    (s : VmSpace) (va : ℕ) (n : ℤ) (s' : VmSpace) (node a : ℕ)
    → IsValid s
    → page_free s va n ≡ some (s', node)
    → node_count s a ≡ node_count s' a + (if node == a then 1 else 0)
unfolding page_free zones set_zones node_count
page_free-node_count s va n s' node a v e =
    elim (Bool-cases (not_positive n || va == user_max_addr)) [
      | inl bad ↦ absurd (none_some (rw bad at e))
      | inr good ↦ elim (Bool-cases (ltb va user_max_addr)) [
        | inl user ↦
            let (r, found, same) =
              map_some
                (λ (r : List VmZone × ℕ).
                  (set_zones s true (first_matches va (size_of n) (zones s true)) r.0, r.1))
                (unlink_zone va (size_of n) s.uvmzone) (s', node) (rw (good, user) at e) in
            let less = unlink_zone-IsLess va (size_of n) s.uvmzone r found a in
            subst
              (λ (x : VmSpace × ℕ). node_count s a ≡ node_count x.0 a + (if x.1 == a then 1 else 0))
              same (omega (arith, less))
        | inr kernel ↦
            let above : user_max_addr < va = ground (arith, good, kernel) in
            let first = first_matches-false va (size_of n) s.kvmzone v.km0 above in
            let (r, found, same) =
              map_some
                (λ (r : List VmZone × ℕ).
                  (set_zones s false (first_matches va (size_of n) s.kvmzone) r.0, r.1))
                (unlink_zone va (size_of n) s.kvmzone) (s', node) (rw (good, kernel) at e) in
            let less = behind-IsLess va (size_of n) s.kvmzone r v.km0 above found a in
            subst
              (λ (x : VmSpace × ℕ). node_count s a ≡ node_count x.0 a + (if x.1 == a then 1 else 0))
              same (rw first (omega (arith, less)))
      ]
    ]

-- The zone of a claim is one node more.
node_count-claim :
    (s s' : VmSpace) (x va n prot a : ℕ)
    → 0 < n
    → size_of (pos n) ≡ n * page_size
    → Claimed s (new_zone x va (n * page_size) prot) s'
    → node_count s' a ≡ node_count s a + (if x == a then 1 else 0)
node_count-claim s s' x va n prot a positive size c =
    page_free-node_count s' va (pos n) s x a c.valid (c.undo n positive size)

-- What an allocating function leaves with memory for the node at `x`: it fails and changes nothing, or that is
-- one node more.
abbrev pub Adds : VmSpace → (x : ℕ) → Option (VmSpace × ℕ) → Type 0
Adds s x o =
    (o ≡ some (s, size_max))
    ⊎ ((s' : VmSpace) × (r : ℕ) × (o ≡ some (s', r))
        × (r ≢ size_max)
        × IsValid s'
        × ((a : ℕ) → node_count s' a ≡ node_count s a + (if x == a then 1 else 0)))

pub page_alloc-Adds :
    (s : VmSpace) (x n prot : ℕ) (user : Bool)
    → x ≢ 0
    → IsValid s
    → space_end user + n * page_size < 2 ^ 32
    → Adds s x (page_alloc s x (pos n) prot user)
unfolding page_alloc not_positive
page_alloc-Adds s x n prot user memory v small = elim (Bool-cases (n == 0)) [
  | inl none_asked ↦ rw none_asked (inl refl)
  | inr positive ↦
      let r : Alloc.IsRequest user n = record { some_pages = ground arith; small = small } in
      elim (Alloc.page_alloc-Claimed s x n prot user memory v r) [
        | inl (va, s', e, claimed, least, lo, hi, unmet) ↦ inr (
          s',
          va,
          e,
          omega (arith, hi, space_end-lt user),
          claimed.valid,
          λ a.
              node_count-claim s s' x va n prot a r.some_pages (Alloc.size_of-pos user n r) claimed,
        )
        | inr (e, full) ↦ inl e
      ]
]

pub page_alloc_in_addr-Adds :
    (s : VmSpace) (x va n prot : ℕ)
    → x ≢ 0
    → IsValid s
    → va + n * page_size < 2 ^ 32
    → Adds s x (page_alloc_in_addr s x va (pos n) prot)
page_alloc_in_addr-Adds s x va n prot memory v small = elim (refused s x va n prot small) [
  | inr (e, bad) ↦ inl e
  | inl r ↦ elim (AllocInAddr.page_alloc_in_addr-Claimed s x va n prot memory v r) [
    | inl (s', e, claimed, unmet) ↦ inr (
      s',
      va,
      e,
      omega (arith, r.fits, r.some_pages, space_end-lt (ltb va user_max_addr)),
      claimed.valid,
      λ a.
          node_count-claim s s' x va n prot a r.some_pages (AllocInAddr.size_of-pos va n r) claimed,
    )
    | inr (e, met) ↦ inl e
  ]
]
