-- ===== src/Shared/Zones.antt =====
-- The blocks of the heap that the nodes of the zones of kernel/page.c are.
use epos_arm.Base.{
  ℕ, ◌+◌, ◌*◌, ◌^◌, ◌≤◌, ◌<◌, ◌≡◌, ◌≢◌, refl, ap, sym, ◌∙◌, inl, inr, Bool, true, false, ◌||◌, not,
  Option, some, arith, Bool-cases, ◌==◌, if◌then◌else◌,
}
use mathlib.Core.Option
use mathlib.Core.Path.{subst}
use epos_arm.Base.Word.{size_max, pos}
use epos_arm.Cpu.{page_size}
use epos_arm.Heap.{Tlsf, kmalloc, kfree}
use epos_arm.Vmspace.{VmSpace, space_end, page_alloc, page_alloc_in_addr, page_free}
use epos_arm.Vmspace.Valid.{IsValid}
use epos_arm.Vmspace.Nodes.{
  node_count, page_free-node_count, Adds, page_alloc-Adds, page_alloc_in_addr-Adds,
}
use epos_arm.Thread.Memory.{IsOwner}
use epos_arm.Thread.Memory.Waits.{differ}
use epos_arm.Thread.Keys.{some_same}
use epos_arm.Thread.History.{Option-cases}
use epos_arm.Vmspace.History.{call-Step}
use epos_arm.Vmspace.Spec
use epos_arm.Vmspace.Spec.{call, free_reply}
use epos_arm.Shared.{
  ZoneCall, alloc, alloc_in_addr, free, zone_bytes, with_node, without_node, serve_zones,
}

-- A node of the zones lies at the address.
unfoldable pub has_node : VmSpace → ℕ → Bool
has_node s a = not (node_count s a == 0)

module _ {Heap : Type 0} (tlsf : Tlsf Heap) (used writable : Heap → ℕ → Bool)
    (others : ℕ → Bool) where
  -- The zones are valid, and the blocks given out are their nodes, each at an address of its own, and those
  -- of the other owners, which are no nodes.
  pub record HasNodes (space : VmSpace) (heap : Heap) : Type 0 where
    pub valid : IsValid space
    pub single : (a : ℕ) → node_count space a ≤ 1
    pub blocks : (a : ℕ) → used heap a ≡ (has_node space a || others a)
    pub apart : (a : ℕ) → others a ≡ true → node_count space a ≡ 0

  abbrev pub ZonesServed : VmSpace → Heap → ZoneCall → Type 0
  ZonesServed space heap c =
      (r : VmSpace × Heap) × (serve_zones tlsf space heap c ≡ some r) × HasNodes r.0 r.1

  module _ (law : IsOwner tlsf used writable) (space : VmSpace) (heap : Heap)
      (o : HasNodes space heap) where
    added :
        (result : Option (VmSpace × ℕ))
        → (tlsf.tlsf_malloc zone_bytes heap).1 ≢ 0
        → Adds space (tlsf.tlsf_malloc zone_bytes heap).1 result
        → (r : VmSpace × Heap) × (Option.map
              (with_node tlsf heap (tlsf.tlsf_malloc zone_bytes heap).0)
              result
            ≡ some r)
          × HasNodes r.0 r.1
    unfolding with_node has_node
    added result memory (inl e) = rw e ((space, heap), refl, o)
    added result memory (inr (s', r, e, value, valid, count)) =
        let unused = law.unused zone_bytes heap memory in
        let new = (tlsf.tlsf_malloc zone_bytes heap).1 in
        let success : (r == size_max) ≡ false = ground (arith, value) in
        let none_yet : node_count space new ≡ 0 = ground (arith, o.blocks new, unused) in
        let none_at : (a : ℕ) → a ≡ new → node_count space a ≡ 0 =
          λ a e. ap (node_count space) e ∙ none_yet in
        let foreign : others new ≡ false = ground (arith, o.blocks new, unused) in
        rw (e, success)
          (
            (s', (tlsf.tlsf_malloc zone_bytes heap).0),
            refl,
            record {
              valid = valid;
              single = λ a. ground (arith, count a, o.single a, none_at a);
              blocks = λ a. ground (arith, law.given zone_bytes heap a memory, count a, o.blocks a);
              apart = λ a h. ground (arith, count a, o.apart a h, differ others a new h foreign);
            },
          )

    removed :
        (s' : VmSpace) (node : ℕ)
        → IsValid s'
        → ((a : ℕ) → node_count space a ≡ node_count s' a + (if node == a then 1 else 0))
        → HasNodes s' (tlsf.tlsf_free node heap)
    unfolding has_node
    removed s' node valid count =
        let given : used heap node ≡ true = ground (arith, o.blocks node, count node) in
        let gone : (a : ℕ) → a ≡ node → node_count s' a ≡ 0 =
          λ a e. ground (arith, o.single a, count a, e) in
        let own : (a : ℕ) → a ≡ node → others a ≡ false = λ a e. ap others e ∙ own_node given in
        record {
          valid = valid;
          single = λ a. ground (arith, count a, o.single a);
          blocks = λ a.
              ground (arith, law.returned node heap a given, count a, o.blocks a, gone a, own a);
          apart = λ a h. ground (arith, count a, o.apart a h);
        }
      where
        some_node : node_count space node ≡ 0 → ⊥
        some_node e = ground (arith, count node, e)

        own_node : used heap node ≡ true → others node ≡ false
        own_node given = elim (Bool-cases (others node)) [
          | inl t ↦ absurd (some_node (o.apart node t))
          | inr f ↦ f
        ]

    pub free-ZonesServed : (va n : ℕ) → n < 2 ^ 20 → ZonesServed space heap (free va n)
    unfolding serve_zones without_node call free_reply kfree
    free-ZonesServed va n small =
        let (s2, r, e, valid, permitted) = call-Step space (Spec.free va n) o.valid small in
        elim (Option-cases (page_free space va (pos n))) [
          | inl none_found ↦ rw none_found ((space, heap), refl, o)
          | inr ((s', node), found) ↦
              let same : s' ≡ s2 = first_same s' s2 node r (rw found at e) in
              rw found (
                (s', tlsf.tlsf_free node heap),
                refl,
                removed s' node (subst IsValid (sym same) valid)
                    (λ a. page_free-node_count space va (pos n) s' node a o.valid found),
              )
        ]
      where
        first_same :
            (s' s2 : VmSpace) (node r : ℕ)
            → ◌≡◌ {A = Option (VmSpace × ℕ)} (some (s', 0)) (some (s2, r))
            → s' ≡ s2
        first_same s' s2 node r e = ap (λ (x : VmSpace × ℕ). x.0) (some_same (s', 0) (s2, r) e)

    pub alloc-ZonesServed :
        (n prot : ℕ) (user : Bool)
        → (kmalloc tlsf zone_bytes heap).1 ≢ 0
        → space_end user + n * page_size < 2 ^ 32
        → ZonesServed space heap (alloc n prot user)
    unfolding serve_zones kmalloc
    alloc-ZonesServed n prot user memory small =
        let x = (tlsf.tlsf_malloc zone_bytes heap).1 in
        added (page_alloc space x (pos n) prot user) memory
          (page_alloc-Adds space x n prot user memory o.valid small)

    pub alloc_in_addr-ZonesServed :
        (va n prot : ℕ)
        → (kmalloc tlsf zone_bytes heap).1 ≢ 0
        → va + n * page_size < 2 ^ 32
        → ZonesServed space heap (alloc_in_addr va n prot)
    unfolding serve_zones kmalloc
    alloc_in_addr-ZonesServed va n prot memory small =
        let x = (tlsf.tlsf_malloc zone_bytes heap).1 in
        added (page_alloc_in_addr space x va (pos n) prot) memory
          (page_alloc_in_addr-Adds space x va n prot memory o.valid small)
