-- ===== src/Vmspace.antt =====
-- kernel/page.c: the zones of virtual addresses of the kernel and of the user. Each list of
-- `struct vmzone` is a list here, in the order of the `next` pointers, and `addr` is the address of
-- the node. `kmalloc` lies outside this file: `x` is the pointer that it returns where it is called.
-- The code writes through it without a test, so `x` 0 (NULL) is a fault, `none`. Sums of addresses
-- are `uint32_t` and wrap; `npages * PAGE_SIZE` is taken to wrap too.
pub mod Chain
pub mod Unlink
pub mod Table
pub mod Valid
pub mod Alloc
pub mod AllocInAddr
pub mod Free
pub mod Spec
pub mod Apart
pub mod Grant
pub mod History
pub mod Keeps
pub mod Nodes
use epos_arm.Base.{
  ℕ, zero, suc, ◌+◌, ◌-◌, ◌*◌, ◌%◌, ◌^◌, Bool, true, false, not, ◌&&◌, ◌||◌, Option, none, some,
  List, [], ◌∷◌, ◌++◌, ltb, leb, ◌==◌, if◌then◌else◌, bit_and,
}
use mathlib.Core.Option
use epos_arm.Base.Word.{u32, sub32, size_max, ℤ, pos, negsuc}
use epos_arm.Cpu.{page_size, page_mask, user_min_addr, user_max_addr, kern_max_addr, vm_prot_all}

pub record VmZone : Type 0 where
  pub addr : ℕ
  pub base : ℕ
  pub limit : ℕ
  pub protect : ℕ

pub record VmSpace : Type 0 where
  pub kvmzone : List VmZone
  pub uvmzone : List VmZone

-- `p->base + p->limit`
abbrev pub zone_end : VmZone → ℕ
zone_end p = u32 (p.base + p.limit)

-- `km0` is the address of the static variable of that name.
unfoldable pub init_vmspace : (km0 brk : ℕ) → VmSpace
init_vmspace km0 brk = record {
  kvmzone =
      record {
        addr = km0;
        base = user_max_addr;
        limit = sub32 brk user_max_addr;
        protect = vm_prot_all;
      }
      ∷ [];
  uvmzone = [];
}

-- `npages * PAGE_SIZE` as a `uint32_t`.
unfoldable pub size_of : ℤ → ℕ
size_of (pos n) = u32 (n * page_size)
size_of (negsuc n) = u32 (2 ^ 32 - suc n % 2 ^ 20 * page_size)

-- `npages <= 0`
unfoldable pub not_positive : ℤ → Bool
not_positive (pos n) = n == 0
not_positive (negsuc n) = true

-- Which list a loop walks: the kernel's or the user's.
unfoldable pub zones : VmSpace → (user : Bool) → List VmZone
zones s true = s.uvmzone
zones s false = s.kvmzone

-- What the two allocating functions do at the place where their loop stopped: `front` are the nodes
-- up to `q`, the last one passed, and `back` those from `p` on. With `q` NULL the new zone is put in
-- front of the user's list.
pub insert_zone : VmSpace → (user : Bool) → (front back : List VmZone) → VmZone → VmSpace
insert_zone s user [] back zone = record s { uvmzone = zone ∷ back }
insert_zone s true (q ∷ front) back zone = record s { uvmzone = (q ∷ front) ++ zone ∷ back }
insert_zone s false (q ∷ front) back zone = record s { kvmzone = (q ∷ front) ++ zone ∷ back }

-- The loop of `page_alloc_in_addr`: `none` is its early return, otherwise the nodes passed and those
-- left where it stops.
pub find_gap_at : (va size : ℕ) → List VmZone → Option (List VmZone × List VmZone)
find_gap_at va size [] = some ([], [])
find_gap_at va size (p ∷ ps) =
    let rest = Option.map (λ r. (p ∷ r.0, r.1)) (find_gap_at va size ps) in
    if leb p.base va && ltb va (zone_end p)
    then none
    else (if ltb va p.base
        then (if ltb p.base (u32 (va + size)) then none else some ([], p ∷ ps))
        else rest)

-- The rest of the allocating functions: the early return, or the write of the new node and its
-- insertion. The results are the new space and the value returned.
pub claim :
    VmSpace → (user : Bool) → Option (List VmZone × List VmZone) → VmZone → Option (VmSpace × ℕ)
unfolding insert_zone
claim s user none zone = some (s, size_max)
claim s user (some (front, back)) zone =
    if zone.addr == 0 then none else some (insert_zone s user front back zone, zone.base)

-- The new space and the value returned; `none` is a write through a NULL pointer.
unfoldable pub page_alloc_in_addr : VmSpace → (x va : ℕ) → ℤ → (prot : ℕ) → Option (VmSpace × ℕ)
unfolding find_gap_at claim
page_alloc_in_addr s x va npages prot =
    let size = size_of npages in
    let user = ltb va user_max_addr in
    if not_positive npages
      || not (bit_and va page_mask == 0)
      || (ltb va user_min_addr || leb kern_max_addr va || ltb kern_max_addr (u32 (va + size)))
      || (user && ltb user_max_addr (u32 (va + size)))
    then some (s, size_max)
    else claim s user (find_gap_at va size (zones s user))
        (record { addr = x; base = va; limit = size; protect = prot })

-- The loop of `page_alloc` at the candidate `va`: the final candidate, the nodes passed and those left.
pub find_gap : (size va : ℕ) → List VmZone → ℕ × List VmZone × List VmZone
find_gap size va [] = (va, [], [])
find_gap size va (p ∷ ps) =
    let (va', front, back) = find_gap size (zone_end p) ps in
    if leb (u32 (va + size)) p.base then (va, [], p ∷ ps) else (va', p ∷ front, back)

-- The first candidate lies behind the first node, which is passed without a test.
pub first_gap : (size : ℕ) → List VmZone → ℕ × List VmZone × List VmZone
first_gap size [] = (user_min_addr, [], [])
first_gap size (p ∷ ps) =
    let (va, front, back) = find_gap size (zone_end p) ps in (va, p ∷ front, back)

-- The end of the user's or of the kernel's addresses.
unfoldable pub space_end : (user : Bool) → ℕ
space_end true = user_max_addr
space_end false = kern_max_addr

unfoldable pub page_alloc :
    VmSpace → (x : ℕ) → ℤ → (prot : ℕ) → (user : Bool) → Option (VmSpace × ℕ)
unfolding find_gap first_gap claim space_end
page_alloc s x npages prot user =
    let size = size_of npages in
    let (va, front, back) = first_gap size (zones s user) in
    if not_positive npages
    then some (s, size_max)
    else (if leb (space_end user) va || ltb (space_end user) (u32 (va + size))
        then some (s, size_max)
        else claim s user (some (front, back))
            (record { addr = x; base = va; limit = size; protect = prot }))

-- The list without the first zone at `va` of the given size, and the address of its node.
pub unlink_zone : (va size : ℕ) → List VmZone → Option (List VmZone × ℕ)
unlink_zone va size [] = none
unlink_zone va size (p ∷ ps) =
    let rest = Option.map (λ r. (p ∷ r.0, r.1)) (unlink_zone va size ps) in
    if va == p.base && size == p.limit then some (ps, p.addr) else rest

-- What `page_free` leaves in the lists. Where the first node goes, the user's list is set.
pub set_zones : VmSpace → (user : Bool) → (first : Bool) → List VmZone → VmSpace
set_zones s true first ps = record s { uvmzone = ps }
set_zones s false true ps = record s { uvmzone = ps }
set_zones s false false ps = record s { kvmzone = ps }

-- Whether the first node is the one to unlink.
pub first_matches : (va size : ℕ) → List VmZone → Bool
first_matches va size [] = false
first_matches va size (p ∷ ps) = va == p.base && size == p.limit

-- The new space and the node given to `kfree`; `none` is the return of -1, which changes nothing.
unfoldable pub page_free : VmSpace → (va : ℕ) → ℤ → Option (VmSpace × ℕ)
unfolding unlink_zone set_zones first_matches
page_free s va npages =
    let size = size_of npages in
    let user = ltb va user_max_addr in
    if not_positive npages || va == user_max_addr
    then none
    else Option.map (λ r. (set_zones s user (first_matches va size (zones s user)) r.0, r.1))
        (unlink_zone va size (zones s user))

pub prot_loop : (va : ℕ) → List VmZone → ℕ
prot_loop va [] = size_max
prot_loop va (p ∷ ps) =
    let rest = prot_loop va ps in if leb p.base va && ltb va (zone_end p) then p.protect else rest

-- SIZE_MAX, the -1 of the source as a `uint32_t`, for an address in no zone.
unfoldable pub page_prot : VmSpace → (va : ℕ) → ℕ
unfolding prot_loop
page_prot s va = prot_loop va (zones s (ltb va user_max_addr))
