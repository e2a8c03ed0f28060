-- ===== src/Vmspace/AllocInAddr.antt =====
-- `page_alloc_in_addr` of kernel/page.c.
use epos_arm.Base.{
  ℕ, ◌+◌, ◌*◌, ◌%◌, ◌^◌, ◌≤◌, ◌<◌, ◌≡◌, ◌≢◌, refl, ◌⊎◌, inl, inr, Bool, false, not, ◌&&◌, ◌||◌,
  Option, none, some, List, [], ◌∷◌, arith, ltb, leb, ◌==◌, bit_and,
}
use epos_arm.Base.Word.{u32, size_max, pos}
use epos_arm.Cpu.{page_size, page_mask, user_min_addr, user_max_addr, kern_max_addr}
use epos_arm.Cpu.Pages.{offset_bits}
use epos_arm.Vmspace.{
  VmZone, VmSpace, zones, space_end, claim, find_gap_at, page_alloc_in_addr, size_of, not_positive,
}
use epos_arm.Vmspace.Chain.{Free, Fits, find_gap_at-Fits, new_zone}
use epos_arm.Vmspace.Valid.{
  IsValid, IsValid-Chain, Claimed, claim-Claimed, space_start, space_end-lt,
}

-- A request that passes the tests of `page_alloc_in_addr`: `n` pages at an aligned address within the
-- user's or the kernel's addresses.
pub record IsRequest (va n : ℕ) : Type 0 where
  pub some_pages : 0 < n
  pub aligned : va % page_size ≡ 0
  pub above : user_min_addr ≤ va
  pub fits : va + n * page_size ≤ space_end (ltb va user_max_addr)

pub size_of-pos : (va n : ℕ) → IsRequest va n → size_of (pos n) ≡ n * page_size
unfolding size_of
size_of-pos va n r = omega (arith, space_end-lt (ltb va user_max_addr))

pub start_le : (va : ℕ) → user_min_addr ≤ va → space_start (ltb va user_max_addr) ≤ va
start_le va h = ground arith

pub guards_pass :
    (va n : ℕ)
    → IsRequest va n
    → ((n == 0)
        || not (bit_and va page_mask == 0)
        || (ltb va user_min_addr
            || leb kern_max_addr va
            || ltb kern_max_addr (u32 (va + n * page_size)))
        || (ltb va user_max_addr && ltb user_max_addr (u32 (va + n * page_size))))
      ≡ false
unfolding space_end
guards_pass va n r = ground (arith, offset_bits va, r.some_pages, r.aligned, r.above, r.fits)

-- Either `o` is `va` with the space in which the range, met by no zone before, is claimed, or it is
-- SIZE_MAX with the space unchanged, and some zone meets the range.
abbrev pub Result : VmSpace → (x va size prot : ℕ) → Option (VmSpace × ℕ) → Type 0
Result s x va size prot o =
    ((s' : VmSpace) × (o ≡ some (s', va))
      × Claimed s (new_zone x va size prot) s'
      × Free va size (zones s (ltb va user_max_addr)))
    ⊎ ((o ≡ some (s, size_max)) × ¬ Free va size (zones s (ltb va user_max_addr)))

module _ (s : VmSpace) (x va n prot : ℕ) (ne : x ≢ 0) (v : IsValid s) (r : IsRequest va n) where
  user : Bool
  user = ltb va user_max_addr

  zone : VmZone
  zone = new_zone x va (n * page_size) prot

  claim-Result :
      (o : Option (List VmZone × List VmZone))
      → Fits zone (space_start user) (space_end user) (zones s user) o
      → Result s x va (n * page_size) prot (claim s user o zone)
  unfolding claim Fits zone user
  claim-Result none f = inr (refl, f)
  claim-Result (some (front, back)) (joined, c, free) =
      let (s', e, claimed) = claim-Claimed s user front back zone v ne joined c in
      inl (s', e, claimed, free)

  page_alloc_in_addr-claim :
      page_alloc_in_addr s x va (pos n) prot
      ≡ claim s user (find_gap_at va (n * page_size) (zones s user)) zone
  unfolding page_alloc_in_addr not_positive user zone
  page_alloc_in_addr-claim = rw (size_of-pos va n r, guards_pass va n r)

-- For a valid space, a request within its addresses and memory for the node, `page_alloc_in_addr`
-- returns `va` and the space with the new zone, exactly the addresses of the request having changed to
-- the protection asked for, if no zone meets the range; if one does, it returns SIZE_MAX and changes
-- nothing.
pub page_alloc_in_addr-Claimed :
    (s : VmSpace) (x va n prot : ℕ)
    → x ≢ 0
    → IsValid s
    → IsRequest va n
    → Result s x va (n * page_size) prot (page_alloc_in_addr s x va (pos n) prot)
unfolding user zone
page_alloc_in_addr-Claimed s x va n prot ne v r =
    rw (page_alloc_in_addr-claim s x va n prot ne v r) (
      claim-Result s x va n prot ne v r _ (
        find_gap_at-Fits (new_zone x va (n * page_size) prot) _ _ (zones s (ltb va user_max_addr))
          (IsValid-Chain (ltb va user_max_addr) v) (start_le va r.above)
          (omega (arith, r.some_pages)) r.fits (space_end-lt (ltb va user_max_addr))))

-- The tests add in 32 bits: with no zone in the user's list, a request whose end wraps past the last
-- address is granted, although its range leaves the user's addresses.
page_alloc_in_addr_wraps :
    (s : VmSpace) (x va n prot : ℕ)
    → x ≢ 0
    → s.uvmzone ≡ []
    → va % page_size ≡ 0
    → user_min_addr ≤ va
    → va < user_max_addr
    → n < 2 ^ 19
    → 2 ^ 32 ≤ va + n * page_size
    → (page_alloc_in_addr s x va (pos n) prot
        ≡ some (record s { uvmzone = new_zone x va (n * page_size) prot ∷ [] }, va))
      × (user_max_addr < va + n * page_size)
unfolding page_alloc_in_addr not_positive size_of zones find_gap_at claim
page_alloc_in_addr_wraps s x va n prot ne empty aligned lo hi small wraps =
    (ground (arith, offset_bits va, empty), omega arith)
