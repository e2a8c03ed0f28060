-- ===== src/Vmspace/Spec.antt =====
-- What kernel/page.c promises to its callers: which address has which protection, which ranges can be given
-- back, and how the calls may change that. The second half speaks of no lists or nodes.
use epos_arm.Base.{
  ◌>>=◌, ℕ, ◌+◌, ◌*◌, ◌^◌, ◌≤◌, ◌<◌, ◌≡◌, ◌≢◌, ◌⊎◌, Bool, true, ◌&&◌, Option, none, some, List, [],
  ◌∷◌, ltb, leb, if◌then◌else◌, ◌==◌,
}
use epos_arm.Base.Word.{size_max, pos}
use epos_arm.Cpu.{page_size, user_max_addr}
use epos_arm.Vmspace.Table.{Table, table, AreApart}
use epos_arm.Vmspace.AllocInAddr.{IsRequest}
use epos_arm.Vmspace.{VmSpace, page_prot, space_end, page_alloc, page_alloc_in_addr, page_free}
use epos_arm.Vmspace.Valid.{space_start}

-- A call of one of the three functions; `x` is what `kmalloc` returns in it.
pub data Call : Type 0 where
  alloc : (x n prot : ℕ) (user : Bool) → Call
  alloc_in_addr : (x va n prot : ℕ) → Call
  free : (va n : ℕ) → Call

-- What `page_free` leaves and returns; its -1 is written as a `uint32_t`.
unfoldable pub free_reply : VmSpace → Option (VmSpace × ℕ) → VmSpace × ℕ
free_reply s none = (s, size_max)
free_reply s (some (s', node)) = (s', 0)

-- The new space and the value returned; `none` is a write through a NULL pointer.
unfoldable pub call : VmSpace → Call → Option (VmSpace × ℕ)
call s (alloc x n prot user) = page_alloc s x (pos n) prot user
call s (alloc_in_addr x va n prot) = page_alloc_in_addr s x va (pos n) prot
call s (free va n) = some (free_reply s (page_free s va (pos n)))

-- One call after the other: the space at the end and the values returned.
unfoldable pub run : VmSpace → List Call → Option (VmSpace × List ℕ)
run s [] = some (s, [])
run s (c ∷ cs) = do (s', r) ← call s c; (s2, rs) ← run s' cs; some (s2, r ∷ rs)

-- There is memory for the node, and no sum of the call wraps.
abbrev pub IsSmall : Call → Type 0
IsSmall (alloc x n prot user) = (x ≢ 0) × (space_end user + n * page_size < 2 ^ 32)
IsSmall (alloc_in_addr x va n prot) = (x ≢ 0) × (va + n * page_size < 2 ^ 32)
IsSmall (free va n) = n < 2 ^ 20

abbrev pub AreSmall : List Call → Type 0
AreSmall [] = Unit {0}
AreSmall (c ∷ cs) = IsSmall c × AreSmall cs

-- Each address with its protection, or with SIZE_MAX if it has none.
abbrev pub Map : Type 0
Map = ℕ → ℕ

-- What callers see of a space: the protections, and the ranges that can be given back.
pub record View : Type 0 where
  pub prot : Map
  pub ranges : Table

abbrev pub view : VmSpace → View
view s = record { prot = page_prot s; ranges = table s }

-- `a` is one of the `n` pages from `va` on.
abbrev pub in_pages : (va n a : ℕ) → Bool
in_pages va n a = leb va a && ltb a (va + n * page_size)

abbrev pub Same : View → View → Type 0
Same m m' = ((a : ℕ) → m'.prot a ≡ m.prot a) × ((b : ℕ) → m'.ranges b ≡ m.ranges b)

-- The `n` pages from `va` on, of the user's or of the kernel's addresses and apart from all ranges, had no
-- protection; they have now `prot` and are a range, and nothing else has changed.
pub record IsGrant (user : Bool) (va n prot : ℕ) (m m' : View) : Type 0 where
  pub some_pages : 0 < n
  pub above : space_start user ≤ va
  pub below : va + n * page_size ≤ space_end user
  pub apart : AreApart user va (n * page_size) m.ranges
  pub unused : (a : ℕ) → in_pages va n a ≡ true → m.prot a ≡ size_max
  pub change : (a : ℕ) → m'.prot a ≡ (if in_pages va n a then prot else m.prot a)
  pub entry : (b : ℕ) → m'.ranges b ≡ (if b == va then some (n * page_size, prot) else m.ranges b)

-- The `n` pages from `va` on were a range with one protection; they have none now and are no range, and
-- nothing else has changed.
pub record IsRelease (va n : ℕ) (m m' : View) : Type 0 where
  pub some_pages : 0 < n
  pub inside : va + n * page_size ≤ space_end (ltb va user_max_addr)
  pub taken : (prot : ℕ) × (m.ranges va ≡ some (n * page_size, prot))
  pub used : (prot : ℕ) × ((a : ℕ) → in_pages va n a ≡ true → m.prot a ≡ prot)
  pub change : (a : ℕ) → m'.prot a ≡ (if in_pages va n a then size_max else m.prot a)
  pub entry : (b : ℕ) → m'.ranges b ≡ (if b == va then none else m.ranges b)

-- The addresses that `page_alloc` tries: those behind some range, or all if there is none.
abbrev pub IsTried : (user : Bool) → ℕ → Table → Type 0
IsTried user a t =
    ((b : ℕ) × (l : ℕ) × (prot : ℕ) × (ltb b user_max_addr ≡ user)
      × (t b ≡ some (l, prot))
      × (b + l ≤ a))
    ⊎ ((space_start user ≤ a) × ((b : ℕ) → ltb b user_max_addr ≡ user → t b ≡ none))

-- No address tried has room for `n` pages.
abbrev pub NoRoom : (user : Bool) (n : ℕ) → Table → Type 0
NoRoom user n t =
    (a : ℕ)
    → IsTried user a t
    → AreApart user a (n * page_size) t
    → space_end user < a + n * page_size

-- What a call that returns `r` may do.
abbrev pub Permits : View → Call → (r : ℕ) → View → Type 0
Permits m (alloc x n prot user) r m' =
    IsGrant user r n prot m m' ⊎ ((r ≡ size_max) × Same m m' × ((n ≡ 0) ⊎ NoRoom user n m.ranges))
Permits m (alloc_in_addr x va n prot) r m' =
    ((r ≡ va) × IsGrant (ltb va user_max_addr) va n prot m m')
    ⊎ ((r ≡ size_max)
        × Same m m'
        × ((¬ IsRequest va n) ⊎ (¬ AreApart (ltb va user_max_addr) va (n * page_size) m.ranges)))
Permits m (free va n) r m' =
    ((r ≡ 0) × IsRelease va n m m')
    ⊎ ((r ≡ size_max)
        × Same m m'
        × ((n ≡ 0)
            ⊎ ((va ≡ user_max_addr) ⊎ ((prot : ℕ) → m.ranges va ≢ some (n * page_size, prot)))))

-- A sequence of calls, with the values returned, that takes one view to another.
pub data Trace : View → List Call → List ℕ → View → Type 0 where
  done : {m m' : View} → Same m m' → Trace m [] [] m'
  next :
      {m m' m2 : View} {c : Call} {r : ℕ} {cs : List Call} {rs : List ℕ}
      → Permits m c r m'
      → Trace m' cs rs m2
      → Trace m (c ∷ cs) (r ∷ rs) m2
