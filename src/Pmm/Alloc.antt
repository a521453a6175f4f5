-- ===== src/Pmm/Alloc.antt =====
-- `pmm_alloc` and `pmm_unalloc` of src/mm/pmm.c: what they take and free, and their accounting.
use drip_os.Prelude.{
  add64, sub64, ℕ, ◌+◌, ◌-◌, ◌*◌, ◌/◌, ◌%◌, ◌^◌, ◌<◌, ◌≤◌, ◌≡◌, refl, true, false, ◌&&◌, not, arith,
  ltb, some, Option-cases, inl, inr, ◌⊎◌,
}
use drip_os.Pmm.{
  Pmm, is_free, clear_range, find_free_page, alloc, unalloc, take_pages, pages_of, page_size,
}
use drip_os.Pmm.Bits.{
  IsBytes, within, is_free-set_range, is_free-clear_range, set_range-IsBytes, clear_range-IsBytes,
}
use drip_os.Pmm.Search.{find_free_page-free, find_free_page-finds}
use drip_os.Pmm.Count.{count_free, count_free-set_range, count_free-clear_range}

-- A size that the rounding to pages does not wrap.
abbrev pub IsSize : ℕ → Type 0
IsSize size = (0 < size) × (size + 0xfff < 2 ^ 64)

pub record IsValid (s : Pmm) : Type 0 where
  pub bytes : IsBytes s.bitmap
  pub low : is_free s.bitmap 0 ≡ false
  pub counted : page_size * count_free s.bitmap s.bitmap_max_page ≤ s.available_memory
  pub bounded : s.available_memory + s.used_memory < 2 ^ 64

-- What a successful allocation is made of.
alloc-parts :
    (s : Pmm) (size addr : ℕ) {s' : Pmm}
    → alloc s size ≡ some (addr, s')
    → (p : ℕ) × (find_free_page s (pages_of size) ≡ some p)
      × (addr ≡ p * page_size)
      × (s' ≡ take_pages s p (pages_of size))
unfolding alloc
alloc-parts s size addr e = elim (Option-cases (find_free_page s (pages_of size))) [
  | inl h ↦ absurd (ground arith)
  | inr (p, h) ↦ (p, h, ground arith, ground arith)
]

-- What the search has found for a successful allocation.
record Found (s : Pmm) (size addr : ℕ) (s' : Pmm) : Type 0 where
  page : ℕ
  at : addr ≡ page * page_size
  next : s' ≡ take_pages s page (pages_of size)
  run : (q : ℕ) → page ≤ q → q < page + pages_of size → is_free s.bitmap q ≡ true
  room : page + pages_of size ≤ s.bitmap_max_page

pages_of_bounds :
    (size : ℕ) → IsSize size → (0 < pages_of size) × (size ≤ pages_of size * page_size)
pages_of_bounds size h = omega arith

alloc-Found :
    {s s' : Pmm} (size addr : ℕ)
    → is_free s.bitmap 0 ≡ false
    → IsSize size
    → alloc s size ≡ some (addr, s')
    → Found s size addr s'
alloc-Found {s} size addr low h e =
    let (p, found, at, next) = alloc-parts s size addr e in
    let n = pages_of size in
    let pos = (pages_of_bounds size h).0 in
    record {
      page = p;
      at = at;
      next = next;
      run = λ q lo hi. (find_free_page-free s n p q low pos found lo hi).0;
      room = (find_free_page-free s n p p low pos found (omega arith) (omega arith)).1;
    }

-- On a well-formed state (page 0 in use, every byte of the bitmap a byte, the
-- available memory at least that of the free pages, the counters' sum below 2^64) and for a size that rounds up to pages within 64 bits, a successful allocation of `size` bytes
-- returns a page-aligned address and takes exactly the pages from there on that cover `size`: each
-- of them was free, lies within the bitmap and is in use afterwards, and every other page stays as
-- it was.
pub alloc-takes :
    {s s' : Pmm} (size addr q : ℕ)
    → IsValid s
    → IsSize size
    → alloc s size ≡ some (addr, s')
    → (addr % page_size ≡ 0)
      × (size ≤ pages_of size * page_size)
      × (addr / page_size + pages_of size ≤ s.bitmap_max_page)
      × ((within (addr / page_size) (pages_of size) q && not (is_free s.bitmap q)) ≡ false)
      × (is_free s'.bitmap q
          ≡ (is_free s.bitmap q && not (within (addr / page_size) (pages_of size) q)))
unfolding take_pages
alloc-takes {s} {s'} size addr q v h e =
    let f = alloc-Found size addr v.low h e in
    let p : addr / page_size ≡ f.page = omega (arith, f.at) in
    rw (p, f.next)
      (
        omega (arith, f.at),
        (pages_of_bounds size h).1,
        f.room,
        ground (arith, f.run q),
        ground (arith, is_free-set_range s.bitmap f.page (pages_of size) q v.bytes),
      )

take_pages-IsValid :
    (s : Pmm) (p n : ℕ)
    → IsValid s
    → ((q : ℕ) → p ≤ q → q < p + n → is_free s.bitmap q ≡ true)
    → p + n ≤ s.bitmap_max_page
    → IsValid (take_pages s p n)
unfolding take_pages
take_pages-IsValid s p n v run room = record {
  bytes = set_range-IsBytes s.bitmap p n v.bytes;
  low = ground (arith, is_free-set_range s.bitmap p n 0 v.bytes, v.low);
  counted = omega (
    arith,
    v.counted,
    v.bounded,
    count_free-set_range s.bitmap p n s.bitmap_max_page v.bytes run,
  );
  bounded = omega (
    arith,
    v.counted,
    v.bounded,
    count_free-set_range s.bitmap p n s.bitmap_max_page v.bytes run,
  );
}

take_pages-counters :
    (s : Pmm) (p n : ℕ)
    → IsValid s
    → ((q : ℕ) → p ≤ q → q < p + n → is_free s.bitmap q ≡ true)
    → p + n ≤ s.bitmap_max_page
    → ((take_pages s p n).available_memory + n * page_size ≡ s.available_memory)
      × ((take_pages s p n).used_memory ≡ s.used_memory + n * page_size)
      × ((take_pages s p n).bitmap_max_page ≡ s.bitmap_max_page)
unfolding take_pages
take_pages-counters s p n v run room =
    let c = count_free-set_range s.bitmap p n s.bitmap_max_page v.bytes run in
    (omega (arith, v.counted, v.bounded, c), omega (arith, v.counted, v.bounded, c), refl)

-- A successful allocation keeps the allocator's state well formed, and moves the pages' bytes from
-- the available memory to the used memory without wrapping.
pub alloc-IsValid :
    {s s' : Pmm} (size addr : ℕ)
    → IsValid s
    → IsSize size
    → alloc s size ≡ some (addr, s')
    → IsValid s'
      × (s'.available_memory + pages_of size * page_size ≡ s.available_memory)
      × (s'.used_memory ≡ s.used_memory + pages_of size * page_size)
      × (s'.bitmap_max_page ≡ s.bitmap_max_page)
alloc-IsValid {s} size addr v h e =
    let f = alloc-Found size addr v.low h e in
    let n = pages_of size in
    let c = take_pages-counters s f.page n v f.run f.room in
    rw f.next (take_pages-IsValid s f.page n v f.run f.room, c.0, c.1, c.2)

-- From a well-formed state (page 0 in use, every byte of the bitmap a byte, the
-- available memory at least that of the free pages, the counters' sum below 2^64),
-- two successful allocations, one after the other, of sizes that round up to pages within 64 bits,
-- do not overlap.
pub alloc-disjoint :
    {s s' s'' : Pmm} (a b addr_a addr_b : ℕ)
    → IsValid s
    → IsSize a
    → IsSize b
    → alloc s a ≡ some (addr_a, s')
    → alloc s' b ≡ some (addr_b, s'')
    → (addr_a + a ≤ addr_b) ⊎ (addr_b + b ≤ addr_a)
alloc-disjoint {s} {s'} a b addr_a addr_b v ha hb ea eb =
    let fa = alloc-Found a addr_a v.low ha ea in
    let fb = alloc-Found b addr_b (alloc-IsValid a addr_a v ha ea).0.low hb eb in
    let ta = alloc-takes a addr_a fa.page v ha ea in
    let tb = alloc-takes a addr_a fb.page v ha ea in
    let pa = fa.at in
    let pb = fb.at in
    ground (
      arith,
      fb.run fa.page,
      fb.run fb.page,
      ta,
      tb,
      pa,
      pb,
      pages_of_bounds a ha,
      pages_of_bounds b hb,
    )

-- On a well-formed state, freeing what was just allocated succeeds, and gives back the state before
-- the allocation: every page is free exactly if it was, and the counters are what they were.
pub unalloc-alloc :
    {s s' : Pmm} (size addr q : ℕ)
    → IsValid s
    → IsSize size
    → alloc s size ≡ some (addr, s')
    → (t : Pmm) × (unalloc s' addr size ≡ some t)
      × (is_free t.bitmap q ≡ is_free s.bitmap q)
      × (t.available_memory ≡ s.available_memory)
      × (t.used_memory ≡ s.used_memory)
unfolding unalloc
unalloc-alloc {s} {s'} size addr q v h e =
    let f = alloc-Found size addr v.low h e in
    let w = alloc-IsValid size addr v h e in
    let n = pages_of size in
    let p : addr / page_size ≡ f.page = omega (arith, f.at) in
    let p' : (addr - addr % page_size) / page_size ≡ f.page = omega (arith, f.at) in
    let fits : ltb s'.bitmap_max_page (f.page + n) ≡ false = ground (arith, f.room, w.3) in
    (
      record s' {
        bitmap = clear_range s'.bitmap f.page n;
        available_memory = add64 s'.available_memory (n * page_size);
        used_memory = sub64 s'.used_memory (n * page_size);
      },
      rw (p', fits),
      ground (
        arith,
        is_free-clear_range s'.bitmap f.page n q w.0.bytes,
        alloc-takes size addr q v h e,
        p,
      ),
      omega (arith, w.1, w.2, v.bounded),
      omega (arith, w.1, w.2, v.bounded),
    )

-- Freeing pages other than page 0 that the used memory accounts for keeps the state well formed.
pub unalloc-IsValid :
    {s t : Pmm} (addr size : ℕ)
    → IsValid s
    → size + 0xfff < 2 ^ 64
    → page_size ≤ addr
    → pages_of size * page_size ≤ s.used_memory
    → unalloc s addr size ≡ some t
    → IsValid t
unfolding unalloc
unalloc-IsValid {s} {t} addr size v small high used e =
    let page = (addr - addr % page_size) / page_size in
    let n = pages_of size in
    let fits : page + n ≤ s.bitmap_max_page = ground arith in
    let next : t ≡ record s {
      bitmap = clear_range s.bitmap page n;
      available_memory = add64 s.available_memory (n * page_size);
      used_memory = sub64 s.used_memory (n * page_size);
    } =
      ground arith in
    rw next (record {
      bytes = clear_range-IsBytes s.bitmap page n v.bytes;
      low = ground (arith, is_free-clear_range s.bitmap page n 0 v.bytes, v.low);
      counted = omega (
        arith,
        v.counted,
        v.bounded,
        count_free-clear_range s.bitmap page n s.bitmap_max_page v.bytes,
      );
      bounded = omega (arith, v.bounded);
    })

-- On a well-formed state (page 0 in use, every byte of the bitmap a byte, the
-- available memory at least that of the free pages, the counters' sum below 2^64) and for a size that rounds up to pages within 64 bits, an allocation succeeds whenever the bitmap has
-- a run of free pages, at any page `p`, that is large enough; what it returns starts no later than
-- that run.
pub alloc-succeeds :
    {s : Pmm} (size p : ℕ)
    → IsValid s
    → IsSize size
    → p + pages_of size ≤ s.bitmap_max_page
    → ((q : ℕ) → p ≤ q → q < p + pages_of size → is_free s.bitmap q ≡ true)
    → (addr : ℕ) × (t : Pmm) × (alloc s size ≡ some (addr, t)) × (addr ≤ p * page_size)
unfolding alloc
alloc-succeeds {s} size p v h room run =
    let n = pages_of size in
    let (r, found, first) = find_free_page-finds s n p v.low (pages_of_bounds size h).0 room run in
    (r * page_size, take_pages s r n, rw (found, alloc), omega (arith, first))
