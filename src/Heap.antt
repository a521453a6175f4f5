-- ===== src/Heap.antt =====
-- The layout of a block of the kernel heap (kmalloc and kfree in src/klibc/stdlib.c): a page with
-- its size, the pages of its bytes, and a page behind them. The first and the last are unmapped
-- while the block is in use.
mod Tests
use drip_os.Prelude.{
  ℕ, ◌+◌, ◌-◌, ◌*◌, ◌/◌, ◌%◌, ◌^◌, ◌≤◌, ◌<◌, ◌≡◌, arith, add64, sub64, sub64-le, ap, refl,
}
use drip_os.Pmm.{pages_of}

-- What `kmalloc` makes of the pages at `size_data`: the pages it unmaps, the size it stores, which
-- is the one it asks the page allocator for, and what it returns.
pub record HeapBlock : Type 0 where
  pub size_data : ℕ
  pub last_page : ℕ
  pub stored_size : ℕ
  pub addr : ℕ

pub kmalloc_block : ℕ → ℕ → HeapBlock
kmalloc_block size_data size =
    let page_count = sub64 (add64 (add64 size 0x2000) 0x1000) 1 / 0x1000 in
    record {
      size_data = size_data;
      last_page = add64 size_data ((page_count - 1) * 0x1000);
      stored_size = add64 size 0x2000;
      addr = add64 size_data 0x1000;
    }

-- What `kfree` finds for an address and the size that is stored: the pages it maps again, and the
-- size it gives back.
pub kfree_block : ℕ → ℕ → HeapBlock
kfree_block addr stored_size =
    let page_count = sub64 (add64 (sub64 stored_size 0x1000) 0x1000) 1 / 0x1000 in
    record {
      size_data = sub64 addr 0x1000;
      last_page = add64 addr ((page_count - 1) * 0x1000);
      stored_size = stored_size;
      addr = addr;
    }

-- Additions that do not wrap round.
add64_small : (a b : ℕ) → a + b < 2 ^ 64 → add64 a b ≡ a + b
add64_small a b lt = omega arith

-- The number of pages that `kmalloc` counts.
page_count-kmalloc :
    (size : ℕ)
    → size + 0x4000 < 2 ^ 64
    → sub64 (add64 (add64 size 0x2000) 0x1000) 1 / 0x1000 ≡ (size + 0x2fff) / 0x1000
page_count-kmalloc size room =
    rw
      (
        add64_small size 0x2000 (omega (arith, room)),
        add64_small (size + 0x2000) 0x1000 (omega (arith, room)),
        sub64-le (size + 0x2000 + 0x1000) 1 (omega arith) (omega (arith, room)),
      )
      (ap (λ n. n / 0x1000) (omega arith))

-- The number of pages that `kfree` counts, which leaves out the first.
page_count-kfree :
    (size : ℕ)
    → size + 0x4000 < 2 ^ 64
    → sub64 (add64 (sub64 (size + 0x2000) 0x1000) 0x1000) 1 / 0x1000 ≡ (size + 0x1fff) / 0x1000
page_count-kfree size room =
    rw
      (
        sub64-le (size + 0x2000) 0x1000 (omega arith) (omega (arith, room)),
        add64_small (size + 0x2000 - 0x1000) 0x1000 (omega (arith, room)),
        sub64-le (size + 0x2000 - 0x1000 + 0x1000) 1 (omega arith) (omega (arith, room)),
      )
      (ap (λ n. n / 0x1000) (omega arith))

-- `kfree` finds the block as `kmalloc` laid it out.
kfree_block-kmalloc_block :
    (page size : ℕ)
    → page * 0x1000 + size + 0x4000 < 2 ^ 64
    → (let b = kmalloc_block (page * 0x1000) size in kfree_block b.addr b.stored_size ≡ b)
unfolding kmalloc_block kfree_block
kfree_block-kmalloc_block page size room =
    let start = page * 0x1000 in
    let count = (size + 0x1fff) / 0x1000 in
    let back : start + 0x1000 - 0x1000 ≡ start = omega arith in
    let whole : start + 0x1000 + (count - 1) * 0x1000
        ≡ start + ((size + 0x2fff) / 0x1000 - 1) * 0x1000 =
      omega arith in
    rw
      (
        page_count-kmalloc size (omega (arith, room)),
        add64_small start 0x1000 (omega (arith, room)),
        add64_small size 0x2000 (omega (arith, room)),
        add64_small start (((size + 0x2fff) / 0x1000 - 1) * 0x1000) (omega (arith, room)),
        page_count-kfree size (omega (arith, room)),
        add64_small (start + 0x1000) ((count - 1) * 0x1000) (omega (arith, room)),
        whole,
        sub64-le (start + 0x1000) 0x1000 (omega arith) (omega (arith, room)),
      )
      (rw back refl)

kmalloc_block-pages :
    (page size : ℕ)
    → page * 0x1000 + size + 0x4000 < 2 ^ 64
    → (let b = kmalloc_block (page * 0x1000) size in
        (b.size_data + 0x1000 ≡ b.addr)
        × (b.addr + size ≤ b.last_page)
        × (b.last_page < b.addr + size + 0x1000)
        × (b.last_page + 0x1000 ≡ b.size_data + pages_of b.stored_size * 0x1000))
unfolding kmalloc_block
kmalloc_block-pages page size room =
    let start = page * 0x1000 in
    let count = (size + 0x2fff) / 0x1000 in
    rw
      (
        page_count-kmalloc size (omega (arith, room)),
        add64_small start 0x1000 (omega (arith, room)),
        add64_small size 0x2000 (omega (arith, room)),
        add64_small start ((count - 1) * 0x1000) (omega (arith, room)),
      )
      (omega arith, omega arith, omega arith, omega (arith, room))

-- For a block at a page boundary that does not reach the end of the addresses: its bytes lie
-- between the two unmapped pages, the last of which begins less than a page behind them and is the
-- last of the pages that the page allocator hands out for the block; and `kfree`, given the address
-- and the stored size, finds the block as `kmalloc` laid it out.
pub kmalloc_block-guarded :
    (page size : ℕ)
    → page * 0x1000 + size + 0x4000 < 2 ^ 64
    → (let b = kmalloc_block (page * 0x1000) size in
        (b.size_data + 0x1000 ≡ b.addr)
        × (b.addr + size ≤ b.last_page)
        × (b.last_page < b.addr + size + 0x1000)
        × (b.last_page + 0x1000 ≡ b.size_data + pages_of b.stored_size * 0x1000)
        × (kfree_block b.addr b.stored_size ≡ b))
kmalloc_block-guarded page size room =
    let (head, inside, close, all) = kmalloc_block-pages page size room in
    (head, inside, close, all, kfree_block-kmalloc_block page size room)
