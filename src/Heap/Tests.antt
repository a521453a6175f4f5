-- ===== src/Heap/Tests.antt =====
-- A block of 5000 bytes (src/klibc/stdlib.c).
use drip_os.Prelude.{◌+◌, ◌*◌, ◌≤◌, ◌<◌, ◌≡◌, arith}
use drip_os.Heap.{kmalloc_block, kfree_block, kmalloc_block-guarded}
use drip_os.Pmm.{pages_of}

kmalloc_block-guarded_example :
    (let b = kmalloc_block (16 * 0x1000) 5000 in
      (b.size_data + 0x1000 ≡ b.addr)
      × (b.addr + 5000 ≤ b.last_page)
      × (b.last_page < b.addr + 5000 + 0x1000)
      × (b.last_page + 0x1000 ≡ b.size_data + pages_of b.stored_size * 0x1000)
      × (kfree_block b.addr b.stored_size ≡ b))
kmalloc_block-guarded_example = kmalloc_block-guarded 16 5000 (omega arith)
