-- ===== src/FileTable.antt =====
-- src/fs/fd.c: the tables of file descriptors, one for each process. A table is a block of the
-- kernel heap, found through the pointer in its process; krealloc (src/klibc/stdlib.c) always moves
-- a block and frees the old one. An entry is held in its slot by value, since no two slots share
-- one; the cookies, which only assertions read, are left out. An access to a freed block, or out of
-- bounds, is `none`, as is a missing process.
pub mod Table
pub mod Open
pub mod Clone
mod Tests
use drip_os.Prelude.{
  ℕ, ◌+◌, ◌-◌, ◌<◌, zero, suc, Bool, true, false, ◌&&◌, not, Option, none, some, List, [], ◌∷◌,
  ◌++◌, if◌then◌else◌, ◌==◌, ltb, add64, sub64, ◌>>=◌, length, get_elem?, set, replicate,
}
use drip_os.ProcessTable.{first_free, claim_slot, slot_at}

-- `fd_entry_t`; `node` is the address of the file's node.
pub record Entry : Type 0 where
  pub node : ℕ
  pub mode : ℕ
  pub seek : ℕ

abbrev pub Table : Type 0
Table = List (Option Entry)

-- What fd.c keeps in a `process_t`.
pub record Files : Type 0 where
  pub fd_table : ℕ
  pub fd_table_size : ℕ

-- The heap's blocks that are tables by address, with the next address that it hands out, and the
-- processes by number.
pub record Store : Type 0 where
  pub blocks : ℕ → Option Table
  pub next_block : ℕ
  pub processes : ℕ → Option Files

-- A `int` that is passed as a file descriptor.
pub data Fd : Type 0 where
  fd : ℕ → Fd
  negative : Fd

abbrev pub update {ℓ} : {A : Type ℓ} → (ℕ → A) → ℕ → A → ℕ → A
update f i a j = if i == j then a else f j

pub write_block : Store → ℕ → Table → Store
write_block s address table = record s { blocks = update s.blocks address (some table) }

-- `krealloc` of a table by ten slots: the block's new address. `kcalloc` zeroes the new slots.
pub grow_block : Store → ℕ → Table → ℕ × Store
grow_block s address table = (
  s.next_block,
  record s {
    blocks = update (update s.blocks address none) s.next_block (some (table ++ replicate 10 none));
    next_block = s.next_block + 1;
  },
)

-- `fd_new`: the new descriptor. Where the table has grown, its new address is kept in a local
-- variable and not in the process.
pub fd_new : ℕ → ℕ → ℕ → Store → Option (ℕ × Store)
fd_new node mode pid s = do
  p ← s.processes pid
  table ← s.blocks p.fd_table
  let new_entry = some (record { node = node; mode = mode; seek = 0 })
  let (address, grown) = grow_block s p.fd_table table
  let resized = record p { fd_table_size = p.fd_table_size + 10 }
  elim (first_free table 0) [
    | some i ↦ some (i, write_block s p.fd_table (set table i new_entry))
    | none ↦ some (
      p.fd_table_size,
      write_block (record grown { processes = update s.processes pid (some resized) }) address
          (set (table ++ replicate 10 none) p.fd_table_size new_entry),
    )
  ]

-- `fd_lookup_pid`, and `fd_lookup` with the current process's number. The outer `none` is a fault.
pub fd_lookup_pid : Fd → ℕ → Store → Option (Option Entry)
fd_lookup_pid negative pid s = do p ← s.processes pid; some none
fd_lookup_pid (fd i) pid s = do
  p ← s.processes pid
  if ltb (i + 1) p.fd_table_size
      then (do table ← s.blocks p.fd_table; get_elem? table i)
      else some none

-- `fd_remove`; `fd_remove_pid` differs in that it does not free a null pointer. A negative number
-- passes the test, and the access is in front of the table.
pub fd_remove : Fd → ℕ → Store → Option Store
fd_remove negative pid s = none
fd_remove (fd i) pid s = do
  p ← s.processes pid
  if ltb (i + 1) p.fd_table_size
      then (do
        table ← s.blocks p.fd_table
        slot ← get_elem? table i
        some (write_block s p.fd_table (set table i none)))
      else some s

-- A number that a system call returns, or the negative of an error number.
pub data Result : Type 0 where
  returns : ℕ → Result
  fails : ℕ → Result

abbrev pub ebadf : ℕ
ebadf = 9

-- `fd_close`; `vfs_close` is what the virtual file system makes of the descriptor.
pub fd_close : (Fd → Store → Option (Result × Store)) → Fd → ℕ → Store → Option (Result × Store)
fd_close vfs_close n pid s = do
  found ← fd_lookup_pid n pid s
  elim found [
    | none ↦ some (fails ebadf, s)
    | some entry ↦ do
      (ret, closed) ← vfs_close n s
      removed ← fd_remove n pid closed
      some (ret, removed)
  ]

-- The copies of the old table's entries go to the new table one after the other, each to its first
-- empty slot; the process is given the grown table's address here.
pub clone_entries : Table → Table → Table
clone_entries [] new = new
clone_entries (none ∷ old) new = clone_entries old new
clone_entries (some entry ∷ old) new =
    let (i, grown) = claim_slot new in clone_entries old (set grown i (some entry))

-- `clone_fds` between two processes, as `fork` calls it. The blocks that a table which grows more
-- than once passes through are left out.
pub clone_fds : ℕ → ℕ → Store → Option Store
clone_fds old_pid new_pid s = do
  old ← s.processes old_pid
  new ← s.processes new_pid
  old_table ← s.blocks old.fd_table
  new_table ← s.blocks new.fd_table
  let copied = clone_entries old_table new_table
  let moved = record new { fd_table = s.next_block; fd_table_size = length copied }
  if length copied == length new_table
      then some (write_block s new.fd_table copied)
      else some (record s {
        blocks = update (update s.blocks new.fd_table none) s.next_block (some copied);
        next_block = s.next_block + 1;
        processes = update s.processes new_pid (some moved);
      })

-- `clear_fds`
pub clear_fds : ℕ → Store → Option Store
clear_fds pid s = do
  p ← s.processes pid
  table ← s.blocks p.fd_table
  some (record s { blocks = update s.blocks p.fd_table none })
