-- ===== src/FileTable/Open.antt =====
-- Opening, finding and removing descriptors (src/fs/fd.c).
use drip_os.Prelude.{
  ℕ, ◌+◌, ◌<◌, ◌≡◌, ◌≢◌, refl, zero, suc, Bool, true, false, Option, none, some, List, [], ◌∷◌,
  ◌++◌, if◌then◌else◌, ◌==◌, arith, ◌∙◌, sym, ap, length, set, length-set, replicate, lt→ltb,
  ==_iff, ◌>>=◌,
}
use drip_os.ProcessTable.{first_free, slot_at}
use drip_os.ProcessTable.Slots.{first_free-at}
use drip_os.FileTable.{
  Entry, Table, Files, Store, Fd, fd, update, write_block, grow_block, fd_new, fd_lookup_pid,
  fd_remove, fd_close, Result, fails, ebadf,
}
use drip_os.FileTable.Table.{
  Holds, write_block-Holds, fd_lookup_pid_lem, look, look-set, get_elem?-slot,
}

abbrev pub opened : ℕ → ℕ → Entry
opened node mode = record { node = node; mode = mode; seek = 0 }

fd_new-runs :
    (node mode pid : ℕ) (s : Store) (p : Files) (table : Table) (i : ℕ)
    → Holds s pid p table
    → first_free table 0 ≡ some i
    → fd_new node mode pid s
      ≡ some (i, write_block s p.fd_table (set table i (some (opened node mode))))
unfolding fd_new
fd_new-runs node mode pid s p table i v free = rw (v.process, v.block, ◌>>=◌, free) refl

look-lookup :
    (s : Store) (pid : ℕ) (p : Files) (table : Table) (b : Bool) (entry : Option Entry) (j : ℕ)
    → Holds s pid p table
    → some (if b then entry else look table j)
      ≡ (if b then some entry else fd_lookup_pid (fd j) pid s)
look-lookup s pid p table true entry j v = refl
look-lookup s pid p table false entry j v = sym (fd_lookup_pid_lem s pid p table j v)

-- Where the first empty slot of a table is not its last slot, opening a file takes that slot:
-- its descriptor, which was not in use, is found to be the file at position 0, and every other
-- descriptor of the process is found to be what it was.
pub fd_new-lookup :
    (node mode pid : ℕ) (s : Store) (p : Files) (table : Table) (i : ℕ)
    → Holds s pid p table
    → first_free table 0 ≡ some i
    → i + 1 < length table
    → (s' : Store) × (fd_new node mode pid s ≡ some (i, s'))
      × ((j : ℕ)
          → fd_lookup_pid (fd j) pid s'
            ≡ (if i == j then some (some (opened node mode)) else fd_lookup_pid (fd j) pid s))
      × (fd_lookup_pid (fd i) pid s ≡ some none)
fd_new-lookup node mode pid s p table i v free inside =
    let (at, empty) = first_free-at table i free in
    let new = set table i (some (opened node mode)) in
    let w = write_block-Holds s pid p table new v (length-set table i (some (opened node mode))) in
    (
      write_block s p.fd_table new,
      fd_new-runs node mode pid s p table i v free,
      λ j.
          fd_lookup_pid_lem (write_block s p.fd_table new) pid p new j w
          ∙ ap some (look-set table i j (some (opened node mode)) inside)
          ∙ look-lookup s pid p table (i == j) (some (opened node mode)) j v,
      fd_lookup_pid_lem s pid p table i v ∙ rw (lt→ltb (i + 1) (length table) inside, empty) refl,
    )

-- Where the first empty slot is the last of the table, a file is opened there, but its descriptor
-- is not found afterwards, and closing it fails with EBADF.
pub fd_new-last :
    (node mode pid : ℕ) (s : Store) (p : Files) (table : Table) (i : ℕ)
    (vfs_close : Fd → Store → Option (Result × Store))
    → Holds s pid p table
    → first_free table 0 ≡ some i
    → i + 1 ≡ length table
    → (s' : Store) × (fd_new node mode pid s ≡ some (i, s'))
      × (fd_lookup_pid (fd i) pid s' ≡ some none)
      × (fd_close vfs_close (fd i) pid s' ≡ some (fails ebadf, s'))
unfolding fd_close
fd_new-last node mode pid s p table i vfs_close v free last =
    let new = set table i (some (opened node mode)) in
    let same = length-set table i (some (opened node mode)) in
    let s' = write_block s p.fd_table new in
    let w = write_block-Holds s pid p table new v same in
    let past : look new i ≡ none = ground (arith, same, last) in
    let gone : fd_lookup_pid (fd i) pid s' ≡ some none =
      fd_lookup_pid_lem s' pid p new i w ∙ ap some past in
    (s', fd_new-runs node mode pid s p table i v free, gone, rw gone refl)

-- The store after a full table has grown.
abbrev grown : ℕ → ℕ → ℕ → Store → Files → Table → Store
grown node mode pid s p table = record {
  blocks =
      update
        (update (update s.blocks p.fd_table none) s.next_block (some (table ++ replicate 10 none)))
        s.next_block
        (some (set (table ++ replicate 10 none) (p.fd_table_size) (some (opened node mode))));
  next_block = s.next_block + 1;
  processes = update s.processes pid (some (record p { fd_table_size = p.fd_table_size + 10 }));
}

fd_new-grows :
    (node mode pid : ℕ) (s : Store) (p : Files) (table : Table)
    → Holds s pid p table
    → first_free table 0 ≡ none
    → fd_new node mode pid s ≡ some (length table, grown node mode pid s p table)
unfolding fd_new write_block grow_block
fd_new-grows node mode pid s p table v full =
    rw (v.process, v.block, ◌>>=◌, full) (ap (λ n. some (n, grown node mode pid s p table)) v.size)

grown-lookup :
    (node mode pid : ℕ) (s : Store) (p : Files) (table : Table) (j : ℕ)
    → Holds s pid p table
    → p.fd_table ≢ s.next_block
    → j + 1 < length table + 10
    → fd_lookup_pid (fd j) pid (grown node mode pid s p table) ≡ none
unfolding fd_lookup_pid
grown-lookup node mode pid s p table j v fresh inside =
    let here = (==_iff pid pid).1 refl in
    let freed = (==_iff p.fd_table p.fd_table).1 refl in
    let other : (s.next_block == p.fd_table) ≡ false = ground (arith, fresh) in
    let test = lt→ltb (j + 1) (p.fd_table_size + 10) (omega (arith, v.size, inside)) in
    rw (here, ◌>>=◌, test, other, freed) refl

-- Where a table is full, opening a file makes the process's table useless: the process still
-- points to the block that was freed, if the new block has another address, so that looking up
-- any descriptor in range is a fault.
pub fd_new-full :
    (node mode pid : ℕ) (s : Store) (p : Files) (table : Table)
    → Holds s pid p table
    → first_free table 0 ≡ none
    → p.fd_table ≢ s.next_block
    → (s' : Store) × (fd_new node mode pid s ≡ some (length table, s'))
      × ((j : ℕ) → j + 1 < length table + 10 → fd_lookup_pid (fd j) pid s' ≡ none)
fd_new-full node mode pid s p table v full fresh = (
  grown node mode pid s p table,
  fd_new-grows node mode pid s p table v full,
  λ j inside. grown-lookup node mode pid s p table j v fresh inside,
)

set-restore :
    {A : Type 0} (slots : List (Option A)) (i : ℕ) (x : Option A)
    → i < length slots
    → slot_at slots i ≡ none
    → set (set slots i x) i none ≡ slots
set-restore [] i x h e = refl
set-restore (y ∷ slots) zero x h e = ap (λ z. z ∷ slots) (sym e)
set-restore (y ∷ slots) (suc i) x h e = ap (λ l. y ∷ l) (set-restore slots i x (omega (arith, h)) e)

-- Where the first empty slot of a table is not its last slot, opening a file and then removing
-- its descriptor gives the process the table that it had before.
pub fd_remove-fd_new :
    (node mode pid : ℕ) (s : Store) (p : Files) (table : Table) (i : ℕ)
    → Holds s pid p table
    → first_free table 0 ≡ some i
    → i + 1 < length table
    → (s' s'' : Store) × (fd_new node mode pid s ≡ some (i, s'))
      × (fd_remove (fd i) pid s' ≡ some s'')
      × Holds s'' pid p table
unfolding fd_remove
fd_remove-fd_new node mode pid s p table i v free inside =
    let (at, empty) = first_free-at table i free in
    let entry = some (opened node mode) in
    let new = set table i entry in
    let s' = write_block s p.fd_table new in
    let w = write_block-Holds s pid p table new v (length-set table i entry) in
    let back = set-restore table i entry at empty in
    let test = lt→ltb (i + 1) p.fd_table_size (omega (arith, v.size, inside)) in
    let slot = get_elem?-slot new i (omega (arith, at, length-set table i entry)) in
    (
      s',
      write_block s' p.fd_table (set new i none),
      fd_new-runs node mode pid s p table i v free,
      rw (w.process, test, w.block, ◌>>=◌, slot) refl,
      rw back (write_block-Holds s' pid p new table w (sym (length-set table i entry))),
    )
