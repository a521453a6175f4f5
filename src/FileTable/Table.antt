-- ===== src/FileTable/Table.antt =====
-- Descriptors of a process whose table is in place (src/fs/fd.c).
use drip_os.Prelude.{
  ℕ, ◌+◌, ◌<◌, ◌≡◌, refl, zero, suc, true, Option, none, some, List, [], ◌∷◌, if◌then◌else◌, ◌==◌,
  ltb, arith, ◌∙◌, sym, length, get_elem?, set, length-set, lt→ltb, ==_iff, Bool-cases, inl, inr,
  subst,
}
use drip_os.ProcessTable.{slot_at}
use drip_os.ProcessTable.Slots.{slot_at-set}
use drip_os.FileTable.{Entry, Table, Files, Store, fd, write_block, fd_lookup_pid}

-- Process `pid` has its table, of the size that it says, at the address that it says.
pub record Holds (s : Store) (pid : ℕ) (p : Files) (table : Table) : Type 0 where
  pub process : s.processes pid ≡ some p
  pub block : s.blocks p.fd_table ≡ some table
  pub size : p.fd_table_size ≡ length table

pub write_block-Holds :
    (s : Store) (pid : ℕ) (p : Files) (table new : Table)
    → Holds s pid p table
    → length new ≡ length table
    → Holds (write_block s p.fd_table new) pid p new
unfolding write_block
write_block-Holds s pid p table new v same = record {
  process = v.process;
  block = rw ((==_iff p.fd_table p.fd_table).1 refl) refl;
  size = v.size ∙ sym same;
}

pub get_elem?-slot {ℓ} :
    {A : Type ℓ} (slots : List (Option A)) (i : ℕ)
    → i < length slots
    → get_elem? slots i ≡ some (slot_at slots i)
get_elem?-slot [] i h = absurd (omega (arith, h))
get_elem?-slot (x ∷ slots) zero h = refl
get_elem?-slot (x ∷ slots) (suc i) h = get_elem?-slot slots i (omega (arith, h))

-- What a lookup finds in a table: the last slot is never looked at.
abbrev pub look : Table → ℕ → Option Entry
look table i = if ltb (i + 1) (length table) then slot_at table i else none

pub look-set :
    (table : Table) (i j : ℕ) (x : Option Entry)
    → i + 1 < length table
    → look (set table i x) j ≡ (if i == j then x else look table j)
look-set table i j x inside =
    let reads = slot_at-set table i j x (omega (arith, inside)) in
    rw (length-set table i x, reads)
      (elim (Bool-cases (i == j)) [
        | inl e ↦
            rw
              (
                e,
                subst (λ k. ltb (k + 1) (length table) ≡ true) ((==_iff i j).0 e)
                    (lt→ltb (i + 1) (length table) inside),
              )
              refl
        | inr e ↦ rw e refl
      ])

pub fd_lookup_pid_lem :
    (s : Store) (pid : ℕ) (p : Files) (table : Table) (i : ℕ)
    → Holds s pid p table
    → fd_lookup_pid (fd i) pid s ≡ some (look table i)
unfolding fd_lookup_pid
fd_lookup_pid_lem s pid p table i v = elim (Bool-cases (ltb (i + 1) (length table))) [
  | inl e ↦ rw (v.process, v.size, v.block, e) (get_elem?-slot table i (ground arith))
  | inr e ↦ rw (v.process, v.size, e) refl
]
