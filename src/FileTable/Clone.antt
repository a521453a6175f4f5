-- ===== src/FileTable/Clone.antt =====
-- The copy of a table of descriptors (src/fs/fd.c, `clone_fds`).
use drip_os.Prelude.{
  ℕ, ◌+◌, ◌≡◌, refl, zero, suc, Option, none, some, List, [], ◌∷◌, ◌++◌, ◌==◌, arith, ◌∙◌, sym, ap,
  subst, length, set, replicate, Bool-cases, inl, inr, ==_iff, ◌>>=◌,
}
use drip_os.ProcessTable.{first_free, claim_slot}
use drip_os.FileTable.{Entry, Table, Files, Store, update, write_block, clone_entries, clone_fds}
use drip_os.FileTable.Table.{Holds, write_block-Holds}

-- The entries of a table, in order.
abbrev pub entries : Table → List Entry
entries [] = []
entries (none ∷ table) = entries table
entries (some entry ∷ table) = entry ∷ entries table

-- A table whose entries fill its first slots.
abbrev pub packed : List Entry → ℕ → Table
packed [] n = replicate n none
packed (e ∷ es) n = some e ∷ packed es n

first_free-packed :
    (es : List Entry) (n i : ℕ) → first_free (packed es (suc n)) i ≡ some (i + length es)
unfolding first_free
first_free-packed [] n i = ap some (omega arith)
first_free-packed (e ∷ es) n i = first_free-packed es n (i + 1) ∙ ap some (omega arith)

first_free-full : (es : List Entry) (i : ℕ) → first_free (packed es 0) i ≡ none
unfolding first_free
first_free-full [] i = refl
first_free-full (e ∷ es) i = first_free-full es (i + 1)

length-full : (es : List Entry) → length (packed es 0) ≡ length es
length-full [] = refl
length-full (e ∷ es) = ap suc (length-full es)

grown-packed : (es : List Entry) (n : ℕ) → packed es 0 ++ replicate n none ≡ packed es n
grown-packed [] n = refl
grown-packed (e ∷ es) n = ap (λ l. some e ∷ l) (grown-packed es n)

set-packed :
    (es : List Entry) (e : Entry) (n : ℕ)
    → set (packed es (suc n)) (length es) (some e) ≡ packed (es ++ e ∷ []) n
set-packed [] e n = refl
set-packed (x ∷ es) e n = ap (λ l. some x ∷ l) (set-packed es e n)

start_zero : (n : ℕ) → 0 + n ≡ n
start_zero n = omega arith

-- The next entry goes behind the others.
claim_slot-packed :
    (es : List Entry) (e : Entry) (n : ℕ)
    → (n' : ℕ) × (set ((claim_slot (packed es n)).1) ((claim_slot (packed es n)).0) (some e)
        ≡ packed (es ++ e ∷ []) n')
unfolding claim_slot
claim_slot-packed es e zero = (
  9,
  rw (claim_slot, first_free-full es 0, length-full es, grown-packed es 10) (set-packed es e 9),
)
claim_slot-packed es e (suc n) =
    (n, rw (claim_slot, first_free-packed es n 0, start_zero (length es)) (set-packed es e n))

append_nil : (es : List Entry) → es ++ [] ≡ es
append_nil [] = refl
append_nil (e ∷ es) = ap (λ l. e ∷ l) (append_nil es)

append_assoc : (xs ys zs : List Entry) → (xs ++ ys) ++ zs ≡ xs ++ (ys ++ zs)
append_assoc [] ys zs = refl
append_assoc (x ∷ xs) ys zs = ap (λ l. x ∷ l) (append_assoc xs ys zs)

-- Copying appends the entries to those of a packed table: descriptors are numbered anew.
pub clone_entries-packed :
    (old : Table) (es : List Entry) (n : ℕ)
    → (n' : ℕ) × (clone_entries old (packed es n) ≡ packed (es ++ entries old) n')
unfolding clone_entries
clone_entries-packed [] es n = (n, rw (append_nil es) refl)
clone_entries-packed (none ∷ old) es n = clone_entries-packed old es n
clone_entries-packed (some e ∷ old) es n =
    let (m, put) = claim_slot-packed es e n in
    let (n', rest) = clone_entries-packed old (es ++ e ∷ []) m in
    (n', rw put (rest ∙ ap (λ l. packed l n') (append_assoc es (e ∷ []) (entries old))))

moved : Store → ℕ → Files → Table → Store
moved s new_pid new copied = record s {
  blocks = update (update s.blocks new.fd_table none) s.next_block (some copied);
  next_block = s.next_block + 1;
  processes =
      update s.processes new_pid
        (some (record new { fd_table = s.next_block; fd_table_size = length copied }));
}

moved-Holds :
    (s : Store) (pid : ℕ) (new : Files) (copied : Table)
    → Holds
        (moved s pid new copied)
        pid
        (record new { fd_table = s.next_block; fd_table_size = length copied })
        copied
unfolding moved
moved-Holds s pid new copied = record {
  process = rw ((==_iff pid pid).1 refl) refl;
  block = rw ((==_iff s.next_block s.next_block).1 refl) refl;
  size = refl;
}

-- Cloning the descriptors of a process into one whose table is empty gives it a table that begins
-- with the open files of the old one, in order and without the gaps: a file that was open behind
-- an unused descriptor gets another number in the clone.
pub clone_fds-packed :
    (old_pid new_pid : ℕ) (s : Store) (old new : Files) (table : Table) (slots : ℕ)
    → Holds s old_pid old table
    → Holds s new_pid new (replicate slots none)
    → (s' : Store) × (new' : Files) × (n : ℕ) × (clone_fds old_pid new_pid s ≡ some s')
      × Holds s' new_pid new' (packed (entries table) n)
unfolding clone_fds moved
clone_fds-packed old_pid new_pid s old new table slots v w =
    let (n, copies) = clone_entries-packed table [] slots in
    let copied = clone_entries table (replicate slots none) in
    elim (Bool-cases (length copied == length (replicate {A = Option Entry} slots none))) [
      | inl same ↦ (
        write_block s new.fd_table copied,
        new,
        n,
        rw (v.process, w.process, v.block, w.block, ◌>>=◌, same) refl,
        rw (sym copies)
            (write_block-Holds s new_pid new (replicate slots none) copied w ((==_iff _ _).0 same)),
      )
      | inr other ↦ (
        moved s new_pid new copied,
        record new { fd_table = s.next_block; fd_table_size = length copied },
        n,
        rw (v.process, w.process, v.block, w.block, ◌>>=◌, other) refl,
        subst
            (Holds (moved s new_pid new copied) new_pid
              (record new { fd_table = s.next_block; fd_table_size = length copied }))
            copies (moved-Holds s new_pid new copied),
      )
    ]
