-- ===== src/FileTable/Tests.antt =====
-- The theorems on the descriptors of src/fs/fd.c at a concrete store.
use drip_os.Prelude.{ℕ, ◌≡◌, refl, none, some, [], ◌∷◌, if◌then◌else◌, ◌==◌, arith, replicate}
use drip_os.ProcessTable.{first_free}
use drip_os.FileTable.{
  Table, Files, Store, fd, fd_new, fd_lookup_pid, fd_close, returns, fails, ebadf,
}
use drip_os.FileTable.Table.{Holds}
use drip_os.FileTable.Open.{opened, fd_new-lookup, fd_new-last}

-- Descriptors 0 and 2 are open in the first table, all in the third, and all but the last in the
-- fourth; the second is empty.
abbrev gap : Table
gap = some (opened 64 0) ∷ none ∷ some (opened 128 1) ∷ none ∷ []

abbrev full : Table
full = some (opened 64 0) ∷ some (opened 128 1) ∷ []

abbrev all_but_last : Table
all_but_last = some (opened 64 0) ∷ none ∷ []

abbrev files : ℕ → ℕ → Files
files address size = record { fd_table = address; fd_table_size = size }

abbrev store : Store
store = record {
  blocks = λ a.
      if a == 10
      then some gap
      else if a == 11
      then some (replicate 10 none)
      else if a == 12
      then some full
      else if a == 13
      then some all_but_last
      else none;
  next_block = 14;
  processes = λ pid.
      if pid == 0
      then some (files 10 4)
      else if pid == 1
      then some (files 11 10)
      else if pid == 2
      then some (files 12 2)
      else if pid == 3
      then some (files 13 2)
      else none;
}

gap-Holds : Holds store 0 (files 10 4) gap
gap-Holds = record { process = refl; block = refl; size = refl }

empty-Holds : Holds store 1 (files 11 10) (replicate 10 none)
empty-Holds = record { process = refl; block = refl; size = refl }

full-Holds : Holds store 2 (files 12 2) full
full-Holds = record { process = refl; block = refl; size = refl }

last-Holds : Holds store 3 (files 13 2) all_but_last
last-Holds = record { process = refl; block = refl; size = refl }

gap-free : first_free gap 0 ≡ some 1
unfolding first_free
gap-free = refl

full-none : first_free full 0 ≡ none
unfolding first_free
full-none = refl

last-free : first_free all_but_last 0 ≡ some 1
unfolding first_free
last-free = refl

fd_new-lookup_example :
    (s' : Store) × (fd_new 256 2 0 store ≡ some (1, s'))
    × ((j : ℕ)
        → fd_lookup_pid (fd j) 0 s'
          ≡ (if 1 == j then some (some (opened 256 2)) else fd_lookup_pid (fd j) 0 store))
    × (fd_lookup_pid (fd 1) 0 store ≡ some none)
fd_new-lookup_example =
    fd_new-lookup 256 2 0 store (files 10 4) gap 1 gap-Holds gap-free (omega arith)

fd_new-last_example :
    (s' : Store) × (fd_new 256 2 3 store ≡ some (1, s'))
    × (fd_lookup_pid (fd 1) 3 s' ≡ some none)
    × (fd_close (λ n s. some (returns 0, s)) (fd 1) 3 s' ≡ some (fails ebadf, s'))
fd_new-last_example =
    fd_new-last 256 2 3 store (files 13 2) all_but_last 1 (λ n s. some (returns 0, s)) last-Holds
      last-free refl
