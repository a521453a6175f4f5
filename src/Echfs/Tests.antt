-- ===== src/Echfs/Tests.antt =====
-- The theorems on src/fs/filesystems/echfs.c at a small device: 64 blocks of 16 bytes, and a file
-- that starts at block 50 and ends at block 51.
use drip_os.Prelude.{
  ℕ, zero, suc, ◌+◌, ◌≤◌, ◌<◌, ◌≡◌, ◌≢◌, refl, none, some, List, [], ◌∷◌, ◌++◌, if◌then◌else◌, ◌==◌,
  arith, ap, inl, inr, length,
}
use drip_os.Echfs.{
  Block, Geometry, Store, end_of_chain, word_from, byte_of, word_at, set_word,
  allocate_blocks_for_file, write_for_range,
}
use drip_os.Echfs.Cache.{IsSized, entry_of}
use drip_os.Echfs.Chains.{IsChain, nth}
use drip_os.Echfs.Extend.{free_count}
use drip_os.Echfs.Alloc.{Extended, allocate_blocks-Extended}
use drip_os.Echfs.Ranges.{InFile}
use drip_os.Echfs.Write.{IsFile}
use drip_os.Echfs.Contents.{Updated, write_for_range-Updated}
use drip_os.Echfs.Directory.{DirEntry, Directory, root_dir_id, resolved, path_resolve}
use drip_os.Echfs.Directory.Names.{path_resolve-Walk}
use drip_os.Echfs.Directory.Search.{Found, IsPassed}

abbrev geometry : Geometry
geometry = record { block_size = 16; blocks = 64; main_dir_blocks = 64 }

-- Block 41 holds the table's numbers for blocks 50 and 51.
abbrev table_block : Block
table_block = set_word (set_word (λ j. 0) 0 51) 1 end_of_chain

abbrev device : ℕ → Block
device b =
    if b == 41
    then table_block
    else if b == 16
    then (λ j. 255)
    else if b == 50
    then (λ j. j)
    else (λ j. 0)

abbrev store : Store
store = record { device = device; cached_blocks = λ b. none }

chain : IsChain geometry store 50 (51 ∷ [])
unfolding word_at word_from set_word byte_of
chain = (refl, omega arith, omega arith, refl)

sized : IsSized geometry
sized = record { words = 2; some_words = omega arith; size = refl }

reserved : entry_of geometry store 0 ≢ 0
unfolding word_at word_from
reserved = λ e. omega (arith, e)

-- Blocks 0 and 1 stand in block 16, and the file has two.
free_blocks : free_count geometry store 64 0 ≡ 60
unfolding word_at word_from set_word byte_of
free_blocks = refl

place : (i : ℕ) → i ≤ 1 → nth 50 (51 ∷ []) i ≡ 50 + i
place zero le = refl
place (suc zero) le = refl
place (suc (suc i)) le = absurd (omega (arith, le))

file : IsFile geometry 50 (51 ∷ [])
file = record {
  bounded = λ i le. omega (arith, place i le, le);
  not_table = λ i le x lt e. omega (arith, place i le, e, lt);
  distinct = λ i j le le' e. omega (arith, place i le, place j le', e);
}

inside : InFile geometry (51 ∷ []) 9 13
inside = record {
  positive = omega arith;
  some_bytes = omega arith;
  fits = omega arith;
  in_chain = omega arith;
}

allocate_blocks-Extended_example :
    (s' : Store) × (allocate_blocks_for_file geometry 5 50 4 store ≡ some s')
    × Extended geometry store s' 2 50 (51 ∷ [])
allocate_blocks-Extended_example =
    allocate_blocks-Extended geometry store 5 50 4 (51 ∷ []) sized (omega arith) reserved
      (omega arith, omega arith) chain (omega arith) (omega arith) (omega arith)
      (omega (arith, free_blocks))

write_for_range-Updated_example :
    (s' : Store) × (write_for_range geometry 50 9 13 (λ k. 7) store ≡ (0, s'))
    × Updated geometry store s' 50 (51 ∷ []) 9 13 (λ k. 7)
write_for_range-Updated_example =
    write_for_range-Updated geometry store 50 (51 ∷ []) 9 13 (λ k. 7) inside chain file

-- A directory with `/bin` and `/bin/sh`, then its end.
abbrev bin : List ℕ
bin = b'b' ∷ b'i' ∷ b'n' ∷ []

abbrev sh : List ℕ
sh = b's' ∷ b'h' ∷ []

abbrev entry : ℕ → ℕ → List ℕ → ℕ → DirEntry
entry parent_id entry_type name starting_block = record {
  parent_id = parent_id;
  entry_type = entry_type;
  name = name ++ 0 ∷ [];
  unix_access_time = 0;
  unix_modify_time = 0;
  permissions = 0;
  owner_id = 0;
  group_id = 0;
  unix_create_time = 0;
  starting_block = starting_block;
  file_size_bytes = 30;
  entry_number = 0;
}

abbrev dir : Directory
dir i =
    if i == 0
    then entry root_dir_id 1 bin 5
    else if i == 1
    then entry root_dir_id 0 sh 40
    else if i == 2
    then entry 5 0 (sh ++ sh) 45
    else if i == 3
    then entry 5 0 sh 50
    else entry 0 0 [] 0

-- The entry of `/bin/sh`, with its number filled in. There are also a `/sh` and a `/bin/shsh`.
abbrev sh_entry : DirEntry
sh_entry = record (dir 3) { entry_number = 3 }

bin-Found : Found dir 9 bin root_dir_id 0
bin-Found = record {
  proper = omega arith;
  fits = omega arith;
  bounded = omega arith;
  not_fail = λ e. omega (arith, e);
  parent = refl;
  rest = [];
  named = refl;
  passed = λ j lt. absurd (omega (arith, lt));
}

before_sh : (j : ℕ) → j < 3 → IsPassed dir sh 5 j
before_sh zero lt = ((λ e. omega (arith, e)), inl (λ e. omega (arith, e)))
before_sh (suc zero) lt = ((λ e. omega (arith, e)), inl (λ e. omega (arith, e)))
before_sh (suc (suc zero)) lt = (
  (λ e. omega (arith, e)),
  inr (sh ++ sh, [], omega arith, refl, λ e. absurd (omega (arith, ap length e))),
)
before_sh (suc (suc (suc j))) lt = absurd (omega (arith, lt))

sh-Found : Found dir 9 sh 5 3
sh-Found = record {
  proper = omega arith;
  fits = omega arith;
  bounded = omega arith;
  not_fail = λ e. omega (arith, e);
  parent = refl;
  rest = [];
  named = refl;
  passed = before_sh;
}

path_resolve-Walk_example :
    path_resolve dir 9 4 (b'/' ∷ (bin ++ b'/' ∷ sh) ++ 0 ∷ []) ≡ some (resolved sh_entry)
path_resolve-Walk_example =
    path_resolve-Walk dir 9 4 bin (sh ∷ []) sh_entry [] (0, bin-Found, refl, (3, sh-Found, refl))
      (omega arith) (omega arith)
