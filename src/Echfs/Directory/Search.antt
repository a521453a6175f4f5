-- ===== src/Echfs/Directory/Search.antt =====
-- `echfs_find_entry_name_parent` (src/fs/filesystems/echfs.c): the first entry of a directory with a
-- name.
use drip_os.Prelude.{
  ℕ, zero, suc, ◌+◌, ◌≤◌, ◌<◌, ◌≡◌, ◌≢◌, ◌⊎◌, refl, sym, Bool, true, false, some, List, [], ◌∷◌,
  ◌++◌, if◌then◌else◌, ◌==◌, arith, inl, inr, Bool-cases, ==_iff, length, subst, false≢true,
}
use drip_os.Text.{Buffer, strcmp}
use drip_os.Text.Buffers.{IsText}
use drip_os.Text.Compare.{strcmp_iff}
use drip_os.Text.Paths.{IsName, IsName-IsText}
use drip_os.Echfs.Directory.{
  DirEntry, Directory, search_fail, name_matches, find_entry_from, find_entry_name_parent,
}

-- The search goes on behind entry `j`.
abbrev IsOther : Directory → Buffer → ℕ → ℕ → Type 0
IsOther dir name parent_id j =
    (name_matches (dir j) name parent_id ≡ some false) × ((dir j).parent_id ≢ 0)

find_entry_from-here :
    (dir : Directory) (fuel : ℕ) (name : Buffer) (parent_id k : ℕ) (found : Bool)
    → name_matches (dir k) name parent_id ≡ some found
    → (found ≡ true) ⊎ ((dir k).parent_id ≡ 0)
    → find_entry_from dir (suc fuel) name parent_id k ≡ some (if found then k else search_fail)
unfolding find_entry_from
find_entry_from-here dir fuel name parent k true at ends = rw at refl
find_entry_from-here dir fuel name parent k false at (inl e) = absurd (false≢true e)
find_entry_from-here dir fuel name parent k false at (inr e) = rw (at, (==_iff _ 0).1 e) refl

find_entry_from-first :
    (dir : Directory) (fuel : ℕ) (name : Buffer) (parent_id i k : ℕ) (found : Bool)
    → i ≤ k
    → k < i + fuel
    → ((j : ℕ) → i ≤ j → j < k → IsOther dir name parent_id j)
    → name_matches (dir k) name parent_id ≡ some found
    → (found ≡ true) ⊎ ((dir k).parent_id ≡ 0)
    → find_entry_from dir fuel name parent_id i ≡ some (if found then k else search_fail)
unfolding find_entry_from
find_entry_from-first dir zero name parent i k found lo hi passed at ends =
    absurd (omega (arith, lo, hi))
find_entry_from-first dir (suc fuel) name parent i k found lo hi passed at ends =
    elim (Bool-cases (i == k)) [
      | inl e ↦
          subst
            (λ j.
              find_entry_from dir (suc fuel) name parent j
              ≡ some (if found then k else search_fail))
            (sym ((==_iff i k).0 e)) (find_entry_from-here dir fuel name parent k found at ends)
      | inr e ↦
          let (other, more) = passed i (omega arith) (ground arith) in
          let on : ((dir i).parent_id == 0) ≡ false = ground (arith, more) in
          rw (other, on)
            (find_entry_from-first dir fuel name parent (i + 1) k found (ground arith)
              (omega (arith, hi)) (λ j lo' hi'. passed j (omega (arith, lo')) hi') at ends)
    ]

-- The search stops at the first entry that has the name and the parent, or whose parent is 0, and
-- gives its number in the first case and the failure value in the second, where all entries
-- before it are neither; fuel for these is enough.
find_entry_name_parent-first :
    (dir : Directory) (fuel : ℕ) (name : Buffer) (parent_id k : ℕ) (found : Bool)
    → k < fuel
    → ((j : ℕ) → j < k → IsOther dir name parent_id j)
    → name_matches (dir k) name parent_id ≡ some found
    → (found ≡ true) ⊎ ((dir k).parent_id ≡ 0)
    → find_entry_name_parent dir fuel name parent_id ≡ some (if found then k else search_fail)
unfolding find_entry_name_parent
find_entry_name_parent-first dir fuel name parent k found enough passed at ends =
    find_entry_from-first dir fuel name parent 0 k found (omega arith) (omega (arith, enough))
      (λ j lo hi. passed j hi) at ends

-- Entry `j` is not the end of the directory, and it belongs to another parent or has another name.
abbrev pub IsPassed : Directory → List ℕ → ℕ → ℕ → Type 0
IsPassed dir name parent_id j =
    ((dir j).parent_id ≢ 0)
    × (((dir j).parent_id ≢ parent_id)
        ⊎ ((other : List ℕ) × (rest : Buffer) × IsText other
            × ((dir j).name ≡ other ++ 0 ∷ rest)
            × (other ≢ name)))

-- Entry `k` is the first of the directory's entries with this name and this parent. What stands
-- behind the end of its name does not count.
pub record Found (dir : Directory) (entries : ℕ) (name : List ℕ) (parent_id k : ℕ) : Type 0 where
  pub proper : IsName name
  pub fits : length name < 201
  pub bounded : k < entries
  pub not_fail : k ≢ search_fail
  pub parent : (dir k).parent_id ≡ parent_id
  pub rest : Buffer
  pub named : (dir k).name ≡ name ++ 0 ∷ rest
  pub passed : (j : ℕ) → j < k → IsPassed dir name parent_id j

name_matches-same :
    (e : DirEntry) (name : List ℕ) (rest : Buffer) (parent_id : ℕ)
    → IsText name
    → e.parent_id ≡ parent_id
    → e.name ≡ name ++ 0 ∷ rest
    → name_matches e (name ++ 0 ∷ []) parent_id ≡ some true
unfolding name_matches
name_matches-same e name rest parent v up named =
    let same : (e.parent_id == parent) ≡ true = (==_iff _ _).1 up in
    rw (same, named, (strcmp_iff name name [] rest v v).0.1 refl) refl

name_matches-other :
    (e : DirEntry) (name other : List ℕ) (rest : Buffer) (parent_id : ℕ)
    → IsText name
    → IsText other
    → e.name ≡ other ++ 0 ∷ rest
    → other ≢ name
    → name_matches e (name ++ 0 ∷ []) parent_id ≡ some false
unfolding name_matches
name_matches-other e name other rest parent v w named ne =
    let differs : strcmp (name ++ 0 ∷ []) (other ++ 0 ∷ rest) ≡ some 1 =
      (strcmp_iff name other [] rest v w).1.1 (λ e. ne (sym e)) in
    elim (Bool-cases (e.parent_id == parent)) [
      | inl same ↦ rw (same, named, differs) refl
      | inr away ↦ rw away refl
    ]

name_matches-away :
    (e : DirEntry) (name : Buffer) (parent_id : ℕ)
    → e.parent_id ≢ parent_id
    → name_matches e name parent_id ≡ some false
unfolding name_matches
name_matches-away e name parent ne =
    let away : (e.parent_id == parent) ≡ false = ground (arith, ne) in rw away refl

IsPassed-IsOther :
    (dir : Directory) (name : List ℕ) (parent_id j : ℕ)
    → IsText name
    → IsPassed dir name parent_id j
    → IsOther dir (name ++ 0 ∷ []) parent_id j
IsPassed-IsOther dir name parent j v (more, inl away) =
    (name_matches-away (dir j) (name ++ 0 ∷ []) parent away, more)
IsPassed-IsOther dir name parent j v (more, inr (other, rest, w, named, ne)) =
    (name_matches-other (dir j) name other rest parent v w named ne, more)

pub find-Found :
    (dir : Directory) (entries : ℕ) (name : List ℕ) (parent_id k : ℕ)
    → Found dir entries name parent_id k
    → find_entry_name_parent dir entries (name ++ 0 ∷ []) parent_id ≡ some k
find-Found dir entries name parent k f =
    let v = IsName-IsText name f.proper in
    find_entry_name_parent-first dir entries (name ++ 0 ∷ []) parent k true f.bounded
      (λ j lt. IsPassed-IsOther dir name parent j v (f.passed j lt))
      (name_matches-same (dir k) name f.rest parent v f.parent f.named) (inl refl)
