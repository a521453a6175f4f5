-- ===== src/Echfs/Directory/Names.antt =====
-- `echfs_path_resolve` (src/fs/filesystems/echfs.c): what the search for a path finds.
use drip_os.Prelude.{
  ℕ, zero, suc, ◌+◌, ◌<◌, ◌≡◌, ◌≢◌, refl, sym, ap, true, false, some, List, [], ◌∷◌, ◌++◌, ◌==◌,
  arith, length, subst, get_or,
}
use drip_os.Echfs.Directory.Search.{Found, find-Found}
use drip_os.Text.{Buffer, strcmp}
use drip_os.Text.Buffers.{IsText, IsText-append, append_assoc}
use drip_os.Text.Compare.{strcmp_iff}
use drip_os.Text.Paths.{IsName, IsName-IsText}
use drip_os.Echfs.Directory.{
  DirEntry, Directory, search_fail, root_dir_id, type_dir, element, with_char, next_element,
  Resolved, resolved, go_on, resolve_from, path_resolve,
}

-- An element is what stands before the next slash, or before the end.
next_element-slash :
    (i : ℕ) (name : List ℕ) (filename : Buffer)
    → IsName name
    → i + length name < 201
    → next_element i (name ++ b'/' ∷ filename) ≡ some (element name false filename)
unfolding next_element with_char
next_element-slash i [] filename v h = refl
next_element-slash i (c ∷ name) filename (pos, ne, v) h =
    let rest = next_element-slash (i + 1) name filename v (omega (arith, h)) in
    let a : (c == b'/') ≡ false = ground (arith, ne) in
    let b : (c == 0) ≡ false = ground (arith, pos) in
    let d : (i + 1 == 201) ≡ false = ground (arith, h) in rw (a, b, d, rest) refl

next_element-end :
    (i : ℕ) (name : List ℕ) (filename : Buffer)
    → IsName name
    → i + length name < 201
    → next_element i (name ++ 0 ∷ filename) ≡ some (element name true filename)
unfolding next_element with_char
next_element-end i [] filename v h = refl
next_element-end i (c ∷ name) filename (pos, ne, v) h =
    let rest = next_element-end (i + 1) name filename v (omega (arith, h)) in
    let a : (c == b'/') ≡ false = ground (arith, ne) in
    let b : (c == 0) ≡ false = ground (arith, pos) in
    let d : (i + 1 == 201) ≡ false = ground (arith, h) in rw (a, b, d, rest) refl

-- Following names from a directory down: each but the last is a directory.
abbrev pub Walk : Directory → ℕ → ℕ → List ℕ → List (List ℕ) → DirEntry → Type 0
Walk dir entries parent_id name [] e =
    (k : ℕ) × Found dir entries name parent_id k × (e ≡ record (dir k) { entry_number = k })
Walk dir entries parent_id name (next ∷ more) e =
    (k : ℕ) × Found dir entries name parent_id k
    × ((dir k).entry_type ≡ type_dir)
    × Walk dir entries (dir k).starting_block next more e

-- The names with slashes between them.
abbrev pub joined : List ℕ → List (List ℕ) → List ℕ
joined name [] = name
joined name (next ∷ more) = name ++ b'/' ∷ joined next more

resolve_from-Walk :
    (dir : Directory) (entries fuel parent_id : ℕ) (name : List ℕ) (more : List (List ℕ))
    (e : DirEntry) (rest : Buffer)
    → Walk dir entries parent_id name more e
    → length more < fuel
    → resolve_from dir entries fuel (joined name more ++ 0 ∷ rest) parent_id ≡ some (resolved e)
unfolding resolve_from go_on
resolve_from-Walk dir entries zero parent name more e rest w h = absurd (omega (arith, h))
resolve_from-Walk dir entries (suc fuel) parent name [] e rest (k, f, same) h =
    let ne : (k == search_fail) ≡ false = ground (arith, f.not_fail) in
    rw
      (
        next_element-end 0 name rest f.proper (omega (arith, f.fits)),
        find-Found dir entries name parent k f,
        ne,
      )
      (ap (λ x. some (resolved x)) (sym same))
resolve_from-Walk dir entries (suc fuel) parent name (next ∷ more) e rest (k, f, is_dir, w) h =
    let ne : (k == search_fail) ≡ false = ground (arith, f.not_fail) in
    rw
      (
        append_assoc name (b'/' ∷ joined next more) (0 ∷ rest),
        next_element-slash 0 name (joined next more ++ 0 ∷ rest) f.proper (omega (arith, f.fits)),
        find-Found dir entries name parent k f,
        ne,
        is_dir,
      )
      (resolve_from-Walk dir entries fuel (dir k).starting_block next more e rest w
        (omega (arith, h)))

joined-IsText :
    (dir : Directory) (entries parent_id : ℕ) (name : List ℕ) (more : List (List ℕ)) (e : DirEntry)
    → Walk dir entries parent_id name more e
    → IsText (joined name more)
joined-IsText dir entries parent name [] e (k, f, same) = IsName-IsText name f.proper
joined-IsText dir entries parent name (next ∷ more) e (k, f, is_dir, w) =
    IsText-append name (b'/' ∷ joined next more) (IsName-IsText name f.proper)
      (omega arith, joined-IsText dir entries (dir k).starting_block next more e w)

-- A text that does not start with a slash is not `"/"`.
not_root :
    (c : ℕ) (text : List ℕ) (rest : Buffer)
    → c ≢ b'/'
    → IsText (c ∷ text)
    → strcmp ((c ∷ text) ++ 0 ∷ rest) (b'/' ∷ 0 ∷ []) ≡ some 1
not_root c text rest ne v =
    (strcmp_iff (c ∷ text) (b'/' ∷ []) rest [] v (omega arith, tt)).1.1
      (λ e. ne (ap (λ l. get_or l 0 0) e))

joined-first :
    (name : List ℕ) (more : List (List ℕ))
    → IsName name
    → 0 < length name
    → (c : ℕ) × (text : List ℕ) × (joined name more ≡ c ∷ text) × (c ≢ b'/')
joined-first [] more v h = absurd (omega (arith, h))
joined-first (c ∷ name) [] (pos, ne, v) h = (c, name, refl, ne)
joined-first (c ∷ name) (next ∷ more) (pos, ne, v) h =
    (c, name ++ b'/' ∷ joined next more, refl, ne)

Walk-first :
    (dir : Directory) (entries parent_id : ℕ) (name : List ℕ) (more : List (List ℕ)) (e : DirEntry)
    → Walk dir entries parent_id name more e
    → IsName name
Walk-first dir entries parent name [] e (k, f, same) = f.proper
Walk-first dir entries parent name (next ∷ more) e (k, f, is_dir, w) = f.proper

resolved_path :
    (dir : Directory) (entries fuel c : ℕ) (text : List ℕ) (rest : Buffer) (r : Resolved)
    → c ≢ b'/'
    → IsText (c ∷ text)
    → resolve_from dir entries fuel (c ∷ text ++ 0 ∷ rest) root_dir_id ≡ some r
    → path_resolve dir entries fuel (b'/' ∷ c ∷ text ++ 0 ∷ rest) ≡ some r
unfolding path_resolve
resolved_path dir entries fuel c text rest r ne v runs = rw (not_root c text rest ne v) runs

-- For `unid` 0, which does not consult the cache of entries: a path with a slash before each of its
-- names, the first of them not empty, resolves to the entry at the end of the walk along these names
-- from the root directory, with the number of that entry filled in. Each name, of at most 200 bytes,
-- is that of the first entry of the directory with the name and with the entry before as its parent,
-- and each entry but the last is a directory; no entry up to there has parent 0, which ends the
-- directory, and no entry's number is the one that stands for a failed search. Fuel for the names
-- and for the entries of the directory is enough.
pub path_resolve-Walk :
    (dir : Directory) (entries fuel : ℕ) (name : List ℕ) (more : List (List ℕ)) (e : DirEntry)
    (rest : Buffer)
    → Walk dir entries root_dir_id name more e
    → 0 < length name
    → length more < fuel
    → path_resolve dir entries fuel (b'/' ∷ joined name more ++ 0 ∷ rest) ≡ some (resolved e)
path_resolve-Walk dir entries fuel name more e rest w h enough =
    let (c, text, same, ne) =
      joined-first name more (Walk-first dir entries root_dir_id name more e w) h in
    let v : IsText (c ∷ text) =
      subst IsText same (joined-IsText dir entries root_dir_id name more e w) in
    let runs = resolve_from-Walk dir entries fuel root_dir_id name more e rest w enough in
    subst (λ l. path_resolve dir entries fuel (b'/' ∷ l ++ 0 ∷ rest) ≡ some (resolved e)) (sym same)
      (resolved_path dir entries fuel c text rest (resolved e) ne v (
        subst (λ l. resolve_from dir entries fuel (l ++ 0 ∷ rest) root_dir_id ≡ some (resolved e))
          same runs))
