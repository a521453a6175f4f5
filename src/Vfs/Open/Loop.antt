-- ===== src/Vfs/Open/Loop.antt =====
-- `create_missing_nodes_from_path` (src/fs/vfs/vfs.c) makes a path resolve.
use drip_os.Prelude.{
  ◌⊎◌, ℕ, ◌≡◌, refl, sym, ap, ◌∙◌, true, false, Option, none, some, subst, List, [], ◌∷◌, ◌++◌,
  ◌==◌, arith, length,
}
use drip_os.Vfs.{Text, Ops, Vfs, get_node_from_path, join_split_path}
use drip_os.Vfs.Open.{
  path_join, cut_path, Missing, add_missing, next_missing, missing_slash, missing_from,
  create_missing_nodes_from_path,
}
use drip_os.Vfs.Open.Create.{
  KeepsFirst, KeepsFirst-trans, Keeps, Keeps-trans, Under-node, Stepped, add_under-Stepped,
}
use drip_os.Vfs.Open.Elements.{
  AreLong, AreLong-append, path_of, get_node_from_path-path_of, last_byte-join, path_join-path_of,
  missing_from-elem,
}
use drip_os.Vfs.Split.{IsElem, snoc_cons}
use drip_os.Vfs.Walk.{IsVfs, Under, here, down, walk-Under}

pub Under-append :
    (v : Vfs) (a b c : ℕ) (xs ys : List Text)
    → Under v a xs b
    → Under v b ys c
    → Under v a (xs ++ ys) c
Under-append v a b c xs ys (here _) under = under
Under-append v a b c xs ys (down _ i d m xs' _ h first) under =
    down a i d m (xs' ++ ys) c h (Under-append v d b c xs' ys first under)

-- The loop between two elements: the names done lead to a node of the tree.
record Ready (s : Missing) (done : List Text) (cur : ℕ) : Type 0 where
  well_formed : IsVfs s.vfs
  long : AreLong done
  full_path : s.current_full_path ≡ path_of done
  under : Under s.vfs s.vfs.root_node done cur

add_missing-Stepped :
    (ops : Ops) (fs_root : Option ℕ) (done : List Text) (cur : ℕ) (s : Missing)
    → Ready s done cur
    → IsElem s.temp_buffer
    → (s' : Missing) × (add_missing ops fs_root s ≡ some (true, s')) × Stepped s cur s'
unfolding add_missing
add_missing-Stepped ops fs_root done cur s ready elem =
    let (r, at_r) = ready.well_formed.root in
    let (n, at) = Under-node s.vfs s.vfs.root_node cur r done at_r ready.under in
    let (s', e, stepped) = add_under-Stepped ops fs_root cur n s ready.well_formed at elem in
    let found : get_node_from_path s.vfs s.current_full_path ≡ some (some cur) =
      ap (get_node_from_path s.vfs) ready.full_path
      ∙ get_node_from_path-path_of s.vfs done ready.long
      ∙ walk-Under s.vfs s.vfs.root_node cur done ready.well_formed ready.under in
    (s', rw (found, e) refl, stepped)

-- What the rest of the loop does: the names still to come lead to a node.
record Finished (s : Missing) (names : List Text) (s' : Missing) : Type 0 where
  keeps : Keeps s.vfs s'.vfs
  end : ℕ
  under : Under s'.vfs s'.vfs.root_node names end
  keeps_first : KeepsFirst s s'

-- The end of an element, with its name behind those done.
Stepped-under :
    (done : List Text) (cur : ℕ) (s s' : Missing)
    → Ready s done cur
    → (stepped : Stepped s cur s')
    → Under s'.vfs s'.vfs.root_node (done ++ s.temp_buffer ∷ []) stepped.end
Stepped-under done cur s s' ready stepped =
    subst (λ r. Under s'.vfs r (done ++ s.temp_buffer ∷ []) stepped.end) (sym stepped.keeps.root)
      (Under-append s'.vfs s.vfs.root_node cur stepped.end done (s.temp_buffer ∷ [])
        (stepped.keeps.under s.vfs.root_node cur done ready.under) stepped.child)

missing_from-Finished :
    (ops : Ops) (fs_root : Option ℕ) (done : List Text) (cur : ℕ) (name : Text) (names : List Text)
    (s : Missing)
    → Ready s done cur
    → s.index ≡ 0
    → AreLong (name ∷ names)
    → (s' : Missing) × (missing_from ops fs_root (name ++ join_split_path names) s ≡ some s')
      × Finished s (done ++ name ∷ names) s'
unfolding missing_from join_split_path missing_slash next_missing
missing_from-Finished ops fs_root done cur name [] s ready start (elem, long, v) =
    let filled = record s { index = length name; temp_buffer = name } in
    let ready' : Ready filled done cur = record {
      well_formed = ready.well_formed;
      long = ready.long;
      full_path = ready.full_path;
      under = ready.under;
    } in
    let (s', e, stepped) = add_missing-Stepped ops fs_root done cur filled ready' elem in
    (
      s',
      missing_from-elem ops fs_root name [] s elem start ∙ rw e refl,
      record {
        keeps = stepped.keeps;
        end = stepped.end;
        under = Stepped-under done cur filled s' ready' stepped;
        keeps_first = record { kept = stepped.keeps_first.kept; made = stepped.keeps_first.made };
      },
    )
missing_from-Finished ops fs_root done cur name (next ∷ names) s ready start (elem, long, v) =
    let filled = record s { index = length name; temp_buffer = name } in
    let ready' : Ready filled done cur = record {
      well_formed = ready.well_formed;
      long = ready.long;
      full_path = ready.full_path;
      under = ready.under;
    } in
    let (s1, e, stepped) = add_missing-Stepped ops fs_root done cur filled ready' elem in
    let s2 = record s1 { index = 0; current_full_path = path_of (done ++ name ∷ []) } in
    let joined : path_join s1.current_full_path s1.temp_buffer
        ≡ some (path_of (done ++ name ∷ [])) =
      rw (stepped.current_full_path, stepped.temp_buffer, ready.full_path)
        (path_join-path_of done name ready.long elem) in
    let ready2 : Ready s2 (done ++ name ∷ []) stepped.end = record {
      well_formed = stepped.keeps.well_formed;
      long = AreLong-append done name ready.long elem long;
      full_path = refl;
      under = Stepped-under done cur filled s1 ready' stepped;
    } in
    let (s', e', finished) =
      missing_from-Finished ops fs_root (done ++ name ∷ []) stepped.end next names s2 ready2 refl
        v in
    (
      s',
      missing_from-elem ops fs_root name (b'/' ∷ (next ++ join_split_path names)) s elem start
          ∙ rw (e, joined) e',
      record {
        keeps = Keeps-trans s.vfs s1.vfs s'.vfs stepped.keeps finished.keeps;
        end = finished.end;
        under = rw (sym (snoc_cons done name (next ∷ names))) finished.under;
        keeps_first =
            KeepsFirst-trans s s1 s'
              (record { kept = stepped.keeps_first.kept; made = stepped.keeps_first.made })
              (record { kept = finished.keeps_first.kept; made = finished.keeps_first.made });
      },
    )

-- On a well-formed tree, and a path of elements of two bytes at least,
-- `create_missing_nodes_from_path` never fails: afterwards the path leads to a node, and
-- `get_node_from_path` finds it; the tree is well formed, and all paths lead where they led; and
-- either the tree is the same and no node is handed back, or the first node that was created is,
-- whose number is the next that had not been given out.
pub create_missing_nodes_from_path-finds :
    (v : Vfs) (name : Text) (names : List Text) (ops : Ops) (fs_root : Option ℕ)
    → IsVfs v
    → AreLong (name ∷ names)
    → (first : Option ℕ) × (v' : Vfs) × (b : ℕ) × (create_missing_nodes_from_path
          (join_split_path (name ∷ names))
          ops
          fs_root
          v
        ≡ some (first, v'))
      × Keeps v v'
      × Under v' v'.root_node (name ∷ names) b
      × (get_node_from_path v' (join_split_path (name ∷ names)) ≡ some (some b))
      × (((first ≡ none) × (v' ≡ v)) ⊎ (first ≡ some v.next_node))
unfolding create_missing_nodes_from_path cut_path join_split_path
create_missing_nodes_from_path-finds v name names ops fs_root w long =
    let (d, last, ne) = last_byte-join name names long in
    let apart : (d == b'/') ≡ false = ground (arith, ne) in
    let start : Missing = record {
      index = 0;
      temp_buffer = [];
      current_full_path = b'/' ∷ [];
      first_missing = none;
      vfs = v;
    } in
    let ready : Ready start [] v.root_node = record {
      well_formed = w;
      long = tt;
      full_path = refl;
      under = here v.root_node;
    } in
    let (s', e, finished) =
      missing_from-Finished ops fs_root [] v.root_node name names start ready refl long in
    (
      s'.first_missing,
      s'.vfs,
      finished.end,
      rw (last, apart, e) refl,
      finished.keeps,
      finished.under,
      get_node_from_path-path_of s'.vfs (name ∷ names) long
          ∙ walk-Under s'.vfs s'.vfs.root_node finished.end (name ∷ names)
              finished.keeps.well_formed finished.under,
      finished.keeps_first.made refl,
    )
