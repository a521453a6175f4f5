-- ===== src/Vfs/Open/Elements.antt =====
-- The loop of `create_missing_nodes_from_path` (src/fs/vfs/vfs.c), element by element.
use drip_os.Prelude.{
  ℕ, ◌+◌, ◌<◌, ◌≡◌, ◌≢◌, refl, sym, ap, ◌∙◌, false, Option, some, List, [], ◌∷◌, ◌++◌, ◌==◌, arith,
  length, length-append, take,
}
use drip_os.Text.Buffers.{append_assoc, take-append}
use drip_os.Text.Paths.{IsName}
use drip_os.Vfs.{Text, Ops, Vfs, walk, get_node_from_path, same_name, join_split_path}
use drip_os.Vfs.FullPath.{get_node_from_path-join}
use drip_os.Vfs.Open.{last_byte, path_join, Missing, missing_byte, missing_from}
use drip_os.Vfs.Split.{IsElem, IsSplit, append_nil}

-- Elements of two bytes at least.
abbrev pub AreLong : List Text → Type 0
AreLong [] = Unit {0}
AreLong (name ∷ names) = IsElem name × (1 < length name) × AreLong names

pub AreLong-IsSplit : (names : List Text) → AreLong names → IsSplit names
AreLong-IsSplit [] v = tt
AreLong-IsSplit (name ∷ []) (elem, long, v) = (elem, long)
AreLong-IsSplit (name ∷ next ∷ names) (elem, long, v) = (elem, AreLong-IsSplit (next ∷ names) v)

pub AreLong-append :
    (names : List Text) (name : Text)
    → AreLong names
    → IsElem name
    → 1 < length name
    → AreLong (names ++ name ∷ [])
AreLong-append [] name v elem long = (elem, long, tt)
AreLong-append (n ∷ names) name (elem', long', v) elem long =
    (elem', long', AreLong-append names name v elem long)

-- The path of the elements so far.
abbrev pub path_of : List Text → Text
path_of [] = b'/' ∷ []
path_of (name ∷ names) = join_split_path (name ∷ names)

pub get_node_from_path-path_of :
    (v : Vfs) (names : List Text)
    → AreLong names
    → get_node_from_path v (path_of names) ≡ walk v v.root_node names
unfolding get_node_from_path same_name walk
get_node_from_path-path_of v [] long = refl
get_node_from_path-path_of v (name ∷ names) long =
    get_node_from_path-join v (name ∷ names) (AreLong-IsSplit (name ∷ names) long)

last_byte-append : (s t : Text) (c : ℕ) → last_byte (s ++ c ∷ t) ≡ last_byte (c ∷ t)
unfolding last_byte
last_byte-append [] t c = refl
last_byte-append (d ∷ []) t c = refl
last_byte-append (d ∷ e ∷ s) t c = last_byte-append (e ∷ s) t c

last_byte-name :
    (c : ℕ) (name : Text)
    → IsName (c ∷ name)
    → (d : ℕ) × (last_byte (c ∷ name) ≡ some d) × (d ≢ b'/')
unfolding last_byte
last_byte-name c [] (pos, ne, v) = (c, refl, ne)
last_byte-name c (d ∷ name) (pos, ne, v) = last_byte-name d name v

pub last_byte-join :
    (name : Text) (names : List Text)
    → AreLong (name ∷ names)
    → (d : ℕ) × (last_byte (join_split_path (name ∷ names)) ≡ some d) × (d ≢ b'/')
unfolding join_split_path last_byte
last_byte-join [] names (elem, long, v) = absurd elem
last_byte-join (c ∷ name) [] (elem, long, v) = rw (append_nil name) (last_byte-name c name elem)
last_byte-join (c ∷ name) (next ∷ names) (elem, long, v) =
    let (d, last, ne) = last_byte-join next names v in
    (d, last_byte-append (b'/' ∷ c ∷ name) (next ++ join_split_path names) b'/' ∙ last, ne)

join-append :
    (xs ys : List Text) → join_split_path (xs ++ ys) ≡ join_split_path xs ++ join_split_path ys
unfolding join_split_path
join-append [] ys = refl
join-append (x ∷ xs) ys =
    ap (λ t. b'/' ∷ t)
      (ap (λ t. x ++ t) (join-append xs ys)
        ∙ sym (append_assoc x (join_split_path xs) (join_split_path ys)))

pub path_join-path_of :
    (names : List Text) (name : Text)
    → AreLong names
    → IsElem name
    → path_join (path_of names) name ≡ some (path_of (names ++ name ∷ []))
unfolding path_join last_byte join_split_path
path_join-path_of names [] long elem = absurd elem
path_join-path_of [] (c ∷ name) long elem = ap (λ t. some (b'/' ∷ c ∷ t)) (sym (append_nil name))
path_join-path_of (n ∷ names) (c ∷ name) long (pos, ne, v) =
    let (d, last, ne_d) = last_byte-join n names long in
    let apart_d : (d == b'/') ≡ false = ground (arith, ne_d) in
    let apart_c : (c == b'/') ≡ false = ground (arith, ne) in
    let whole : join_split_path ((n ∷ names) ++ (c ∷ name) ∷ [])
        ≡ join_split_path (n ∷ names) ++ b'/' ∷ c ∷ name =
      join-append (n ∷ names) ((c ∷ name) ∷ [])
      ∙ ap (λ t. join_split_path (n ∷ names) ++ b'/' ∷ c ∷ t) (append_nil name) in
    rw (last, apart_d, apart_c) (ap some (sym whole))

-- The bytes of an element go into the buffer.
missing_from-name :
    (ops : Ops) (fs_root : Option ℕ) (pre name rest : Text) (s : Missing)
    → IsName name
    → missing_from ops fs_root (name ++ rest) (record s { index = length pre; temp_buffer = pre })
      ≡ missing_from ops fs_root rest
          (record s { index = length (pre ++ name); temp_buffer = pre ++ name })
unfolding missing_from missing_byte
missing_from-name ops fs_root pre [] rest s v = rw (append_nil pre) refl
missing_from-name ops fs_root pre (c ∷ name) rest s (pos, ne, v) =
    let apart : (c == b'/') ≡ false = ground (arith, ne) in
    let whole : take (length pre) pre ≡ pre =
      ap (take (length pre)) (sym (append_nil pre)) ∙ take-append pre [] in
    let one : length pre + 1 ≡ length (pre ++ c ∷ []) = omega (arith, length-append pre (c ∷ [])) in
    rw (apart, whole, one, sym (append_assoc pre (c ∷ []) name))
      (missing_from-name ops fs_root (pre ++ c ∷ []) name rest s v)

pub missing_from-elem :
    (ops : Ops) (fs_root : Option ℕ) (name rest : Text) (s : Missing)
    → IsElem name
    → s.index ≡ 0
    → missing_from ops fs_root (name ++ rest) s
      ≡ missing_from ops fs_root rest (record s { index = length name; temp_buffer = name })
unfolding missing_from missing_byte
missing_from-elem ops fs_root [] rest s elem e = absurd elem
missing_from-elem ops fs_root (c ∷ name) rest s (pos, ne, v) e =
    let apart : (c == b'/') ≡ false = ground (arith, ne) in
    rw (apart, e) (missing_from-name ops fs_root (c ∷ []) name rest s v)
