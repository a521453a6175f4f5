-- ===== src/Text/Paths.antt =====
-- Taking paths apart at their last slash and joining them (src/klibc/string.c).
use drip_os.Prelude.{
  ℕ, zero, suc, ◌+◌, ◌-◌, ◌≤◌, ◌<◌, ◌≡◌, ◌≢◌, refl, sym, ap, false, some, List, [], ◌∷◌, ◌++◌, ◌==◌,
  arith, ◌>>=◌, length, length-append, drop, get_or, get_elem?, set,
}
use drip_os.Text.{
  Buffer, slash_before, last_slash, cut_at, path_remove_elem, get_path_elem, path_join,
}
use drip_os.Text.Buffers.{
  IsText, IsText-append, strlen-text, strcpy-text, strcat-text, append_assoc,
}

-- A path element: a text without a slash.
abbrev pub IsName : List ℕ → Type 0
IsName [] = Unit {0}
IsName (c ∷ cs) = (0 < c) × (c ≢ b'/') × IsName cs

pub IsName-IsText : (name : List ℕ) → IsName name → IsText name
IsName-IsText [] v = tt
IsName-IsText (c ∷ name) (pos, ne, v) = (pos, IsName-IsText name v)

-- A directory, a slash and a name.
abbrev pub joined : List ℕ → List ℕ → List ℕ
joined dir name = dir ++ b'/' ∷ name

joined-IsText : (dir name : List ℕ) → IsText dir → IsName name → IsText (joined dir name)
joined-IsText dir name v w = IsText-append dir (b'/' ∷ name) v (omega arith, IsName-IsText name w)

get_or-append : (xs ys : List ℕ) (i : ℕ) → get_or (xs ++ ys) (length xs + i) 0 ≡ get_or ys i 0
get_or-append [] ys i = ap (λ j. get_or ys j 0) (omega arith)
get_or-append (x ∷ xs) ys i =
    let next : length (x ∷ xs) + i ≡ suc (length xs + i) = omega arith in
    rw next (get_or-append xs ys i)

get_or-name :
    (name : List ℕ) (rest : Buffer) (i : ℕ)
    → IsName name
    → i < length name
    → (get_or (name ++ rest) i 0 == b'/') ≡ false
get_or-name [] rest i v h = absurd (omega (arith, h))
get_or-name (c ∷ name) rest zero (pos, ne, v) h = ground arith
get_or-name (c ∷ name) rest (suc i) (pos, ne, v) h = get_or-name name rest i v (omega (arith, h))

get_or-joined :
    (dir name : List ℕ) (rest : Buffer) (k : ℕ)
    → get_or (joined dir name ++ rest) (length dir + k) 0 ≡ get_or (b'/' ∷ (name ++ rest)) k 0
get_or-joined dir name rest k =
    rw (append_assoc dir (b'/' ∷ name) rest) (get_or-append dir (b'/' ∷ (name ++ rest)) k)

slash_before-here : (path : Buffer) (i : ℕ) → get_or path i 0 ≡ b'/' → slash_before path i ≡ some i
unfolding slash_before
slash_before-here path zero e = rw e refl
slash_before-here path (suc i) e = rw e refl

slash_before-joined :
    (dir name : List ℕ) (rest : Buffer) (k : ℕ)
    → IsName name
    → k ≤ length name
    → slash_before (joined dir name ++ rest) (length dir + k) ≡ some (length dir)
unfolding slash_before
slash_before-joined dir name rest zero v h =
    let here : length dir + 0 ≡ length dir = omega arith in
    let at = get_or-joined dir name rest 0 in
    rw here (slash_before-here (joined dir name ++ rest) (length dir) (rw here at at))
slash_before-joined dir name rest (suc k) v h =
    let next : length dir + suc k ≡ suc (length dir + k) = omega arith in
    let other : (get_or (joined dir name ++ rest) (suc (length dir + k)) 0 == b'/') ≡ false =
      rw (sym next, get_or-joined dir name rest (suc k))
        (get_or-name name rest k v (omega (arith, h))) in
    rw (next, slash_before, other) (slash_before-joined dir name rest k v (omega (arith, h)))

pub last_slash-joined :
    (dir name : List ℕ) (rest : Buffer)
    → IsText dir
    → IsName name
    → last_slash (joined dir name ++ 0 ∷ rest) ≡ some (length dir)
unfolding last_slash
last_slash-joined dir name rest v w =
    let last : length (joined dir name) ≡ suc (length dir + length name) =
      omega (arith, length-append dir (b'/' ∷ name)) in
    rw (strlen-text (joined dir name) rest (joined-IsText dir name v w), last)
      (slash_before-joined dir name (0 ∷ rest) (length name) w (omega arith))

-- What is left of the directory: at the root, the slash.
abbrev pub parent : List ℕ → List ℕ
parent [] = b'/' ∷ []
parent (c ∷ dir) = c ∷ dir

set-append : (xs ys : List ℕ) (y c : ℕ) → set (xs ++ y ∷ ys) (length xs) c ≡ xs ++ c ∷ ys
set-append [] ys y c = refl
set-append (x ∷ xs) ys y c = ap (λ l. x ∷ l) (set-append xs ys y c)

cut_at-joined :
    (dir name : List ℕ) (rest : Buffer)
    → (rest' : Buffer) × (cut_at (joined dir name ++ 0 ∷ rest) (length dir)
        ≡ parent dir ++ 0 ∷ rest')
cut_at-joined [] [] rest = (rest, refl)
cut_at-joined [] (c ∷ name) rest = (name ++ 0 ∷ rest, refl)
cut_at-joined (d ∷ dir) name rest = (
  name ++ 0 ∷ rest,
  let behind : (length (d ∷ dir) == 0) ≡ false = ground arith in
      rw (append_assoc (d ∷ dir) (b'/' ∷ name) (0 ∷ rest), behind)
        (set-append (d ∷ dir) (name ++ 0 ∷ rest) b'/' 0),
)

drop-joined :
    (dir name : List ℕ) (rest : Buffer)
    → drop (length dir + 1) (joined dir name ++ rest) ≡ name ++ rest
drop-joined [] name rest = refl
drop-joined (d ∷ dir) name rest =
    let next : length (d ∷ dir) + 1 ≡ suc (length dir + 1) = omega arith in
    rw next (drop-joined dir name rest)

-- On a path of a directory, a slash and a name, `get_path_elem` copies the name to the output, if
-- that has room for it, and leaves the directory, which for a path at the root is the slash.
pub get_path_elem-joined :
    (dir name : List ℕ) (rest output : Buffer)
    → IsText dir
    → IsName name
    → length name < length output
    → (rest' rest'' : Buffer) × (get_path_elem (joined dir name ++ 0 ∷ rest) output
        ≡ some (name ++ 0 ∷ rest', parent dir ++ 0 ∷ rest''))
      × (path_remove_elem (joined dir name ++ 0 ∷ rest) ≡ some (parent dir ++ 0 ∷ rest''))
unfolding get_path_elem path_remove_elem
get_path_elem-joined dir name rest output v w room =
    let (rest'', cut) = cut_at-joined dir name rest in
    let slash = last_slash-joined dir name rest v w in
    (
      drop (suc (length name)) output,
      rest'',
      rw
          (
            slash,
            drop-joined dir name (0 ∷ rest),
            strcpy-text name rest output (IsName-IsText name w) room,
            cut,
          )
          refl,
      rw (slash, cut) refl,
    )

get_elem?-last : (xs ys : List ℕ) (x : ℕ) → get_elem? (xs ++ x ∷ ys) (length xs) ≡ some x
get_elem?-last [] ys x = refl
get_elem?-last (y ∷ xs) ys x = get_elem?-last xs ys x

length-drop : (n : ℕ) (xs : List ℕ) → length (drop n xs) ≡ length xs - n
length-drop zero xs = omega arith
length-drop (suc n) [] = omega arith
length-drop (suc n) (x ∷ xs) = omega (arith, length-drop n xs)

-- Joining a name to a directory that does not end in a slash puts one slash between them.
pub path_join-joined :
    (dir name : List ℕ) (last first : ℕ) (rest rest' : Buffer)
    → IsText (dir ++ last ∷ [])
    → IsName (first ∷ name)
    → last ≢ b'/'
    → length name + 2 ≤ length rest
    → (rest'' : Buffer) × (path_join ((dir ++ last ∷ []) ++ 0 ∷ rest) ((first ∷ name) ++ 0 ∷ rest')
        ≡ some (joined (dir ++ last ∷ []) (first ∷ name) ++ 0 ∷ rest''))
unfolding path_join
path_join-joined dir name last first rest rest' v w ne room =
    let text = dir ++ last ∷ [] in
    let one : length text ≡ suc (length dir) = omega (arith, length-append dir (last ∷ [])) in
    let at : get_elem? (text ++ 0 ∷ rest) (length dir) ≡ some last =
      rw (append_assoc dir (last ∷ []) (0 ∷ rest)) (get_elem?-last dir (0 ∷ rest) last) in
    let apart : (last == b'/') ≡ false = ground (arith, ne) in
    let apart' : (first == b'/') ≡ false = ground (arith, w.1) in
    let slash_text : IsText (b'/' ∷ []) = (omega arith, tt) in
    let slashed = strcat-text text (b'/' ∷ []) rest [] v slash_text (omega (arith, room)) in
    let room' : length (first ∷ name) ≤ length (drop 1 rest) =
      omega (arith, length-drop 1 rest, room) in
    let whole =
      strcat-text (text ++ b'/' ∷ []) (first ∷ name) (drop 1 rest) rest'
        (IsText-append text (b'/' ∷ []) v slash_text) (IsName-IsText (first ∷ name) w) room' in
    (
      drop (length (first ∷ name)) (drop 1 rest),
      rw (strlen-text text rest v, one, at, ◌>>=◌, apart, apart', slashed, whole)
          (ap (λ t. some (t ++ 0 ∷ drop (length (first ∷ name)) (drop 1 rest)))
            (append_assoc text (b'/' ∷ []) (first ∷ name))),
    )
