-- ===== src/Vfs/Split.antt =====
-- `split_path_elements` (src/fs/vfs/vfs.c) takes a path apart at its slashes.
use drip_os.Prelude.{
  ℕ, ◌<◌, ◌≡◌, ◌≢◌, refl, ap, ◌∙◌, true, false, none, some, List, [], ◌∷◌, ◌++◌, ◌==◌, arith,
  length,
}
use drip_os.Text.Buffers.{append_assoc}
use drip_os.Text.Paths.{IsName}
use drip_os.Vfs.{
  Text, has_more, append_last, split_step, split_from, split_path_elements, join_split_path,
}

-- An element of a path: a name of at least one byte.
abbrev pub IsElem : Text → Type 0
IsElem [] = ⊥
IsElem (c ∷ name) = IsName (c ∷ name)

-- Elements of a path, the last of which has two bytes at least.
abbrev pub IsSplit : List Text → Type 0
IsSplit [] = Unit {0}
IsSplit (name ∷ []) = IsElem name × (1 < length name)
IsSplit (name ∷ next ∷ names) = IsElem name × IsSplit (next ∷ names)

pub append_last-last :
    (output : List Text) (s : Text) (c : ℕ)
    → append_last c (output ++ s ∷ []) ≡ some (output ++ (s ++ c ∷ []) ∷ [])
unfolding append_last
append_last-last [] s c = refl
append_last-last (t ∷ []) s c = refl
append_last-last (t ∷ u ∷ output) s c = rw (append_last-last (u ∷ output) s c) refl

pub append_nil : (s : Text) → s ++ [] ≡ s
append_nil [] = refl
append_nil (c ∷ s) = ap (λ t. c ∷ t) (append_nil s)

pub snoc_cons :
    (output : List Text) (s : Text) (names : List Text)
    → (output ++ s ∷ []) ++ names ≡ output ++ s ∷ names
snoc_cons [] s names = refl
snoc_cons (t ∷ output) s names = ap (λ l. t ∷ l) (snoc_cons output s names)

-- The bytes of a name, once its element has been started.
split_from-name :
    (output : List Text) (s name rest : Text)
    → IsName name
    → split_from false (output ++ s ∷ []) (name ++ rest)
      ≡ split_from false (output ++ (s ++ name) ∷ []) rest
unfolding split_from split_step
split_from-name output s [] rest v = rw (append_nil s) refl
split_from-name output s (c ∷ name) rest (pos, ne, v) =
    let apart : (c == b'/') ≡ false = ground arith in
    rw (split_step, apart, append_last-last output s c, ← append_assoc s (c ∷ []) name)
      (split_from-name output (s ++ c ∷ []) name rest v)

-- A name that has another byte behind its first starts an element.
split_from-elem :
    (output : List Text) (c : ℕ) (name rest : Text)
    → IsName (c ∷ name)
    → has_more (name ++ rest) ≡ true
    → split_from true output (c ∷ name ++ rest) ≡ split_from false (output ++ (c ∷ name) ∷ []) rest
unfolding split_from split_step
split_from-elem output c name rest (pos, ne, v) more =
    let apart : (c == b'/') ≡ false = ground arith in
    rw (split_step, more, apart, append_last-last output [] c)
      (split_from-name output (c ∷ []) name rest v)

has_more-join :
    (name next : Text) (names : List Text)
    → has_more (name ++ join_split_path (next ∷ names)) ≡ true
unfolding join_split_path
has_more-join [] next names = refl
has_more-join (c ∷ name) next names = refl

-- Elements are kept apart, however many.
split_from-join :
    (output : List Text) (s : Text) (names : List Text)
    → IsSplit names
    → split_from false (output ++ s ∷ []) (join_split_path names) ≡ some (output ++ s ∷ names)
unfolding split_from join_split_path split_step
split_from-join output s [] v = refl
split_from-join output s ([] ∷ []) (v, long) = absurd v
split_from-join output s ([] ∷ next ∷ names) (v, w) = absurd v
split_from-join output s ((c ∷ d ∷ name) ∷ []) (v, long) =
    split_from-elem (output ++ s ∷ []) c (d ∷ name) [] v refl
    ∙ rw (snoc_cons output s ((c ∷ d ∷ name) ∷ [])) refl
split_from-join output s ((c ∷ []) ∷ []) (v, long) = absurd (omega (arith, long))
split_from-join output s ((c ∷ name) ∷ next ∷ names) (v, w) =
    split_from-elem (output ++ s ∷ []) c name (join_split_path (next ∷ names)) v
      (has_more-join name next names)
    ∙ split_from-join (output ++ s ∷ []) (c ∷ name) (next ∷ names) w
    ∙ ap some (snoc_cons output s ((c ∷ name) ∷ next ∷ names))

-- A path of elements behind slashes is taken apart into these elements, if the last of them has
-- two bytes at least.
pub split_path_elements-join :
    (names : List Text) → IsSplit names → split_path_elements (join_split_path names) ≡ some names
unfolding split_path_elements split_from join_split_path
split_path_elements-join [] v = refl
split_path_elements-join ([] ∷ []) (v, long) = absurd v
split_path_elements-join ([] ∷ next ∷ names) (v, w) = absurd v
split_path_elements-join ((c ∷ []) ∷ []) (v, long) = absurd (omega (arith, long))
split_path_elements-join ((c ∷ d ∷ name) ∷ []) (v, long) = split_from-elem [] c (d ∷ name) [] v refl
split_path_elements-join ((c ∷ name) ∷ next ∷ names) (v, w) =
    split_from-elem [] c name (join_split_path (next ∷ names)) v (has_more-join name next names)
    ∙ split_from-join [] (c ∷ name) (next ∷ names) w

-- Elements of a path, of any length.
abbrev pub IsElems : List Text → Type 0
IsElems [] = Unit {0}
IsElems (name ∷ names) = IsElem name × IsElems names

has_more-append : (name rest : Text) → has_more rest ≡ true → has_more (name ++ rest) ≡ true
has_more-append [] rest more = more
has_more-append (c ∷ name) rest more = refl

has_more-join_before :
    (names : List Text) (rest : Text)
    → has_more rest ≡ true
    → has_more (join_split_path names ++ rest) ≡ true
unfolding join_split_path
has_more-join_before [] rest more = more
has_more-join_before (name ∷ names) rest more = refl

split_from-elems :
    (output : List Text) (s : Text) (names : List Text) (rest : Text)
    → IsElems names
    → has_more rest ≡ true
    → split_from false (output ++ s ∷ []) (join_split_path names ++ rest)
      ≡ split_from false (output ++ s ∷ names) rest
unfolding split_from join_split_path split_step
split_from-elems output s [] rest v more = refl
split_from-elems output s ([] ∷ names) rest (v, w) more = absurd v
split_from-elems output s ((c ∷ name) ∷ names) rest (v, w) more =
    rw (append_assoc name (join_split_path names) rest) (
      split_from-elem (output ++ s ∷ []) c name (join_split_path names ++ rest) v
        (has_more-append name _ (has_more-join_before names rest more)))
    ∙ split_from-elems (output ++ s ∷ []) (c ∷ name) names rest w more
    ∙ ap (λ l. split_from false l rest) (snoc_cons output s ((c ∷ name) ∷ names))

split_from-first :
    (name : Text) (names : List Text) (rest : Text)
    → IsElems (name ∷ names)
    → has_more rest ≡ true
    → split_path_elements (join_split_path (name ∷ names) ++ rest)
      ≡ split_from false (name ∷ names) rest
unfolding split_path_elements join_split_path
split_from-first [] names rest (v, w) more = absurd v
split_from-first (c ∷ name) names rest (v, w) more =
    rw (append_assoc name (join_split_path names) rest) (
      split_from-elem [] c name (join_split_path names ++ rest) v
        (has_more-append name _ (has_more-join_before names rest more)))
    ∙ split_from-elems [] (c ∷ name) names rest w more

split_from-byte :
    (output : List Text) (s : Text) (c : ℕ)
    → c ≢ b'/'
    → split_from false (output ++ s ∷ []) (b'/' ∷ c ∷ []) ≡ some (output ++ (s ++ c ∷ []) ∷ [])
unfolding split_from split_step
split_from-byte output s c ne =
    let apart : (c == b'/') ≡ false = ground arith in
    rw (split_step, apart, append_last-last output s c) refl

split_from-byte_first :
    (names : List Text) (name : Text) (c : ℕ)
    → IsElems (names ++ name ∷ [])
    → split_path_elements (join_split_path (names ++ name ∷ []) ++ b'/' ∷ c ∷ [])
      ≡ split_from false (names ++ name ∷ []) (b'/' ∷ c ∷ [])
split_from-byte_first [] name c v = split_from-first name [] (b'/' ∷ c ∷ []) v refl
split_from-byte_first (n ∷ names) name c v =
    split_from-first n (names ++ name ∷ []) (b'/' ∷ c ∷ []) v refl

-- On a path whose last element is a single byte, this byte ends up behind the element before it;
-- without an element before it, the byte is written in front of the array.
pub split_path_elements-single :
    (names : List Text) (name : Text) (c : ℕ)
    → IsElems (names ++ name ∷ [])
    → IsElem (c ∷ [])
    → (split_path_elements (join_split_path (names ++ name ∷ []) ++ b'/' ∷ c ∷ [])
        ≡ some (names ++ (name ++ c ∷ []) ∷ []))
      × (split_path_elements (b'/' ∷ c ∷ []) ≡ none)
unfolding split_path_elements split_from split_step append_last
split_path_elements-single names name c v (pos, ne, w) =
    let apart : (c == b'/') ≡ false = ground arith in
    (
      split_from-byte_first names name c v ∙ split_from-byte names name c ne,
      rw (split_step, apart) refl,
    )
