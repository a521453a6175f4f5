-- ===== src/Text.antt =====
-- src/klibc/string.c: texts in buffers. A buffer is the list of the bytes from a pointer to the end
-- of the memory behind it; an access past its end, or in front of it, is `none`.
pub mod Buffers
pub mod Compare
pub mod Reverse
pub mod Numbers
pub mod Paths
mod Tests
use drip_os.Prelude.{
  ℕ, zero, suc, ◌+◌, ◌-◌, ◌*◌, ◌/◌, ◌%◌, ◌^◌, Bool, true, false, ◌||◌, ◌&&◌, not, Option, none,
  some, List, [], ◌∷◌, ◌++◌, if◌then◌else◌, ◌==◌, ltb, add64, ◌>>=◌, length, get_elem?, get_or, set,
  take, drop,
}

abbrev pub Buffer : Type 0
Buffer = List ℕ

-- `while (str[len++] != '\0')`
unfoldable pub strlen : Buffer → Option ℕ
strlen [] = none
strlen (c ∷ str) =
    let rest : Option ℕ = (do n ← strlen str; some (suc n)) in if c == 0 then some 0 else rest

-- Writing bytes from the start of a buffer on.
unfoldable pub put : List ℕ → Buffer → Option Buffer
put [] dst = some dst
put (c ∷ src) [] = none
put (c ∷ src) (d ∷ dst) = do dst' ← put src dst; some (c ∷ dst')

-- The first bytes of a buffer.
unfoldable pub get : ℕ → Buffer → Option (List ℕ)
get zero src = some []
get (suc n) [] = none
get (suc n) (c ∷ src) = do bytes ← get n src; some (c ∷ bytes)

-- `memcpy`, where the two buffers do not overlap.
pub memcpy : Buffer → Buffer → ℕ → Option Buffer
memcpy src dst count = do bytes ← get count src; put bytes dst

pub strcpy : Buffer → Buffer → Option Buffer
strcpy src dst = do len ← strlen src; bytes ← get len src; put (bytes ++ 0 ∷ []) dst

-- The loop of `strcmp`.
unfoldable pub compare_from : Buffer → Buffer → Option ℕ
compare_from [] s2 = none
compare_from (c ∷ s1) [] = none
compare_from (c ∷ s1) (d ∷ s2) =
    let rest = compare_from s1 s2 in
    if (c == 0) || (d == 0) then some 0 else if not (c == d) then some 1 else rest

unfoldable pub strcmp : Buffer → Buffer → Option ℕ
strcmp s1 s2 = do
  n1 ← strlen s1
  n2 ← strlen s2
  if not (n1 == n2) then some 1 else compare_from s1 s2

pub strcat : Buffer → Buffer → Option Buffer
strcat dst src = do
  end ← strlen dst
  len ← strlen src
  bytes ← get len src
  written ← put (bytes ++ 0 ∷ []) (drop end dst)
  some (take end dst ++ written)

-- The loop of `reverse`, with a round for each pair of indices.
pub swap_from : ℕ → Buffer → ℕ → ℕ → Buffer
swap_from zero str start_index end_index = str
swap_from (suc n) str start_index end_index =
    let swapped =
      set (set str start_index (get_or str end_index 0)) end_index (get_or str start_index 0) in
    let rest = swap_from n swapped (start_index + 1) (end_index - 1) in
    if ltb start_index end_index then rest else str

pub reverse : Buffer → Option Buffer
reverse str = do len ← strlen str; some (swap_from len str 0 (if ltb 0 len then len - 1 else 0))

-- The digits of `utoa`, the lowest first; a `uint64_t` has at most 20.
pub digits : ℕ → ℕ → List ℕ
digits zero n = []
digits (suc fuel) n =
    let rest = digits fuel (n / 10) in if ltb 0 n then (n % 10 + b'0') ∷ rest else []

pub utoa : ℕ → Buffer → Option Buffer
utoa n str = do
  let low_first = if n == 0 then b'0' ∷ [] else digits 20 n
  written ← put (low_first ++ 0 ∷ []) str
  reverse written

-- The loop of `atou` from `result` on. A byte below '0' takes away from the result.
pub read_from : ℕ → Buffer → Option ℕ
read_from result [] = none
read_from result (c ∷ str) =
    let rest = read_from ((result * 10 % 2 ^ 64 + c + 2 ^ 64 - b'0') % 2 ^ 64) str in
    if c == 0 then some result else rest

pub atou : Buffer → Option ℕ
atou str = read_from 0 str

-- `while (*tmp != '/') tmp--;` from the byte at index `i` down.
pub slash_before : Buffer → ℕ → Option ℕ
slash_before path zero = if get_or path 0 0 == b'/' then some 0 else none
slash_before path (suc i) =
    let further = slash_before path i in
    if get_or path (suc i) 0 == b'/' then some (suc i) else further

-- The index of the last slash. An empty path has no last byte.
pub last_slash : Buffer → Option ℕ
last_slash path = do len ← strlen path; elim len [ zero ↦ none | suc i ↦ slash_before path i ]

-- Where the path is cut: behind a slash at its start, otherwise at the slash.
abbrev pub cut_at : Buffer → ℕ → Buffer
cut_at path tmp = set path (if tmp == 0 then 1 else tmp) 0

pub path_remove_elem : Buffer → Option Buffer
path_remove_elem path = do tmp ← last_slash path; some (cut_at path tmp)

pub ptr_to_end_path_elem : Buffer → Option Buffer
ptr_to_end_path_elem path = do tmp ← last_slash path; some (drop (tmp + 1) path)

-- The element and the path without it.
pub get_path_elem : Buffer → Buffer → Option (Buffer × Buffer)
get_path_elem path output = do
  tmp ← last_slash path
  elem ← strcpy (drop (tmp + 1) path) output
  some (elem, cut_at path tmp)

pub path_join : Buffer → Buffer → Option Buffer
path_join dst src = do
  len ← strlen dst
  last ← (elim len [ zero ↦ none | suc i ↦ get_elem? dst i ])
  first ← get_elem? src 0
  slashed ←
      (if not (last == b'/') && not (first == b'/') then strcat dst (b'/' ∷ 0 ∷ []) else some dst)
  strcat slashed src
