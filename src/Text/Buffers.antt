-- ===== src/Text/Buffers.antt =====
-- Texts in buffers: lengths, copies and appending (src/klibc/string.c).
use drip_os.Prelude.{
  ℕ, suc, ◌≤◌, ◌<◌, ◌≡◌, refl, sym, ap, ◌∙◌, some, List, [], ◌∷◌, ◌++◌, arith, length, take, drop,
  length-append,
}
use drip_os.Text.{Buffer, strlen, put, get, strcpy, strcat}

-- The bytes before a terminator are not 0.
abbrev pub IsText : List ℕ → Type 0
IsText [] = Unit {0}
IsText (c ∷ cs) = (0 < c) × IsText cs

pub IsText-append : (xs ys : List ℕ) → IsText xs → IsText ys → IsText (xs ++ ys)
IsText-append [] ys v w = w
IsText-append (x ∷ xs) ys (pos, v) w = (pos, IsText-append xs ys v w)

pub strlen-text :
    (text : List ℕ) (rest : Buffer) → IsText text → strlen (text ++ 0 ∷ rest) ≡ some (length text)
unfolding strlen
strlen-text [] rest v = refl
strlen-text (c ∷ text) rest (pos, v) = ground (arith, strlen-text text rest v)

pub get-append : (text : List ℕ) (rest : Buffer) → get (length text) (text ++ rest) ≡ some text
unfolding get
get-append [] rest = refl
get-append (c ∷ text) rest = rw (get-append text rest) refl

pub put_lem :
    (src : List ℕ) (dst : Buffer)
    → length src ≤ length dst
    → put src dst ≡ some (src ++ drop (length src) dst)
unfolding put
put_lem [] dst h = refl
put_lem (c ∷ src) [] h = absurd (omega (arith, h))
put_lem (c ∷ src) (d ∷ dst) h = rw (put_lem src dst (omega (arith, h))) refl

pub append_assoc : (xs ys zs : List ℕ) → (xs ++ ys) ++ zs ≡ xs ++ (ys ++ zs)
append_assoc [] ys zs = refl
append_assoc (x ∷ xs) ys zs = ap (λ l. x ∷ l) (append_assoc xs ys zs)

pub drop-append : (xs ys : List ℕ) → drop (length xs) (xs ++ ys) ≡ ys
drop-append [] ys = refl
drop-append (x ∷ xs) ys = drop-append xs ys

pub take-append : (xs ys : List ℕ) → take (length xs) (xs ++ ys) ≡ xs
take-append [] ys = refl
take-append (x ∷ xs) ys = ap (λ l. x ∷ l) (take-append xs ys)

pub length-terminated : (text : List ℕ) → length (text ++ 0 ∷ []) ≡ suc (length text)
length-terminated text = omega (arith, length-append text (0 ∷ []))

-- Copying a text into a buffer that is long enough for it and its terminator.
pub strcpy-text :
    (text : List ℕ) (rest dst : Buffer)
    → IsText text
    → length text < length dst
    → strcpy (text ++ 0 ∷ rest) dst ≡ some (text ++ 0 ∷ drop (suc (length text)) dst)
unfolding strcpy
strcpy-text text rest dst v h =
    rw
      (
        strlen-text text rest v,
        get-append text (0 ∷ rest),
        put_lem (text ++ 0 ∷ []) dst (omega (arith, h, length-terminated text)),
        length-terminated text,
      )
      (ap some (append_assoc text (0 ∷ []) (drop (suc (length text)) dst)))

-- Appending a text to one, in a buffer that has room for both.
pub strcat-text :
    (text more : List ℕ) (rest rest' : Buffer)
    → IsText text
    → IsText more
    → length more ≤ length rest
    → strcat (text ++ 0 ∷ rest) (more ++ 0 ∷ rest')
      ≡ some ((text ++ more) ++ 0 ∷ drop (length more) rest)
unfolding strcat
strcat-text text more rest rest' v w h =
    rw
      (
        strlen-text text rest v,
        strlen-text more rest' w,
        get-append more (0 ∷ rest'),
        drop-append text (0 ∷ rest),
        take-append text (0 ∷ rest),
        put_lem (more ++ 0 ∷ []) (0 ∷ rest) (omega (arith, h, length-terminated more)),
        length-terminated more,
      )
      (ap some (
        ap (λ l. text ++ l) (append_assoc more (0 ∷ []) (drop (length more) rest))
        ∙ sym (append_assoc text more (0 ∷ drop (length more) rest))))
