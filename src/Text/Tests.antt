-- ===== src/Text/Tests.antt =====
-- Runs of the text functions of src/klibc/string.c, and the theorems at concrete texts.
use drip_os.Prelude.{ℕ, ◌≡◌, refl, none, some, List, [], ◌∷◌, ◌++◌, arith, replicate}
use drip_os.Text.{
  Buffer, strlen, put, reverse, swap_from, digits, utoa, atou, slash_before, last_slash,
  path_remove_elem,
}
use drip_os.Text.Buffers.{IsText}
use drip_os.Text.Numbers.{atou-utoa}

abbrev bin : List ℕ
bin = b'/' ∷ b'b' ∷ b'i' ∷ b'n' ∷ []

abbrev sh : List ℕ
sh = b's' ∷ b'h' ∷ []

prints : utoa 207 (replicate 6 9) ≡ some (b'2' ∷ b'0' ∷ b'7' ∷ 0 ∷ 9 ∷ 9 ∷ [])
unfolding utoa digits put reverse swap_from strlen
prints = refl

-- A path without a slash is read in front of its start.
no_slash : path_remove_elem (sh ++ 0 ∷ []) ≡ none
unfolding path_remove_elem last_slash slash_before strlen
no_slash = refl

atou-utoa_example :
    (text : List ℕ) × (rest : Buffer) × (utoa 18446744073709551615 (replicate 21 0)
      ≡ some (text ++ 0 ∷ rest))
    × IsText text
    × (atou (text ++ 0 ∷ rest) ≡ some 18446744073709551615)
atou-utoa_example = atou-utoa 18446744073709551615 (replicate 21 0) (omega arith) (omega arith)
