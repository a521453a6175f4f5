-- ===== src/Echfs/Words.antt =====
-- 64-bit numbers in a block (src/fs/filesystems/echfs.c): writing one and reading it back.
use native.Mathlib.Nat.{
  pow-succ', one-le-pow, div-add-mod, mod-lt, mod-eq_of_lt, add-mul-mod_self_left,
}
use drip_os.Prelude.{
  ℕ, zero, suc, ◌+◌, ◌*◌, ◌/◌, ◌%◌, ◌^◌, ◌<◌, ◌≡◌, refl, sym, ap, ◌∙◌, true, false, if◌then◌else◌,
  ◌==◌, arith, Bool-cases, inl, inr, ==_iff,
}
use drip_os.Echfs.{Block, word_from, byte_of, word_at, set_word}

mod-digit : (v p : ℕ) → 0 < p → v % 256 + 256 * (v / 256 % p) ≡ v % (256 * p)
mod-digit v p pos =
    let low = v % 256 + 256 * (v / 256 % p) in
    let part = div-add-mod (v / 256) p in
    let room = mod-lt (v / 256) pos in
    let whole : v ≡ low + 256 * p * (v / 256 / p) = grind (arith, part) in
    sym (
      ap (λ x. x % (256 * p)) whole
      ∙ add-mul-mod_self_left low (256 * p) (v / 256 / p)
      ∙ mod-eq_of_lt (omega (arith, room)))

-- Bytes that are those of `v` from byte `k` on make up `v / 256 ^ k`.
word_from-bytes :
    (n : ℕ) (b : Block) (at v : ℕ)
    → ((k : ℕ) → k < n → b (at + k) ≡ byte_of v k)
    → word_from b at n ≡ v % 256 ^ n
unfolding word_from byte_of
word_from-bytes zero b at v h = omega arith
word_from-bytes (suc n) b at v h =
    let here : b at ≡ v % 256 = ap b (omega arith) ∙ h 0 (omega arith) in
    let later =
      word_from-bytes n b (at + 1) (v / 256)
        (λ k lt. ap b (omega arith) ∙ h (suc k) (omega (arith, lt))) in
    rw (here, later)
      (mod-digit v (256 ^ n) (one-le-pow n 256 (omega arith))
        ∙ ap (λ p. v % p) (sym (pow-succ' 256 n)))

word_from-same :
    (n : ℕ) (b c : Block) (at : ℕ)
    → ((k : ℕ) → k < n → b (at + k) ≡ c (at + k))
    → word_from b at n ≡ word_from c at n
unfolding word_from
word_from-same zero b c at h = refl
word_from-same (suc n) b c at h =
    let here : b at ≡ c at = ap b (omega arith) ∙ h 0 (omega arith) ∙ ap c (omega arith) in
    let later =
      word_from-same n b c (at + 1)
        (λ k lt. ap b (omega arith) ∙ h (suc k) (omega (arith, lt)) ∙ ap c (omega arith)) in
    rw (here, later) refl

pub word_at-set_word :
    (b : Block) (i j v : ℕ)
    → v < 2 ^ 64
    → word_at (set_word b i v) j ≡ (if i == j then v else word_at b j)
unfolding word_at set_word
word_at-set_word b i j v small = elim (Bool-cases (i == j)) [
  | inl e ↦
      let same = (==_iff i j).0 e in
      rw e (
        word_from-bytes 8 (set_word b i v) (8 * j) v (λ k lt.
          let at : ((8 * j + k) / 8 == i) ≡ true = (==_iff _ _).1 (omega (arith, same, lt)) in
          let offset : (8 * j + k) % 8 ≡ k = omega (arith, lt) in rw (set_word, at, offset) refl)
        ∙ omega (arith, small))
  | inr e ↦ rw e (
      word_from-same 8 (set_word b i v) b (8 * j) (λ k lt.
        let at : ((8 * j + k) / 8 == i) ≡ false = ground (arith, e) in rw (set_word, at) refl))
]
