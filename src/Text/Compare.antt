-- ===== src/Text/Compare.antt =====
-- `strcmp` (src/klibc/string.c) decides whether two texts are the same.
use drip_os.Prelude.{
  ℕ, ◌≡◌, ◌≢◌, ◌↔◌, refl, sym, ap, some, List, [], ◌∷◌, ◌++◌, if◌then◌else◌, ◌==◌, arith, length,
  Bool-cases, inl, inr, ==_iff, ◌≤◌, some-injective,
}
use drip_os.Text.{Buffer, compare_from, strcmp}
use drip_os.Text.Buffers.{IsText, strlen-text}

-- 1 where two texts differ.
abbrev differ : List ℕ → List ℕ → ℕ
differ [] [] = 0
differ [] (d ∷ t) = 1
differ (c ∷ s) [] = 1
differ (c ∷ s) (d ∷ t) = if c == d then differ s t else 1

differ_iff : (s t : List ℕ) → (differ s t ≡ 0) ↔ (s ≡ t)
differ_iff [] [] = (λ e. refl, λ e. refl)
differ_iff [] (d ∷ t) = (λ e. cc, λ e. cc)
differ_iff (c ∷ s) [] = (λ e. cc, λ e. cc)
differ_iff (c ∷ s) (d ∷ t) = ground (arith, differ_iff s t)

compare_from-differ :
    (s t : List ℕ) (rest rest' : Buffer)
    → IsText s
    → IsText t
    → length s ≡ length t
    → compare_from (s ++ 0 ∷ rest) (t ++ 0 ∷ rest') ≡ some (differ s t)
unfolding compare_from
compare_from-differ [] [] rest rest' v w e = refl
compare_from-differ [] (d ∷ t) rest rest' v w e = absurd (omega (arith, e))
compare_from-differ (c ∷ s) [] rest rest' v w e = absurd (omega (arith, e))
compare_from-differ (c ∷ s) (d ∷ t) rest rest' (pos, v) (pos', w) e =
    ground (arith, compare_from-differ s t rest rest' v w (omega (arith, e)))

differ-length : (s t : List ℕ) → length s ≢ length t → differ s t ≡ 1
differ-length [] [] ne = absurd (ne refl)
differ-length [] (d ∷ t) ne = refl
differ-length (c ∷ s) [] ne = refl
differ-length (c ∷ s) (d ∷ t) ne = ground (arith, differ-length s t)

strcmp-differ :
    (s t : List ℕ) (rest rest' : Buffer)
    → IsText s
    → IsText t
    → strcmp (s ++ 0 ∷ rest) (t ++ 0 ∷ rest') ≡ some (differ s t)
unfolding strcmp
strcmp-differ s t rest rest' v w =
    rw (strlen-text s rest v, strlen-text t rest' w)
      (elim (Bool-cases (length s == length t)) [
        | inl e ↦ rw e (compare_from-differ s t rest rest' v w ((==_iff _ _).0 e))
        | inr e ↦ rw e (ap some (sym (differ-length s t (ground arith))))
      ])

differ-le : (s t : List ℕ) → differ s t ≤ 1
differ-le [] [] = omega arith
differ-le [] (d ∷ t) = omega arith
differ-le (c ∷ s) [] = omega arith
differ-le (c ∷ s) (d ∷ t) = ground (arith, differ-le s t)

-- `strcmp` of two texts that end in their buffers reads nothing past their ends, and answers 0
-- exactly if they are the same and 1 otherwise.
pub strcmp_iff :
    (s t : List ℕ) (rest rest' : Buffer)
    → IsText s
    → IsText t
    → ((strcmp (s ++ 0 ∷ rest) (t ++ 0 ∷ rest') ≡ some 0) ↔ (s ≡ t))
      × ((strcmp (s ++ 0 ∷ rest) (t ++ 0 ∷ rest') ≡ some 1) ↔ (s ≢ t))
strcmp_iff s t rest rest' v w =
    let (to, from) = differ_iff s t in
    rw (strcmp-differ s t rest rest' v w) (
      (λ e. to (some-injective e), λ e. ap some (from e)),
      (
        λ e same. absurd (omega (arith, some-injective e, from same)),
        λ ne. elim (Bool-cases (differ s t == 0)) [
          | inl e ↦ absurd (ne (to ((==_iff _ _).0 e)))
          | inr e ↦ ap some (ground (arith, differ-le s t))
        ],
      ),
    )
