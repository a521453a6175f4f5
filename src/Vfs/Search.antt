-- ===== src/Vfs/Search.antt =====
-- `search_node_name` (src/fs/vfs/vfs.c) finds the first child with a name.
use drip_os.Prelude.{
  ℕ, zero, suc, ◌+◌, ◌<◌, ◌≡◌, ◌≢◌, ◌↔◌, refl, sym, ap, ◌∙◌, true, false, Option, none, some,
  none≢some, some-injective, List, [], ◌∷◌, ◌++◌, arith, Bool-cases, Option-cases, false≢true, inl,
  inr,
}
use drip_os.Text.{strcmp, Buffer}
use drip_os.Text.Buffers.{IsText}
use drip_os.Text.Compare.{strcmp_iff}
use drip_os.ProcessTable.{slot_at}
use drip_os.Vfs.{Text, Node, Vfs, same_name, search_from}

pub same_name_iff : (s t : Text) → (same_name s t ≡ true) ↔ (s ≡ t)
unfolding same_name
same_name_iff [] [] = (λ e. refl, λ e. refl)
same_name_iff [] (d ∷ t) = (λ e. cc, λ e. cc)
same_name_iff (c ∷ s) [] = (λ e. cc, λ e. cc)
same_name_iff (c ∷ s) (d ∷ t) = ground (arith, same_name_iff s t)

pub same_name_self : (s : Text) → same_name s s ≡ true
same_name_self s = (same_name_iff s s).1 refl

pub same_name_other : (s t : Text) → s ≢ t → same_name s t ≡ false
same_name_other s t ne = elim (Bool-cases (same_name s t)) [
  | inl e ↦ absurd (ne ((same_name_iff s t).0 e))
  | inr e ↦ e
]

-- The comparison of two names is that of `strcmp` on the texts in memory.
pub same_name-strcmp :
    (s t : Text) (rest rest' : Buffer)
    → IsText s
    → IsText t
    → (same_name s t ≡ true) ↔ (strcmp (s ++ 0 ∷ rest) (t ++ 0 ∷ rest') ≡ some 0)
same_name-strcmp s t rest rest' v w =
    let (to, from) = (strcmp_iff s t rest rest' v w).0 in
    let (to', from') = same_name_iff s t in (λ e. from (to' e), λ e. from' (to e))

-- Every child in the array is an allocated node.
abbrev pub AreNodes : Vfs → List (Option ℕ) → Type 0
AreNodes v cs = (k c : ℕ) → slot_at cs k ≡ some c → (m : Node) × (v.nodes c ≡ some m)

-- No child in the array, up to a place, has the name.
abbrev pub NoneNamed : Vfs → List (Option ℕ) → Text → Type 0
NoneNamed v cs name =
    (k c : ℕ) (m : Node) → slot_at cs k ≡ some c → v.nodes c ≡ some m → m.name ≢ name

pub search_from-none :
    (v : Vfs) (cs : List (Option ℕ)) (name : Text) (i : ℕ)
    → AreNodes v cs
    → NoneNamed v cs name
    → search_from v cs name i ≡ some none
unfolding search_from
search_from-none v [] name i nodes other = refl
search_from-none v (none ∷ cs) name i nodes other =
    search_from-none v cs name (i + 1) (λ k. nodes (suc k)) (λ k. other (suc k))
search_from-none v (some c ∷ cs) name i nodes other =
    let (m, at) = nodes 0 c refl in
    rw (at, same_name_other m.name name (other 0 c m refl at))
      (search_from-none v cs name (i + 1) (λ k. nodes (suc k)) (λ k. other (suc k)))

pub search_from_at :
    (v : Vfs) (cs : List (Option ℕ)) (i k c : ℕ) (m : Node)
    → AreNodes v cs
    → slot_at cs k ≡ some c
    → v.nodes c ≡ some m
    → ((j d : ℕ) (m' : Node)
        → j < k
        → slot_at cs j ≡ some d
        → v.nodes d ≡ some m'
        → m'.name ≢ m.name)
    → search_from v cs m.name i ≡ some (some (i + k))
unfolding search_from
search_from_at v [] i k c m nodes here at before = absurd (none≢some here)
search_from_at v (none ∷ cs) i zero c m nodes here at before = absurd (none≢some here)
search_from_at v (some d ∷ cs) i zero c m nodes here at before =
    let e : d ≡ c = some-injective here in
    let at' : v.nodes d ≡ some m = rw e at in
    let sum : i + 0 ≡ i = omega arith in rw (at', same_name_self m.name, sum) refl
search_from_at v (none ∷ cs) i (suc k) c m nodes here at before =
    let sum : i + suc k ≡ i + 1 + k = omega arith in
    rw sum (
      search_from_at v cs (i + 1) k c m (λ j. nodes (suc j)) here at
        (λ j d m' lt. before (suc j) d m' (omega (arith, lt))))
search_from_at v (some d ∷ cs) i (suc k) c m nodes here at before =
    let sum : i + suc k ≡ i + 1 + k = omega arith in
    let (m', at') = nodes 0 d refl in
    rw (at', same_name_other m'.name m.name (before 0 d m' (omega arith) refl at'), sum)
      (search_from_at v cs (i + 1) k c m (λ j. nodes (suc j)) here at
        (λ j d m' lt. before (suc j) d m' (omega (arith, lt))))

-- What an answer says of the array.
abbrev pub Answer : Vfs → List (Option ℕ) → Text → ℕ → Option (Option ℕ) → Type 0
Answer v cs name i none = ⊥
Answer v cs name i (some none) = NoneNamed v cs name
Answer v cs name i (some (some j)) =
    (k c : ℕ) × (m : Node) × (j ≡ i + k)
    × (slot_at cs k ≡ some c)
    × (v.nodes c ≡ some m)
    × (m.name ≡ name)

NoneNamed-empty :
    (v : Vfs) (cs : List (Option ℕ)) (name : Text)
    → NoneNamed v cs name
    → NoneNamed v (none ∷ cs) name
NoneNamed-empty v cs name h zero c m e at = absurd (none≢some e)
NoneNamed-empty v cs name h (suc k) c m e at = h k c m e at

NoneNamed-other :
    (v : Vfs) (cs : List (Option ℕ)) (name : Text) (d : ℕ) (m' : Node)
    → v.nodes d ≡ some m'
    → m'.name ≢ name
    → NoneNamed v cs name
    → NoneNamed v (some d ∷ cs) name
NoneNamed-other v cs name d m' at' ne h zero c m e at same =
    let d_c : d ≡ c = some-injective e in
    let m_m' : m ≡ m' = some-injective (sym at ∙ ap v.nodes (sym d_c) ∙ at') in
    ne (ap (λ n. n.name) (sym m_m') ∙ same)
NoneNamed-other v cs name d m' at' ne h (suc k) c m e at same = h k c m e at same

Answer-empty :
    (v : Vfs) (cs : List (Option ℕ)) (name : Text) (i : ℕ) (o : Option (Option ℕ))
    → Answer v cs name (i + 1) o
    → Answer v (none ∷ cs) name i o
Answer-empty v cs name i none h = h
Answer-empty v cs name i (some none) h = NoneNamed-empty v cs name h
Answer-empty v cs name i (some (some j)) (k, c, m, e, here, at, same) =
    (suc k, c, m, omega (arith, e), here, at, same)

Answer-other :
    (v : Vfs) (cs : List (Option ℕ)) (name : Text) (i d : ℕ) (m' : Node) (o : Option (Option ℕ))
    → v.nodes d ≡ some m'
    → m'.name ≢ name
    → Answer v cs name (i + 1) o
    → Answer v (some d ∷ cs) name i o
Answer-other v cs name i d m' none at' ne h = h
Answer-other v cs name i d m' (some none) at' ne h = NoneNamed-other v cs name d m' at' ne h
Answer-other v cs name i d m' (some (some j)) at' ne (k, c, m, e, here, at, same) =
    (suc k, c, m, omega (arith, e), here, at, same)

pub search_from-Answer :
    (v : Vfs) (cs : List (Option ℕ)) (name : Text) (i : ℕ)
    → AreNodes v cs
    → Answer v cs name i (search_from v cs name i)
unfolding search_from
search_from-Answer v [] name i nodes = λ k c m e at. absurd (none≢some e)
search_from-Answer v (none ∷ cs) name i nodes =
    Answer-empty v cs name i _ (search_from-Answer v cs name (i + 1) (λ k. nodes (suc k)))
search_from-Answer v (some d ∷ cs) name i nodes = elim (Option-cases (v.nodes d)) [
  | inl e ↦ let (m, at) = nodes 0 d refl in absurd (none≢some (sym e ∙ at))
  | inr (m', e) ↦ elim (Bool-cases (same_name m'.name name)) [
    | inl same ↦ rw (e, same) (0, d, m', omega arith, refl, e, (same_name_iff m'.name name).0 same)
    | inr other ↦
        rw (e, other)
          (Answer-other v cs name i d m' _ e
            (λ same. false≢true (sym other ∙ (same_name_iff m'.name name).1 same))
            (search_from-Answer v cs name (i + 1) (λ k. nodes (suc k))))
  ]
]
