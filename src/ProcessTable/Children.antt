-- ===== src/ProcessTable/Children.antt =====
-- The number of threads that a process has in the table `threads`, which `child_thread_count` is to
-- be.
use drip_os.Prelude.{
  ℕ, zero, suc, ◌+◌, ◌<◌, ◌≡◌, refl, if◌then◌else◌, ◌==◌, arith, Option, none, some, [], ◌∷◌, ◌++◌,
  length, set, replicate, inl, inr, ◌∙◌,
}
use drip_os.Thread.{Thread, Threads, thread_at}
use drip_os.ProcessTable.{Process, Kernel, slot_at, claim_slot}
use drip_os.ProcessTable.Slots.{claim_slot-Claimed}

abbrev pub is_parent : Option ℕ → ℕ → ℕ
is_parent none pid = 0
is_parent (some p) pid = if p == pid then 1 else 0

-- 1 where the slot holds a child of the process.
abbrev pub child_in : Option Thread → ℕ → ℕ
child_in none pid = 0
child_in (some t) pid = is_parent t.parent_pid pid

abbrev pub children : Threads → ℕ → ℕ
children [] pid = 0
children (slot ∷ ts) pid = child_in slot pid + children ts pid

abbrev pub count_of : Option Process → ℕ
count_of none = 0
count_of (some p) = p.child_thread_count

-- Every process counts its threads, and where there is no process no thread is left.
unfoldable pub IsCounted : Kernel → Type 0
IsCounted k = (pid : ℕ) → count_of (slot_at k.processes pid) ≡ children k.threads pid

pub children-set :
    (ts : Threads) (i pid : ℕ) (x : Option Thread)
    → i < length ts
    → children (set ts i x) pid + child_in (thread_at ts i) pid ≡ children ts pid + child_in x pid
children-set [] i pid x h = absurd (omega (arith, h))
children-set (y ∷ ts) zero pid x h = omega arith
children-set (y ∷ ts) (suc i) pid x h = omega (arith, children-set ts i pid x (omega (arith, h)))

pub children-grown :
    (ts : Threads) (n pid : ℕ) → children (ts ++ replicate n none) pid ≡ children ts pid
children-grown [] zero pid = refl
children-grown [] (suc n) pid = omega (arith, children-grown [] n pid)
children-grown (x ∷ ts) n pid = omega (arith, children-grown ts n pid)

-- A thread that enters the table adds itself to its parent's children.
pub children-entered :
    (ts : Threads) (t : Thread) (pid : ℕ)
    → children (set ((claim_slot ts).1) ((claim_slot ts).0) (some t)) pid
      ≡ is_parent t.parent_pid pid + children ts pid
children-entered ts t pid =
    let v = claim_slot-Claimed ts in
    let was : children ((claim_slot ts).1) pid ≡ children ts pid = elim v.longer [
      | inl e ↦ rw e refl
      | inr e ↦ rw e (children-grown ts 10 pid)
    ] in
    let empty : thread_at ((claim_slot ts).1) ((claim_slot ts).0) ≡ none =
      v.kept ((claim_slot ts).0) ∙ v.empty in
    let step = children-set ((claim_slot ts).1) ((claim_slot ts).0) pid (some t) v.inside in
    omega (arith, was, rw empty at step)
