-- ===== src/History/Newest.antt =====
-- What a task's history holds after runs are logged.
use mathlib.Core.List.{reverse, reverse-cons, append_assoc}
use relay_scheduler.Base.{
  ℕ, zero, suc, ◌≤◌, ◌≡◌, ◌≢◌, refl, sym, ap, ◌∙◌, String, List, [], ◌∷◌, ◌++◌, arith, ltb,
  ltb-false→le, Bool-cases, inl, inr, take, length, take-length, if◌then◌else◌, eq_iff, eq_refl,
  lookup-insert, lookup,
}
use relay_scheduler.Task.{Execution}
use relay_scheduler.Store.{WriteFault, no_fault}
use relay_scheduler.History.{LogStore, log_path, load, log, max_log_entries, keep, entries}

capped_take :
    (n : ℕ) (es : List Execution) → (if ltb n (length es) then take n es else es) ≡ take n es
capped_take n es = elim (Bool-cases (ltb n (length es))) [
  | inl long ↦ rw long
  | inr short ↦ rw short (sym (take-length n es (ltb-false→le n (length es) short)))
]

pub load-log :
    (s : LogStore) (project task : String) (exec : Execution)
    → s.fault ≡ no_fault
    → load (log s project task exec) project task
      ≡ take max_log_entries (exec ∷ load s project task)
unfolding load log
load-log s project task exec w =
    rw (w, lookup-insert, eq_refl (log_path project task))
      (capped_take 100 (exec ∷ load s project task))

take-take {ℓ} : {A : Type ℓ} (m n : ℕ) (ys : List A) → m ≤ n → take m (take n ys) ≡ take m ys
take-take zero n ys h = refl
take-take (suc m) zero ys h = absurd (omega arith)
take-take (suc m) (suc n) [] h = refl
take-take (suc m) (suc n) (y ∷ ys) h = ap (◌∷◌ y) (take-take m n ys (omega arith))

take-append_take {ℓ} :
    {A : Type ℓ} (m n : ℕ) (xs ys : List A) → m ≤ n → take m (xs ++ take n ys) ≡ take m (xs ++ ys)
take-append_take m n [] ys h = take-take m n ys h
take-append_take zero n (x ∷ xs) ys h = refl
take-append_take (suc m) n (x ∷ xs) ys h = ap (◌∷◌ x) (take-append_take m n xs ys (omega arith))

unfoldable pub log_all : LogStore → String → String → List Execution → LogStore
log_all s project task [] = s
log_all s project task (e ∷ es) = log_all (log s project task e) project task es

pub fault-log :
    (s : LogStore) (project task : String) (e : Execution)
    → s.fault ≡ no_fault
    → (log s project task e).fault ≡ no_fault
unfolding log
fault-log s project task e w = rw (w, log)

-- After any runs of a task, in their order, its history is the newest 100 of them and of the
-- entries before, newest first.
pub load-log_all :
    (s : LogStore) (project task : String) (e : Execution) (es : List Execution)
    → s.fault ≡ no_fault
    → load (log_all s project task (e ∷ es)) project task
      ≡ take max_log_entries (reverse (e ∷ es) ++ load s project task)
unfolding log_all
load-log_all s project task e [] w = load-log s project task e w
load-log_all s project task e (x ∷ es) w =
    load-log_all (log s project task e) project task x es (fault-log s project task e w)
    ∙ rw (load-log s project task e w) (
        take-append_take 100 100 (reverse (x ∷ es)) (e ∷ load s project task) (omega arith)
        ∙ ap (take 100) (
            sym (
              ap (λ (l : List Execution). l ++ load s project task) (reverse-cons e (x ∷ es))
              ∙ append_assoc (reverse (x ∷ es)) (e ∷ []) (load s project task))))

lookup-keep_other :
    (f : WriteFault) (path j : String) (es : List Execution) (s : LogStore)
    → path ≢ j
    → lookup j (keep f path es s).files ≡ lookup j s.files
lookup-keep_other no_fault path j es s n = rw lookup-insert (ground (arith, eq_iff path j))
lookup-keep_other _ path j es s n = refl

-- Logging a run of one task leaves the history of every task whose file has another name.
pub log-other :
    (s : LogStore) (project task other_project other : String) (e : Execution)
    → log_path project task ≢ log_path other_project other
    → load (log s project task e) other_project other ≡ load s other_project other
unfolding load log
log-other s project task other_project other e n =
    ap entries (lookup-keep_other s.fault (log_path project task) _ _ s n)
