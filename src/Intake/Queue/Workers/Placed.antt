-- ===== src/Intake/Queue/Workers/Placed.antt =====
-- internal/app/intake/queue.go: when a submission is served, and what leaves it so.
use lark_bridge_agent_sdk.Base.{
  ℕ, zero, suc, String, ◌≡◌, sym, ap, subst, ◌∙◌, Bool, true, false, ◌||◌, Option, none, some, List,
  [], ◌∷◌, ◌++◌, ◌==◌, nat_eq, arith, eq_iff, if◌then◌else◌, any, is_some, ◌⊎◌, inl, inr,
  Bool-cases,
}
use lark_bridge_agent_sdk.Base.Map.{Map, lookup, insert, lookup-insert}
use lark_bridge_agent_sdk.Intake.Queue.Workers.{
  Phase, drained, sending, waiting, returned, Submission, Worker, Workers, submission_at, put,
}

abbrev pub has : ℕ → Option ℕ → Bool
has n none = false
has n (some m) = nat_eq n m

-- The worker has the submission in its channel or in the handler.
abbrev pub pending : ℕ → Option Worker → Bool
pending n none = false
pending n (some w) = has n w.handling || any (nat_eq n) w.buffer

-- A submission that waits has its answer, or its worker still has it; one that sends has a worker.
abbrev pub Served : Map Worker → ℕ → Submission → Phase → Type 0
Served m n s sending = is_some (lookup s.key m) ≡ true
Served m n s waiting = (is_some s.answer || pending n (lookup s.key m)) ≡ true
Served m n s _ = Unit

abbrev pub AllServed : Workers → Type 0
AllServed x =
    (n : ℕ) (s : Submission) → submission_at n x.submissions ≡ some s → Served x.workers n s s.phase

submission_at-put :
    (n m : ℕ) (s : Submission) (ss : List Submission)
    → submission_at m (put n s ss) ≡ (
        if nat_eq n m
        then (if is_some (submission_at n ss) then some s else none)
        else submission_at m ss)
unfolding submission_at put
submission_at-put n m s [] = ground arith
submission_at-put zero zero s (t ∷ ss) = ground arith
submission_at-put zero (suc m) s (t ∷ ss) = ground arith
submission_at-put (suc n) zero s (t ∷ ss) = ground arith
submission_at-put (suc n) (suc m) s (t ∷ ss) = ground (arith, submission_at-put n m s ss)

pub submission_at-append :
    (n : ℕ) (s t : Submission) (ss : List Submission)
    → submission_at n (ss ++ s ∷ []) ≡ some t
    → (submission_at n ss ≡ some t) ⊎ (t ≡ s)
unfolding submission_at
submission_at-append zero s t [] h = inr (ground (arith, h))
submission_at-append (suc n) s t [] h = absurd (cc h)
submission_at-append zero s t (u ∷ ss) h = inl h
submission_at-append (suc n) s t (u ∷ ss) h = submission_at-append n s t ss h

-- A submission is replaced, and the workers change so that the others are served as before.
pub put-AllServed :
    (x : Workers) (n : ℕ) (s : Submission) (m : Map Worker)
    → AllServed x
    → Served m n s s.phase
    → ((k : ℕ) (t : Submission)
        → nat_eq n k ≡ false
        → Served x.workers k t t.phase
        → Served m k t t.phase)
    → AllServed (record x { submissions = put n s x.submissions; workers = m })
put-AllServed x n s m all new keeps k t h = elim (Bool-cases (nat_eq n k)) [
  | inl e ↦
      let found : some s ≡ some t = ground (arith, h, submission_at-put n k s x.submissions) in
      let same : s ≡ t = ground (arith, found) in
      subst (λ i. Served m i t t.phase) (ground arith) (subst (λ u. Served m n u u.phase) same new)
  | inr e ↦ keeps k t e (all k t (ground (arith, h, submission_at-put n k s x.submissions)))
]

-- The workers change so that all are served as before.
pub workers-AllServed :
    (x : Workers) (m : Map Worker)
    → AllServed x
    → ((k : ℕ) (t : Submission)
        → submission_at k x.submissions ≡ some t
        → Served x.workers k t t.phase
        → Served m k t t.phase)
    → AllServed (record x { workers = m })
workers-AllServed x m all keeps k t h = keeps k t h (all k t h)

pub Served-more :
    (m m' : Map Worker) (n : ℕ) (s : Submission) (p : Phase)
    → (is_some (lookup s.key m) ≡ true → is_some (lookup s.key m') ≡ true)
    → (pending n (lookup s.key m) ≡ true → pending n (lookup s.key m') ≡ true)
    → Served m n s p
    → Served m' n s p
Served-more m m' n s drained there still h = tt
Served-more m m' n s sending there still h = there h
Served-more m m' n s waiting there still h = ground arith
Served-more m m' n s (returned o) there still h = tt

-- A worker is replaced by one that has the submission if the old one had it.
pub insert-Served :
    (key : String) (w v : Worker) (m : Map Worker) (n : ℕ) (s : Submission) (p : Phase)
    → lookup key m ≡ some w
    → (pending n (some w) ≡ true → pending n (some v) ≡ true)
    → Served m n s p
    → Served (insert key v m) n s p
insert-Served key w v m n s p h has =
    Served-more m (insert key v m) n s p (λ k. ground (arith, lookup-insert key s.key v m, k))
      (λ k. elim (Bool-cases (key == s.key)) [
        | inl e ↦
            let same : lookup key m ≡ lookup s.key m =
              ap (λ i. lookup i m) ((eq_iff key s.key).0 e) in
            let old : pending n (some w) ≡ true = ap (pending n) (sym h ∙ same) ∙ k in
            ap (pending n)
              (lookup-insert key s.key v m ∙ ap (λ b. if b then some v else lookup s.key m) e)
            ∙ has old
        | inr e ↦
            ap (pending n)
              (lookup-insert key s.key v m ∙ ap (λ b. if b then some v else lookup s.key m) e)
            ∙ k
      ])
