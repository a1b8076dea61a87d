-- ===== src/Intake/Queue/Workers/Served.antt =====
-- internal/app/intake/queue.go: what `submit` and a worker's receive keep.
use lark_bridge_agent_sdk.Base.{
  ℕ, String, ◌≡◌, refl, sym, ap, ◌∙◌, true, false, ◌||◌, Option, none, some, List, [], ◌∷◌, ◌++◌,
  ◌==◌, nat_eq, arith, eq_iff, if-lift, if◌then◌else◌, any, is_some, inl, inr, Bool-cases,
}
use lark_bridge_agent_sdk.Base.Map.{Map, lookup, insert, lookup-insert}
use lark_bridge_agent_sdk.Intake.Queue.Workers.{
  Phase, drained, sending, waiting, returned, Submission, Worker, Workers, new_worker, has_room,
  ensured, get_worker, send, receive, go_on, leave, take, Outcome, with_phase,
}
use lark_bridge_agent_sdk.Intake.Queue.Workers.Placed.{
  has, pending, Served, AllServed, put-AllServed, workers-AllServed, Served-more, insert-Served,
}

-- The workers do not change.
keeps_all :
    (x : Workers) (n k : ℕ) (t : Submission)
    → nat_eq n k ≡ false
    → Served x.workers k t t.phase
    → Served x.workers k t t.phase
keeps_all x n k t e h = h

ensured-Served :
    (key : String) (o : Option Worker) (m : Map Worker) (n : ℕ) (s : Submission) (p : Phase)
    → lookup key m ≡ o
    → Served m n s p
    → Served (ensured key o m) n s p
ensured-Served key (some w) m n s p h served = served
ensured-Served key none m n s p h served =
    Served-more m (insert key new_worker m) n s p
      (λ k. ground (arith, lookup-insert key s.key new_worker m, k))
      (λ k. elim (Bool-cases (key == s.key)) [
        | inl e ↦
            let nobody : lookup s.key m ≡ none =
              sym (ap (λ i. lookup i m) ((eq_iff key s.key).0 e)) ∙ h in
            absurd (cc (ap (pending n) nobody, k))
        | inr e ↦
            ap (pending n) (
              lookup-insert key s.key new_worker m
              ∙ ap (λ b. if b then some new_worker else lookup s.key m) e)
            ∙ k
      ])
      served

ensured-there :
    (key : String) (o : Option Worker) (m : Map Worker)
    → lookup key m ≡ o
    → is_some (lookup key (ensured key o m)) ≡ true
ensured-there key none m h = ground (arith, lookup-insert key key new_worker m, eq_iff key key)
ensured-there key (some w) m h = ap is_some h

get_worker-AllServed :
    (n : ℕ) (s : Submission) (x : Workers) → AllServed x → AllServed (get_worker n s x)
get_worker-AllServed n s x all =
    let m = ensured s.key (lookup s.key x.workers) x.workers in
    if-lift {A = Workers} AllServed x.closed _ _
      (put-AllServed x n (with_phase (returned Outcome.closed_queue) s) x.workers all tt
        (keeps_all x n))
      (put-AllServed x n (with_phase sending s) m all
        (ensured-there s.key (lookup s.key x.workers) x.workers refl)
        (λ k t e. ensured-Served s.key (lookup s.key x.workers) x.workers k t t.phase refl))

any-last : (n : ℕ) (ns : List ℕ) → any (nat_eq n) (ns ++ n ∷ []) ≡ true
unfolding any
any-last n [] = ground arith
any-last n (m ∷ ns) = ground (arith, any-last n ns)

any-more : (n m : ℕ) (ns : List ℕ) → any (nat_eq n) ns ≡ true → any (nat_eq n) (ns ++ m ∷ []) ≡ true
unfolding any
any-more n m [] h = absurd (cc h)
any-more n m (k ∷ ns) h = ground (arith, any-more n m ns)

send-AllServed :
    (n : ℕ) (s : Submission) (o : Option Worker) (x : Workers)
    → lookup s.key x.workers ≡ o
    → AllServed x
    → AllServed (send n s o x)
send-AllServed n s none x h all = all
send-AllServed n s (some w) x h all =
    let v = record w { buffer = w.buffer ++ n ∷ [] } in
    if-lift {A = Workers} AllServed (has_room w) _ _
      (put-AllServed x n (with_phase waiting s) (insert s.key v x.workers) all
        (ground
          (arith, lookup-insert s.key s.key v x.workers, eq_iff s.key s.key, any-last n w.buffer))
        (λ k t e.
          insert-Served s.key w v x.workers k t t.phase h
            (λ was. ground (arith, any-more k n w.buffer))))
      all

pub go_on-AllServed :
    (n : ℕ) (s : Submission) (p : Phase) (x : Workers) → AllServed x → AllServed (go_on n s p x)
go_on-AllServed n s drained x all = get_worker-AllServed n s x all
go_on-AllServed n s sending x all = send-AllServed n s (lookup s.key x.workers) x refl all
go_on-AllServed n s waiting x all = received s.answer
  where
    received : (o : Option (Option String)) → AllServed (receive n s o x)
    received none = all
    received (some e) =
        put-AllServed x n (with_phase (returned (Outcome.handler_said e)) s) x.workers all tt
          (keeps_all x n)
go_on-AllServed n s (returned o) x all = all

pub leave-AllServed :
    (o : Outcome) (n : ℕ) (s : Submission) (p : Phase) (x : Workers)
    → AllServed x
    → AllServed (leave o n s p x)
leave-AllServed o n s drained x all = all
leave-AllServed o n s sending x all =
    put-AllServed x n (with_phase (returned o) s) x.workers all tt (keeps_all x n)
leave-AllServed o n s waiting x all =
    put-AllServed x n (with_phase (returned o) s) x.workers all tt (keeps_all x n)
leave-AllServed o n s (returned r) x all = all

pub take-AllServed :
    (key : String) (w : Worker) (handling : Option ℕ) (buffer : List ℕ) (x : Workers)
    → lookup key x.workers ≡ some w
    → w.handling ≡ handling
    → w.buffer ≡ buffer
    → AllServed x
    → AllServed (take key w handling buffer x)
unfolding any
take-AllServed key w none [] x h a b all = all
take-AllServed key w none (n ∷ rest) x h a b all =
    let v = record w { buffer = rest; handling = some n } in
    if-lift {A = Workers} AllServed w.running _ _
      (workers-AllServed x (insert key v x.workers) all (λ k t at.
        insert-Served key w v x.workers k t t.phase h (λ was.
          sym (ap (λ o. has k o || any (nat_eq k) w.buffer) a ∙ ap (any (nat_eq k)) b) ∙ was)))
      all
take-AllServed key w (some m) [] x h a b all = all
take-AllServed key w (some m) (n ∷ rest) x h a b all = all
