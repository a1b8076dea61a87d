-- ===== src/Intake/Queue/Delivery.antt =====
-- internal/app/intake/queue.go: no event is lost, repeated or reordered.
use mathlib.Core.List.{append-nil, append_assoc}
use lark_bridge_agent_sdk.Base.{
  ℕ, String, ◌≡◌, refl, sym, ap, ◌∙◌, false, Option, none, some, List, [], ◌∷◌, ◌++◌, arith, eq_iff,
  any, if-lift,
}
use lark_bridge_agent_sdk.Base.Map.{Map, lookup, lookup-insert, lookup-delete}
use lark_bridge_agent_sdk.Intake.Types.{NormalizedEvent}
use lark_bridge_agent_sdk.Intake.Queue.{
  Queue, Pending, push, pushed, block, unblock, drain, cancel, arms, disarm, rearm, no_timer, armed,
}
use lark_bridge_agent_sdk.Intake.Queue.Trace.{
  Call, pushes, blocks, unblocks, flushes, cancels, cancels_all, closes, call, calls, handed_out,
  taken_in, all_handed_out, all_taken_in, waiting, waiting_of, discards,
}

-- A call hands out what waited, or keeps it, and adds what it takes in at the end.
abbrev Keeps : String → Call → Queue → Type 0
Keeps k c q = handed_out k c q ++ waiting k (call c q) ≡ waiting k q ++ taken_in k c q

push-Keeps : (k : String) (event : NormalizedEvent) (q : Queue) → Keeps k (pushes event) q
unfolding call handed_out taken_in push pushed
push-Keeps k event q =
    let key = event.scope.key in
    let entry = pushed event (arms key q) (lookup key q.pending) in
    ground (arith, lookup-insert key k entry q.pending, eq_iff key k, append-nil (waiting k q))

disarm-waiting :
    (k key : String) (o : Option Pending) (m : Map Pending)
    → lookup key m ≡ o
    → waiting_of (lookup k (disarm key o m)) ≡ waiting_of (lookup k m)
disarm-waiting k key none m h = refl
disarm-waiting k key (some entry) m h =
    ground (arith, lookup-insert key k (record entry { timer = no_timer }) m, eq_iff key k)

rearm-waiting :
    (n : ℕ) (k key : String) (o : Option Pending) (m : Map Pending)
    → lookup key m ≡ o
    → waiting_of (lookup k (rearm n key o m)) ≡ waiting_of (lookup k m)
rearm-waiting n k key none m h = refl
rearm-waiting n k key (some entry) m h =
    ground (arith, lookup-insert key k (record entry { timer = armed }) m, eq_iff key k)

block-Keeps : (k key : String) (q : Queue) → Keeps k (blocks key) q
unfolding call handed_out taken_in block
block-Keeps k key q =
    if-lift {A = Queue} (λ r. waiting k r ≡ waiting k q ++ []) q.closed _ _
      (sym (append-nil (waiting k q)))
      (disarm-waiting k key (lookup key q.pending) q.pending refl ∙ sym (append-nil (waiting k q)))

unblock-Keeps : (k key : String) (q : Queue) → Keeps k (unblocks key) q
unfolding call handed_out taken_in unblock
unblock-Keeps k key q =
    if-lift {A = Queue} (λ r. waiting k r ≡ waiting k q ++ []) q.closed _ _
      (sym (append-nil (waiting k q)))
      (rearm-waiting q.quiet_period k key (lookup key q.pending) q.pending refl
        ∙ sym (append-nil (waiting k q)))

flush-Keeps : (k key : String) (q : Queue) → Keeps k (flushes key) q
unfolding call handed_out taken_in drain
flush-Keeps k key q =
    ground (arith, lookup-delete key k q.pending, eq_iff key k, append-nil (waiting k q))

cancel-Keeps : (k key : String) (q : Queue) → Keeps k (cancels key) q
unfolding call handed_out taken_in cancel
cancel-Keeps k key q =
    ground (arith, lookup-delete key k q.pending, eq_iff key k, append-nil (waiting k q))

call-Keeps : (k : String) (c : Call) (q : Queue) → discards c ≡ false → Keeps k c q
call-Keeps k (pushes event) q h = push-Keeps k event q
call-Keeps k (blocks key) q h = block-Keeps k key q
call-Keeps k (unblocks key) q h = unblock-Keeps k key q
call-Keeps k (flushes key) q h = flush-Keeps k key q
call-Keeps k (cancels key) q h = cancel-Keeps k key q
call-Keeps k cancels_all q h = absurd (cc h)
call-Keeps k closes q h = absurd (cc h)

-- Over any calls but `CancelAll` and `Close`, in any order, what the batches and cancellations of a
-- scope hand out, followed by what still waits for it, is what waited before followed by the events
-- that the queue accepted for it: each once, and in the order in which they were pushed.
pub calls_deliver :
    (k : String) (cs : List Call) (q : Queue)
    → any discards cs ≡ false
    → all_handed_out k cs q ++ waiting k (calls cs q) ≡ waiting k q ++ all_taken_in k cs q
unfolding calls all_handed_out all_taken_in any
calls_deliver k [] q h = sym (append-nil (waiting k q))
calls_deliver k (c ∷ cs) q h =
    append_assoc (handed_out k c q) (all_handed_out k cs (call c q)) _
    ∙ (ap (λ xs. handed_out k c q ++ xs) (calls_deliver k cs (call c q) (ground arith))
        ∙ (sym (append_assoc (handed_out k c q) (waiting k (call c q)) _)
            ∙ (ap (λ xs. xs ++ all_taken_in k cs (call c q)) (call-Keeps k c q (ground arith))
                ∙ append_assoc (waiting k q) (taken_in k c q) _)))
