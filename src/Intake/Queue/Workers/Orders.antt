-- ===== src/Intake/Queue/Workers/Orders.antt =====
-- internal/app/intake/queue.go: the order in which the handler gets the batches of a scope.
use mathlib.Core.List.{append-nil, append_assoc}
use lark_bridge_agent_sdk.Base.{
  ℕ, String, ◌≡◌, refl, sym, ap, ◌∙◌, false, Option, none, some, List, [], ◌∷◌, ◌++◌, ◌==◌, arith,
  eq_iff, if-lift, if◌then◌else◌,
}
use lark_bridge_agent_sdk.Base.Map.{Map, lookup, insert, lookup-insert}
use lark_bridge_agent_sdk.Intake.Queue.Workers.{
  Phase, drained, sending, waiting, returned, Submission, Worker, Workers, new_worker,
  submission_at, has_room, ensured, get_worker, send, receive, go_on, leave, take, answer, stop,
  Outcome, Move, submits, goes_on, context_ends, sees_closed, takes, stops, answers, closes,
  at_submission, at_worker, move, moves,
}

abbrev one : Option ℕ → List ℕ
one none = []
one (some n) = n ∷ []

-- What a worker got: what the handler had, has, and will have.
abbrev pub line_of : Option Worker → List ℕ
line_of none = []
line_of (some w) = w.handled ++ (one w.handling ++ w.buffer)

abbrev pub line : String → Workers → List ℕ
line k x = line_of (lookup k x.workers)

-- The submission whose item a worker of the scope `k` takes in a move.
abbrev room_for : ℕ → Option Worker → List ℕ
room_for n none = []
room_for n (some w) = if has_room w then n ∷ [] else []

abbrev entering : String → ℕ → Submission → Phase → Workers → List ℕ
entering k n s sending x = if s.key == k then room_for n (lookup s.key x.workers) else []
entering k n s _ x = []

abbrev entering_at : String → ℕ → Option Submission → Workers → List ℕ
entering_at k n none x = []
entering_at k n (some s) x = entering k n s s.phase x

unfoldable pub enters : String → Move → Workers → List ℕ
unfolding submission_at
enters k (goes_on n) x = entering_at k n (submission_at n x.submissions) x
enters k _ x = []

unfoldable pub all_enter : String → List Move → Workers → List ℕ
unfolding move enters
all_enter k [] x = []
all_enter k (m ∷ ms) x = enters k m x ++ all_enter k ms (move m x)

abbrev Extends : String → Workers → List ℕ → Workers → Type 0
Extends k x new y = line k y ≡ line k x ++ new

stays : (k : String) (x y : Workers) → lookup k y.workers ≡ lookup k x.workers → Extends k x [] y
stays k x y h = ap line_of h ∙ sym (append-nil (line k x))

ensured-line :
    (k key : String) (o : Option Worker) (m : Map Worker)
    → lookup key m ≡ o
    → line_of (lookup k (ensured key o m)) ≡ line_of (lookup k m)
ensured-line k key none m h = ground (arith, lookup-insert key k new_worker m, eq_iff key k)
ensured-line k key (some w) m h = refl

-- A worker that is replaced by one with the same line.
replaced-line :
    (k key : String) (w v : Worker) (m : Map Worker)
    → lookup key m ≡ some w
    → line_of (some v) ≡ line_of (some w)
    → line_of (lookup k (insert key v m)) ≡ line_of (lookup k m)
replaced-line k key w v m h same = ground (arith, lookup-insert key k v m, eq_iff key k)

get_worker-Extends :
    (k : String) (n : ℕ) (s : Submission) (x : Workers) → Extends k x [] (get_worker n s x)
get_worker-Extends k n s x =
    if-lift {A = Workers} (Extends k x []) x.closed _ _ (sym (append-nil (line k x)))
      (ensured-line k s.key (lookup s.key x.workers) x.workers refl ∙ sym (append-nil (line k x)))

sent-line :
    (k key : String) (n : ℕ) (w : Worker) (m : Map Worker)
    → lookup key m ≡ some w
    → line_of (lookup k (insert key (record w { buffer = w.buffer ++ n ∷ [] }) m))
      ≡ line_of (lookup k m) ++ (if key == k then n ∷ [] else [])
sent-line k key n w m h = ground (
  arith,
  lookup-insert key k (record w { buffer = w.buffer ++ n ∷ [] }) m,
  eq_iff key k,
  append-nil (line_of (lookup k m)),
  append_assoc w.handled (one w.handling ++ w.buffer) (n ∷ []),
  append_assoc (one w.handling) w.buffer (n ∷ []),
)

send-Extends :
    (k : String) (n : ℕ) (s : Submission) (x : Workers) (o : Option Worker)
    → lookup s.key x.workers ≡ o
    → Extends k x (if s.key == k then room_for n o else []) (send n s o x)
send-Extends k n s x none h = ground (arith, append-nil (line k x))
send-Extends k n s x (some w) h =
    ground (arith, sent-line k s.key n w x.workers h, append-nil (line k x))

go_on-Extends :
    (k : String) (n : ℕ) (s : Submission) (p : Phase) (x : Workers)
    → Extends k x (entering k n s p x) (go_on n s p x)
go_on-Extends k n s drained x = get_worker-Extends k n s x
go_on-Extends k n s sending x = send-Extends k n s x (lookup s.key x.workers) refl
go_on-Extends k n s waiting x = received s.answer
  where
    received : (o : Option (Option String)) → Extends k x [] (receive n s o x)
    received none = sym (append-nil (line k x))
    received (some e) = sym (append-nil (line k x))
go_on-Extends k n s (returned o) x = sym (append-nil (line k x))

leave-Extends :
    (k : String) (o : Outcome) (n : ℕ) (s : Submission) (p : Phase) (x : Workers)
    → Extends k x [] (leave o n s p x)
leave-Extends k o n s drained x = sym (append-nil (line k x))
leave-Extends k o n s sending x = sym (append-nil (line k x))
leave-Extends k o n s waiting x = sym (append-nil (line k x))
leave-Extends k o n s (returned r) x = sym (append-nil (line k x))

replaced-Extends :
    (k key : String) (w v : Worker) (x : Workers)
    → lookup key x.workers ≡ some w
    → line_of (some v) ≡ line_of (some w)
    → line_of (lookup k (insert key v x.workers)) ≡ line k x ++ []
replaced-Extends k key w v x h same =
    replaced-line k key w v x.workers h same ∙ sym (append-nil (line k x))

take-Extends :
    (k key : String) (w : Worker) (handling : Option ℕ) (buffer : List ℕ) (x : Workers)
    → lookup key x.workers ≡ some w
    → w.handling ≡ handling
    → w.buffer ≡ buffer
    → Extends k x [] (take key w handling buffer x)
take-Extends k key w none [] x h a b = sym (append-nil (line k x))
take-Extends k key w none (n ∷ rest) x h a b =
    if-lift {A = Workers} (Extends k x []) w.running _ _
      (replaced-Extends k key w (record w { buffer = rest; handling = some n }) x h
        (ap (λ c. w.handled ++ c) (sym (ap (λ o. one o ++ w.buffer) a ∙ b))))
      (sym (append-nil (line k x)))
take-Extends k key w (some m) [] x h a b = sym (append-nil (line k x))
take-Extends k key w (some m) (n ∷ rest) x h a b = sym (append-nil (line k x))

answer-Extends :
    (k key : String) (e : Option String) (w : Worker) (handling : Option ℕ) (x : Workers)
    → lookup key x.workers ≡ some w
    → w.handling ≡ handling
    → Extends k x [] (answer key e w handling x)
answer-Extends k key e w none x h a = sym (append-nil (line k x))
answer-Extends k key e w (some n) x h a =
    replaced-Extends k key w (record w { handling = none; handled = w.handled ++ n ∷ [] }) x h
      (append_assoc w.handled (n ∷ []) w.buffer
        ∙ ap (λ o. w.handled ++ (one o ++ w.buffer)) (sym a))

stop-Extends :
    (k key : String) (w : Worker) (handling : Option ℕ) (x : Workers)
    → lookup key x.workers ≡ some w
    → Extends k x [] (stop key w handling x)
stop-Extends k key w none x h =
    if-lift {A = Workers} (Extends k x []) x.closed _ _
      (replaced-Extends k key w (record w { running = false }) x h refl)
      (sym (append-nil (line k x)))
stop-Extends k key w (some n) x h = sym (append-nil (line k x))

at_worker-Extends :
    (k key : String) (f : Worker → Workers) (x : Workers) (o : Option Worker)
    → lookup key x.workers ≡ o
    → ((w : Worker) → lookup key x.workers ≡ some w → Extends k x [] (f w))
    → Extends k x [] (at_worker o f x)
at_worker-Extends k key f x none h each = sym (append-nil (line k x))
at_worker-Extends k key f x (some w) h each = each w h

at_submission-Extends :
    (k : String) (f : Submission → Workers) (x : Workers) (o : Option Submission)
    → ((s : Submission) → Extends k x [] (f s))
    → Extends k x [] (at_submission o f x)
at_submission-Extends k f x none each = sym (append-nil (line k x))
at_submission-Extends k f x (some s) each = each s

move-Extends : (k : String) (m : Move) (x : Workers) → Extends k x (enters k m x) (move m x)
unfolding move enters
move-Extends k (submits batch) x = sym (append-nil (line k x))
move-Extends k (goes_on n) x = at (submission_at n x.submissions)
  where
    at :
        (o : Option Submission)
        → Extends k x (entering_at k n o x) (at_submission o (λ s. go_on n s s.phase x) x)
    at none = sym (append-nil (line k x))
    at (some s) = go_on-Extends k n s s.phase x
move-Extends k (context_ends n) x =
    at_submission-Extends k _ x (submission_at n x.submissions)
      (λ s. leave-Extends k Outcome.context_ended n s s.phase x)
move-Extends k (sees_closed n) x =
    if-lift {A = Workers} (Extends k x []) x.closed _ _
      (at_submission-Extends k _ x (submission_at n x.submissions)
        (λ s. leave-Extends k Outcome.closed_queue n s s.phase x))
      (sym (append-nil (line k x)))
move-Extends k (takes key) x =
    at_worker-Extends k key _ x (lookup key x.workers) refl
      (λ w h. take-Extends k key w w.handling w.buffer x h refl refl)
move-Extends k (answers key e) x =
    at_worker-Extends k key _ x (lookup key x.workers) refl
      (λ w h. answer-Extends k key e w w.handling x h refl)
move-Extends k (stops key) x =
    at_worker-Extends k key _ x (lookup key x.workers) refl
      (λ w h. stop-Extends k key w w.handling x h)
move-Extends k closes x = sym (append-nil (line k x))

-- However the goroutines take turns, the worker of a scope hands its batches to the handler one at a
-- time and in the order in which its channel took them, each once and none that it did not take:
-- what the handler had, has and will have is what the worker held before, followed by what it took
-- since. This holds across `Close` and where those who submitted have given up.
pub moves-line :
    (k : String) (ms : List Move) (x : Workers) → line k (moves ms x) ≡ line k x ++ all_enter k ms x
unfolding moves all_enter
moves-line k [] x = sym (append-nil (line k x))
moves-line k (m ∷ ms) x =
    moves-line k ms (move m x)
    ∙ ap (λ l. l ++ all_enter k ms (move m x)) (move-Extends k m x)
    ∙ append_assoc (line k x) (enters k m x) (all_enter k ms (move m x))
