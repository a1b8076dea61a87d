-- ===== src/Intake/Queue/Workers.antt =====
-- internal/app/intake/queue.go: `submit`, `worker` and `runWorker`. A move is what one goroutine does
-- under the mutex or at a channel; a history is a list of moves. A submission is known by its number.
-- The handler is there; its errors come with the moves. After `Close` the map of workers is read no
-- more, so that the goroutines which it pointed to stay in it here.

pub mod Orders
pub mod Placed
pub mod Served
pub mod Answered
mod Tests
use lark_bridge_agent_sdk.Base.{
  ℕ, zero, suc, String, Bool, true, false, not, ◌&&◌, ◌||◌, Option, none, some, List, [], ◌∷◌, ◌++◌,
  ltb, nat_eq, length, if◌then◌else◌,
}
use lark_bridge_agent_sdk.Base.Map.{Map, lookup, insert}
use lark_bridge_agent_sdk.Intake.Queue.{Batch}

-- What `submit` returns.
pub data Outcome : Type 0 where
  handler_said : Option String → Outcome
  context_ended closed_queue : Outcome

pub data Phase : Type 0 where
  drained sending waiting : Phase
  returned : Outcome → Phase

-- A call of `submit`; `answer` is what its channel `done` holds.
pub record Submission : Type 0 where
  pub key : String
  pub batch : Batch
  pub phase : Phase
  pub answer : Option (Option String)

-- A worker of a scope: its channel, the batch that the handler has, and those that it had, in order.
pub record Worker : Type 0 where
  pub buffer : List ℕ
  pub handling : Option ℕ
  pub handled : List ℕ
  pub running : Bool

pub record Workers : Type 0 where
  pub closed : Bool
  pub workers : Map Worker
  pub submissions : List Submission

abbrev pub new_workers : Workers
new_workers = record { closed = false; workers = []; submissions = [] }

abbrev pub new_worker : Worker
new_worker = record { buffer = []; handling = none; handled = []; running = true }

unfoldable pub submission_at : ℕ → List Submission → Option Submission
submission_at n [] = none
submission_at zero (s ∷ ss) = some s
submission_at (suc n) (s ∷ ss) = submission_at n ss

unfoldable pub put : ℕ → Submission → List Submission → List Submission
put n s [] = []
put zero s (t ∷ ss) = s ∷ ss
put (suc n) s (t ∷ ss) = t ∷ put n s ss

abbrev pub with_phase : Phase → Submission → Submission
with_phase p s = record s { phase = p }

abbrev worker_buffer : ℕ
worker_buffer = 16

abbrev pub has_room : Worker → Bool
has_room w = ltb (length w.buffer) worker_buffer

-- `worker`: the worker of the scope, made where there is none.
abbrev pub ensured : String → Option Worker → Map Worker → Map Worker
ensured key none workers = insert key new_worker workers
ensured key (some w) workers = workers

abbrev pub get_worker : ℕ → Submission → Workers → Workers
get_worker n s x =
    if x.closed
    then record x { submissions = put n (with_phase (returned closed_queue) s) x.submissions }
    else record x {
      submissions = put n (with_phase sending s) x.submissions;
      workers = ensured s.key (lookup s.key x.workers) x.workers;
    }

-- The channel of the worker takes the item while there is room.
abbrev pub send : ℕ → Submission → Option Worker → Workers → Workers
send n s none x = x
send n s (some w) x =
    if has_room w
    then record x {
      submissions = put n (with_phase waiting s) x.submissions;
      workers = insert s.key (record w { buffer = w.buffer ++ n ∷ [] }) x.workers;
    }
    else x

-- The channel `done` is read.
abbrev pub receive : ℕ → Submission → Option (Option String) → Workers → Workers
receive n s none x = x
receive n s (some e) x = record x {
  submissions = put n (with_phase (returned (handler_said e)) s) x.submissions;
}

-- `submit` by its number goes on.
abbrev pub go_on : ℕ → Submission → Phase → Workers → Workers
go_on n s drained x = get_worker n s x
go_on n s sending x = send n s (lookup s.key x.workers) x
go_on n s waiting x = receive n s s.answer x
go_on n s (returned o) x = x

-- The other arms of its two `select`s.
abbrev pub leave : Outcome → ℕ → Submission → Phase → Workers → Workers
leave o n s sending x = record x { submissions = put n (with_phase (returned o) s) x.submissions }
leave o n s waiting x = record x { submissions = put n (with_phase (returned o) s) x.submissions }
leave o n s _ x = x

-- `runWorker` receives an item.
abbrev pub take : String → Worker → Option ℕ → List ℕ → Workers → Workers
take key w none (n ∷ rest) x =
    if w.running
    then record x { workers = insert key (record w { buffer = rest; handling = some n }) x.workers }
    else x
take key w _ _ x = x

abbrev pub answered : Option String → Submission → Submission
answered e s = record s { answer = some e }

abbrev pub answer_to : Option String → ℕ → Option Submission → List Submission → List Submission
answer_to e n none ss = ss
answer_to e n (some s) ss = put n (answered e s) ss

-- The handler returns, and its error goes to the submission.
abbrev pub answer : String → Option String → Worker → Option ℕ → Workers → Workers
answer key e w none x = x
answer key e w (some n) x = record x {
  workers = insert key (record w { handling = none; handled = w.handled ++ n ∷ [] }) x.workers;
  submissions = answer_to e n (submission_at n x.submissions) x.submissions;
}

-- `runWorker` sees that the queue is closed.
abbrev pub stop : String → Worker → Option ℕ → Workers → Workers
stop key w none x =
    if x.closed
    then record x { workers = insert key (record w { running = false }) x.workers }
    else x
stop key w (some n) x = x

pub data Move : Type 0 where
  submits : Batch → Move
  goes_on context_ends sees_closed : ℕ → Move
  takes stops : String → Move
  answers : String → Option String → Move
  closes : Move

abbrev pub new_submission : Batch → Submission
new_submission batch = record {
  key = batch.scope.key;
  batch = batch;
  phase = drained;
  answer = none;
}

abbrev pub at_submission : Option Submission → (Submission → Workers) → Workers → Workers
at_submission none f x = x
at_submission (some s) f x = f s

abbrev pub at_worker : Option Worker → (Worker → Workers) → Workers → Workers
at_worker none f x = x
at_worker (some w) f x = f w

unfoldable pub move : Move → Workers → Workers
unfolding submission_at put
move (submits batch) x = record x { submissions = x.submissions ++ new_submission batch ∷ [] }
move (goes_on n) x = at_submission (submission_at n x.submissions) (λ s. go_on n s s.phase x) x
move (context_ends n) x =
    at_submission (submission_at n x.submissions) (λ s. leave context_ended n s s.phase x) x
move (sees_closed n) x =
    if x.closed
    then at_submission (submission_at n x.submissions) (λ s. leave closed_queue n s s.phase x) x
    else x
move (takes key) x = at_worker (lookup key x.workers) (λ w. take key w w.handling w.buffer x) x
move (answers key e) x = at_worker (lookup key x.workers) (λ w. answer key e w w.handling x) x
move (stops key) x = at_worker (lookup key x.workers) (λ w. stop key w w.handling x) x
move closes x = record x { closed = true }

unfoldable pub moves : List Move → Workers → Workers
unfolding move
moves [] x = x
moves (m ∷ ms) x = moves ms (move m x)
