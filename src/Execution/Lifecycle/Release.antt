-- ===== src/Execution/Lifecycle/Release.antt =====
-- internal/app/runexecutor/run_executor.go: the slot of an execution goes back exactly once.
use lark_bridge_agent_sdk.Base.{
  ℕ, ◌-◌, ◌≡◌, Bool, true, false, List, [], ◌∷◌, arith, any, or-split, if-lift, inl, inr,
  if◌then◌else◌,
}
use lark_bridge_agent_sdk.Execution.Pool.Accounting.{release-active}
use lark_bridge_agent_sdk.Execution.Submit.{World}
use lark_bridge_agent_sdk.Execution.Lifecycle.{
  Execution, clean_up_once, Event, stop, stream_ends, step, steps, stop_body,
}

-- An event that certainly ends the execution.
abbrev pub is_end : Event → Bool
is_end (stop capacity stop_fails) = false
is_end (stream_ends capacity exited) = true

-- The slots that are left once `cleaned` of this execution are taken off.
abbrev Owes : ℕ → Execution × World → Type 0
Owes n (x, w) = w.pool.active ≡ (if x.cleaned then n - 1 else n)

clean_up_once-Owes :
    (n c : ℕ) (wait exited : Bool) (s : Execution × World)
    → Owes n s
    → Owes n (clean_up_once c wait exited s)
unfolding clean_up_once
clean_up_once-Owes n c wait exited (x, w) h = ground (arith, release-active c w.pool)

clean_up_once-cleaned :
    (c : ℕ) (wait exited : Bool) (s : Execution × World)
    → (clean_up_once c wait exited s).0.cleaned ≡ true
unfolding clean_up_once
clean_up_once-cleaned c wait exited (x, w) = ground arith

stop_body-Owes :
    (n c : ℕ) (fails : Bool) (s : Execution × World) → Owes n s → Owes n (stop_body c fails s)
unfolding stop_body
stop_body-Owes n c true (x, w) h = h
stop_body-Owes n c false (x, w) h = clean_up_once-Owes n c false false _ h

step-Owes : (n : ℕ) (e : Event) (s : Execution × World) → Owes n s → Owes n (step e s)
unfolding step
step-Owes n (stop c fails) (x, w) h =
    if-lift (Owes n) x.stop_called _ _ h (stop_body-Owes n c fails (x, w) h)
step-Owes n (stream_ends c exited) (x, w) h = clean_up_once-Owes n c _ exited (x, w) h

step-end : (e : Event) (s : Execution × World) → is_end e ≡ true → (step e s).0.cleaned ≡ true
unfolding step
step-end (stop c fails) s h = absurd (cc h)
step-end (stream_ends c exited) (x, w) h = clean_up_once-cleaned c _ exited (x, w)

abbrev IsCleaned : Execution × World → Type 0
IsCleaned s = s.0.cleaned ≡ true

stop_body-IsCleaned :
    (c : ℕ) (fails : Bool) (s : Execution × World) → IsCleaned s → IsCleaned (stop_body c fails s)
unfolding stop_body
stop_body-IsCleaned c true (x, w) h = h
stop_body-IsCleaned c false (x, w) h = clean_up_once-cleaned c false false _

step-IsCleaned : (e : Event) (s : Execution × World) → IsCleaned s → IsCleaned (step e s)
unfolding step
step-IsCleaned (stop c fails) (x, w) h =
    if-lift IsCleaned x.stop_called _ _ h (stop_body-IsCleaned c fails (x, w) h)
step-IsCleaned (stream_ends c exited) (x, w) h = clean_up_once-cleaned c _ exited (x, w)

steps-Owes : (n : ℕ) (es : List Event) (s : Execution × World) → Owes n s → Owes n (steps es s)
unfolding steps
steps-Owes n [] s h = h
steps-Owes n (e ∷ es) s h = steps-Owes n es (step e s) (step-Owes n e s h)

steps-IsCleaned :
    (es : List Event) (s : Execution × World) → s.0.cleaned ≡ true → (steps es s).0.cleaned ≡ true
unfolding steps
steps-IsCleaned [] s h = h
steps-IsCleaned (e ∷ es) s h = steps-IsCleaned es (step e s) (step-IsCleaned e s h)

steps-end :
    (n : ℕ) (es : List Event) (s : Execution × World)
    → Owes n s
    → any is_end es ≡ true
    → (steps es s).0.cleaned ≡ true
unfolding steps any
steps-end n [] s h e = absurd (cc e)
steps-end n (e ∷ es) s h end = elim (or-split (is_end e) (any is_end es) end) [
  | inl now ↦ steps-IsCleaned es (step e s) (step-end e s now)
  | inr later ↦ steps-end n es (step e s) (step-Owes n e s h) later
]

-- However often an execution is stopped and in whatever order its stream ends, its slot of the
-- pool is given back at most once, and exactly once as soon as the stream has ended.
pub steps_release_once :
    (es : List Event) (x : Execution) (w : World)
    → x.cleaned ≡ false
    → let (x', w') = steps es (x, w) in
      (w'.pool.active ≡ (if x'.cleaned then w.pool.active - 1 else w.pool.active))
      × (any is_end es ≡ true → w'.pool.active ≡ w.pool.active - 1)
steps_release_once es x w fresh =
    let owes = steps-Owes w.pool.active es (x, w) (ground arith) in
    (owes, λ e. ground (arith, owes, steps-end w.pool.active es (x, w) (ground arith) e))
