-- ===== src/CardState/Terminal.antt =====
-- internal/app/cardrender/state.go: the end of a run on its card.
use lark_bridge_agent_sdk.Base.{
  ℕ, ◌≡◌, refl, sym, subst, ◌∙◌, Option, none, some, Bool, true, false, List, [], ◌∷◌, arith, any,
  ◌||◌, if-lift,
}
use lark_bridge_agent_sdk.CardState.{
  RunStatus, succeeded, failed, cancelled, timed_out, EventType, is_end, done, error, no_footer,
  Event, TerminationReason, RunState,
}
use lark_bridge_agent_sdk.CardState.Reduce.{
  apply, reduce, reduce_all, stamp, apply_metadata, status_from_termination, finalize_if_running,
  is_queued, is_running, is_failed, settle,
}
use lark_bridge_agent_sdk.CardState.Streaming.{
  LastOpen, AllClosed, close_streaming-AllClosed, stamp-blocks,
}

abbrev pub is_terminal : RunStatus → Bool
is_terminal succeeded = true
is_terminal failed = true
is_terminal cancelled = true
is_terminal timed_out = true
is_terminal _ = false

-- What a card shows of a run that is over.
pub record IsSettled (s : RunState) : Type 0 where
  pub closed : AllClosed s.blocks
  pub quiet : s.reasoning.active ≡ false
  pub bare : s.footer ≡ no_footer
  pub terminal : is_terminal s.status ≡ true

status_from_termination-terminal :
    (r : TerminationReason) (b : Bool) → is_terminal (status_from_termination r b) ≡ true
unfolding status_from_termination
status_from_termination-terminal r b = ground arith

settle-IsSettled :
    (status : RunStatus) (s : RunState)
    → is_terminal status ≡ true
    → LastOpen s.blocks
    → IsSettled (settle status s)
settle-IsSettled status s t h = record {
  closed = close_streaming-AllClosed s.blocks h;
  quiet = refl;
  bare = refl;
  terminal = t;
}

apply-IsSettled :
    (t : EventType) (e : Event) (s : RunState)
    → is_end t ≡ true
    → LastOpen s.blocks
    → IsSettled (apply t e s)
unfolding apply
apply-IsSettled done e s _ h =
    settle-IsSettled _ s (status_from_termination-terminal e.termination_reason false) h
apply-IsSettled error e s _ h =
    let over =
      settle-IsSettled (status_from_termination e.termination_reason true) s
        (status_from_termination-terminal e.termination_reason true) h in
    if-lift {A = RunState} IsSettled (is_failed (status_from_termination e.termination_reason true))
      _ _ (record { closed = over.closed; quiet = refl; bare = refl; terminal = over.terminal })
      over
apply-IsSettled _ e s n h = absurd (cc n)

-- A done or an error event, whatever its reason, is_end the run on the card: nothing streams any
-- more, no reasoning is active, no footer is shown, and the status is one of the four final ones.
pub reduce-IsSettled :
    (s : RunState) (e : Event) → LastOpen s.blocks → is_end e.type ≡ true → IsSettled (reduce s e)
unfolding reduce apply_metadata
reduce-IsSettled s e h t =
    apply-IsSettled e.type e _ t (subst LastOpen (sym (stamp-blocks e.at _)) h)

stamp-status : (at : Option ℕ) (s : RunState) → (stamp at s).status ≡ s.status
unfolding stamp
stamp-status none s = refl
stamp-status (some at) s = refl

apply-status :
    (t : EventType) (e : Event) (s : RunState)
    → is_end t ≡ false
    → is_terminal s.status ≡ true
    → (apply t e s).status ≡ s.status
unfolding apply
apply-status t e s n h = ground arith

reduce-status :
    (s : RunState) (e : Event)
    → is_end e.type ≡ false
    → is_terminal s.status ≡ true
    → (reduce s e).status ≡ s.status
unfolding reduce apply_metadata
reduce-status s e n h =
    let same = stamp-status e.at (record (apply_metadata s e) { last_event = some e.type }) in
    apply-status e.type e _ n (subst (λ x. is_terminal x ≡ true) (sym same) h) ∙ same

-- A final status stays through any late events but another done or error; a run that was marked as
-- cancelled or timed out is therefore not revived by what its process still sends.
pub reduce_all-status :
    (s : RunState) (es : List Event)
    → is_terminal s.status ≡ true
    → any (λ e. is_end e.type) es ≡ false
    → (reduce_all s es).status ≡ s.status
unfolding reduce_all any
reduce_all-status s [] h n = refl
reduce_all-status s (e ∷ es) h n =
    let same = reduce-status s e (ground arith) h in
    reduce_all-status (reduce s e) es (subst (λ x. is_terminal x ≡ true) (sym same) h)
      (ground arith)
    ∙ same

-- Finalising a card settles a run that was queued or running, as succeeded, leaves a run with a
-- final status as it is, and is idempotent.
pub finalize_if_running_lem :
    (s : RunState)
    → LastOpen s.blocks
    → ((is_running s.status || is_queued s.status) ≡ true
        → IsSettled (finalize_if_running s) × ((finalize_if_running s).status ≡ succeeded))
      × (is_terminal s.status ≡ true → finalize_if_running s ≡ s)
      × (finalize_if_running (finalize_if_running s) ≡ finalize_if_running s)
unfolding finalize_if_running
finalize_if_running_lem s h = (
  λ live. rw live (settle-IsSettled succeeded s refl h, refl),
  λ over. ground arith,
  ground arith,
)
