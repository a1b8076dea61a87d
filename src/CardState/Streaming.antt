-- ===== src/CardState/Streaming.antt =====
-- internal/app/cardrender/state.go: which block of the card is still being written.
use lark_bridge_agent_sdk.Base.{
  ℕ, ◌≡◌, refl, Option, none, some, subst, sym, true, false, List, [], ◌∷◌, ◌++◌, arith, if-lift,
}
use lark_bridge_agent_sdk.CardState.{
  EventType, system, text, user_action, thinking, tool_use, tool_result, usage, done, error,
  other_event, Event, Block, RunState, RunStateInput,
}
use lark_bridge_agent_sdk.CardState.Blocks.{
  is_text, close_block, close_streaming, last_accepts, extend_last, add_text, text_block,
  tool_block, finish_block, finish_tools,
}
use lark_bridge_agent_sdk.CardState.Reduce.{
  new_run_state, apply, reduce, reduce_all, stamp, apply_metadata, is_failed, is_queued,
  status_from_termination,
}

-- Only the last block may be streaming, and only if it is a text block.
abbrev pub LastOpen : List Block → Type 0
LastOpen [] = Unit {0}
LastOpen (b ∷ []) = b.streaming ≡ true → is_text b.kind ≡ true
LastOpen (b ∷ c ∷ bs) = (b.streaming ≡ false) × LastOpen (c ∷ bs)

abbrev pub AllClosed : List Block → Type 0
AllClosed [] = Unit {0}
AllClosed (b ∷ bs) = (b.streaming ≡ false) × AllClosed bs

close_block-closed :
    (b : Block) → (b.streaming ≡ true → is_text b.kind ≡ true) → (close_block b).streaming ≡ false
unfolding close_block
close_block-closed b h = ground (arith, h)

pub close_streaming-AllClosed : (bs : List Block) → LastOpen bs → AllClosed (close_streaming bs)
unfolding close_streaming
close_streaming-AllClosed [] h = tt
close_streaming-AllClosed (b ∷ []) h = (close_block-closed b h, tt)
close_streaming-AllClosed (b ∷ c ∷ bs) (h, t) =
    (close_block-closed b (λ e. ground arith), close_streaming-AllClosed (c ∷ bs) t)

AllClosed-LastOpen : (bs : List Block) → AllClosed bs → LastOpen bs
AllClosed-LastOpen [] h = tt
AllClosed-LastOpen (b ∷ []) h = λ e. ground arith
AllClosed-LastOpen (b ∷ c ∷ bs) (h, t) = (h, AllClosed-LastOpen (c ∷ bs) t)

append-LastOpen :
    (bs : List Block) (b : Block)
    → AllClosed bs
    → (b.streaming ≡ true → is_text b.kind ≡ true)
    → LastOpen (bs ++ b ∷ [])
append-LastOpen [] b h k = k
append-LastOpen (a ∷ []) b h k = (h.0, k)
append-LastOpen (a ∷ c ∷ bs) b (h, t) k = (h, append-LastOpen (c ∷ bs) b t k)

extend_last-LastOpen : (e : Event) (bs : List Block) → LastOpen bs → LastOpen (extend_last e bs)
unfolding extend_last
extend_last-LastOpen e [] h = tt
extend_last-LastOpen e (b ∷ []) h = h
extend_last-LastOpen e (b ∷ c ∷ []) h = h
extend_last-LastOpen e (b ∷ c ∷ d ∷ bs) (h, t) = (h, extend_last-LastOpen e (c ∷ d ∷ bs) t)

finish_tools-LastOpen : (e : Event) (bs : List Block) → LastOpen bs → LastOpen (finish_tools e bs)
unfolding finish_tools finish_block
finish_tools-LastOpen e [] h = tt
finish_tools-LastOpen e (b ∷ []) h = h
finish_tools-LastOpen e (b ∷ c ∷ bs) (h, t) = (h, finish_tools-LastOpen e (c ∷ bs) t)

add_text-LastOpen : (e : Event) (bs : List Block) → LastOpen bs → LastOpen (add_text e bs)
unfolding add_text text_block
add_text-LastOpen e bs h = if-lift LastOpen (last_accepts e bs) _ _ (extend_last-LastOpen e bs h) (
    append-LastOpen (close_streaming bs) (text_block e) (close_streaming-AllClosed bs h)
      (λ _. refl))

settled-LastOpen : (bs : List Block) → LastOpen bs → LastOpen (close_streaming bs)
settled-LastOpen bs h = AllClosed-LastOpen (close_streaming bs) (close_streaming-AllClosed bs h)

apply-LastOpen :
    (t : EventType) (e : Event) (s : RunState) → LastOpen s.blocks → LastOpen (apply t e s).blocks
unfolding apply tool_block
apply-LastOpen text e s h = add_text-LastOpen e s.blocks h
apply-LastOpen user_action e s h = settled-LastOpen s.blocks h
apply-LastOpen thinking e s h = h
apply-LastOpen tool_use e s h =
    append-LastOpen (close_streaming s.blocks) (tool_block e) (close_streaming-AllClosed s.blocks h)
      (λ f. cc)
apply-LastOpen tool_result e s h = finish_tools-LastOpen e s.blocks h
apply-LastOpen usage e s h = h
apply-LastOpen error e s h =
    if-lift {A = RunState} (λ r. LastOpen r.blocks)
      (is_failed (status_from_termination e.termination_reason true)) _ _
      (settled-LastOpen s.blocks h) (settled-LastOpen s.blocks h)
apply-LastOpen done e s h = settled-LastOpen s.blocks h
apply-LastOpen system e s h =
    if-lift {A = RunState} (λ r. LastOpen r.blocks) (is_queued s.status) _ _ h h
apply-LastOpen (other_event name) e s h = h

pub stamp-blocks : (at : Option ℕ) (s : RunState) → (stamp at s).blocks ≡ s.blocks
unfolding stamp
stamp-blocks none s = refl
stamp-blocks (some at) s = refl

reduce-LastOpen : (s : RunState) (e : Event) → LastOpen s.blocks → LastOpen (reduce s e).blocks
unfolding reduce apply_metadata
reduce-LastOpen s e h = apply-LastOpen e.type e _ (subst LastOpen (sym (stamp-blocks e.at _)) h)

pub reduce_all-LastOpen :
    (s : RunState) (es : List Event) → LastOpen s.blocks → LastOpen (reduce_all s es).blocks
unfolding reduce_all
reduce_all-LastOpen s [] h = h
reduce_all-LastOpen s (e ∷ es) h = reduce_all-LastOpen (reduce s e) es (reduce-LastOpen s e h)

-- Whatever events a run sends, at most the last block of its card is being streamed, and then it
-- is a text block.
pub new_run_state-LastOpen :
    (input : RunStateInput) (es : List Event)
    → LastOpen (reduce_all (new_run_state input) es).blocks
unfolding new_run_state
new_run_state-LastOpen input es = reduce_all-LastOpen (new_run_state input) es tt
