-- ===== src/CardState/Transcript.antt =====
-- internal/app/cardrender/state.go: the text on the card is the text that the run sent.
use package.text.Mathlib.TextLemmas.{append_assoc, append-nil, nil-append}
use lark_bridge_agent_sdk.Base.{
  String, ◌≡◌, refl, sym, ap, ◌∙◌, true, List, [], ◌∷◌, ◌++◌, arith, if◌then◌else◌, if-lift,
  Bool-cases, inl, inr,
}
use lark_bridge_agent_sdk.CardState.{
  EventType, system, text, user_action, thinking, tool_use, tool_result, usage, done, error,
  other_event, Event, Block, RunState,
}
use lark_bridge_agent_sdk.CardState.Blocks.{
  value, append_text, is_text, close_streaming, last_accepts, accepts, extend_last, with_delta,
  add_text, text_block, tool_block, finish_block, finish_tools,
}
use lark_bridge_agent_sdk.CardState.Reduce.{
  apply, reduce, reduce_all, apply_metadata, is_failed, is_queued, status_from_termination,
}
use lark_bridge_agent_sdk.CardState.Streaming.{stamp-blocks}

abbrev pub text_of_block : Block → String
text_of_block b = if is_text b.kind then b.content else ""

-- The text of a card, block by block.
abbrev pub text_of : List Block → String
text_of [] = ""
text_of (b ∷ bs) = append_text (text_of_block b) (text_of bs)

-- What an event adds to the text: the delta of a text event, and nothing else.
abbrev pub delta_of : EventType → Event → String
delta_of text e = value e.delta
delta_of _ e = ""

abbrev pub deltas : List Event → String
deltas [] = ""
deltas (e ∷ es) = append_text (delta_of e.type e) (deltas es)

text_of-append :
    (bs : List Block) (b : Block)
    → text_of (bs ++ b ∷ []) ≡ append_text (text_of bs) (text_of_block b)
text_of-append [] b = append-nil (text_of_block b) ∙ sym (nil-append (text_of_block b))
text_of-append (a ∷ bs) b =
    ap (append_text (text_of_block a)) (text_of-append bs b)
    ∙ sym (append_assoc (text_of_block a) (text_of bs) (text_of_block b))

pub text_of-close : (bs : List Block) → text_of (close_streaming bs) ≡ text_of bs
unfolding close_streaming
text_of-close [] = refl
text_of-close (b ∷ bs) = ground (arith, text_of-close bs)

text_of-finish : (e : Event) (bs : List Block) → text_of (finish_tools e bs) ≡ text_of bs
unfolding finish_tools finish_block
text_of-finish e [] = refl
text_of-finish e (b ∷ bs) = ground (arith, text_of-finish e bs)

accepts-text :
    (e : Event) (b : Block)
    → accepts e b ≡ true
    → text_of_block (with_delta e b) ≡ append_text (text_of_block b) (value e.delta)
unfolding accepts with_delta
accepts-text e b h = ground arith

text_of-extend :
    (e : Event) (bs : List Block)
    → last_accepts e bs ≡ true
    → text_of (extend_last e bs) ≡ append_text (text_of bs) (value e.delta)
unfolding extend_last last_accepts
text_of-extend e [] h = absurd (cc h)
text_of-extend e (b ∷ []) h =
    append-nil (text_of_block (with_delta e b))
    ∙ (accepts-text e b h
        ∙ ap (λ t. append_text t (value e.delta)) (sym (append-nil (text_of_block b))))
text_of-extend e (b ∷ c ∷ bs) h =
    ap (append_text (text_of_block b)) (text_of-extend e (c ∷ bs) h)
    ∙ sym (append_assoc (text_of_block b) (text_of (c ∷ bs)) (value e.delta))

text_of-add_text :
    (e : Event) (bs : List Block)
    → text_of (add_text e bs) ≡ append_text (text_of bs) (value e.delta)
unfolding add_text text_block
text_of-add_text e bs = elim (Bool-cases (last_accepts e bs)) [
  | inl h ↦ rw h (text_of-extend e bs h)
  | inr h ↦ rw h (
      text_of-append (close_streaming bs) (text_block e)
      ∙ ap (λ t. append_text t (value e.delta)) (text_of-close bs))
]

apply-text_of :
    (t : EventType) (e : Event) (s : RunState)
    → text_of (apply t e s).blocks ≡ append_text (text_of s.blocks) (delta_of t e)
unfolding apply tool_block
apply-text_of text e s = text_of-add_text e s.blocks
apply-text_of user_action e s = text_of-close s.blocks ∙ sym (append-nil (text_of s.blocks))
apply-text_of thinking e s = sym (append-nil (text_of s.blocks))
apply-text_of tool_use e s =
    text_of-append (close_streaming s.blocks) (tool_block e)
    ∙ ap (λ t. append_text t "") (text_of-close s.blocks)
apply-text_of tool_result e s = text_of-finish e s.blocks ∙ sym (append-nil (text_of s.blocks))
apply-text_of usage e s = sym (append-nil (text_of s.blocks))
apply-text_of error e s =
    if-lift {A = RunState} (λ r. text_of r.blocks ≡ append_text (text_of s.blocks) "")
      (is_failed (status_from_termination e.termination_reason true)) _ _ closed closed
  where
    closed : text_of (close_streaming s.blocks) ≡ append_text (text_of s.blocks) ""
    closed = text_of-close s.blocks ∙ sym (append-nil (text_of s.blocks))
apply-text_of done e s = text_of-close s.blocks ∙ sym (append-nil (text_of s.blocks))
apply-text_of system e s =
    if-lift {A = RunState} (λ r. text_of r.blocks ≡ append_text (text_of s.blocks) "")
      (is_queued s.status) _ _ (sym (append-nil (text_of s.blocks)))
      (sym (append-nil (text_of s.blocks)))
apply-text_of (other_event name) e s = sym (append-nil (text_of s.blocks))

pub reduce-text_of :
    (s : RunState) (e : Event)
    → text_of (reduce s e).blocks ≡ append_text (text_of s.blocks) (delta_of e.type e)
unfolding reduce apply_metadata
reduce-text_of s e =
    apply-text_of e.type e _
    ∙ ap (λ bs. append_text (text_of bs) (delta_of e.type e)) (stamp-blocks e.at _)

-- The text blocks of a card, read in order, are the text it had followed by the deltas of the
-- run's text events, each once and in order: no other event adds, drops or moves text, also where
-- tool calls and user actions split the text into blocks.
pub text_of-reduce_all :
    (s : RunState) (es : List Event)
    → text_of (reduce_all s es).blocks ≡ append_text (text_of s.blocks) (deltas es)
unfolding reduce_all
text_of-reduce_all s [] = sym (append-nil (text_of s.blocks))
text_of-reduce_all s (e ∷ es) =
    text_of-reduce_all (reduce s e) es
    ∙ (ap (λ t. append_text t (deltas es)) (reduce-text_of s e)
        ∙ append_assoc (text_of s.blocks) (delta_of e.type e) (deltas es))
