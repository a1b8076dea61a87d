-- ===== src/Presenter/Grows.antt =====
-- internal/app/impresenter/card_rollover.go: what a card shows stays a start of what the run says.
use package.text.Mathlib.TextLemmas.{append_assoc}
use lark_bridge_agent_sdk.Base.{
  ◌≡◌, refl, sym, ap, subst, ◌∙◌, Bool, true, false, List, [], ◌∷◌, ◌++◌, arith, if◌then◌else◌,
  if-lift,
}
use lark_bridge_agent_sdk.CardState.{
  EventType, system, text, user_action, thinking, tool_use, tool_result, usage, done, error,
  other_event, Event, Block, RunState,
}
use lark_bridge_agent_sdk.CardState.Blocks.{
  value, append_text, is_text, close_block, close_streaming, last_accepts, accepts, extend_last,
  with_delta, add_text, text_block, tool_block, finish_block, finish_tools,
}
use lark_bridge_agent_sdk.CardState.Reduce.{
  apply, reduce, apply_metadata, is_failed, is_queued, status_from_termination,
}
use lark_bridge_agent_sdk.CardState.Streaming.{stamp-blocks}
use lark_bridge_agent_sdk.Presenter.Shown.{IsShown}

close_kind : (b : Block) → is_text (close_block b).kind ≡ is_text b.kind
unfolding close_block
close_kind b = ground arith

close_content : (b : Block) → (close_block b).content ≡ b.content
unfolding close_block
close_content b = ground arith

pub IsShown-close_streaming : (ps bs : List Block) → IsShown ps bs → IsShown ps (close_streaming bs)
unfolding close_streaming
IsShown-close_streaming _ _ (IsShown.nothing bs) = IsShown.nothing (close_streaming bs)
IsShown-close_streaming _ _ (IsShown.last p b bs rest hp hb h) =
    IsShown.last p (close_block b) (close_streaming bs) rest hp (close_kind b ∙ hb)
      (close_content b ∙ h)
IsShown-close_streaming _ _ (IsShown.same p b ps bs hp hb h shown) =
    IsShown.same p (close_block b) ps (close_streaming bs) hp (close_kind b ∙ hb)
      (close_content b ∙ h) (IsShown-close_streaming ps bs shown)
IsShown-close_streaming _ _ (IsShown.panel p b ps bs hp hb shown) =
    IsShown.panel p (close_block b) ps (close_streaming bs) hp (close_kind b ∙ hb)
      (IsShown-close_streaming ps bs shown)

pub IsShown-append : (ps bs cs : List Block) → IsShown ps bs → IsShown ps (bs ++ cs)
IsShown-append _ _ cs (IsShown.nothing bs) = IsShown.nothing (bs ++ cs)
IsShown-append _ _ cs (IsShown.last p b bs rest hp hb h) = IsShown.last p b (bs ++ cs) rest hp hb h
IsShown-append _ _ cs (IsShown.same p b ps bs hp hb h shown) =
    IsShown.same p b ps (bs ++ cs) hp hb h (IsShown-append ps bs cs shown)
IsShown-append _ _ cs (IsShown.panel p b ps bs hp hb shown) =
    IsShown.panel p b ps (bs ++ cs) hp hb (IsShown-append ps bs cs shown)

pub IsShown-finish_tools :
    (e : Event) (ps bs : List Block) → IsShown ps bs → IsShown ps (finish_tools e bs)
unfolding finish_tools finish_block
IsShown-finish_tools e _ _ (IsShown.nothing bs) = IsShown.nothing (finish_tools e bs)
IsShown-finish_tools e _ _ (IsShown.last p b bs rest hp hb h) =
    IsShown.last p (finish_block e b) (finish_tools e bs) rest hp hb h
IsShown-finish_tools e _ _ (IsShown.same p b ps bs hp hb h shown) =
    IsShown.same p (finish_block e b) ps (finish_tools e bs) hp hb h
      (IsShown-finish_tools e ps bs shown)
IsShown-finish_tools e _ _ (IsShown.panel p b ps bs hp hb shown) =
    IsShown.panel p (finish_block e b) ps (finish_tools e bs) hp hb
      (IsShown-finish_tools e ps bs shown)

-- The last block, the one that a delta extends.
extend_first :
    (e : Event) (ps : List Block) (b : Block)
    → accepts e b ≡ true
    → IsShown ps (b ∷ [])
    → IsShown ps (with_delta e b ∷ [])
unfolding accepts with_delta
extend_first e _ b h (IsShown.nothing _) = IsShown.nothing (with_delta e b ∷ [])
extend_first e _ b h (IsShown.last p _ _ rest hp hb eq) =
    IsShown.last p (with_delta e b) [] (append_text rest (value e.delta)) hp hb
      (ap (λ c. append_text c (value e.delta)) eq ∙ append_assoc p.content rest (value e.delta))
extend_first e _ b h (IsShown.same p _ _ _ hp hb eq (IsShown.nothing _)) =
    IsShown.last p (with_delta e b) [] (value e.delta) hp hb
      (ap (λ c. append_text c (value e.delta)) eq)
extend_first e _ b h (IsShown.panel p _ ps _ hp hb shown) = ground arith

pub IsShown-extend_last :
    (e : Event) (ps bs : List Block)
    → last_accepts e bs ≡ true
    → IsShown ps bs
    → IsShown ps (extend_last e bs)
unfolding last_accepts extend_last
IsShown-extend_last e ps [] h shown = shown
IsShown-extend_last e ps (b ∷ []) h shown = extend_first e ps b h shown
IsShown-extend_last e _ (b ∷ c ∷ bs) h (IsShown.nothing _) =
    IsShown.nothing (b ∷ extend_last e (c ∷ bs))
IsShown-extend_last e _ (b ∷ c ∷ bs) h (IsShown.last p _ _ rest hp hb eq) =
    IsShown.last p b (extend_last e (c ∷ bs)) rest hp hb eq
IsShown-extend_last e _ (b ∷ c ∷ bs) h (IsShown.same p _ ps _ hp hb eq shown) =
    IsShown.same p b ps (extend_last e (c ∷ bs)) hp hb eq
      (IsShown-extend_last e ps (c ∷ bs) h shown)
IsShown-extend_last e _ (b ∷ c ∷ bs) h (IsShown.panel p _ ps _ hp hb shown) =
    IsShown.panel p b ps (extend_last e (c ∷ bs)) hp hb (IsShown-extend_last e ps (c ∷ bs) h shown)

IsShown-add_text : (e : Event) (ps bs : List Block) → IsShown ps bs → IsShown ps (add_text e bs)
unfolding add_text
IsShown-add_text e ps bs shown = added (last_accepts e bs) refl
  where
    added :
        (accepted : Bool)
        → last_accepts e bs ≡ accepted
        → IsShown ps
            (if accepted then extend_last e bs else close_streaming bs ++ text_block e ∷ [])
    added true h = IsShown-extend_last e ps bs h shown
    added false h =
        IsShown-append ps (close_streaming bs) (text_block e ∷ [])
          (IsShown-close_streaming ps bs shown)

IsShown-apply :
    (ps : List Block) (type : EventType) (e : Event) (s : RunState)
    → IsShown ps s.blocks
    → IsShown ps (apply type e s).blocks
unfolding apply
IsShown-apply ps text e s h = IsShown-add_text e ps s.blocks h
IsShown-apply ps user_action e s h = IsShown-close_streaming ps s.blocks h
IsShown-apply ps thinking e s h = h
IsShown-apply ps tool_use e s h =
    IsShown-append ps (close_streaming s.blocks) (tool_block e ∷ [])
      (IsShown-close_streaming ps s.blocks h)
IsShown-apply ps tool_result e s h = IsShown-finish_tools e ps s.blocks h
IsShown-apply ps usage e s h = h
IsShown-apply ps error e s h =
    if-lift {A = RunState} (λ r. IsShown ps r.blocks)
      (is_failed (status_from_termination e.termination_reason true)) _ _
      (IsShown-close_streaming ps s.blocks h) (IsShown-close_streaming ps s.blocks h)
IsShown-apply ps done e s h = IsShown-close_streaming ps s.blocks h
IsShown-apply ps system e s h =
    if-lift {A = RunState} (λ r. IsShown ps r.blocks) (is_queued s.status) _ _ h h
IsShown-apply ps (other_event name) e s h = h

-- What a card shows stays a start of the text of the run's state when an event arrives.
pub IsShown-reduce :
    (ps : List Block) (s : RunState) (e : Event)
    → IsShown ps s.blocks
    → IsShown ps (reduce s e).blocks
unfolding reduce apply_metadata
IsShown-reduce ps s e h =
    IsShown-apply ps e.type e _ (subst (IsShown ps) (sym (stamp-blocks e.at _)) h)
