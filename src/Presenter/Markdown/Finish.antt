-- ===== src/Presenter/Markdown/Finish.antt =====
-- internal/app/impresenter/markdown_rollover.go: the last update of a run.
use Prim.Native.String
use lark_bridge_agent_sdk.Base.{
  String, ◌≡◌, refl, sym, subst, Bool, true, false, not, ◌&&◌, ◌||◌, Option, none, some, List,
  Result, ok, err, if◌then◌else◌, if-lift, arith, ltb, ◌⊎◌, inl, inr,
}
use lark_bridge_agent_sdk.Base.Text.{is_blank, is_empty}
use lark_bridge_agent_sdk.CardState.{RunState}
use lark_bridge_agent_sdk.CardState.Transcript.{text_of}
use lark_bridge_agent_sdk.Presenter.{Input}
use lark_bridge_agent_sdk.Presenter.Content.{is_active}
use lark_bridge_agent_sdk.Presenter.Delta.{card_state_delta}
use lark_bridge_agent_sdk.Presenter.Markdown.{
  MarkdownStream, Answers, Done, updated, continued, failed_with, update, rollover, finish,
  has_unpublished_content, is_used_up, no_content,
}
use lark_bridge_agent_sdk.Presenter.Markdown.Text.{render_run_markdown}
use lark_bridge_agent_sdk.Presenter.Markdown.Visible.{
  all_shown, chat_text, Follows, Ahead, IsNamed, chat_text-Follows,
}
use lark_bridge_agent_sdk.Presenter.Markdown.Keeps.{updated-Kept, continued-Kept}

-- The messages show the text of the state.
abbrev pub Delivered : RunState → List RunState → Done → Type 0
Delivered state ms r = chat_text (all_shown r.sent ms) ≡ text_of state.blocks

-- What the messages do not show yet would be an empty message.
abbrev pub NothingLeft : Input → RunState → MarkdownStream → Type 0
NothingLeft input state s =
    is_blank (render_run_markdown input (card_state_delta s.published state)) ≡ true

-- Everything is shown, or nothing was done but for an error.
abbrev pub AllOrError : RunState → List RunState → MarkdownStream → Done → Type 0
AllOrError state ms s r =
    (r.error ≡ none) × Delivered state ms r ⊎ (e : String) × (r ≡ failed_with e s)

pub if-false :
    {A : Type 0} (P : A → Type 0) (b : Bool) (x y : A) → b ≡ false → P y → P (if b then x else y)
if-false P b x y h p = subst (λ c. P (if c then x else y)) (sym h) p

updated-AllOrError :
    (state : RunState) (body : String) (s : MarkdownStream) (ms : List RunState)
    (answer : Option String)
    → is_empty s.message_id ≡ false
    → Follows s ms
    → Ahead s state
    → AllOrError state ms s (updated state body answer s)
updated-AllOrError state body s ms (some e) hid f a = inr (e, refl)
updated-AllOrError state body s ms none hid f a =
    inl (refl, chat_text-Follows _ _ ((updated-Kept state body s ms none hid f a).0))

update-AllOrError :
    (input : Input) (answers : Answers) (state : RunState) (s : MarkdownStream) (ms : List RunState)
    → is_empty s.message_id ≡ false
    → answers.can_update ≡ true
    → is_active state ≡ false
    → Follows s ms
    → Ahead s state
    → AllOrError state ms s (update input answers state s)
unfolding update
update-AllOrError input answers state s ms hid can ended f a =
    let body = render_run_markdown input (card_state_delta s.segment_base state) in
    if-false (AllOrError state ms s)
      (not answers.can_update || is_empty s.message_id || (is_blank body && is_active state)) _ _
      (ground arith)
      (updated-AllOrError state (if is_blank body then no_content else body) s ms
        answers.update_error hid f a)

continued-AllOrError :
    (input : Input) (answers : Answers) (state : RunState) (body : String) (s : MarkdownStream)
    (ms : List RunState) (answer : Result String String)
    → is_empty s.message_id ≡ false
    → IsNamed answer
    → Follows s ms
    → Ahead s state
    → AllOrError state ms s (continued input answers state body answer s)
continued-AllOrError input answers state body s ms (err e) hid named f a = inr (e, refl)
continued-AllOrError input answers state body s ms (ok id) hid named f a = inl (
  refl,
  chat_text-Follows _ _ ((continued-Kept input answers state body s ms (ok id) hid named f a).0),
)

rollover-AllOrError :
    (input : Input) (answers : Answers) (state : RunState) (s : MarkdownStream) (ms : List RunState)
    → is_empty s.message_id ≡ false
    → IsNamed answers.send
    → answers.can_update ≡ true
    → is_active state ≡ false
    → Follows s ms
    → Ahead s state
    → AllOrError state ms s (rollover input answers state s)
unfolding rollover
rollover-AllOrError input answers state s ms hid named can ended f a =
    let body = render_run_markdown input (card_state_delta s.published state) in
    if-lift {A = Done} (AllOrError state ms s) (is_blank body) _ _
      (update-AllOrError input answers state s ms hid can ended f a)
      (if-false (AllOrError state ms s) (is_active state && ltb 3000 (String.len body)) _ _
        (ground arith)
        (continued-AllOrError input answers state body s ms answers.send hid named f a))

pub finish-AllOrError :
    (input : Input) (answers : Answers) (state : RunState) (s : MarkdownStream) (ms : List RunState)
    → is_empty s.message_id ≡ false
    → IsNamed answers.send
    → answers.can_update ≡ true
    → is_active state ≡ false
    → Follows s ms
    → Ahead s state
    → AllOrError state ms s (finish input answers state s)
unfolding finish
finish-AllOrError input answers state s ms hid named can ended f a =
    if-false (AllOrError state ms s) (is_empty s.message_id) _ _ hid (
      if-lift {A = Done} (AllOrError state ms s)
        (is_used_up input s && has_unpublished_content input state s) _ _
        (rollover-AllOrError input answers state s ms hid named can ended f a)
        (update-AllOrError input answers state s ms hid can ended f a))
