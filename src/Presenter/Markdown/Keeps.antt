-- ===== src/Presenter/Markdown/Keeps.antt =====
-- internal/app/impresenter/markdown_rollover.go: no call of a stream repeats or loses what its
-- messages show.
use Prim.Native.String
use lark_bridge_agent_sdk.Base.{
  String, ◌≡◌, refl, sym, ap, ◌∙◌, Bool, true, false, not, ◌&&◌, ◌||◌, Option, none, some, List, [],
  ◌∷◌, Result, ok, err, if◌then◌else◌, if-lift, arith, ltb,
}
use lark_bridge_agent_sdk.Base.Text.{is_blank, is_empty}
use lark_bridge_agent_sdk.CardState.{RunState}
use lark_bridge_agent_sdk.CardState.Transcript.{text_of}
use lark_bridge_agent_sdk.Presenter.{Input}
use lark_bridge_agent_sdk.Presenter.Content.{is_active}
use lark_bridge_agent_sdk.Presenter.Delta.{card_state_delta, blocks_delta}
use lark_bridge_agent_sdk.Presenter.Shown.{IsShown, blocks_delta-nothing}
use lark_bridge_agent_sdk.Presenter.Split.Delivered.{itself-IsShown}
use lark_bridge_agent_sdk.Presenter.Markdown.{
  MarkdownStream, Answers, started, updated, continued, settled_before, Done, start, update,
  rollover, flush, settle_markdown_message, settled_by, has_unpublished_content, is_used_up,
  no_content,
}
use lark_bridge_agent_sdk.Presenter.Markdown.Text.{render_run_markdown}
use lark_bridge_agent_sdk.Presenter.Markdown.Visible.{
  all_shown, chat_text, Follows, Ahead, Kept, IsNamed, chat_text-Follows,
}

nothing-Kept :
    (state : RunState) (s : MarkdownStream) (ms : List RunState)
    → Follows s ms
    → Ahead s state
    → Kept state ms (record { sent = []; stream = s; error = none })
unfolding all_shown
nothing-Kept state s ms f a = (f, a)

started-Kept :
    (state : RunState) (body : String) (s : MarkdownStream) (ms : List RunState)
    (answer : Result String String)
    → is_empty s.message_id ≡ true
    → IsNamed answer
    → Follows s ms
    → Ahead s state
    → Kept state ms (started state body answer s)
unfolding all_shown chat_text
started-Kept state body s ms (err e) hid named f a = nothing-Kept state s ms f a
started-Kept state body _ _ (ok id) hid named (Follows.unopened s h hb hp) a = (
  Follows.opened _ state [] (named id refl)
      (ap text_of (sym (blocks_delta-nothing state.blocks))
        ∙ ap (λ bs. text_of (blocks_delta bs state.blocks)) (sym hb))
      (ap text_of (sym hb)) (a.0),
  (a.0, itself-IsShown state.blocks),
)
started-Kept state body _ _ (ok id) hid named (Follows.opened s m old h hm ho shown) a =
    ground (arith, hid, h)

pub updated-Kept :
    (state : RunState) (body : String) (s : MarkdownStream) (ms : List RunState)
    (answer : Option String)
    → is_empty s.message_id ≡ false
    → Follows s ms
    → Ahead s state
    → Kept state ms (updated state body answer s)
unfolding all_shown card_state_delta
updated-Kept state body s ms (some e) hid f a = nothing-Kept state s ms f a
updated-Kept state body _ _ none hid (Follows.unopened s h hb hp) a = ground (arith, hid, h)
updated-Kept state body _ _ none hid (Follows.opened s m old h hm ho shown) a =
    (Follows.opened _ _ old h refl ho (a.0), (a.0, itself-IsShown state.blocks))

pub update-Kept :
    (input : Input) (answers : Answers) (state : RunState) (s : MarkdownStream) (ms : List RunState)
    → is_empty s.message_id ≡ false
    → Follows s ms
    → Ahead s state
    → Kept state ms (update input answers state s)
unfolding update
update-Kept input answers state s ms hid f a =
    let body = render_run_markdown input (card_state_delta s.segment_base state) in
    if-lift {A = Done} (Kept state ms)
      (not answers.can_update || is_empty s.message_id || (is_blank body && is_active state)) _ _
      (nothing-Kept state s ms f a)
      (updated-Kept state (if is_blank body then no_content else body) s ms answers.update_error hid
        f a)

-- A message that is settled shows the same text as before.
settled-Kept :
    (state : RunState) (id : String) (s : MarkdownStream) (m : RunState) (old : List RunState)
    (settled : Option String)
    → is_empty id ≡ false
    → Follows s (m ∷ old)
    → IsShown s.published.blocks state.blocks
    → Follows
        (record {
          message_id = id;
          segment_base = s.published;
          published = state;
          successful_updates = 0;
        })
        (all_shown
          (settled_by
            (settled_before s.message_id (card_state_delta s.segment_base s.published))
            settled)
          (card_state_delta s.published state ∷ m ∷ old))
unfolding all_shown card_state_delta
settled-Kept state id s m old none hid f a =
    Follows.opened _ _ (m ∷ old) hid refl (chat_text-Follows s (m ∷ old) f) a
settled-Kept state id _ _ _ (some body) hid (Follows.opened s m old h hm ho shown) a =
    let previous = card_state_delta s.segment_base s.published in
    Follows.opened _ _ (previous ∷ old) hid refl
      (chat_text-Follows s (previous ∷ old) (Follows.opened s previous old h refl ho shown)) a

pub continued-Kept :
    (input : Input) (answers : Answers) (state : RunState) (body : String) (s : MarkdownStream)
    (ms : List RunState) (answer : Result String String)
    → is_empty s.message_id ≡ false
    → IsNamed answer
    → Follows s ms
    → Ahead s state
    → Kept state ms (continued input answers state body answer s)
unfolding all_shown
continued-Kept input answers state body s ms (err e) hid named f a = nothing-Kept state s ms f a
continued-Kept input answers state body _ _ (ok id) hid named (Follows.unopened s h hb hp) a =
    ground (arith, hid, h)
continued-Kept input answers state body _ _ (ok id) hid named (Follows.opened s m old h hm ho shown)
      a =
    (
      settled-Kept state id s m old
          (settle_markdown_message input answers s.message_id
            (card_state_delta s.segment_base s.published))
          (named id refl) (Follows.opened s m old h hm ho shown) (a.1),
      (a.1, itself-IsShown state.blocks),
    )

pub rollover-Kept :
    (input : Input) (answers : Answers) (state : RunState) (s : MarkdownStream) (ms : List RunState)
    → is_empty s.message_id ≡ false
    → IsNamed answers.send
    → Follows s ms
    → Ahead s state
    → Kept state ms (rollover input answers state s)
unfolding rollover
rollover-Kept input answers state s ms hid named f a =
    let body = render_run_markdown input (card_state_delta s.published state) in
    if-lift {A = Done} (Kept state ms) (is_blank body) _ _
      (update-Kept input answers state s ms hid f a)
      (if-lift {A = Done} (Kept state ms) (is_active state && ltb 3000 (String.len body)) _ _
        (nothing-Kept state s ms f a)
        (continued-Kept input answers state body s ms answers.send hid named f a))

start-Kept :
    (input : Input) (answers : Answers) (state : RunState) (s : MarkdownStream) (ms : List RunState)
    → is_empty s.message_id ≡ true
    → IsNamed answers.send
    → Follows s ms
    → Ahead s state
    → Kept state ms (start input answers state s)
unfolding start
start-Kept input answers state s ms hid named f a =
    let body = render_run_markdown input state in
    if-lift {A = Done} (Kept state ms) (is_blank body) _ _ (nothing-Kept state s ms f a)
      (started-Kept state body s ms answers.send hid named f a)

-- A flush adds to what the messages show and repeats nothing.
pub flush-Kept :
    (input : Input) (answers : Answers) (state : RunState) (s : MarkdownStream) (ms : List RunState)
    → IsNamed answers.send
    → Follows s ms
    → Ahead s state
    → Kept state ms (flush input answers state s)
unfolding flush
flush-Kept input answers state s ms named f a = open_or_go_on (is_empty s.message_id) refl
  where
    open_or_go_on :
        (e : Bool)
        → is_empty s.message_id ≡ e
        → Kept state ms (
            if e
            then start input answers state s
            else if not (is_used_up input s)
            then update input answers state s
            else if has_unpublished_content input state s
            then rollover input answers state s
            else record { sent = []; stream = s; error = none })
    open_or_go_on true e = start-Kept input answers state s ms e named f a
    open_or_go_on false e =
        if-lift {A = Done} (Kept state ms) (not (is_used_up input s)) _ _
          (update-Kept input answers state s ms e f a)
          (if-lift {A = Done} (Kept state ms) (has_unpublished_content input state s) _ _
            (rollover-Kept input answers state s ms e named f a) (nothing-Kept state s ms f a))
