-- ===== src/Presenter/Markdown/Final.antt =====
-- internal/app/impresenter/markdown_rollover.go and presenter.go: the end of a run as Markdown
-- messages.
use lark_bridge_agent_sdk.Base.{
  String, ◌≡◌, refl, sym, ap, subst, ◌∙◌, Bool, true, false, Option, none, some, List, [], ◌∷◌,
  ◌++◌, Result, ok, err, if◌then◌else◌, arith, ◌⊎◌, inl, inr, Bool-cases,
}
use lark_bridge_agent_sdk.Base.Text.{is_blank, is_empty}
use lark_bridge_agent_sdk.CardState.{RunState}
use lark_bridge_agent_sdk.CardState.Blocks.{append_text}
use lark_bridge_agent_sdk.CardState.Transcript.{text_of}
use lark_bridge_agent_sdk.Presenter.{Input}
use lark_bridge_agent_sdk.Presenter.Content.{is_active}
use lark_bridge_agent_sdk.Presenter.Delta.{card_state_delta, blocks_delta}
use lark_bridge_agent_sdk.Presenter.Shown.{IsShown, IsShown-text_of}
use lark_bridge_agent_sdk.Presenter.Markdown.{
  MarkdownStream, new_markdown_stream, Answers, Sent, posted, patched, Done, finish, send_final,
  send_fallback, or_fallback, settled_by, sent_whole, settle_markdown_message, send_markdown,
}
use lark_bridge_agent_sdk.Presenter.Markdown.Text.{render_run_markdown}
use lark_bridge_agent_sdk.Presenter.Markdown.Visible.{
  all_shown, chat_text, Follows, Ahead, IsNamed, chat_text-Follows,
}
use lark_bridge_agent_sdk.Presenter.Markdown.Whole.{
  Step, AllNamed, run_markdown, run_markdown-Kept, all_shown-append,
}
use lark_bridge_agent_sdk.Presenter.Markdown.Finish.{
  Delivered, NothingLeft, AllOrError, if-false, finish-AllOrError,
}

-- A newest message that is settled shows the same text.
settled_text :
    (s : MarkdownStream) (ms : List RunState) (settled : Option String)
    → is_empty s.message_id ≡ false
    → Follows s ms
    → chat_text (
        all_shown
          (settled_by (patched s.message_id (card_state_delta s.segment_base s.published)) settled)
          ms)
      ≡ text_of s.published.blocks
unfolding all_shown card_state_delta
settled_text s ms none hid f = chat_text-Follows s ms f
settled_text _ _ (some body) hid (Follows.unopened s h hb hp) = ground (arith, hid, h)
settled_text _ _ (some body) hid (Follows.opened s m old h hm ho shown) =
    chat_text-Follows s _ (Follows.opened s _ old h refl ho shown)

-- A last message with what is not shown yet.
posted_after :
    (state : RunState) (body : String) (s : MarkdownStream) (ms : List RunState)
    (settled : List Sent) (answer : Result String String)
    → chat_text (all_shown settled ms) ≡ text_of s.published.blocks
    → Ahead s state
    → (sent_whole (card_state_delta s.published state) body answer s).error ≡ none
    → chat_text (
        all_shown
          (settled ++ (sent_whole (card_state_delta s.published state) body answer s).sent)
          ms)
      ≡ text_of state.blocks
unfolding all_shown chat_text card_state_delta
posted_after state body s ms settled (err e) h a fine = cc
posted_after state body s ms settled (ok id) h a fine =
    ap chat_text
      (all_shown-append settled (posted (card_state_delta s.published state) body ∷ []) ms)
    ∙ ap (λ t. append_text t (text_of (blocks_delta s.published.blocks state.blocks))) h
    ∙ IsShown-text_of s.published.blocks state.blocks (a.1)

send_fallback-Delivered :
    (input : Input) (answers : Answers) (state : RunState) (s : MarkdownStream) (ms : List RunState)
    → is_empty s.message_id ≡ false
    → Follows s ms
    → Ahead s state
    → (send_fallback input answers state s).error ≡ none
    → Delivered state ms (send_fallback input answers state s) ⊎ NothingLeft input state s
unfolding send_fallback
send_fallback-Delivered input answers state s ms hid f a =
    let body = render_run_markdown input (card_state_delta s.published state) in
    let shown = card_state_delta s.segment_base s.published in
    let settled =
      settled_by (patched s.message_id shown)
        (settle_markdown_message input answers s.message_id shown) in
    elim (Bool-cases (is_blank body)) [
      | inl h ↦ λ fine. inr h
      | inr h ↦
          if-false {A = Done}
            (λ r. r.error ≡ none → Delivered state ms r ⊎ NothingLeft input state s) (is_blank body)
            _ _ h
            (λ fine. inl (
              posted_after state body s ms settled answers.send
                (settled_text s ms (settle_markdown_message input answers s.message_id shown) hid f)
                a fine))
    ]

or_fallback-Delivered :
    (input : Input) (again : Answers) (state : RunState) (s : MarkdownStream) (ms : List RunState)
    (r : Done)
    → is_empty s.message_id ≡ false
    → Follows s ms
    → Ahead s state
    → AllOrError state ms s r
    → (or_fallback input again state r r.error).error ≡ none
    → Delivered state ms (or_fallback input again state r r.error) ⊎ NothingLeft input state s
unfolding or_fallback
or_fallback-Delivered input again state s ms r hid f a (inl (he, all)) =
    subst
      (λ o.
        (or_fallback input again state r o).error ≡ none
        → Delivered state ms (or_fallback input again state r o) ⊎ NothingLeft input state s)
      (sym he) (λ fine. inl all)
or_fallback-Delivered input again state s ms r hid f a (inr (e, he)) =
    subst
      (λ r.
        (or_fallback input again state r r.error).error ≡ none
        → Delivered state ms (or_fallback input again state r r.error) ⊎ NothingLeft input state s)
      (sym he) (send_fallback-Delivered input again state s ms hid f a)

pub send_final-Delivered :
    (input : Input) (answers again : Answers) (update_failed : Bool) (state : RunState)
    (s : MarkdownStream) (ms : List RunState)
    → is_empty s.message_id ≡ false
    → IsNamed answers.send
    → answers.can_update ≡ true
    → is_active state ≡ false
    → Follows s ms
    → Ahead s state
    → (send_final input answers again update_failed state s).error ≡ none
    → Delivered state ms (send_final input answers again update_failed state s)
      ⊎ NothingLeft input state s
unfolding send_final
send_final-Delivered input answers again true state s ms hid named can ended f a =
    send_fallback-Delivered input answers state s ms hid f a
send_final-Delivered input answers again false state s ms hid named can ended f a =
    subst (λ c. (final c).error ≡ none → Delivered state ms (final c) ⊎ NothingLeft input state s)
      (sym can)
      (or_fallback-Delivered input again state s ms _ hid f a
        (finish-AllOrError input answers state s ms hid named can ended f a))
  where
    final : Bool → Done
    final c =
        if c
        then (let r = finish input answers state s in or_fallback input again state r r.error)
        else send_markdown input answers state s

-- Where the last delivery of a run that has a message returns no error, the messages show together
-- all the text of the run, once and in order, or what they do not show would be an empty message:
-- whatever the answers before were, and whether the last one went by an update, by the next
-- message or by the fallback. The channel names its messages and can update them, and the run is over.
pub final_messages_show_run :
    (input : Input) (steps : List Step) (first : RunState) (answers again : Answers)
    (update_failed : Bool)
    → AllNamed steps
    → is_empty (run_markdown input steps first new_markdown_stream).1.1.message_id ≡ false
    → is_active (run_markdown input steps first new_markdown_stream).1.0 ≡ false
    → IsNamed answers.send
    → answers.can_update ≡ true
    → (send_final input answers again update_failed
        (run_markdown input steps first new_markdown_stream).1.0
        (run_markdown input steps first new_markdown_stream).1.1).error
      ≡ none
    → (chat_text (
          all_shown
            ((run_markdown input steps first new_markdown_stream).0
              ++ (send_final input answers again update_failed
                  (run_markdown input steps first new_markdown_stream).1.0
                  (run_markdown input steps first new_markdown_stream).1.1).sent)
            [])
        ≡ text_of (run_markdown input steps first new_markdown_stream).1.0.blocks)
      ⊎ NothingLeft input
          (run_markdown input steps first new_markdown_stream).1.0
          (run_markdown input steps first new_markdown_stream).1.1
final_messages_show_run input steps first answers again update_failed named hid ended here can
      fine =
    let (sent, (state, s)) = run_markdown input steps first new_markdown_stream in
    let (f, a) =
      run_markdown-Kept input steps first new_markdown_stream [] named
        (Follows.unopened new_markdown_stream refl refl refl)
        (IsShown.nothing first.blocks, IsShown.nothing first.blocks) in
    elim (send_final-Delivered input answers again update_failed state s (all_shown sent []) hid
      here can ended f a fine) [
        | inl all ↦ inl (ap chat_text (all_shown-append sent _ []) ∙ all)
        | inr left ↦ inr left
      ]
