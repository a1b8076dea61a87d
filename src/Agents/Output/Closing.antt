-- ===== src/Agents/Output/Closing.antt =====
-- internal/compat/agentoutput/messages.go: what `Finish` may send.
use lark_bridge_agent_sdk.Base.{
  ℕ, suc, ◌+◌, ◌≤◌, String, ◌≡◌, refl, subst, Bool, true, false, Option, none, some, List, [], ◌∷◌,
  ◌++◌, ◌==◌, if◌then◌else◌, if-lift, any, arith,
}
use lark_bridge_agent_sdk.Base.Text.{is_blank, trim_space}
use lark_bridge_agent_sdk.CardState.Blocks.{value}
use lark_bridge_agent_sdk.CardState.{is_end}
use lark_bridge_agent_sdk.Agents.{AgentEvent, Library}
use lark_bridge_agent_sdk.Agents.Actions.{user_action_of}
use lark_bridge_agent_sdk.Agents.Output.{
  Stream, progress, without_pending, push_action, final_message, replaced, finish_given,
  finish_pending, finish_success, with_usage, finish,
}
use lark_bridge_agent_sdk.Agents.Output.Quiet.{
  is_final_text, is_loud, Silent, NoEnd, Holds, QuietStep, user_action_of-Silent, progress-any,
  push_action-QuietStep, any-append,
}

-- The number of final answers.
unfoldable pub finals : List AgentEvent → ℕ
finals [] = 0
finals (e ∷ es) = if is_final_text e then suc (finals es) else finals es

-- Events that end nothing, with at most some final answers.
abbrev pub AtMost : ℕ → List AgentEvent → Type 0
AtMost n out = (any (λ e. is_end e.type) out ≡ false) × (finals out ≤ n)

finals-append : (es fs : List AgentEvent) → finals (es ++ fs) ≡ finals es + finals fs
unfolding finals
finals-append [] fs = ground arith
finals-append (e ∷ es) fs = ground (arith, finals-append es fs)

pub any_end-append :
    (es fs : List AgentEvent)
    → any (λ e. is_end e.type) es ≡ false
    → any (λ e. is_end e.type) fs ≡ false
    → any (λ e. is_end e.type) (es ++ fs) ≡ false
any_end-append es fs h k = any-append (λ e. is_end e.type) es fs h k

pub quiet-AtMost : (n : ℕ) (es : List AgentEvent) → any is_loud es ≡ false → AtMost n es
unfolding any finals
quiet-AtMost n [] h = (refl, ground arith)
quiet-AtMost n (e ∷ es) h =
    let (ends, few) = quiet-AtMost n es (ground arith) in (ground arith, ground arith)

pub AtMost-append :
    (m n : ℕ) (es fs : List AgentEvent) → AtMost m es → AtMost n fs → AtMost (m + n) (es ++ fs)
AtMost-append m n es fs (h, k) (h', k') =
    (any_end-append es fs h h', ground (arith, finals-append es fs))

finish_pending-AtMost : (o : Option AgentEvent) → NoEnd o → AtMost 1 (finish_pending o)
unfolding any finals
finish_pending-AtMost none h = (refl, ground arith)
finish_pending-AtMost (some e) h =
    if-lift (AtMost 1) (is_blank (value e.delta)) [] _ (refl, ground arith)
      (ground arith, ground arith)

replaced-any :
    (o : Option AgentEvent) (final : String) → NoEnd o → any is_loud (replaced o final) ≡ false
unfolding any
replaced-any none final h = refl
replaced-any (some e) final h =
    if-lift (λ out. any is_loud out ≡ false) (trim_space (value e.delta) == trim_space final) [] _
      refl (ground arith)

final_message-AtMost : (final : String) → AtMost 1 (final_message final)
unfolding any finals
final_message-AtMost final =
    if-lift (AtMost 1) (is_blank final) [] _ (refl, ground arith) (refl, ground arith)

-- A step that leaves quiet counts of tokens and sends so many final answers.
abbrev Sends : ℕ → Stream × List AgentEvent → Type 0
Sends n (s, out) = (any is_loud s.usage ≡ false) × AtMost n out

front-Sends :
    (front : List AgentEvent) (r : Stream × List AgentEvent)
    → any is_loud front ≡ false
    → QuietStep r
    → Sends 1 (let (s', out) = r in (s', front ++ out))
front-Sends front (s, out) h ((p, u), quiet) =
    (u, quiet-AtMost 1 (front ++ out) (any-append is_loud front out h quiet))

finish_given-Sends :
    (lib : Library) (s : Stream) (final : String) (action : Option AgentEvent)
    → Holds s
    → Silent action
    → Sends 1 (finish_given lib s final action)
finish_given-Sends lib s final (some action) (p, u) silent =
    front-Sends (replaced s.pending final) (push_action lib (without_pending s) action)
      (replaced-any s.pending final p)
      (push_action-QuietStep lib (without_pending s) action (tt, u) silent)
finish_given-Sends lib s final none (p, u) silent = (
  u,
  AtMost-append 0 1 (replaced s.pending final) (final_message final)
      (quiet-AtMost 0 (replaced s.pending final) (replaced-any s.pending final p))
      (final_message-AtMost final),
)

finish_success-Sends :
    (lib : Library) (s : Stream) (final : Option String)
    → Holds s
    → Sends 1 (finish_success lib s final)
finish_success-Sends lib s none (p, u) = (u, finish_pending-AtMost s.pending p)
finish_success-Sends lib s (some final) h =
    finish_given-Sends lib s final (user_action_of lib final) h (user_action_of-Silent lib final)

with_usage-AtMost : (n : ℕ) (r : Stream × List AgentEvent) → Sends n r → AtMost n (with_usage r).1
with_usage-AtMost n (s, out) (u, few) =
    subst (λ m. AtMost m (out ++ s.usage)) (ground arith)
      (AtMost-append n 0 out s.usage few (quiet-AtMost 0 s.usage u))

-- At its end a stream sends no end of the run of its own. It sends a final answer at most once,
-- and none when the run did not succeed.
pub finish-AtMost :
    (lib : Library) (s : Stream) (final : Option String) (success : Bool)
    → Holds s
    → AtMost (if success then 1 else 0) (finish lib s final success).1
unfolding finish
finish-AtMost lib s final true h =
    with_usage-AtMost 1 (finish_success lib s final) (finish_success-Sends lib s final h)
finish-AtMost lib s final false (p, u) =
    with_usage-AtMost 0 (without_pending s, progress s.pending)
      (u, quiet-AtMost 0 (progress s.pending) (progress-any s.pending p))
