-- ===== src/Presenter/Actions/Laws.antt =====
-- internal/app/impresenter/user_action.go: what is delivered, and what is reported.
use lark_bridge_agent_sdk.Base.{
  String, ◌≡◌, refl, sym, ap, subst, ◌∙◌, Bool, true, false, not, ◌&&◌, ◌||◌, Option, none, some,
  List, [], ◌∷◌, ◌==◌, eq_iff, includes, if◌then◌else◌, if-lift, is_some, arith,
}
use lark_bridge_agent_sdk.Base.Json.{Fields}
use lark_bridge_agent_sdk.Base.Map.{lookup, lookup-insert, lookup-delete}
use lark_bridge_agent_sdk.CardState.Blocks.{value}
use lark_bridge_agent_sdk.Agents.{AgentEvent}
use lark_bridge_agent_sdk.Agents.Values.{record_value}
use lark_bridge_agent_sdk.Presenter.Actions.{
  ActionDelivery, no_deliveries, Answers, Sent, sent_message, sent_card, sent_agent_card, key_of,
  public_notice, body_of, attempt, send_prompt, send_agent_card, recorded, is_attempted, send,
}

-- A call of `send`, with what it depends on.
pub record Call : Type 0 where
  pub channel : Bool
  pub private : Bool
  pub answers : Answers
  pub event : AgentEvent

abbrev pub send_call : Call → ActionDelivery → ActionDelivery × List Sent
send_call c d = send c.channel c.private c.answers c.event d

unfoldable pub send_calls : List Call → ActionDelivery → ActionDelivery
send_calls [] d = d
send_calls (c ∷ cs) d = send_calls cs (send_call c d).0

-- There is something to send for this action.
abbrev pub concerns : String → Call → Bool
concerns key c = is_attempted c.channel c.event && key_of c.event == key

-- The error of an agent's card: the presenter may not send such cards, and the event may hold none.
abbrev pub agent_card_error : Option (Option String) → Bool → Option String
agent_card_error (some answer) true = answer
agent_card_error _ _ = some "interactive card delivery is unavailable"

-- The error of the channel for the action of a call. A card is not tried again; a prompt is tried as
-- an ordinary card after a message that was refused.
abbrev pub channel_error : Call → Option String
channel_error c =
    if value c.event.name == "card"
    then agent_card_error c.answers.agent_card (is_some (record_value c.event.input))
    else if is_some c.answers.message_error
    then c.answers.card_error
    else none

abbrev pub error_for : String → Call → Option String
error_for key c = if concerns key c then channel_error c else none

-- The channel took the action in one of the calls.
unfoldable pub was_taken : String → List Call → Bool
was_taken key [] = false
was_taken key (c ∷ cs) = (concerns key c && not (is_some (channel_error c))) || was_taken key cs

abbrev pub newer : Option String → Option String → Option String
newer none before = before
newer (some e) before = some e

-- The latest error of the channel for the action.
unfoldable pub last_error : String → List Call → Option String → Option String
last_error key [] before = before
last_error key (c ∷ cs) before = last_error key cs (newer (error_for key c) before)

attempt-error : (c : Call) → (attempt c.private c.answers c.event).1 ≡ channel_error c
unfolding attempt
attempt-error c =
    by_answers c.answers.agent_card (record_value c.event.input) c.answers.message_error
  where
    card :
        (o : Option (Option String)) (f : Option Fields)
        → (send_agent_card o f).1 ≡ agent_card_error o (is_some f)
    card (some none) (some f) = refl
    card (some (some e)) (some f) = refl
    card (some none) none = refl
    card (some (some e)) none = refl
    card none f = refl

    prompt :
        (o : Option String)
        → (send_prompt c.answers (body_of c.private c.event) o).1
          ≡ (if is_some o then c.answers.card_error else none)
    prompt none = refl
    prompt (some e) = refl

    by_answers :
        (o : Option (Option String)) (f : Option Fields) (m : Option String)
        → (if◌then◌else◌ {A = List Sent × Option String}
            (value c.event.name == "card")
            (send_agent_card o f)
            (send_prompt c.answers (body_of c.private c.event) m)).1
          ≡ (if value c.event.name == "card"
              then agent_card_error o (is_some f)
              else if is_some m
              then c.answers.card_error
              else none)
    by_answers o f m = ground (arith, card o f, prompt m)

-- What is kept of an action.
abbrev pub Keeps : String → ActionDelivery → Bool → Option String → Type 0
Keeps key d taken error =
    (includes d.delivered key ≡ taken) × (lookup key d.failures ≡ (if taken then none else error))

recorded-Keeps :
    (d : ActionDelivery) (key k : String) (e error : Option String)
    → Keeps key d false error
    → k == key ≡ true
    → Keeps key (recorded d k e) (not (is_some e)) (newer e error)
unfolding includes
recorded-Keeps d key k none error h same = ground (arith, lookup-delete k key d.failures, same)
recorded-Keeps d key k (some e) error h same = ground (arith, lookup-insert k key e d.failures, h)

recorded-other :
    (d : ActionDelivery) (key k : String) (e error : Option String) (taken : Bool)
    → Keeps key d taken error
    → k == key ≡ false
    → Keeps key (recorded d k e) taken error
unfolding includes
recorded-other d key k none error taken h other =
    ground (arith, lookup-delete k key d.failures, other)
recorded-other d key k (some e) error taken h other =
    ground (arith, lookup-insert k key e d.failures, other)

-- One call, given what is known of its action before.
step-Keeps :
    (d : ActionDelivery) (key k : String) (e error : Option String) (sent : List Sent)
    (attempted old equal taken : Bool)
    → k == key ≡ equal
    → Keeps key d taken error
    → (equal ≡ true → old ≡ taken)
    → Keeps key
        (if◌then◌else◌ {A = ActionDelivery × List Sent}
          (not attempted || old)
          (d, [])
          (recorded d k e, sent)).0
        (taken || ((attempted && equal) && not (is_some e)))
        (newer (if attempted && equal then e else none) error)
step-Keeps d key k e error sent false old equal true same h l = h
step-Keeps d key k e error sent false old equal false same h l = h
step-Keeps d key k e error sent true true true true same h l = h
step-Keeps d key k e error sent true true true false same h l = absurd (cc (l refl))
step-Keeps d key k e error sent true true false true same h l = h
step-Keeps d key k e error sent true true false false same h l = h
step-Keeps d key k e error sent true false false true same h l =
    recorded-other d key k e error true h same
step-Keeps d key k e error sent true false false false same h l =
    recorded-other d key k e error false h same
step-Keeps d key k e error sent true false true true same h l = absurd (cc (l refl))
step-Keeps d key k e error sent true false true false same h l =
    recorded-Keeps d key k e error h same

send_call-Keeps :
    (c : Call) (d : ActionDelivery) (key : String) (taken : Bool) (error : Option String)
    → Keeps key d taken error
    → Keeps key
        (send_call c d).0
        (taken || (concerns key c && not (is_some (channel_error c))))
        (newer (error_for key c) error)
unfolding send
send_call-Keeps c d key taken error h =
    let (sent, e) = attempt c.private c.answers c.event in
    subst
      (λ e'.
        Keeps key (send_call c d).0 (taken || (concerns key c && not (is_some e')))
          (newer (if concerns key c then e' else none) error))
      (attempt-error c)
      (step-Keeps d key (key_of c.event) (attempt c.private c.answers c.event).1 error
        (attempt c.private c.answers c.event).0 (is_attempted c.channel c.event)
        (includes d.delivered (key_of c.event)) (key_of c.event == key) taken refl h
        (λ same. ap (includes d.delivered) ((eq_iff (key_of c.event) key).0 same) ∙ h.0))

or_assoc : (a b c : Bool) → ((a || b) || c) ≡ (a || (b || c))
or_assoc a b c = ground arith

send_calls-Keeps :
    (cs : List Call) (d : ActionDelivery) (key : String) (taken : Bool) (error : Option String)
    → Keeps key d taken error
    → Keeps key (send_calls cs d) (taken || was_taken key cs) (last_error key cs error)
unfolding send_calls was_taken last_error
send_calls-Keeps [] d key true error h = h
send_calls-Keeps [] d key false error h = h
send_calls-Keeps (c ∷ cs) d key taken error h =
    let now = concerns key c && not (is_some (channel_error c)) in
    subst (λ b. Keeps key (send_calls cs (send_call c d).0) b (last_error key (c ∷ cs) error))
      (or_assoc taken now (was_taken key cs))
      (send_calls-Keeps cs (send_call c d).0 key (taken || now) (newer (error_for key c) error)
        (send_call-Keeps c d key taken error h))

-- After any calls, whatever the channel answered: an action counts as delivered exactly if in one of
-- the calls there was something to send for it and the channel took the message, the ordinary card
-- that is tried after it, or the agent's card; and what is reported for any other action is the
-- latest error that the channel gave for it, where it gave one.
pub send_calls-Accounted :
    (cs : List Call) (key : String)
    → Keeps key (send_calls cs no_deliveries) (was_taken key cs) (last_error key cs none)
unfolding includes lookup
send_calls-Accounted cs key = send_calls-Keeps cs no_deliveries key false none (refl, refl)

-- Only the notice is sent.
abbrev pub OnlyNotice : List Sent → Type 0
OnlyNotice [] = Unit
OnlyNotice (sent_message s ∷ rest) = (s ≡ public_notice) × OnlyNotice rest
OnlyNotice (sent_card s ∷ rest) = (s ≡ public_notice) × OnlyNotice rest
OnlyNotice (sent_agent_card card ∷ rest) = ⊥

prompt-OnlyNotice :
    (answers : Answers) (e : Option String) → OnlyNotice (send_prompt answers public_notice e).0
prompt-OnlyNotice answers none = (refl, tt)
prompt-OnlyNotice answers (some e) = (refl, (refl, tt))

-- Outside a private chat the link of an authorization is never sent, neither as a message nor on a
-- card: whatever the channel answers, only the notice goes out.
pub send-OnlyNotice :
    (channel : Bool) (answers : Answers) (e : AgentEvent) (d : ActionDelivery)
    → value e.name ≡ "authorization"
    → OnlyNotice (send channel false answers e d).1
unfolding send attempt
send-OnlyNotice channel answers e d h =
    if-lift {A = ActionDelivery × List Sent} (λ r. OnlyNotice r.1)
      (not (is_attempted channel e) || includes d.delivered (key_of e)) (d, []) _ tt
      (subst
        (λ name.
          OnlyNotice
            (if◌then◌else◌ {A = List Sent × Option String} (name == "card")
              (send_agent_card answers.agent_card (record_value e.input))
              (send_prompt answers
                (if name == "authorization" && not false then public_notice else value e.delta)
                answers.message_error)).0)
        (sym h) (prompt-OnlyNotice answers answers.message_error))
