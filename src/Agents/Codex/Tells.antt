-- ===== src/Agents/Codex/Tells.antt =====
-- internal/compat/codex/jsonl.go: the translator closes with the event that ends the run.
use lark_bridge_agent_sdk.Base.{
  String, ◌≡◌, refl, ◌⊎◌, Bool, true, false, Option, none, some, [], ◌∷◌, ◌++◌, ◌==◌, if◌then◌else◌,
  if-lift, any, inl, inr, includes,
}
use lark_bridge_agent_sdk.Base.Json.{Json, Fields}
use lark_bridge_agent_sdk.Base.Text.{is_empty}
use lark_bridge_agent_sdk.CardState.{normal}
use lark_bridge_agent_sdk.CardState.{is_end}
use lark_bridge_agent_sdk.Agents.{Library}
use lark_bridge_agent_sdk.Agents.Values.{get, record_value, string_value, is_string, first_string}
use lark_bridge_agent_sdk.Agents.Codex.{
  Translator, Step, started_thread, started_command, started_item, completed_command, said,
  completed_item, usage_of, anomaly, translate_thread_started, translate_item_started,
  translate_item_completed, translate_agent_message, translate_turn_completed,
  translate_terminal_error, translate_non_terminal_error, done_event, error_event, usage_event,
}
use lark_bridge_agent_sdk.Agents.Codex.Translate.{translate_typed, translate_record, translate}

-- A step that closes the translator sends an end, if the translator was open.
abbrev pub TellsEnd : Translator → Step → Type 0
TellsEnd t (t', es) =
    t'.terminal ≡ true → (t.terminal ≡ true) ⊎ (any (λ e. is_end e.type) es ≡ true)

started_thread-TellsEnd : (t : Translator) (id : Option String) → TellsEnd t (started_thread t id)
started_thread-TellsEnd t none = inl
started_thread-TellsEnd t (some id) = if-lift (TellsEnd t) (is_empty id) _ _ inl inl

started_command-TellsEnd :
    (t : Translator) (item : Fields) (id : Option String) → TellsEnd t (started_command t item id)
started_command-TellsEnd t item none = inl
started_command-TellsEnd t item (some id) = if-lift (TellsEnd t) (is_empty id) _ _ inl inl

started_item-TellsEnd : (t : Translator) (item : Option Fields) → TellsEnd t (started_item t item)
started_item-TellsEnd t none = inl
started_item-TellsEnd t (some item) =
    if-lift (TellsEnd t) (is_string (get "type" item) "command_execution") _ _
      (started_command-TellsEnd t item (string_value (get "id" item))) inl

completed_command-TellsEnd :
    (lib : Library) (t : Translator) (item : Fields) (id : Option String)
    → TellsEnd t (completed_command lib t item id)
completed_command-TellsEnd lib t item none = inl
completed_command-TellsEnd lib t item (some id) =
    if-lift (TellsEnd t) (is_empty id) _ _ inl
      (λ closed. inl (same_terminal (includes t.started_items id) closed))
  where
    same_terminal : (b : Bool) → (if b then t else anomaly t).terminal ≡ true → t.terminal ≡ true
    same_terminal true h = h
    same_terminal false h = h

said-TellsEnd : (t : Translator) (raw : Fields) (m : Option String) → TellsEnd t (said t raw m)
said-TellsEnd t raw none = inl
said-TellsEnd t raw (some m) = inl

completed_item-TellsEnd :
    (lib : Library) (t : Translator) (item : Option Fields) → TellsEnd t (completed_item lib t item)
completed_item-TellsEnd lib t none = inl
completed_item-TellsEnd lib t (some item) =
    if-lift (TellsEnd t) (is_string (get "type" item) "agent_message") _ _
      (said-TellsEnd t item (first_string (get "text" item ∷ get "message" item ∷ [])))
      (if-lift (TellsEnd t) (is_string (get "type" item) "command_execution") _ _
        (completed_command-TellsEnd lib t item (string_value (get "id" item))) inl)

turn_completed-TellsEnd :
    (lib : Library) (t : Translator) (raw : Fields) (counts : Option Fields)
    → any (λ e. is_end e.type) (usage_of lib counts ++ done_event t.thread_id normal ∷ []) ≡ true
unfolding any done_event usage_event
turn_completed-TellsEnd lib t raw none = refl
turn_completed-TellsEnd lib t raw (some counts) = refl

translate_typed-TellsEnd :
    (lib : Library) (t : Translator) (raw : Fields) (type : Option String)
    → TellsEnd t (translate_typed lib t raw type)
unfolding translate_typed translate_thread_started translate_item_started translate_item_completed
    translate_agent_message translate_turn_completed translate_terminal_error
    translate_non_terminal_error any error_event
translate_typed-TellsEnd lib t raw none = inl
translate_typed-TellsEnd lib t raw (some type) =
    if-lift (TellsEnd t) (type == "thread.started") _ _ (started_thread-TellsEnd t _) (
      if-lift (TellsEnd t) (type == "turn.started") _ _ inl (
        if-lift (TellsEnd t) (type == "item.started") _ _ (started_item-TellsEnd t _) (
          if-lift (TellsEnd t) (type == "item.completed") _ _ (completed_item-TellsEnd lib t _) (
            if-lift (TellsEnd t) (type == "agent_message") _ _ (said-TellsEnd t raw _) (
              if-lift (TellsEnd t) (type == "turn.completed") _ _
                (λ closed. inr (turn_completed-TellsEnd lib t raw _))
                (if-lift (TellsEnd t) (type == "turn.failed") _ _ (λ closed. inr refl)
                  (if-lift (TellsEnd t) (type == "error") _ _ inl inl)))))))

translate_record-TellsEnd :
    (lib : Library) (t : Translator) (raw : Option Fields) → TellsEnd t (translate_record lib t raw)
translate_record-TellsEnd lib t none = inl
translate_record-TellsEnd lib t (some raw) =
    translate_typed-TellsEnd lib t raw (string_value (get "type" raw))

pub translate-TellsEnd :
    (lib : Library) (t : Translator) (raw : Json) → TellsEnd t (translate lib t raw)
unfolding translate
translate-TellsEnd lib t raw =
    if-lift (TellsEnd t) t.terminal _ _ inl (translate_record-TellsEnd lib t (record_value raw))
