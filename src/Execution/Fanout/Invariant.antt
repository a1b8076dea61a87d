-- ===== src/Execution/Fanout/Invariant.antt =====
-- internal/app/runexecutor/fanout.go: what every subscriber has seen, after any moves.
use mathlib.Core.List.{append_assoc as ++_assoc, append-nil as ++-nil}
use lark_bridge_agent_sdk.Base.{
  ℕ, zero, suc, ◌≡◌, refl, sym, ap, subst, ◌∙◌, Bool, true, false, List, [], ◌∷◌, ◌++◌, length,
  arith,
}
use lark_bridge_agent_sdk.Agents.{AgentEvent}
use lark_bridge_agent_sdk.Execution.Fanout.{
  Phase, looking, sending, waiting, woken, ended, cancelled, Subscriber, nth, wake, wake_all, seen,
  look, go_on, give_up, at_subscriber,
}

-- What a phase says about the rest of the buffer, which the subscriber has not taken yet.
abbrev pub Rest : Bool → List AgentEvent → ℕ → List AgentEvent → Phase → Type 0
Rest done buffer index got looking =
    (rest : List AgentEvent) × (buffer ≡ got ++ rest) × (index ≡ length got)
Rest done buffer index got (sending e) =
    (rest : List AgentEvent) × (buffer ≡ got ++ e ∷ rest) × (index ≡ suc (length got))
Rest done buffer index got waiting = (buffer ≡ got) × (index ≡ length got) × (done ≡ false)
Rest done buffer index got woken =
    (rest : List AgentEvent) × (buffer ≡ got ++ rest) × (index ≡ length got)
Rest done buffer index got ended = (buffer ≡ got) × (done ≡ true)
Rest done buffer index got cancelled = (rest : List AgentEvent) × (buffer ≡ got ++ rest)

abbrev pub InOrder : Bool → List AgentEvent → Subscriber → Type 0
InOrder done buffer s = Rest done buffer s.index s.got s.phase

abbrev pub AllInOrder : Bool → List AgentEvent → List Subscriber → Type 0
AllInOrder done buffer [] = Unit
AllInOrder done buffer (s ∷ ss) = InOrder done buffer s × AllInOrder done buffer ss

length-append_end :
    (got : List AgentEvent) (e : AgentEvent) → length (got ++ e ∷ []) ≡ suc (length got)
length-append_end [] e = refl
length-append_end (g ∷ got) e = ap suc (length-append_end got e)

nth-append : (got rest : List AgentEvent) → nth (length got) (got ++ rest) ≡ nth 0 rest
unfolding nth
nth-append [] rest = refl
nth-append (g ∷ got) rest = nth-append got rest

-- More of the buffer, with a wake-up.
wake-InOrder :
    (buffer : List AgentEvent) (e : AgentEvent) (index : ℕ) (got : List AgentEvent) (p : Phase)
    → Rest false buffer index got p
    → InOrder false (buffer ++ e ∷ []) (wake (record { index = index; phase = p; got = got }))
wake-InOrder buffer e index got looking (rest, b, i) =
    (rest ++ e ∷ [], ap (λ b. b ++ e ∷ []) b ∙ ++_assoc got rest (e ∷ []), i)
wake-InOrder buffer e index got (sending f) (rest, b, i) =
    (rest ++ e ∷ [], ap (λ b. b ++ e ∷ []) b ∙ ++_assoc got (f ∷ rest) (e ∷ []), i)
wake-InOrder buffer e index got waiting (b, i, d) = (e ∷ [], ap (λ b. b ++ e ∷ []) b, i)
wake-InOrder buffer e index got woken (rest, b, i) =
    (rest ++ e ∷ [], ap (λ b. b ++ e ∷ []) b ∙ ++_assoc got rest (e ∷ []), i)
wake-InOrder buffer e index got ended (b, d) = absurd (cc d)
wake-InOrder buffer e index got cancelled (rest, b) =
    (rest ++ e ∷ [], ap (λ b. b ++ e ∷ []) b ∙ ++_assoc got rest (e ∷ []))

pub wake_all-AllInOrder :
    (buffer : List AgentEvent) (e : AgentEvent) (ss : List Subscriber)
    → AllInOrder false buffer ss
    → AllInOrder false (buffer ++ e ∷ []) (wake_all ss)
unfolding wake_all
wake_all-AllInOrder buffer e [] h = tt
wake_all-AllInOrder buffer e (s ∷ ss) (h, hs) =
    (wake-InOrder buffer e s.index s.got s.phase h, wake_all-AllInOrder buffer e ss hs)

-- The end, with a wake-up.
finish-InOrder :
    (buffer : List AgentEvent) (index : ℕ) (got : List AgentEvent) (p : Phase)
    → Rest false buffer index got p
    → InOrder true buffer (wake (record { index = index; phase = p; got = got }))
finish-InOrder buffer index got looking h = h
finish-InOrder buffer index got (sending f) h = h
finish-InOrder buffer index got waiting (b, i, d) = ([], b ∙ sym (++-nil got), i)
finish-InOrder buffer index got woken h = h
finish-InOrder buffer index got ended (b, d) = absurd (cc d)
finish-InOrder buffer index got cancelled h = h

pub finish-AllInOrder :
    (buffer : List AgentEvent) (ss : List Subscriber)
    → AllInOrder false buffer ss
    → AllInOrder true buffer (wake_all ss)
unfolding wake_all
finish-AllInOrder buffer [] h = tt
finish-AllInOrder buffer (s ∷ ss) (h, hs) =
    (finish-InOrder buffer s.index s.got s.phase h, finish-AllInOrder buffer ss hs)

-- A move of one subscriber.
pub at_subscriber-AllInOrder :
    (done : Bool) (buffer : List AgentEvent) (f : Subscriber → Subscriber)
    → ((s : Subscriber) → InOrder done buffer s → InOrder done buffer (f s))
    → (n : ℕ) (ss : List Subscriber) → AllInOrder done buffer ss
    → AllInOrder done buffer (at_subscriber n f ss)
unfolding at_subscriber
at_subscriber-AllInOrder done buffer f step n [] h = tt
at_subscriber-AllInOrder done buffer f step zero (s ∷ ss) (h, hs) = (step s h, hs)
at_subscriber-AllInOrder done buffer f step (suc n) (s ∷ ss) (h, hs) =
    (h, at_subscriber-AllInOrder done buffer f step n ss hs)

pub go_on-InOrder :
    (done : Bool) (buffer : List AgentEvent) (s : Subscriber) (p : Phase)
    → Rest done buffer s.index s.got p
    → s.phase ≡ p
    → InOrder done buffer (go_on s p)
go_on-InOrder done buffer s (sending e) (rest, b, i) h =
    (rest, b ∙ sym (++_assoc s.got (e ∷ []) rest), i ∙ sym (length-append_end s.got e))
go_on-InOrder done buffer s woken r h = r
go_on-InOrder done buffer s looking r h = subst (Rest done buffer s.index s.got) (sym h) r
go_on-InOrder done buffer s waiting r h = subst (Rest done buffer s.index s.got) (sym h) r
go_on-InOrder done buffer s ended r h = subst (Rest done buffer s.index s.got) (sym h) r
go_on-InOrder done buffer s cancelled r h = subst (Rest done buffer s.index s.got) (sym h) r

pub give_up-InOrder :
    (done : Bool) (buffer : List AgentEvent) (index : ℕ) (got : List AgentEvent) (p : Phase)
    → Rest done buffer index got p
    → Rest done buffer index got (give_up p)
give_up-InOrder done buffer index got looking h = h
give_up-InOrder done buffer index got (sending e) (rest, b, i) = (e ∷ rest, b)
give_up-InOrder done buffer index got waiting (b, i, d) = ([], b ∙ sym (++-nil got))
give_up-InOrder done buffer index got woken (rest, b, i) = (rest, b)
give_up-InOrder done buffer index got ended h = h
give_up-InOrder done buffer index got cancelled h = h

seen-InOrder :
    (done : Bool) (buffer : List AgentEvent) (s : Subscriber) (rest : List AgentEvent)
    → buffer ≡ s.got ++ rest
    → s.index ≡ length s.got
    → InOrder done buffer (seen done s (nth 0 rest))
unfolding nth
seen-InOrder true buffer s [] b i = (b ∙ ++-nil s.got, refl)
seen-InOrder false buffer s [] b i = (b ∙ ++-nil s.got, i, refl)
seen-InOrder done buffer s (e ∷ rest) b i = (rest, b, ground arith)

pub look-InOrder :
    (done : Bool) (buffer : List AgentEvent) (s : Subscriber) (p : Phase)
    → Rest done buffer s.index s.got p
    → s.phase ≡ p
    → InOrder done buffer (look done buffer s p)
look-InOrder done buffer s looking (rest, b, i) h =
    subst (λ e. InOrder done buffer (seen done s e))
      (sym (ap (λ n. nth n buffer) i ∙ ap (nth (length s.got)) b ∙ nth-append s.got rest))
      (seen-InOrder done buffer s rest b i)
look-InOrder done buffer s (sending e) r h = subst (Rest done buffer s.index s.got) (sym h) r
look-InOrder done buffer s waiting r h = subst (Rest done buffer s.index s.got) (sym h) r
look-InOrder done buffer s woken r h = subst (Rest done buffer s.index s.got) (sym h) r
look-InOrder done buffer s ended r h = subst (Rest done buffer s.index s.got) (sym h) r
look-InOrder done buffer s cancelled r h = subst (Rest done buffer s.index s.got) (sym h) r
