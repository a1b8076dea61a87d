-- ===== src/Session/Store/Laws.antt =====
-- internal/app/session/store.go: the session of a scope and its idle timeout do not disturb each
-- other.
use lark_bridge_agent_sdk.Base.{
  ℕ, String, Bool, Option, none, some, ◌≡◌, refl, arith, if-lift, is_some, or_else, ap, sym,
}
use lark_bridge_agent_sdk.Base.Map.{lookup, insert-unseen, delete-unseen}
use lark_bridge_agent_sdk.Session.Store.{
  ℤ, resumed, Entry, Store, no_entry, resume_for, set, cleared_with, cleared, clear,
  get_idle_timeout_minutes, set_idle_timeout_minutes, override_cleared, clear_idle_timeout_override,
  clamp_minutes,
}

abbrev timeout : Option Entry → Option ℕ
timeout o = (or_else o no_entry).idle_timeout_minutes

module _ (scope : String) (now : ℕ) (entries : Store) where
  set-timeout :
      (session cwd j : String)
      → get_idle_timeout_minutes j (set scope session cwd now entries)
        ≡ get_idle_timeout_minutes j entries
  unfolding get_idle_timeout_minutes set
  set-timeout session cwd j = insert-unseen timeout scope j entries _ refl

  cleared_with-timeout :
      (j : String) (o : Option ℕ)
      → timeout (lookup scope entries) ≡ o
      → get_idle_timeout_minutes j (cleared_with scope now entries o)
        ≡ get_idle_timeout_minutes j entries
  unfolding get_idle_timeout_minutes cleared_with
  cleared_with-timeout j none h = delete-unseen timeout scope j entries (sym h)
  cleared_with-timeout j (some minutes) h = insert-unseen timeout scope j entries _ (sym h)

  cleared-timeout :
      (j : String) (o : Option Entry)
      → lookup scope entries ≡ o
      → get_idle_timeout_minutes j (cleared scope now entries o)
        ≡ get_idle_timeout_minutes j entries
  unfolding cleared
  cleared-timeout j none h = refl
  cleared-timeout j (some e) h = cleared_with-timeout j e.idle_timeout_minutes (ap timeout h)

  overridden-resume :
      (j cwd : String) (o : Option Entry)
      → lookup scope entries ≡ o
      → resume_for j cwd (override_cleared scope now entries o).1 ≡ resume_for j cwd entries
  unfolding resume_for override_cleared
  overridden-resume j cwd none h = refl
  overridden-resume j cwd (some e) h =
      if-lift {A = Bool × Store} (λ x. resumed cwd (lookup j x.1) ≡ resumed cwd (lookup j entries))
        (is_some e.idle_timeout_minutes) _ _
        (insert-unseen (resumed cwd) scope j entries _ (sym (ap (resumed cwd) h))) refl

  resumed-timeout :
      (cwd : String) (minutes : ℕ) (o : Option Entry)
      → resumed cwd (
          some
            (record (or_else o no_entry) { updated_at = now; idle_timeout_minutes = some minutes }))
        ≡ resumed cwd o
  resumed-timeout cwd minutes none = ground arith
  resumed-timeout cwd minutes (some e) = refl

  -- Starting or ending a session keeps every idle timeout, and setting or removing an idle timeout
  -- keeps every session: neither for the same scope nor for another does one call change what the
  -- other kind of call reads.
  pub session_timeout_independent :
      (session cwd j : String) (minutes : ℤ)
      → (get_idle_timeout_minutes j (set scope session cwd now entries)
          ≡ get_idle_timeout_minutes j entries)
        × (get_idle_timeout_minutes j (clear scope now entries)
            ≡ get_idle_timeout_minutes j entries)
        × (resume_for j cwd (set_idle_timeout_minutes scope minutes now entries)
            ≡ resume_for j cwd entries)
        × (resume_for j cwd (clear_idle_timeout_override scope now entries).1
            ≡ resume_for j cwd entries)
  unfolding clear clear_idle_timeout_override set_idle_timeout_minutes resume_for
  session_timeout_independent session cwd j minutes = (
    set-timeout session cwd j,
    cleared-timeout j (lookup scope entries) refl,
    insert-unseen (resumed cwd) scope j entries _
        (resumed-timeout cwd (clamp_minutes minutes) (lookup scope entries)),
    overridden-resume j cwd (lookup scope entries) refl,
  )
