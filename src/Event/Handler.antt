-- ===== src/Event/Handler.antt =====
-- source/apixis/core/event/base.py: the event, and a handler that runs its functions on it.
-- A function of the user is a pure function of the event: it returns, raises an exception (a time-out
-- is one) or is cancelled, and leaves the event that it has changed by then.
pub mod Notify
pub mod Laws
pub mod Core
pub mod Execute
use apixis.Base.{
  ℕ, String, Bool, true, false, not, ◌&&◌, List, [], ◌∷◌, ◌++◌, Option, none, some, Result, ok,
  raise, Error, type_error, value_error, if◌then◌else◌,
}

pub data EventType : Type 0 where
  internal workflow lifecycle info warning error : EventType

pub data Phase : Type 0 where
  core_func on_has_error on_accepted on_error : Phase

-- What a user's function raises; the number stands for the exception object.
pub data Failure : Type 0 where
  exception : ℕ → Failure
  cancelled : Failure

pub record ApixEventError : Type 0 where
  pub handler_name : String
  pub phase : Phase
  pub failure : Failure

pub record ApixEvent : Type 0 where
  pub event_id : ℕ
  pub event_type : EventType
  pub event_name : String
  pub context : ℕ
  pub accepted : Bool
  pub seen : List String
  pub error_stack : List ApixEventError

-- `event.accept()`
pub accept : ApixEvent → ApixEvent
accept e = record e { accepted = true }

abbrev pub is_empty {ℓ} : {A : Type ℓ} → List A → Bool
is_empty [] = true
is_empty (x ∷ xs) = false

-- `event.has_error`
abbrev pub has_error : ApixEvent → Bool
has_error e = not (is_empty e.error_stack)

pub data Outcome : Type 0 where
  returned : Outcome
  failed : Failure → Outcome

abbrev pub EventHandlerFunc : Type 0
EventHandlerFunc = ApixEvent → ApixEvent × Outcome

-- `on_error` also takes the exception.
abbrev pub EventHandlerErrorFunc : Type 0
EventHandlerErrorFunc = ℕ → EventHandlerFunc

pub record ApixEventHandler : Type 0 where
  pub name : String
  pub core_func : EventHandlerFunc
  pub on_accepted : Option EventHandlerFunc
  pub on_has_error : Option EventHandlerFunc
  pub on_error : Option EventHandlerErrorFunc
  pub on_cancelled : Option EventHandlerFunc
  pub stop_when_error : Bool
  pub background : Bool

-- Background failures never enter the error stack.
pub record_failure : ApixEventHandler → Phase → Failure → ApixEvent → ApixEvent
record_failure h phase failure e = if h.background then e else record e {
  error_stack =
      e.error_stack ++ record { handler_name = h.name; phase = phase; failure = failure } ∷ [];
}

-- `on_error`, whose own failure is recorded and goes no further. The result is whether the dispatch
-- goes on: only a cancellation is raised again.
run_on_error : ApixEventHandler → EventHandlerErrorFunc → ℕ → ApixEvent → ApixEvent × Outcome
unfolding record_failure
run_on_error h f x e =
    let (e', outcome) = f x e in
    elim outcome [
      | returned ↦ (e', returned)
      | failed cancelled ↦ (record_failure h on_error cancelled e', failed cancelled)
      | failed (exception y) ↦ (record_failure h on_error (exception y) e', returned)
    ]

pub report : ApixEventHandler → Option EventHandlerErrorFunc → ℕ → ApixEvent → ApixEvent × Outcome
unfolding run_on_error
report h none x e = (e, returned)
report h (some f) x e = run_on_error h f x e

-- `_execute_func` in a phase other than `on_error`.
pub execute_func : ApixEventHandler → EventHandlerFunc → Phase → ApixEvent → ApixEvent × Outcome
unfolding report
execute_func h f phase e =
    let (e', outcome) = f e in
    elim outcome [
      | returned ↦ (e', returned)
      | failed cancelled ↦ (record_failure h phase cancelled e', failed cancelled)
      | failed (exception x) ↦ report h h.on_error x (record_failure h phase (exception x) e')
    ]

pub notify_has_error : ApixEventHandler → Option EventHandlerFunc → ApixEvent → ApixEvent × Outcome
notify_has_error h none e = (e, returned)
notify_has_error h (some f) e =
    if has_error e then execute_func h f on_has_error e else (e, returned)

pub notify_accepted : ApixEventHandler → Option EventHandlerFunc → ApixEvent → ApixEvent × Outcome
notify_accepted h none e = (e, returned)
notify_accepted h (some f) e = execute_func h f on_accepted e

-- The handler is seen immediately before its core starts.
run_core : ApixEventHandler → ApixEvent → ApixEvent × Outcome
run_core h e = execute_func h h.core_func core_func (record e { seen = e.seen ++ h.name ∷ [] })

after_notification : ApixEventHandler → ApixEvent → ApixEvent × Outcome
unfolding notify_accepted run_core
after_notification h e =
    if e.accepted
    then notify_accepted h h.on_accepted e
    else if has_error e && h.stop_when_error
    then (e, returned)
    else run_core h e

pub execute : ApixEventHandler → ApixEvent → ApixEvent × Outcome
unfolding notify_has_error after_notification
execute h e =
    let (e', outcome) = notify_has_error h h.on_has_error e in
    elim outcome [ returned ↦ after_notification h e' | failed x ↦ (e', failed x) ]

-- Setting a callback: the argument is `none` where it cannot be called.
pub set_core_func : ApixEventHandler → Option EventHandlerFunc → Result ApixEventHandler
set_core_func h none = raise type_error
set_core_func h (some f) = ok (record h { core_func = f })

abbrev may_set {ℓ} : {A : Type ℓ} → Option A → Bool → Bool
may_set none exist_ok = true
may_set (some f) exist_ok = exist_ok

pub add_has_error_callback :
    ApixEventHandler → Option EventHandlerFunc → Bool → Result ApixEventHandler
add_has_error_callback h none exist_ok = raise type_error
add_has_error_callback h (some f) exist_ok =
    if may_set h.on_has_error exist_ok
    then ok (record h { on_has_error = some f })
    else raise value_error

pub add_on_accepted_callback :
    ApixEventHandler → Option EventHandlerFunc → Bool → Result ApixEventHandler
add_on_accepted_callback h none exist_ok = raise type_error
add_on_accepted_callback h (some f) exist_ok =
    if may_set h.on_accepted exist_ok
    then ok (record h { on_accepted = some f })
    else raise value_error

pub add_on_error_callback :
    ApixEventHandler → Option EventHandlerErrorFunc → Bool → Result ApixEventHandler
add_on_error_callback h none exist_ok = raise type_error
add_on_error_callback h (some f) exist_ok =
    if may_set h.on_error exist_ok then ok (record h { on_error = some f }) else raise value_error

pub add_on_cancelled_callback :
    ApixEventHandler → Option EventHandlerFunc → Bool → Result ApixEventHandler
add_on_cancelled_callback h none exist_ok = raise type_error
add_on_cancelled_callback h (some f) exist_ok =
    if may_set h.on_cancelled exist_ok
    then ok (record h { on_cancelled = some f })
    else raise value_error
