-- ===== src/Event/Subscription/Await.antt =====
-- `await_for` of source/apixis/core/event/subscription.py, and `register` and `unregister` of
-- `ApixEventHandler` in source/apixis/core/event/base.py, which call `subscribe` and `unsubscribe`.
use apixis.Base.{
  ℕ, String, Bool, true, List, Option, none, some, Result, ok, raise, timeout_error,
  cancelled_error, string_eq, ◌≡◌, refl, ap, sym, ◌∙◌,
}
use apixis.Base.Dict.{get}
use apixis.Event.Handler.{ApixEvent}
use apixis.Event.Registry.{Registry, unregister_handler, resolve}
use apixis.Event.Registry.Validate.{Entry, Item, Patterns, BetweenArgument}
use apixis.Event.Registry.Register.{register_handler}
use apixis.Event.Registry.Chains.{IsCoherent}
use apixis.Event.Registry.Replace.{register_handler_atomic}
use apixis.Event.Registry.Undo.{unregister-register_handler}
use apixis.Event.Subscription.{
  PriorityArgument, Subject, Options, Point, subscribe, unsubscribe, register_wait_handler,
  wait_entry,
}

-- `handler.register(...)`, with the handler's own execution settings.
unfoldable pub register :
    Registry
    → List Item
    → Bool
    → Option PriorityArgument
    → Option BetweenArgument
    → Option Patterns
    → Subject
    → Registry × Subject × Result Options
unfolding subscribe
register r event_names exist_ok priority between filters s =
    subscribe r s.entry.id
      (record {
        event_names = event_names;
        exist_ok = exist_ok;
        priority = priority;
        between_handlers = between;
        filter_event = filters;
        stop_when_error = some s.options.stop_when_error;
        time_out = s.options.time_out;
        background = some s.options.background;
      })
      s

-- `handler.unregister(...)`
unfoldable pub unregister : Registry → String → Bool → Registry × Result (Unit {0})
unfolding unsubscribe
unregister r name missing_ok = unsubscribe r name missing_ok

-- How the wait of `await_for` ends: by the first event, by the time limit, or by a cancellation.
pub data Awaited : Type 0 where
  first_event : ApixEvent → Awaited
  limit_passed task_cancelled : Awaited

abbrev pub awaited : Awaited → Result ApixEvent
awaited (first_event e) = ok e
awaited limit_passed = raise timeout_error
awaited task_cancelled = raise cancelled_error

abbrev await_event : String → Awaited → Registry × Result (Unit {0}) → Registry × Result ApixEvent
await_event name a (r, raise x) = (r, raise x)
await_event name a (r, ok u) = ((unregister r name true).0, awaited a)

-- `await_for`, with nothing but its own registration on the registry meanwhile.
unfoldable pub await_for :
    Registry → ℕ → String → String → Point → Option Patterns → Awaited → Registry × Result ApixEvent
unfolding register_wait_handler unregister
await_for r new hex event_name point filter a =
    await_event (wait_entry new hex event_name point filter).name a
      (register_wait_handler r new hex event_name point filter)

module _ (r : Registry) (c : IsCoherent r) (new : ℕ) (hex event_name : String) (point : Point)
    (filter : Option Patterns) where
  abbrev entry : Entry
  entry = wait_entry new hex event_name point filter

  -- `await_for` under a new name, however it ends, leaves the resolution of every event as it was.
  pub resolve-await_for :
      (a : Awaited) (ev : String)
      → get entry.name r.registry ≡ none
      → resolve (await_for r new hex event_name point filter a).0 ev ≡ resolve r ev
  unfolding await_for register_wait_handler unregister unsubscribe
  resolve-await_for a ev fresh = outcome (register_handler r entry true) refl
    where
      outcome :
          (q : Registry × Result (Unit {0}))
          → register_handler r entry true ≡ q
          → resolve (await_event entry.name a q).0 ev ≡ resolve r ev
      outcome (s, raise x) e =
          ap (λ q. resolve q ev)
            (sym (ap (λ (q : Registry × Result (Unit {0})). q.0) e)
              ∙ register_handler_atomic r entry true c x
                  (ap (λ (q : Registry × Result (Unit {0})). q.1) e))
      outcome (s, ok u) e =
          ap
            (λ (q : Registry × Result (Unit {0})).
              resolve (unregister_handler q.0 entry.name true).0 ev)
            (sym e)
          ∙ unregister-register_handler r c ev entry true fresh
              (ap (λ (q : Registry × Result (Unit {0})). q.1) e)
