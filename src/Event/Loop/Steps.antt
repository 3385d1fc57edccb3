-- ===== src/Event/Loop/Steps.antt =====
-- All interleavings of the consumer, of those who post events and register handlers, and of the
-- dispatches with their permits.
use apixis.Base.{ℕ, String, ◌≡◌, Bool, true, false, some}
use apixis.Event.Handler.{ApixEvent}
use apixis.Event.Registry.{unregister_handler}
use apixis.Event.Registry.Register.{register_handler}
use apixis.Event.Registry.Validate.{Entry}
use apixis.Event.Permits.Steps
use apixis.Event.Permits.Steps.{System, consume}
use apixis.Event.Loop.{EventLoop, start, stop, on_consumer_done, post, take, dispatch}

abbrev pub is_consume : {s u : System} → Steps.Step s u → Bool
is_consume (consume free sem tokens) = true
is_consume _ = false

pub data Step (l u : EventLoop) : Type 0 where
  posts : (e : ApixEvent) → post e l ≡ some u → Step l u
  starts : (task : ℕ) → u ≡ start task l → Step l u
  stops : u ≡ stop l → Step l u
  ends : (task : ℕ) → u ≡ on_consumer_done task l → Step l u
  takes : take l ≡ some u → Step l u
  dispatches : (created : Bool) → dispatch created l ≡ some u → Step l u
  -- a running dispatch lends its permit, takes one back or ends
  moves_permit :
      (s : System) (st : Steps.Step l.permits s)
      → is_consume st ≡ false
      → u ≡ record l { permits = s }
      → Step l u
  registers :
      (e : Entry) (exist_ok : Bool)
      → u ≡ record l { registry = (register_handler l.registry e exist_ok).0 }
      → Step l u
  unregisters :
      (name : String) (missing_ok : Bool)
      → u ≡ record l { registry = (unregister_handler l.registry name missing_ok).0 }
      → Step l u

pub data Reach (l : EventLoop) : EventLoop → Type 0 where
  here : Reach l l
  next : {m u : EventLoop} → Reach l m → Step m u → Reach l u
