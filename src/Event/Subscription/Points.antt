-- ===== src/Event/Subscription/Points.antt =====
-- Where the handlers of waiters stand among the others (source/apixis/core/event/subscription.py).
use apixis.Base.{
  ℕ, String, true, false, ◌≡◌, refl, ap, ◌∙◌, sym, List, [], ◌∷◌, ◌++◌, Option, none, Result, ok,
  raise, arith, string_eq,
}
use apixis.Base.Int.{ℤ, pos, negsuc, ltb_ℤ, int_eq}
use apixis.Base.Dict.{get, keys}
use apixis.Event.Registry.{Registry, active_handler_names, bucket_of, resolve, unregister_handler}
use apixis.Event.Registry.Undo.{unregister-register_handler}
use apixis.Event.Waiter.{EventWaiter}
use apixis.Event.Registry.Sort.{AtMost}
use apixis.Event.Registry.Extremes.{AtLeast}
use apixis.Event.Registry.Append.{
  order, others, order-greatest, order-smallest, appended, register_handler-appended,
  active_handler_names-order,
}
use apixis.Event.Registry.Validate.{Patterns, Entry}
use apixis.Event.Subscription.{
  Point, received, processed, top, bottom, register_wait_handler, wait_entry, point_priority, enter,
  entered, leave,
}
use apixis.Event.Registry.Chains.{IsCoherent}

-- Every priority lies between those of the two points.
pub record IsRanged (r : Registry) : Type 0 where
  pub at_most : AtMost top (keys r.priority_buckets)
  pub at_least : AtLeast bottom (keys r.priority_buckets)

pub ltb_ℤ_irrefl : (p : ℤ) → ltb_ℤ p p ≡ false
ltb_ℤ_irrefl (pos n) = ground arith
ltb_ℤ_irrefl (negsuc n) = ground arith

-- The waiters at `received` that came earlier, and all other handlers.
abbrev pub waiters : Registry → List String
waiters r = bucket_of top r.priority_buckets

abbrev pub ordinary : Registry → List String
ordinary r = others top r.priority_buckets

-- How the order `s` of the active handlers comes from that of `r`.
abbrev pub Placed : Point → String → Registry → Registry → Type 0
Placed received name r s =
    (active_handler_names r ≡ waiters r ++ ordinary r)
    × (active_handler_names s ≡ waiters r ++ name ∷ ordinary r)
Placed processed name r s = active_handler_names s ≡ active_handler_names r ++ name ∷ []

module _ (r : Registry) (c : IsCoherent r) (ranged : IsRanged r) (new : ℕ) (hex event_name : String)
    (filter : Option Patterns) where
  abbrev entry_at : Point → Entry
  entry_at point = wait_entry new hex event_name point filter

  abbrev registered : Point → Registry
  registered point = (register_wait_handler r new hex event_name point filter).0

  order_registered :
      (point : Point)
      → get (entry_at point).name r.registry ≡ none
      → (register_wait_handler r new hex event_name point filter).1 ≡ ok tt
      → active_handler_names (registered point)
        ≡ order (appended (point_priority point) (entry_at point).name r.priority_buckets)
  unfolding register_wait_handler
  order_registered point fresh done =
      active_handler_names-order (registered point)
      ∙ ap order (
          register_handler-appended r (entry_at point) (point_priority point) refl refl fresh true
            done)

  -- On a coherent registry whose priorities lie between those of the two points, a waiter with a new name
  -- that is registered at `received` comes before all active handlers but earlier waiters at that point,
  -- and one that is registered at `processed` comes behind all; the others keep their order.
  pub register_wait_handler-Placed :
      (point : Point)
      → get (entry_at point).name r.registry ≡ none
      → (register_wait_handler r new hex event_name point filter).1 ≡ ok tt
      → Placed point (entry_at point).name r (registered point)
  register_wait_handler-Placed received fresh done =
      let (before, after) =
        order-greatest top (entry_at received).name r.priority_buckets c.unique_priorities
          (ltb_ℤ_irrefl top) ranged.at_most in
      (active_handler_names-order r ∙ before, order_registered received fresh done ∙ after)
  register_wait_handler-Placed processed fresh done =
      order_registered processed fresh done
      ∙ order-smallest bottom (entry_at processed).name r.priority_buckets c.unique_priorities
          (ltb_ℤ_irrefl bottom) ranged.at_least
      ∙ ap (λ xs. xs ++ (entry_at processed).name ∷ []) (sym (active_handler_names-order r))

  entered_ok :
      (point : Point) (now : ℤ) (time_out : Option ℤ) (q : Registry × Result (Unit {0}))
      (w : EventWaiter)
      → (entered now time_out q).1 ≡ ok w
      → ((entered now time_out q).0 ≡ q.0) × (q.1 ≡ ok tt)
  entered_ok point now time_out (s, raise x) w h = cc h
  entered_ok point now time_out (s, ok tt) w h = (refl, refl)

  -- A context of `wait_for_event` that is entered on a coherent registry whose priorities lie between
  -- those of the two points, under a new name, and left with no other call in between, leaves the
  -- resolution of every event as it was before.
  pub leave-enter :
      (point : Point) (now : ℤ) (time_out : Option ℤ) (w : EventWaiter) (ev : String)
      → get (entry_at point).name r.registry ≡ none
      → (enter now time_out r new hex event_name point filter).1 ≡ ok w
      → resolve
          (leave (entry_at point).name (enter now time_out r new hex event_name point filter).0 w).0
          ev
        ≡ resolve r ev
  unfolding enter leave register_wait_handler
  leave-enter point now time_out w ev fresh done =
      let (same, registered') =
        entered_ok point now time_out (register_wait_handler r new hex event_name point filter) w
          done in
      ap (λ s. resolve (unregister_handler s (entry_at point).name true).0 ev) same
      ∙ unregister-register_handler r c ev (entry_at point) true fresh registered'
