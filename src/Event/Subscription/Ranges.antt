-- ===== src/Event/Subscription/Ranges.antt =====
-- The priorities that subscriptions and waiters use (source/apixis/core/event/subscription.py).
use apixis.Base.{
  ℕ, String, Bool, true, false, ◌≡◌, refl, subst, sym, Error, List, [], ◌∷◌, Option, none, some,
  Result, ok, raise, arith, ◌>>◌, reject, not, ◌&&◌, type_error,
}
use apixis.Base.Int.{ℤ, pos, negsuc, ltb_ℤ}
use apixis.Event.Registry.{Registry, init}
use apixis.Event.Registry.Chains.{IsCoherent, init-IsCoherent}
use apixis.Event.Registry.Coherence.{unregister_handler-IsCoherent}
use apixis.Event.Registry.Replace.{register_handler_lem, register_handler_atomic}
use apixis.Event.Registry.Priorities.{All-register_handler, All-unregister_handler}
use apixis.Event.Registry.Validate.{Entry, Patterns, BetweenArgument, finite}
use apixis.Event.Registry.Register.{register_handler}
use apixis.Event.Subscription.{
  Arguments, Subject, PriorityArgument, number, infinite, nan, other_comparable, incomparable,
  staged_priority, staged, is_out_of_range, check_range, subscribe, unsubscribe, Point, received,
  processed, point_priority, top, bottom, register_wait_handler, wait_entry, decorated, settled,
}
use apixis.Event.Subscription.Points.{IsRanged}

-- A registry that subscriptions may leave.
pub record IsSound (r : Registry) : Type 0 where
  pub coherent : IsCoherent r
  pub ranged : IsRanged r

abbrev Between : ℤ → Type 0
Between p = (ltb_ℤ top p ≡ false) × (ltb_ℤ p bottom ≡ false)

register_handler-IsSound :
    (r : Registry) (e : Entry) (exist_ok : Bool)
    → IsSound r
    → ((p : ℤ) → e.priority ≡ some (finite p) → Between p)
    → IsSound (register_handler r e exist_ok).0
register_handler-IsSound r e exist_ok s only = record {
  coherent = (register_handler_lem r e exist_ok s.coherent).0;
  ranged = record {
    at_most =
        All-register_handler (λ p. ltb_ℤ top p ≡ false) r e exist_ok s.coherent.unique_priorities
          (λ p h. (only p h).0) s.ranged.at_most;
    at_least =
        All-register_handler (λ p. ltb_ℤ p bottom ≡ false) r e exist_ok s.coherent.unique_priorities
          (λ p h. (only p h).1) s.ranged.at_least;
  };
}

unsubscribe-IsSound :
    (r : Registry) (name : String) (missing_ok : Bool)
    → IsSound r
    → IsSound (unsubscribe r name missing_ok).0
unfolding unsubscribe
unsubscribe-IsSound r name missing_ok s = record {
  coherent = unregister_handler-IsCoherent r name missing_ok s.coherent;
  ranged = record {
    at_most =
        All-unregister_handler (λ p. ltb_ℤ top p ≡ false) r name missing_ok
          s.coherent.unique_priorities s.ranged.at_most;
    at_least =
        All-unregister_handler (λ p. ltb_ℤ p bottom ≡ false) r name missing_ok
          s.coherent.unique_priorities s.ranged.at_least;
  };
}

in_range-Between : (p : ℤ) → is_out_of_range p ≡ false → Between p
in_range-Between (pos n) h = (ground (arith, h), ground (arith, h))
in_range-Between (negsuc n) h = (ground (arith, h), ground (arith, h))

point-Between : (point : Point) → Between (point_priority point)
point-Between received = (refl, refl)
point-Between processed = (refl, refl)

some_finite : {p q : ℤ} → some (finite p) ≡ some (finite q) → p ≡ q
some_finite h = cc h

staged-Between :
    (o : Option PriorityArgument) (b : Option BetweenArgument)
    → check_range o ≡ ok tt
    → (p : ℤ) → staged_priority o b ≡ some (finite p)
    → Between p
unfolding check_range
staged-Between none none h p given = subst Between (some_finite given) (refl, refl)
staged-Between none (some b) h p given = cc given
staged-Between (some (number q)) b h p given =
    subst Between (some_finite given) (in_range-Between q (ground (arith, h)))
staged-Between (some infinite) b h p given = cc h
staged-Between (some nan) b h p given = cc given
staged-Between (some other_comparable) b h p given = cc given
staged-Between (some incomparable) b h p given = cc h

module _ (r : Registry) (new : ℕ) (a : Arguments) (s : Subject) (sound : IsSound r) where
  settled_registry : (e : Entry) (q : Registry × Result (Unit {0})) → (settled a s e q).0 ≡ q.0
  settled_registry e (r, raise x) = refl
  settled_registry e (r, ok tt) = refl

  decorated-IsSound :
      (o : Result (Unit {0}))
      → (o ≡ ok tt → check_range a.priority ≡ ok tt)
      → IsSound (decorated r new a s o).0
  unfolding staged
  decorated-IsSound (raise x) h = sound
  decorated-IsSound (ok tt) h =
      subst IsSound
        (sym (settled_registry (staged new a s) (register_handler r (staged new a s) a.exist_ok)))
        (register_handler-IsSound r (staged new a s) a.exist_ok sound
          (staged-Between a.priority a.between_handlers (h refl)))

  first_ok : (m k : Result (Unit {0})) → m >> k ≡ ok tt → m ≡ ok tt
  first_ok (raise x) k h = cc h
  first_ok (ok tt) k h = refl

  subscribe-IsSound : IsSound (subscribe r new a s).0
  unfolding subscribe
  subscribe-IsSound =
      decorated-IsSound
        (check_range a.priority >> reject (not s.is_instance && not s.entry.core_func) type_error)
        (first_ok (check_range a.priority) _)

  settled_atomic :
      (e : Entry) (q : Registry × Result (Unit {0})) (x : Error)
      → ((y : Error) → q.1 ≡ raise y → q.0 ≡ r)
      → (settled a s e q).2 ≡ raise x
      → ((settled a s e q).0 ≡ r) × ((settled a s e q).1 ≡ s)
  settled_atomic e (r', raise y) x same h = (same y refl, refl)
  settled_atomic e (r', ok tt) x same h = cc h

  -- On a coherent registry whose priorities lie between those of the two points, a subscription that
  -- raises leaves the registry as it was, also where it was to replace a handler, and the instance that
  -- was to be subscribed.
  pub subscribe_atomic :
      (x : Error)
      → (subscribe r new a s).2 ≡ raise x
      → ((subscribe r new a s).0 ≡ r) × ((subscribe r new a s).1 ≡ s)
  unfolding subscribe
  subscribe_atomic x h =
      go (check_range a.priority >> reject (not s.is_instance && not s.entry.core_func) type_error)
        h
    where
      go :
          (o : Result (Unit {0}))
          → (decorated r new a s o).2 ≡ raise x
          → ((decorated r new a s o).0 ≡ r) × ((decorated r new a s o).1 ≡ s)
      go (raise y) k = (refl, refl)
      go (ok tt) k =
          settled_atomic (staged new a s) (register_handler r (staged new a s) a.exist_ok) x
            (λ y. register_handler_atomic r (staged new a s) a.exist_ok sound.coherent y) k

register_wait_handler-IsSound :
    (r : Registry) (new : ℕ) (hex event_name : String) (point : Point) (filter : Option Patterns)
    → IsSound r
    → IsSound (register_wait_handler r new hex event_name point filter).0
unfolding register_wait_handler
register_wait_handler-IsSound r new hex event_name point filter s =
    register_handler-IsSound r (wait_entry new hex event_name point filter) true s
      (λ p given. subst Between (some_finite given) (point-Between point))

-- What is called on the registry: subscriptions, their ends, and the registration of waiters.
pub data Call : Type 0 where
  subscribes : ℕ → Arguments → Subject → Call
  unsubscribes : String → Bool → Call
  awaits : ℕ → String → String → Point → Option Patterns → Call

unfoldable pub after : Call → Registry → Registry
unfolding subscribe unsubscribe register_wait_handler
after (subscribes new a s) r = (subscribe r new a s).0
after (unsubscribes name missing_ok) r = (unsubscribe r name missing_ok).0
after (awaits new hex event_name point filter) r =
    (register_wait_handler r new hex event_name point filter).0

unfoldable pub after_all : List Call → Registry → Registry
unfolding after
after_all [] r = r
after_all (c ∷ cs) r = after_all cs (after c r)

after-IsSound : (c : Call) (r : Registry) → IsSound r → IsSound (after c r)
unfolding after
after-IsSound (subscribes new a t) r s = subscribe-IsSound r new a t s
after-IsSound (unsubscribes name missing_ok) r s = unsubscribe-IsSound r name missing_ok s
after-IsSound (awaits new hex event_name point filter) r s =
    register_wait_handler-IsSound r new hex event_name point filter s

init-IsSound : IsSound init
init-IsSound = record {
  coherent = init-IsCoherent;
  ranged = record { at_most = tt; at_least = tt };
}

calls-IsSound : (cs : List Call) (r : Registry) → IsSound r → IsSound (after_all cs r)
unfolding after_all
calls-IsSound [] r s = s
calls-IsSound (c ∷ cs) r s = calls-IsSound cs (after c r) (after-IsSound c r s)

-- Whatever subscriptions, unsubscriptions and registrations of waiters have been called on the empty
-- registry, whether they raised or not: no cached chain is stale, and every priority in use lies between
-- those of the two points of a waiter, these included.
pub after_all-IsSound : (cs : List Call) → IsSound (after_all cs init)
after_all-IsSound cs = calls-IsSound cs init init-IsSound
