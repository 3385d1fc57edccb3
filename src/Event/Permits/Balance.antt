-- ===== src/Event/Permits/Balance.antt =====
-- The count of the permits, free and held, in every reachable state
-- (source/apixis/core/event/base.py, event_loop.py).
use apixis.Base.{
  ◌&&◌, not, ltb, ℕ, ◌+◌, ◌≤◌, ◌<◌, ◌≡◌, refl, ap, sym, ◌∙◌, true, false, List, [], ◌∷◌, ◌++◌, ok,
  arith, if◌then◌else◌, All, subst, is_ok,
}
use apixis.Event.Permits.{
  Semaphore, HandlerChainToken, release, suspend, leave, lock, resume, finish,
}
use apixis.Event.Permits.Steps.{
  System, init, At, at, Step, consume, suspends, leaves, locks, resumes, gives_up, finishes, Reach,
  here, next,
}

abbrev pub permit : HandlerChainToken → ℕ
permit t = if t.held then 1 else 0

-- The permits in the hands of dispatches.
abbrev pub holders : List HandlerChainToken → ℕ
holders [] = 0
holders (t ∷ ts) = permit t + holders ts

-- A chain that holds a permit is neither closed nor suspended, and does not wait for one.
pub record IsSound (t : HandlerChainToken) : Type 0 where
  pub open_chain : (t.held && t.closed) ≡ false
  pub running : (t.held && ltb 0 t.suspended) ≡ false
  pub waiting : (t.acquiring && t.held) ≡ false

pub record IsBalanced (bound : ℕ) (s : System) : Type 0 where
  pub bounded : s.semaphore.bound ≡ bound
  pub balanced : s.semaphore.value + holders s.tokens ≡ bound
  pub sound : All IsSound s.tokens

-- What one operation on one token does to the count.
pub record Moves (s s' : Semaphore) (t t' : HandlerChainToken) : Type 0 where
  pub same_bound : s'.bound ≡ s.bound
  pub same_total : s'.value + permit t' ≡ s.value + permit t
  pub sound : IsSound t'

suspend-Moves :
    (s s' : Semaphore) (t t' : HandlerChainToken)
    → IsSound t
    → suspend s t ≡ ok (s', t')
    → Moves s s' t t'
unfolding suspend release
suspend-Moves s s' t t' i h = ground (arith, i.open_chain, i.running, i.waiting)

finish-Moves :
    (s s' : Semaphore) (t t' : HandlerChainToken)
    → IsSound t
    → finish s t ≡ ok (s', t')
    → Moves s s' t t'
unfolding finish release
finish-Moves s s' t t' i h = ground (arith, i.open_chain, i.running, i.waiting)

resume-Moves :
    (s s' : Semaphore) (t t' : HandlerChainToken)
    → IsSound t
    → 0 < s.value
    → t.acquiring ≡ true
    → resume s t ≡ ok (s', t')
    → Moves s s' t t'
unfolding resume release
resume-Moves s s' t t' i pos wants h = ground (arith, i.open_chain, i.running, i.waiting)

leave-Moves :
    (s : Semaphore) (t : HandlerChainToken) → IsSound t → 0 < t.suspended → Moves s s t (leave t)
unfolding leave
leave-Moves s t i pos = ground (arith, i.open_chain, i.running, i.waiting)

lock-Moves : (s : Semaphore) (t : HandlerChainToken) → IsSound t → Moves s s t (lock t)
unfolding lock
lock-Moves s t i = ground (arith, i.open_chain, i.running, i.waiting)

gives_up-Moves :
    (s : Semaphore) (t : HandlerChainToken)
    → IsSound t
    → Moves s s t (record t { acquiring = false })
gives_up-Moves s t i = ground (arith, i.open_chain, i.running, i.waiting)

holders-append : (xs ys : List HandlerChainToken) → holders (xs ++ ys) ≡ holders xs + holders ys
holders-append [] ys = omega arith
holders-append (x ∷ xs) ys = omega (arith, holders-append xs ys)

All-append :
    (xs ys : List HandlerChainToken) → All IsSound (xs ++ ys) → All IsSound xs × All IsSound ys
All-append [] ys h = (tt, h)
All-append (x ∷ xs) ys h = let (hx, hy) = All-append xs ys h.1 in ((h.0, hx), hy)

All-join :
    (xs ys : List HandlerChainToken) → All IsSound xs → All IsSound ys → All IsSound (xs ++ ys)
All-join [] ys hx hy = hy
All-join (x ∷ xs) ys hx hy = (hx.0, All-join xs ys hx.1 hy)

-- The changed token is sound before the step.
At-IsSound :
    {bound : ℕ} {s u : System} {t t' : HandlerChainToken}
    → IsBalanced bound s
    → At s u t t'
    → IsSound t
At-IsSound {t = t} b (at xs ys before after) =
    (All-append xs (t ∷ ys) (subst (All IsSound) before b.sound)).1.0

At-IsBalanced :
    {bound : ℕ} {s u : System} {t t' : HandlerChainToken}
    → IsBalanced bound s
    → At s u t t'
    → Moves s.semaphore u.semaphore t t'
    → IsBalanced bound u
At-IsBalanced {t = t} {t' = t'} b (at xs ys before after) m =
    let (hx, hy) = All-append xs (t ∷ ys) (subst (All IsSound) before b.sound) in
    record {
      bounded = m.same_bound ∙ b.bounded;
      balanced = omega (
        arith,
        ap holders before,
        ap holders after,
        holders-append xs (t ∷ ys),
        holders-append xs (t' ∷ ys),
        m.same_total,
        b.balanced,
      );
      sound = subst (All IsSound) (sym after) (All-join xs (t' ∷ ys) hx (m.sound, hy.1));
    }

Moves-same :
    {s s' : Semaphore} {t t' : HandlerChainToken} → s' ≡ s → Moves s s t t' → Moves s s' t t'
Moves-same {s} {s'} {t} {t'} e m = subst (λ x. Moves s x t t') (sym e) m

-- Each step keeps the count: the free permits and those held by dispatches make up the bound.
pub Step-IsBalanced :
    {bound : ℕ} {s u : System} → Step s u → IsBalanced bound s → IsBalanced bound u
Step-IsBalanced {s = s} {u = u} (consume free sem tokens) b = record {
  bounded = ap (λ (x : Semaphore). x.bound) sem ∙ b.bounded;
  balanced = omega (arith, ap (λ (x : Semaphore). x.value) sem, ap holders tokens, b.balanced);
  sound =
      subst (All IsSound) (sym tokens)
        (record { open_chain = refl; running = refl; waiting = refl }, b.sound);
}
Step-IsBalanced {s = s} {u = u} (suspends t t' a e) b =
    At-IsBalanced b a (suspend-Moves s.semaphore u.semaphore t t' (At-IsSound b a) e)
Step-IsBalanced {s = s} (leaves t pos a e) b =
    At-IsBalanced b a (Moves-same e (leave-Moves s.semaphore t (At-IsSound b a) pos))
Step-IsBalanced {s = s} (locks t pos idle a e) b =
    At-IsBalanced b a (Moves-same e (lock-Moves s.semaphore t (At-IsSound b a)))
Step-IsBalanced {s = s} {u = u} (resumes t t' wants pos a e) b =
    At-IsBalanced b a (resume-Moves s.semaphore u.semaphore t t' (At-IsSound b a) pos wants e)
Step-IsBalanced {s = s} (gives_up t wants a e) b =
    At-IsBalanced b a (Moves-same e (gives_up-Moves s.semaphore t (At-IsSound b a)))
Step-IsBalanced {s = s} {u = u} (finishes t t' a e) b =
    At-IsBalanced b a (finish-Moves s.semaphore u.semaphore t t' (At-IsSound b a) e)

-- In every reachable state the free permits and those that chains hold make up the bound, and no closed
-- or suspended chain holds one.
pub Reach-IsBalanced : (bound : ℕ) {s : System} → Reach (init bound) s → IsBalanced bound s
Reach-IsBalanced bound here = record { bounded = refl; balanced = omega arith; sound = tt }
Reach-IsBalanced bound (next r st) = Step-IsBalanced st (Reach-IsBalanced bound r)

releases_succeed :
    (s : Semaphore) (t : HandlerChainToken)
    → permit t + s.value ≤ s.bound
    → (is_ok (suspend s t) ≡ true)
      × (is_ok (finish s t) ≡ true)
      × ((ltb 0 s.value && not (is_ok (resume s t))) ≡ false)
unfolding suspend finish resume release
releases_succeed s t h = ground arith

-- In every reachable state, suspending and finishing any dispatch succeeds, and so does resuming one
-- where a permit is free: the semaphore is never released beyond its bound, also not by a permit that
-- is acquired for a closed or suspended chain and goes straight back.
pub Reach-releases_succeed :
    (bound : ℕ) {s : System} (xs ys : List HandlerChainToken) (t : HandlerChainToken)
    → Reach (init bound) s
    → s.tokens ≡ xs ++ t ∷ ys
    → (is_ok (suspend s.semaphore t) ≡ true)
      × (is_ok (finish s.semaphore t) ≡ true)
      × ((ltb 0 s.semaphore.value && not (is_ok (resume s.semaphore t))) ≡ false)
Reach-releases_succeed bound {s = s} xs ys t r e =
    let b = Reach-IsBalanced bound r in
    releases_succeed s.semaphore t
      (omega (arith, ap holders e, holders-append xs (t ∷ ys), b.balanced, b.bounded))
