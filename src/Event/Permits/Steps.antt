-- ===== src/Event/Permits/Steps.antt =====
-- All interleavings of the consumer, the dispatches and their suspended branches.
use apixis.Base.{ℕ, ◌<◌, ◌≡◌, true, false, List, [], ◌∷◌, ◌++◌, ok}
use apixis.Event.Permits.{
  Semaphore, HandlerChainToken, acquired, fresh, suspend, leave, lock, resume, finish,
}

pub record System : Type 0 where
  pub semaphore : Semaphore
  pub tokens : List HandlerChainToken

abbrev pub init : ℕ → System
init bound = record { semaphore = record { bound = bound; value = bound }; tokens = [] }

-- One token changes from `t` to `t'`.
pub data At (s u : System) (t t' : HandlerChainToken) : Type 0 where
  at :
      (xs ys : List HandlerChainToken)
      → s.tokens ≡ xs ++ t ∷ ys
      → u.tokens ≡ xs ++ t' ∷ ys
      → At s u t t'

pub data Step (s u : System) : Type 0 where
  consume :
      0 < s.semaphore.value
      → u.semaphore ≡ acquired s.semaphore
      → u.tokens ≡ fresh ∷ s.tokens
      → Step s u
  suspends :
      (t t' : HandlerChainToken)
      → At s u t t'
      → suspend s.semaphore t ≡ ok (u.semaphore, t')
      → Step s u
  leaves :
      (t : HandlerChainToken)
      → 0 < t.suspended
      → At s u t (leave t)
      → u.semaphore ≡ s.semaphore
      → Step s u
  locks :
      (t : HandlerChainToken)
      → 0 < t.queued
      → t.acquiring ≡ false
      → At s u t (lock t)
      → u.semaphore ≡ s.semaphore
      → Step s u
  resumes :
      (t t' : HandlerChainToken)
      → t.acquiring ≡ true
      → 0 < s.semaphore.value
      → At s u t t'
      → resume s.semaphore t ≡ ok (u.semaphore, t')
      → Step s u
  -- the waiting task is cancelled
  gives_up :
      (t : HandlerChainToken)
      → t.acquiring ≡ true
      → At s u t (record t { acquiring = false })
      → u.semaphore ≡ s.semaphore
      → Step s u
  finishes :
      (t t' : HandlerChainToken)
      → At s u t t'
      → finish s.semaphore t ≡ ok (u.semaphore, t')
      → Step s u

pub data Reach (s : System) : System → Type 0 where
  here : Reach s s
  next : {t u : System} → Reach s t → Step t u → Reach s u
