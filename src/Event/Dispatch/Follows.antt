-- ===== src/Event/Dispatch/Follows.antt =====
-- Which handlers the loop over a chain executes, on which events, and how it ends
-- (source/apixis/core/event/event_loop.py).
use apixis.Base.{
  Bool, true, false, not, ◌≡◌, refl, ap, sym, ◌∙◌, List, [], ◌∷◌, ◌++◌, append-nil, append_assoc,
  if_cases, if◌then◌else◌, subst, select,
}
use apixis.Event.Handler.{
  ApixEvent, ApixEventHandler, Outcome, returned, failed, cancelled, exception, execute,
}
use apixis.Event.Dispatch.{Dispatch, run_chain, execute_handler, logged, unless_failed}

abbrev is_cancelled : Outcome → Bool
is_cancelled (failed cancelled) = true
is_cancelled (failed (exception x)) = false
is_cancelled returned = false

abbrev foregrounds : List ApixEventHandler → List ApixEventHandler
foregrounds = select (λ h. not h.background)

abbrev backgrounds : List ApixEventHandler → List ApixEventHandler
backgrounds = select (λ h. h.background)

-- The event after the executions of handlers, each on what the one before has left.
abbrev passed : List ApixEventHandler → ApixEvent → ApixEvent
passed [] e = e
passed (h ∷ hs) e = passed hs (execute h e).0

-- No execution is cancelled.
abbrev AllGoOn : List ApixEventHandler → ApixEvent → Type 0
AllGoOn [] e = Unit
AllGoOn (h ∷ hs) e = (is_cancelled (execute h e).1 ≡ false) × AllGoOn hs (execute h e).0

-- The loop has come through foreground handlers `fs` and background handlers `bs`.
abbrev Through :
    List ApixEventHandler
    → List ApixEventHandler
    → ApixEvent
    → List ApixEventHandler
    → Dispatch
    → Type 0
Through fs bs e started d = (d.event ≡ passed fs e) × (d.started ≡ started ++ bs) × AllGoOn fs e

-- Behind these, the execution of `h` has been cancelled.
abbrev CutAt :
    List ApixEventHandler
    → List ApixEventHandler
    → ApixEventHandler
    → ApixEvent
    → List ApixEventHandler
    → Dispatch
    → Type 0
CutAt fs bs h e started d =
    (d.event ≡ (execute h (passed fs e)).0)
    × (d.started ≡ started ++ bs)
    × AllGoOn fs e
    × ((execute h (passed fs e)).1 ≡ failed cancelled)

-- The end of the loop: through the whole chain, or with the cancellation of a foreground handler.
abbrev EndsBy :
    Outcome → List ApixEventHandler → ApixEvent → List ApixEventHandler → Dispatch → Type 0
EndsBy returned chain e started d = Through (foregrounds chain) (backgrounds chain) e started d
EndsBy (failed x) chain e started d =
    (front : List ApixEventHandler) × (h : ApixEventHandler) × (rest : List ApixEventHandler)
    × (chain ≡ front ++ h ∷ rest)
    × (h.background ≡ false)
    × (x ≡ cancelled)
    × CutAt (foregrounds front) (backgrounds front) h e started d

unfoldable pub Follows :
    List ApixEventHandler → ApixEvent → List ApixEventHandler → Dispatch → Type 0
Follows chain e started d = EndsBy d.outcome chain e started d

module _ (h : ApixEventHandler) (hs : List ApixEventHandler) where
  fore_bg : h.background ≡ true → foregrounds (h ∷ hs) ≡ foregrounds hs
  fore_bg bg = ap (λ b. if not b then h ∷ foregrounds hs else foregrounds hs) bg

  back_bg : h.background ≡ true → backgrounds (h ∷ hs) ≡ h ∷ backgrounds hs
  back_bg bg = ap (λ b. if b then h ∷ backgrounds hs else backgrounds hs) bg

  fore_fg : h.background ≡ false → foregrounds (h ∷ hs) ≡ h ∷ foregrounds hs
  fore_fg fg = ap (λ b. if not b then h ∷ foregrounds hs else foregrounds hs) fg

  back_fg : h.background ≡ false → backgrounds (h ∷ hs) ≡ backgrounds hs
  back_fg fg = ap (λ b. if b then h ∷ backgrounds hs else backgrounds hs) fg

  -- A statement about the lists of a chain from one about those behind its first handler.
  behind_bg :
      (P : List ApixEventHandler → List ApixEventHandler → Type 0)
      → h.background ≡ true
      → P (foregrounds hs) (h ∷ backgrounds hs)
      → P (foregrounds (h ∷ hs)) (backgrounds (h ∷ hs))
  behind_bg P bg p =
      subst (λ fs. P fs (backgrounds (h ∷ hs))) (sym (fore_bg bg))
        (subst (P (foregrounds hs)) (sym (back_bg bg)) p)

  behind_fg :
      (P : List ApixEventHandler → List ApixEventHandler → Type 0)
      → h.background ≡ false
      → P (h ∷ foregrounds hs) (backgrounds hs)
      → P (foregrounds (h ∷ hs)) (backgrounds (h ∷ hs))
  behind_fg P fg p =
      subst (λ fs. P fs (backgrounds (h ∷ hs))) (sym (fore_fg fg))
        (subst (P (h ∷ foregrounds hs)) (sym (back_fg fg)) p)

background-EndsBy :
    (o : Outcome) (h : ApixEventHandler) (hs : List ApixEventHandler) (e : ApixEvent)
    (started : List ApixEventHandler) (d : Dispatch)
    → h.background ≡ true
    → EndsBy o hs e (started ++ h ∷ []) d
    → EndsBy o (h ∷ hs) e started d
background-EndsBy returned h hs e started d bg (ev, st, all) =
    behind_bg h hs (λ fs bs. Through fs bs e started d) bg
      (ev, st ∙ append_assoc started (h ∷ []) (backgrounds hs), all)
background-EndsBy (failed x) h hs e started d bg
      (front, k, rest, split, fg, same, (ev, st, all, last)) =
    (
      h ∷ front,
      k,
      rest,
      ap (λ l. h ∷ l) split,
      fg,
      same,
      behind_bg h front (λ fs bs. CutAt fs bs k e started d) bg
          (ev, st ∙ append_assoc started (h ∷ []) (backgrounds front), all, last),
    )

foreground-EndsBy :
    (o : Outcome) (h : ApixEventHandler) (hs : List ApixEventHandler) (e : ApixEvent)
    (started : List ApixEventHandler) (d : Dispatch)
    → h.background ≡ false
    → is_cancelled (execute h e).1 ≡ false
    → EndsBy o hs (execute h e).0 started d
    → EndsBy o (h ∷ hs) e started d
foreground-EndsBy returned h hs e started d fg on (ev, st, all) =
    behind_fg h hs (λ fs bs. Through fs bs e started d) fg (ev, st, (on, all))
foreground-EndsBy (failed x) h hs e started d fg on
      (front, k, rest, split, fg', same, (ev, st, all, last)) =
    (
      h ∷ front,
      k,
      rest,
      ap (λ l. h ∷ l) split,
      fg',
      same,
      behind_fg h front (λ fs bs. CutAt fs bs k e started d) fg (ev, st, (on, all), last),
    )

pub run_chain-Follows :
    (chain : List ApixEventHandler) (e : ApixEvent) (started : List ApixEventHandler)
    → Follows chain e started (run_chain chain e started)
unfolding Follows run_chain execute_handler
run_chain-Follows [] e started = (refl, sym (append-nil started), tt)
run_chain-Follows (h ∷ hs) e started =
    if_cases (λ (d : Dispatch). Follows (h ∷ hs) e started d) h.background _ _
      (λ bg.
        background-EndsBy _ h hs e started (run_chain hs e (started ++ h ∷ [])) bg
          (run_chain-Follows hs e (started ++ h ∷ [])))
      (λ fg. here (execute h e) refl fg (λ e'. run_chain-Follows hs e' started))
  where
    here :
        (q : ApixEvent × Outcome)
        → execute h e ≡ q
        → h.background ≡ false
        → ((e' : ApixEvent) → Follows hs e' started (run_chain hs e' started))
        → Follows (h ∷ hs) e started (
            unless_failed
              (logged q).1
              (run_chain hs (logged q).0 started)
              (λ x. record { event = (logged q).0; started = started; outcome = failed x }))
    here (e', returned) eq fg behind =
        foreground-EndsBy _ h hs e started (run_chain hs e' started) fg
          (ap (λ q. is_cancelled q.1) eq)
          (subst (λ q. Follows hs q.0 started (run_chain hs e' started)) (sym eq) (behind e'))
    here (e', failed (exception x)) eq fg behind =
        foreground-EndsBy _ h hs e started (run_chain hs e' started) fg
          (ap (λ q. is_cancelled q.1) eq)
          (subst (λ q. Follows hs q.0 started (run_chain hs e' started)) (sym eq) (behind e'))
    here (e', failed cancelled) eq fg behind = (
      [],
      h,
      hs,
      refl,
      fg,
      refl,
      (sym (ap (λ q. q.0) eq), sym (append-nil started), tt, ap (λ q. q.1) eq),
    )
