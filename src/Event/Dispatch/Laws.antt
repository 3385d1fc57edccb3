-- ===== src/Event/Dispatch/Laws.antt =====
-- What the loop over a chain does to its event.
use mathlib.Core.List.{Sublist}
use mathlib.Core.List.Sublist
use apixis.Base.{not, ◌&&◌, all, String, true, false, ◌≡◌, List, [], ◌∷◌, ◌++◌, if◌then◌else◌, All}
use apixis.Event.Handler.{ApixEvent, ApixEventHandler, ApixEventError, has_error, is_empty}
use apixis.Event.Dispatch.{Dispatch}
use apixis.Event.Dispatch.Follows.{Follows}

abbrev pub foreground_names : List ApixEventHandler → List String
foreground_names [] = []
foreground_names (h ∷ hs) =
    let rest = foreground_names hs in if h.background then rest else h.name ∷ rest

-- The cores that ran are those of `ran`, in the order of the chain, each foreground handler once at
-- most. None ran on an accepted event, and none behind an error if all handlers stop at errors.
-- Errors are only added.
pub record Dispatches (chain : List ApixEventHandler) (e e' : ApixEvent) : Type 0 where
  pub ran : List String
  pub seen : e'.seen ≡ e.seen ++ ran
  pub in_order : Sublist ran (foreground_names chain)
  pub added : List ApixEventError
  pub errors : e'.error_stack ≡ e.error_stack ++ added
  pub skips_accepted : e.accepted ≡ true → ran ≡ []
  pub stops_at_error : has_error e ≡ true → All (λ h. h.stop_when_error ≡ true) chain → ran ≡ []

-- The same, with each condition as a test, and with the handlers that are executed.
pub record Dispatched (chain : List ApixEventHandler) (e : ApixEvent)
    (started : List ApixEventHandler) (d : Dispatch) : Type 0 where
  pub follows : Follows chain e started d
  pub ran : List String
  pub seen : d.event.seen ≡ e.seen ++ ran
  pub in_order : Sublist ran (foreground_names chain)
  pub added : List ApixEventError
  pub errors : d.event.error_stack ≡ e.error_stack ++ added
  pub skips_accepted : (e.accepted && not (is_empty ran)) ≡ false
  pub stops_at_error :
      (has_error e && all (λ h. h.stop_when_error) chain && not (is_empty ran)) ≡ false
