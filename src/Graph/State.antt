-- ===== src/Graph/State.antt =====
-- Graph state (source/apixis/core/graph/utils/state.py). The values are any type; `deepcopy` is a
-- function on them, so that what is copied and what keeps its reference can be told apart.
use apixis.Base.{
  String, Bool, true, false, ◌≡◌, refl, List, [], ◌∷◌, arith, string_eq, if◌then◌else◌, contains,
}
use apixis.Base.Dict.{Dict, keys, get}
use mathlib.Core.Option

abbrev pub State : Type 0 → Type 0
State A = Dict String A

module _ {A : Type 0} (deepcopy : A → A) where
  unfoldable pub copy_state : State A → List String → State A
  copy_state [] keep_ref_keys = []
  copy_state ((k, v) ∷ s) keep_ref_keys =
      (k, if contains k keep_ref_keys then v else deepcopy v) ∷ copy_state s keep_ref_keys

  -- The copy has the keys of the state in their order; a marked field keeps its value, any other
  -- field holds the copy of its value.
  pub copy_state_lem :
      (s : State A) (keep_ref_keys : List String) (k : String)
      → (get k (copy_state s keep_ref_keys)
          ≡ (if contains k keep_ref_keys then get k s else Option.map deepcopy (get k s)))
        × (keys (copy_state s keep_ref_keys) ≡ keys s)
  unfolding copy_state get
  copy_state_lem [] keep k = (ground arith, refl)
  copy_state_lem ((j, v) ∷ s) keep k =
      let (value, order) = copy_state_lem s keep k in
      (ground (arith, string_eq.beq_iff j k), cc order)

-- A marker in the annotation of a field.
pub data Marker : Type 0 where
  auto_merge keep_ref other_marker : Marker

pub record Policies : Type 0 where
  pub auto_merge_keys : List String
  pub keep_ref_keys : List String

abbrev has_auto_merge : List Marker → Bool
has_auto_merge [] = false
has_auto_merge (auto_merge ∷ ms) = true
has_auto_merge (keep_ref ∷ ms) = has_auto_merge ms
has_auto_merge (other_marker ∷ ms) = has_auto_merge ms

abbrev has_keep_ref : List Marker → Bool
has_keep_ref [] = false
has_keep_ref (keep_ref ∷ ms) = true
has_keep_ref (auto_merge ∷ ms) = has_keep_ref ms
has_keep_ref (other_marker ∷ ms) = has_keep_ref ms

-- `parse_state_schema` on the annotated fields of a class.
pub parse_state_schema : List (String × List Marker) → Policies
parse_state_schema [] = record { auto_merge_keys = []; keep_ref_keys = [] }
parse_state_schema ((key, markers) ∷ fields) =
    let rest = parse_state_schema fields in
    record {
      auto_merge_keys =
          if has_auto_merge markers then key ∷ rest.auto_merge_keys else rest.auto_merge_keys;
      keep_ref_keys = if has_keep_ref markers then key ∷ rest.keep_ref_keys else rest.keep_ref_keys;
    }
