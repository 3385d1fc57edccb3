-- ===== src/Graph/Restore.antt =====
-- `restore_context` and `_validate_snapshot` of source/apixis/core/graph/node_graph.py: a checkpoint
-- given by a caller is a dict with keys and values of any kind.
pub mod RoundTrip
use apixis.Base.{
  ℕ, zero, suc, ◌+◌, ◌-◌, String, Bool, true, false, not, ◌&&◌, ◌||◌, List, [], ◌∷◌, ◌++◌, Option,
  none, some, Result, ok, raise, ◌>>=◌, ◌>>◌, reject, value_error, type_error, runtime_error,
  index_error, ltb, leb, if◌then◌else◌, ◌==◌, string_eq, length, map,
}
use apixis.Base.Int.{ℤ, pos, negsuc}
use apixis.Graph.State.{State, copy_state}
use apixis.Graph.Commands.{Target}
use apixis.Graph.Context.{GraphContext, Snapshot, copy_snapshot, fresh, nth}
use apixis.Graph.Runtime.{NodeGraph}

-- The value of a key: there may be none, or one of another type than the field has.
pub data Field (A : Type 0) : Type 0 where
  missing mistyped : Field A
  value : A → Field A

pub record RawSnapshot (A : Type 0) : Type 0 where
  pub timestamp : Field ℕ
  pub state : Field (State A)
  pub target_node_name : Field Target
  pub steps : Field ℤ
  pub graph_id : Field String

pub data Checkpoint (A : Type 0) : Type 0 where
  not_a_dict : Checkpoint A
  a_dict : RawSnapshot A → Checkpoint A

-- What is restored: `nothing` is a value that is false in Python, such as `None` or an empty dict.
pub data Source (A R : Type 0) : Type 0 where
  context : GraphContext A R → Source A R
  a_list : List (Checkpoint A) → Source A R
  one_dict : RawSnapshot A → Source A R
  nothing another : Source A R

abbrev is_missing : {A : Type 0} → Field A → Bool
is_missing missing = true
is_missing _ = false

abbrev typed : {A : Type 0} → Field A → Result A
typed (value a) = ok a
typed _ = raise type_error

abbrev not_negative : ℤ → Result ℕ
not_negative (pos n) = ok n
not_negative (negsuc n) = raise value_error

module _ {A : Type 0} where
  abbrev lacks_a_key : RawSnapshot A → Bool
  lacks_a_key s =
      is_missing s.timestamp
      || is_missing s.state
      || is_missing s.target_node_name
      || is_missing s.steps
      || is_missing s.graph_id

  -- `_validate_snapshot`, with the snapshot that the dict is.
  unfoldable pub validate_snapshot : String → Checkpoint A → Result (Snapshot A)
  validate_snapshot own not_a_dict = raise type_error
  validate_snapshot own (a_dict s) = do
    reject (lacks_a_key s) value_error
    graph_id ← typed s.graph_id
    reject (not (graph_id == own)) value_error
    state ← typed s.state
    target ← typed s.target_node_name
    signed ← typed s.steps
    steps ← not_negative signed
    timestamp ← typed s.timestamp
    ok (record {
      timestamp = timestamp;
      state = state;
      target_node_name = target;
      steps = steps;
      graph_id = graph_id;
    })

  abbrev pub validate_all : String → List (Checkpoint A) → Result (List (Snapshot A))
  validate_all own [] = ok []
  validate_all own (c ∷ cs) =
      validate_snapshot own c >>= λ s. validate_all own cs >>= λ ss. ok (s ∷ ss)

  -- A stored snapshot as the dict that it is.
  abbrev pub stored : Snapshot A → Checkpoint A
  stored s = a_dict (record {
    timestamp = value s.timestamp;
    state = value s.state;
    target_node_name = value s.target_node_name;
    steps = value (pos s.steps);
    graph_id = value s.graph_id;
  })

-- The position that an index means in a list of that length, or the `IndexError`.
abbrev pub index_in : ℕ → ℤ → Result ℕ
index_in n (pos i) = if ltb i n then ok i else raise index_error
index_in n (negsuc i) = if ltb i n then ok (n - suc i) else raise index_error

-- `l[:i]`
abbrev pub take : {X : Type 0} → ℕ → List X → List X
take zero xs = []
take (suc n) [] = []
take (suc n) (x ∷ xs) = x ∷ take n xs

abbrev pub with_selected : {X : Type 0} → List X → Option X → Result (List X)
with_selected prefix none = raise index_error
with_selected prefix (some x) = ok (prefix ++ x ∷ [])

abbrev pub history_at : {X : Type 0} → List X → ℕ → Result (List X)
history_at xs i = with_selected (take i xs) (nth i xs)

-- `snapshot[:version] + [snapshot[version]]`
abbrev pub history_of : {X : Type 0} → List X → ℤ → Result (List X)
history_of [] version = raise runtime_error
history_of (x ∷ xs) version = index_in (length (x ∷ xs)) version >>= history_at (x ∷ xs)

abbrev pub last_of : {X : Type 0} → X → List X → X
last_of x [] = x
last_of x (y ∷ ys) = last_of y ys

module _ {A R : Type 0} where
  abbrev pub selected_history : String → Source A R → ℤ → Result (List (Checkpoint A))
  selected_history own (context c) version =
      reject (not (c.graph_id == own)) value_error
      >> history_of (map stored c.context_snapshot) version
  selected_history own (a_list cs) version = history_of cs version
  selected_history own (one_dict s) version = ok (a_dict s ∷ [])
  selected_history own nothing version = raise runtime_error
  selected_history own another version = raise type_error

  abbrev pub restored : (A → A) → String → List (Snapshot A) → Result (GraphContext A R)
  restored deepcopy own [] = raise index_error
  restored deepcopy own (s ∷ ss) =
      let last = copy_snapshot deepcopy (last_of s ss) in
      ok (record (fresh own) {
        state = copy_state deepcopy last.state [];
        target_node_name = last.target_node_name;
        steps = last.steps;
        context_snapshot = map (copy_snapshot deepcopy) (s ∷ ss);
      })

  unfoldable pub restore_context : (A → A) → NodeGraph → Source A R → ℤ → Result (GraphContext A R)
  unfolding validate_snapshot
  restore_context deepcopy g source version =
      if g.decomposed
      then raise runtime_error
      else selected_history g.graph_id source version
        >>= validate_all g.graph_id
        >>= restored deepcopy g.graph_id
