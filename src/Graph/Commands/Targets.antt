-- ===== src/Graph/Commands/Targets.antt =====
-- The next step that a batch of commands gives, in `NodeGraph.apply_command`
-- (source/apixis/core/graph/node_graph.py).
pub mod Batches
use apixis.Base.{
  String, Bool, true, false, not, ◌||◌, List, [], ◌∷◌, ◌++◌, append-nil, append_assoc, Option, none,
  some, Result, ok, raise, value_error, ◌==◌, string_eq, if◌then◌else◌, if_cases, Bool-cases, inl,
  inr, ap, ◌∙◌, sym, contains, contains-append, any, select, without, dedup, ◌≡◌, refl, arith,
}
use apixis.Base.Dict.{get}
use apixis.Graph.State.{State, Policies, copy_state}
use apixis.Graph.Command.{
  Command, Update, plain, reset, Mapping, dict, mapping, not_mapping, Goto, nowhere, not_goto, to,
  to_all, end_name,
}
use apixis.Graph.Commands.{
  Progress, Target, one, batch, is_auto_merge, Added, no_method, not_implemented, sum, start,
  continue, for_each, is_conflict, noted, store, merge, merge_into, apply_field, apply_update,
  apply_goto, apply_one, apply_node, apply_groups, apply_batch, copied, targeted, add_targets,
  add_target, add_key, next_target, is_none, is_several, first_target,
}

-- The nodes that a target names: `END` is none of them.
abbrev pub nodes_of : Goto → List String
nodes_of nowhere = []
nodes_of not_goto = []
nodes_of (to name) = select (λ n. not (n == end_name)) (name ∷ [])
nodes_of (to_all names) = select (λ n. not (n == end_name)) names

abbrev pub is_batch : Goto → Bool
is_batch nowhere = false
is_batch not_goto = false
is_batch (to name) = false
is_batch (to_all names) = any (λ n. not (n == end_name)) names

module _ {A : Type 0} where
  abbrev pub named : List (Command A) → List String
  named [] = []
  named (c ∷ cs) = nodes_of c.goto ++ named cs

  abbrev pub has_batch : List (Command A) → Bool
  has_batch [] = false
  has_batch (c ∷ cs) = is_batch c.goto || has_batch cs

  abbrev pub all_commands : List (List (Command A)) → List (Command A)
  all_commands [] = []
  all_commands (cs ∷ groups) = cs ++ all_commands groups

-- The end if no node is named, a batch if a list names one or two are named, else the one node.
abbrev pub shape : Bool → List String → Target
shape several [] = one end_name
shape true (a ∷ names) = batch (a ∷ names)
shape false (a ∷ []) = one a
shape false (a ∷ b ∷ names) = batch (a ∷ b ∷ names)

abbrev pub add_keys : List String → List String → List String
add_keys [] seen = seen
add_keys (n ∷ names) seen = add_keys names (add_key n seen)

pub add_keys-append :
    (xs ys seen : List String) → add_keys (xs ++ ys) seen ≡ add_keys ys (add_keys xs seen)
add_keys-append [] ys seen = refl
add_keys-append (x ∷ xs) ys seen = add_keys-append xs ys (add_key x seen)

pub select-without :
    (a : String) (seen xs : List String)
    → select (λ x. not (contains x seen)) (without a xs)
      ≡ select (λ x. not (contains x (seen ++ a ∷ []))) xs
select-without a seen [] = refl
select-without a seen (x ∷ xs) = ground (
  arith,
  select-without a seen xs,
  contains-append x seen (a ∷ []),
  string_eq.beq_iff a x,
  string_eq.beq_iff x a,
)

pub select-without_present :
    (a : String) (seen xs : List String)
    → contains a seen ≡ true
    → select (λ x. not (contains x seen)) (without a xs) ≡ select (λ x. not (contains x seen)) xs
select-without_present a seen [] h = refl
select-without_present a seen (x ∷ xs) h =
    ground (arith, select-without_present a seen xs h, string_eq.beq_iff x a)

pub add_keys_lem :
    (names seen : List String)
    → add_keys names seen ≡ seen ++ select (λ x. not (contains x seen)) (dedup names)
add_keys_lem [] seen = sym (append-nil seen)
add_keys_lem (n ∷ names) seen = elim (Bool-cases (contains n seen)) [
  | inl old ↦ rw (old) (
      add_keys_lem names seen
      ∙ ap (λ l. seen ++ l) (sym (select-without_present n seen (dedup names) old)))
  | inr new ↦ rw (new) (
      add_keys_lem names (seen ++ n ∷ [])
      ∙ append_assoc seen (n ∷ []) _
      ∙ ap (λ l. seen ++ n ∷ l) (sym (select-without n seen (dedup names))))
]

pub select-all : (xs : List String) → select (λ x. true) xs ≡ xs
select-all [] = refl
select-all (x ∷ xs) = ap (λ l. x ∷ l) (select-all xs)

pub add_keys-dedup : (names : List String) → add_keys names [] ≡ dedup names
add_keys-dedup names = add_keys_lem names [] ∙ select-all (dedup names)

pub ok_injective : {x y : Target} → ok x ≡ ok y → x ≡ y
ok_injective h = cc h

pub shape_lem :
    (several : Bool) (ns : List String)
    → (if is_none ns
        then one end_name
        else if several || is_several ns
        then batch ns
        else first_target ns)
      ≡ shape several ns
shape_lem several [] = refl
shape_lem true (a ∷ ns) = refl
shape_lem false (a ∷ []) = refl
shape_lem false (a ∷ b ∷ ns) = refl
