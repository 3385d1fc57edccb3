-- ===== src/Event/Factory/Writes.antt =====
-- Writes of a core and of its startup task (source/apixis/core/event/factory.py).
use apixis.Base.{
  ℕ, true, false, Option, none, some, is_some, nat_eq, eq_true, eq_self, ◌==◌, Bool-cases, ◌⊎◌, inl,
  inr, if◌then◌else◌, if_cases, ◌≡◌, refl, sym, ap, arith, ◌∙◌,
}
use apixis.Base.Dict.{Dict, get, put, del, get-put, get-del}
use apixis.Event.Factory.{EventCore, Factory, is_starting}
use apixis.Event.Factory.Once.{IsOnce, IsFresh, Names}

module _ (f : Factory) (k : ℕ) (c : EventCore) (m : IsOnce f) where
  written-Names :
      (t j : ℕ)
      → ((k == j) ≡ true → c.start_task ≡ some t)
      → ((k == j) ≡ false → Names f.cores t j)
      → Names (put k c f.cores) t j
  written-Names t j own other = elim (Bool-cases (k == j)) [
    | inl e ↦ (c, get-put k j c f.cores ∙ ap (λ b. if b then some c else get j f.cores) e, own e)
    | inr e ↦
        let (d, at, names) = other e in
        (d, get-put k j c f.cores ∙ ap (λ b. if b then some c else get j f.cores) e ∙ at, names)
  ]

  -- The core `k` is written, and names the unfinished task that it has.
  module _ (u : Dict ℕ ℕ) (own : (t : ℕ) → get t u ≡ some k → c.start_task ≡ some t)
      (only : (t j : ℕ) → get t u ≡ some j → c.start_task ≡ some t → j ≡ k)
      (other : (t j : ℕ) → get t u ≡ some j → (k == j) ≡ false → get t f.unfinished ≡ some j)
      (older : (t j i : ℕ) (x : EventCore)
        → get t u ≡ some j
        → get i f.cores ≡ some x
        → x.start_task ≡ some t
        → get t f.unfinished ≡ some j) where
    written-owned :
        (t j i : ℕ) (x : EventCore)
        → get t u ≡ some j
        → get i (put k c f.cores) ≡ some x
        → x.start_task ≡ some t
        → j ≡ i
    written-owned t j i x h at names = elim (Bool-cases (k == i)) [
      | inl e ↦
          let mine : c ≡ x = ground (arith, get-put k i c f.cores) in
          only t j h (ap (λ (y : EventCore). y.start_task) mine ∙ names) ∙ eq_true k i e
      | inr e ↦
          let at' : get i f.cores ≡ some x = ground (arith, get-put k i c f.cores) in
          m.owned t j i x (older t j i x h at' names) at' names
    ]

    write-IsOnce : IsOnce (record { core = f.core; cores = put k c f.cores; unfinished = u })
    write-IsOnce = record {
      named = λ t j h.
          written-Names t j (λ e. own t (h ∙ ap some (sym (eq_true k j e))))
            (λ e. m.named t j (other t j h e));
      owned = written-owned;
      present = λ j h. rw (get-put k j c f.cores) (
          if_cases (λ o. is_some o ≡ true) (k == j) (some c) (get j f.cores) (λ yes'. refl)
            (λ no'. m.present j h));
    }

  -- A change that leaves the name of the startup task.
  pub change-IsOnce :
      (d : EventCore)
      → get k f.cores ≡ some d
      → c.start_task ≡ d.start_task
      → IsOnce (record f { cores = put k c f.cores })
  change-IsOnce d at same =
      write-IsOnce f.unfinished (λ t h. own t (m.named t k h))
        (λ t j h names. m.owned t j k d h at (sym same ∙ names)) (λ t j h e. h)
        (λ t j i x h at' names. h)
    where
      own : (t : ℕ) → Names f.cores t k → c.start_task ≡ some t
      own t (x, at', names) = cc (at, at', names, same)

  -- A new core, which becomes the shared one or not.
  pub new-IsOnce :
      (o : Option ℕ)
      → get k f.cores ≡ none
      → c.start_task ≡ none
      → ((j : ℕ) → o ≡ some j → (f.core ≡ some j) ⊎ (k ≡ j))
      → IsOnce (record f { core = o; cores = put k c f.cores })
  new-IsOnce o at idle which = record {
    named = old.named;
    owned = old.owned;
    present = λ j h. elim (which j h) [
      | inl e ↦ old.present j e
      | inr e ↦ ground (arith, get-put k j c f.cores, eq_self k)
    ];
  }
    where
      own : (t : ℕ) → Names f.cores t k → c.start_task ≡ some t
      own t (x, at', names) = cc (at, at')

      old : IsOnce (record f { cores = put k c f.cores })
      old =
          write-IsOnce f.unfinished (λ t h. own t (m.named t k h)) (λ t j h names. cc (idle, names))
            (λ t j h e. h) (λ t j i x h at' names. h)

pub del-IsOnce :
    (f : Factory) (t : ℕ) → IsOnce f → IsOnce (record f { unfinished = del t f.unfinished })
del-IsOnce f t m = record {
  named = λ s j h. m.named s j (ground (arith, get-del t s f.unfinished));
  owned = λ s j k c h. m.owned s j k c (ground (arith, get-del t s f.unfinished));
  present = m.present;
}

pub schedule-IsOnce :
    (f : Factory) (task k : ℕ) (c : EventCore)
    → IsOnce f
    → IsFresh f task
    → get k f.cores ≡ some c
    → is_starting f c.start_task ≡ false
    → IsOnce (record f {
      cores = put k (record c { start_task = some task }) f.cores;
      unfinished = put task k f.unfinished;
    })
schedule-IsOnce f task k c m free at idle =
    write-IsOnce f k (record c { start_task = some task }) m (put task k f.unfinished) own only
      other prior
  where
    older :
        (t j : ℕ)
        → get t (put task k f.unfinished) ≡ some j
        → (task == t) ≡ false
        → get t f.unfinished ≡ some j
    older t j h e =
        sym (get-put task t k f.unfinished ∙ ap (λ b. if b then some k else get t f.unfinished) e)
        ∙ h

    busy :
        (t : ℕ)
        → get t f.unfinished ≡ some k
        → Names f.cores t k
        → is_starting f c.start_task ≡ true
    busy t h (x, at', names) =
        let mine : c.start_task ≡ some t = cc (at, at', names) in
        ap (is_starting f) mine ∙ ap is_some h

    own : (t : ℕ) → get t (put task k f.unfinished) ≡ some k → some task ≡ some t
    own t h = elim (Bool-cases (task == t)) [
      | inl e ↦ ap some (eq_true task t e)
      | inr e ↦ cc (idle, busy t (older t k h e) (m.named t k (older t k h e)))
    ]

    only : (t j : ℕ) → get t (put task k f.unfinished) ≡ some j → some task ≡ some t → j ≡ k
    only t j h same =
        let mine : task ≡ t = cc same in
        ground (arith, get-put task t k f.unfinished, eq_self t, mine)

    prior :
        (t j i : ℕ) (x : EventCore)
        → get t (put task k f.unfinished) ≡ some j
        → get i f.cores ≡ some x
        → x.start_task ≡ some t
        → get t f.unfinished ≡ some j
    prior t j i x h at' names = elim (Bool-cases (task == t)) [
      | inl e ↦ absurd (free.1 i x at' (names ∙ ap some (sym (eq_true task t e))))
      | inr e ↦ older t j h e
    ]

    other :
        (t j : ℕ)
        → get t (put task k f.unfinished) ≡ some j
        → (k == j) ≡ false
        → get t f.unfinished ≡ some j
    other t j h e = elim (Bool-cases (task == t)) [
      | inl same ↦ ground (arith, get-put task t k f.unfinished, eq_self k)
      | inr new ↦ older t j h new
    ]
