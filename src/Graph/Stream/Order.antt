-- ===== src/Graph/Stream/Order.antt =====
-- What a stream delivers (source/apixis/core/graph/context/stream_writer.py).
use apixis.Base.{
  Bool, true, false, not, ◌&&◌, List, [], ◌∷◌, ◌++◌, append_assoc, append-nil, map, Option, none,
  some, Result, ok, raise, if◌then◌else◌, if_cases, ◌≡◌, refl, ap, ◌∙◌, sym, subst, arith, inl, inr,
  Bool-cases,
}
use apixis.Graph.Stream.{
  StreamChannel, Next, waits, stops, chunk, open_channel, send, close, next, next_from,
}

-- A channel with the chunks that were accepted and those that were delivered, and whether the end was.
pub record Stream (A : Type 0) : Type 0 where
  pub channel : StreamChannel A
  pub sent : List A
  pub received : List A
  pub ended : Bool

pub data Operation (A : Type 0) : Type 0 where
  sends : A → Operation A
  closes reads : Operation A

module _ {A : Type 0} where
  abbrev pub opened : Stream A
  opened = record { channel = open_channel; sent = []; received = []; ended = false }

  abbrev after_send : A → Stream A → StreamChannel A × Result (Unit {0}) → Stream A
  after_send x s (ch, ok u) = record s { channel = ch; sent = s.sent ++ x ∷ [] }
  after_send x s (ch, raise e) = record s { channel = ch }

  abbrev after_next : Stream A → StreamChannel A × Next A → Stream A
  after_next s (ch, waits) = record s { channel = ch }
  after_next s (ch, stops) = record s { channel = ch; ended = true }
  after_next s (ch, chunk x) = record s { channel = ch; received = s.received ++ x ∷ [] }

  pub apply : Operation A → Stream A → Stream A
  unfolding send close next
  apply (sends x) s = after_send x s (send x s.channel)
  apply closes s = record s { channel = close s.channel }
  apply reads s = after_next s (next s.channel)

  pub run : List (Operation A) → Stream A → Stream A
  unfolding apply
  run [] s = s
  run (o ∷ os) s = run os (apply o s)

  -- The mark of the end is queued from the close of the channel to its delivery.
  abbrev pub mark : Bool → Bool → List (Option A)
  mark closed ended = if closed && not ended then none ∷ [] else []

  -- The chunks delivered and those still queued are those accepted, in order. The end is delivered only
  -- once the channel is closed, behind all of them.
  pub record IsOrdered (s : Stream A) : Type 0 where
    pub rest : List A
    pub queue : s.channel.queue ≡ map some rest ++ mark s.channel.closed s.ended
    pub order : s.received ++ rest ≡ s.sent
    pub last : s.ended ≡ true → (rest ≡ []) × (s.channel.closed ≡ true)

  map-snoc : (xs : List A) (x : A) → map some (xs ++ x ∷ []) ≡ map some xs ++ some x ∷ []
  map-snoc [] x = refl
  map-snoc (y ∷ ys) x = ap (λ zs. some y ∷ zs) (map-snoc ys x)

  going : (s : Stream A) → IsOrdered s → s.channel.closed ≡ false → s.ended ≡ false
  going s o open' = elim (Bool-cases s.ended) [
    | inl h ↦ absurd (cc (open', (o.last h).1))
    | inr h ↦ h
  ]

  send-IsOrdered : (x : A) (s : Stream A) → IsOrdered s → IsOrdered (apply (sends x) s)
  unfolding apply send
  send-IsOrdered x s o =
      if_cases (λ q. IsOrdered (after_send x s q)) s.channel.closed _ _ (λ shut. o)
        (λ open'. record {
          rest = o.rest ++ x ∷ [];
          queue =
              ap (λ q. q ++ some x ∷ [])
                (o.queue
                  ∙ ap (λ c. map some o.rest ++ mark c s.ended) open'
                  ∙ append-nil (map some o.rest))
              ∙ sym (map-snoc o.rest x)
              ∙ sym (append-nil (map some (o.rest ++ x ∷ [])))
              ∙ ap (λ c. map some (o.rest ++ x ∷ []) ++ mark c s.ended) (sym open');
          order = sym (append_assoc s.received o.rest (x ∷ [])) ∙ ap (λ xs. xs ++ x ∷ []) o.order;
          last = λ h. absurd (cc (open', (o.last h).1));
        })

  close-IsOrdered : (s : Stream A) → IsOrdered s → IsOrdered (apply closes s)
  unfolding apply close
  close-IsOrdered s o =
      if_cases (λ ch. IsOrdered (record s { channel = ch })) s.channel.closed _ _ (λ shut. o)
        (λ open'. record {
          rest = o.rest;
          queue =
              ap (λ q. q ++ none ∷ [])
                (o.queue
                  ∙ ap (λ c. map some o.rest ++ mark c s.ended) open'
                  ∙ append-nil (map some o.rest))
              ∙ ap (λ e. map some o.rest ++ mark true e) (sym (going s o open'));
          order = o.order;
          last = λ h. ((o.last h).0, refl);
        })

  -- A read of a channel whose queue is known.
  reading :
      (s : Stream A) (q : List (Option A))
      → s.channel.queue ≡ q
      → apply reads s ≡ after_next s (next_from q s.channel)
  unfolding apply next
  reading s q h = ap (λ r. after_next s (next_from r s.channel)) h

  read_empty :
      (s : Stream A)
      → s.received ++ [] ≡ s.sent
      → (s.ended ≡ true → s.channel.closed ≡ true)
      → IsOrdered s
      → IsOrdered (after_next s (next_from (mark s.channel.closed s.ended) s.channel))
  read_empty s order last o =
      if_cases (λ q. IsOrdered (after_next s (next_from q s.channel)))
        (s.channel.closed && not s.ended) (none ∷ []) []
        (λ marked. record {
          rest = [];
          queue = ground (arith, marked);
          order = order;
          last = λ h. (refl, ground (arith, marked));
        })
        (λ unmarked. o)

  read-IsOrdered : (s : Stream A) → IsOrdered s → IsOrdered (apply reads s)
  read-IsOrdered s o = go o.rest o.queue o.order o.last
    where
      go :
          (rest : List A)
          → s.channel.queue ≡ map some rest ++ mark s.channel.closed s.ended
          → s.received ++ rest ≡ s.sent
          → (s.ended ≡ true → (rest ≡ []) × (s.channel.closed ≡ true))
          → IsOrdered (apply reads s)
      go [] queue order last =
          subst IsOrdered (sym (reading s _ queue)) (read_empty s order (λ h. (last h).1) o)
      go (x ∷ xs) queue order last = subst IsOrdered (sym (reading s _ queue)) (record {
        rest = xs;
        queue = refl;
        order = append_assoc s.received (x ∷ []) xs ∙ order;
        last = λ h. absurd (cc (last h).0);
      })

  apply-IsOrdered : (o : Operation A) (s : Stream A) → IsOrdered s → IsOrdered (apply o s)
  apply-IsOrdered (sends x) s h = send-IsOrdered x s h
  apply-IsOrdered closes s h = close-IsOrdered s h
  apply-IsOrdered reads s h = read-IsOrdered s h

  run_from : (os : List (Operation A)) (s : Stream A) → IsOrdered s → IsOrdered (run os s)
  unfolding run
  run_from [] s h = h
  run_from (o ∷ os) s h = run_from os (apply o s) (apply-IsOrdered o s h)

  -- After any operations on a new stream, the chunks delivered and those still queued are those that were
  -- accepted, in the order of their sending; the end is delivered only once the channel is closed, behind
  -- all of them.
  pub run-IsOrdered : (os : List (Operation A)) → IsOrdered (run os opened)
  run-IsOrdered os =
      run_from os opened
        (record { rest = []; queue = refl; order = refl; last = λ h. absurd (cc h) })
