-- ===== src/Api/Channels.antt =====
-- internal/api/runner.go: what one channel has of the history of a stream.
use veritix.Base.{
  ℕ, suc, ◌+◌, ◌≡◌, ◌≤◌, refl, ap, sym, ◌∙◌, subst, arith, Bool, true, false, ◌&&◌, List, [], ◌∷◌,
  ◌++◌, if◌then◌else◌, ltb, length, length-append, All,
}
use veritix.Api.Stream.{
  Event, Channel, ActiveRun, capacity, shut, offer, end_channel, take_next, receive_one,
}

-- Some of the events of a list, in its order.
pub data Subseq : List Event → List Event → Type 0 where
  stop : Subseq [] []
  skip : {e : Event} {xs ys : List Event} → Subseq xs ys → Subseq xs (e ∷ ys)
  take : {e : Event} {xs ys : List Event} → Subseq xs ys → Subseq (e ∷ xs) (e ∷ ys)

pub subseq_self : (xs : List Event) → Subseq xs xs
subseq_self [] = Subseq.stop
subseq_self (x ∷ xs) = Subseq.take (subseq_self xs)

subseq_more : {xs ys : List Event} (e : Event) → Subseq xs ys → Subseq xs (ys ++ e ∷ [])
subseq_more e Subseq.stop = Subseq.skip Subseq.stop
subseq_more e (Subseq.skip h) = Subseq.skip (subseq_more e h)
subseq_more e (Subseq.take h) = Subseq.take (subseq_more e h)

subseq_both : {xs ys : List Event} (e : Event) → Subseq xs ys → Subseq (xs ++ e ∷ []) (ys ++ e ∷ [])
subseq_both e Subseq.stop = Subseq.take Subseq.stop
subseq_both e (Subseq.skip h) = Subseq.skip (subseq_both e h)
subseq_both e (Subseq.take h) = Subseq.take (subseq_both e h)

append_assoc : (xs ys zs : List Event) → (xs ++ ys) ++ zs ≡ xs ++ (ys ++ zs)
append_assoc [] ys zs = refl
append_assoc (x ∷ xs) ys zs = ap (λ s. x ∷ s) (append_assoc xs ys zs)

pub append_nil : (xs : List Event) → xs ++ [] ≡ xs
append_nil [] = refl
append_nil (x ∷ xs) = ap (λ s. x ∷ s) (append_nil xs)

-- The numbers of events count up from a first one.
abbrev pub CountsUp : ℕ → List Event → Type 0
CountsUp n [] = Unit
CountsUp n (e ∷ es) = (e.seq ≡ n) × CountsUp (suc n) es

pub counts_snoc :
    (n : ℕ) (es : List Event) (e : Event)
    → CountsUp n es
    → e.seq ≡ n + length es
    → CountsUp n (es ++ e ∷ [])
counts_snoc n [] e h k = (ground (arith, k), tt)
counts_snoc n (x ∷ es) e h k = (h.0, counts_snoc (suc n) es e h.1 (ground (arith, k)))

abbrev pub given : Channel → List Event
given ch = ch.seen ++ ch.buffer

-- Of an open channel that missed nothing: everything is seen or waits in the buffer.
abbrev pub Everything : Bool → Bool → List Event → List Event → Type 0
Everything true false got history = got ≡ history
Everything _ _ got history = Unit

pub record Served (closed : Bool) (history : List Event) (ch : Channel) : Type 0 where
  pub in_order : Subseq (given ch) history
  pub bounded : length ch.buffer ≤ capacity
  pub ends : (ch.is_open && closed) ≡ false
  pub everything : Everything ch.is_open ch.missed (given ch) history

pub record Delivers (a : ActiveRun) : Type 0 where
  pub counted : CountsUp 1 a.history
  pub served : All (Served a.closed a.history) a.channels

offered :
    (e : Event) (h : List Event) (k : ℕ) (b s : List Event) (o m fits : Bool)
    → fits ≡ ltb (length b) capacity
    → Served false h (record { key = k; buffer = b; is_open = o; seen = s; missed = m })
    → (let ch : Channel = record { key = k; buffer = b; is_open = o; seen = s; missed = m } in
        Served false (h ++ e ∷ []) (
          if o
          then if fits then record ch { buffer = b ++ e ∷ [] } else record ch { missed = true }
          else ch))
offered e h k b s true true true p c = record {
  in_order =
      subst (λ g. Subseq g (h ++ e ∷ [])) (append_assoc s b (e ∷ [])) (subseq_both e c.in_order);
  bounded = ground (arith, p, length-append b (e ∷ []));
  ends = refl;
  everything = tt;
}
offered e h k b s true false true p c = record {
  in_order =
      subst (λ g. Subseq g (h ++ e ∷ [])) (append_assoc s b (e ∷ [])) (subseq_both e c.in_order);
  bounded = ground (arith, p, length-append b (e ∷ []));
  ends = refl;
  everything = sym (append_assoc s b (e ∷ [])) ∙ ap (λ g. g ++ e ∷ []) c.everything;
}
offered e h k b s true m false p c = record {
  in_order = subseq_more e c.in_order;
  bounded = c.bounded;
  ends = refl;
  everything = tt;
}
offered e h k b s false m fits p c = record {
  in_order = subseq_more e c.in_order;
  bounded = c.bounded;
  ends = refl;
  everything = tt;
}

pub offer-Served :
    (e : Event) (h : List Event) (ch : Channel)
    → Served false h ch
    → Served false (h ++ e ∷ []) (offer e ch)
unfolding offer
offer-Served e h ch c =
    offered e h ch.key ch.buffer ch.seen ch.is_open ch.missed (ltb (length ch.buffer) capacity) refl
      c

shut_one :
    (closed : Bool) (h : List Event) (ch : Channel)
    → Served closed h ch
    → Served closed h (end_channel ch)
shut_one closed h ch c = record {
  in_order = c.in_order;
  bounded = c.bounded;
  ends = refl;
  everything = tt;
}

pub shut-Served :
    (closed : Bool) (h : List Event) (k : ℕ) (ch : Channel)
    → Served closed h ch
    → Served closed h (shut k ch)
unfolding shut
shut-Served closed h k ch c = ground (arith, c, shut_one closed h ch c)

pub close-Served :
    (h : List Event) (ch : Channel) → Served false h ch → Served true h (end_channel ch)
close-Served h ch c = record {
  in_order = c.in_order;
  bounded = c.bounded;
  ends = refl;
  everything = tt;
}

taken_next :
    (closed : Bool) (h : List Event) (k : ℕ) (b s : List Event) (o m : Bool)
    → (let ch : Channel = record { key = k; buffer = b; is_open = o; seen = s; missed = m } in
        Served closed h ch → Served closed h (take_next b ch))
taken_next closed h k [] s o m c = c
taken_next closed h k (e ∷ b) s o m c = record {
  in_order = subst (λ g. Subseq g h) (sym (append_assoc s (e ∷ []) b)) c.in_order;
  bounded = ground (arith, c.bounded);
  ends = c.ends;
  everything = subst (λ g. Everything o m g h) (sym (append_assoc s (e ∷ []) b)) c.everything;
}

pub receive-Served :
    (closed : Bool) (h : List Event) (k : ℕ) (ch : Channel)
    → Served closed h ch
    → Served closed h (receive_one k ch)
unfolding receive_one
receive-Served closed h k ch c =
    ground (arith, c, taken_next closed h ch.key ch.buffer ch.seen ch.is_open ch.missed c)
