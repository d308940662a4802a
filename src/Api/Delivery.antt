-- ===== src/Api/Delivery.antt =====
-- internal/api/runner.go: what a reader of a run's progress is given.
use veritix.Base.{
  ℕ, ◌+◌, refl, sym, subst, arith, Bool, true, false, List, [], ◌∷◌, ◌++◌, length, map, All,
}
use veritix.Api.Stream.{
  Event, Channel, ActiveRun, new_active_run, subscribe, shut, unsubscribe, offer, publish,
  end_channel, close, receive_one, receive,
}
use veritix.Api.Channels.{
  Subseq, subseq_self, append_nil, counts_snoc, Served, Delivers, offer-Served, shut-Served,
  close-Served, receive-Served,
}

map_each :
    (P Q : Channel → Type 0) (f : Channel → Channel)
    → ((ch : Channel) → P ch → Q (f ch))
    → (cs : List Channel) → All P cs
    → All Q (map f cs)
map_each P Q f g [] a = tt
map_each P Q f g (c ∷ cs) a = (g c a.0, map_each P Q f g cs a.1)

-- The streams that the operations can reach, in any order.
pub data Reached : ActiveRun → Type 0 where
  starts : Reached new_active_run
  subscribes : {a : ActiveRun} → Reached a → Reached (subscribe a).2
  unsubscribes : {a : ActiveRun} (k : ℕ) → Reached a → Reached (unsubscribe k a)
  publishes : {a : ActiveRun} (ev : Event) → Reached a → Reached (publish ev a)
  receives : {a : ActiveRun} (k : ℕ) → Reached a → Reached (receive k a)
  closes : {a : ActiveRun} → Reached a → Reached (close a)

-- By whether the stream was closed.
subscribed :
    (h : List Event) (cs : List Channel) (closed : Bool) (n : ℕ)
    → (let a : ActiveRun = record { history = h; channels = cs; closed = closed; next_key = n } in
        Delivers a → Delivers (subscribe a).2)
unfolding subscribe
subscribed h cs true n d = d
subscribed h cs false n d = record {
  counted = d.counted;
  served = (
    record {
      in_order = subst (λ g. Subseq g h) (sym (append_nil h)) (subseq_self h);
      bounded = ground arith;
      ends = refl;
      everything = append_nil h;
    },
    d.served,
  );
}

published :
    (ev : Event) (h : List Event) (cs : List Channel) (closed : Bool) (n : ℕ)
    → (let a : ActiveRun = record { history = h; channels = cs; closed = closed; next_key = n } in
        Delivers a → Delivers (publish ev a))
unfolding publish
published ev h cs true n d = d
published ev h cs false n d =
    let e : Event = record ev { seq = length h + 1 } in
    record {
      counted = counts_snoc 1 h e d.counted (ground arith);
      served =
          map_each (Served false h) (Served false (h ++ e ∷ [])) (offer e) (offer-Served e h) cs
            d.served;
    }

closed_up :
    (h : List Event) (cs : List Channel) (closed : Bool) (n : ℕ)
    → (let a : ActiveRun = record { history = h; channels = cs; closed = closed; next_key = n } in
        Delivers a → Delivers (close a))
unfolding close
closed_up h cs true n d = d
closed_up h cs false n d = record {
  counted = d.counted;
  served = map_each (Served false h) (Served true h) end_channel (close-Served h) cs d.served;
}

-- However the operations are ordered: the events of the history are numbered from 1; what a reader
-- was given and what waits for it are events of the history in its order, all of them for a reader
-- whose channel is open and never missed one; no buffer holds more than its capacity; and once the
-- stream is closed no channel is open.
pub reached-Delivers : (a : ActiveRun) → Reached a → Delivers a
unfolding new_active_run unsubscribe receive
reached-Delivers a starts = record { counted = tt; served = tt }
reached-Delivers b (subscribes {a} h) =
    subscribed a.history a.channels a.closed a.next_key (reached-Delivers a h)
reached-Delivers b (unsubscribes {a} k h) =
    let d = reached-Delivers a h in
    record {
      counted = d.counted;
      served =
          map_each (Served a.closed a.history) (Served a.closed a.history) (shut k)
            (shut-Served a.closed a.history k) a.channels d.served;
    }
reached-Delivers b (publishes {a} ev h) =
    published ev a.history a.channels a.closed a.next_key (reached-Delivers a h)
reached-Delivers b (receives {a} k h) =
    let d = reached-Delivers a h in
    record {
      counted = d.counted;
      served =
          map_each (Served a.closed a.history) (Served a.closed a.history) (receive_one k)
            (receive-Served a.closed a.history k) a.channels d.served;
    }
reached-Delivers b (closes {a} h) =
    closed_up a.history a.channels a.closed a.next_key (reached-Delivers a h)
