-- ===== src/Api/Stream.antt =====
-- internal/api/runner.go: `activeRun`, the fan-out of a run's progress. Each operation holds the lock,
-- so that the operations happen one after the other. A channel is open exactly while it is among the
-- subscribers, and is read until its buffer is empty also after it was closed. Of an event the number
-- and the rest are kept.
use veritix.Base.{
  ℕ, suc, ◌+◌, Bool, true, false, Option, none, some, List, [], ◌∷◌, ◌++◌, Str, if◌then◌else◌, ◌==◌,
  ltb, length, map,
}

pub record Event : Type 0 where
  pub seq : ℕ
  pub rest : Str

-- A channel, with what its reader was given: the backlog and what it took from the channel. `missed`
-- says whether an event did not fit into the buffer.
pub record Channel : Type 0 where
  pub key : ℕ
  pub buffer : List Event
  pub is_open : Bool
  pub seen : List Event
  pub missed : Bool

pub record ActiveRun : Type 0 where
  pub history : List Event
  pub channels : List Channel
  pub closed : Bool
  pub next_key : ℕ

unfoldable pub new_active_run : ActiveRun
new_active_run = record { history = []; channels = []; closed = false; next_key = 0 }

abbrev pub capacity : ℕ
capacity = 64

-- The backlog, and the key of the new channel, where the stream is not closed.
unfoldable pub subscribe : ActiveRun → List Event × Option ℕ × ActiveRun
subscribe a =
    if a.closed
    then (a.history, none, a)
    else let ch : Channel = record {
      key = a.next_key;
      buffer = [];
      is_open = true;
      seen = a.history;
      missed = false;
    } in
      (
        a.history,
        some a.next_key,
        record a { channels = ch ∷ a.channels; next_key = suc a.next_key },
      )

unfoldable pub shut : ℕ → Channel → Channel
shut k ch = if ch.key == k then record ch { is_open = false } else ch

unfoldable pub unsubscribe : ℕ → ActiveRun → ActiveRun
unfolding shut
unsubscribe k a = record a { channels = map (shut k) a.channels }

-- The `select` with a default.
unfoldable pub offer : Event → Channel → Channel
offer ev ch =
    if ch.is_open
    then if ltb (length ch.buffer) capacity
      then record ch { buffer = ch.buffer ++ ev ∷ [] }
      else record ch { missed = true }
    else ch

unfoldable pub publish : Event → ActiveRun → ActiveRun
unfolding offer
publish ev a =
    if a.closed
    then a
    else let numbered : Event = record ev { seq = length a.history + 1 } in
      record a { history = a.history ++ numbered ∷ []; channels = map (offer numbered) a.channels }

abbrev pub end_channel : Channel → Channel
end_channel ch = record ch { is_open = false }

unfoldable pub close : ActiveRun → ActiveRun
close a = if a.closed then a else record a { closed = true; channels = map end_channel a.channels }

-- A reader takes the next event of its channel (`case ev, open := <-updates`).
abbrev pub take_next : List Event → Channel → Channel
take_next [] ch = ch
take_next (ev ∷ evs) ch = record ch { buffer = evs; seen = ch.seen ++ ev ∷ [] }

unfoldable pub receive_one : ℕ → Channel → Channel
receive_one k ch = if ch.key == k then take_next ch.buffer ch else ch

unfoldable pub receive : ℕ → ActiveRun → ActiveRun
unfolding receive_one
receive k a = record a { channels = map (receive_one k) a.channels }
