-- ===== src/Api/Tests.antt =====
-- A run with one reader: runs of the operations, and the theorem at them.
use veritix.Base.{◌≡◌, refl, length, codes}
use veritix.Api.Stream.{Event, ActiveRun, new_active_run, subscribe, publish, receive, close}
use veritix.Api.Channels.{Delivers}
use veritix.Api.Delivery.{
  Reached, starts, subscribes, publishes, receives, closes, reached-Delivers,
}

abbrev line : Event
line = record { seq = 0; rest = codes "stage starting" }

-- One event before the reader comes, one after; the stream ends before the reader takes it.
abbrev watched : ActiveRun
watched = receive 0 (close (publish line (subscribe (publish line new_active_run)).2))

two_events : length watched.history ≡ 2
unfolding publish subscribe new_active_run close receive
two_events = refl

reached_watched : Reached watched
reached_watched = receives 0 (closes (publishes line (subscribes (publishes line starts))))

reached-Delivers_example : Delivers watched
reached-Delivers_example = reached-Delivers watched reached_watched
