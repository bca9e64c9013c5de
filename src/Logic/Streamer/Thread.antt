-- ===== src/Logic/Streamer/Thread.antt =====
-- The state of `EventsStreamer` of src/logic/streamer.cpp around its thread, as steps: the calls of its
-- owner, a round of the loop, and a round of a wait for coordinates.
use gh_ost_cpp.Base.{
  if◌then◌else◌, Bool-cases, ℕ, zero, suc, ◌+◌, ◌%◌, ◌≡◌, sym, ap, ◌∙◌, inl, inr, Bool, true, false,
  not, Option, none, some, arith,
}
use gh_ost_cpp.Strings.Number.{u64_mod}
use gh_ost_cpp.Binlog.Coordinates.{BinlogCoordinates, no_coordinates, at_least}
use gh_ost_cpp.Binlog.Reader.{BinlogReader}
use gh_ost_cpp.Binlog.Reader as Reader
use gh_ost_cpp.Queue as Queue
use gh_ost_cpp.Context.{MigrationContext}
use gh_ost_cpp.Logic.Streamer.{EventsStreamer}

pub record StreamerThread : Type 0 where
  pub streamer : EventsStreamer
  pub reader : Option BinlogReader
  pub running : Bool
  pub has_thread : Bool
  pub total_events : ℕ

-- `GetCurrentCoordinates`: `position` is what the replica reports, where it is connected
unfoldable pub get_current_coordinates : Option BinlogCoordinates → BinlogCoordinates
get_current_coordinates none = no_coordinates
get_current_coordinates (some position) = position

-- `Initialize`, with the new reader
unfoldable pub initialize :
    BinlogReader
    → Option BinlogCoordinates
    → MigrationContext
    → StreamerThread
    → Bool × StreamerThread
unfolding get_current_coordinates
initialize reader position ctx s = (
  true,
  record s {
    reader = some (record reader {
      database = ctx.config.database_name;
      table = ctx.config.table_name;
      starting_coordinates = get_current_coordinates position;
    });
  },
)

unfoldable pub start : StreamerThread → Bool × StreamerThread
start s = elim s.reader [
  | none ↦ (false, s)
  | some reader ↦ (true, record s { running = true; has_thread = true })
]

-- `Stop` behind the join of the thread
unfoldable pub stop : StreamerThread → StreamerThread
stop s = record s {
  running = false;
  has_thread = false;
  reader = elim s.reader [ none ↦ none | some reader ↦ some (Reader.stop reader) ];
  streamer = record s.streamer { event_queue = Queue.stop s.streamer.event_queue };
}

-- A round of `StreamLoop`, or none where it ends. It takes no event from the reader.
unfoldable pub stream_turn : StreamerThread → Option StreamerThread
stream_turn s =
    if s.running then some (record s { total_events = (s.total_events + 1) % u64_mod }) else none

-- A round of `WaitForCoordinates`: what it returns, or none where it goes on.
unfoldable pub wait_turn :
    Option BinlogCoordinates → BinlogCoordinates → StreamerThread → Option Bool
unfolding get_current_coordinates
wait_turn position coords s =
    if not s.running
    then some false
    else if at_least (get_current_coordinates position) coords
    then some true
    else none

abbrev rounds : ℕ → StreamerThread → Option StreamerThread
rounds zero s = some s
rounds (suc n) s = elim (stream_turn s) [ none ↦ none | some next ↦ rounds n next ]

rounds-running :
    (n : ℕ) (s : StreamerThread)
    → s.running ≡ true
    → rounds (suc n) s ≡ rounds n (record s { total_events = (s.total_events + 1) % u64_mod })
unfolding stream_turn
rounds-running n s r = ground arith

-- However long the loop runs, the queue of the applier and the reader stay as they were.
pub stream_turn-queue :
    (n : ℕ) (s next : StreamerThread)
    → rounds n s ≡ some next
    → (next.streamer ≡ s.streamer) × (next.reader ≡ s.reader)
unfolding stream_turn
stream_turn-queue zero s next e = (
  sym (ap {B = EventsStreamer} (λ o. elim o [ none ↦ s.streamer | some t ↦ t.streamer ]) e),
  sym (ap {B = Option BinlogReader} (λ o. elim o [ none ↦ s.reader | some t ↦ t.reader ]) e),
)
stream_turn-queue (suc n) s next e = elim (Bool-cases s.running) [
  | inl r ↦
      stream_turn-queue n (record s { total_events = (s.total_events + 1) % u64_mod }) next
        (sym (rounds-running n s r) ∙ e)
  | inr r ↦ absurd (ground arith)
]
