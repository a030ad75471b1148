-- ===== src/Web/Sse.antt =====
-- pkg/web/sse.go: events that some goroutines publish and one handler writes to its client.
-- The goroutines meet at the channel, at the mutex, which a publisher that waits for room keeps, and
-- at the context. A run is a list of their actions; one that cannot go on yet changes nothing.
pub mod Frame
pub mod Order
pub mod Drain
pub mod Blocked
pub mod Chunks
mod Examples
use goddd.Common.Text.{codes, Bytes}
use goddd.Common.Int.{pos_part, pos, leb_ℤ, ℤ}
use goddd.Common.{
  ◌||◌, length, ltb, ◌++◌, not, ◌&&◌, if◌then◌else◌, Option, Bool, [], List, ◌∷◌, some, none, false,
  true, ℕ,
}

pub record Event : Type 0 where
  pub id : Bytes
  pub event : Bytes
  pub content : Bytes

-- `waiting` is the event of the publisher that holds the mutex and waits for room. `serving` says
-- that the handler runs, so that `cancel` is set, and `finished` that it has returned; `output` is
-- what it wrote.
pub record Sse : Type 0 where
  pub stream : List Event
  pub capacity : ℕ
  pub closed : Bool
  pub waiting : Option Event
  pub serving : Bool
  pub cancelled : Bool
  pub finished : Bool
  pub output : Bytes

pub new_sse : ℤ → Sse
new_sse size = record {
  stream = [];
  capacity = if leb_ℤ size (pos 0) then 1024 else pos_part size;
  closed = false;
  waiting = none;
  serving = false;
  cancelled = false;
  finished = false;
  output = [];
}

pub is_none : Option Event → Bool
is_none none = true
is_none (some v) = false

-- `s.stream <- v`, under the mutex.
pub send : Event → Sse → Sse
send v s =
    if ltb (length s.stream) s.capacity
    then record s { stream = s.stream ++ (v ∷ []); waiting = none }
    else record s { waiting = some v }

-- `Publish`; while another one holds the mutex it does not begin.
pub publish : Event → Sse → Sse
unfolding send is_none
publish v s = if not (is_none s.waiting) || s.closed then s else send v s

-- The publisher that waits tries again.
pub resume_with : Option Event → Sse → Sse
unfolding send
resume_with none s = s
resume_with (some v) s = send v s

pub resume : Sse → Sse
unfolding resume_with
resume s = resume_with s.waiting s

pub stop : Sse → Sse
stop s = if s.serving then record s { cancelled = true } else s

pub close : Sse → Sse
unfolding is_none
close s = if not (is_none s.waiting) || s.closed then s else record s { closed = true }

-- `ServeHTTP` up to its loop, with the header lines that it sets.
pub begin_headers : List (Bytes × Bytes) → List (Bytes × Bytes)
begin_headers headers =
    (codes "Content-Type", codes "text/event-stream")
    ∷ (codes "Cache-Control", codes "no-cache")
    ∷ (codes "Connection", codes "keep-alive")
    ∷ headers

pub begin : Sse → Sse
begin s = record s { serving = true }

pub is_empty : Bytes → Bool
is_empty [] = true
is_empty (c ∷ s) = false

pub is_zero : Event → Bool
unfolding is_empty
is_zero e = is_empty e.id && (is_empty e.event && is_empty e.content)

abbrev pub newline : ℕ
newline = 10

-- One line of a frame, where the field has a text.
pub field_line : Bytes → Bytes → Bytes
field_line name [] = []
field_line name (c ∷ s) = name ++ ((c ∷ s) ++ (newline ∷ []))

pub frame : Event → Bytes
unfolding field_line
frame e =
    field_line (codes "id: ") e.id
    ++ (field_line (codes "event: ") e.event
        ++ (field_line (codes "data: ") e.content ++ (newline ∷ [])))

-- What the loop does with an event that it received; `flushed` says that the flush had no error.
pub handle : Event → Bool → Sse → Sse
unfolding is_zero frame
handle e flushed s =
    if is_zero e
    then record s { finished = true }
    else record s { output = s.output ++ frame e; finished = not flushed }

abbrev pub zero_event : Event
zero_event = record { id = []; event = []; content = [] }

-- A receive: the oldest event, the zero value of a channel that is closed and empty, or a wait.
pub receive : List Event → Bool → Sse → Sse
unfolding handle
receive (e ∷ es) flushed s = handle e flushed (record s { stream = es })
receive [] flushed s = if s.closed then handle zero_event flushed s else s

-- A turn of `select`: of two that are ready either may be taken, which `done_first` says.
pub turn : Bool → Bool → Sse → Sse
unfolding receive
turn done_first flushed s =
    if not s.serving || s.finished
    then s
    else (if s.cancelled && done_first
        then record s { finished = true }
        else receive s.stream flushed s)

pub data Action : Type 0 where
  publishes : Event → Action
  resumes : Action
  closes : Action
  stops : Action
  -- The client goes away: the request's context is done.
  leaves : Action
  begins : Action
  turns : Bool → Bool → Action

pub act : Action → Sse → Sse
unfolding publish resume stop close begin turn
act (publishes v) s = publish v s
act resumes s = resume s
act closes s = close s
act stops s = stop s
act leaves s = record s { cancelled = true }
act begins s = begin s
act (turns done_first flushed) s = turn done_first flushed s

pub run : List Action → Sse → Sse
unfolding act
run [] s = s
run (a ∷ acts) s = run acts (act a s)
