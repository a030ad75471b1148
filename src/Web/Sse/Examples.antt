-- ===== src/Web/Sse/Examples.antt =====
-- One handler, its publishers and its end.
use goddd.Web.Sse.Chunks.Latest.{send_chunk_pro_lem, segments, lasts, line}
use goddd.Web.Sse.Order.{run-new_sse, entered, pending, frames}
use goddd.Common.Int.{pos_part, pos}
use goddd.Common.Text.{same, codes, Bytes}
use goddd.Web.Sse.{
  turns, publishes, leaves, resumes, begins, zero_event, frame, codes, new_sse, Bytes, Action, pos,
  closes, run, Event, Sse,
}
use goddd.Web.Sse.Frame.{read_frame-frame, IsOneLine, read_frame}
use goddd.Web.Sse.Blocked.{run-IsStuck, IsStuck}
use goddd.Web.Sse.Chunks.{is_nought, is_zero_chunk, tick, got, Input, send_chunk_pro, Chunk}
use goddd.Web.Sse.Drain.{drain, good_turn, before_zero, EndsWith}
use goddd.Common.{
  ◌≤◌, length, arith, map, ◌≡◌, ◌++◌, replicate, [], List, ◌∷◌, some, none, false, true, refl, ℕ,
}

ping : Event
ping = record { id = codes "1"; event = codes "ping"; content = codes "a" }

pong : Event
pong = record { id = codes "2"; event = []; content = codes "b" }

acts : List Action
acts = begins ∷ publishes ping ∷ turns false true ∷ publishes pong ∷ closes ∷ []

run-new_sse_example :
    (taken : List Event) × (taken
        ++ ((run acts (new_sse (pos 2))).stream ++ pending (run acts (new_sse (pos 2))).waiting)
      ≡ entered acts (new_sse (pos 2)))
    × ((run acts (new_sse (pos 2))).output ≡ frames taken)
    × (length (run acts (new_sse (pos 2))).stream ≤ (new_sse (pos 2)).capacity)
run-new_sse_example = run-new_sse (pos 2) acts

read_frame-frame_example : read_frame (frame ping) ≡ ping
unfolding IsOneLine ping
read_frame-frame_example =
    read_frame-frame ping (refl, tt) (refl, (refl, (refl, (refl, tt)))) (refl, tt)

closing : Sse
closing = record {
  stream = ping ∷ pong ∷ [];
  capacity = 2;
  closed = true;
  waiting = none;
  serving = true;
  cancelled = false;
  finished = false;
  output = [];
}

drain_example :
    EndsWith (frames (before_zero (ping ∷ pong ∷ []))) (run (replicate 3 good_turn) closing)
unfolding closing
drain_example = drain (ping ∷ pong ∷ []) closing refl refl (refl, refl, refl)

stuck : Sse
stuck = record {
  stream = ping ∷ [];
  capacity = 1;
  closed = false;
  waiting = some pong;
  serving = true;
  cancelled = true;
  finished = true;
  output = [];
}

-- The client leaves a handler of one place, and two more events are published.
run-stuck :
    run (begins ∷ leaves ∷ turns true true ∷ publishes ping ∷ publishes pong ∷ []) (new_sse (pos 1))
    ≡ stuck
unfolding run new_sse stuck
run-stuck = refl

run-IsStuck_example :
    IsStuck pong (run (closes ∷ resumes ∷ []) stuck)
    × ((run (closes ∷ resumes ∷ []) stuck).stream ≡ stuck.stream)
    × ((run (closes ∷ resumes ∷ []) stuck).closed ≡ stuck.closed)
unfolding stuck
run-IsStuck_example = run-IsStuck (closes ∷ resumes ∷ []) pong stuck (refl, refl, ground arith)

-- A line break in a field is not kept apart: the frame reads as another event.
broken : Event
broken = record { id = codes "1"; event = []; content = 97 ∷ 10 ∷ codes "id: 7" }

broken_read : read_frame (frame broken) ≡ record { id = codes "7"; event = []; content = codes "a" }
unfolding broken read_frame frame
broken_read = refl

-- An event without texts ends the handler before those after it.
abbrev early : Sse
early = record closing { stream = zero_event ∷ ping ∷ [] }

early_end : (run (replicate 3 good_turn) early).output ≡ []
unfolding run closing
early_end = refl

chunk : ℕ → Chunk
chunk n = record { total = pos 9; current = pos n; success = pos n; failure = pos 0; err = [] }

shown : Chunk → Bytes
shown c = pos_part c.current ∷ []

ended : Chunk
ended = record { total = pos 0; current = pos 0; success = pos 0; failure = pos 0; err = [] }

chunks : List (Input Chunk)
chunks = got (chunk 1) ∷ got (chunk 2) ∷ tick ∷ tick ∷ got (chunk 3) ∷ []

send_chunk_pro_lem_example :
    ((send_chunk_pro shown (λ n. true) (chunks ++ (got ended ∷ []))).lines
      ≡ map (line shown) (lasts none (segments chunks)))
    × ((send_chunk_pro shown (λ n. true) (chunks ++ (got ended ∷ []))).returned ≡ true)
unfolding chunks chunk ended is_zero_chunk is_nought same
send_chunk_pro_lem_example = send_chunk_pro_lem shown chunks ended (refl, (refl, (refl, tt))) refl
