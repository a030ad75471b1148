-- ===== src/Web/Sse/Chunks.antt =====
-- The senders of progress, pkg/web/sse.go: SendChunk writes every value, SendChunkPro and SendSSE
-- only the latest at each tick. A channel is the list of what is received, ticks between; a value
-- that is zero, which a closed channel gives too, ends it. `accepts n` says whether a write has no
-- error after `n` writes, and `render` is the text of a value, by encoding/json or fmt.
pub mod Latest
use goddd.Common.Text.{same, Bytes}
use goddd.Common.Int.{negsuc, pos, ℤ}
use goddd.Common.{
  ◌++◌, ◌==◌, suc, List, ◌&&◌, length, if◌then◌else◌, [], Option, Bool, ◌∷◌, some, none, false,
  true, ℕ,
}

pub record Chunk : Type 0 where
  pub total : ℤ
  pub current : ℤ
  pub success : ℤ
  pub failure : ℤ
  pub err : Bytes

pub record EventMessage : Type 0 where
  pub id : Bytes
  pub event : Bytes
  pub content : Bytes

-- `v == zero`
unfoldable pub is_nought : ℤ → Bool
is_nought (pos n) = n == 0
is_nought (negsuc n) = false

unfoldable pub is_zero_chunk : Chunk → Bool
unfolding is_nought
is_zero_chunk c =
    is_nought c.total
    && is_nought c.current
    && is_nought c.success
    && is_nought c.failure
    && same c.err []

pub is_zero_message : EventMessage → Bool
is_zero_message m = same m.id [] && same m.event [] && same m.content []

-- `SendChunk`
module _ (render : Chunk → Bytes) (accepts : ℕ → Bool) where
  pub send_chunk : List Chunk → ℕ → List Bytes
  send_chunk [] n = []
  send_chunk (v ∷ vs) n =
      let rest = send_chunk vs (suc n) in
      if is_zero_chunk v then [] else if accepts n then (render v ++ (10 ∷ [])) ∷ rest else []

pub data Input (A : Type 0) : Type 0 where
  tick : Input A
  got : A → Input A

-- What a sender has at the top of its loop: the value not yet written, how many it received, the
-- lines written, whether the headers are set, and whether it returned.
pub record Sender (A : Type 0) : Type 0 where
  pub last : Option A
  pub received : ℕ
  pub lines : List Bytes
  pub headers : Bool
  pub returned : Bool

module _ {A : Type 0} (is_zero : A → Bool) (render : A → Bytes) (accepts : ℕ → Bool) where
  pub write_last : Option A → Bool → Sender A → Sender A
  write_last none ends s = record s { returned = ends }
  write_last (some v) ends s =
      if accepts (length s.lines)
      then record s {
        last = none;
        lines = s.lines ++ ((render v ++ (10 ∷ [])) ∷ []);
        returned = ends;
      }
      else record s { returned = true }

  -- One round of `select`.
  pub round : Input A → Sender A → Sender A
  unfolding write_last
  round tick s = write_last s.last false s
  round (got v) s =
      if is_zero v
      then write_last s.last true (record s { received = suc s.received })
      else record s { last = some v; received = suc s.received }

  -- The loop; `top` is what each round does before its `select`.
  pub rounds : (Sender A → Sender A) → List (Input A) → Sender A → Sender A
  unfolding round
  rounds top [] s = s
  rounds top (x ∷ xs) s = if s.returned then s else rounds top xs (round x (top s))

abbrev pub idle : {A : Type 0} → Sender A
idle = record { last = none; received = 0; lines = []; headers = false; returned = false }

-- Before its `select`, SendChunkPro sets the headers once one value has come.
pub set_headers : {A : Type 0} → Sender A → Sender A
set_headers s = if s.received == 1 then record s { headers = true } else s

pub send_chunk_pro : (Chunk → Bytes) → (ℕ → Bool) → List (Input Chunk) → Sender Chunk
unfolding rounds set_headers
send_chunk_pro render accepts xs = rounds is_zero_chunk render accepts set_headers xs idle

pub send_sse : (EventMessage → Bytes) → List (Input EventMessage) → Sender EventMessage
unfolding rounds
send_sse render xs =
    rounds is_zero_message render (λ n. true) (λ s. s) xs (record idle { headers = true })
