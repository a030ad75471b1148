-- ===== src/Web/Logging.antt =====
-- pkg/web/log.go: the writer that keeps the first bytes of an answer for the log, and the options that
-- leave requests out. Of a request they see the method and the path.
pub mod Handlers
pub mod Written
mod Examples
use goddd.Common.Text.{same, has_prefix, contains, Bytes}
use goddd.Common.Int.{◌-ℤ◌, negsuc, leb_ℤ, pos, ℤ}
use goddd.Common.{length, ◌++◌, take, ◌||◌, if◌then◌else◌, [], Bool, List, ◌∷◌, false, true, ℕ}

abbrev pub default_body_limit : ℕ
default_body_limit = 100

-- `sent` is what the writer behind it was given.
pub record BufferWriter : Type 0 where
  pub body : Bytes
  pub limit : ℤ
  pub sent : Bytes

pub new_buffer_writer : ℤ → BufferWriter
new_buffer_writer limit = record { body = []; limit = limit; sent = [] }

-- What is kept of a write, by what remains of the limit.
pub kept : ℤ → Bytes → Bytes
kept (pos n) s = take n s
kept (negsuc n) s = []

-- `BufferWriter.Write`
pub write : Bytes → BufferWriter → BufferWriter
unfolding kept
write s w =
    if leb_ℤ w.limit (pos 0)
    then record w { body = w.body ++ s; sent = w.sent ++ s }
    else record w { body = w.body ++ kept (w.limit -ℤ pos (length w.body)) s; sent = w.sent ++ s }

pub write_all : List Bytes → BufferWriter → BufferWriter
unfolding write
write_all [] w = w
write_all (s ∷ ss) w = write_all ss (write s w)

pub record Request : Type 0 where
  pub method : Bytes
  pub path : Bytes

pub ignore_bool : Bool → Request → Bool
ignore_bool v r = v

pub ignore_method : Bytes → Request → Bool
ignore_method method r = same r.method method

pub ignore_prefix : List Bytes → Request → Bool
ignore_prefix [] r = false
ignore_prefix (p ∷ ps) r = if has_prefix r.path p then true else ignore_prefix ps r

pub ignore_path : List Bytes → Request → Bool
ignore_path paths r = contains paths r.path

-- `strings.Contains`
pub has_part : Bytes → Bytes → Bool
has_part [] p = has_prefix [] p
has_part (c ∷ s) p = has_prefix (c ∷ s) p || has_part s p

pub igore_contains : List Bytes → Request → Bool
unfolding has_part
igore_contains [] r = false
igore_contains (p ∷ ps) r = if has_part r.path p then true else igore_contains ps r
