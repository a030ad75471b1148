-- ===== src/Web/Sse/Frame.antt =====
-- A frame is read back as its event.
use goddd.Web.Sse.{frame, field_line, zero_event, Event, newline}
use goddd.Common.Text.{cons_head, codes, has_prefix, Bytes, split}
use goddd.Common.{
  ◌∙◌, append_assoc, drop, ap, if◌then◌else◌, ◌++◌, ◌≡◌, [], ◌==◌, List, ◌∷◌, false, refl,
}

-- A reader of a stream of events: it takes a line whose field it knows, and leaves out the others.
pub read_line : Bytes → Event → Event
unfolding has_prefix
read_line line e =
    if has_prefix line (codes "id: ")
    then record e { id = drop 4 line }
    else if has_prefix line (codes "event: ")
    then record e { event = drop 7 line }
    else if has_prefix line (codes "data: ")
    then record e { content = drop 6 line }
    else e

pub read_lines : List Bytes → Event → Event
unfolding read_line
read_lines [] e = e
read_lines (l ∷ ls) e = read_lines ls (read_line l e)

unfoldable pub read_frame : Bytes → Event
unfolding read_lines split
read_frame s = read_lines (split newline s) zero_event

unfoldable pub IsOneLine : Bytes → Type 0
IsOneLine [] = Unit
IsOneLine (c ∷ s) = ((c == newline) ≡ false) × IsOneLine s

split-append :
    (xs ys : Bytes) → IsOneLine xs → split newline (xs ++ (newline ∷ ys)) ≡ xs ∷ split newline ys
unfolding IsOneLine split
split-append [] ys h = refl
split-append (x ∷ xs) ys h = rw h.0 (ap (cons_head x) (split-append xs ys h.1))

-- The fields, one after the other.
abbrev with_fields : Bytes → Bytes → Bytes → Event
with_fields i e c = record { id = i; event = e; content = c }

read_id :
    (s rest : Bytes)
    → IsOneLine s
    → read_lines (split newline (field_line (codes "id: ") s ++ rest)) zero_event
      ≡ read_lines (split newline rest) (with_fields s [] [])
unfolding field_line read_lines read_line has_prefix IsOneLine
read_id [] rest h = refl
read_id (c ∷ s) rest h =
    rw (append_assoc (c ∷ s) (newline ∷ []) rest)
      (rw (split-append (codes "id: " ++ (c ∷ s)) rest (refl, (refl, (refl, (refl, h))))) refl)

read_event :
    (i s rest : Bytes)
    → IsOneLine s
    → read_lines (split newline (field_line (codes "event: ") s ++ rest)) (with_fields i [] [])
      ≡ read_lines (split newline rest) (with_fields i s [])
unfolding field_line read_lines read_line has_prefix IsOneLine
read_event i [] rest h = refl
read_event i (c ∷ s) rest h = rw (append_assoc (c ∷ s) (newline ∷ []) rest) (
    rw
      (split-append (codes "event: " ++ (c ∷ s)) rest
        (refl, (refl, (refl, (refl, (refl, (refl, (refl, h))))))))
      refl)

read_content :
    (i e s rest : Bytes)
    → IsOneLine s
    → read_lines (split newline (field_line (codes "data: ") s ++ rest)) (with_fields i e [])
      ≡ read_lines (split newline rest) (with_fields i e s)
unfolding field_line read_lines read_line has_prefix IsOneLine
read_content i e [] rest h = refl
read_content i e (c ∷ s) rest h = rw (append_assoc (c ∷ s) (newline ∷ []) rest) (
    rw
      (split-append (codes "data: " ++ (c ∷ s)) rest
        (refl, (refl, (refl, (refl, (refl, (refl, h)))))))
      refl)

-- The frame of an event whose fields have no line break is read back as that event, by a reader that
-- splits the stream at line breaks and takes the fields by their names: also when fields are empty,
-- which the frame then leaves out.
pub read_frame-frame :
    (e : Event)
    → IsOneLine e.id
    → IsOneLine e.event
    → IsOneLine e.content
    → read_frame (frame e) ≡ e
unfolding read_frame frame read_lines read_line has_prefix
read_frame-frame e hi he hc =
    let last = field_line (codes "data: ") e.content ++ (newline ∷ []) in
    read_id e.id (field_line (codes "event: ") e.event ++ last) hi
    ∙ read_event e.id e.event last he
    ∙ read_content e.id e.event e.content (newline ∷ []) hc
