-- ===== src/Web/Sse/Order.antt =====
-- The order of events: what is published is received in that order, and none is lost before the
-- handler takes it.
use goddd.Common.Int.{ℤ}
use mathlib.Core.Path.{subst}
use goddd.Common.Text.{Bytes}
use goddd.Web.Sse.{
  begins, leaves, stops, closes, resumes, turns, close, ℤ, turn, stop, new_sse, is_empty, publish,
  act, Bytes, publishes, is_zero, resume_with, Event, handle, Action, frame, run, Sse, resume,
  is_none, receive, send,
}
use goddd.Common.{
  ◌&&◌, ◌⊎◌, false, arith, length-append, ltb→lt, ltb, Option-cases, Bool-cases, inr, inl, ◌||◌, ap,
  append-nil, ◌∙◌, not, if◌then◌else◌, sym, append_assoc, ◌++◌, ◌≤◌, Bool, [], ◌≡◌, length, List,
  Option, ◌∷◌, some, none, refl,
}

abbrev pub pending : Option Event → List Event
pending none = []
pending (some v) = v ∷ []

-- The events that a run takes in: those whose `Publish` began.
pub enters : Action → Sse → List Event
unfolding is_none
enters (publishes v) s = if not (is_none s.waiting) || s.closed then [] else v ∷ []
enters _ s = []

pub entered : List Action → Sse → List Event
unfolding enters run
entered [] s = []
entered (a ∷ acts) s = enters a s ++ entered acts (act a s)

-- What the handler writes for the events that it received: nothing for the one that ends it.
unfoldable pub frames : List Event → Bytes
unfolding frame is_zero
frames [] = []
frames (e ∷ es) = (if is_zero e then [] else frame e) ++ frames es

frames-append : (xs ys : List Event) → frames (xs ++ ys) ≡ frames xs ++ frames ys
unfolding frames
frames-append [] ys = refl
frames-append (x ∷ xs) ys =
    rw (frames-append xs ys)
      (sym (append_assoc (if is_zero x then [] else frame x) (frames xs) (frames ys)))

-- From `s` to `t`, with `new` published in between and `taken` received.
abbrev pub Moves : Sse → List Event → List Event → Sse → Type 0
Moves s new taken t =
    (taken ++ (t.stream ++ pending t.waiting) ≡ (s.stream ++ pending s.waiting) ++ new)
    × (t.output ≡ s.output ++ frames taken)
    × (length t.stream ≤ t.capacity)
    × (t.capacity ≡ s.capacity)

Moves-refl : (s : Sse) → length s.stream ≤ s.capacity → Moves s [] [] s
unfolding frames
Moves-refl s h =
    (sym (append-nil (s.stream ++ pending s.waiting)), sym (append-nil s.output), h, refl)

Moves-trans :
    (s t u : Sse) (new more taken later : List Event)
    → Moves s new taken t
    → Moves t more later u
    → Moves s (new ++ more) (taken ++ later) u
Moves-trans s t u new more taken later a b = (
  append_assoc taken later (u.stream ++ pending u.waiting)
      ∙ ap (λ x. taken ++ x) b.0
      ∙ sym (append_assoc taken (t.stream ++ pending t.waiting) more)
      ∙ ap (λ x. x ++ more) a.0
      ∙ append_assoc (s.stream ++ pending s.waiting) new more,
  b.1
      ∙ ap (λ x. x ++ frames later) a.1
      ∙ append_assoc s.output (frames taken) (frames later)
      ∙ ap (λ x. s.output ++ x) (sym (frames-append taken later)),
  b.2,
  b.3 ∙ a.3,
)

-- An event that comes in, at the end of the channel or with the publisher that waits.
send_moves :
    (v : Event) (s : Sse)
    → length s.stream ≤ s.capacity
    → ((send v s).stream ++ pending (send v s).waiting ≡ s.stream ++ (v ∷ []))
      × ((send v s).output ≡ s.output)
      × (length (send v s).stream ≤ (send v s).capacity)
      × ((send v s).capacity ≡ s.capacity)
unfolding send
send_moves v s h = elim (Bool-cases (ltb (length s.stream) s.capacity)) [
  | inl b ↦
      (let room = ltb→lt (length s.stream) s.capacity b in
        rw b (
          append-nil (s.stream ++ (v ∷ [])),
          refl,
          rw (length-append s.stream (v ∷ [])) (ground arith),
          refl,
        ))
  | inr b ↦ rw b (refl, refl, h, refl)
]

waits_not : (s : Sse) → (not (is_none s.waiting) || s.closed) ≡ false → s.waiting ≡ none
unfolding is_none
waits_not s b = elim (Option-cases s.waiting) [ inl w ↦ w | inr (v, w) ↦ ground (arith, w, b) ]

publish-Moves :
    (v : Event) (s : Sse)
    → length s.stream ≤ s.capacity
    → Moves s (enters (publishes v) s) [] (publish v s)
unfolding publish frames enters
publish-Moves v s h =
    let m = send_moves v s h in
    elim (Bool-cases (not (is_none s.waiting) || s.closed)) [
      | inl b ↦ rw b (Moves-refl s h)
      | inr b ↦
          (let none_waits = ap (λ o. s.stream ++ pending o) (waits_not s b) ∙ append-nil s.stream in
            rw b (
              m.0 ∙ ap (λ x. x ++ (v ∷ [])) (sym none_waits),
              m.1 ∙ sym (append-nil s.output),
              m.2,
              m.3,
            ))
    ]

resume-Moves : (s : Sse) → length s.stream ≤ s.capacity → Moves s [] [] (resume s)
unfolding resume resume_with frames
resume-Moves s h = elim (Option-cases s.waiting) [
  | inl w ↦ subst (λ t. Moves s [] [] t) (sym (ap (λ o. resume_with o s) w)) (Moves-refl s h)
  | inr (v, w) ↦
      (let m = send_moves v s h in
        subst (λ t. Moves s [] [] t) (sym (ap (λ o. resume_with o s) w))
          (
            m.0
                ∙ ap (λ o. s.stream ++ pending o) (sym w)
                ∙ sym (append-nil (s.stream ++ pending s.waiting)),
            m.1 ∙ sym (append-nil s.output),
            m.2,
            m.3,
          ))
]

handle-Moves :
    (e : Event) (es : List Event) (flushed : Bool) (s : Sse)
    → s.stream ≡ e ∷ es
    → length s.stream ≤ s.capacity
    → Moves s [] (e ∷ []) (handle e flushed (record s { stream = es }))
unfolding handle frames
handle-Moves e es flushed s w h =
    let order =
      ap (λ xs. xs ++ pending s.waiting) (sym w)
      ∙ sym (append-nil (s.stream ++ pending s.waiting)) in
    let fewer = subst (λ xs. length xs ≤ s.capacity) w h in
    elim (Bool-cases (is_zero e)) [
      | inl b ↦ rw b (order, sym (append-nil s.output), ground arith, refl)
      | inr b ↦
          rw b (order, ap (λ x. s.output ++ x) (sym (append-nil (frame e))), ground arith, refl)
    ]

-- On a channel that is empty: the end, if it is closed.
closed-Moves :
    (flushed : Bool) (s : Sse) → length s.stream ≤ s.capacity → Moves s [] [] (receive [] flushed s)
unfolding receive handle is_zero is_empty frames
closed-Moves flushed s h = elim (Bool-cases s.closed) [
  | inl b ↦ rw b (Moves-refl s h)
  | inr b ↦ rw b (Moves-refl s h)
]

List-cases : (xs : List Event) → (xs ≡ []) ⊎ ((e : Event) × (es : List Event) × (xs ≡ e ∷ es))
List-cases [] = inl refl
List-cases (e ∷ es) = inr (e, es, refl)

receive-Moves :
    (flushed : Bool) (s : Sse)
    → length s.stream ≤ s.capacity
    → (taken : List Event) × Moves s [] taken (receive s.stream flushed s)
unfolding receive
receive-Moves flushed s h = elim (List-cases s.stream) [
  | inl w ↦ (
    [],
    subst (λ t. Moves s [] [] t) (sym (ap (λ xs. receive xs flushed s) w))
        (closed-Moves flushed s h),
  )
  | inr (e, es, w) ↦ (
    e ∷ [],
    subst (λ t. Moves s [] (e ∷ []) t) (sym (ap (λ xs. receive xs flushed s) w))
        (handle-Moves e es flushed s w h),
  )
]

turn-Moves :
    (done_first flushed : Bool) (s : Sse)
    → length s.stream ≤ s.capacity
    → (taken : List Event) × Moves s [] taken (turn done_first flushed s)
unfolding turn frames
turn-Moves done_first flushed s h = elim (Bool-cases (not s.serving || s.finished)) [
  | inl b ↦ rw b ([], Moves-refl s h)
  | inr b ↦ elim (Bool-cases (s.cancelled && done_first)) [
    | inl c ↦ rw b (rw c ([], Moves-refl s h))
    | inr c ↦ rw b (rw c (receive-Moves flushed s h))
  ]
]

act-Moves :
    (a : Action) (s : Sse)
    → length s.stream ≤ s.capacity
    → (taken : List Event) × Moves s (enters a s) taken (act a s)
unfolding act enters frames stop close
act-Moves (publishes v) s h = ([], publish-Moves v s h)
act-Moves resumes s h = ([], resume-Moves s h)
act-Moves closes s h = elim (Bool-cases (not (is_none s.waiting) || s.closed)) [
  | inl b ↦ rw b ([], Moves-refl s h)
  | inr b ↦ rw b ([], Moves-refl s h)
]
act-Moves stops s h = elim (Bool-cases s.serving) [
  | inl b ↦ rw b ([], Moves-refl s h)
  | inr b ↦ rw b ([], Moves-refl s h)
]
act-Moves leaves s h = ([], Moves-refl s h)
act-Moves begins s h = ([], Moves-refl s h)
act-Moves (turns done_first flushed) s h = turn-Moves done_first flushed s h

run-Moves :
    (acts : List Action) (s : Sse)
    → length s.stream ≤ s.capacity
    → (taken : List Event) × Moves s (entered acts s) taken (run acts s)
unfolding run entered
run-Moves [] s h = ([], Moves-refl s h)
run-Moves (a ∷ acts) s h =
    let first = act-Moves a s h in
    let rest = run-Moves acts (act a s) first.1.2 in
    (
      first.0 ++ rest.0,
      Moves-trans s (act a s) (run acts (act a s)) (enters a s) (entered acts (act a s)) first.0
          rest.0 first.1 rest.1,
    )

-- After any run of publishers, of `Close`, `Stop` and the handler, in any order: the events that were
-- published, in the order of their `Publish`, are those that the handler received, then those that
-- wait in the channel, then the one whose publisher still waits for room; what was written is the
-- frames of those that were received, in that order and each once; and the channel holds at most
-- its capacity.
pub run-new_sse :
    (size : ℤ) (acts : List Action)
    → (taken : List Event) × (taken
          ++ ((run acts (new_sse size)).stream ++ pending (run acts (new_sse size)).waiting)
        ≡ entered acts (new_sse size))
      × ((run acts (new_sse size)).output ≡ frames taken)
      × (length (run acts (new_sse size)).stream ≤ (new_sse size).capacity)
unfolding new_sse
run-new_sse size acts =
    let m = run-Moves acts (new_sse size) (ground arith) in
    (m.0, m.1.0, m.1.1, subst (λ n. length (run acts (new_sse size)).stream ≤ n) m.1.3 m.1.2)
