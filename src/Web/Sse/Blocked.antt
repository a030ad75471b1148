-- ===== src/Web/Sse/Blocked.antt =====
-- A publisher that waits for room when the handler has returned.
use mathlib.Core.Path.{subst}
use goddd.Web.Sse.{
  begins, leaves, stops, closes, resumes, turns, resume_with, publishes, turn, begin, stop, close,
  resume, Action, publish, Event, act, send, is_none, run, Sse,
}
use goddd.Common.{
  Bool-cases, sym, arith, ap, [], ◌||◌, ltb, ◌∙◌, not, length, ◌≡◌, ◌≤◌, List, ◌∷◌, inr, inl, some,
  false, true, refl,
}

abbrev pub IsStuck : Event → Sse → Type 0
IsStuck v s = (s.waiting ≡ some v) × (s.finished ≡ true) × (s.capacity ≤ length s.stream)

-- One action keeps it.
abbrev KeepsStuck : Event → Sse → Sse → Type 0
KeepsStuck v s t = IsStuck v t × (t.stream ≡ s.stream) × (t.closed ≡ s.closed)

held : (v : Event) (s : Sse) → s.waiting ≡ some v → (not (is_none s.waiting) || s.closed) ≡ true
unfolding is_none
held v s h = ap (λ o. not (is_none o) || s.closed) h

full : (s : Sse) → s.capacity ≤ length s.stream → ltb (length s.stream) s.capacity ≡ false
full s h = ground arith

send_full : (v : Event) (s : Sse) → IsStuck v s → KeepsStuck v s (send v s)
unfolding send
send_full v s h = rw (full s h.2) ((refl, h.1, h.2), refl, refl)

over : (s : Sse) → s.finished ≡ true → (not s.serving || s.finished) ≡ true
over s h = ground arith

act-IsStuck : (a : Action) (v : Event) (s : Sse) → IsStuck v s → KeepsStuck v s (act a s)
unfolding act publish resume close stop begin turn
act-IsStuck (publishes w) v s h = rw (held v s h.0) (h, refl, refl)
act-IsStuck resumes v s h =
    subst (KeepsStuck v s) (sym (ap (λ o. resume_with o s) h.0)) (send_full v s h)
act-IsStuck closes v s h = rw (held v s h.0) (h, refl, refl)
act-IsStuck stops v s h = elim (Bool-cases s.serving) [
  | inl b ↦ rw b (h, refl, refl)
  | inr b ↦ rw b (h, refl, refl)
]
act-IsStuck leaves v s h = (h, refl, refl)
act-IsStuck begins v s h = (h, refl, refl)
act-IsStuck (turns d f) v s h = rw (over s h.1) (h, refl, refl)

-- Where one publisher waits for room in a full channel and the handler has returned, no run of the
-- others changes the channel, lets the publisher go or closes the channel: `Publish` and every
-- `Close` after it wait for ever, since the publisher keeps the mutex.
pub run-IsStuck :
    (acts : List Action) (v : Event) (s : Sse)
    → IsStuck v s
    → IsStuck v (run acts s) × ((run acts s).stream ≡ s.stream) × ((run acts s).closed ≡ s.closed)
unfolding run
run-IsStuck [] v s h = (h, refl, refl)
run-IsStuck (a ∷ acts) v s h =
    let one = act-IsStuck a v s h in
    let rest = run-IsStuck acts v (act a s) one.0 in (rest.0, rest.1 ∙ one.1, rest.2 ∙ one.2)
