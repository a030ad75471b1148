-- ===== src/Web/Sse/Drain.antt =====
-- What `Close` leaves is sent: the handler ends, and ends only then.
use mathlib.Core.Path.{subst}
use goddd.Common.Text.{Bytes}
use goddd.Web.Sse.Order.{frames}
use goddd.Web.Sse.{
  frame, Bytes, handle, Sse, is_zero, receive, turn, Event, act, turns, Action, run,
}
use goddd.Common.{
  append_assoc, Bool-cases, append-nil, sym, inr, inl, ◌++◌, ◌∙◌, arith, length, ap, zero, suc,
  replicate, [], ◌≡◌, if◌then◌else◌, List, ◌∷◌, false, true, refl, ℕ,
}

-- The events before the first that is empty.
abbrev pub before_zero : List Event → List Event
before_zero [] = []
before_zero (e ∷ es) = if is_zero e then [] else e ∷ before_zero es

-- A turn that finds the context alive, and whose flush has no error.
abbrev pub good_turn : Action
good_turn = turns false true

-- The handler still runs and nobody stopped it.
abbrev pub IsLive : Sse → Type 0
IsLive s = (s.serving ≡ true) × (s.finished ≡ false) × (s.cancelled ≡ false)

turn_finished : (s : Sse) → s.finished ≡ true → act good_turn s ≡ s
unfolding act turn
turn_finished s h = ground (arith, h)

turn_live : (s : Sse) → IsLive s → act good_turn s ≡ receive s.stream true s
unfolding act turn
turn_live s h = rw h.0 (rw h.1 (rw h.2 refl))

run_finished : (n : ℕ) (s : Sse) → s.finished ≡ true → run (replicate n good_turn) s ≡ s
unfolding run
run_finished zero s h = refl
run_finished (suc n) s h =
    ap (λ t. run (replicate n good_turn) t) (turn_finished s h) ∙ run_finished n s h

abbrev pub EndsWith : Bytes → Sse → Type 0
EndsWith out t = (t.finished ≡ true) × (t.output ≡ out)

-- After `Close`, a handler that runs, is not stopped and meets no error ends after at most one turn
-- more than there are events in the channel, and has written the frames of these events in their
-- order, up to the first event that is empty, if there is one.
pub drain :
    (es : List Event) (s : Sse)
    → s.stream ≡ es
    → s.closed ≡ true
    → IsLive s
    → EndsWith (s.output ++ frames (before_zero es)) (run (replicate (suc (length es)) good_turn) s)
unfolding run receive handle frames is_zero
drain [] s w c l =
    let ends = turn_live s l ∙ ap (λ xs. receive xs true s) w in
    subst (EndsWith (s.output ++ [])) (sym ends) (rw c (refl, sym (append-nil s.output)))
drain (e ∷ es) s w c l =
    let goes = turn_live s l ∙ ap (λ xs. receive xs true s) w in
    let written = s.output ++ frames (before_zero (e ∷ es)) in
    let n = suc (length es) in
    subst (λ t. EndsWith written (run (replicate n good_turn) t)) (sym goes)
      (elim (Bool-cases (is_zero e)) [
        | inl z ↦ rw z (
            subst (EndsWith (s.output ++ []))
              (sym (run_finished n (record s { stream = es; finished = true }) refl))
              (refl, sym (append-nil s.output)))
        | inr z ↦
            (let t = record s { stream = es; output = s.output ++ frame e; finished = false } in
              let ih = drain es t refl c (l.0, refl, l.2) in
              rw z (
                ih.0,
                ih.1
                    ∙ append_assoc s.output (frame e) (frames (before_zero es))
                    ∙ ap (λ x. s.output ++ (x ++ frames (before_zero es)))
                        (sym (ap (λ b. if b then [] else frame e) z)),
              ))
      ])
