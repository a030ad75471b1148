-- ===== src/Web/Sse/Chunks/Latest.antt =====
-- What the senders that wait for a tick write: of the values between two ticks the last.
use mathlib.Core.Path.{subst}
use mathlib.Core.List.{map-append}
use goddd.Web.Sse.Chunks.{
  is_zero_message, EventMessage, send_sse, idle, is_zero_chunk, Chunk, set_headers, send_chunk_pro,
  round, tick, rounds, got, Sender, write_last, Input,
}
use goddd.Common.Text.{Bytes}
use goddd.Common.{
  if◌then◌else◌, ◌==◌, Bool-cases, inr, inl, append_assoc, ap, ◌∙◌, suc, append-nil, sym, map, ◌≡◌,
  ◌++◌, [], List, Option, Bool, ◌∷◌, some, none, false, true, refl, ℕ,
}

module _ {A : Type 0} where
  -- The values between the ticks.
  abbrev pub onto_first : A → List (List A) → List (List A)
  onto_first v [] = (v ∷ []) ∷ []
  onto_first v (vs ∷ segs) = (v ∷ vs) ∷ segs

  abbrev pub segments : List (Input A) → List (List A)
  segments [] = [] ∷ []
  segments (tick ∷ xs) = [] ∷ segments xs
  segments (got v ∷ xs) = onto_first v (segments xs)

  abbrev pub last_of : Option A → List A → Option A
  last_of p [] = p
  last_of p (v ∷ vs) = last_of (some v) vs

  abbrev pub listed : Option A → List A
  listed none = []
  listed (some v) = v ∷ []

  -- The last value of each segment that has one; `p` stands before the first.
  abbrev pub lasts : Option A → List (List A) → List A
  lasts p [] = listed p
  lasts p (vs ∷ segs) = listed (last_of p vs) ++ lasts none segs

  lasts-onto_first :
      (v : A) (p : Option A) (segs : List (List A))
      → lasts p (onto_first v segs) ≡ lasts (some v) segs
  lasts-onto_first v p [] = refl
  lasts-onto_first v p (vs ∷ segs) = refl

  -- `top` touches the headers alone.
  abbrev pub IsTop : (Sender A → Sender A) → Type 0
  IsTop top =
      (s : Sender A)
      → ((top s).last ≡ s.last) × ((top s).lines ≡ s.lines) × ((top s).returned ≡ s.returned)

abbrev pub always : ℕ → Bool
always n = true

module _ {A : Type 0} (render : A → Bytes) where
  abbrev pub line : A → Bytes
  line v = render v ++ (10 ∷ [])

module _ {A : Type 0} (is_zero : A → Bool) where
  -- No value ends the channel.
  abbrev pub AllProper : List (Input A) → Type 0
  AllProper [] = Unit
  AllProper (tick ∷ xs) = AllProper xs
  AllProper (got v ∷ xs) = (is_zero v ≡ false) × AllProper xs

module _ {A : Type 0} (is_zero : A → Bool) (render : A → Bytes) where
  abbrev Ends : List Bytes → Sender A → Type 0
  Ends out t = (t.lines ≡ out) × (t.returned ≡ true)

  write_last_lem :
      (p : Option A) (ends : Bool) (s : Sender A)
      → s.last ≡ p
      → ((write_last is_zero render always p ends s).lines
          ≡ s.lines ++ map (line render) (listed p))
        × ((write_last is_zero render always p ends s).returned ≡ ends)
        × ((write_last is_zero render always p ends s).last ≡ none)
  unfolding write_last
  write_last_lem none ends s h = (sym (append-nil s.lines), refl, h)
  write_last_lem (some v) ends s h = (refl, refl, refl)

  rounds_cons :
      (top : Sender A → Sender A) (x : Input A) (xs : List (Input A)) (s : Sender A)
      → s.returned ≡ false
      → rounds is_zero render always top (x ∷ xs) s
        ≡ rounds is_zero render always top xs (round is_zero render always x (top s))
  unfolding rounds
  rounds_cons top x xs s r =
      ap
        (λ b.
          if b
          then s
          else rounds is_zero render always top xs (round is_zero render always x (top s)))
        r

  rounds_from :
      (top : Sender A → Sender A) (xs : List (Input A)) (z : A) (s : Sender A)
      → IsTop top
      → AllProper is_zero xs
      → is_zero z ≡ true
      → s.returned ≡ false
      → Ends
          (s.lines ++ map (line render) (lasts s.last (segments xs)))
          (rounds is_zero render always top (xs ++ (got z ∷ [])) s)
  unfolding rounds round
  rounds_from top [] z s t p e r =
      let w =
        write_last_lem (top s).last true (record (top s) { received = suc (top s).received })
          refl in
      subst (Ends (s.lines ++ map (line render) (listed s.last ++ [])))
        (sym (rounds_cons top (got z) [] s r))
        (rw e (
          w.0
              ∙ ap (λ l. l ++ map (line render) (listed (top s).last)) (t s).1
              ∙ ap (λ q. s.lines ++ map (line render) (listed q)) (t s).0
              ∙ ap (λ x. s.lines ++ map (line render) x) (sym (append-nil (listed s.last))),
          w.1,
        ))
  rounds_from top (tick ∷ xs) z s t p e r =
      let u = write_last is_zero render always (top s).last false (top s) in
      let w = write_last_lem (top s).last false (top s) refl in
      let ih = rounds_from top xs z u t p e w.1 in
      let late = lasts none (segments xs) in
      subst (Ends (s.lines ++ map (line render) (listed s.last ++ late)))
        (sym (rounds_cons top tick (xs ++ (got z ∷ [])) s r))
        (
          ih.0
              ∙ ap (λ q. u.lines ++ map (line render) (lasts q (segments xs))) w.2
              ∙ ap (λ l. l ++ map (line render) late) w.0
              ∙ ap (λ l. (l ++ map (line render) (listed (top s).last)) ++ map (line render) late)
                  (t s).1
              ∙ ap (λ q. (s.lines ++ map (line render) (listed q)) ++ map (line render) late)
                  (t s).0
              ∙ append_assoc s.lines (map (line render) (listed s.last)) (map (line render) late)
              ∙ ap (λ l. s.lines ++ l) (sym (map-append (line render) (listed s.last) late)),
          ih.1,
        )
  rounds_from top (got v ∷ xs) z s t p e r =
      let u = record (top s) { received = suc (top s).received; last = some v } in
      let ih = rounds_from top xs z u t p.1 e ((t s).2 ∙ r) in
      subst (Ends (s.lines ++ map (line render) (lasts s.last (onto_first v (segments xs)))))
        (sym (rounds_cons top (got v) (xs ++ (got z ∷ [])) s r))
        (rw p.0 (
          ih.0
              ∙ ap (λ l. l ++ map (line render) (lasts (some v) (segments xs))) (t s).1
              ∙ ap (λ l. s.lines ++ map (line render) l)
                  (sym (lasts-onto_first v s.last (segments xs))),
          ih.1,
        ))

set_headers-IsTop : IsTop {A = Chunk} set_headers
unfolding set_headers
set_headers-IsTop s = elim (Bool-cases (s.received == 1)) [
  | inl b ↦ rw b (refl, refl, refl)
  | inr b ↦ rw b (refl, refl, refl)
]

-- SendChunkPro, on a channel that ends with a zero value and whose writes have no error, returns, and
-- has written one line for each run of values between two ticks, its last value, in their order:
-- also the values since the last tick.
pub send_chunk_pro_lem :
    (render : Chunk → Bytes) (xs : List (Input Chunk)) (z : Chunk)
    → AllProper is_zero_chunk xs
    → is_zero_chunk z ≡ true
    → ((send_chunk_pro render (λ n. true) (xs ++ (got z ∷ []))).lines
        ≡ map (line render) (lasts none (segments xs)))
      × ((send_chunk_pro render (λ n. true) (xs ++ (got z ∷ []))).returned ≡ true)
unfolding send_chunk_pro set_headers
send_chunk_pro_lem render xs z p e =
    rounds_from is_zero_chunk render set_headers xs z idle set_headers-IsTop p e refl

-- SendSSE does so too, with the headers set from the start.
pub send_sse_lem :
    (render : EventMessage → Bytes) (xs : List (Input EventMessage)) (z : EventMessage)
    → AllProper is_zero_message xs
    → is_zero_message z ≡ true
    → ((send_sse render (xs ++ (got z ∷ []))).lines ≡ map (line render) (lasts none (segments xs)))
      × ((send_sse render (xs ++ (got z ∷ []))).returned ≡ true)
unfolding send_sse
send_sse_lem render xs z p e =
    rounds_from is_zero_message render (λ s. s) xs z (record idle { headers = true })
      (λ s. (refl, refl, refl)) p e refl
