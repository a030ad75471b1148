-- ===== src/Web/Logging/Written.antt =====
-- What the log has of an answer.
use goddd.Common.Int.{negsuc, ◌-ℤ◌, pos_part, pos, leb_ℤ, ℤ}
use goddd.Web.Logging.{BufferWriter, kept, write, write_all, ℤ, new_buffer_writer}
use goddd.Common.Text.{Bytes}
use goddd.Common.{
  append_assoc, append-nil, ◌<◌, ◌∙◌, sym, ◌≤◌, Bool, false, true, leb, Bool-cases, zero, ap, arith,
  suc, inr, inl, refl, length, if◌then◌else◌, ◌-◌, take, [], ◌++◌, ◌≡◌, List, ◌∷◌, ℕ,
}

unfoldable pub concat : List Bytes → Bytes
concat [] = []
concat (s ∷ ss) = s ++ concat ss

all_left : (n : ℕ) → n - 0 ≡ n
all_left n = ground arith

one_less : (n k : ℕ) → suc n - suc k ≡ n - k
one_less n k = ground arith

take_parts :
    (n : ℕ) (ys zs : Bytes) → take n ys ++ take (n - length (take n ys)) zs ≡ take n (ys ++ zs)
take_parts zero ys zs = refl
take_parts (suc n) [] zs = rw (all_left (suc n)) refl
take_parts (suc n) (y ∷ ys) zs =
    ap (◌∷◌ y) (rw (one_less n (length (take n ys))) (take_parts n ys zs))

difference : (n k : ℕ) → k ≤ n → pos n -ℤ pos k ≡ pos (n - k)
difference n k h = ground arith

below : (n k : ℕ) → n < k → pos n -ℤ pos k ≡ negsuc (k - n - 1)
below n k h = ground arith

nothing_left : (n k : ℕ) → n < k → n - k ≡ 0
nothing_left n k h = ground arith

kept_lem : (n k : ℕ) (s : Bytes) → kept (pos n -ℤ pos k) s ≡ take (n - k) s
unfolding kept
kept_lem n k s = elim (Bool-cases (leb k n)) [
  | inl b ↦ ap (λ z. kept z s) (difference n k (ground arith))
  | inr b ↦
      ap (λ z. kept z s) (below n k (ground arith))
      ∙ sym (ap (λ m. take m s) (nothing_left n k (ground arith)))
]

abbrev unlimited : Bytes → BufferWriter → BufferWriter
unlimited s w = record w { body = w.body ++ s; sent = w.sent ++ s }

abbrev limited : Bytes → BufferWriter → BufferWriter
limited s w = record w {
  body = w.body ++ kept (w.limit -ℤ pos (length w.body)) s;
  sent = w.sent ++ s;
}

write_lem :
    (s : Bytes) (w : BufferWriter) (c : Bool)
    → leb_ℤ w.limit (pos 0) ≡ c
    → write s w ≡ (if c then unlimited s w else limited s w)
unfolding write
write_lem s w c h = ap (λ d. if d then unlimited s w else limited s w) h

-- Without a limit the log has everything.
all_written :
    (ss : List Bytes) (w : BufferWriter)
    → leb_ℤ w.limit (pos 0) ≡ true
    → ((write_all ss w).sent ≡ w.sent ++ concat ss) × ((write_all ss w).body ≡ w.body ++ concat ss)
unfolding write_all concat
all_written [] w h = (sym (append-nil w.sent), sym (append-nil w.body))
all_written (s ∷ ss) w h =
    let rest = all_written ss (unlimited s w) h in
    let one = write_lem s w true h in
    (
      ap (λ v. (write_all ss v).sent) one ∙ rest.0 ∙ append_assoc w.sent s (concat ss),
      ap (λ v. (write_all ss v).body) one ∙ rest.1 ∙ append_assoc w.body s (concat ss),
    )

no_limit : (n : ℕ) → leb_ℤ (negsuc n) (pos 0) ≡ true
no_limit n = ground arith

is_limit : (n : ℕ) → leb_ℤ (pos (suc n)) (pos 0) ≡ false
is_limit n = ground arith

-- With a limit it has the first bytes of what was sent.
first_written :
    (n : ℕ) (ss : List Bytes) (w : BufferWriter)
    → w.limit ≡ pos (suc n)
    → w.body ≡ take (suc n) w.sent
    → ((write_all ss w).sent ≡ w.sent ++ concat ss)
      × ((write_all ss w).body ≡ take (suc n) (w.sent ++ concat ss))
unfolding write_all concat
first_written n [] w l h =
    (sym (append-nil w.sent), h ∙ ap (take (suc n)) (sym (append-nil w.sent)))
first_written n (s ∷ ss) w l h =
    let one = write_lem s w false (ap (λ z. leb_ℤ z (pos 0)) l ∙ is_limit n) in
    let body_kept =
      ap (λ z. w.body ++ kept (z -ℤ pos (length w.body)) s) l
      ∙ ap (λ x. w.body ++ x) (kept_lem (suc n) (length w.body) s)
      ∙ ap (λ x. x ++ take (suc n - length x) s) h
      ∙ take_parts (suc n) w.sent s in
    let rest = first_written n ss (limited s w) l body_kept in
    (
      ap (λ v. (write_all ss v).sent) one ∙ rest.0 ∙ append_assoc w.sent s (concat ss),
      ap (λ v. (write_all ss v).body) one
          ∙ rest.1
          ∙ ap (take (suc n)) (append_assoc w.sent s (concat ss)),
    )

-- However an answer is cut into writes: the writer behind is given all of it, and the log has its
-- first `limit` bytes, and no more; all of it, if the limit is zero or below.
pub write_all_lem :
    (ss : List Bytes) (limit : ℤ)
    → ((write_all ss (new_buffer_writer limit)).sent ≡ concat ss)
      × ((write_all ss (new_buffer_writer limit)).body
          ≡ (if leb_ℤ limit (pos 0) then concat ss else take (pos_part limit) (concat ss)))
unfolding new_buffer_writer
write_all_lem ss (pos zero) = all_written ss (new_buffer_writer (pos 0)) refl
write_all_lem ss (pos (suc n)) =
    let some_written = first_written n ss (new_buffer_writer (pos (suc n))) refl refl in
    (
      some_written.0,
      some_written.1
          ∙ ap (λ c. if c then concat ss else take (suc n) (concat ss)) (sym (is_limit n)),
    )
write_all_lem ss (negsuc n) =
    let written = all_written ss (new_buffer_writer (negsuc n)) (no_limit n) in
    (
      written.0,
      written.1
          ∙ ap (λ c. if c then concat ss else take (pos_part (negsuc n)) (concat ss))
              (sym (no_limit n)),
    )
