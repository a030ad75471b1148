-- ===== src/System/Backup/Whole.antt =====
-- The file is never seen with a part of a text.
use mathlib.Core.Option.{some-injective}
use goddd.System.Backup.{
  quits, closes, close, receives, act, run, new_file_backup, rename_fails, renamed, written,
  write_fails, Renaming, writes, Writing, FileBackup, Action, rename_backup, save, write,
  receive_quit, receive,
}
use goddd.Common.Text.{Bytes}
use mathlib.Core.Path.{subst}
use goddd.Common.{
  arith, sym, none, false, true, Option-cases, append_assoc, ◌&&◌, ◌∙◌, [], Bool-cases, ◌⊎◌, ap,
  ◌≡◌, ◌++◌, List, Option, ◌∷◌, inr, inl, some, refl,
}

-- Some action of a run is the `Write` of a text.
abbrev pub IsWritten : Bytes → List Action → Type 0
IsWritten text acts = (before after : List Action) × (acts ≡ before ++ (writes text ∷ after))

-- What the file may hold after a run that began with `s`.
abbrev pub IsWhole : Option Bytes → List Action → Option Bytes → Type 0
IsWhole s acts held = (held ≡ s) ⊎ ((text : Bytes) × IsWritten text acts × (held ≡ some text))

abbrev Inv : Option Bytes → List Action → FileBackup → Type 0
Inv s past f = IsWhole s past f.source × ((text : Bytes) → f.ch ≡ some text → IsWritten text past)

append-IsWritten :
    (text : Bytes) (past more : List Action) → IsWritten text past → IsWritten text (past ++ more)
append-IsWritten text past more (before, after, split) = (
  before,
  after ++ more,
  ap (λ l. l ++ more) split ∙ append_assoc before (writes text ∷ after) more,
)

append-IsWhole :
    (s : Option Bytes) (past more : List Action) (held : Option Bytes)
    → IsWhole s past held
    → IsWhole s (past ++ more) held
append-IsWhole s past more held (inl same) = inl same
append-IsWhole s past more held (inr (text, w, is)) =
    inr (text, append-IsWritten text past more w, is)

append-Inv :
    (s : Option Bytes) (past more : List Action) (f : FileBackup)
    → Inv s past f
    → Inv s (past ++ more) f
append-Inv s past more f (whole, waits) = (
  append-IsWhole s past more f.source whole,
  λ text e. append-IsWritten text past more (waits text e),
)

pub write_new : (t : Bytes) (f : FileBackup) → f.ch ≡ none → write t f ≡ record f { ch = some t }
unfolding write
write_new t f e = ground (arith, e)

-- A text for which there is no room is lost.
pub write_full : (t w : Bytes) (f : FileBackup) → f.ch ≡ some w → write t f ≡ f
unfolding write
write_full t w f e = ground (arith, e)

write-Inv :
    (s : Option Bytes) (past : List Action) (t : Bytes) (f : FileBackup)
    → Inv s past f
    → Inv s (past ++ (writes t ∷ [])) (write t f)
write-Inv s past t f inv =
    let kept = append-Inv s past (writes t ∷ []) f inv in
    elim (Option-cases f.ch) [
      | inl e ↦
          subst (Inv s (past ++ (writes t ∷ []))) (sym (write_new t f e))
            (kept.0, λ text h. (past, [], ap (λ u. past ++ (writes u ∷ [])) (some-injective _ _ h)))
      | inr (w, e) ↦ subst (Inv s (past ++ (writes t ∷ []))) (sym (write_full t w f e)) kept
    ]

save-Inv :
    (s : Option Bytes) (past : List Action) (w : Writing) (r : Renaming) (t : Bytes)
    (f : FileBackup)
    → IsWritten t past
    → Inv s past f
    → Inv s past (save w r t f)
unfolding save rename_backup
save-Inv s past written renamed t f is (whole, waits) = (inr (t, is, refl), waits)
save-Inv s past written rename_fails t f is inv = inv
save-Inv s past (write_fails part) r t f is inv = inv

receive_empty : (w : Writing) (r : Renaming) (f : FileBackup) → f.ch ≡ none → receive w r f ≡ f
unfolding receive
receive_empty w r f e = ground (arith, e)

pub receive_text :
    (w : Writing) (r : Renaming) (text : Bytes) (f : FileBackup)
    → f.ch ≡ some text
    → f.is_running ≡ true
    → receive w r f ≡ save w r text (record f { ch = none })
unfolding receive
receive_text w r text f e b = ground (arith, e, b)

receive_stopped :
    (w : Writing) (r : Renaming) (f : FileBackup) → f.is_running ≡ false → receive w r f ≡ f
unfolding receive
receive_stopped w r f b = ground (arith, b)

receive-Inv :
    (s : Option Bytes) (past : List Action) (w : Writing) (r : Renaming) (f : FileBackup)
    → Inv s past f
    → Inv s past (receive w r f)
receive-Inv s past w r f inv = elim (Option-cases f.ch) [
  | inl e ↦ subst (Inv s past) (sym (receive_empty w r f e)) inv
  | inr (text, e) ↦ elim (Bool-cases f.is_running) [
    | inl b ↦
        subst (Inv s past) (sym (receive_text w r text f e b))
          (save-Inv s past w r text (record f { ch = none }) (inv.1 text e) (inv.0, λ t h. cc))
    | inr b ↦ subst (Inv s past) (sym (receive_stopped w r f b)) inv
  ]
]

quit-Inv :
    (s : Option Bytes) (past : List Action) (f : FileBackup)
    → Inv s past f
    → Inv s past (receive_quit f)
unfolding receive_quit
quit-Inv s past f inv = elim (Bool-cases (f.is_running && f.quit)) [
  | inl b ↦ rw b inv
  | inr b ↦ rw b inv
]

act-Inv :
    (s : Option Bytes) (past : List Action) (a : Action) (f : FileBackup)
    → Inv s past f
    → Inv s (past ++ (a ∷ [])) (act a f)
unfolding act close
act-Inv s past (writes t) f inv = write-Inv s past t f inv
act-Inv s past closes f inv = append-Inv s past (closes ∷ []) f inv
act-Inv s past (receives w r) f inv =
    append-Inv s past (receives w r ∷ []) (receive w r f) (receive-Inv s past w r f inv)
act-Inv s past quits f inv = append-Inv s past (quits ∷ []) (receive_quit f) (quit-Inv s past f inv)

run-Inv :
    (s : Option Bytes) (past acts : List Action) (f : FileBackup)
    → Inv s past f
    → Inv s (past ++ acts) (run acts f)
unfolding run
run-Inv s past [] f inv = append-Inv s past [] f inv
run-Inv s past (a ∷ acts) f inv =
    subst (λ l. Inv s l (run acts (act a f))) (append_assoc past (a ∷ []) acts)
      (run-Inv s (past ++ (a ∷ [])) acts (act a f) (act-Inv s past a f inv))

-- A text that finds the channel empty while the goroutine runs is in the file once it is received and both
-- calls succeed.
pub saved :
    (text : Bytes) (f : FileBackup)
    → f.ch ≡ none
    → f.is_running ≡ true
    → (run (writes text ∷ receives written renamed ∷ []) f).source ≡ some text
unfolding run act save rename_backup
saved text f e b =
    ap (λ g. (receive written renamed g).source) (write_new text f e)
    ∙ ap (λ (g : FileBackup). g.source)
        (receive_text written renamed text (record f { ch = some text }) refl b)

-- Whatever happens, in any order, and whichever calls of the file system fail: the file holds what it held
-- at first, or the whole text of some `Write`.
pub run-IsWhole :
    (source backup : Option Bytes) (acts : List Action)
    → IsWhole source acts (run acts (new_file_backup source backup)).source
unfolding new_file_backup
run-IsWhole source backup acts =
    (run-Inv source [] acts (new_file_backup source backup) (inl refl, λ t h. cc)).0
