-- ===== src/System/Backup/Examples.antt =====
-- Two texts, of which the second one is received.
use goddd.Common.Text.{codes}
use goddd.System.Backup.{
  quits, closes, renamed, written, write_fails, receives, Action, writes, new_file_backup, run,
}
use goddd.System.Backup.Whole.{run-IsWhole, IsWhole}
use goddd.Common.{[], ◌≡◌, List, ◌∷◌, some, none, refl}

abbrev three_writes : List Action
three_writes =
    writes (codes "a")
    ∷ writes (codes "b")
    ∷ receives (write_fails (some [])) renamed
    ∷ writes (codes "c")
    ∷ receives written renamed
    ∷ closes
    ∷ quits
    ∷ []

run-IsWhole_example :
    IsWhole
      (some (codes "o"))
      three_writes
      (run three_writes (new_file_backup (some (codes "o")) none)).source
run-IsWhole_example = run-IsWhole (some (codes "o")) none three_writes

run-three_writes :
    (run three_writes (new_file_backup (some (codes "o")) none)).source ≡ some (codes "c")
unfolding run new_file_backup
run-three_writes = refl

-- The later text is the one that is lost.
later_text_lost :
    (run
      (writes (codes "old") ∷ writes (codes "new") ∷ receives written renamed ∷ [])
      (new_file_backup none none)).source
    ≡ some (codes "old")
unfolding run new_file_backup
later_text_lost = refl
