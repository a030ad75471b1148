-- ===== src/System/Backup.antt =====
-- pkg/system/bakup.go: a goroutine that writes a file in two steps. A run is a list of what happens, in any
-- order; what cannot happen yet changes nothing. The file system answers each call with whether it
-- succeeded; a write that fails may leave a part of the text.
pub mod Whole
mod Examples
use goddd.Common.Text.{Bytes}
use goddd.Common.{[], ◌&&◌, Bool, if◌then◌else◌, Option, List, ◌∷◌, some, none, false, true, ℕ}

-- How os.WriteFile and os.Rename end.
pub data Writing : Type 0 where
  written : Writing
  write_fails : Option Bytes → Writing

pub data Renaming : Type 0 where
  renamed : Renaming
  rename_fails : Renaming

-- The two files, the two channels, each for one value, and whether the goroutine runs.
pub record FileBackup : Type 0 where
  pub source : Option Bytes
  pub backup : Option Bytes
  pub ch : Option Bytes
  pub quit : Bool
  pub is_running : Bool

-- `NewFileBackup`, with the file as it is then.
pub new_file_backup : Option Bytes → Option Bytes → FileBackup
new_file_backup source backup = record {
  source = source;
  backup = backup;
  ch = none;
  quit = false;
  is_running = true;
}

-- `Write`: the text is left out where the channel is full.
pub write : Bytes → FileBackup → FileBackup
write text f = elim f.ch [ none ↦ record f { ch = some text } | some waiting ↦ f ]

-- `Close` waits where the channel is full.
pub close : FileBackup → FileBackup
close f = record f { quit = true }

-- os.Rename, when it succeeds, on the backup that os.WriteFile has written.
pub rename_backup : Renaming → Bytes → FileBackup → FileBackup
rename_backup renamed text f = record f { source = some text; backup = none }
rename_backup rename_fails text f = record f { backup = some text }

-- The two steps, for a text that was received.
pub save : Writing → Renaming → Bytes → FileBackup → FileBackup
unfolding rename_backup
save written r text f = rename_backup r text f
save (write_fails part) r text f = record f { backup = part }

-- A round of `start` that receives a text.
pub receive : Writing → Renaming → FileBackup → FileBackup
unfolding save
receive w r f = elim f.ch [
  | none ↦ f
  | some text ↦ if f.is_running then save w r text (record f { ch = none }) else f
]

-- A round that receives from `quit`.
pub receive_quit : FileBackup → FileBackup
receive_quit f = if f.is_running && f.quit then record f { quit = false; is_running = false } else f

pub data Action : Type 0 where
  writes : Bytes → Action
  closes : Action
  receives : Writing → Renaming → Action
  quits : Action

pub act : Action → FileBackup → FileBackup
unfolding write close receive receive_quit
act (writes text) f = write text f
act closes f = close f
act (receives w r) f = receive w r f
act quits f = receive_quit f

pub run : List Action → FileBackup → FileBackup
unfolding act
run [] f = f
run (a ∷ acts) f = run acts (act a f)
