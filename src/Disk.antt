-- ===== src/Disk.antt =====
-- The file system as the program uses it through `os`: whole files by their paths. Every call may
-- fail; a copy that fails halfway leaves any text in its destination.
use updater_service.Base.{
  ℕ, ◌+◌, String, Option, none, some, Error, not_exist, ok, err, Act, ◌>>◌, ◌==◌, string_eq,
  if◌then◌else◌,
}

pub record Disk : Type 0 where
  pub files : String → Option String
  pub calls : ℕ  -- how many calls were made

-- How the calls go, by their number: the error of a call that fails, and what a failed copy leaves.
pub record Faults : Type 0 where
  pub fault : ℕ → Option Error
  pub torn : ℕ → String

abbrev pub write : String → Option String → Disk → Disk
write path content d = record d { files = λ p. if p == path then content else d.files p }

module _ (os : Faults) where
  -- One call; its effect on the files is `f`, its effect when it fails is `g`.
  unfoldable pub syscall : (Disk → Disk) → (Disk → Disk) → Act Disk Unit
  syscall g f d =
      let d' = record d { calls = d.calls + 1 } in
      elim (os.fault d.calls) [ none ↦ (ok tt, f d') | some e ↦ (err e, g d') ]

  -- os.Stat, and os.Open and os.OpenFile without O_CREATE
  unfoldable pub stat : String → Act Disk Unit
  unfolding syscall
  stat path d =
      let (r, d') = syscall (λ x. x) (λ x. x) d in
      elim r [
        | err e ↦ (err e, d')
        | ok _ ↦ elim (d.files path) [ none ↦ (err not_exist, d') | some _ ↦ (ok tt, d') ]
      ]

  unfoldable pub mkdir_all : Act Disk Unit
  unfolding syscall
  mkdir_all = syscall (λ x. x) (λ x. x)

  -- os.OpenFile with O_CREATE and O_TRUNC
  unfoldable pub create_file : String → Act Disk Unit
  unfolding syscall
  create_file path = syscall (λ x. x) (write path (some ""))

  -- io.CopyBuffer between open files
  unfoldable pub copy_buffer : String → String → Act Disk Unit
  unfolding syscall
  copy_buffer source destination d =
      syscall (write destination (some (os.torn d.calls))) (write destination (d.files source)) d

  -- (*os.File).Sync and Close
  unfoldable pub flush : Act Disk Unit
  unfolding syscall
  flush = syscall (λ x. x) (λ x. x)

  unfoldable pub close_file : Act Disk Unit
  unfolding syscall
  close_file = syscall (λ x. x) (λ x. x)

  unfoldable pub remove : String → Act Disk Unit
  unfolding stat syscall
  remove path = do stat path; syscall (λ x. x) (write path none)

  -- os.Rename replaces the new path in one step, or fails and changes nothing.
  unfoldable pub rename : String → String → Act Disk Unit
  unfolding stat syscall
  rename old new d =
      let (r, d') = stat old d in
      elim r [
        | err e ↦ (err e, d')
        | ok _ ↦ (ok tt, if old == new then d' else write old none (write new (d.files old) d'))
      ]
