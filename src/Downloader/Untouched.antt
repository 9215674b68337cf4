-- ===== src/Downloader/Untouched.antt =====
-- internal/filetransfer/downloader.go: no step of `Download` before the final check touches any path but
-- those of the part file and the saved state.
use updater_service.Base.{
  String, ◌<>◌, ℕ, some, List, [], ◌∷◌, Option, Result, attempt, lift, ◌≡◌, ◌≢◌, arith, string_eq,
  suffix_ne, sym, on_option, Preserves, preserving, Preserves-on_result, Preserves-raise, raise,
  ◌+◌, Preserves-bind, Preserves-attempt, Preserves-pure, suffixed_ne,
}
use updater_service.Disk.{
  Disk, Faults, write, stat, mkdir_all, syscall, create_file, close_file, remove, rename,
}
use updater_service.Downloader.{Chunk}
use updater_service.Downloader.Finish.{read_file}
use updater_service.Downloader.State.{
  Codec, read_state_file, encode_to, save_state_file, mark_chunk_complete, load_state,
}
use updater_service.Downloader.Whole.{
  Event, wrote, marked, failed, open_part, truncate, happen, happen_all,
}

-- A path that is not one of the three that a download works in.
pub record IsApart (dest p : String) : Type 0 where
  pub part : p ≢ dest <> ".part"
  pub state : p ≢ dest <> ".state.json"
  pub temporary : p ≢ (dest <> ".state.json") <> ".tmp"

pub Preserves-lift :
    {A S : Type 0} {P : S → Type 0} (r : Result A) → Preserves P (lift {A = A} {S = S} r)
unfolding lift
Preserves-lift r = record { at = λ s held. held }

module _ (dest : String) (d : Disk) where
  abbrev pub IsSame : Disk → Type 0
  IsSame s = (p : String) → IsApart dest p → s.files p ≡ d.files p

  -- A path that every path apart differs from.
  abbrev IsOwn : String → Type 0
  IsOwn path = (p : String) → IsApart dest p → p ≢ path

  pub IsSame-syscall :
      (os : Faults) (g f : Disk → Disk)
      → ((s : Disk) → IsSame s → IsSame (g s))
      → ((s : Disk) → IsSame s → IsSame (f s))
      → Preserves IsSame (syscall os g f)
  unfolding syscall
  IsSame-syscall os g f kg kf = record {
    at = λ s same p h.
        let next = record s { calls = s.calls + 1 } in
        ground (arith, kf next same p h, kg next same p h);
  }

  IsSame-write :
      (path : String) (content : Option String) (s : Disk)
      → IsOwn path
      → IsSame s
      → IsSame (write path content s)
  IsSame-write path content s own same p h = ground (arith, own p h, same p h)

  pub IsSame-write_call :
      (os : Faults) (path : String) (content : Disk → Option String)
      → IsOwn path
      → Preserves IsSame (syscall os (λ s. s) (λ s. write path (content s) s))
  IsSame-write_call os path content own =
      IsSame-syscall os (λ s. s) (λ s. write path (content s) s) (λ s h. h)
        (λ s. IsSame-write path (content s) s own)

  IsSame-stat : (os : Faults) (path : String) → Preserves IsSame (stat os path)
  unfolding stat
  IsSame-stat os path = record {
    at = λ s same p h.
        ground (arith, (IsSame-syscall os (λ x. x) (λ x. x) (λ _ k. k) (λ _ k. k)).at s same p h);
  }

  IsSame-read_file : (os : Faults) (path : String) → Preserves IsSame (read_file os path)
  unfolding read_file
  IsSame-read_file os path = record {
    at = (IsSame-syscall os (λ x. x) (λ x. x) (λ _ k. k) (λ _ k. k)).at;
  }

  IsSame-remove : (os : Faults) (path : String) → IsOwn path → Preserves IsSame (remove os path)
  unfolding remove
  IsSame-remove os path own = search (preserving, IsSame-stat, IsSame-write_call) depth 10

  IsSame-rename :
      (os : Faults) (old new : String)
      → IsOwn old
      → IsOwn new
      → Preserves IsSame (rename os old new)
  unfolding rename
  IsSame-rename os old new own_old own_new = record {
    at = λ s same p h.
        ground (arith, own_old p h, own_new p h, same p h, (IsSame-stat os old).at s same p h);
  }

  ruleset disk_calls = (
    preserving, IsSame-syscall, IsSame-write, IsSame-write_call, IsSame-stat, IsSame-read_file,
    IsSame-remove, IsSame-rename,
  )

  module _ (os : Faults) (codec : Codec) (path : String) (own : IsOwn path)
      (owned : IsOwn (path <> ".tmp")) where
    IsSame-read_state_file : Preserves IsSame (read_state_file os codec path)
    unfolding read_state_file
    IsSame-read_state_file = search (disk_calls, Preserves-lift) depth 12

    IsSame-encode_to :
        (chunks : List Chunk) → Preserves IsSame (encode_to os codec (path <> ".tmp") chunks)
    unfolding encode_to
    IsSame-encode_to chunks =
        Preserves-on_result (codec.encode chunks) raise
          (λ json s.
            syscall os (write (path <> ".tmp") (some (os.torn s.calls)))
              (write (path <> ".tmp") (some json)) s)
          Preserves-raise
          (λ json. record {
            at = λ s.
                (IsSame-syscall os (write (path <> ".tmp") (some (os.torn s.calls)))
                    (write (path <> ".tmp") (some json))
                    (λ t. IsSame-write (path <> ".tmp") (some (os.torn s.calls)) t owned)
                    (λ t. IsSame-write (path <> ".tmp") (some json) t owned)).at
                  s;
          })

    IsSame-save_state_file :
        (chunks : List Chunk) → Preserves IsSame (save_state_file os codec path chunks)
    unfolding save_state_file create_file close_file
    IsSame-save_state_file chunks = search (disk_calls, IsSame-encode_to) depth 14

    IsSame-mark_chunk_complete : (i : ℕ) → Preserves IsSame (mark_chunk_complete os codec path i)
    unfolding mark_chunk_complete
    IsSame-mark_chunk_complete i =
        search (disk_calls, IsSame-read_state_file, IsSame-save_state_file) depth 10

    pub IsSame-load_state :
        (chunk_size expected_size : ℕ)
        → Preserves IsSame (load_state os codec chunk_size expected_size path)
    unfolding load_state
    IsSame-load_state chunk_size expected_size =
        search (disk_calls, Preserves-lift, IsSame-read_state_file, IsSame-save_state_file) depth 12

  pub IsOwn-part : IsOwn (dest <> ".part")
  IsOwn-part p apart = apart.part

  pub IsOwn-state : IsOwn (dest <> ".state.json")
  IsOwn-state p apart = apart.state

  pub IsOwn-temporary : IsOwn ((dest <> ".state.json") <> ".tmp")
  IsOwn-temporary p apart = apart.temporary

  pub dest-IsApart : IsApart dest dest
  dest-IsApart = record {
    part = λ e. suffix_ne dest ".part" (omega arith) (sym e);
    state = λ e. suffix_ne dest ".state.json" (omega arith) (sym e);
    temporary = λ e. suffixed_ne dest ".state.json" ".tmp" (omega arith) (sym e);
  }

  pub IsSame-mkdir_all : (os : Faults) → Preserves (IsSame) (mkdir_all os)
  unfolding mkdir_all
  IsSame-mkdir_all os = IsSame-syscall os (λ s. s) (λ s. s) (λ _ k. k) (λ _ k. k)

  pub IsSame-open_part : (os : Faults) → Preserves (IsSame) (open_part os (dest <> ".part"))
  unfolding open_part
  IsSame-open_part os =
      IsSame-write_call os (dest <> ".part")
        (λ s. some (on_option (s.files (dest <> ".part")) "" (λ found. found))) IsOwn-part

  pub IsSame-truncate :
      (os : Faults) (resize : ℕ → String → String) (size : ℕ)
      → Preserves (IsSame) (truncate os resize (dest <> ".part") size)
  unfolding truncate
  IsSame-truncate os resize size =
      IsSame-write_call os (dest <> ".part")
        (λ s. some (resize size (on_option (s.files (dest <> ".part")) "" (λ found. found))))
        IsOwn-part

  module _ (os : Faults) (codec : Codec) where
    IsSame-happen : (event : Event) → Preserves IsSame (happen os codec dest event)
    unfolding happen raise
    IsSame-happen (wrote content) = record {
      at = λ s. IsSame-write (dest <> ".part") (some content) s IsOwn-part;
    }
    IsSame-happen (marked i) = record {
      at =
          (IsSame-mark_chunk_complete os codec (dest <> ".state.json") IsOwn-state IsOwn-temporary
            i).at;
    }
    IsSame-happen (failed e) = record { at = λ s same. same }

    pub IsSame-happen_all :
        (events : List Event) → Preserves IsSame (happen_all os codec dest events)
    unfolding happen_all
    IsSame-happen_all [] = Preserves-pure tt
    IsSame-happen_all (event ∷ events) =
        let first = IsSame-happen event in
        let others = IsSame-happen_all events in
        Preserves-bind (attempt (happen os codec dest event)) _
          (Preserves-attempt (happen os codec dest event) first)
          (λ r.
            Preserves-bind (attempt (happen_all os codec dest events)) _
              (Preserves-attempt (happen_all os codec dest events) others) (λ t. Preserves-lift _))
