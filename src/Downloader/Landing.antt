-- ===== src/Downloader/Landing.antt =====
-- internal/filetransfer/downloader.go: how `Download` leaves its destination, whatever the order in which
-- its workers write, save and fail.
use updater_service.Base.{
  String, ◌<>◌, ℕ, some, none, Result, ok, err, Act, ◌≡◌, ◌≢◌, arith, string_eq, refl, ◌∙◌, Post,
  Ensures, Ensures-weaken, Ensures-keeps, Ensures-bind, Preserves, Preserves-wrapped,
}
use updater_service.Disk.{Disk, Faults}
use updater_service.Downloader.Finish.{finish_download, finish_download_lem}
use updater_service.Downloader.State.{Codec}
use updater_service.Downloader.Whole.{Transfer, download}
use updater_service.Downloader.Untouched.{
  IsApart, IsSame, IsSame-mkdir_all, IsSame-open_part, IsSame-truncate, IsSame-load_state,
  IsSame-happen_all, IsOwn-state, IsOwn-temporary, dest-IsApart,
}

-- The destination has contents with the expected sum, and there is no part file.
abbrev pub Landed : String → (String → String) → String → Disk → Type 0
Landed dest sha256 expected s =
    (content : String) × ((expected ≢ "") → sha256 content ≡ expected)
    × (s.files dest ≡ some content)
    × (s.files (dest <> ".part") ≡ none)

module _ (dest : String) (d : Disk) where
  abbrev IsBeside : Disk → Type 0
  IsBeside s = (p : String) → p ≢ dest → IsApart dest p → s.files p ≡ d.files p

  abbrev Kept : Disk → Type 0
  Kept s = (s.files dest ≡ d.files dest) × IsBeside s

  IsSame-Kept : (s : Disk) → IsSame dest d s → Kept s
  IsSame-Kept s same = (same dest (dest-IsApart dest d), λ p h apart. same p apart)

  Kept-Ensures :
      {A : Type 0} {m : Act Disk A}
      → Preserves (IsSame dest d) m
      → Ensures (IsSame dest d) m (λ _. IsSame dest d) Kept
  Kept-Ensures k = Ensures-weaken (Ensures-keeps k) (λ s h. h) (λ a s h. h) IsSame-Kept

  finish_download-Ensures :
      (os : Faults) (sha256 : String → String) (expected : String)
      → Ensures
          (IsSame dest d)
          (finish_download os sha256 dest expected)
          (λ _ s. Landed dest sha256 expected s × IsBeside s)
          Kept
  finish_download-Ensures os sha256 expected = record {
    at = λ s same.
        by_result s same (finish_download os sha256 dest expected s).0
          (finish_download os sha256 dest expected s).1
          (finish_download_lem os sha256 dest expected s);
  }
    where
      by_result :
          (s : Disk) (same : IsSame dest d s) (r : Result Unit) (t : Disk)
          → (r ≡ ok tt
              → (content : String) × (s.files (dest <> ".part") ≡ some content)
                × ((expected ≢ "") → sha256 content ≡ expected)
                × (t.files dest ≡ some content)
                × (t.files (dest <> ".part") ≡ none))
            × (r ≢ ok tt → t.files dest ≡ s.files dest)
            × ((p : String)
                → p ≢ dest
                → p ≢ dest <> ".part"
                → p ≢ dest <> ".state.json"
                → t.files p ≡ s.files p)
          → Post (λ _ s. Landed dest sha256 expected s × IsBeside s) Kept (r, t)
      by_result s same (ok tt) t (good, bad, beside) =
          let (content, there, sum, final, gone) = good refl in
          (
            (content, sum, final, gone),
            λ p h apart. beside p h apart.part apart.state ∙ same p apart,
          )
      by_result s same (err e) t (good, bad, beside) = (
        bad (ground arith) ∙ (IsSame-Kept s same).0,
        λ p h apart. beside p h apart.part apart.state ∙ same p apart,
      )

  download-Ensures :
      (os : Faults) (codec : Codec) (sha256 : String → String) (transfer : Transfer)
      (expected_size : ℕ) (expected : String)
      → Ensures
          (IsSame dest d)
          (download os codec sha256 transfer dest expected_size expected)
          (λ _ s. Landed dest sha256 expected s × IsBeside s)
          Kept
  unfolding download
  download-Ensures os codec sha256 transfer expected_size expected =
      Ensures-bind
        (Kept-Ensures (
          Preserves-wrapped "failed to create destination directory" _
            (IsSame-mkdir_all dest d os)))
        (λ _.
          Ensures-bind
            (Kept-Ensures (
              Preserves-wrapped "failed to initialize download state" _ (
                IsSame-load_state dest d os codec (dest <> ".state.json") (IsOwn-state dest d)
                  (IsOwn-temporary dest d) transfer.chunk_size expected_size)))
            (λ _.
              Ensures-bind
                (Kept-Ensures
                  (Preserves-wrapped "failed to open part file" _ (IsSame-open_part dest d os)))
                (λ _.
                  Ensures-bind
                    (Kept-Ensures (
                      Preserves-wrapped "failed to pre-allocate file" _
                        (IsSame-truncate dest d os transfer.resize expected_size)))
                    (λ _.
                      Ensures-bind
                        (Kept-Ensures (IsSame-happen_all dest d os codec transfer.events))
                        (λ _. finish_download-Ensures os sha256 expected)))))

-- Whatever the workers write, save and fail, in any order: a download that returns no error leaves
-- contents in its destination that have the expected sum, if one is expected, and no part file. One
-- that returns an error leaves the destination as it was. In both cases no other path changes, but for
-- those of the part file, the saved state and its temporary file.
pub download_lem :
    (os : Faults) (codec : Codec) (sha256 : String → String) (transfer : Transfer) (dest : String)
    (expected_size : ℕ) (expected : String) (d : Disk)
    → ((download os codec sha256 transfer dest expected_size expected d).0 ≡ ok tt
        → Landed dest sha256 expected
            (download os codec sha256 transfer dest expected_size expected d).1)
      × ((download os codec sha256 transfer dest expected_size expected d).0 ≢ ok tt
          → (download os codec sha256 transfer dest expected_size expected d).1.files dest
            ≡ d.files dest)
      × ((p : String)
          → p ≢ dest
          → IsApart dest p
          → (download os codec sha256 transfer dest expected_size expected d).1.files p ≡ d.files p)
download_lem os codec sha256 transfer dest expected_size expected d =
    split (download os codec sha256 transfer dest expected_size expected d).0
      (download os codec sha256 transfer dest expected_size expected d).1
      ((download-Ensures dest d os codec sha256 transfer expected_size expected).at d
        (λ p apart. refl))
  where
    split :
        (r : Result Unit) (s : Disk)
        → Post (λ _ s. Landed dest sha256 expected s × IsBeside dest d s) (Kept dest d) (r, s)
        → (r ≡ ok tt → Landed dest sha256 expected s)
          × (r ≢ ok tt → s.files dest ≡ d.files dest)
          × IsBeside dest d s
    split (ok tt) s (landed, beside) = (λ _. landed, λ h. absurd (h refl), beside)
    split (err e) s (kept, beside) = (λ h. absurd (ground (arith, h)), λ _. kept, beside)
