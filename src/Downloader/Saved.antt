-- ===== src/Downloader/Saved.antt =====
-- internal/filetransfer/downloader.go: what the file of the saved state holds after `saveStateFile` and
-- `markChunkComplete`.
use updater_service.Downloader.Pool.{complete_at, completed_chunk}
use updater_service.Downloader.Finish.{read_file}
use updater_service.Base.{
  ◌∙◌, ltb→lt, ap, get_elem?, refl, zero, suc, true, [], ◌∷◌, length, ◌<◌, String, ℕ, some, List,
  ok, ◌>>=◌, ◌≡◌, ◌≢◌, arith, pure, raise, nat_eq, suffix_ne, Result-cases, Option-cases, inl, inr,
  string_eq,
}
use updater_service.Disk.{Disk, Faults, create_file, close_file, rename, remove, syscall, stat}
use updater_service.Downloader.{Chunk}
use updater_service.Downloader.State.{
  Codec, read_state_file, mark_chunk_complete, save_state_file, encode_to,
}

save_state_file_lem :
    (os : Faults) (codec : Codec) (path : String) (chunks : List Chunk) (d : Disk)
    → ((save_state_file os codec path chunks d).0 ≡ ok tt
        → (json : String) × (codec.encode chunks ≡ ok json)
          × ((save_state_file os codec path chunks d).1.files path ≡ some json))
      × ((save_state_file os codec path chunks d).0 ≢ ok tt
          → (save_state_file os codec path chunks d).1.files path ≡ d.files path)
unfolding save_state_file create_file encode_to close_file rename remove syscall stat ◌>>=◌ raise
save_state_file_lem os codec path chunks d =
    let apart = suffix_ne path ".tmp" (omega arith) in
    elim (Result-cases (codec.encode chunks)) [
      | inl (json, e) ↦
          ((λ r. (json, e, ground (arith, apart, e, r))), (λ r. ground (arith, apart, e, r)))
      | inr (x, e) ↦
          ((λ r. absurd (ground (arith, apart, e, r))), (λ r. ground (arith, apart, e, r)))
    ]

read_state_file-frame :
    (os : Faults) (codec : Codec) (path p : String) (d : Disk)
    → (read_state_file os codec path d).1.files p ≡ d.files p
unfolding read_state_file read_file syscall ◌>>=◌ raise pure
read_state_file-frame os codec path p d = ground arith

read_state_file_lem :
    (os : Faults) (codec : Codec) (path : String) (chunks : List Chunk) (d : Disk)
    → (read_state_file os codec path d).0 ≡ ok (some chunks)
    → (json : String) × (d.files path ≡ some json) × (codec.decode json ≡ ok chunks)
unfolding read_state_file read_file syscall ◌>>=◌ raise pure
read_state_file_lem os codec path chunks d e = elim (Option-cases (d.files path)) [
  | inl absent ↦ absurd (ground (arith, absent, e))
  | inr (json, there) ↦ (json, there, ground (arith, there, e))
]

-- The chunks of `after` are those of `before`, but for the one of index `i`, which is there and is now
-- completed.
abbrev pub IsMarked : ℕ → List Chunk → List Chunk → Type 0
IsMarked i before after =
    (c : Chunk) × (get_elem? before i ≡ some c)
    × (get_elem? after i
        ≡ some (record { index = c.index; start = c.start; last = c.last; completed = true }))
    × ((j : ℕ) → j ≢ i → get_elem? after j ≡ get_elem? before j)

complete_at-IsMarked :
    (chunks : List Chunk) (i : ℕ) → i < length chunks → IsMarked i chunks (complete_at chunks i)
unfolding complete_at completed_chunk
complete_at-IsMarked [] i h = absurd (omega (arith, h))
complete_at-IsMarked (c ∷ chunks) zero h = (c, refl, refl, λ j k. others j k)
  where
    others : (j : ℕ) → j ≢ 0 → get_elem? (complete_at (c ∷ chunks) 0) j ≡ get_elem? (c ∷ chunks) j
    others zero k = absurd (k refl)
    others (suc j) k = refl
complete_at-IsMarked (c ∷ chunks) (suc i) h =
    let (d, there, marked, same) = complete_at-IsMarked chunks i (omega (arith, h)) in
    (d, there, marked, λ j k. others same j k)
  where
    others :
        ((j : ℕ) → j ≢ i → get_elem? (complete_at chunks i) j ≡ get_elem? chunks j)
        → (j : ℕ) → j ≢ suc i
        → get_elem? (complete_at (c ∷ chunks) (suc i)) j ≡ get_elem? (c ∷ chunks) j
    others same zero k = refl
    others same (suc j) k = same j (λ e. k (ap suc e))

-- If a state that is encoded decodes to itself: a call that returns no error leaves a saved state that
-- differs from the one before in that the chunk of this index, which it has, is completed. One that
-- returns an error leaves the file of the state as it was.
pub mark_chunk_complete_lem :
    (os : Faults) (codec : Codec) (path : String) (i : ℕ) (d : Disk)
    → ((state : List Chunk) (json : String)
        → codec.encode state ≡ ok json
        → codec.decode json ≡ ok state)
    → ((mark_chunk_complete os codec path i d).0 ≡ ok tt
        → (before after : List Chunk) × (old new : String) × (d.files path ≡ some old)
          × (codec.decode old ≡ ok before)
          × ((mark_chunk_complete os codec path i d).1.files path ≡ some new)
          × (codec.decode new ≡ ok after)
          × IsMarked i before after)
      × ((mark_chunk_complete os codec path i d).0 ≢ ok tt
          → (mark_chunk_complete os codec path i d).1.files path ≡ d.files path)
unfolding mark_chunk_complete ◌>>=◌ raise
mark_chunk_complete_lem os codec path i d law =
    let found = read_state_file os codec path d in
    let frame = read_state_file-frame os codec path path d in
    elim (Result-cases found.0) [
      | inr (x, e) ↦ (λ r. absurd (ground (arith, e, r)), λ r. ground (arith, e, r, frame))
      | inl (state, e) ↦ elim (Option-cases state) [
        | inl n ↦ (λ r. absurd (ground (arith, e, n, r)), λ r. ground (arith, e, n, r, frame))
        | inr (chunks, n) ↦
            let (good, bad) = save_state_file_lem os codec path (complete_at chunks i) found.1 in
            let (before, there, decoded) =
              read_state_file_lem os codec path chunks d (e ∙ ap ok n) in
            (
              λ r.
                  let h = ltb→lt i (length chunks) (ground (arith, e, n, r)) in
                  let (after, encoded, saved) = good (ground (arith, e, n, r)) in
                  (
                    chunks,
                    complete_at chunks i,
                    before,
                    after,
                    there,
                    decoded,
                    ground (arith, e, n, saved, h),
                    law (complete_at chunks i) after encoded,
                    complete_at-IsMarked chunks i h,
                  ),
              λ r. ground (arith, e, n, r, frame, bad),
            )
      ]
    ]
