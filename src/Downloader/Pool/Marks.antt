-- ===== src/Downloader/Pool/Marks.antt =====
-- Steps that take a chunk, mark it complete, or end a worker keep everything sound, and a run does.
use mathlib.Core.Path.{subst}
use updater_service.Base.{
  ℕ, zero, suc, ◌+◌, ◌-◌, true, some, List, [], ◌∷◌, get_elem?, ◌==◌, nat_eq, arith, ◌≡◌, ◌≢◌, ◌⊎◌,
  inl, inr, refl, ap, if◌then◌else◌, ℕ_discrete, Bool-cases,
}
use updater_service.Downloader.{Chunk}
use updater_service.Downloader.Transfer.{Bytes}
use updater_service.Downloader.Pool.{
  Slot, idle, taken, loading, failing, stopped, Pool, stop, complete_at, completed_chunk,
  step_complete, step_take, step_give_up, step_not_saved,
}
use updater_service.Downloader.Pool.Sound.{
  contains, held, IsLoaded, Accounted, IsSound, with_slot-IsLoaded, stop-IsSound,
}
use updater_service.Downloader.Pool.Steps.{if-IsSound}

-- The chunks after one of them is marked.
complete_at-cases :
    (chunks : List Chunk) (i j : ℕ) (c : Chunk)
    → get_elem? (complete_at chunks i) j ≡ some c
    → ((j ≡ i) × (d : Chunk) × (get_elem? chunks i ≡ some d) × (c ≡ completed_chunk d))
      ⊎ ((j ≢ i) × (get_elem? chunks j ≡ some c))
unfolding complete_at
complete_at-cases [] i j c h = absurd (ground arith)
complete_at-cases (d ∷ chunks) zero zero c h = inl (refl, d, refl, ground arith)
complete_at-cases (d ∷ chunks) zero (suc j) c h = inr (ground arith, h)
complete_at-cases (d ∷ chunks) (suc i) zero c h = inr (ground arith, h)
complete_at-cases (d ∷ chunks) (suc i) (suc j) c h = elim (complete_at-cases chunks i j c h) [
  | inl (e, x, at, q) ↦ inl (ap suc e, x, at, q)
  | inr (n, at) ↦ inr (ground (arith, n), at)
]

complete_at-IsLoaded :
    (content file : Bytes) (chunks : List Chunk) (i : ℕ) (s : Slot)
    → IsLoaded content chunks file s
    → IsLoaded content (complete_at chunks i) file s
complete_at-IsLoaded content file chunks i (loading j offset last) old = λ c at.
    elim (complete_at-cases chunks i j c at) [
      | inl (e, d, q, same) ↦
          let known = old d (ground (arith, e, q)) in
          (ground (arith, same, known.0), λ p from to. known.1 p (ground (arith, same, from)) to)
      | inr (n, q) ↦ old c q
    ]
complete_at-IsLoaded content file chunks i idle old = tt
complete_at-IsLoaded content file chunks i (taken j) old = tt
complete_at-IsLoaded content file chunks i (failing j) old = tt
complete_at-IsLoaded content file chunks i stopped old = tt

-- A worker that lets go of chunk `i` leaves the others accounted.
let_go-Accounted :
    (w i j : ℕ) (pool : Pool) (c : Chunk)
    → held (pool.slot w) ≡ some i
    → j ≢ i
    → Accounted pool j c
    → (c.completed ≡ true)
      ⊎ ((contains j pool.queue ≡ true)
          ⊎ (((v : ℕ) × (held (if v == w then idle else pool.slot v) ≡ some j))
              ⊎ (pool.failed ≡ true)))
let_go-Accounted w i j pool c mine differ (inl h) = inl h
let_go-Accounted w i j pool c mine differ (inr (inl h)) = inr (inl h)
let_go-Accounted w i j pool c mine differ (inr (inr (inr h))) = inr (inr (inr h))
let_go-Accounted w i j pool c mine differ (inr (inr (inl (v, h)))) =
    inr (inr (inl (v, ground (arith, mine, differ, h))))

pub step_complete-IsSound :
    (content : Bytes) (w : ℕ) (pool : Pool) (s : Slot)
    → pool.slot w ≡ s
    → IsSound content pool
    → IsSound content (step_complete w s pool)
unfolding step_complete
step_complete-IsSound content w pool (loading i offset last) e sound =
    elim (Bool-cases (last + 1 - offset == 0)) [
      | inr some_left ↦ rw some_left sound
      | inl all ↦ rw all (record {
        filled = λ j c at done p from to. elim (complete_at-cases pool.chunks i j c at) [
          | inl (q, d, was, same) ↦
              let known = mine d was in
              known.1 p (ground (arith, same, from)) (ground (arith, same, known.0, to, all))
          | inr (n, was) ↦ sound.filled j c was done p from to
        ];
        loaded =
            with_slot-IsLoaded content (complete_at pool.chunks i) pool.file w idle pool.slot tt
              (λ v.
                complete_at-IsLoaded content pool.file pool.chunks i (pool.slot v)
                  (sound.loaded v));
        accounted = λ j c at. elim (complete_at-cases pool.chunks i j c at) [
          | inl (q, d, was, same) ↦ inl (ground (arith, same))
          | inr (n, was) ↦
              let_go-Accounted w i j pool c (ground (arith, e)) n (sound.accounted j c was)
        ];
      })
    ]
  where
    mine : IsLoaded content pool.chunks pool.file (loading i offset last)
    mine = subst (λ s. IsLoaded content pool.chunks pool.file s) e (sound.loaded w)
step_complete-IsSound content w pool idle e sound = sound
step_complete-IsSound content w pool (taken i) e sound = sound
step_complete-IsSound content w pool (failing i) e sound = sound
step_complete-IsSound content w pool stopped e sound = sound

pub step_take-IsSound :
    (content : Bytes) (w : ℕ) (pool : Pool) (s : Slot) (queue : List ℕ)
    → pool.slot w ≡ s
    → pool.queue ≡ queue
    → IsSound content pool
    → IsSound content (step_take w s queue pool)
unfolding step_take
step_take-IsSound content w pool idle [] e q sound = sound
step_take-IsSound content w pool idle (i ∷ queue) e q sound = record {
  filled = sound.filled;
  loaded = with_slot-IsLoaded content pool.chunks pool.file w (taken i) pool.slot tt sound.loaded;
  accounted = λ j c at. by_place j c (sound.accounted j c at);
}
  where
    by_place :
        (j : ℕ) (c : Chunk)
        → Accounted pool j c
        → (c.completed ≡ true)
          ⊎ ((contains j queue ≡ true)
              ⊎ (((v : ℕ) × (held (if v == w then taken i else pool.slot v) ≡ some j))
                  ⊎ (pool.failed ≡ true)))
    by_place j c (inl h) = inl h
    by_place j c (inr (inl h)) = elim (ℕ_discrete j i) [
      | yes same ↦ inr (inr (inl (w, ground (arith, same))))
      | no differ ↦ inr (inl (ground (arith, differ, h, q)))
    ]
    by_place j c (inr (inr (inl (v, h)))) = inr (inr (inl (v, ground (arith, e, h))))
    by_place j c (inr (inr (inr h))) = inr (inr (inr h))
step_take-IsSound content w pool (taken i) queue e q sound = sound
step_take-IsSound content w pool (loading i offset last) queue e q sound = sound
step_take-IsSound content w pool (failing i) queue e q sound = sound
step_take-IsSound content w pool stopped queue e q sound = sound

pub step_give_up-IsSound :
    (content : Bytes) (w : ℕ) (pool : Pool) (s : Slot)
    → IsSound content pool
    → IsSound content (step_give_up w s pool)
unfolding step_give_up
step_give_up-IsSound content w pool (taken i) sound = stop-IsSound content w pool sound
step_give_up-IsSound content w pool (failing i) sound = stop-IsSound content w pool sound
step_give_up-IsSound content w pool idle sound = sound
step_give_up-IsSound content w pool (loading i offset last) sound = sound
step_give_up-IsSound content w pool stopped sound = sound

pub step_not_saved-IsSound :
    (content : Bytes) (w : ℕ) (pool : Pool) (s : Slot)
    → IsSound content pool
    → IsSound content (step_not_saved w s pool)
unfolding step_not_saved
step_not_saved-IsSound content w pool (loading i offset last) sound =
    if-IsSound content (last + 1 - offset == 0) (stop w pool) pool
      (stop-IsSound content w pool sound) sound
step_not_saved-IsSound content w pool idle sound = sound
step_not_saved-IsSound content w pool (taken i) sound = sound
step_not_saved-IsSound content w pool (failing i) sound = sound
step_not_saved-IsSound content w pool stopped sound = sound
