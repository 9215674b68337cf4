-- ===== src/Downloader/Pool/Sound.antt =====
-- What holds of the part file, the saved state and the workers at every step.
use updater_service.Base.{
  ℕ, ◌≤◌, ◌<◌, Bool, true, false, ◌||◌, Option, none, some, List, [], ◌∷◌, get_elem?, ◌==◌, nat_eq,
  arith, ◌≡◌, ◌⊎◌, inl, inr, refl, if◌then◌else◌, ℕ_discrete, ite,
}
use updater_service.Downloader.{Chunk}
use updater_service.Downloader.Transfer.{Bytes}
use updater_service.Downloader.Pool.{
  Slot, idle, taken, loading, failing, stopped, Pool, with_slot, with_file, stop,
}

abbrev pub contains : ℕ → List ℕ → Bool
contains i [] = false
contains i (j ∷ queue) = i == j || contains i queue

-- The chunk that a worker has.
abbrev pub held : Slot → Option ℕ
held idle = none
held (taken i) = some i
held (loading i offset last) = some i
held (failing i) = some i
held stopped = none

-- A worker in the loop over a body has written its chunk up to its offset.
abbrev pub IsLoaded : Bytes → List Chunk → Bytes → Slot → Type 0
IsLoaded content chunks file (loading i offset last) =
    (c : Chunk)
    → get_elem? chunks i ≡ some c
    → (c.last ≡ last) × ((p : ℕ) → c.start ≤ p → p < offset → file p ≡ content p)
IsLoaded content chunks file _ = Unit

-- A chunk is complete, or it waits in the queue, or a worker has it, or an error is returned.
abbrev pub Accounted : Pool → ℕ → Chunk → Type 0
Accounted pool i c =
    (c.completed ≡ true)
    ⊎ ((contains i pool.queue ≡ true)
        ⊎ (((w : ℕ) × (held (pool.slot w) ≡ some i)) ⊎ (pool.failed ≡ true)))

pub record IsSound (content : Bytes) (pool : Pool) : Type 0 where
  pub filled :
      (i : ℕ) (c : Chunk)
      → get_elem? pool.chunks i ≡ some c
      → c.completed ≡ true
      → (p : ℕ) → c.start ≤ p
      → p ≤ c.last
      → pool.file p ≡ content p
  pub loaded : (w : ℕ) → IsLoaded content pool.chunks pool.file (pool.slot w)
  pub accounted : (i : ℕ) (c : Chunk) → get_elem? pool.chunks i ≡ some c → Accounted pool i c

-- A slot that changes.
pub with_slot-IsLoaded :
    (content : Bytes) (chunks : List Chunk) (file : Bytes) (w : ℕ) (s : Slot) (slot : ℕ → Slot)
    → IsLoaded content chunks file s
    → ((v : ℕ) → IsLoaded content chunks file (slot v))
    → (v : ℕ) → IsLoaded content chunks file (if v == w then s else slot v)
with_slot-IsLoaded content chunks file w s slot new old v =
    elim (ℕ_discrete v w)
      as (λ d. IsLoaded content chunks file (if (ite d true false) then s else slot v)) [
        | yes e ↦ new
        | no n ↦ old v
      ]

-- A worker that keeps its chunk keeps it accounted.
pub with_slot-Accounted :
    (w : ℕ) (s : Slot) (pool : Pool) (j : ℕ) (c : Chunk)
    → held s ≡ held (pool.slot w)
    → Accounted pool j c
    → Accounted (with_slot w s pool) j c
with_slot-Accounted w s pool j c same (inl h) = inl h
with_slot-Accounted w s pool j c same (inr (inl h)) = inr (inl h)
with_slot-Accounted w s pool j c same (inr (inr (inr h))) = inr (inr (inr h))
with_slot-Accounted w s pool j c same (inr (inr (inl (v, h)))) =
    inr (inr (inl (v, ground (arith, same, h))))

pub with_slot-IsSound :
    (content : Bytes) (w : ℕ) (s : Slot) (pool : Pool)
    → held s ≡ held (pool.slot w)
    → IsLoaded content pool.chunks pool.file s
    → IsSound content pool
    → IsSound content (with_slot w s pool)
with_slot-IsSound content w s pool same new sound = record {
  filled = sound.filled;
  loaded = with_slot-IsLoaded content pool.chunks pool.file w s pool.slot new sound.loaded;
  accounted = λ j c at. with_slot-Accounted w s pool j c same (sound.accounted j c at);
}

pub grow-IsLoaded :
    (content : Bytes) (chunks : List Chunk) (file file' : Bytes) (s : Slot)
    → ((p : ℕ) → file p ≡ content p → file' p ≡ content p)
    → IsLoaded content chunks file s
    → IsLoaded content chunks file' s
grow-IsLoaded content chunks file file' (loading i offset last) keeps old =
    λ c at. let known = old c at in (known.0, λ p from to. keeps p (known.1 p from to))
grow-IsLoaded content chunks file file' idle keeps old = tt
grow-IsLoaded content chunks file file' (taken i) keeps old = tt
grow-IsLoaded content chunks file file' (failing i) keeps old = tt
grow-IsLoaded content chunks file file' stopped keeps old = tt

pub with_file-IsSound :
    (content file : Bytes) (pool : Pool)
    → ((p : ℕ) → pool.file p ≡ content p → file p ≡ content p)
    → IsSound content pool
    → IsSound content (with_file file pool)
with_file-IsSound content file pool keeps sound = record {
  filled = λ i c at done p from to. keeps p (sound.filled i c at done p from to);
  loaded =
      λ w. grow-IsLoaded content pool.chunks pool.file file (pool.slot w) keeps (sound.loaded w);
  accounted = sound.accounted;
}

pub stop-IsSound :
    (content : Bytes) (w : ℕ) (pool : Pool) → IsSound content pool → IsSound content (stop w pool)
stop-IsSound content w pool sound = record {
  filled = sound.filled;
  loaded = with_slot-IsLoaded content pool.chunks pool.file w stopped pool.slot tt sound.loaded;
  accounted = λ j c at. inr (inr (inr refl));
}
