-- ===== src/Downloader/Cover.antt =====
-- The chunks of a new download cover its file.
use updater_service.Base.{
  ℤ, get_elem?, ap, sym, ◌∙◌, Error, ℕ, zero, suc, ◌+◌, ◌-◌, ◌*◌, ◌/◌, ◌<◌, ◌≤◌, ◌≡◌, List, [], ◌∷◌,
  leb, if◌then◌else◌, arith, ◌&&◌, refl, ◌⊎◌, inl, inr, Option, none, some, Result, ok, err, ◌≢◌,
  nat_eq, ◌%◌, ◌^◌, pos, negsuc,
}
use native.Mathlib.Omega.{div_fact, mod_fact}
use native.Mathlib.Nat.{mul_comm, mod-eq_of_lt, mul-le-mul_right, mod-le}
use updater_service.Retry.{signed64}
use updater_service.Downloader.{
  load_or_init_state, init_state, Chunk, chunk_at, chunks_from, chunk_count, quotient, init_chunks,
  total_size,
}

-- In how many of the chunks the byte at `b` is.
abbrev pub covers : ℕ → List Chunk → ℕ
covers b [] = 0
covers b (c ∷ chunks) = (if leb c.start b && leb b c.last then 1 else 0) + covers b chunks

le_cases : (m n : ℕ) → (m ≤ n) ⊎ (n < m)
le_cases zero n = inl (omega arith)
le_cases (suc m) zero = inr (omega arith)
le_cases (suc m) (suc n) = elim (le_cases m n) [
  | inl h ↦ inl (omega (arith, h))
  | inr h ↦ inr (omega (arith, h))
]

next_start : (size i : ℕ) → (i + 1) * size ≡ i * size + size
next_start size i = omega arith

shift_start : (size i left : ℕ) → (i + suc left) * size ≡ (i + 1 + left) * size
shift_start size i left = omega arith

no_start : (size i : ℕ) → (i + 0) * size ≡ i * size
no_start size i = omega arith

-- Rounds that start after the byte do not contain it.
covers_later : (size n b i left : ℕ) → b < i * size → covers b (chunks_from size n i left) ≡ 0
unfolding chunks_from chunk_at
covers_later size n b i zero h = refl
covers_later size n b i (suc left) h =
    let step = next_start size i in
    let later = covers_later size n b (i + 1) left (omega (arith, step, h)) in
    ground (arith, later, h)

-- A byte of the file from the start of round `i` on is in one chunk of the rounds that reach it.
covers_once :
    (size n b i left : ℕ)
    → 0 < size
    → b < n
    → i * size ≤ b
    → b < (i + left) * size
    → covers b (chunks_from size n i left) ≡ 1
unfolding chunks_from chunk_at
covers_once size n b i zero positive inside from to =
    let none_left = no_start size i in absurd (omega (arith, from, to, none_left))
covers_once size n b i (suc left) positive inside from to =
    let step = next_start size i in
    elim (le_cases ((i + 1) * size) b) [
      | inl further ↦
          let shift = shift_start size i left in
          let reach : b < (i + 1 + left) * size = omega (arith, shift, to) in
          let rest = covers_once size n b (i + 1) left positive inside further reach in
          ground (arith, rest, step, further, inside, positive)
      | inr here ↦
          let later = covers_later size n b (i + 1) left here in
          ground (arith, later, step, here, from, inside, positive)
    ]

enough_chunks : (size n : ℕ) → 0 < size → n ≤ (n + size - 1) / size * size
enough_chunks zero n positive = absurd (omega (arith, positive))
enough_chunks (suc k) n positive =
    let whole = div_fact (n + suc k - 1) k in
    let part = mod_fact (n + suc k - 1) k in
    let swap = mul_comm (suc k) ((n + suc k - 1) / suc k) in omega (arith, whole, part, swap)

-- The sum does not wrap if it is an int64.
chunk_count_fits :
    (size n : ℕ) → 0 < size → n + size ≤ 2 ^ 63 → chunk_count size n ≡ pos ((n + size - 1) / size)
unfolding chunk_count quotient signed64
chunk_count_fits size n positive fits =
    let same : (n + size - 1) % 2 ^ 64 ≡ n + size - 1 =
      mod-eq_of_lt (omega (arith, fits, positive)) in
    ground (arith, same, fits, positive)

-- A number of rounds, however the sum wraps: they end within the file and the sum.
rounds_end :
    (size n count : ℕ)
    → 0 < size
    → chunk_count size n ≡ pos count
    → (count * size ≤ n + size - 1) × (count * size < 2 ^ 63)
unfolding chunk_count quotient signed64
rounds_end zero n count positive e = absurd (omega (arith, positive))
rounds_end (suc k) n count positive e =
    let p = (n + suc k - 1) % 2 ^ 64 in
    let less = mod-le (n + suc k - 1) (2 ^ 64) in
    let whole = div_fact p k in
    let part = mod_fact p k in
    let swap = mul_comm (suc k) (p / suc k) in
    elim (le_cases (2 ^ 63) p) [
      | inl big ↦
          let none_left : count ≡ 0 = ground (arith, e, big) in
          let no_end : count * suc k ≡ 0 = rw none_left (omega arith) in
          (omega (arith, no_end), omega (arith, no_end))
      | inr small ↦
          let all : count ≡ p / suc k = ground (arith, e, small) in
          let same : count * suc k ≡ p / suc k * suc k = rw all refl in
          (
            omega (arith, same, whole, part, swap, less),
            omega (arith, same, whole, part, swap, small),
          )
    ]

-- No round that runs wraps.
pub rounds_fit :
    (size n count i : ℕ)
    → 0 < size
    → chunk_count size n ≡ pos count
    → i < count
    → (i * size < n) × (i * size + size - 1 < 2 ^ 63)
rounds_fit size n count i positive e low =
    let (within, fits) = rounds_end size n count positive e in
    let more = next_start size i in
    let all : (i + 1) * size ≤ count * size = mul-le-mul_right size (omega (arith, low)) in
    (omega (arith, within, more, all, positive), omega (arith, fits, more, all, positive))

-- The rounds that make a plan.
pub planned :
    (size n : ℕ) (chunks : List Chunk)
    → init_chunks size n ≡ ok chunks
    → (count : ℕ) × (chunk_count size n ≡ pos count) × (chunks ≡ chunks_from size n 0 count)
unfolding init_chunks
planned size n chunks plan = by_count (chunk_count size n) refl
  where
    by_count :
        (z : ℤ)
        → chunk_count size n ≡ z
        → (count : ℕ) × (chunk_count size n ≡ pos count) × (chunks ≡ chunks_from size n 0 count)
    by_count (pos m) e = (m, e, ground (arith, e, plan))
    by_count (negsuc m) e = absurd (ground (arith, e, plan))

chunk_of_round :
    (size n i left j : ℕ) (c : Chunk)
    → get_elem? (chunks_from size n i left) j ≡ some c
    → (j < left) × (c ≡ chunk_at size n (i + j))
unfolding chunks_from
chunk_of_round size n i zero j c at = absurd (ground arith)
chunk_of_round size n i (suc left) zero c at =
    let same : i + 0 ≡ i = omega arith in (omega arith, rw same (ground (arith, at)))
chunk_of_round size n i (suc left) (suc j) c at =
    let (low, e) = chunk_of_round size n (i + 1) left j c at in
    let same : i + suc j ≡ i + 1 + j = omega arith in (omega (arith, low), rw same e)

-- A chunk of a plan has at least one byte, and ends within the file.
pub planned_within :
    (size n : ℕ) (chunks : List Chunk) (i : ℕ) (c : Chunk)
    → 0 < size
    → init_chunks size n ≡ ok chunks
    → get_elem? chunks i ≡ some c
    → (c.start ≤ c.last) × (c.last < n)
unfolding chunk_at
planned_within size n chunks i c positive plan at =
    let (count, e, made) = planned size n chunks plan in
    let (low, same) = chunk_of_round size n 0 count i c (ap (λ l. get_elem? l i) (sym made) ∙ at) in
    let (inside, fits) = rounds_fit size n count i positive e low in
    ground (arith, same, inside, positive)

-- When no state was saved, or one of a file of another size, and the new state is saved, every byte
-- of the file is in exactly one of the chunks that are downloaded, if chunks are not empty and the size
-- of a chunk and that of the file add up to 2^63 at most.
pub chunks_cover :
    (size n b : ℕ) (read : Result (Option (List Chunk))) (failure : Option Error)
    (chunks : List Chunk)
    → 0 < size
    → n + size ≤ 2 ^ 63
    → b < n
    → ((old : List Chunk) → read ≡ ok (some old) → total_size old ≢ n)
    → load_or_init_state size n read failure ≡ ok chunks
    → covers b chunks ≡ 1
unfolding load_or_init_state init_state init_chunks
chunks_cover size n b read failure chunks positive fits inside other done = by_state read refl done
  where
    count : ℕ
    count = (n + size - 1) / size

    fresh : covers b (chunks_from size n 0 count) ≡ 1
    fresh =
        let enough = enough_chunks size n positive in
        covers_once size n b 0 count positive inside (omega arith) (omega (arith, enough, inside))

    made : init_state size n failure ≡ ok chunks → covers b chunks ≡ 1
    made q = ground (arith, fresh, q, chunk_count_fits size n positive fits)

    by_state :
        (r : Result (Option (List Chunk)))
        → read ≡ r
        → load_or_init_state size n r failure ≡ ok chunks
        → covers b chunks ≡ 1
    by_state (err e) q d = made d
    by_state (ok none) q d = made d
    by_state (ok (some old)) q d = let differs = other old q in made (ground (arith, differs, d))
