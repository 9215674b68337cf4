-- ===== src/Entry/Ranges.antt =====
-- internal/entry/handler.go: which bytes `handleServeFile` serves, and which page
-- `handleSearchOperations` asks for.
use updater_service.Base.{
  ℕ, ◌+◌, ◌-◌, ◌≤◌, ◌<◌, ℤ, pos, negsuc, leb_ℤ, sub_ℕ, ◌<ℤ◌, min, ◌≡◌, Option, none, some,
  if◌then◌else◌, arith, leb, ◌^◌,
}

pub data Reply : Type 0 where
  whole : ℕ → Reply  -- 200 and the length of the body
  partial : ℕ → ℤ → ℤ → Reply  -- 206, first and last byte of Content-Range, Content-Length
  unsatisfiable : Reply  -- 416

-- `end - start + 1` on int64. An `end` that is not negative is at most the size of the file, as `start`
-- is, so that nothing overflows; from a negative one the difference may wrap around.
unfoldable pub content_length : ℕ → ℤ → ℤ
content_length start (pos end) = sub_ℕ (end + 1) start
content_length start (negsuc n) =
    if leb (n + start) (2 ^ 63) then sub_ℕ 0 (n + start) else pos (2 ^ 64 - (n + start))

unfoldable pub last_byte : ℕ → ℤ → ℤ
last_byte size end = if leb_ℤ (pos size) end then pos (size - 1) else end

-- The Range header is absent, or it is what `fmt.Sscanf` reads from it, if it can.
unfoldable pub serve_range : ℕ → Option (Option (ℤ × ℤ)) → Reply
serve_range size none = whole size
serve_range size (some none) = unsatisfiable
serve_range size (some (some (negsuc n, end))) = unsatisfiable
serve_range size (some (some (pos start, end))) =
    if leb size start
    then unsatisfiable
    else (let last = last_byte size end in partial start last (content_length start last))

-- A range that starts within the file and does not end before its start is served as asked, cut off
-- at the end of the file: the body has at least one byte, and ends at the last byte that the header
-- of the response names.
pub range_served :
    (size start end : ℕ)
    → start < size
    → start ≤ end
    → (length : ℕ) × (serve_range size (some (some (pos start, pos end)))
        ≡ partial start (pos (min end (size - 1))) (pos length))
      × (1 ≤ length)
      × (start + length ≡ min end (size - 1) + 1)
unfolding serve_range last_byte content_length
range_served size start end h k =
    (min end (size - 1) + 1 - start, ground arith, ground arith, ground arith)

-- A range that starts within the file and ends more than one byte before its start is not refused:
-- the response is a 206 with a negative length.
pub backward_range :
    (size start end : ℕ)
    → start < size
    → end + 1 < start
    → (length : ℤ) × (serve_range size (some (some (pos start, pos end)))
        ≡ partial start (pos end) length)
      × (length <ℤ pos 0)
unfolding serve_range last_byte content_length
backward_range size start end h k = (sub_ℕ (end + 1) start, ground arith, ground arith)
