-- ===== src/Downloader/Options.antt =====
-- internal/filetransfer/downloader.go: `NewDownloader`, with the settings that cmd/worker/main.go gives.
use updater_service.Base.{
  ◌*◌, ◌<◌, ℤ, pos, negsuc, pos_part, leb_ℤ, ltb_ℤ, ◌≤ℤ◌, ◌<ℤ◌, if◌then◌else◌, arith,
}
use updater_service.Config.Size.{codes, parse_size}
use updater_service.Config.Settings.{ApplicationConfig}

-- The fields of `Downloader` that are numbers.
pub record Options : Type 0 where
  pub chunk_size : ℤ
  pub concurrency : ℤ
  pub max_retries : ℤ
  pub retry_base : ℤ
  pub retry_max : ℤ

unfoldable pub new_downloader : ℤ → ℤ → ℤ → Options
new_downloader chunk_size concurrency max_retries = record {
  chunk_size = if leb_ℤ chunk_size (pos 0) then pos (64 * 1024 * 1024) else chunk_size;
  concurrency = if leb_ℤ concurrency (pos 0) then pos 4 else concurrency;
  max_retries = if ltb_ℤ max_retries (pos 0) then pos 3 else max_retries;
  retry_base = pos 1000000000;
  retry_max = pos 60000000000;
}

-- The downloader that the worker's `main` makes.
unfoldable pub worker_downloader : ApplicationConfig → Options
worker_downloader c =
    new_downloader (parse_size (codes c.file.download_chunk_size)) c.file.download_concurrency
      c.file.download_max_retries

positive_part : (k : ℤ) → pos 0 <ℤ k → 0 < pos_part k
positive_part (pos n) h = ground (arith, h)
positive_part (negsuc n) h = absurd (ground (arith, h))

new_downloader_positive :
    (a b c : ℤ)
    → (pos 0 <ℤ (new_downloader a b c).chunk_size)
      × (pos 0 <ℤ (new_downloader a b c).concurrency)
      × (pos 0 ≤ℤ (new_downloader a b c).max_retries)
unfolding new_downloader
new_downloader_positive a b c = ground arith

pub worker_chunk_positive : (c : ApplicationConfig) → 0 < pos_part (worker_downloader c).chunk_size
unfolding worker_downloader
worker_chunk_positive c =
    positive_part (worker_downloader c).chunk_size
      (new_downloader_positive (parse_size (codes c.file.download_chunk_size))
        c.file.download_concurrency c.file.download_max_retries).0
