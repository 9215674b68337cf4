-- ===== src/Tests/Settings.antt =====
-- internal/config: a size of twenty gibibytes.
use updater_service.Base.{◌*◌, ◌^◌, ◌≡◌, ◌++◌, pos, refl, arith}
use updater_service.Config.Size.{codes, gib, parse_size}
use updater_service.Config.Size.Units.{value, gibibytes, parse_size_lem}

parse_size_lem_example : parse_size (codes "20" ++ gib) ≡ pos (value 0 (codes "20") * 2 ^ 30)
parse_size_lem_example =
    parse_size_lem (codes "20") gibibytes (ground arith) (refl, (refl, tt)) (omega arith)
