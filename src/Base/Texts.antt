-- ===== src/Base/Texts.antt =====
-- Texts that are built by `+` from others.
use Prim.Native.Nat.{◌<◌}
use Prim.Native.String.{String, len, ◌++◌ as ◌<>◌}
use mathlib.Core.Path.{ap}
use mathlib.Core.Logic.{◌≢◌}
use native.Mathlib.Omega.{arith}
use text.Mathlib.TextPositions.{len-append}

-- A path with a suffix is another path.
pub suffix_ne : (s t : String) → 0 < len t → s <> t ≢ s
suffix_ne s t h e = absurd (omega (arith, ap len e, len-append s t))

-- Suffixes of different lengths give different paths.
pub suffixes_ne : (s t u : String) → len t < len u → s <> t ≢ s <> u
suffixes_ne s t u h e = absurd (omega (arith, h, ap len e, len-append s t, len-append s u))

-- A path with two suffixes is another path.
pub suffixed_ne : (s t u : String) → 0 < len t → (s <> t) <> u ≢ s
suffixed_ne s t u h e = absurd (omega (arith, h, ap len e, len-append (s <> t) u, len-append s t))
