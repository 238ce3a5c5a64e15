-- ===== src/Tests/Limits.antt =====
-- The smallest positive of three CPU counts.
use mathlib.Core.List.{Memᴰ}
use quantum_runtime.Prelude.{◌≡◌, ◌⊎◌, List, [], ◌∷◌}
use quantum_runtime.Prelude.Int.{ℤ, pos, ◌≤ℤ◌}
use quantum_runtime.Host.Limits.{positive_min}
use quantum_runtime.Host.Limits.Least.{positive_min-least}

abbrev counts : List ℤ
counts = pos 16 ∷ pos 0 ∷ pos 12 ∷ []

positive_min-least_example :
    ((positive_min counts ≡ pos 0) ⊎ Memᴰ (positive_min counts) counts)
    × ((v : ℤ)
        → Memᴰ v counts
        → pos 1 ≤ℤ v
        → (pos 1 ≤ℤ positive_min counts) × (positive_min counts ≤ℤ v))
positive_min-least_example = positive_min-least counts
