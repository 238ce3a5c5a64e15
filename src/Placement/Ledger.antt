-- ===== src/Placement/Ledger.antt =====
-- The books of an allocation (internal/placement/placement.go): what the two allocators keep of the
-- tiers' capacities and of the sums over the plan's classes.
use Prim.Native.Nat.{min}
use quantum_runtime.Prelude.{
  ℕ, ◌+◌, ◌-◌, ◌≤◌, ◌<◌, ◌≡◌, inl, inr, List, [], ◌∷◌, ◌++◌, true, false, ◌==◌, nat_eq, leb, leb→le,
  ltb, ltb→lt, if◌then◌else◌, arith, Bool-cases,
}
use quantum_runtime.Prelude.Words.{u64_mod}
use quantum_runtime.Placement.Types.{
  Class, hybrid_candidate, Tier, ram, vram, nvme, unplaced, ClassPlacement, tier_rank, class_rank,
  tier_bytes, class_bytes,
}
use quantum_runtime.Placement.Allocate.{
  placed, Allocation, put_vram, put_ram, put_unplaced, allocate_whole, split_vram, split_ram,
  split_rest, allocate_split,
}

pub tier_bytes-append :
    (t : Tier) (cs ds : List ClassPlacement)
    → tier_bytes t (cs ++ ds) ≡ tier_bytes t cs + tier_bytes t ds
unfolding tier_bytes
tier_bytes-append t [] ds = omega arith
tier_bytes-append t (c ∷ cs) ds = omega (arith, tier_bytes-append t cs ds)

pub class_bytes-append :
    (k : Class) (cs ds : List ClassPlacement)
    → class_bytes k (cs ++ ds) ≡ class_bytes k cs + class_bytes k ds
unfolding class_bytes
class_bytes-append k [] ds = omega arith
class_bytes-append k (c ∷ cs) ds = omega (arith, class_bytes-append k cs ds)

-- One placement more on the list.
pub tier_bytes_snoc :
    (t u : Tier) (k : Class) (b : ℕ) (cs : List ClassPlacement)
    → tier_bytes t (cs ++ placed k u b ∷ [])
      ≡ tier_bytes t cs + (if tier_rank u == tier_rank t then b else 0)
unfolding tier_bytes
tier_bytes_snoc t u k b cs = omega (arith, tier_bytes-append t cs (placed k u b ∷ []))

pub class_bytes_snoc :
    (k j : Class) (t : Tier) (b : ℕ) (cs : List ClassPlacement)
    → class_bytes k (cs ++ placed j t b ∷ [])
      ≡ class_bytes k cs + (if class_rank j == class_rank k then b else 0)
unfolding class_bytes
class_bytes_snoc k j t b cs = omega (arith, class_bytes-append k cs (placed j t b ∷ []))

-- The books at the capacities `v` of VRAM and `r` of RAM and an NVMe budget `n`: each counter is the sum over its tier and leaves the rest
-- remaining, and the flag says whether some bytes found no tier.
pub record IsBalanced (v r n : ℕ) (a : Allocation) : Type 0 where
  pub undecided : a.plan.decision ≡ hybrid_candidate
  pub nvme_fresh : a.plan.nvme.assigned_bytes ≡ 0
  pub nvme_budget : a.plan.nvme.available_bytes ≡ n
  pub vram_available : a.plan.vram.available_bytes ≡ v
  pub ram_available : a.plan.ram.available_bytes ≡ r
  pub vram_kept : a.plan.vram.assigned_bytes + a.remaining_vram ≡ v
  pub ram_kept : a.plan.ram.assigned_bytes + a.remaining_ram ≡ r
  pub vram_sum : tier_bytes vram a.plan.classes ≡ a.plan.vram.assigned_bytes
  pub ram_sum : tier_bytes ram a.plan.classes ≡ a.plan.ram.assigned_bytes
  pub nvme_unused : tier_bytes nvme a.plan.classes ≡ 0
  pub all_placed : a.is_unplaced ≡ false → tier_bytes unplaced a.plan.classes ≡ 0
  pub some_unplaced : a.is_unplaced ≡ true → 0 < tier_bytes unplaced a.plan.classes

module _ {v r n : ℕ} (v_word : v < u64_mod) (r_word : r < u64_mod) where
  put_vram-IsBalanced :
      (k : Class) (b : ℕ) (a : Allocation)
      → IsBalanced v r n a
      → b ≤ a.remaining_vram
      → IsBalanced v r n (put_vram k b a)
  put_vram-IsBalanced k b a h fits = ground (
    arith,
    tier_bytes_snoc ram vram k b a.plan.classes,
    tier_bytes_snoc vram vram k b a.plan.classes,
    tier_bytes_snoc nvme vram k b a.plan.classes,
    tier_bytes_snoc unplaced vram k b a.plan.classes,
  )

  put_ram-IsBalanced :
      (k : Class) (b : ℕ) (a : Allocation)
      → IsBalanced v r n a
      → b ≤ a.remaining_ram
      → IsBalanced v r n (put_ram k b a)
  put_ram-IsBalanced k b a h fits = ground (
    arith,
    tier_bytes_snoc ram ram k b a.plan.classes,
    tier_bytes_snoc vram ram k b a.plan.classes,
    tier_bytes_snoc nvme ram k b a.plan.classes,
    tier_bytes_snoc unplaced ram k b a.plan.classes,
  )

  put_unplaced-IsBalanced :
      (k : Class) (b : ℕ) (a : Allocation)
      → IsBalanced v r n a
      → 0 < b
      → IsBalanced v r n (put_unplaced k b a)
  put_unplaced-IsBalanced k b a h some_bytes = ground (
    arith,
    tier_bytes_snoc ram unplaced k b a.plan.classes,
    tier_bytes_snoc vram unplaced k b a.plan.classes,
    tier_bytes_snoc nvme unplaced k b a.plan.classes,
    tier_bytes_snoc unplaced unplaced k b a.plan.classes,
  )

  pub allocate_whole-IsBalanced :
      (k : Class) (b : ℕ) (a : Allocation)
      → IsBalanced v r n a
      → IsBalanced v r n (allocate_whole k b a)
  unfolding allocate_whole
  allocate_whole-IsBalanced k b a h = elim (Bool-cases (b == 0)) [
    | inl none_left ↦ rw none_left h
    | inr more ↦ elim (Bool-cases (leb b a.remaining_vram)) [
      | inl in_vram ↦ rw (more, in_vram) (put_vram-IsBalanced k b a h (leb→le _ _ in_vram))
      | inr no_vram ↦ elim (Bool-cases (leb b a.remaining_ram)) [
        | inl in_ram ↦ rw (more, no_vram, in_ram) (put_ram-IsBalanced k b a h (leb→le _ _ in_ram))
        | inr no_ram ↦ rw (more, no_vram, no_ram) (put_unplaced-IsBalanced k b a h (ground arith))
      ]
    ]
  ]

  split_vram-IsBalanced :
      (k : Class) (b : ℕ) (a : Allocation)
      → IsBalanced v r n a
      → IsBalanced v r n (split_vram k b a)
  unfolding split_vram
  split_vram-IsBalanced k b a h = elim (Bool-cases (ltb 0 (min b a.remaining_vram))) [
    | inl some_fit ↦ rw some_fit (put_vram-IsBalanced k _ a h (omega arith))
    | inr none_fit ↦ rw none_fit h
  ]

  split_ram-IsBalanced :
      (k : Class) (b : ℕ) (a : Allocation) → IsBalanced v r n a → IsBalanced v r n (split_ram k b a)
  unfolding split_ram
  split_ram-IsBalanced k b a h = elim (Bool-cases (ltb 0 (min b a.remaining_ram))) [
    | inl some_fit ↦ rw some_fit (put_ram-IsBalanced k _ a h (omega arith))
    | inr none_fit ↦ rw none_fit h
  ]

  split_rest-IsBalanced :
      (k : Class) (b : ℕ) (a : Allocation)
      → IsBalanced v r n a
      → IsBalanced v r n (split_rest k b a)
  unfolding split_rest
  split_rest-IsBalanced k b a h = elim (Bool-cases (ltb 0 b)) [
    | inl more ↦ rw more (put_unplaced-IsBalanced k b a h (ltb→lt _ _ more))
    | inr none_left ↦ rw none_left h
  ]

  pub allocate_split-IsBalanced :
      (k : Class) (b : ℕ) (a : Allocation)
      → IsBalanced v r n a
      → IsBalanced v r n (allocate_split k b a)
  unfolding allocate_split
  allocate_split-IsBalanced k b a h = elim (Bool-cases (b == 0)) [
    | inl nothing ↦ rw nothing h
    | inr more ↦
        rw more
          (split_rest-IsBalanced k _ _ (split_ram-IsBalanced k _ _ (split_vram-IsBalanced k b a h)))
  ]

-- `b` bytes where the class is the one asked about, and 0 elsewhere.
abbrev pub of_class : Class → Class → ℕ → ℕ
of_class k j b = if class_rank j == class_rank k then b else 0

pub class_bytes-allocate_whole :
    (k j : Class) (b : ℕ) (a : Allocation)
    → class_bytes k (allocate_whole j b a).plan.classes
      ≡ class_bytes k a.plan.classes + of_class k j b
unfolding allocate_whole
class_bytes-allocate_whole k j b a = ground (
  arith,
  class_bytes_snoc k j vram b a.plan.classes,
  class_bytes_snoc k j ram b a.plan.classes,
  class_bytes_snoc k j unplaced b a.plan.classes,
)

class_bytes-split_vram :
    (k j : Class) (b : ℕ) (a : Allocation)
    → class_bytes k (split_vram j b a).plan.classes
      ≡ class_bytes k a.plan.classes + of_class k j (min b a.remaining_vram)
unfolding split_vram
class_bytes-split_vram k j b a =
    ground (arith, class_bytes_snoc k j vram (min b a.remaining_vram) a.plan.classes)

class_bytes-split_ram :
    (k j : Class) (b : ℕ) (a : Allocation)
    → class_bytes k (split_ram j b a).plan.classes
      ≡ class_bytes k a.plan.classes + of_class k j (min b a.remaining_ram)
unfolding split_ram
class_bytes-split_ram k j b a =
    ground (arith, class_bytes_snoc k j ram (min b a.remaining_ram) a.plan.classes)

class_bytes-split_rest :
    (k j : Class) (b : ℕ) (a : Allocation)
    → class_bytes k (split_rest j b a).plan.classes ≡ class_bytes k a.plan.classes + of_class k j b
unfolding split_rest
class_bytes-split_rest k j b a = ground (arith, class_bytes_snoc k j unplaced b a.plan.classes)

pub class_bytes-allocate_split :
    (k j : Class) (b : ℕ) (a : Allocation)
    → class_bytes k (allocate_split j b a).plan.classes
      ≡ class_bytes k a.plan.classes + of_class k j b
unfolding allocate_split
class_bytes-allocate_split k j b a =
    let in_vram = split_vram j b a in
    let rest : ℕ = b - min b a.remaining_vram in
    ground (
      arith,
      class_bytes-split_vram k j b a,
      class_bytes-split_ram k j rest in_vram,
      class_bytes-split_rest k j (rest - min rest in_vram.remaining_ram) (split_ram j rest in_vram),
    )
