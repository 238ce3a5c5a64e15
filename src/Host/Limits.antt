-- ===== src/Host/Limits.antt =====
-- The limits of the process (internal/hostlimits/limits.go): the record, its validation, the list of
-- CPUs in the kernel's format, and the smallest positive of several counts. The quota, a float of
-- which only the sign is read, is an integer in a small unit; the collection time is left out.
pub mod Least
use Prim.Native.Nat.{suc}
use quantum_runtime.Prelude.{
  ℕ, zero, ◌+◌, ◌-◌, String, List, [], ◌∷◌, Bool, true, false, not, ◌&&◌, Option, none, some,
  Result, ok, err, ◌>>=◌, ◌>>◌, fail_if, ltb, leb, nat_eqb, nat_eq, ◌==◌, string_eq, if◌then◌else◌,
  length, contains, filter,
}
use quantum_runtime.Prelude.Int.{ℤ, pos, negsuc, ltb_ℤ, leb_ℤ}
use quantum_runtime.Prelude.Text.{trim_space, split_on, cut_at, all_chars, is_digit, digits_value}
use quantum_runtime.Prelude.Sorting.{sort}

abbrev pub schema_version : String
schema_version = "quantum.runtime/host-limits/v1alpha1"

pub record Virtualization : Type 0 where
  pub guest : Bool
  pub kind : String
  pub evidence : String

pub record Limits : Type 0 where
  pub schema : String
  pub effective_logical_cpus : ℤ
  pub affinity_cpu_list : String
  pub affinity_logical_cpus : ℤ
  pub cgroup_cpu_set : String
  pub cgroup_cpu_set_logical_cpus : ℤ
  pub cpu_quota_cores : ℤ
  pub virtualization : Virtualization
  pub warnings : List String

pub data LimitsError : Type 0 where
  unexpected_schema cpus_not_positive quota_negative : LimitsError

unfoldable pub validate_limits : Limits → Result LimitsError (Unit {0})
validate_limits l = do
  fail_if (not (l.schema == schema_version)) unexpected_schema
  fail_if (ltb_ℤ l.effective_logical_cpus (pos 1)) cpus_not_positive
  fail_if (ltb_ℤ l.cpu_quota_cores (pos 0)) quota_negative

pub data CpuListError : Type 0 where
  invalid_range invalid_cpu list_empty : CpuListError

-- `strconv.Atoi`: an optional sign and digits, within 64 bits.
abbrev digits : String → Option ℕ
digits s = if not (s == "") && all_chars is_digit s then some (digits_value 0 s) else none

abbrev signed : Bool → Option ℕ → Option ℤ
signed negative none = none
signed true (some n) =
    if leb n 9223372036854775808 then some (if n == 0 then pos 0 else negsuc (n - 1)) else none
signed false (some n) = if ltb n 9223372036854775808 then some (pos n) else none

atoi_sign : ℕ → String → String → Option ℤ
unfolding all_chars digits_value
atoi_sign c rest whole =
    if nat_eqb c b'-'
    then signed true (digits rest)
    else if nat_eqb c b'+'
    then signed false (digits rest)
    else signed false (digits whole)

unfoldable pub atoi : String → Option ℤ
unfolding atoi_sign
atoi String.[] = none
atoi (String.◌∷◌ c s) = atoi_sign (Prim.Native.Char.code c) s (String.◌∷◌ c s)

-- `set[cpu] = struct{}{}`.
unfoldable pub add_cpu : ℕ → List ℕ → List ℕ
unfolding contains
add_cpu cpu set = if contains set cpu then set else cpu ∷ set

-- `for cpu := start; cpu <= end; cpu++`, by the number of rounds.
unfoldable pub add_range : ℕ → ℕ → List ℕ → List ℕ
unfolding add_cpu
add_range zero start set = set
add_range (suc n) start set = add_range n (start + 1) (add_cpu start set)

-- The bounds of a range; a bound that is negative or no number, or an end below the start, is an
-- error. The start stands before the first dash and so has no minus sign.
abbrev add_bounds : Option ℤ → Option ℤ → List ℕ → Result CpuListError (List ℕ)
add_bounds (some (pos start)) (some (pos end)) set =
    if ltb end start then err invalid_range else ok (add_range (end - start + 1) start set)
add_bounds _ _ set = err invalid_range

abbrev add_single : Option ℤ → List ℕ → Result CpuListError (List ℕ)
add_single (some (pos cpu)) set = ok (add_cpu cpu set)
add_single _ set = err invalid_cpu

add_part_cut : String → String × Option String → List ℕ → Result CpuListError (List ℕ)
add_part_cut part (start, some end) set =
    add_bounds (atoi (trim_space start)) (atoi (trim_space end)) set
add_part_cut part (before, none) set = add_single (atoi part) set

-- The loop body of `countCPUList`, on a trimmed part.
unfoldable pub add_part : String → List ℕ → Result CpuListError (List ℕ)
unfolding add_part_cut cut_at
add_part part set = if part == "" then ok set else add_part_cut part (cut_at b'-' part) set

unfoldable pub add_parts : List String → List ℕ → Result CpuListError (List ℕ)
add_parts [] set = ok set
add_parts (part ∷ parts) set = do set' ← add_part (trim_space part) set; add_parts parts set'

unfoldable pub count_cpu_list : String → Result CpuListError ℕ
count_cpu_list value = do
  set ← add_parts (split_on b',' (trim_space value)) []
  fail_if (length set == 0) list_empty
  ok (length set)

-- `positiveMin`: the smallest of the positive values, and 0 if there is none.
unfoldable pub positives : List ℤ → List ℤ
positives values = filter (λ v. ltb_ℤ (pos 0) v) values

abbrev pub first_or_zero : List ℤ → ℤ
first_or_zero [] = pos 0
first_or_zero (v ∷ vs) = v

unfoldable pub positive_min : List ℤ → ℤ
positive_min values = first_or_zero (sort leb_ℤ (positives values))
