-- ===== src/Upstream/Laws.antt =====
-- What a valid ledger guarantees of the entries that `LatestKnownGood`
-- (internal/upstreamledger/ledger.go) returns.
use mathlib.Core.List.{Memᴰ}
use text.Mathlib.TextEquality.{eq_iff}
use quantum_runtime.Prelude.{
  String, ◌≡◌, ◌≢◌, ◌↔◌, List, [], ◌∷◌, true, false, ok, ◌==◌, string_eq, filter, filter_sound,
  filter_complete, >>-ok, All, All-at, arith,
}
use quantum_runtime.Prelude.Text.{trim_space}
use quantum_runtime.Prelude.Sorting.{Memᴰ-sort_iff}
use quantum_runtime.External.{External}
use quantum_runtime.Upstream.{
  LedgerEntry, Ledger, is_https, is_tested, check_entry, check_entries, validate_ledger, entry_leb,
  latest_known_good,
}

-- A tested entry names the tested reference, the time in RFC 3339, the licence, and an HTTPS source.
pub record IsPinned (ext : External) (e : LedgerEntry) : Type 0 where
  pub with_ref : trim_space e.tested_ref ≢ ""
  pub with_time : ext.is_rfc3339 e.observed_at ≡ true
  pub with_license : trim_space e.license_ref ≢ ""
  pub with_source : is_https (ext.parse_url e.source_url) ≡ true

not_empty : (s : String) → (s == "") ≡ false → s ≢ ""
not_empty s h same = ground (arith, eq_iff s "")

check_entry-IsPinned :
    (ext : External) (seen : List String) (e : LedgerEntry)
    → check_entry ext seen e ≡ ok tt
    → is_tested e ≡ true
    → IsPinned ext e
unfolding check_entry
check_entry-IsPinned ext seen e h tested = record {
  with_ref = not_empty (trim_space e.tested_ref) (ground (arith, h, tested));
  with_time = ground (arith, h, tested);
  with_license = not_empty (trim_space e.license_ref) (ground (arith, h, tested));
  with_source = ground (arith, h, tested);
}

check_entries-All :
    (ext : External) (seen : List String) (es : List LedgerEntry)
    → check_entries ext seen es ≡ ok tt
    → All (λ e. is_tested e ≡ true → IsPinned ext e) es
unfolding check_entries
check_entries-All ext seen [] h = tt
check_entries-All ext seen (e ∷ es) h =
    let (first, rest) = >>-ok (check_entry ext seen e) (check_entries ext (e.id ∷ seen) es) h in
    (check_entry-IsPinned ext seen e first, check_entries-All ext (e.id ∷ seen) es rest)

validate_ledger-entries :
    (ext : External) (l : Ledger)
    → validate_ledger ext l ≡ ok tt
    → check_entries ext [] l.entries ≡ ok tt
unfolding validate_ledger
validate_ledger-entries ext l h = ground arith

-- `LatestKnownGood` of a ledger that passes validation returns exactly its entries with the status
-- `tested`, and each of them names a tested reference, a time in RFC 3339, a licence and an absolute
-- HTTPS source.
pub latest_known_good-IsPinned :
    (ext : External) (l : Ledger) (e : LedgerEntry)
    → validate_ledger ext l ≡ ok tt
    → (Memᴰ e (latest_known_good l) ↔ (Memᴰ e l.entries × (is_tested e ≡ true)))
      × (Memᴰ e (latest_known_good l) → IsPinned ext e)
unfolding latest_known_good
latest_known_good-IsPinned ext l e h =
    let (from_sort, to_sort) = Memᴰ-sort_iff entry_leb e (filter is_tested l.entries) in
    let pinned = check_entries-All ext [] l.entries (validate_ledger-entries ext l h) in
    (
      (
        λ m. filter_sound is_tested e l.entries (from_sort m),
        λ (listed, tested). to_sort (filter_complete is_tested e l.entries listed tested),
      ),
      λ m.
          let (listed, tested) = filter_sound is_tested e l.entries (from_sort m) in
          All-at (λ x. is_tested x ≡ true → IsPinned ext x) pinned listed tested,
    )
