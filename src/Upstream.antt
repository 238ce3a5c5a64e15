-- ===== src/Upstream.antt =====
-- The ledger of upstream projects (internal/upstreamledger/ledger.go): its records, its validation, and
-- the entries that are known to be good. `Builtin` decodes an embedded JSON file and is not modelled.
pub mod Laws
use quantum_runtime.Prelude.{
  String, List, [], ◌∷◌, Bool, true, false, not, ◌&&◌, ◌||◌, Option, none, some, Result, ok, err,
  ◌>>=◌, ◌>>◌, fail_if, ◌==◌, string_eq, contains, filter,
}
use quantum_runtime.Prelude.Text.{trim_space, str_leb}
use quantum_runtime.Prelude.Sorting.{sort}
use quantum_runtime.External.{Url, External}

abbrev pub schema_version : String
schema_version = "quantum.runtime/upstream-ledger/v1alpha1"

pub record LedgerEntry : Type 0 where
  pub id : String
  pub project : String
  pub backend_kind : String
  pub source_url : String
  pub tested_ref : String
  pub status : String
  pub observed_at : String
  pub enabled_capabilities : List String
  pub disabled_capabilities : List String
  pub hardware_classes : List String
  pub license_ref : String
  pub notes : String

pub record Ledger : Type 0 where
  pub schema : String
  pub entries : List LedgerEntry

pub data LedgerError : Type 0 where
  schema_mismatch entries_missing identity_required : LedgerError
  entry_duplicated url_invalid : String → LedgerError
  status_invalid : (id status : String) → LedgerError
  observed_at_invalid unpinned : String → LedgerError

abbrev pub statuses : List String
statuses = "tested" ∷ "observed-unpinned" ∷ "planned" ∷ "blocked" ∷ []

unfoldable pub is_https : Option Url → Bool
is_https none = false
is_https (some u) = u.scheme == "https" && not (u.host == "")

abbrev pub is_tested : LedgerEntry → Bool
is_tested e = e.status == "tested"

-- The body of the loop of `Validate`, with the identifiers before the entry.
unfoldable pub check_entry : External → List String → LedgerEntry → Result LedgerError (Unit {0})
check_entry ext seen e = do
  fail_if (trim_space e.id == "" || trim_space e.project == "" || trim_space e.backend_kind == "")
      identity_required
  fail_if (contains seen e.id) (entry_duplicated e.id)
  fail_if (not (is_https (ext.parse_url e.source_url))) (url_invalid e.id)
  fail_if (not (contains statuses e.status)) (status_invalid e.id e.status)
  fail_if (not (e.observed_at == "") && not (ext.is_rfc3339 e.observed_at))
      (observed_at_invalid e.id)
  fail_if
      (is_tested e
        && (trim_space e.tested_ref == "" || e.observed_at == "" || trim_space e.license_ref == ""))
      (unpinned e.id)

unfoldable pub check_entries :
    External → List String → List LedgerEntry → Result LedgerError (Unit {0})
check_entries ext seen [] = ok tt
check_entries ext seen (e ∷ es) = do check_entry ext seen e; check_entries ext (e.id ∷ seen) es

abbrev pub has_entries : List LedgerEntry → Bool
has_entries [] = false
has_entries (e ∷ es) = true

unfoldable pub validate_ledger : External → Ledger → Result LedgerError (Unit {0})
validate_ledger ext l = do
  fail_if (not (l.schema == schema_version)) schema_mismatch
  fail_if (not (has_entries l.entries)) entries_missing
  check_entries ext [] l.entries

abbrev pub entry_leb : LedgerEntry → LedgerEntry → Bool
entry_leb a b = str_leb a.id b.id

-- `LatestKnownGood`.
unfoldable pub latest_known_good : Ledger → List LedgerEntry
latest_known_good l = sort entry_leb (filter is_tested l.entries)
