-- ===== src/Tests/Upstream.antt =====
-- A ledger with one tested entry and one that is planned.
use mathlib.Core.List.{Memᴰ}
use quantum_runtime.Prelude.{◌≡◌, refl, ◌↔◌, [], ◌∷◌, true, ok, contains}
use quantum_runtime.Prelude.Text.{trim_space}
use quantum_runtime.Samples.{lenient}
use quantum_runtime.Upstream.{
  LedgerEntry, Ledger, is_https, is_tested, check_entry, check_entries, validate_ledger,
  latest_known_good,
}
use quantum_runtime.Upstream.Laws.{IsPinned, latest_known_good-IsPinned}

abbrev tested_entry : LedgerEntry
tested_entry = record {
  id = "llama";
  project = "llama.cpp";
  backend_kind = "llama.cpp";
  source_url = "https://example.org/llama";
  tested_ref = "b100";
  status = "tested";
  observed_at = "2025-01-01T00:00:00Z";
  enabled_capabilities = [];
  disabled_capabilities = [];
  hardware_classes = [];
  license_ref = "MIT";
  notes = "";
}

abbrev ledger : Ledger
ledger = record {
  schema = "quantum.runtime/upstream-ledger/v1alpha1";
  entries = tested_entry ∷ record tested_entry { id = "vllm"; status = "planned" } ∷ [];
}

ledger-valid : validate_ledger lenient ledger ≡ ok tt
unfolding validate_ledger check_entries check_entry is_https trim_space contains
ledger-valid = refl

latest_known_good-IsPinned_example :
    (Memᴰ tested_entry (latest_known_good ledger)
      ↔ (Memᴰ tested_entry ledger.entries × (is_tested tested_entry ≡ true)))
    × (Memᴰ tested_entry (latest_known_good ledger) → IsPinned lenient tested_entry)
latest_known_good-IsPinned_example =
    latest_known_good-IsPinned lenient ledger tested_entry ledger-valid
