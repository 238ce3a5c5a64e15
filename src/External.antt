-- ===== src/External.antt =====
-- The functions of Go's standard library whose grammars are not part of this repository: the parsers
-- of `net/url`, `time` and `encoding/json`. They are parameters of what uses them, and nothing is
-- assumed of them.
use quantum_runtime.Prelude.{String, Bool, Option}

-- The parts of a `*url.URL` that the program reads; `has_user` is `User != nil`.
pub record Url : Type 0 where
  pub scheme : String
  pub host : String
  pub has_user : Bool

pub record External : Type 0 where
  -- `url.Parse`, with `none` for an error.
  pub parse_url : String → Option Url
  -- Whether `time.Parse(time.RFC3339, s)` and `time.Parse("2006-01-02", s)` succeed.
  pub is_rfc3339 : String → Bool
  pub is_date : String → Bool
  -- `json.Valid`, on the raw bytes as a text.
  pub is_json : String → Bool
