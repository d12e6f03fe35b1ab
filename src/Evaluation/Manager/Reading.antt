-- ===== src/Evaluation/Manager/Reading.antt =====
-- What `_read` of app/evaluation/service.py makes of the examples of a stored result.
use showcase_host.Prelude.{String, Bool, false, ◌&&◌, Option, none, some, str_eq, if◌then◌else◌}
use showcase_host.Evaluation.Manager.States.{RunRecord}

-- The entry of a key in an object: missing, a string, or another value.
pub data Entry : Type 0 where
  missing other : Entry
  text : String → Entry

pub record Example : Type 0 where
  pub candidate_answer : Entry
  pub raw_response : Entry
  pub response_status : Entry

-- An entry, or the string that takes its place when it is missing.
abbrev or_text : Entry → Entry → Entry
or_text other spare = other
or_text (text t) spare = text t
or_text missing (text t) = text t
or_text missing missing = missing
or_text missing other = missing

abbrev is_empty : Entry → Bool
is_empty missing = false
is_empty other = false
is_empty (text t) = str_eq t ""

-- `setdefault`.
abbrev mark_empty : Entry → Entry
mark_empty missing = text "empty_legacy_response"
mark_empty other = other
mark_empty (text t) = text t

-- The conditions read what the example held before.
unfoldable pub read_example : Example → Example
read_example e = record {
  candidate_answer = or_text e.candidate_answer e.raw_response;
  raw_response = or_text e.raw_response e.candidate_answer;
  response_status =
      if is_empty e.candidate_answer && is_empty e.raw_response
      then mark_empty e.response_status
      else e.response_status;
}

module _ {P : Type 0} (map_examples : (Example → Example) → P → P) where
  unfoldable read_result : Option P → Option P
  unfolding read_example
  read_result none = none
  read_result (some result) = some (map_examples read_example result)

  -- `map_examples` changes each example of a result that is an object.
  unfoldable pub read_row : {Q : Type 0} → RunRecord Q P → RunRecord Q P
  unfolding read_result
  read_row row = record row { result = read_result row.result }
