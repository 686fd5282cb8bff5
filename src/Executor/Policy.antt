-- ===== src/Executor/Policy.antt =====
-- `policyAllows`, `effectiveDryRun` and the payload helpers of internal/executor/executor.go.
use pratc.Base.{
  String, Bool, true, false, ◌||◌, List, [], ◌∷◌, Option, none, some, if◌then◌else◌, str_eq,
  trim_space,
}
use pratc.Model.Kinds.{PolicyProfile, advisory, guarded, autonomous, ActionKind, comment, label}
use pratc.Model.Records.{ActionIntent, PayloadValue, text, texts}
use pratc.Executor.Mutator.{MergeOptions}
use pratc.Executor.Session.{Config}

unfoldable pub effective_dry_run : Config → ActionIntent → Bool
effective_dry_run cfg intent = cfg.dry_run || intent.dry_run

abbrev pub is_unset : ActionKind → Bool
is_unset ActionKind.unset = true
is_unset _ = false

abbrev pub is_talk : ActionKind → Bool
is_talk comment = true
is_talk label = true
is_talk _ = false

-- The switch over `e.cfg.PolicyProfile`.
unfoldable pub profile_allows : PolicyProfile → ActionKind → Option String
profile_allows advisory action = some "advisory policy denies non-dry-run action"
profile_allows PolicyProfile.unset action = some "advisory policy denies non-dry-run action"
profile_allows guarded action = if is_talk action then none else some "guarded policy denies action"
profile_allows autonomous action = none
profile_allows (PolicyProfile.other name) action = some "unknown policy profile"

-- `policyAllows`: the denial, or `none`.
unfoldable pub policy_allows : Config → ActionIntent → Option String
unfolding profile_allows effective_dry_run
policy_allows cfg intent =
    if is_unset intent.action
    then some "action is required"
    else if effective_dry_run cfg intent
    then none
    else profile_allows cfg.policy_profile intent.action

-- `firstString`.
unfoldable pub first_string : List String → String → String
first_string [] fallback = fallback
first_string (value ∷ rest) fallback = if str_eq value "" then first_string rest fallback else value

-- `payload[key]`.
unfoldable pub payload_get : List (String × PayloadValue) → String → Option PayloadValue
payload_get [] key = none
payload_get ((k, v) ∷ rest) key = if str_eq k key then some v else payload_get rest key

abbrev as_text : Option PayloadValue → String
as_text (some (text s)) = s
as_text _ = ""

-- `payload[key].(string)`, with no trimming.
unfoldable pub raw_string : List (String × PayloadValue) → String → String
unfolding payload_get
raw_string payload key = as_text (payload_get payload key)

-- `stringFromPayload`.
unfoldable pub string_from_payload : List (String × PayloadValue) → String → String
unfolding raw_string trim_space
string_from_payload payload key = trim_space (raw_string payload key)

-- `compactStrings`.
unfoldable pub compact_strings : List String → List String
compact_strings [] = []
compact_strings (value ∷ rest) =
    let kept = compact_strings rest in
    if str_eq (trim_space value) "" then kept else trim_space value ∷ kept

abbrev as_texts : Option PayloadValue → List String
as_texts (some (texts ss)) = ss
as_texts _ = []

-- `stringSliceFromPayload`.
unfoldable pub string_slice_from_payload : List (String × PayloadValue) → String → List String
unfolding payload_get compact_strings
string_slice_from_payload payload key = compact_strings (as_texts (payload_get payload key))

-- `mergeOptionsFromPayload`.
unfoldable pub merge_options_from_payload : List (String × PayloadValue) → MergeOptions
unfolding string_from_payload
merge_options_from_payload payload = record {
  commit_title = string_from_payload payload "commit_title";
  commit_message = string_from_payload payload "commit_message";
  merge_method = string_from_payload payload "merge_method";
  expected_head_sha = string_from_payload payload "expected_head_sha";
}
