-- ===== src/Approval/Tier2/Allowed.antt =====
-- When the review of qu-e lets an operation through.
use taka_ma.Common.{
  ◌≡◌, ℕ, Bool, true, false, not, ◌&&◌, ◌||◌, Text, arith, nat_eq, list_eq, option_eq,
}
use taka_ma.Approval.Tier2.{
  Run, timed_out, exited, Parsed, refused, verdict, call_sentinel, is_approval, review,
}

-- The process ended well and printed a verdict that approves.
abbrev pub approves : (Text → Parsed) → Run → Bool
approves parse (exited true out err) = elim (parse out) [
  | verdict d ↦ is_approval d
  | refused e ↦ false
]
approves parse _ = false

abbrev pub is_timeout : Run → Bool
is_timeout timed_out = true
is_timeout _ = false

-- An operation is allowed exactly where the first attempt approves it, or times out and the second
-- one approves it; in every other case, errors and a second timeout included, the decision is not
-- to allow but to ask a human.
pub review_lem :
    (parse : Text → Parsed) (seconds : Text) (runs : ℕ → Run)
    → let allowed = approves parse (runs 1) || (is_timeout (runs 1) && approves parse (runs 2)) in
      ((review parse seconds runs).allow ≡ allowed)
      × ((review parse seconds runs).escalate ≡ not allowed)
unfolding review call_sentinel
review_lem parse seconds runs = ground arith
