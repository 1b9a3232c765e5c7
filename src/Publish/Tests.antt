-- ===== src/Publish/Tests.antt =====
-- An attempt on which the gate of internal/publish/publish.go runs.
use rusui.Common.{ℕ, ◌+◌, ◌≡◌, ◌↔◌, true, false, [], ◌∷◌, Text, codes, pos}
use rusui.Publish.{Attempt, proven, evaluate}
use rusui.Publish.Laws.{IsProof, evaluate-proven}

abbrev one_digit : ℕ → Text
one_digit n = (48 + n) ∷ []

abbrev attempt : Attempt
attempt = record {
  source = record { repo = "o/r"; item = 3; snapshot_hash = "h"; main_sha = "m" };
  candidate = record {
    session_id = 7;
    commit_sha = "c";
    tree_sha = "t";
    ref = codes "refs/heads/rusui/7/fix";
  };
  proof = record {
    command = "make";
    exit_code = pos 0;
    log_digest = "l";
    head_sha = "c";
    base_sha = "m";
    isolated = true;
    had_write_creds = false;
    author_session_id = 7;
    reviewer_session_id = 8;
    repair_count = 3;
    source_snapshot_hash = "h";
    expired = false;
    checks_available = true;
    agent_declared_verified = false;
    policy_mutated = false;
    required_checks_disabled = false;
  };
  action = "open_pr";
  cancelled = false;
}

evaluate-proven_example : (evaluate one_digit attempt ≡ proven) ↔ IsProof one_digit attempt
evaluate-proven_example = evaluate-proven one_digit attempt
