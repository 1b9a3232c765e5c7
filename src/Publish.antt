-- ===== src/Publish.antt =====
-- internal/publish/publish.go: the gate between a candidate commit and its publication. Session ids are
-- numbers, and `format_int` is Go's `strconv.FormatInt` to base ten.
pub mod Refs
pub mod Laws
pub mod Tests
use rusui.Common.{
  ℕ, Bool, true, false, ◌&&◌, ◌||◌, not, List, [], ◌∷◌, ◌++◌, String, if◌then◌else◌, ◌==◌, ltb,
  str_eq, Text, codes, text_eq, starts_with, has_part, trim_prefix, ℤ, is_zero,
}

abbrev pub max_repair : ℕ
max_repair = 3

pub data Outcome : Type 0 where
  denied cancelled source_drift checks_unavailable ambiguous proven : Outcome

pub record Source : Type 0 where
  pub repo : String
  pub item : ℕ
  pub snapshot_hash : String
  pub main_sha : String

pub record Candidate : Type 0 where
  pub session_id : ℕ
  pub commit_sha : String
  pub tree_sha : String
  pub ref : Text

pub record Proof : Type 0 where
  pub command : String
  pub exit_code : ℤ
  pub log_digest : String
  pub head_sha : String
  pub base_sha : String
  pub isolated : Bool
  pub had_write_creds : Bool
  pub author_session_id : ℕ
  pub reviewer_session_id : ℕ
  pub repair_count : ℕ
  pub source_snapshot_hash : String
  pub expired : Bool
  pub checks_available : Bool
  pub agent_declared_verified : Bool
  pub policy_mutated : Bool
  pub required_checks_disabled : Bool

pub record Attempt : Type 0 where
  pub source : Source
  pub candidate : Candidate
  pub proof : Proof
  pub action : String
  pub cancelled : Bool

unfoldable pub permitted : String → Bool
permitted action = str_eq action "open_pr" || str_eq action "update_pr"

module _ (format_int : ℕ → Text) where
  abbrev pub wanted_prefix : ℕ → Text
  wanted_prefix session = codes "refs/heads/rusui/" ++ (format_int session ++ codes "/")

  -- `refOK(c) == nil`.
  unfoldable pub ref_ok : Candidate → Bool
  ref_ok c =
      let want = wanted_prefix c.session_id in
      let rest = trim_prefix want c.ref in
      not (c.session_id == 0)
      && ((starts_with want c.ref && not (text_eq c.ref want))
          && (not (has_part (codes "..") rest) && not (has_part (codes "//") rest)))

  unfoldable pub evaluate : Attempt → Outcome
  unfolding permitted ref_ok
  evaluate a =
      let p = a.proof in
      if a.cancelled
      then cancelled
      else if not (permitted a.action)
      then denied
      else if p.had_write_creds
          || (p.agent_declared_verified || (p.policy_mutated || p.required_checks_disabled))
      then denied
      else if not p.isolated
      then denied
      else if p.expired
      then denied
      else if ltb max_repair p.repair_count
      then denied
      else if str_eq a.source.repo ""
          || (str_eq a.source.snapshot_hash "" || str_eq a.candidate.commit_sha "")
      then denied
      else if not (ref_ok a.candidate)
      then denied
      else if not (str_eq p.source_snapshot_hash a.source.snapshot_hash)
      then source_drift
      else if not (str_eq p.head_sha a.candidate.commit_sha)
      then ambiguous
      else if not (is_zero p.exit_code)
      then denied
      else if not p.checks_available
      then checks_unavailable
      else if p.reviewer_session_id == 0 || p.reviewer_session_id == p.author_session_id
      then denied
      else if not (p.author_session_id == 0) && not (p.author_session_id == a.candidate.session_id)
      then denied
      else proven
