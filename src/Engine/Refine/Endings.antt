-- ===== src/Engine/Refine/Endings.antt =====
-- How a lease ends, with a receipt or without, whatever becomes of the job in hand.
use rusui.Common.{◌+◌, ◌≤◌, ◌≡◌, ◌≢◌, refl, ◌⊎◌, none, some, List, ◌∷◌, arith}
use rusui.Store.{leased, Job, Receipt, Kind, Payload}
use rusui.Store.Turns.{find_job, find_receipt, set_columns}
use rusui.Store.Frame.{put, stamp}
use rusui.Engine.Protocol.{Replaced, lapse, ends, Outcome, silent, ended}
use rusui.Engine.Refine.Steps.{Replaced-put}

-- A job in hand while its lease ends: as it was read, or with its generation bumped and its attempt
-- counted.
pub record InHand (j k : Job) : Type 0 where
  pub same_turn : k.id ≡ j.id
  pub claim_kept : k.claimed_revision ≡ j.claimed_revision
  pub revision_kept : k.pending_revision ≡ j.pending_revision
  pub bumped :
      (k.lease_generation ≡ j.lease_generation) ⊎ (k.lease_generation ≡ j.lease_generation + 1)
  pub settable : set_columns k j ≡ k

-- A turn after its lease.
pub record Released (j j' : Job) : Type 0 where
  pub not_leased : j'.state ≢ leased
  pub claim : j'.claimed_revision ≡ j.claimed_revision
  pub generation : j'.lease_generation ≡ j.lease_generation
  pub revision : j.pending_revision ≤ j'.pending_revision
  pub columns : set_columns j' j ≡ j'
  pub same_id : j'.id ≡ j.id

module _ (T : List Job) (R : List Receipt) (j k j' : Job) (found : find_job j.id T ≡ some j)
    (held : j.state ≡ leased) (in_hand : InHand j k) (released : Released k j') where
  replaced : Replaced j j' T (put j' T)
  replaced = Replaced-put j j' T found (ground arith) (ground arith)

  pub ending :
      (kind : Kind) (payload : Payload)
      → find_receipt j.id j.lease_generation j.claimed_revision R ≡ none
      → Outcome T R (put j' T) (stamp j j.lease_generation j.claimed_revision kind payload ∷ R)
  ending kind payload fresh =
      ended j j' kind payload replaced
        (ends held released.not_leased (ground arith) (ground arith) (ground arith)) fresh refl

  pub lapsing : k.lease_generation ≡ j.lease_generation + 1 → Outcome T R (put j' T) R
  lapsing bump =
      silent j j' replaced
        (lapse held released.not_leased (ground arith) (ground arith) (ground arith)) refl
