-- ===== src/Refresh/Leases.antt =====
-- Admission and the lease engine: what an admission does to the turns.
use rusui.Common.{
  ℕ, ◌+◌, ◌≤◌, ◌≡◌, refl, Bool, true, false, Option, none, some, List, [], ◌∷◌, ◌++◌, String, ok,
  arith, ◌==◌, max_of, find_where, Bool-cases, Option-cases, inl, inr, ap, ◌∙◌, subst, sym,
}
use rusui.Store.{Job, Item, Receipt, Db, Tx}
use rusui.Store.Turns.{find_job, count_reviews_today, is_leased}
use rusui.Store.Logic.{
  Post, Post-weaken, Yields, Yields-bind, Yields-if, Yields-weaken, Yields-Keeps, Keeps, Keeps-bind,
  Keeps-return, Keeps-then, Holds,
}
use rusui.Store.Frame.{put, Keeps-save_snapshot, Keeps-load_snapshot, Yields-update_job}
use rusui.Policy.{Effective}
use rusui.Engine.Protocol.{Found}
use rusui.Engine.Refine.Steps.{Replaced-put}
use rusui.Refresh.{ReviewSession, Intake, Rooms, outside}
use rusui.Refresh.Session.{
  review_job, insert_review_session, insert_environment, open_review_session, ensure_review_session,
  insert_turn, stamp_review_tenant,
}
use rusui.Refresh.Admit.{
  Admission, settled, over_budget, next_revision, revise_job, put_revision, consume_invalidations,
  write_revision, within_budget, is_unchanged, admit_changed, admit_eligible, admit_current,
  admit_tx,
}
use rusui.Refresh.Admitted.{find_review, is_taken, insert-free, insert-taken}
use rusui.Refresh.Ways.{
  is_closed, is_other_tenant, is_refused, admit_tx-closed, admit_tx-open, admit_current-other,
  admit_current-refused, admit_current-eligible,
}

-- The turns after an admission: as before, with the item's turn revised, or with a new turn at the end.
pub data Revised (repo : String) (item : ℕ) (T T' : List Job) : Type 0 where
  left : T' ≡ T → Revised repo item T T'
  revised :
      (j : Job) (rev : ℕ)
      → j.pending_revision ≤ rev
      → find_review repo item T ≡ some j
      → T' ≡ put (revise_job rev j) T
      → Revised repo item T T'
  added : (j : Job) → T' ≡ T ++ (j ∷ []) → Revised repo item T T'

module _ {Y G : Type 0} (rooms : Rooms Y) (policy : Effective G) where
  Keeps-open_review_session :
      (repo : String) (item : ℕ) (kind : String)
      → Keeps (open_review_session rooms policy repo item kind)
  unfolding open_review_session insert_environment insert_review_session
  Keeps-open_review_session repo item kind =
      Keeps-bind {m = insert_environment rooms policy repo item}
        (record { at = λ T R db p. ground arith })
        λ environment.
          Keeps-bind {m = insert_review_session rooms policy repo item kind environment}
            (record { at = λ T R db p. ground arith })
            λ s.
              Keeps-bind {m = outside (rooms.ensure_session_retention s.id)}
                (record { at = λ T R db p. ground arith }) λ _. Keeps-return s

  Keeps-ensure_review_session :
      (repo : String) (item : ℕ) (kind : String)
      → Keeps (ensure_review_session rooms policy repo item kind)
  unfolding ensure_review_session
  Keeps-ensure_review_session repo item kind = record {
    at = λ T R db p. ground (arith, (Keeps-open_review_session repo item kind).at T R db p);
  }

  Keeps-stamp_review_tenant :
      (repo : String) (item : ℕ) → Keeps (stamp_review_tenant rooms policy repo item)
  unfolding stamp_review_tenant
  Keeps-stamp_review_tenant repo item = record { at = λ T R db p. ground arith }

  Keeps-consume_invalidations :
      (forced : Bool) (repo : String) (item : ℕ)
      → Keeps (consume_invalidations rooms policy forced repo item)
  unfolding consume_invalidations
  Keeps-consume_invalidations true repo item = record { at = λ T R db p. ground arith }
  Keeps-consume_invalidations false repo item = record { at = λ T R db p. p }

  Keeps-within_budget :
      (it : Item) (day : String) (enforce : Bool)
      → Keeps (within_budget rooms policy it day enforce)
  unfolding within_budget count_reviews_today
  Keeps-within_budget it day false = Keeps-return true
  Keeps-within_budget it day true = record { at = λ T R db p. ground arith }

  Keeps-is_unchanged :
      (it : Item) (forced : Bool) (j : Option Job) → Keeps (is_unchanged rooms policy it forced j)
  unfolding is_unchanged
  Keeps-is_unchanged it forced none = record { at = λ T R db p. p }
  Keeps-is_unchanged it forced (some j) = record {
    at = λ T R db p.
        ground (arith, (Keeps-load_snapshot it.repo it.item j.pending_revision).at T R db p);
  }

  module _ (it : Item) (T : List Job) (R : List Receipt) where
    record IsRevised (db : Db (Intake Y)) : Type 0 where
      pub turns : Revised it.repo it.item T db.turns
      pub receipts_are : db.receipts ≡ R

    Yields-same :
        {A : Type 0} {m : Tx (Intake Y) A} → Keeps m → Yields (Holds T R) m (λ _. IsRevised)
    Yields-same k =
        Yields-weaken (λ db p. p)
          (λ a db p. record { turns = left p.turns_are; receipts_are = p.receipts_are })
          (Yields-Keeps k)

    abbrev fresh : ReviewSession → ℕ → Db (Intake Y) → Job
    fresh s rev db = review_job (max_of (λ (t : Job). t.id) db.turns + 1) s rev

    Yields-insert_turn :
        (s : ReviewSession) (rev : ℕ)
        → Yields (Holds T R) (insert_turn rooms policy s rev) (λ _. IsRevised)
    Yields-insert_turn s rev = record {
      at = λ db p. elim (Option-cases (find_where (is_taken rooms policy it s) db.turns)) [
        | inl e ↦
            subst (Post λ _. IsRevised) (sym (insert-free rooms policy it db s rev e)) (record {
              turns = added (fresh s rev db) (ap (λ ts. ts ++ (fresh s rev db ∷ [])) p.turns_are);
              receipts_are = p.receipts_are;
            })
        | inr (t, e) ↦
            subst (Post λ _. IsRevised) (sym (insert-taken rooms policy it db s rev t e)) tt
      ];
    }

    -- What has been done is left alone.
    Yields-kept : {A : Type 0} {m : Tx (Intake Y) A} → Keeps m → Yields IsRevised m (λ _. IsRevised)
    Yields-kept {m} k = record {
      at = λ db p.
          Post-weaken
            (λ a next h. record {
              turns = rw h.turns_are p.turns;
              receipts_are = h.receipts_are ∙ p.receipts_are;
            })
            (m db)
            (k.at db.turns db.receipts db (record { turns_are = refl; receipts_are = refl }));
    }

    Yields-put_revision :
        (j : Option Job)
        → find_review it.repo it.item T ≡ j
        → Yields (Holds T R) (put_revision rooms policy it (next_revision j) j) (λ _. IsRevised)
    unfolding put_revision
    Yields-put_revision none e =
        Keeps-then (Keeps-ensure_review_session it.repo it.item it.item_kind) λ s.
          Yields-bind (Yields-insert_turn s 1)
            λ _. Yields-kept (Keeps-stamp_review_tenant it.repo it.item)
    Yields-put_revision (some j) e =
        Yields-weaken (λ db p. p)
          (λ a db p. record {
            turns = revised j (j.pending_revision + 1) (omega arith) e p.turns_are;
            receipts_are = p.receipts_are;
          })
          (Yields-update_job T R (revise_job (j.pending_revision + 1) j))

    Yields-write_revision :
        (forced : Bool) (j : Option Job)
        → find_review it.repo it.item T ≡ j
        → Yields (Holds T R) (write_revision rooms policy it forced j) (λ _. IsRevised)
    unfolding write_revision
    Yields-write_revision forced j e =
        Keeps-then (Keeps-consume_invalidations forced it.repo it.item) λ _.
          Keeps-then (Keeps-save_snapshot it.repo it.item (next_revision j) it)
            λ _. Yields-bind (Yields-put_revision j e) λ _. Yields-kept (Keeps-return settled)

    Yields-admit_eligible :
        (day : String) (forced enforce : Bool) (j : Option Job)
        → find_review it.repo it.item T ≡ j
        → Yields (Holds T R) (admit_eligible rooms policy it day forced enforce j) (λ _. IsRevised)
    unfolding admit_eligible admit_changed
    Yields-admit_eligible day forced enforce j e =
        Keeps-then (Keeps-is_unchanged it forced j) λ unchanged.
          Yields-if unchanged (λ _. Yields-same (Keeps-return settled))
            λ _. Keeps-then (Keeps-within_budget it day enforce) λ within.
              Yields-if within (λ _. Yields-write_revision forced j e)
                λ _. Yields-same (Keeps-return over_budget)

    Post-admit_current :
        (day : String) (force enforce : Bool) (j : Option Job) (db : Db (Intake Y))
        → find_review it.repo it.item T ≡ j
        → Holds T R db
        → Post (λ _. IsRevised) (admit_current rooms policy it day force enforce j db)
    Post-admit_current day force enforce j db e p =
        let same : IsRevised db = record {
          turns = left p.turns_are;
          receipts_are = p.receipts_are;
        } in
        elim (Bool-cases (is_other_tenant rooms policy it day j db)) [
          | inl other ↦
              subst (Post λ _. IsRevised)
                (sym (admit_current-other rooms policy it day force enforce db j other)) same
          | inr own ↦ elim (Bool-cases (is_refused rooms policy it day j)) [
            | inl refused ↦
                subst (Post λ _. IsRevised)
                  (sym (admit_current-refused rooms policy it day force enforce db j own refused))
                  same
            | inr taken ↦
                subst (Post λ _. IsRevised)
                  (sym (admit_current-eligible rooms policy it day force enforce db j own taken))
                  ((Yields-admit_eligible day _ enforce j e).at db p)
          ]
        ]

    Post-admit_tx :
        (day : String) (force : Bool) (gen : ℕ) (enforce : Bool) (db : Db (Intake Y))
        → Holds T R db
        → Post (λ _. IsRevised) (admit_tx rooms policy it day force gen enforce db)
    Post-admit_tx day force gen enforce db p =
        elim (Bool-cases (is_closed rooms policy it day gen db)) [
          | inl closed ↦
              subst (Post λ _. IsRevised)
                (sym (admit_tx-closed rooms policy it day force enforce db gen closed))
                (record { turns = left p.turns_are; receipts_are = p.receipts_are })
          | inr opened ↦
              subst (Post λ _. IsRevised)
                (sym (admit_tx-open rooms policy it day force enforce db gen opened))
                (Post-admit_current day force enforce (find_review it.repo it.item db.turns) db
                  (ap (find_review it.repo it.item) (sym p.turns_are)) p)
        ]

-- The lease of a turn is as it was, and its pending revision no lower.
pub record SameLease (j j' : Job) : Type 0 where
  pub generation : j'.lease_generation ≡ j.lease_generation
  pub claimed : j'.claimed_revision ≡ j.claimed_revision
  pub expires : j'.lease_expires_at ≡ j.lease_expires_at
  pub deadline : j'.execution_deadline_at ≡ j.execution_deadline_at
  pub is_leased : is_leased j'.state ≡ is_leased j.state
  pub pending : j.pending_revision ≤ j'.pending_revision

SameLease-refl : (j : Job) → SameLease j j
SameLease-refl j = ground arith

SameLease-revise : (rev : ℕ) (j : Job) → j.pending_revision ≤ rev → SameLease j (revise_job rev j)
SameLease-revise rev j l = ground arith

find_job-append :
    (id : ℕ) (j x : Job) (T : List Job)
    → find_job id T ≡ some j
    → find_job id (T ++ (x ∷ [])) ≡ some j
find_job-append id j x [] e = cc
find_job-append id j x (t ∷ T) e = ground (arith, find_job-append id j x T)

SameLease-Revised :
    (repo : String) (item : ℕ) (T T' : List Job)
    → ((r : Job) → find_review repo item T ≡ some r → find_job r.id T ≡ some r)
    → Revised repo item T T'
    → (id : ℕ) (j : Job) → find_job id T ≡ some j
    → Found id T' (SameLease j)
SameLease-Revised repo item T T' own (left e) id j f = (j, rw e f, SameLease-refl j)
SameLease-Revised repo item T T' own (added x e) id j f =
    (j, rw e (find_job-append id j x T f), SameLease-refl j)
SameLease-Revised repo item T T' own (revised r rev l found e) id j f =
    let p = Replaced-put r (revise_job rev r) T (own r found) refl refl in
    elim (Bool-cases (id == r.id)) [
      | inl hit ↦
          (let same : r ≡ j = ground (arith, own r found, f, hit) in
            (
              revise_job rev r,
              ap (find_job id) e ∙ (p.now_is id ∙ rw hit refl),
              subst (λ k. SameLease k (revise_job rev r)) same (SameLease-revise rev r l),
            ))
      | inr miss ↦ (j, ap (find_job id) e ∙ (p.now_is id ∙ rw miss f), SameLease-refl j)
    ]

-- Admission takes no lease and ends none: if the item's turn is the row of its id, every turn that was
-- there is there after it, with its lease as it was and a pending revision no lower, and no receipt is
-- written.
pub admit_tx-SameLease :
    {Y G : Type 0} (rooms : Rooms Y) (policy : Effective G) (it : Item) (day : String)
    (force : Bool) (gen : ℕ) (enforce : Bool) (db next : Db (Intake Y)) (a : Admission)
    → ((r : Job) → find_review it.repo it.item db.turns ≡ some r → find_job r.id db.turns ≡ some r)
    → admit_tx rooms policy it day force gen enforce db ≡ ok (a, next)
    → (next.receipts ≡ db.receipts)
      × ((id : ℕ) (j : Job) → find_job id db.turns ≡ some j → Found id next.turns (SameLease j))
admit_tx-SameLease rooms policy it day force gen enforce db next a own h =
    let done = subst (Post λ _. IsRevised rooms policy it db.turns db.receipts) h (
      Post-admit_tx rooms policy it db.turns db.receipts day force gen enforce db
        (record { turns_are = refl; receipts_are = refl })) in
    (
      done.receipts_are,
      λ id j f. SameLease-Revised it.repo it.item db.turns next.turns own done.turns id j f,
    )
