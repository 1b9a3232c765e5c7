-- ===== src/Refresh/Again.antt =====
-- Admission takes one of five ways, and an item that is admitted again opens no other revision.
use rusui.Common.{
  ℕ, ◌≡◌, ◌≢◌, refl, Bool, true, false, ◌&&◌, Option, none, some, String, ok, arith, ltb, eq_iff,
  Bool-cases, Result-cases, inl, inr, ap, ◌∙◌, subst, sym,
}
use rusui.Store.{Job, Item, Db}
use rusui.Store.Turns.{load_snapshot, count_reviews_today}
use rusui.Store.Logic.{Post, Post-weaken, Yields, Yields-bind, Yields-if, Yields-return}
use rusui.Policy.{Effective}
use rusui.Refresh.{Intake, Rooms}
use rusui.Refresh.Admit.{
  Admission, settled, over_budget, count_invalidated, within_budget, is_unchanged, write_revision,
  admit_changed, admit_eligible, admit_current, admit_tx,
}
use rusui.Refresh.Ways.{
  is_closed, is_other_tenant, is_refused, admit_tx-closed, admit_tx-open, admit_current-other,
  admit_current-refused, admit_current-eligible, admit_eligible-unchanged, admit_eligible-changed,
  admit_eligible-err,
}
use rusui.Refresh.Admitted.{find_review, IsAdmitted, HasTurn, Yields-write}

over_budget-settled : over_budget ≢ settled
over_budget-settled e = cc

module _ {Y G : Type 0} (rooms : Rooms Y) (policy : Effective G) (it : Item) (day : String) where
  -- The unchanged test reads; without force it still says so.
  is_unchanged-reads :
      (forced b : Bool) (j : Option Job) (db next : Db (Intake Y))
      → is_unchanged rooms policy it forced j db ≡ ok (b, next)
      → next ≡ db
  unfolding is_unchanged load_snapshot
  is_unchanged-reads forced b none db next h = ground arith
  is_unchanged-reads forced b (some j) db next h = ground arith

  is_unchanged-unforced :
      (forced : Bool) (j : Option Job) (db : Db (Intake Y))
      → is_unchanged rooms policy it forced j db ≡ ok (true, db)
      → is_unchanged rooms policy it false j db ≡ ok (true, db)
  unfolding is_unchanged load_snapshot
  is_unchanged-unforced true none db h = ground arith
  is_unchanged-unforced true (some j) db h = ground arith
  is_unchanged-unforced false j db h = h

  is_unchanged-IsAdmitted :
      (j : Job) (db : Db (Intake Y))
      → IsAdmitted it j db
      → is_unchanged rooms policy it false (some j) db ≡ ok (true, db)
  unfolding is_unchanged load_snapshot
  is_unchanged-IsAdmitted j db h = ground (
    arith,
    h.has_revision,
    h.snapshot_is,
    (eq_iff (rooms.item_hash it) (rooms.item_hash it)).1 refl,
  )

  -- An admission without force that settles here changes nothing.
  pub record IsSettled (gen : ℕ) (enforce : Bool) (db : Db (Intake Y)) : Type 0 where
    pub settles : admit_tx rooms policy it day false gen enforce db ≡ ok (settled, db)

  abbrev Again : ℕ → Bool → Admission → Db (Intake Y) → Type 0
  Again gen enforce a db = a ≡ settled → IsSettled gen enforce db

  module _ (gen : ℕ) (enforce : Bool) where
    IsSettled-IsAdmitted :
        (j : Job) (db : Db (Intake Y)) → IsAdmitted it j db → IsSettled gen enforce db
    IsSettled-IsAdmitted j db h = record {
      settles = elim (Bool-cases (is_closed rooms policy it day gen db)) [
        | inl closed ↦ admit_tx-closed rooms policy it day false enforce db gen closed
        | inr opened ↦
            admit_tx-open rooms policy it day false enforce db gen opened
            ∙ rw h.job_is (elim (Bool-cases (is_other_tenant rooms policy it day (some j) db)) [
              | inl other ↦ admit_current-other rooms policy it day false enforce db (some j) other
              | inr own ↦
                  admit_current-eligible rooms policy it day false enforce db (some j) own
                    (ground (arith, h.has_revision))
                  ∙ admit_eligible-unchanged rooms policy it day false enforce db false (some j) db
                      (is_unchanged-IsAdmitted j db h)
            ])
      ];
    }

    Yields-within :
        (j : Option Job) (b : Bool)
        → Yields (HasTurn it j) (within_budget rooms policy it day b) (λ _. HasTurn it j)
    unfolding within_budget count_reviews_today
    Yields-within j true = record { at = λ db h. ground arith }
    Yields-within j false = record { at = λ db h. h }

    Again-changed :
        (forced : Bool) (j : Option Job)
        → Yields
            (HasTurn it j)
            (admit_changed rooms policy it day forced enforce j)
            (Again gen enforce)
    unfolding admit_changed
    Again-changed forced j =
        Yields-bind {Q = λ within. HasTurn it j} (Yields-within j enforce) λ within.
          Yields-if within
            (λ _. record {
              at = λ db h.
                  Post-weaken (λ a next q e. IsSettled-IsAdmitted q.0 next q.1)
                    (write_revision rooms policy it forced j db)
                    ((Yields-write rooms policy it forced j).at db h);
            })
            (λ _. Yields-return over_budget λ db h e. absurd (over_budget-settled e))

    Again-eligible :
        (forced : Bool) (db : Db (Intake Y)) (j : Option Job)
        → find_review it.repo it.item db.turns ≡ j
        → is_closed rooms policy it day gen db ≡ false
        → is_other_tenant rooms policy it day j db ≡ false
        → is_refused rooms policy it day j ≡ false
        → Post (Again gen enforce) (admit_eligible rooms policy it day forced enforce j db)
    Again-eligible forced db j e opened own taken =
        elim (Result-cases (is_unchanged rooms policy it forced j db)) [
          | inl ((b, next), h) ↦ Again-tested b next h (is_unchanged-reads forced b j db next h)
          | inr (x, h) ↦
              subst (Post (Again gen enforce))
                (sym (admit_eligible-err rooms policy it day true enforce db forced j x h)) tt
        ]
      where
        Again-tested :
            (b : Bool) (next : Db (Intake Y))
            → is_unchanged rooms policy it forced j db ≡ ok (b, next)
            → next ≡ db
            → Post (Again gen enforce) (admit_eligible rooms policy it day forced enforce j db)
        Again-tested true next h r =
            let quiet = h ∙ ap (λ (d : Db (Intake Y)). ok (true, d)) r in
            subst (Post (Again gen enforce))
              (sym (admit_eligible-unchanged rooms policy it day true enforce db forced j db quiet))
              λ _. record {
                settles =
                    admit_tx-open rooms policy it day false enforce db gen opened
                    ∙ (ap (λ (k : Option Job). admit_current rooms policy it day false enforce k db)
                          e
                        ∙ (admit_current-eligible rooms policy it day false enforce db j own taken
                            ∙ admit_eligible-unchanged rooms policy it day true enforce db false j
                                db (is_unchanged-unforced forced j db quiet)));
              }
        Again-tested false next h r =
            let quiet = h ∙ ap (λ (d : Db (Intake Y)). ok (false, d)) r in
            subst (Post (Again gen enforce))
              (sym (admit_eligible-changed rooms policy it day true enforce db forced j db quiet))
              ((Again-changed forced j).at db (record { job_is = e }))

    Again-current :
        (force : Bool) (db : Db (Intake Y)) (j : Option Job)
        → find_review it.repo it.item db.turns ≡ j
        → is_closed rooms policy it day gen db ≡ false
        → Post (Again gen enforce) (admit_current rooms policy it day force enforce j db)
    Again-current force db j e opened =
        elim (Bool-cases (is_other_tenant rooms policy it day j db)) [
          | inl other ↦
              subst (Post (Again gen enforce))
                (sym (admit_current-other rooms policy it day force enforce db j other))
                λ _. record {
                  settles =
                      reached ∙ admit_current-other rooms policy it day false enforce db j other;
                }
          | inr own ↦ elim (Bool-cases (is_refused rooms policy it day j)) [
            | inl refused ↦
                subst (Post (Again gen enforce))
                  (sym (admit_current-refused rooms policy it day force enforce db j own refused))
                  λ h. record {
                    settles =
                        reached
                        ∙ (admit_current-refused rooms policy it day false enforce db j own refused
                            ∙ ap (λ (a : Admission). ok (a, db)) h);
                  }
            | inr taken ↦
                subst (Post (Again gen enforce))
                  (sym (admit_current-eligible rooms policy it day force enforce db j own taken))
                  (Again-eligible
                    (force && ltb 0 (count_invalidated rooms policy it.repo it.item db)) db j e
                    opened own taken)
          ]
        ]
      where
        reached :
            admit_tx rooms policy it day false gen enforce db
            ≡ admit_current rooms policy it day false enforce j db
        reached =
            admit_tx-open rooms policy it day false enforce db gen opened
            ∙ ap (λ (k : Option Job). admit_current rooms policy it day false enforce k db) e

    Again-admit_tx :
        (force : Bool) (db : Db (Intake Y))
        → Post (Again gen enforce) (admit_tx rooms policy it day force gen enforce db)
    Again-admit_tx force db = elim (Bool-cases (is_closed rooms policy it day gen db)) [
      | inl closed ↦
          subst (Post (Again gen enforce))
            (sym (admit_tx-closed rooms policy it day force enforce db gen closed))
            λ _. record {
              settles = admit_tx-closed rooms policy it day false enforce db gen closed;
            }
      | inr opened ↦
          subst (Post (Again gen enforce))
            (sym (admit_tx-open rooms policy it day force enforce db gen opened))
            (Again-current force db (find_review it.repo it.item db.turns) refl opened)
    ]

  -- An item that has been admitted is not admitted again: the same item, without force, at the same
  -- generation and under the same enforcement of the budget, changes nothing.
  pub admit_tx-again :
      (force : Bool) (gen : ℕ) (enforce : Bool) (db next : Db (Intake Y))
      → admit_tx rooms policy it day force gen enforce db ≡ ok (settled, next)
      → admit_tx rooms policy it day false gen enforce next ≡ ok (settled, next)
  admit_tx-again force gen enforce db next h =
      (subst (Post (Again gen enforce)) h (Again-admit_tx gen enforce force db) refl).settles
