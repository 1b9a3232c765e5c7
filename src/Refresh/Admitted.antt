-- ===== src/Refresh/Admitted.antt =====
-- What an admission leaves: the item's turn at a new revision, whose snapshot is the item.
use rusui.Common.{
  ℕ, ◌+◌, ◌<◌, ◌≡◌, refl, Bool, true, false, ◌&&◌, Option, none, some, List, [], ◌∷◌, ◌++◌, String,
  ok, err, arith, ◌==◌, str_eq, eq_iff, find_where, update_where, max_of, Option-cases, inl, inr,
  subst, sym,
}
use rusui.Store.{Job, Item, SnapshotRow, Db, constraint}
use rusui.Store.Turns.{update_job, set_columns, save_snapshot, is_snapshot}
use rusui.Store.Logic.{Post, Post-weaken, Yields, Yields-weaken, Yields-bind, Yields-return}
use rusui.Policy.{Effective}
use rusui.Refresh.{ReviewSession, Intake, Rooms, outside}
use rusui.Refresh.Queue.{find_session}
use rusui.Refresh.Admit.{
  settled, next_revision, revise_job, put_revision, consume_invalidations, write_revision,
}
use rusui.Refresh.Session.{
  review_job, with_turn, insert_review_session, insert_environment, open_review_session,
  ensure_review_session, insert_turn, stamp_review_tenant,
}

abbrev pub is_review_of : String → ℕ → Job → Bool
is_review_of repo item t = str_eq t.repo repo && (t.item == item && str_eq t.lane "review")

abbrev pub find_review : String → ℕ → List Job → Option Job
find_review repo item = find_where (is_review_of repo item)

abbrev snapshot_row : Item → ℕ → SnapshotRow
snapshot_row it rev = record { repo = it.repo; item = it.item; revision = rev; payload = it }

abbrev put_job : Job → List Job → List Job
put_job j = update_where (λ (t : Job). t.id == j.id) (set_columns j)

find_review-put :
    (repo : String) (item rev : ℕ) (j : Job) (T : List Job)
    → find_review repo item T ≡ some j
    → find_review repo item (put_job (revise_job rev j) T) ≡ some (revise_job rev j)
find_review-put repo item rev j [] e = ground arith
find_review-put repo item rev j (t ∷ T) e = ground (arith, find_review-put repo item rev j T)

find_review-append :
    (repo : String) (item : ℕ) (j : Job) (T : List Job)
    → find_review repo item T ≡ none
    → is_review_of repo item j ≡ true
    → find_review repo item (T ++ (j ∷ [])) ≡ some j
find_review-append repo item j [] e h = rw h refl
find_review-append repo item j (t ∷ T) e h = ground (arith, find_review-append repo item j T)

module _ {Y : Type 0} (it : Item) where
  -- The item's turn, and the snapshot of its pending revision.
  pub record IsAdmitted (j : Job) (db : Db (Intake Y)) : Type 0 where
    pub job_is : find_review it.repo it.item db.turns ≡ some j
    pub has_revision : 0 < j.pending_revision
    pub snapshot_is :
        find_where (is_snapshot it.repo it.item j.pending_revision) db.snapshots
        ≡ some (snapshot_row it j.pending_revision)

  pub record HasTurn (j : Option Job) (db : Db (Intake Y)) : Type 0 where
    pub job_is : find_review it.repo it.item db.turns ≡ j

  record HasSnapshot (j : Option Job) (rev : ℕ) (db : Db (Intake Y)) : Type 0 where
    pub job_is : find_review it.repo it.item db.turns ≡ j
    pub row_is :
        find_where (is_snapshot it.repo it.item rev) db.snapshots ≡ some (snapshot_row it rev)

  Yields-save :
      (j : Option Job) (rev : ℕ)
      → Yields (HasTurn j) (save_snapshot it.repo it.item rev it) (λ _. HasSnapshot j rev)
  unfolding save_snapshot
  Yields-save j rev = record { at = λ db h. ground (arith, (eq_iff it.repo it.repo).1 refl) }

  Yields-update :
      (j : Job) (rev : ℕ)
      → 0 < rev
      → Yields
          (HasSnapshot (some j) rev)
          (update_job (revise_job rev j))
          (λ _. IsAdmitted (revise_job rev j))
  unfolding update_job
  Yields-update j rev l = record {
    at = λ db h. record {
      job_is = find_review-put it.repo it.item rev j db.turns h.job_is;
      has_revision = l;
      snapshot_is = h.row_is;
    };
  }

module _ {Y G : Type 0} (rooms : Rooms Y) (policy : Effective G) (it : Item) where
  Yields-consume :
      (forced : Bool) (j : Option Job)
      → Yields
          (HasTurn it j)
          (consume_invalidations rooms policy forced it.repo it.item)
          (λ _. HasTurn it j)
  unfolding consume_invalidations
  Yields-consume true j = record { at = λ db h. record { job_is = h.job_is } }
  Yields-consume false j = record { at = λ db h. h }

  -- The session of a new turn is the item's.
  abbrev OfItem : ReviewSession → Type 0
  OfItem s = (s.repo ≡ it.repo) × (s.item ≡ it.item)

  Yields-open :
      (rev : ℕ)
      → Yields
          (HasSnapshot it none rev)
          (open_review_session rooms policy it.repo it.item it.item_kind)
          (λ s db. HasSnapshot it none rev db × OfItem s)
  unfolding open_review_session insert_environment insert_review_session
  Yields-open rev =
      Yields-bind {Q = λ environment. HasSnapshot it none rev}
        {m = insert_environment rooms policy it.repo it.item} (record { at = λ db h. ground arith })
        λ environment.
          Yields-bind {Q = λ s db. HasSnapshot it none rev db × OfItem s}
            {m = insert_review_session rooms policy it.repo it.item it.item_kind environment}
            (record { at = λ db h. ground arith })
            λ s.
              Yields-bind {Q = λ _ db. HasSnapshot it none rev db × OfItem s}
                {m = outside (rooms.ensure_session_retention s.id)}
                (record { at = λ db h. ground arith }) λ _. Yields-return s λ db h. h

  find_session-OfItem :
      (ss : List ReviewSession) (s : ReviewSession)
      → find_session it.repo it.item ss ≡ some s
      → OfItem s
  find_session-OfItem [] s e = cc
  find_session-OfItem (x ∷ ss) s e =
      ground (arith, (eq_iff x.repo it.repo).0, find_session-OfItem ss s)

  ensure-found :
      (db : Db (Intake Y)) (s : ReviewSession)
      → find_session it.repo it.item db.rest.sessions ≡ some s
      → ensure_review_session rooms policy it.repo it.item it.item_kind db ≡ ok (s, db)
  unfolding ensure_review_session
  ensure-found db s e = ground arith

  ensure-new :
      (db : Db (Intake Y))
      → find_session it.repo it.item db.rest.sessions ≡ none
      → ensure_review_session rooms policy it.repo it.item it.item_kind db
        ≡ open_review_session rooms policy it.repo it.item it.item_kind db
  unfolding ensure_review_session
  ensure-new db e = ground arith

  Yields-ensure :
      (rev : ℕ)
      → Yields
          (HasSnapshot it none rev)
          (ensure_review_session rooms policy it.repo it.item it.item_kind)
          (λ s db. HasSnapshot it none rev db × OfItem s)
  Yields-ensure rev = record {
    at = λ db h. elim (Option-cases (find_session it.repo it.item db.rest.sessions)) [
      | inl e ↦
          subst (Post λ s next. HasSnapshot it none rev next × OfItem s) (sym (ensure-new db e))
            ((Yields-open rev).at db h)
      | inr (s, e) ↦
          subst (Post λ s next. HasSnapshot it none rev next × OfItem s) (sym (ensure-found db s e))
            (h, find_session-OfItem db.rest.sessions s e)
    ];
  }

  abbrev pub is_taken : ReviewSession → Job → Bool
  is_taken s t = t.session == s.id && str_eq t.lane "review"

  pub insert-free :
      (db : Db (Intake Y)) (s : ReviewSession) (rev : ℕ)
      → find_where (is_taken s) db.turns ≡ none
      → insert_turn rooms policy s rev db ≡ ok (tt, with_turn rooms policy s rev db)
  unfolding insert_turn
  insert-free db s rev e = ground arith

  pub insert-taken :
      (db : Db (Intake Y)) (s : ReviewSession) (rev : ℕ) (t : Job)
      → find_where (is_taken s) db.turns ≡ some t
      → insert_turn rooms policy s rev db ≡ err constraint
  unfolding insert_turn
  insert-taken db s rev t e = ground arith

  abbrev pub AdmittedNew : Db (Intake Y) → Type 0
  AdmittedNew db = (j : Job) × IsAdmitted it j db

  Yields-insert :
      (rev : ℕ) (s : ReviewSession)
      → 0 < rev
      → Yields
          (λ db. HasSnapshot it none rev db × OfItem s)
          (insert_turn rooms policy s rev)
          (λ _ db. AdmittedNew db)
  Yields-insert rev s l = record {
    at = λ db h. elim (Option-cases (find_where (is_taken s) db.turns)) [
      | inl e ↦ subst (Post λ _. AdmittedNew) (sym (insert-free db s rev e)) (
        review_job (max_of (λ (t : Job). t.id) db.turns + 1) s rev,
        record {
          job_is =
              find_review-append it.repo it.item _ db.turns h.0.job_is
                (ground (arith, h.1, (eq_iff s.repo it.repo).1));
          has_revision = l;
          snapshot_is = h.0.row_is;
        },
      )
      | inr (t, e) ↦ subst (Post λ _. AdmittedNew) (sym (insert-taken db s rev t e)) tt
    ];
  }

  Yields-stamp :
      (j : Job)
      → Yields
          (IsAdmitted it j)
          (stamp_review_tenant rooms policy it.repo it.item)
          (λ _. IsAdmitted it j)
  unfolding stamp_review_tenant
  Yields-stamp j = record { at = λ db h. ground arith }

  Yields-put :
      (j : Option Job)
      → Yields
          (HasSnapshot it j (next_revision j))
          (put_revision rooms policy it (next_revision j) j)
          (λ _ db. AdmittedNew db)
  unfolding put_revision
  Yields-put none = Yields-bind (Yields-ensure 1) λ s.
      Yields-bind (Yields-insert 1 s (omega arith)) λ _. record {
        at = λ db h.
            Post-weaken (λ _ next q. (h.0, q)) (stamp_review_tenant rooms policy it.repo it.item db)
              ((Yields-stamp h.0).at db h.1);
      }
  Yields-put (some j) =
      Yields-weaken (λ db h. h) (λ _ db h. (revise_job (j.pending_revision + 1) j, h))
        (Yields-update it j (j.pending_revision + 1) (omega arith))

  pub Yields-write :
      (forced : Bool) (j : Option Job)
      → Yields (HasTurn it j) (write_revision rooms policy it forced j) (λ _ db. AdmittedNew db)
  unfolding write_revision
  Yields-write forced j = Yields-bind (Yields-consume forced j) λ _.
      Yields-bind (Yields-save it j (next_revision j))
        λ _. Yields-bind (Yields-put j) λ _. Yields-return settled λ db h. h
