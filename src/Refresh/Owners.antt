-- ===== src/Refresh/Owners.antt =====
-- A request is not stuck with an owner that has died: it is released, and taken again in time.
use rusui.Common.{
  ℕ, zero, suc, ◌+◌, ◌-◌, ◌^◌, ◌≤◌, ◌<◌, min, ◌≡◌, refl, Bool, true, false, ◌&&◌, some, List, [],
  ◌∷◌, String, ok, arith, leb, str_eq, find_where, ◌⊎◌, inl, inr, ◌∙◌, Bool-cases, leb→le,
}
use rusui.Store.{Db}
use rusui.Store.Run.{run_tx-ok}
use rusui.Engine.{minute}
use rusui.Refresh.{Request, queued, failed, Intake, second, refresh_retry_limit}
use rusui.Refresh.Queue.{is_request, find_request, backoff, is_dead, release, expire_refresh_owners}
use rusui.Refresh.Keys.{find_request-update, is_request-keys, find_request_self}
use rusui.Refresh.Moves.{FoundRow}
use rusui.Refresh.Step.{ticket_of, take_row, is_due, is_ready, take_tx, take_request}
use rusui.Refresh.Operations.{take_tx-ready}

pow_positive : (k : ℕ) → 1 ≤ 2 ^ k
pow_positive zero = omega arith
pow_positive (suc k) = omega (arith, pow_positive k)

pow_mono : (k l : ℕ) → k ≤ l → 2 ^ k ≤ 2 ^ l
pow_mono zero l h = pow_positive l
pow_mono (suc k) zero h = omega (arith, h)
pow_mono (suc k) (suc l) h = omega (arith, pow_mono k l (omega (arith, h)))

-- The wait after a failure is at least a second and at most a minute, does not shrink with the number
-- of failures, and is a minute from the seventh on.
pub backoff-bounds :
    (n : ℕ)
    → (second ≤ backoff n)
      × (backoff n ≤ minute)
      × (backoff n ≤ backoff (suc n))
      × (7 ≤ n → backoff n ≡ minute)
backoff-bounds n = (
  omega (arith, pow_positive (min (n - 1) 6)),
  omega arith,
  omega (arith, pow_mono (min (n - 1) 6) (min (suc n - 1) 6) (omega arith)),
  λ h. omega (arith, pow_mono 6 (min (n - 1) 6) (omega (arith, h))),
)

-- A request with an owner that has expired, as `ExpireRefreshOwners` leaves it.
pub record IsReleased (now : ℕ) (r r' : Request) : Type 0 where
  pub no_owner : r'.owner ≡ false
  pub next_generation : r'.generation ≡ r.generation + 1
  pub one_retry : r'.retry_count ≡ r.retry_count + 1
  pub queued_or_failed :
      ((r'.state ≡ queued) × (r'.retry_count < refresh_retry_limit))
      ⊎ ((r'.state ≡ failed) × (refresh_retry_limit ≤ r'.retry_count))
  pub due_in_a_minute : is_due (now + minute) r'.not_before ≡ true

IsReleased-release : (now : ℕ) (r : Request) → IsReleased now r (release now r)
IsReleased-release now r = record {
  no_owner = refl;
  next_generation = refl;
  one_retry = refl;
  queued_or_failed = elim (Bool-cases (leb refresh_retry_limit (r.retry_count + 1))) [
    | inl hit ↦ inr (rw hit refl, leb→le refresh_retry_limit (r.retry_count + 1) hit)
    | inr miss ↦ inl (rw miss refl, ground (arith, miss))
  ];
  due_in_a_minute = ground (arith, (backoff-bounds (r.retry_count + 1)).1);
}

-- A search under a condition that selects only rows of one request finds its row.
find_where-request :
    (repo : String) (item : ℕ) (p : Request → Bool) (rs : List Request) (r : Request)
    → ((x : Request) → p x ≡ true → is_request repo item x ≡ true)
    → find_request repo item rs ≡ some r
    → p r ≡ true
    → find_where p rs ≡ some r
find_where-request repo item p [] r k e h = ground arith
find_where-request repo item p (x ∷ rs) r k e h =
    ground (arith, k x, find_where-request repo item p rs r k)

module _ {Y : Type 0} (now : ℕ) (repo : String) (item : ℕ) (db : Db (Intake Y)) (r : Request) where
  released_row :
      find_request repo item db.rest.requests ≡ some r
      → r.owner ≡ true
      → is_dead now r ≡ true
      → find_request repo item (expire_refresh_owners now db).0.rest.requests ≡ some (release now r)
  unfolding expire_refresh_owners
  released_row e o d =
      find_request-update repo item (λ (x : Request). x.owner && is_dead now x) (release now)
        db.rest.requests (λ x. is_request-keys repo item x (release now x) refl refl) r e
      ∙ rw (o, d) refl

  -- A request whose owner has expired is released by `ExpireRefreshOwners`: it has no owner, the next
  -- generation and one retry more, is queued or, from the fifth retry on, failed, and is due within
  -- a minute.
  pub expire_refresh_owners-IsReleased :
      find_request repo item db.rest.requests ≡ some r
      → r.owner ≡ true
      → is_dead now r ≡ true
      → FoundRow repo item (expire_refresh_owners now db).0.rest.requests (IsReleased now r)
  expire_refresh_owners-IsReleased e o d =
      (release now r, released_row e o d, IsReleased-release now r)

  ready-request :
      0 < item
      → str_eq repo "" ≡ false
      → (x : Request) → is_ready (now + minute) repo item x ≡ true
      → is_request repo item x ≡ true
  ready-request i n x h = ground arith

  ready_again :
      find_request repo item db.rest.requests ≡ some r
      → r.retry_count + 1 < refresh_retry_limit
      → is_ready (now + minute) repo item (release now r) ≡ true
  ready_again e l = ground (
    arith,
    find_request_self repo item db.rest.requests r e,
    (backoff-bounds (r.retry_count + 1)).1,
  )

  -- A request whose owner has expired, with a name and a number and fewer than four retries, is taken
  -- again by a step that asks for it a minute later, under a generation that is later by two.
  pub take_request-released :
      (ttl : ℕ)
      → find_request repo item db.rest.requests ≡ some r
      → r.owner ≡ true
      → is_dead now r ≡ true
      → r.retry_count + 1 < refresh_retry_limit
      → 0 < item
      → str_eq repo "" ≡ false
      → take_request (now + minute) ttl repo item (expire_refresh_owners now db).0 ≡ (
        take_row (now + minute + ttl) (release now r) (expire_refresh_owners now db).0,
        ok (some (ticket_of (release now r))),
      )
  unfolding take_request
  take_request-released ttl e o d l i n =
      let freed = (expire_refresh_owners now db).0 in
      run_tx-ok (take_tx (now + minute) ttl repo item) freed (some (ticket_of (release now r)))
        (take_row (now + minute + ttl) (release now r) freed)
        (take_tx-ready (now + minute) ttl repo item freed (release now r) (
          find_where-request repo item (is_ready (now + minute) repo item) freed.rest.requests
            (release now r) (ready-request i n) (released_row e o d) (ready_again e l)))
