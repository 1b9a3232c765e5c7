-- ===== src/Refresh/Keys.antt =====
-- The requests of the queue by their keys: the row that is found, and the table's UNIQUE constraint.
use rusui.Common.{
  ℕ, ◌≡◌, refl, Bool, true, false, none, some, List, [], ◌∷◌, String, arith, if◌then◌else◌,
  find_where, update_where, str_eq, eq_iff, Bool-cases, inl, inr, ◌∙◌, ap,
}
use rusui.Refresh.{Request}
use rusui.Refresh.Queue.{is_request, find_request, new_request}

-- A row that is found is of its request.
pub find_request_self :
    (repo : String) (item : ℕ) (rs : List Request) (r : Request)
    → find_request repo item rs ≡ some r
    → is_request repo item r ≡ true
find_request_self repo item [] r e = cc
find_request_self repo item (x ∷ rs) r e = ground (arith, find_request_self repo item rs r)

pub is_request-same :
    (repo : String) (item : ℕ) (r : Request)
    → is_request repo item r ≡ true
    → (r.repo ≡ repo) × (r.item ≡ item)
is_request-same repo item r h = ((eq_iff r.repo repo).0 (ground arith), ground arith)

pub is_request_refl : (r : Request) → is_request r.repo r.item r ≡ true
is_request_refl r = ground (arith, (eq_iff r.repo r.repo).1 refl)

pub find_request-key :
    (repo : String) (item : ℕ) (rs : List Request) (r : Request)
    → is_request repo item r ≡ true
    → find_request r.repo r.item rs ≡ find_request repo item rs
find_request-key repo item rs r h = let (a, b) = is_request-same repo item r h in rw (a, b) refl

pub find_request-own :
    (repo : String) (item : ℕ) (rs : List Request) (r : Request)
    → find_request repo item rs ≡ some r
    → find_request r.repo r.item rs ≡ some r
find_request-own repo item rs r e =
    find_request-key repo item rs r (find_request_self repo item rs r e) ∙ e

pub is_request-keys :
    (repo : String) (item : ℕ) (r r' : Request)
    → r'.repo ≡ r.repo
    → r'.item ≡ r.item
    → is_request repo item r' ≡ is_request repo item r
is_request-keys repo item r r' a b = rw (a, b) refl

-- No two rows are of one request, as the table's UNIQUE constraint has it.
abbrev pub IsUnique : List Request → Type 0
IsUnique [] = Unit
IsUnique (r ∷ rs) = (find_request r.repo r.item rs ≡ none) × IsUnique rs

-- Then a row that is found under any condition is the row of its request.
pub find_request_unique :
    (p : Request → Bool) (rs : List Request) (r : Request)
    → IsUnique rs
    → find_where p rs ≡ some r
    → find_request r.repo r.item rs ≡ some r
find_request_unique p [] r u e = cc
find_request_unique p (x ∷ rs) r u e = elim (Bool-cases (p x)) [
  | inl hit ↦ ground (arith, is_request_refl x)
  | inr miss ↦
      ground (arith, find_request_unique p rs r u.1, find_request-key r.repo r.item rs x, u.0)
]

pub find_request-update :
    (repo : String) (item : ℕ) (p : Request → Bool) (f : Request → Request) (rs : List Request)
    → ((r : Request) → is_request repo item (f r) ≡ is_request repo item r)
    → (r : Request) → find_request repo item rs ≡ some r
    → find_request repo item (update_where p f rs) ≡ some (if p r then f r else r)
find_request-update repo item p f [] k r e = ground arith
find_request-update repo item p f (x ∷ rs) k r e =
    ground (arith, k x, find_request-update repo item p f rs k r)

pub find_request-missing :
    (repo : String) (item : ℕ) (p : Request → Bool) (f : Request → Request) (rs : List Request)
    → ((r : Request) → is_request repo item (f r) ≡ is_request repo item r)
    → find_request repo item rs ≡ none
    → find_request repo item (update_where p f rs) ≡ none
find_request-missing repo item p f [] k e = refl
find_request-missing repo item p f (x ∷ rs) k e =
    ground (arith, k x, find_request-missing repo item p f rs k)

-- A request that is new does not hide another one.
pub new_request-apart :
    (repo : String) (item : ℕ) (kind : String) (force : Bool) (repo' : String) (item' : ℕ)
    (rs : List Request) (r : Request)
    → find_request repo item rs ≡ none
    → find_request repo' item' rs ≡ some r
    → is_request repo' item' (new_request repo item kind force) ≡ false
new_request-apart repo item kind force repo' item' rs r e f =
    elim (Bool-cases (str_eq repo repo')) [
      | inl hit ↦
          (let apart = λ (h : repo ≡ repo'). ap (λ (k : String). find_request k item rs) h in
            let same = (eq_iff repo repo').0 hit in ground (arith, same, apart same))
      | inr miss ↦ rw miss refl
    ]

pub IsUnique-update :
    (rs : List Request) (p : Request → Bool) (f : Request → Request)
    → ((r : Request) → (f r).repo ≡ r.repo)
    → ((r : Request) → (f r).item ≡ r.item)
    → IsUnique rs
    → IsUnique (update_where p f rs)
IsUnique-update [] p f k l u = tt
IsUnique-update (x ∷ rs) p f k l u =
    let key = λ (r : Request). is_request-keys x.repo x.item r (f r) (k r) (l r) in
    let rest = find_request-missing x.repo x.item p f rs key u.0 in
    (
      elim (Bool-cases (p x)) [ inl hit ↦ rw (hit, k x, l x) rest | inr miss ↦ rw miss rest ],
      IsUnique-update rs p f k l u.1,
    )
