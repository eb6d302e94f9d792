-- ===== src/Access/Limits.antt =====
-- How many requests the rate limit of src/api/middleware/rate_limit.py lets through.
use workflow_automation_engi.Access.{
  Redis, Request, Rated, passed, refused, redis_key, rate_limit_dispatch, get_rate_limit,
  starts_with, window_seconds,
}
use workflow_automation_engi.Prelude.{
  ℕ, ◌+◌, ◌-◌, String, Bool, ◌≡◌, refl, true, false, some, List, [], ◌∷◌, ◌++◌, length, codes,
  arith, ltb, leb, nat_eq, if◌then◌else◌, Message, ℤ, nat_eq_iff, Bool-cases, inl, inr,
}

-- Redis within one window: `incr` answers one more than the counter, and the other two commands
-- succeed and keep it.
pub record Counts {R : Type 0} (redis : Redis R) (key : Message) (counter : R → ℕ) : Type 0 where
  pub answers : (r : R) → (redis.incr key r).0 ≡ some (counter r + 1)
  pub counted : (r : R) → counter (redis.incr key r).1 ≡ counter r + 1
  pub expires : (n : ℕ) (r : R) → (redis.expire key n r).0 ≡ true
  pub expire_keeps : (n : ℕ) (r : R) → counter (redis.expire key n r).1 ≡ counter r
  pub left : (r : R) → (t : ℤ) × ((redis.ttl key r).0 ≡ some t)
  pub ttl_keeps : (r : R) → counter (redis.ttl key r).1 ≡ counter r

abbrev pub is_passed : Rated → Bool
is_passed (passed h) = true
is_passed (refused h t) = false

module _ {R : Type 0} (redis : Redis R) (request : Request) where
  -- How many of the requests that come at these times are passed.
  pub passes : List ℕ → R → ℕ
  passes [] r = 0
  passes (now ∷ nows) r =
      (if is_passed (rate_limit_dispatch redis now request r).0 then 1 else 0)
      + passes nows (rate_limit_dispatch redis now request r).1

  module _ (counter : R → ℕ) (counts : Counts redis (redis_key request) counter) where
    -- The requests in a minute that the route allows.
    abbrev pub limit : ℕ
    limit = get_rate_limit request.method request.path

    -- One request: the counter goes up by one, and the request is passed up to the limit.
    one_request :
        (now : ℕ) (r : R)
        → (counter (rate_limit_dispatch redis now request r).1 ≡ counter r + 1)
          × (is_passed (rate_limit_dispatch redis now request r).0
              ≡ (if ltb limit (counter r + 1) then false else true))
    unfolding rate_limit_dispatch
    one_request now r =
        let r1 = (redis.incr (redis_key request) r).1 in
        let r2 = (redis.expire (redis_key request) window_seconds r1).1 in
        elim (Bool-cases (nat_eq (counter r + 1) 1)) [
          | inl first ↦
              let (t, left) = counts.left r2 in
              rw (counts.answers r, first, counts.expires window_seconds r1, left)
                (ground (
                  arith,
                  counts.counted r,
                  counts.expire_keeps window_seconds r1,
                  counts.ttl_keeps r2,
                ))
          | inr again ↦
              let (t, left) = counts.left r1 in
              rw (counts.answers r, again, left)
                (ground (arith, counts.counted r, counts.ttl_keeps r1))
        ]

    -- Of the requests with one key within one window exactly the first ones pass, as many as the
    -- limit of the route leaves.
    pub passes-limit :
        (nows : List ℕ) (r : R)
        → passes nows r
          ≡ (if leb (length nows) (limit - counter r) then length nows else limit - counter r)
    unfolding passes
    passes-limit [] r = ground arith
    passes-limit (now ∷ nows) r =
        let one = one_request now r in
        ground (arith, one.0, one.1, passes-limit nows (rate_limit_dispatch redis now request r).1)

-- What stands behind a prefix.
rest_of :
    (prefix text : List ℕ)
    → starts_with prefix text ≡ true
    → (rest : List ℕ) × (text ≡ prefix ++ rest)
unfolding starts_with
rest_of [] text h = (text, refl)
rest_of (p ∷ prefix) [] h = absurd (cc h)
rest_of (p ∷ prefix) (c ∷ text) h =
    let (rest, e) = rest_of prefix text (ground arith) in (rest, ground (arith, e, nat_eq_iff p c))

-- Every POST below /api/workflows/ is limited by the entry of 20 requests for /api/workflows: the
-- entry of 30 for /api/workflows/ is never used.
pub get_rate_limit-workflows :
    (path : String)
    → starts_with (codes "/api/workflows/") (codes path) ≡ true
    → get_rate_limit "POST" path ≡ 20
unfolding get_rate_limit starts_with
get_rate_limit-workflows path h =
    let (rest, e) = rest_of (codes "/api/workflows/") (codes path) h in rw e
