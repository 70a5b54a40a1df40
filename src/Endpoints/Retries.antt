-- ===== src/Endpoints/Retries.antt =====
-- The retries of bell/protocols/http.py.
use school_bells.Prelude.{
  ◌≢◌, ◌∙◌, none, some, str_eq, eq_iff, ℕ, zero, suc, ◌+◌, ◌≤◌, ◌<◌, ◌≡◌, ◌⊎◌, ◌↔◌, refl, sym, ap,
  Bool, true, false, Bool-cases, inl, inr, arith, length, String, Option, Option-cases,
}
use mathlib.Core.Path.{subst}
use school_bells.Prelude.Results.{ok, ok-injective, not-ok-err}
use school_bells.Config.{Destination}
use school_bells.Endpoints.Webhook.{
  Response, accepted, retryable, try_from, gave_up, after_delay, Request, Triggered, given, trigger,
  post, outcome_of, unsigned, request_for,
}

-- The k-th attempt from `first` on is accepted, and all before it may be retried.
pub record Accepts (respond : ℕ → Response) (first left k : ℕ) : Type 0 where
  pub within : k ≤ left
  pub last : accepted (respond (first + k)) ≡ true
  pub before :
      (j : ℕ)
      → j < k
      → (accepted (respond (first + j)) ≡ false) × (retryable (respond (first + j)) ≡ true)

moved :
    (P : Response → Bool) (b : Bool) (respond : ℕ → Response) (n m : ℕ)
    → P (respond n) ≡ b
    → n ≡ m
    → P (respond m) ≡ b
moved P b respond n m h e = subst (λ i. P (respond i) ≡ b) e h

at_first :
    (respond : ℕ → Response) (left n : ℕ) → accepted (respond n) ≡ true → Accepts respond n left 0
at_first respond left n a = record {
  within = omega arith;
  last = moved accepted true respond n (n + 0) a (omega arith);
  before = λ j lt. absurd (omega (arith, lt));
}

after_retry :
    (respond : ℕ → Response) (left n k : ℕ)
    → accepted (respond n) ≡ false
    → retryable (respond n) ≡ true
    → Accepts respond (n + 1) left k
    → Accepts respond n (suc left) (suc k)
after_retry respond left n k a r rest = record {
  within = omega (arith, rest.within);
  last = moved accepted true respond (n + 1 + k) (n + suc k) rest.last (omega arith);
  before = earlier;
}
  where
    earlier :
        (j : ℕ)
        → j < suc k
        → (accepted (respond (n + j)) ≡ false) × (retryable (respond (n + j)) ≡ true)
    earlier zero lt = (
      moved accepted false respond n (n + 0) a (omega arith),
      moved retryable true respond n (n + 0) r (omega arith),
    )
    earlier (suc j) lt =
        let (b, q) = rest.before j (omega (arith, lt)) in
        (
          moved accepted false respond (n + 1 + j) (n + suc j) b (omega arith),
          moved retryable true respond (n + 1 + j) (n + suc j) q (omega arith),
        )

succeeds-accepts :
    (respond : ℕ → Response) (left n : ℕ)
    → (try_from respond left n).success ≡ true
    → (k : ℕ) × Accepts respond n left k
unfolding try_from after_delay gave_up
succeeds-accepts respond zero n = elim (Bool-cases (accepted (respond n))) [
  | inl a ↦ λ _. (0, at_first respond 0 n a)
  | inr a ↦ rw (a) (λ h. absurd cc)
]
succeeds-accepts respond (suc left) n = elim (Bool-cases (accepted (respond n))) [
  | inl a ↦ λ _. (0, at_first respond (suc left) n a)
  | inr a ↦ elim (Bool-cases (retryable (respond n))) [
    | inl r ↦
        rw (a, r)
          (λ h.
            let (k, rest) = succeeds-accepts respond left (n + 1) h in
            (suc k, after_retry respond left n k a r rest))
    | inr r ↦ rw (a, r) (λ h. absurd cc)
  ]
]

accepts-succeeds :
    (respond : ℕ → Response) (left n k : ℕ)
    → Accepts respond n left k
    → ((try_from respond left n).success ≡ true) × ((try_from respond left n).attempts ≡ n + k + 1)
unfolding try_from after_delay
accepts-succeeds respond zero n zero a =
    rw (moved accepted true respond (n + 0) n a.last (omega arith)) (refl, omega arith)
accepts-succeeds respond (suc left) n zero a =
    rw (moved accepted true respond (n + 0) n a.last (omega arith)) (refl, omega arith)
accepts-succeeds respond zero n (suc k) a = absurd (omega (arith, a.within))
accepts-succeeds respond (suc left) n (suc k) a =
    let (refused, retried) = a.before 0 (omega arith) in
    let (ok_now, count) = accepts-succeeds respond left (n + 1) k rest in
    rw
      (
        moved accepted false respond (n + 0) n refused (omega arith),
        moved retryable true respond (n + 0) n retried (omega arith),
      )
      (ok_now, omega (arith, count))
  where
    rest : Accepts respond (n + 1) left k
    rest = record {
      within = omega (arith, a.within);
      last = moved accepted true respond (n + suc k) (n + 1 + k) a.last (omega arith);
      before = λ j lt.
          let (b, q) = a.before (suc j) (omega (arith, lt)) in
          (
            moved accepted false respond (n + suc j) (n + 1 + j) b (omega arith),
            moved retryable true respond (n + suc j) (n + 1 + j) q (omega arith),
          );
    }

-- The loop's attempts lie within the configured number of retries and one, whatever it is answered,
-- and it sleeps between two attempts and nowhere else.
attempts_bound :
    (respond : ℕ → Response) (left n : ℕ)
    → (n + 1 ≤ (try_from respond left n).attempts)
      × ((try_from respond left n).attempts ≤ n + left + 1)
      × (length (try_from respond left n).delays + n + 1 ≡ (try_from respond left n).attempts)
unfolding try_from after_delay gave_up
attempts_bound respond zero n = elim (Bool-cases (accepted (respond n))) [
  | inl a ↦ rw (a) (omega arith, omega arith, omega arith)
  | inr a ↦ rw (a) (omega arith, omega arith, omega arith)
]
attempts_bound respond (suc left) n = elim (Bool-cases (accepted (respond n))) [
  | inl a ↦ rw (a) (omega arith, omega arith, omega arith)
  | inr a ↦ elim (Bool-cases (retryable (respond n))) [
    | inl r ↦
        let (low, high, slept) = attempts_bound respond left (n + 1) in
        rw (a, r) (omega (arith, low), omega (arith, high), omega (arith, slept))
    | inr r ↦ rw (a, r) (omega arith, omega arith, omega arith)
  ]
]

-- What `trigger` reports of the requests that it made, if it made any.
pub record Reports (respond : Request → ℕ → Response) (d : Destination) (key : String)
    (t : Triggered) : Type 0 where
  pub request : Request
  pub keyed : request.idempotency_key ≡ key
  pub success :
      (t.outcome.success ≡ true)
      ↔ ((k : ℕ) × Accepts (respond request) 0 d.retries k × (t.outcome.attempts ≡ k + 1))
  pub bound : t.outcome.attempts ≤ d.retries + 1
  pub slept : length t.delays + 1 ≡ t.outcome.attempts

post-Reports :
    (respond : Request → ℕ → Response) (d : Destination) (request : Request) (duration : ℕ)
    → Reports respond d request.idempotency_key (post d request respond duration)
unfolding post outcome_of
post-Reports respond d request duration = record {
  request = request;
  keyed = refl;
  success = (
    λ h.
        let (k, a) = succeeds-accepts (respond request) d.retries 0 h in
        (k, a, omega (arith, (accepts-succeeds (respond request) d.retries 0 k a).1)),
    λ (k, a, _). (accepts-succeeds (respond request) d.retries 0 k a).0,
  );
  bound = omega (arith, (attempts_bound (respond request) d.retries 0).1);
  slept = omega (arith, (attempts_bound (respond request) d.retries 0).2);
}

-- The destination names a secret, and the environment does not have it.
pub Unset : (String → Option String) → Destination → Type 0
Unset environ d =
    (name : String) × (d.webhook_secret_env ≡ some name)
    × (name ≢ "")
    × ((environ name ≡ none) ⊎ (environ name ≡ some ""))

given-none : (o : Option String) → given o ≡ none → (o ≡ none) ⊎ (o ≡ some "")
unfolding given
given-none none = λ _. inl refl
given-none (some s) = elim (Bool-cases (str_eq s "")) [
  | inl blank ↦ λ _. inr (ap some ((eq_iff s "").0 blank))
  | inr filled ↦ rw (filled) (λ h. absurd cc)
]

given-some : (o : Option String) (v : String) → given o ≡ some v → (o ≡ some v) × (v ≢ "")
unfolding given
given-some none v = λ h. absurd cc
given-some (some s) v = elim (Bool-cases (str_eq s "")) [
  | inl blank ↦ rw (blank) (λ h. absurd cc)
  | inr filled ↦ rw (filled) (λ h. (h, λ e. absurd (cc (filled, (eq_iff s "").1 (same s v h ∙ e)))))
]
  where
    same : (s v : String) → some s ≡ some v → s ≡ v
    same s v h = cc (h)

not-Unset-bare :
    (environ : String → Option String) (d : Destination)
    → given d.webhook_secret_env ≡ none
    → Unset environ d
    → ⊥
unfolding Unset
not-Unset-bare environ d s (name, named, filled, _) = elim (given-none d.webhook_secret_env s) [
  | inl bare ↦ cc (bare, named)
  | inr blank ↦ filled (same name (sym named ∙ blank))
]
  where
    same : (name : String) → some name ≡ some "" → name ≡ ""
    same name h = cc (h)

not-Unset-set :
    (environ : String → Option String) (d : Destination) (name secret : String)
    → given d.webhook_secret_env ≡ some name
    → given (environ name) ≡ some secret
    → Unset environ d
    → ⊥
unfolding Unset
not-Unset-set environ d name secret s v (other, named, _, lost) =
    let (own, _) = given-some d.webhook_secret_env name s in
    let (there, filled) = given-some (environ name) secret v in
    let e : other ≡ name = same other name (sym named ∙ own) in
    elim lost [
      | inl missing ↦ absurd (cc (there, ap environ e, missing))
      | inr blank ↦ absurd (filled (same secret "" (sym there ∙ sym (ap environ e) ∙ blank)))
    ]
  where
    same : (a b : String) → some a ≡ some b → a ≡ b
    same a b h = cc (h)

-- A delivery by webhook that returns makes no request and fails where the destination names a secret
-- that the environment does not have, or has empty. Where this is not so, all its requests are one
-- and the same with the given idempotency key, at most one more than the configured retries, with a
-- delay between any two, and it succeeds exactly when an attempt was accepted before which each
-- one's answer allowed another.
pub trigger-Reports :
    (environ : String → Option String) (hmac : String → String → String)
    (respond : Request → ℕ → Response) (d : Destination) (body key timestamp : String)
    (duration : ℕ) (t : Triggered)
    → trigger environ hmac respond d body key timestamp duration ≡ ok t
    → (Unset environ d × (t.outcome.attempts ≡ 0) × (t.outcome.success ≡ false))
      ⊎ ((Unset environ d → ⊥) × Reports respond d key t)
unfolding trigger unsigned request_for Unset
trigger-Reports environ hmac respond d body key timestamp duration t =
    elim (Option-cases (given d.webhook_url)) [
      | inl e ↦ rw (e, trigger) (λ h. absurd (not-ok-err (sym h)))
      | inr (url, e) ↦ elim (Option-cases (given d.webhook_secret_env)) [
        | inl s ↦
            rw (e, s, trigger)
              (λ h. inr (
                not-Unset-bare environ d s,
                subst (Reports respond d key) (ok-injective h) (post-Reports respond d _ duration),
              ))
        | inr (name, s) ↦ elim (Option-cases (given (environ name))) [
          | inl v ↦
              let (named, filled) = given-some d.webhook_secret_env name s in
              rw (e, s, v, trigger)
                (λ h. inl (
                  (name, named, filled, given-none (environ name) v),
                  ap (λ (t : Triggered). t.outcome.attempts) (sym (ok-injective h)),
                  ap (λ (t : Triggered). t.outcome.success) (sym (ok-injective h)),
                ))
          | inr (secret, v) ↦
              rw (e, s, v, trigger)
                (λ h. inr (
                  not-Unset-set environ d name secret s v,
                  subst (Reports respond d key) (ok-injective h)
                      (post-Reports respond d _ duration),
                ))
        ]
      ]
    ]
