-- ===== src/Fires/Requests.antt =====
-- The idempotency keys of `api_requests` and the whole life of the tables of bell/scheduler.py.
use school_bells.Prelude.{
  ℕ, ◌≡◌, ◌⊎◌, refl, String, Bool, true, false, ◌&&◌, List, [], ◌∷◌, ◌++◌, Option, none, some,
  arith, str_eq, eq_iff, eq_refl, if◌then◌else◌, any, Bool-cases, inl, inr, is_some, select,
}
use school_bells.Dates.{Moment}
use school_bells.Fires.{
  PlannedEvent, ApiRow, ZoneRow, Tables, record_once, update_result, purge, record_audit,
  confirm_zone, put_zone, find_request, api_result, claim_api_request, update_request,
  expire_stale_api_request, finish_api_request,
}
use school_bells.Fires.Claims.{
  IsKeyed, record_once-cases, record_once-IsKeyed, IsKeyed-select, IsKeyed-update_rows,
}

abbrev pub has_request : String → List ApiRow → Bool
has_request k rows = is_some (find_request k rows)

abbrev pub IsKeyedApi : List ApiRow → Type 0
IsKeyedApi [] = Unit
IsKeyedApi (row ∷ rows) = (has_request row.idempotency_key rows ≡ false) × IsKeyedApi rows

abbrev pub has_zone : String → List ZoneRow → Bool
has_zone z rows = any (λ r. str_eq r.zone z) rows

abbrev pub IsKeyedZone : List ZoneRow → Type 0
IsKeyedZone [] = Unit
IsKeyedZone (row ∷ rows) = (has_zone row.zone rows ≡ false) × IsKeyedZone rows

find-append :
    (k : String) (rows : List ApiRow) (r : ApiRow)
    → find_request k (rows ++ r ∷ []) ≡ (
        if has_request k rows
        then find_request k rows
        else if str_eq r.idempotency_key k
        then some r
        else none)
unfolding find_request
find-append k [] r = ground arith
find-append k (s ∷ rows) r = ground (arith, find-append k rows r)

-- `update_request` changes the row of its key, where the test allows it, and no other.
find-update :
    (k j : String) (ready : ApiRow → Bool) (status detail : String) (rows : List ApiRow)
    → has_request j (update_request k ready status detail rows) ≡ has_request j rows
unfolding find_request update_request
find-update k j ready status detail [] = refl
find-update k j ready status detail (r ∷ rows) =
    ground (arith, find-update k j ready status detail rows)

IsKeyedApi-update :
    (k : String) (ready : ApiRow → Bool) (status detail : String) (rows : List ApiRow)
    → IsKeyedApi rows
    → IsKeyedApi (update_request k ready status detail rows)
unfolding update_request
IsKeyedApi-update k ready status detail [] h = tt
IsKeyedApi-update k ready status detail (r ∷ rows) h =
    elim (Bool-cases (str_eq r.idempotency_key k && ready r)) [
      | inl hit ↦
          rw (hit, update_request)
            (
              rw (find-update k r.idempotency_key ready status detail rows) h.0,
              IsKeyedApi-update k ready status detail rows h.1,
            )
      | inr miss ↦
          rw (miss, update_request)
            (
              rw (find-update k r.idempotency_key ready status detail rows) h.0,
              IsKeyedApi-update k ready status detail rows h.1,
            )
    ]

IsKeyedApi-append :
    (rows : List ApiRow) (r : ApiRow)
    → has_request r.idempotency_key rows ≡ false
    → IsKeyedApi rows
    → IsKeyedApi (rows ++ r ∷ [])
unfolding find_request
IsKeyedApi-append [] r fresh h = (refl, tt)
IsKeyedApi-append (s ∷ rows) r fresh h = (
  ground (
    arith,
    find-append s.idempotency_key rows r,
    eq_iff r.idempotency_key s.idempotency_key,
    eq_iff s.idempotency_key r.idempotency_key,
  ),
  IsKeyedApi-append rows r (ground arith) h.1,
)

has_request-select :
    (p : ApiRow → Bool) (k : String) (rows : List ApiRow)
    → has_request k rows ≡ false
    → has_request k (select p rows) ≡ false
unfolding find_request
has_request-select p k [] h = refl
has_request-select p k (r ∷ rows) h = ground (arith, has_request-select p k rows)

IsKeyedApi-select :
    (p : ApiRow → Bool) (rows : List ApiRow) → IsKeyedApi rows → IsKeyedApi (select p rows)
IsKeyedApi-select p [] h = tt
IsKeyedApi-select p (r ∷ rows) h = elim (Bool-cases (p r)) [
  | inl keep ↦
      rw (keep, select)
        (has_request-select p r.idempotency_key rows h.0, IsKeyedApi-select p rows h.1)
  | inr drop ↦ rw (drop, select) (IsKeyedApi-select p rows h.1)
]

has_zone-put :
    (z : String) (new : ZoneRow) (rows : List ZoneRow)
    → has_zone z (put_zone new rows) ≡ (if str_eq new.zone z then true else has_zone z rows)
unfolding put_zone
has_zone-put z new [] = ground arith
has_zone-put z new (r ∷ rows) =
    ground
      (arith, has_zone-put z new rows, eq_iff r.zone new.zone, eq_iff r.zone z, eq_iff new.zone z)

IsKeyedZone-put :
    (new : ZoneRow) (rows : List ZoneRow) → IsKeyedZone rows → IsKeyedZone (put_zone new rows)
unfolding put_zone
IsKeyedZone-put new [] h = (refl, tt)
IsKeyedZone-put new (r ∷ rows) h = elim (Bool-cases (str_eq r.zone new.zone)) [
  | inl same ↦ rw (same, put_zone) (rw (← (eq_iff r.zone new.zone).0 same) h.0, h.1)
  | inr other ↦
      rw (other, put_zone)
        (
          ground
              (arith, has_zone-put r.zone new rows, eq_iff r.zone new.zone, eq_iff new.zone r.zone),
          IsKeyedZone-put new rows h.1,
        )
]

-- What the methods of `FireState` that write can do to the tables, with every argument free.
pub data Write : Tables → Tables → Type 0 where
  attempt :
      (day : ℕ) (k result detail : String) (now : Moment) (planned : Option PlannedEvent)
      (most : Option ℕ) (t : Tables)
      → Write t (record_once day k result detail now planned most t).0
  settle :
      (day : ℕ) (k result detail : String) (t : Tables)
      → Write t (update_result day k result detail t)
  audit :
      (action target detail : String) (now : Moment) (t : Tables)
      → Write t (record_audit action target detail now t)
  confirm :
      (zone observer note : String) (now : Moment) (t : Tables)
      → Write t (confirm_zone zone observer note now t)
  claim :
      (k : String) (now : Moment) (h : String) (t : Tables)
      → Write t (claim_api_request k now h t).0
  expire :
      (k : String) (cutoff : Moment) (t : Tables) → Write t (expire_stale_api_request k cutoff t).0
  finish : (k status detail : String) (t : Tables) → Write t (finish_api_request k status detail t)

-- The methods that one process calls, one after another.
pub data Session (t : Tables) : Tables → Type 0 where
  here : Session t t
  next : {u v : Tables} → Session t u → Write u v → Session t v

-- The life of the database: empty at first, written by the methods, purged at each start.
pub data Life : Tables → Type 0 where
  created :
      Life
        (record { fire_attempts = []; zone_acceptance = []; api_requests = []; audit_events = [] })
  written : {t u : Tables} → Life t → Write t u → Life u
  started : {t : Tables} (now : ℕ) → Life t → Life (purge now t)

pub record HasKeys (t : Tables) : Type 0 where
  pub fires : IsKeyed t.fire_attempts
  pub requests : IsKeyedApi t.api_requests
  pub zones : IsKeyedZone t.zone_acceptance

abbrev claimed_row : String → Moment → String → ApiRow
claimed_row k now hash = record {
  idempotency_key = k;
  created_at = now;
  status = "processing";
  detail = "request claimed";
  request_hash = hash;
}

claim-cases :
    (k : String) (now : Moment) (hash : String) (t : Tables)
    → (claim_api_request k now hash t ≡ (t, false))
      ⊎ ((claim_api_request k now hash t
            ≡ (record t { api_requests = t.api_requests ++ claimed_row k now hash ∷ [] }, true))
          × (has_request k t.api_requests ≡ false))
unfolding claim_api_request api_result
claim-cases k now hash t = elim (Bool-cases (has_request k t.api_requests)) [
  | inl old ↦ inl (rw old refl)
  | inr new ↦ inr (rw new refl, new)
]

Write-HasKeys : {t u : Tables} → Write t u → HasKeys t → HasKeys u
unfolding update_result record_audit confirm_zone expire_stale_api_request finish_api_request
Write-HasKeys (attempt day k result detail now planned most t) h =
    elim (record_once-cases day k result detail now planned most t) [
      | inl e ↦ rw e h
      | inr (e, f, r) ↦ record {
        fires = record_once-IsKeyed day k result detail now planned most t h.fires;
        requests = rw e h.requests;
        zones = rw e h.zones;
      }
    ]
Write-HasKeys (settle day k result detail t) h = record {
  fires = IsKeyed-update_rows day k result detail t.fire_attempts h.fires;
  requests = h.requests;
  zones = h.zones;
}
Write-HasKeys (audit action target detail now t) h = record {
  fires = h.fires;
  requests = h.requests;
  zones = h.zones;
}
Write-HasKeys (confirm zone observer note now t) h = record {
  fires = h.fires;
  requests = h.requests;
  zones = IsKeyedZone-put _ t.zone_acceptance h.zones;
}
Write-HasKeys (claim k now hash t) h = elim (claim-cases k now hash t) [
  | inl e ↦ rw e h
  | inr (e, f) ↦ rw e (record {
    fires = h.fires;
    requests = IsKeyedApi-append t.api_requests _ f h.requests;
    zones = h.zones;
  })
]
Write-HasKeys (expire k cutoff t) h = record {
  fires = h.fires;
  requests = IsKeyedApi-update k _ _ _ t.api_requests h.requests;
  zones = h.zones;
}
Write-HasKeys (finish k status detail t) h = record {
  fires = h.fires;
  requests = IsKeyedApi-update k _ _ _ t.api_requests h.requests;
  zones = h.zones;
}

-- Whatever the methods of `FireState` do, over any number of restarts, no two fire attempts share
-- their day and event key, no two API requests their idempotency key, and no two confirmations
-- their zone.
pub Life-HasKeys : {t : Tables} → Life t → HasKeys t
unfolding purge
Life-HasKeys created = record { fires = tt; requests = tt; zones = tt }
Life-HasKeys (written l w) = Write-HasKeys w (Life-HasKeys l)
Life-HasKeys (started {t} now l) = record {
  fires = IsKeyed-select _ t.fire_attempts (Life-HasKeys l).fires;
  requests = IsKeyedApi-select _ t.api_requests (Life-HasKeys l).requests;
  zones = (Life-HasKeys l).zones;
}

Write-request :
    {t u : Tables} (k : String)
    → Write t u
    → has_request k t.api_requests ≡ true
    → has_request k u.api_requests ≡ true
unfolding update_result record_audit confirm_zone expire_stale_api_request finish_api_request
Write-request j (attempt day k result detail now planned most t) h =
    elim (record_once-cases day k result detail now planned most t) [
      | inl e ↦ rw e h
      | inr (e, f, r) ↦ rw e h
    ]
Write-request j (settle day k result detail t) h = h
Write-request j (audit action target detail now t) h = h
Write-request j (confirm zone observer note now t) h = h
Write-request j (claim k now hash t) h = elim (claim-cases k now hash t) [
  | inl e ↦ rw e h
  | inr (e, f) ↦ rw e (rw (find-append j t.api_requests, h) h)
]
Write-request j (expire k cutoff t) h = rw (find-update k j _ _ _ t.api_requests) h
Write-request j (finish k status detail t) h = rw (find-update k j _ _ _ t.api_requests) h

Session-request :
    {t u : Tables} (k : String)
    → Session t u
    → has_request k t.api_requests ≡ true
    → has_request k u.api_requests ≡ true
Session-request k here h = h
Session-request k (next s w) h = Write-request k w (Session-request k s h)

claim-found :
    (k : String) (now : Moment) (hash : String) (t : Tables)
    → (claim_api_request k now hash t).1 ≡ true
    → has_request k (claim_api_request k now hash t).0.api_requests ≡ true
claim-found k now hash t h = elim (claim-cases k now hash t) [
  | inl e ↦ cc
  | inr (e, f) ↦ rw e (rw (find-append k t.api_requests, f, eq_refl k) refl)
]

-- An idempotency key is given out once: after a claim that succeeds, and whatever the methods write
-- in the same run of the service, a claim of the key fails and changes nothing.
pub claim_once :
    (k : String) (now later : Moment) (hash hash' : String) (t : Tables) {u : Tables}
    → (claim_api_request k now hash t).1 ≡ true
    → Session (claim_api_request k now hash t).0 u
    → claim_api_request k later hash' u ≡ (u, false)
claim_once k now later hash hash' t {u} h s =
    unfold claim_api_request api_result in
    rw (Session-request k s (claim-found k now hash t h)) refl
