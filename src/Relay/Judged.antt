-- ===== src/Relay/Judged.antt =====
-- What an answer of 202 says of the batch (src/debugbundle/relay.py).
use debugbundle_python.Prelude.{
  nat_eqb, ℕ, suc, ◌+◌, ◌≡◌, ◌∙◌, refl, ap, subst, ◌⊎◌, inl, inr, String, Option, none, some, Bool,
  true, false, not, ◌||◌, List, [], ◌∷◌, length, arith, string_eq, Bool-cases, >>=-eq-some,
  eq_of_some,
}
use debugbundle_python.Prelude.Dict.{Dict}
use debugbundle_python.Json.{
  Json, Items, Fields, null, bool, int, float, str, list, dict, elements, get,
}
use debugbundle_python.Redaction.{Loaded, parsed, malformed, refused}
use debugbundle_python.Relay.{RelayHost, Relay}
use debugbundle_python.Relay.Delivery.{Env, is_mode, deliver_events}
use debugbundle_python.Relay.Delivered.{DeliveredAs, deliver_events-DeliveredAs}
use debugbundle_python.Relay.Batch.{
  RelayError, Verdict, good, bad, raises, judge, put_verdict, judge_all,
}
use debugbundle_python.Relay.Handler.{
  ResponseBody, BrowserRelayResponse, with_headers, counts, refuses, accepted_batch, conclude_batch,
  deliver_batch, handle_batch, handle_loaded,
}

left_true : (a b : Bool) → (not a || b) ≡ false → a ≡ true
left_true true b e = refl
left_true false b e = absurd (cc)

module _ (env : Env) (h : RelayHost) where
  counted :
      (v : Verdict) (o : Option (List Fields × List RelayError)) (n : ℕ)
      → ((es : List Fields) (fs : List RelayError) → o ≡ some (es, fs) → length es + length fs ≡ n)
      → (events : List Fields) (errors : List RelayError)
      → put_verdict env h v o ≡ some (events, errors)
      → length events + length errors ≡ suc n
  counted raises o n ih events errors e = absurd (cc)
  counted (good event) o n ih events errors e =
      let ((es, fs), rest, e1) = >>=-eq-some o _ e in
      let a : events ≡ event ∷ es = ground arith in
      let b : errors ≡ fs = ground arith in
      omega (arith, ap (length {0}) a, ap (length {0}) b, ih es fs rest)
  counted (bad error) o n ih events errors e =
      let ((es, fs), rest, e1) = >>=-eq-some o _ e in
      let a : events ≡ es = ground arith in
      let b : errors ≡ error ∷ fs = ground arith in
      omega (arith, ap (length {0}) a, ap (length {0}) b, ih es fs rest)

  -- The judgement of a batch loses none of its entries.
  pub judge_all-count :
      (r : Relay) (index : ℕ) (items : List Json) (events : List Fields) (errors : List RelayError)
      → judge_all env h r index items ≡ some (events, errors)
      → length events + length errors ≡ length items
  judge_all-count r index [] events errors e =
      let a : events ≡ [] = ground arith in let b : errors ≡ [] = ground arith in rw (a, b) refl
  judge_all-count r index (candidate ∷ rest) events errors e =
      counted (judge env h r index candidate) (judge_all env h r (suc index) rest) (length rest)
        (judge_all-count r (suc index) rest) events errors e

  with_headers-status :
      (r : Relay) (discover : Bool) (headers : Dict String String) (status : ℕ)
      (b : Option ResponseBody)
      → (with_headers env h r discover headers status b).status ≡ status
  with_headers-status r discover headers status none = refl
  with_headers-status r discover headers status (some b) = refl

  -- What the body of an answer counts
  abbrev Counts : BrowserRelayResponse → ℕ → ℕ → Type 0
  Counts response accepted rejected =
      (b : ResponseBody) × (response.body ≡ some b)
      × (b.accepted ≡ accepted)
      × (b.rejected ≡ rejected)

  with_headers-Counts :
      (r : Relay) (discover : Bool) (headers : Dict String String) (status a n : ℕ)
      (errors : List RelayError)
      → Counts (with_headers env h r discover headers status (counts env h a n errors)) a n
  with_headers-Counts r true headers status a n errors = (_, refl, refl, refl)
  with_headers-Counts r false headers status a n errors = (_, refl, refl, refl)

  conclude_batch-Counts :
      (r : Relay) (discover : Bool) (headers : Dict String String) (events : List Fields)
      (errors : List RelayError)
      → (conclude_batch env h r discover headers events errors).1.status ≡ 202
      → Counts
          (conclude_batch env h r discover headers events errors).1
          (length events)
          (length errors)
        × ((discover ≡ true) ⊎ (errors ≡ []))
  conclude_batch-Counts r discover headers events [] e =
      (with_headers-Counts r discover headers 202 (length events) 0 [], inr refl)
  conclude_batch-Counts r true headers events (x ∷ xs) e =
      (with_headers-Counts r true headers 202 (length events) (length (x ∷ xs)) (x ∷ xs), inl refl)
  conclude_batch-Counts r false headers events (x ∷ xs) e = absurd (omega arith)

  -- What an answer of 202 shows of the judged batch: what it counts, that nothing is refused where the
  -- request does not ask for evidence, and what was done with the events.
  pub record IsDelivered (r : Relay) (discover : Bool) (events : List Fields)
      (errors : List RelayError) (response : BrowserRelayResponse) : Type 0 where
    pub counted : Counts response (length events) (length errors)
    pub whole : (discover ≡ true) ⊎ (errors ≡ [])
    pub delivered :
        (events ≡ [])
        ⊎ DeliveredAs env r events discover
            (deliver_events env r events discover).0
            (is_mode r.project_mode "local-only")
            (is_mode r.project_mode "connected")
            r.durable_write

  deliver_batch-IsDelivered :
      (r : Relay) (discover : Bool) (headers : Dict String String) (ip : Option String)
      (events : List Fields) (errors : List RelayError)
      → (deliver_batch env h r discover headers ip events errors).1.status ≡ 202
      → IsDelivered r discover events errors
          (deliver_batch env h r discover headers ip events errors).1
  deliver_batch-IsDelivered r discover headers ip [] errors e =
      let (counted, whole) = conclude_batch-Counts r discover headers [] errors e in
      record { counted = counted; whole = whole; delivered = inl refl }
  deliver_batch-IsDelivered r discover headers ip (x ∷ xs) errors e =
      let res = deliver_events env r (x ∷ xs) discover in
      elim (Bool-cases
        (not res.1 || refuses env h env.on_accept (accepted_batch env h headers ip (x ∷ xs)))) [
          | inl failed ↦ absurd (let no : 500 ≡ 202 = rw failed at e in omega arith)
          | inr fine ↦
              let e1 : (conclude_batch env h res.0 discover headers (x ∷ xs) errors).1.status
                  ≡ 202 =
                rw fine at e in
              let (counted, whole) =
                conclude_batch-Counts res.0 discover headers (x ∷ xs) errors e1 in
              rw fine (record {
                counted = counted;
                whole = whole;
                delivered =
                    inr (deliver_events-DeliveredAs env r x xs discover (left_true res.1 _ fine));
              })
        ]

  -- What is left of the record behind the limit on the rate
  pub record IsJudged (r : Relay) (discover : Bool) (found : Loaded)
      (response : BrowserRelayResponse) : Type 0 where
    pub decoded : Fields
    pub is_json : found ≡ parsed (dict decoded)
    pub batch : Items
    pub is_batch : get decoded "batch" ≡ list batch
    pub events : List Fields
    pub errors : List RelayError
    pub judged : judge_all env h r 0 (elements batch) ≡ some (events, errors)
    pub delivered : IsDelivered r discover events errors response

  status_of :
      {r r' : Relay} {a b : BrowserRelayResponse}
      → ◌≡◌ {A = Option (Relay × BrowserRelayResponse)} (some (r, a)) (some (r', b))
      → a ≡ b
  status_of e = ap (λ p. p.1) (eq_of_some e)

  -- An answer with another status is not one of 202.
  pub never :
      (r r' : Relay) (a b : BrowserRelayResponse)
      → nat_eqb a.status 202 ≡ false
      → ◌≡◌ {A = Option (Relay × BrowserRelayResponse)} (some (r, a)) (some (r', b))
      → b.status ≡ 202
      → ⊥
  never r r' a b other e ok =
      let same : a.status ≡ 202 = ap (λ (x : BrowserRelayResponse). x.status) (status_of e) ∙ ok in
      ground (arith, same, other)

  handle_batch-IsJudged :
      (r : Relay) (discover : Bool) (headers : Dict String String) (ip : Option String)
      (decoded : Fields) (value : Json) (r' : Relay) (response : BrowserRelayResponse)
      → get decoded "batch" ≡ value
      → handle_batch env h r discover headers ip value ≡ some (r', response)
      → response.status ≡ 202
      → IsJudged r discover (parsed (dict decoded)) response
  handle_batch-IsJudged r discover headers ip decoded (list items) r' response here e ok =
      let ((events, errors), judged, e1) = >>=-eq-some (judge_all env h r 0 (elements items)) _ e in
      let same : (deliver_batch env h r discover headers ip events errors).1 ≡ response =
        status_of e1 in
      let ok' = ap (λ (x : BrowserRelayResponse). x.status) same ∙ ok in
      record {
        decoded = decoded;
        is_json = refl;
        batch = items;
        is_batch = here;
        events = events;
        errors = errors;
        judged = judged;
        delivered =
            subst (IsDelivered r discover events errors) same
              (deliver_batch-IsDelivered r discover headers ip events errors ok');
      }
  handle_batch-IsJudged r discover headers ip decoded null r' response here e ok =
      absurd (never r r' _ response refl e ok)
  handle_batch-IsJudged r discover headers ip decoded (bool b) r' response here e ok =
      absurd (never r r' _ response refl e ok)
  handle_batch-IsJudged r discover headers ip decoded (int z) r' response here e ok =
      absurd (never r r' _ response refl e ok)
  handle_batch-IsJudged r discover headers ip decoded (float x) r' response here e ok =
      absurd (never r r' _ response refl e ok)
  handle_batch-IsJudged r discover headers ip decoded (str s) r' response here e ok =
      absurd (never r r' _ response refl e ok)
  handle_batch-IsJudged r discover headers ip decoded (dict f) r' response here e ok =
      absurd (never r r' _ response refl e ok)

  pub handle_loaded-IsJudged :
      (r : Relay) (discover : Bool) (headers : Dict String String) (ip : Option String)
      (found : Loaded) (r' : Relay) (response : BrowserRelayResponse)
      → handle_loaded env h r discover headers ip found ≡ some (r', response)
      → response.status ≡ 202
      → IsJudged r discover found response
  handle_loaded-IsJudged r discover headers ip refused r' response e ok = absurd (cc)
  handle_loaded-IsJudged r discover headers ip malformed r' response e ok =
      absurd (never r r' _ response refl e ok)
  handle_loaded-IsJudged r discover headers ip (parsed (dict decoded)) r' response e ok =
      handle_batch-IsJudged r discover headers ip decoded (get decoded "batch") r' response refl e
        ok
  handle_loaded-IsJudged r discover headers ip (parsed null) r' response e ok =
      absurd (never r r' _ response refl e ok)
  handle_loaded-IsJudged r discover headers ip (parsed (bool b)) r' response e ok =
      absurd (never r r' _ response refl e ok)
  handle_loaded-IsJudged r discover headers ip (parsed (int z)) r' response e ok =
      absurd (never r r' _ response refl e ok)
  handle_loaded-IsJudged r discover headers ip (parsed (float x)) r' response e ok =
      absurd (never r r' _ response refl e ok)
  handle_loaded-IsJudged r discover headers ip (parsed (str s)) r' response e ok =
      absurd (never r r' _ response refl e ok)
  handle_loaded-IsJudged r discover headers ip (parsed (list l)) r' response e ok =
      absurd (never r r' _ response refl e ok)
