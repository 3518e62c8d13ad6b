-- ===== src/Relay/Rounds.antt =====
-- Why two calls of `_sanitize_event` (src/debugbundle/relay.py) are enough.
use debugbundle_python.Prelude.{
  kept, ℕ, suc, ◌≡◌, ◌>>=◌, ◌∙◌, refl, sym, ap, inl, inr, String, Option, none, some, Bool, true,
  false, not, ◌&&◌, ◌||◌, List, [], ◌∷◌, contains, arith, string_eq, ◌==◌, ==_iff, if◌then◌else◌,
  eq_of_some, Bool-cases, Option-cases,
}
use debugbundle_python.Prelude.Dict
use debugbundle_python.Json.{Json, Fields, str, dict, end, field, get, has}
use debugbundle_python.Evidence.Shapes.{mapping, one_of}
use debugbundle_python.Evidence.Events.{
  evidence_fields, without, validate_evidence, without_optional, has_any, set_field,
}
use debugbundle_python.Evidence.Events.Editing.{get-set_field}
use debugbundle_python.Relay.{RelayHost}
use debugbundle_python.Relay.Events.{
  rebuild, text_of, full_text, object_of, has_evidence_field, carries_evidence, Sanitized, unsafe,
  refused, clean, sanitize_fields, valid_event, retry, finish, sanitize_step, sanitize_rounds,
  sanitize_event,
}

has-without :
    (keys : List String) (f : Fields) (k : String)
    → contains keys k ≡ true
    → has (without keys f) k ≡ false
unfolding has without Dict.get
has-without keys end k there = refl
has-without keys (field j v f) k there = elim (Bool-cases (j == k)) [
  | inl same ↦
      let e : j ≡ k = (==_iff j k).0 same in
      ground (arith, has-without keys f k there, e, same, there)
  | inr apart ↦ ground (arith, has-without keys f k there, apart, there)
]

with_bind {ℓ ℓ' κ} :
    {A : Type ℓ} {B : Type ℓ'} {C : Type κ} (o : Option A) (f : A → Option B) (z : B)
    → (o >>= f) ≡ some z
    → ((x : A) → o ≡ some x → f x ≡ some z → C)
    → C
with_bind none f z e go = absurd (ground arith)
with_bind (some x) f z e go = go x refl e

-- The type and the payload of what is rebuilt
rebuild-Parts :
    (so eo : Option String) (event rebuilt : Fields) (t : String)
    → rebuild so eo event ≡ some (t, rebuilt)
    → (text_of (get event "event_type") ≡ some t)
      × ((p : Fields) × (object_of (get event "payload") ≡ some p)
          × (get rebuilt "payload" ≡ dict p))
unfolding rebuild get Dict.get
rebuild-Parts so eo event rebuilt t e =
    with_bind (full_text (get event "schema_version")) _ _ e (λ v is_v e1.
      with_bind (full_text (get event "event_id")) _ _ e1 (λ i is_i e2.
        with_bind (text_of (get event "event_type")) _ _ e2 (λ t' is_t e3.
          with_bind (full_text (get event "occurred_at")) _ _ e3 (λ o is_o e4.
            with_bind (full_text (get event "sdk_version")) _ _ e4 (λ s is_s e5.
              with_bind (object_of (get event "service")) _ _ e5 (λ c is_c e6.
                with_bind (object_of (get event "payload")) _ _ e6 (λ p is_p e7.
                  with_bind (full_text (get c "name")) _ _ e7 (λ n is_n e8.
                    with_bind (full_text (get c "environment")) _ _ e8 (λ m is_m e9. (
                      is_t ∙ ap (λ w. some w.0) (eq_of_some e9),
                      (p, is_p, ap (λ w. get w.1 "payload") (sym (eq_of_some e9))),
                    ))))))))))

text_of-str : (v : Json) (t : String) → text_of v ≡ some t → v ≡ str t
text_of-str v t e = ground arith

object_of-dict : (v : Json) (f : Fields) → object_of v ≡ some f → v ≡ dict f
object_of-dict v f e = ground arith

-- What `without_optional` leaves: the type of an exception, and a payload without the evidence.
fallback-Parts :
    (event fallback : Fields)
    → without_optional (dict event) ≡ some fallback
    → (one_of (get fallback "event_type") ("backend_exception" ∷ "frontend_exception" ∷ []) ≡ true)
      × ((p : Fields) × (get fallback "payload" ≡ dict (without evidence_fields p)))
unfolding without_optional
fallback-Parts event fallback e = with_bind (mapping (dict event)) _ _ e (λ fields is_fields e1.
    with_bind (mapping (get fields "payload")) _ _ e1 (λ payload is_payload e2.
      let (found, left) =
        kept
          (one_of (get fields "event_type") ("backend_exception" ∷ "frontend_exception" ∷ [])
            && has_any payload evidence_fields)
          (some (set_field fields "payload" (dict (without evidence_fields payload)))) fallback
          e2 in
      let same : set_field fields "payload" (dict (without evidence_fields payload)) ≡ fallback =
        eq_of_some left in
      let kind : get fallback "event_type" ≡ get fields "event_type" =
        ap (λ f. get f "event_type") (sym same) ∙ get-set_field fields "payload" _ "event_type" in
      let bare : get fallback "payload" ≡ dict (without evidence_fields payload) =
        ap (λ f. get f "payload") (sym same) ∙ get-set_field fields "payload" _ "payload" in
      (rw kind (ground (arith, found)), (payload, bare))))

not_diagnostic :
    (t : String)
    → contains ("backend_exception" ∷ "frontend_exception" ∷ []) t ≡ true
    → (t == "diagnostic_context") ≡ false
unfolding contains
not_diagnostic t e = elim (Bool-cases ("backend_exception" == t)) [
  | inl same ↦ ap (λ u. u == "diagnostic_context") (sym ((==_iff "backend_exception" t).0 same))
  | inr apart ↦ elim (Bool-cases ("frontend_exception" == t)) [
    | inl same ↦ ap (λ u. u == "diagnostic_context") (sym ((==_iff "frontend_exception" t).0 same))
    | inr apart_too ↦ absurd (ground (arith, apart, apart_too, e))
  ]
]

without_evidence : (p : Fields) → has_evidence_field (dict (without evidence_fields p)) ≡ false
unfolding contains
without_evidence p =
    let graph_gone : has (without evidence_fields p) "exception_evidence" ≡ false =
      has-without evidence_fields p "exception_evidence" refl in
    let execution_gone : has (without evidence_fields p) "execution" ≡ false =
      has-without evidence_fields p "execution" refl in
    let resources_gone : has (without evidence_fields p) "resource_observations" ≡ false =
      has-without evidence_fields p "resource_observations" refl in
    ground (arith, graph_gone, execution_gone, resources_gone)

-- What is rebuilt from a fallback is not held to the validators of evidence.
rebuilt-plain :
    (so eo : Option String) (event fallback rebuilt : Fields) (t : String)
    → without_optional (dict event) ≡ some fallback
    → rebuild so eo fallback ≡ some (t, rebuilt)
    → carries_evidence t rebuilt ≡ false
rebuilt-plain so eo event fallback rebuilt t left made =
    let (kind, (p, bare)) = fallback-Parts event fallback left in
    let (is_t, (q, is_q, at_q)) = rebuild-Parts so eo fallback rebuilt t made in
    let typed : get fallback "event_type" ≡ str t =
      text_of-str (get fallback "event_type") t is_t in
    let same : dict q ≡ dict (without evidence_fields p) =
      sym (object_of-dict (get fallback "payload") q is_q) ∙ bare in
    let no_diagnostic : (t == "diagnostic_context") ≡ false = not_diagnostic t (rw typed at kind) in
    let no_evidence : has_evidence_field (get rebuilt "payload") ≡ false =
      ap has_evidence_field (at_q ∙ same) ∙ without_evidence p in
    ground (arith, no_diagnostic, no_evidence)

module _ (h : RelayHost) (so eo : Option String) where
  plain_rest :
      (again again' : Fields → Option Fields) (evidence valid : Bool) (s : Sanitized)
      → evidence ≡ false
      → (if evidence && not valid then none else finish h again evidence s)
        ≡ (if evidence && not valid then none else finish h again' evidence s)
  plain_rest again again' true valid s e = absurd (cc)
  plain_rest again again' false valid (unsafe event) e = refl
  plain_rest again again' false valid refused e = refl
  plain_rest again again' false valid (clean event) e = refl

  -- An event that is not held to the validators is never sanitized again.
  plain_step :
      (again again' : Fields → Option Fields) (event : Fields)
      → ((t : String) (rebuilt : Fields)
          → rebuild so eo event ≡ some (t, rebuilt)
          → carries_evidence t rebuilt ≡ false)
      → sanitize_step h so eo again event ≡ sanitize_step h so eo again' event
  plain_step again again' event plain = elim (Option-cases (rebuild so eo event)) [
    | inl missing ↦ rw missing refl
    | inr ((t, rebuilt), made) ↦ rw made (
        plain_rest again again' (carries_evidence t rebuilt) (valid_event h rebuilt)
          (sanitize_fields h rebuilt) (plain t rebuilt made))
  ]

  -- Two ways to sanitize a fallback, which agree on each fallback.
  abbrev Agree : (Fields → Option Fields) → (Fields → Option Fields) → Type 0
  Agree again again' =
      (event fallback : Fields)
      → without_optional (dict event) ≡ some fallback
      → again fallback ≡ again' fallback

  same_retry :
      (again again' : Fields → Option Fields) (event : Fields)
      → Agree again again'
      → retry h again event ≡ retry h again' event
  same_retry again again' event same = elim (Option-cases (without_optional (dict event))) [
    | inl missing ↦ rw missing refl
    | inr (fallback, left) ↦ rw left (same event fallback left)
  ]

  same_finish :
      (again again' : Fields → Option Fields)
      → Agree again again'
      → (evidence : Bool) (s : Sanitized) → finish h again evidence s ≡ finish h again' evidence s
  same_finish again again' same evidence (unsafe event) =
      ap (λ r. if evidence then r else none) (same_retry again again' event same)
  same_finish again again' same evidence refused = refl
  same_finish again again' same evidence (clean event) =
      ap
        (λ r.
          if evidence && (not (valid_event h event) || not (validate_evidence h.wire (dict event)))
          then r
          else some event)
        (same_retry again again' event same)

  same_step :
      (again again' : Fields → Option Fields) (event : Fields)
      → Agree again again'
      → sanitize_step h so eo again event ≡ sanitize_step h so eo again' event
  same_step again again' event same = elim (Option-cases (rebuild so eo event)) [
    | inl missing ↦ rw missing refl
    | inr ((t, rebuilt), made) ↦ rw made (
        ap (λ r. if carries_evidence t rebuilt && not (valid_event h rebuilt) then none else r)
          (same_finish again again' same (carries_evidence t rebuilt) (sanitize_fields h rebuilt)))
  ]

  -- A call of _sanitize_event for a fallback makes no further call, so any number of rounds from two on
  -- gives the same.
  sanitize_rounds_enough :
      (rounds : ℕ) (event : Fields)
      → sanitize_rounds h so eo (suc (suc rounds)) event ≡ sanitize_event h so eo event
  unfolding sanitize_event
  sanitize_rounds_enough rounds event =
      same_step (sanitize_rounds h so eo (suc rounds)) (sanitize_rounds h so eo 1) event
        (λ e fallback left.
          plain_step (sanitize_rounds h so eo rounds) (sanitize_rounds h so eo 0) fallback
            (λ t rebuilt made. rebuilt-plain so eo e fallback rebuilt t left made))
