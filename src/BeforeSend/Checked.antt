-- ===== src/BeforeSend/Checked.antt =====
-- What `apply_before_send` (src/debugbundle/before_send.py) gives on.
use debugbundle_python.Prelude.{
  ◌≤◌, ◌≡◌, refl, ap, ◌∙◌, sym, ◌⊎◌, inl, inr, String, Option, none, some, Bool, true, false, ◌&&◌,
  List, [], ◌∷◌, arith, Bool-cases,
}
use debugbundle_python.Json.{Json, null, bool, int, float, str, list, dict}
use debugbundle_python.Evidence.Shapes.{WireHost}
use debugbundle_python.Evidence.Events.{validate_evidence}
use debugbundle_python.CanonicalEvent.{Copied, copied, exhausted, invalid, own_json}
use debugbundle_python.CanonicalEvent.Owned.{size, depth, own_json-same}
use debugbundle_python.CanonicalEvent.Schema.{SchemaHost}
use debugbundle_python.CanonicalEvent.Compiled.{valid_owned_event}
use debugbundle_python.BeforeSend.{
  Answer, raised, nothing, foreign, value, Normalized, accepted, rejected, withheld, front_of,
  judged, normalized_copy, normalized, after_check, after_hook, apply_before_send,
}

module _ (w : WireHost) (h : SchemaHost) (schema : Json) where
  -- An event that passes every check of the hook's result.
  pub record IsEvent (event : Json) : Type 0 where
    pub small : size event ≤ 4_096
    pub shallow : depth event ≤ 16
    pub valid : valid_owned_event w h schema event ≡ some true
    pub evidence : validate_evidence w event ≡ true
    pub front : front_of event ≡ true

  both : (a b c : Bool) → (a && b && c) ≡ true → (a ≡ true) × (b ≡ true) × (c ≡ true)
  both true true true e = (refl, refl, refl)
  both true true false e = absurd (cc)
  both true false c e = absurd (cc)
  both false b c e = absurd (cc)

  judged-accepted :
      (owned out : Json) (verdict : Option Bool)
      → judged w h schema owned verdict ≡ accepted out
      → (out ≡ owned)
        × (verdict ≡ some true)
        × (validate_evidence w owned ≡ true)
        × (front_of owned ≡ true)
  judged-accepted owned out none e = absurd (ground arith)
  judged-accepted owned out (some valid) e =
      elim (Bool-cases (valid && validate_evidence w owned && front_of owned)) [
        | inl ok ↦
            let (a, b, c) = both valid (validate_evidence w owned) (front_of owned) ok in
            let same : accepted owned ≡ accepted out = rw ok at e in (ground arith, ap some a, b, c)
        | inr bad ↦ let same : rejected ≡ accepted out = rw bad at e in absurd (ground arith)
      ]

  copy-IsEvent :
      (event out : Json) (c : Copied Json)
      → own_json w event ≡ c
      → normalized_copy w h schema c ≡ accepted out
      → (out ≡ event) × IsEvent out
  copy-IsEvent event out exhausted made e = absurd (ground arith)
  copy-IsEvent event out invalid made e = absurd (ground arith)
  copy-IsEvent event out (copied r n owned) made e =
      let (same, small, shallow) = own_json-same w event r n owned made in
      let (is_owned, valid, evidence, front) = judged-accepted owned out _ e in
      let here : out ≡ event = is_owned ∙ same in
      (
        here,
        record {
          small = rw here small;
          shallow = rw here shallow;
          valid = rw is_owned valid;
          evidence = rw is_owned evidence;
          front = rw is_owned front;
        },
      )

  normalized-IsEvent :
      (answer : Answer) (out : Json)
      → normalized w h schema answer ≡ accepted out
      → (answer ≡ value out) × IsEvent out
  unfolding normalized
  normalized-IsEvent (value (dict event)) out e =
      let (same, checked) = copy-IsEvent (dict event) out (own_json w (dict event)) refl e in
      (ap value (sym same), checked)
  normalized-IsEvent (value null) out e = absurd (ground arith)
  normalized-IsEvent (value (bool b)) out e = absurd (ground arith)
  normalized-IsEvent (value (int z)) out e = absurd (ground arith)
  normalized-IsEvent (value (float x)) out e = absurd (ground arith)
  normalized-IsEvent (value (str s)) out e = absurd (ground arith)
  normalized-IsEvent (value (list items)) out e = absurd (ground arith)
  normalized-IsEvent raised out e = absurd (ground arith)
  normalized-IsEvent nothing out e = absurd (ground arith)
  normalized-IsEvent foreign out e = absurd (ground arith)

  -- What the checks leave: the answer of the hook, valid, without a diagnostic; nothing, where the hook
  -- gives None or its answer exceeds a budget; or the event as it was, with one diagnostic, where the
  -- hook raises or its answer is rejected.
  abbrev pub Outcome : Json → Answer → Option Json × List String → Type 0
  Outcome event answer (some out, []) = (answer ≡ value out) × IsEvent out
  Outcome event answer (some out, code ∷ []) =
      (out ≡ event) × ((answer ≡ raised) ⊎ (normalized w h schema answer ≡ rejected))
  Outcome event answer (none, []) = (answer ≡ nothing) ⊎ (normalized w h schema answer ≡ withheld)
  Outcome event answer (_, _) = ⊥

  check-Outcome :
      (event : Json) (answer : Answer) (n : Normalized)
      → normalized w h schema answer ≡ n
      → Outcome event answer (after_check w h schema event n)
  check-Outcome event answer (accepted out) e = normalized-IsEvent answer out e
  check-Outcome event answer rejected e = (refl, inr e)
  check-Outcome event answer withheld e = inr e

  hook-Outcome :
      (event : Json) (answer : Answer) → Outcome event answer (after_hook w h schema event answer)
  hook-Outcome event raised = (refl, inl refl)
  hook-Outcome event nothing = inl refl
  hook-Outcome event foreign = check-Outcome event foreign _ refl
  hook-Outcome event (value v) = check-Outcome event (value v) _ refl

  -- With a hook, apply_before_send gives on the answer of the hook only where it has at most 4096
  -- values and keys, is at most sixteen levels deep, and passes the schema, the evidence validators
  -- and the condition on front ends, without a diagnostic; it gives nothing only where the hook
  -- gives None or its answer exceeds a budget; and else it gives the event as it was with one
  -- diagnostic, where the hook raises or its answer is rejected.
  pub apply_before_send-Outcome :
      (event : Json) (hook : Json → Answer)
      → Outcome event (hook event) (apply_before_send w h schema event (some hook))
  unfolding apply_before_send
  apply_before_send-Outcome event hook = hook-Outcome event (hook event)
