-- ===== src/Evidence/Capabilities.antt =====
-- What a destination may be taken to support (src/debugbundle/evidence_wire.py,
-- src/debugbundle/evidence_delivery.py).
use mathlib.Core.List.{Sublist, nil-sublist}
use mathlib.Core.List.Sublist
use debugbundle_python.Prelude.{
  String, ◌≡◌, Option, none, some, Bool, true, false, not, ◌&&◌, List, [], ◌∷◌, contains, arith,
  string_eq, leb, length, inl, inr, Bool-cases, if◌then◌else◌, All, ==_refl,
}
use debugbundle_python.Json.{Json, dict, list, elements, get}
use debugbundle_python.Evidence.{
  features, ordered, checked_features, parse_features, parse_capabilities, observe, is_none,
  descriptor, any_missing, or_none, known_features, distinct, closed, is_version_one,
}

ordered-Sublist : (fs selected : List String) → Sublist (ordered fs selected) fs
ordered-Sublist [] selected = nil-sublist []
ordered-Sublist (f ∷ fs) selected = elim (Bool-cases (contains selected f)) [
  | inl chosen ↦ rw chosen (Sublist.cons-cons f (ordered-Sublist fs selected))
  | inr other ↦ rw other (Sublist.cons f (ordered-Sublist fs selected))
]

checked_features-Sublist : (o : Option (List String)) → Sublist (checked_features o) features
checked_features-Sublist none = nil-sublist features
checked_features-Sublist (some selected) = elim (Bool-cases (distinct selected)) [
  | inl good ↦ rw good (ordered-Sublist features selected)
  | inr twice ↦ rw twice (nil-sublist features)
]

parse_features-Sublist : (value : Json) → Sublist (parse_features value) features
unfolding parse_features
parse_features-Sublist (list items) = elim (Bool-cases (leb (length (elements items)) 4)) [
  | inl few ↦ rw few (checked_features-Sublist (known_features (elements items)))
  | inr many ↦ rw many (nil-sublist features)
]
parse_features-Sublist _ = nil-sublist features

parse_capabilities-Sublist : (value : Json) → Sublist (parse_capabilities value) features
unfolding parse_capabilities
parse_capabilities-Sublist (dict value) =
    elim (Bool-cases
      (closed value ("version" ∷ "features" ∷ []) && is_version_one (get value "version"))) [
        | inl good ↦ rw good (parse_features-Sublist (get value "features"))
        | inr bad ↦ rw bad (nil-sublist features)
      ]
parse_capabilities-Sublist _ = nil-sublist features

any_missing-All :
    (previous now : List String)
    → any_missing previous now ≡ false
    → All (λ f. contains now f ≡ true) previous
any_missing-All [] now h = tt
any_missing-All (f ∷ previous) now h = (ground arith, any_missing-All previous now (ground arith))

-- If the features are known ones in the order of FEATURES, each at most once, they are so after any
-- response.
observe-Sublist :
    (previous : List String) (body : Json) (required valid : Bool)
    → Sublist previous features
    → Sublist (observe previous body required valid).0 features
unfolding observe
observe-Sublist previous body required valid h =
    elim (Bool-cases (not required && is_none (descriptor body))) [
      | inl silent ↦ rw silent h
      | inr spoken ↦
          rw spoken
            (parse_capabilities-Sublist (if valid then or_none (descriptor body) else Json.null))
    ]

All-contains_from :
    (all rest : List String)
    → ((f : String) → contains rest f ≡ true → contains all f ≡ true)
    → All (λ f. contains all f ≡ true) rest
unfolding contains
All-contains_from all [] h = tt
All-contains_from all (f ∷ rest) h =
    (h f (ground (arith, ==_refl f)), All-contains_from all rest (λ g m. h g (ground (arith, m))))

All-contains : (previous : List String) → All (λ f. contains previous f ≡ true) previous
All-contains previous = All-contains_from previous previous (λ f m. m)

-- Where a response is not reported as a loss, every feature that was supported before is supported
-- after it.
observe_keeps :
    (previous : List String) (body : Json) (required valid : Bool)
    → (observe previous body required valid).1 ≡ false
    → All (λ f. contains (observe previous body required valid).0 f ≡ true) previous
unfolding observe
observe_keeps previous body required valid h =
    elim (Bool-cases (not required && is_none (descriptor body))) [
      | inl silent ↦ rw silent (All-contains previous)
      | inr spoken ↦ rw spoken (any_missing-All previous _ (rw spoken at h))
    ]
