-- ===== src/Reconcile/Budget.antt =====
-- `reconcile_diagnostic` writes the diagnostic budget and nothing else, and keeps its accounts
-- (src/debugbundle/evidence_delivery.py).
use debugbundle_python.Prelude.{
  ℕ, String, ◌≡◌, refl, ap, Option, none, some, true, false, not, ◌||◌, [], ◌∷◌, inl, inr,
  Bool-cases, Option-cases,
}
use debugbundle_python.Json.{Fields, get}
use debugbundle_python.Evidence.{is_text}
use debugbundle_python.Diagnostics
use debugbundle_python.Diagnostics.{Payload, DiagnosticCaptureBudget}
use debugbundle_python.Diagnostics.Valid.{IsValid}
use debugbundle_python.Diagnostics.Valid.Entries.{release-IsAccounted}
use debugbundle_python.Diagnostics.Valid.Registering.{register_failure-IsValid}
use debugbundle_python.Diagnostics.Valid.Reserving.{reserve-IsValid}
use debugbundle_python.Diagnostics.Valid.Replacing.{replace-IsValid}
use debugbundle_python.Sdk.{Sdk, Event, Host, event_type_is, event_id, text_of}
use debugbundle_python.Reconcile.{
  release_original, charge_diagnostic, register_reference, reconcile_with, reconcile_diagnostic,
  diagnostic_id, allows_recovery, payload_of, fields_of, selected_reference,
}

-- A state that differs from another in the budget alone, which is valid.
pub record Writes (host : Host) (s s' : Sdk) : Type 0 where
  pub only : s' ≡ record s { diagnostics = s'.diagnostics }
  pub valid : IsValid host.json s'.diagnostics

module _ (host : Host) where
  Writes-refl : (s : Sdk) → IsValid host.json s.diagnostics → Writes host s s
  Writes-refl s h = record { only = refl; valid = h }

  release_original-Writes :
      (id : Option String) (s : Sdk)
      → IsValid host.json s.diagnostics
      → Writes host s (release_original host id s)
  release_original-Writes none s h = Writes-refl s h
  release_original-Writes (some id) s h = record {
    only = refl;
    valid = release-IsAccounted host.json _ (id ∷ []) s.diagnostics h;
  }

  charge_diagnostic-Writes :
      (s : Sdk) (id : Option String) (e : Event) (payload : Payload) (now : ℕ)
      → IsValid host.json s.diagnostics
      → Writes host s (charge_diagnostic host s id e payload now).0
  charge_diagnostic-Writes s none e payload now h = record {
    only = refl;
    valid = reserve-IsValid host.json s.diagnostics (event_id e) payload (host.event_bytes e) now h;
  }
  charge_diagnostic-Writes s (some id) e payload now h = record {
    only = refl;
    valid =
        replace-IsValid host.json s.diagnostics id (event_id e) payload (host.event_bytes e) now h;
  }

  register_reference-Writes :
      (selected : Option Fields) (original : Option Event) (e : Event) (s s' : Sdk)
      → Writes host s s'
      → Writes host s (register_reference host selected original e s')
  unfolding register_reference
  register_reference-Writes (some fields) (some original) e s s' w =
      let payload = payload_of host fields in
      elim (Option-cases (host.parse_time (text_of (get e.fields "occurred_at")))) [
        | inl bad ↦ rw (bad, register_reference) w
        | inr (at, good) ↦
            let d =
              (Diagnostics.register_failure host.json s'.diagnostics payload (event_id e) at).0 in
            rw (good, register_reference)
              (record {
                only = ap {A = Sdk} {B = Sdk} (λ x. record x { diagnostics = d }) w.only;
                valid =
                    register_failure-IsValid host.json s'.diagnostics payload (event_id e) at
                      w.valid;
              })
      ]
  register_reference-Writes (some fields) none e s s' w = w
  register_reference-Writes none original e s s' w = w

  reconcile_with-Writes :
      (s : Sdk) (original : Option Event) (e : Event) (now : ℕ)
      → IsValid host.json s.diagnostics
      → Writes host s (reconcile_with host s original e now).0
  unfolding reconcile_with
  reconcile_with-Writes s original e now h =
      let payload = fields_of host (get e.fields "payload") in
      let id = diagnostic_id host original in
      elim (Bool-cases (event_type_is e "diagnostic_context")) [
        | inl diagnostic ↦
            rw diagnostic
              (elim (Bool-cases
                (not (is_text (get payload "kind") "recovery") || not (allows_recovery host s))) [
                  | inl refused ↦ rw refused (release_original-Writes id s h)
                  | inr allowed ↦
                      rw allowed (charge_diagnostic-Writes s id e (payload_of host payload) now h)
                ])
        | inr other ↦ rw other (
            register_reference-Writes (selected_reference host (get e.fields "context")) original e
              s (release_original host id s) (release_original-Writes id s h))
      ]

  pub reconcile_diagnostic-Writes :
      (s : Sdk) (original replacement : Option Event) (now : ℕ)
      → IsValid host.json s.diagnostics
      → Writes host s (reconcile_diagnostic host s original replacement now).0
  unfolding reconcile_diagnostic
  reconcile_diagnostic-Writes s original none now h =
      release_original-Writes (diagnostic_id host original) s h
  reconcile_diagnostic-Writes s original (some e) now h = reconcile_with-Writes s original e now h

-- Only a diagnostic event can be refused.
pub reconcile_diagnostic_accepts :
    (host : Host) (s : Sdk) (original : Option Event) (e : Event) (now : ℕ)
    → event_type_is e "diagnostic_context" ≡ false
    → (reconcile_diagnostic host s original (some e) now).1 ≡ true
unfolding reconcile_diagnostic reconcile_with
reconcile_diagnostic_accepts host s original e now other = rw other refl
