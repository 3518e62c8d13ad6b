-- ===== src/Relay/Delivered.antt =====
-- What it means that `_deliver_events` (src/debugbundle/relay.py) reports a delivery, by the mode of the
-- project.
use debugbundle_python.Prelude.{
  ℕ, ◌≡◌, ◌∙◌, refl, sym, ap, ◌⊎◌, inl, inr, String, Option, none, some, Bool, true, false, not,
  ◌&&◌, List, [], ◌∷◌, nat_eqb, arith, string_eq, ◌==◌, ==_iff, ==_refl, if◌then◌else◌, is_some,
  Bool-cases, Option-cases,
}
use debugbundle_python.Prelude.Dict
use debugbundle_python.Prelude.Dict.{Dict, get-put}
use debugbundle_python.Json.{Fields}
use debugbundle_python.Forward.{send_verified}
use debugbundle_python.Forward.Files.{
  Attempt, FileTransport, RelayWriteResult, Files, ◌&◌, written_bytes, write,
  mark_spool_file_delivered,
}
use debugbundle_python.Forward.Files.Atomic.{Written, write-Written}
use debugbundle_python.Relay.{Relay}
use debugbundle_python.Relay.Delivery.{
  Env, is_mode, full, forward_connected_events, mark_delivered, after_spool, write_local,
  write_spool, service_name_of, deliver_events,
}

-- A file holds what `os.write` has taken of the events.
abbrev pub IsStored : Env → List Fields → Files → Type 0
IsStored env events files =
    (name : String) × (bytes : List ℕ) × (written_bytes env.attempt.written
        (env.attempt.encoded events)
      ≡ some bytes)
    × (Dict.get files name ≡ some bytes)

-- The events were sent, and `send_verified` reports a success.
abbrev pub IsForwarded : Env → Relay → List Fields → Bool → Type 0
IsForwarded env r events discover =
    (token : String) × (full r.project_token ≡ some token)
    × (r.has_forwarder ≡ true)
    × ((send_verified env.world env.dumps r.forwarder token events discover).1.1 ≡ true)

-- What was done with the events: a local project stores them, a connected one stores them or sends
-- them, and any other drops them.
abbrev pub DeliveredAs :
    Env → Relay → List Fields → Bool → Relay → (local connected durable : Bool) → Type 0
DeliveredAs env r events discover r' true connected durable = IsStored env events r'.local_files
DeliveredAs env r events discover r' false true true = IsStored env events r'.spool_files
DeliveredAs env r events discover r' false true false = IsForwarded env r events discover
DeliveredAs env r events discover r' false false durable = r' ≡ r

-- A write that was answered with 202
record IsKept (a : Attempt) (events : List Fields) (files : Files) (r : RelayWriteResult)
    : Type 0 where
  final : String
  path : r.written_file_path ≡ some final
  bytes : List ℕ
  whole : written_bytes a.written (a.encoded events) ≡ some bytes
  there : Dict.get files final ≡ some bytes

Written-IsKept :
    (a : Attempt) (before files : Files) (final : String) (events : List Fields)
    (r : RelayWriteResult)
    → Written a before final events (files, r)
    → nat_eqb r.status_code 202 ≡ true
    → IsKept a events files r
Written-IsKept a before files final events r (inl (failed, same)) ok =
    let code : r.status_code ≡ 500 = ap (λ (x : RelayWriteResult). x.status_code) failed in
    absurd (ground (arith, code, ok))
Written-IsKept a before files final events r (inr (done, (bytes, all, at))) ok = record {
  final = final;
  path = ap (λ (x : RelayWriteResult). x.written_file_path) done;
  bytes = bytes;
  whole = all;
  there = at final ∙ ap (λ b. if b then some bytes else Dict.get before final) (==_refl final);
}

-- The marker of a spool file is another file.
marked-same :
    (show : ℕ → String) (regular can : Bool) (path name : String) (files : Files) (bytes : List ℕ)
    → Dict.get files name ≡ some bytes
    → Dict.get (mark_spool_file_delivered show regular can path files) name ≡ some bytes
unfolding mark_spool_file_delivered
marked-same show regular can path name files bytes at =
    elim (Bool-cases (regular && can && not (is_some (Dict.get files (path & ".delivered"))))) [
      | inr unmarked ↦ rw unmarked at
      | inl marked ↦ elim (Bool-cases ((path & ".delivered") == name)) [
        | inr other ↦ rw marked (get-put files (path & ".delivered") [] name ∙ (rw other at))
        | inl same ↦
            let here : Dict.get files (path & ".delivered") ≡ some bytes =
              ap (Dict.get files) ((==_iff (path & ".delivered") name).0 same) ∙ at in
            absurd (ground (arith, here, marked))
      ]
    ]

module _ (env : Env) where
  -- What a local project is told of its write
  write_local-IsStored :
      (r : Relay) (e : Fields) (es : List Fields) (t : FileTransport)
      → let (t', (files, result)) = write env.show env.attempt t (e ∷ es) r.local_files in
        nat_eqb result.status_code 202 ≡ true → IsStored env (e ∷ es) files
  write_local-IsStored r e es t ok =
      let k =
        Written-IsKept env.attempt r.local_files _ _ (e ∷ es) _
          (write-Written env.show env.attempt t e es r.local_files) ok in
      (k.final, k.bytes, k.whole, k.there)

  mark_delivered-same :
      (r : Relay) (complete : Bool) (path : Option String) (name : String) (bytes : List ℕ)
      → Dict.get r.spool_files name ≡ some bytes
      → Dict.get (mark_delivered env r complete path).spool_files name ≡ some bytes
  mark_delivered-same r false path name bytes at = at
  mark_delivered-same r true none name bytes at = at
  mark_delivered-same r true (some path) name bytes at =
      marked-same env.show env.is_regular env.can_mark path name r.spool_files bytes at

  forward_connected_events-same :
      (r : Relay) (events : List Fields) (discover : Bool)
      → (forward_connected_events env r events discover).0.spool_files ≡ r.spool_files
  forward_connected_events-same r events discover = elim (Option-cases (full r.project_token)) [
    | inl none_set ↦ rw (none_set, forward_connected_events) refl
    | inr (token, set) ↦ elim (Bool-cases r.has_forwarder) [
      | inl there ↦ rw (set, forward_connected_events) (rw there refl)
      | inr missing ↦ rw (set, forward_connected_events) (rw missing refl)
    ]
  ]

  -- What is left after the write to the spool
  after_spool-IsStored :
      (r : Relay) (events : List Fields) (discover : Bool) (result : RelayWriteResult)
      → IsKept env.attempt events r.spool_files result
      → nat_eqb result.status_code 202 ≡ true
      → IsStored env events (after_spool env r events discover result).0.spool_files
  after_spool-IsStored r events discover result k ok =
      let sent = forward_connected_events env r events discover in
      let at : Dict.get sent.0.spool_files k.final ≡ some k.bytes =
        ap (λ f. Dict.get f k.final) (forward_connected_events-same r events discover) ∙ k.there in
      rw ok (
        k.final,
        k.bytes,
        k.whole,
        mark_delivered-same sent.0 sent.1.2 result.written_file_path k.final k.bytes at,
      )

  after_spool-ok :
      (r : Relay) (events : List Fields) (discover : Bool) (result : RelayWriteResult)
      → (after_spool env r events discover result).1 ≡ true
      → nat_eqb result.status_code 202 ≡ true
  after_spool-ok r events discover result e = elim (Bool-cases (nat_eqb result.status_code 202)) [
    | inl ok ↦ ok
    | inr failed ↦ absurd (let no : false ≡ true = rw failed at e in cc)
  ]

  -- The events are sent where there is a token and a forwarder.
  forward_connected_events-sent :
      (r : Relay) (events : List Fields) (discover : Bool) (token : String)
      → full r.project_token ≡ some token
      → r.has_forwarder ≡ true
      → (forward_connected_events env r events discover).1
        ≡ (send_verified env.world env.dumps r.forwarder token events discover).1
  forward_connected_events-sent r events discover token set there =
      rw (set, forward_connected_events) (rw there refl)

  forward_connected_events-unsent :
      (r : Relay) (events : List Fields) (discover : Bool)
      → (full r.project_token ≡ none) ⊎ (r.has_forwarder ≡ false)
      → (forward_connected_events env r events discover).1.0 ≡ false
  forward_connected_events-unsent r events discover (inl none_set) =
      rw (none_set, forward_connected_events) refl
  forward_connected_events-unsent r events discover (inr missing) =
      elim (Option-cases (full r.project_token)) [
        | inl none_set ↦ rw (none_set, forward_connected_events) refl
        | inr (token, set) ↦ rw (set, forward_connected_events) (rw missing refl)
      ]

  forward_connected_events-IsForwarded :
      (r : Relay) (events : List Fields) (discover : Bool)
      → ((forward_connected_events env r events discover).1.0
          && (forward_connected_events env r events discover).1.1)
        ≡ true
      → IsForwarded env r events discover
  forward_connected_events-IsForwarded r events discover e =
      elim (Option-cases (full r.project_token)) [
        | inl none_set ↦
            let unsent = forward_connected_events-unsent r events discover (inl none_set) in
            absurd (ground (arith, e, unsent))
        | inr (token, set) ↦ elim (Bool-cases r.has_forwarder) [
          | inr missing ↦
              let unsent = forward_connected_events-unsent r events discover (inr missing) in
              absurd (ground (arith, e, unsent))
          | inl there ↦
              let sent = forward_connected_events-sent r events discover token set there in
              let done : (forward_connected_events env r events discover).1.1 ≡ true =
                ground (arith, e) in
              (token, set, there, sym (ap (λ (p : Bool × Bool × Bool). p.1) sent) ∙ done)
        ]
      ]

  -- The branches of `_deliver_events`
  write_spool-IsStored :
      (r : Relay) (e : Fields) (es : List Fields) (discover : Bool) (t : FileTransport)
      (transports : Dict String FileTransport)
      → let (t', (files, result)) = write env.show env.attempt t (e ∷ es) r.spool_files in
        let r' : Relay = record r { spool_transports = transports; spool_files = files } in
        (after_spool env r' (e ∷ es) discover result).1 ≡ true
        → IsStored env (e ∷ es) (after_spool env r' (e ∷ es) discover result).0.spool_files
  write_spool-IsStored r e es discover t transports done =
      let (t', (files, result)) = write env.show env.attempt t (e ∷ es) r.spool_files in
      let r' : Relay = record r { spool_transports = transports; spool_files = files } in
      let ok = after_spool-ok r' (e ∷ es) discover result done in
      after_spool-IsStored r' (e ∷ es) discover result
        (Written-IsKept env.attempt r.spool_files files _ (e ∷ es) result
          (write-Written env.show env.attempt t e es r.spool_files) ok)
        ok

  abbrev by_mode :
      Relay → String → List Fields → Bool → (local connected durable : Bool) → Relay × Bool
  by_mode r name events discover local connected durable =
      if local
      then write_local env r name events
      else if not connected
      then (r, true)
      else if durable
      then write_spool env r name events discover
      else (let (r', (configured, succeeded, complete)) =
            forward_connected_events env r events discover in
          (r', configured && succeeded))

  by_mode-DeliveredAs :
      (r : Relay) (name : String) (e : Fields) (es : List Fields) (discover : Bool)
      (local connected durable : Bool)
      → (by_mode r name (e ∷ es) discover local connected durable).1 ≡ true
      → DeliveredAs env r
          (e ∷ es)
          discover
          (by_mode r name (e ∷ es) discover local connected durable).0
          local
          connected
          durable
  by_mode-DeliveredAs r name e es discover true connected durable ok =
      write_local-IsStored r e es _ ok
  by_mode-DeliveredAs r name e es discover false true true ok =
      write_spool-IsStored r e es discover _ _ ok
  by_mode-DeliveredAs r name e es discover false true false ok =
      forward_connected_events-IsForwarded r (e ∷ es) discover ok
  by_mode-DeliveredAs r name e es discover false false durable ok = refl

  -- Where `_deliver_events` reports a delivery of some events
  pub deliver_events-DeliveredAs :
      (r : Relay) (e : Fields) (es : List Fields) (discover : Bool)
      → (deliver_events env r (e ∷ es) discover).1 ≡ true
      → DeliveredAs env r
          (e ∷ es)
          discover
          (deliver_events env r (e ∷ es) discover).0
          (is_mode r.project_mode "local-only")
          (is_mode r.project_mode "connected")
          r.durable_write
  unfolding deliver_events
  deliver_events-DeliveredAs r e es discover ok =
      by_mode-DeliveredAs r (service_name_of r (e ∷ es)) e es discover
        (is_mode r.project_mode "local-only") (is_mode r.project_mode "connected") r.durable_write
        ok
