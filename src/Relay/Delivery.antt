-- ===== src/Relay/Delivery.antt =====
-- `_deliver_events` (src/debugbundle/relay.py).
use debugbundle_python.Prelude.{
  ℕ, String, Option, none, some, Bool, true, false, not, ◌&&◌, ◌||◌, List, [], ◌∷◌, nat_eqb,
  string_eq, ◌==◌, if◌then◌else◌, is_some, or_else,
}
use debugbundle_python.Prelude.Dict
use debugbundle_python.Prelude.Dict.{Dict}
use debugbundle_python.Json.{Json, Fields, dict, get}
use debugbundle_python.Forward.{World, send_verified}
use debugbundle_python.Forward.Files.{
  Attempt, FileTransport, RelayWriteResult, write, mark_spool_file_delivered,
}
use debugbundle_python.Forward.Names.{new_transport}
use debugbundle_python.Relay.{Relay}
use debugbundle_python.Relay.Events.{text_of}

-- `received_at` is the time in seconds, before it is formatted.
pub record BrowserRelayAcceptedBatch : Type 0 where
  pub events : List Fields
  pub headers : Dict String String
  pub ip_address : Option String
  pub received_at : ℕ

-- What a request meets: the time in seconds, the network and the file system, the encoder, the digits
-- of a number, whether the spool file is regular and its marker can be made, `str.strip`, and whether
-- the `on_accept` of the configuration returns.
pub record Env : Type 0 where
  pub now : ℕ
  pub world : World
  pub attempt : Attempt
  pub dumps : Fields → List ℕ
  pub show : ℕ → String
  pub is_regular : Bool
  pub can_mark : Bool
  pub strip : String → String
  pub on_accept : Option (BrowserRelayAcceptedBatch → Bool)

-- The transport of the service, which is made where there is none yet
abbrev fresh_transport : (String → String) → Dict String FileTransport → String → FileTransport
fresh_transport strip transports service_name =
    or_else (Dict.get transports service_name) (new_transport strip service_name)

abbrev pub is_mode : Option String → String → Bool
is_mode none mode = false
is_mode (some m) mode = m == mode

abbrev pub full : Option String → Option String
full none = none
full (some s) = if s == "" then none else some s

abbrev name_of_service : Json → String
name_of_service (dict service) = or_else (text_of (get service "name")) ""
name_of_service _ = ""

abbrev pub service_name_of : Relay → List Fields → String
service_name_of r [] = or_else (full r.service) ""
service_name_of r (e ∷ es) = or_else (full r.service) (name_of_service (get e "service"))

module _ (env : Env) where
  -- `_forward_connected_events`
  abbrev pub forward_connected_events : Relay → List Fields → Bool → Relay × (Bool × Bool × Bool)
  forward_connected_events r events discover = elim (full r.project_token) [
    | none ↦ (r, (false, false, false))
    | some token ↦
        if r.has_forwarder
        then (let (f, result) =
              send_verified env.world env.dumps r.forwarder token events discover in
            (record r { forwarder = f }, result))
        else (r, (false, false, false))
  ]

  abbrev pub write_local : Relay → String → List Fields → Relay × Bool
  write_local r name events =
      let (t, (files, result)) =
        write env.show env.attempt (fresh_transport env.strip r.local_transports name) events
          r.local_files in
      (
        record r { local_transports = Dict.put r.local_transports name t; local_files = files },
        nat_eqb result.status_code 202,
      )

  abbrev pub mark_delivered : Relay → Bool → Option String → Relay
  mark_delivered r false path = r
  mark_delivered r true none = r
  mark_delivered r true (some path) = record r {
    spool_files = mark_spool_file_delivered env.show env.is_regular env.can_mark path r.spool_files;
  }

  abbrev pub after_spool : Relay → List Fields → Bool → RelayWriteResult → Relay × Bool
  after_spool r events discover result =
      if not (nat_eqb result.status_code 202)
      then (r, false)
      else (let (r', (configured, succeeded, complete)) =
            forward_connected_events r events discover in
          (
            mark_delivered r' complete result.written_file_path,
            configured || is_some result.written_file_path,
          ))

  abbrev pub write_spool : Relay → String → List Fields → Bool → Relay × Bool
  write_spool r name events discover =
      let (t, (files, result)) =
        write env.show env.attempt (fresh_transport env.strip r.spool_transports name) events
          r.spool_files in
      after_spool
        (record r { spool_transports = Dict.put r.spool_transports name t; spool_files = files })
        events discover result

  -- `_deliver_events`
  unfoldable pub deliver_events : Relay → List Fields → Bool → Relay × Bool
  unfolding send_verified write
  deliver_events r events discover =
      if is_mode r.project_mode "local-only"
      then write_local r (service_name_of r events) events
      else if not (is_mode r.project_mode "connected")
      then (r, true)
      else if r.durable_write
      then write_spool r (service_name_of r events) events discover
      else (let (r', (configured, succeeded, complete)) =
            forward_connected_events r events discover in
          (r', configured && succeeded))
