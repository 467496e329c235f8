-- ===== src/Control/Gateways/History.antt =====
-- What a gateway is told after a session was revoked, whatever the services of
-- crates/wsl-control/src/services do in between.
use wslvpn.Base.{ℕ, ◌≡◌, List, [], ◌∷◌, Any}
use wslvpn.Base.Int.{ℤ}
use wslvpn.Base.Text.{Text}
use wslvpn.Base.Net.{Networks}
use wslvpn.Types.{GatewayConfig}
use wslvpn.Control.Database.{Database}
use wslvpn.Control.Database.Keeps.{Keeps, keeps_rules}
use wslvpn.Control.Database.Leads.{Post}
use wslvpn.Control.Sessions.{
  CreateSessionRequest, create, revoke, revoke_user_sessions, revoke_device_sessions,
}
use wslvpn.Control.Sessions.Peers.{
  PeersBacked, create-PeersBacked, revoke-PeersBacked, revoke_all-PeersBacked,
}
use wslvpn.Control.Sessions.Revoking.{revoke-IsWithdrawn}
use wslvpn.Control.Gateways.{config, heartbeat}
use wslvpn.Control.Gateways.Serving.{
  Unserved, Unserved-after, config-PeersBacked, heartbeat-PeersBacked,
}
use wslvpn.Control.Gateways.Withdrawn.{
  StaysOver, revoke-HasRow, create-StaysOver, revoke-StaysOver, revoke_all-StaysOver,
  config-StaysOver, heartbeat-StaysOver,
}

-- The calls that change sessions or peers, with their arguments, the time of the call and the ids that it
-- makes up.
pub data Call : Type 0 where
  creating :
      (now : ℤ) (session_id peer_id user_id : ℕ) (email : Text) (req : CreateSessionRequest) → Call
  revoking : (session_id : ℕ) → Call
  revoking_user : (user_id : ℕ) → Call
  revoking_device : (device_id : ℕ) → Call
  configuring : (default_port : ℕ) (now : ℤ) (gateway_id : ℕ) → Call
  beating : (default_port : ℕ) (now : ℤ) (gateway_id : ℕ) → Call

-- The tables that a call leaves, whether it answers or fails.
abbrev pub after_call : Networks → Call → Database → Database
after_call nets (creating now session_id peer_id user_id email req) t =
    (create nets now session_id peer_id user_id email req t).1
after_call nets (revoking session_id) t = (revoke session_id t).1
after_call nets (revoking_user user_id) t = (revoke_user_sessions user_id t).1
after_call nets (revoking_device device_id) t = (revoke_device_sessions device_id t).1
after_call nets (configuring default_port now gateway_id) t =
    (config nets default_port now gateway_id t).1
after_call nets (beating default_port now gateway_id) t =
    (heartbeat nets default_port now gateway_id t).1

abbrev pub after_calls : Networks → List Call → Database → Database
after_calls nets [] t = t
after_calls nets (call ∷ calls) t = after_calls nets calls (after_call nets call t)

revoke_user_sessions-PeersBacked : (id : ℕ) → Keeps PeersBacked (revoke_user_sessions id)
unfolding revoke_user_sessions
revoke_user_sessions-PeersBacked id = search (keeps_rules, revoke_all-PeersBacked)

revoke_device_sessions-PeersBacked : (id : ℕ) → Keeps PeersBacked (revoke_device_sessions id)
unfolding revoke_device_sessions
revoke_device_sessions-PeersBacked id = search (keeps_rules, revoke_all-PeersBacked)

module _ (nets : Networks) where
  after_call-PeersBacked :
      (call : Call) (t : Database) → PeersBacked t → PeersBacked (after_call nets call t)
  after_call-PeersBacked (creating now session_id peer_id user_id email req) t h =
      (create-PeersBacked nets now session_id peer_id user_id email req).after t h
  after_call-PeersBacked (revoking id) t h = (revoke-PeersBacked id).after t h
  after_call-PeersBacked (revoking_user id) t h = (revoke_user_sessions-PeersBacked id).after t h
  after_call-PeersBacked (revoking_device id) t h =
      (revoke_device_sessions-PeersBacked id).after t h
  after_call-PeersBacked (configuring port now id) t h =
      (config-PeersBacked nets port now id).after t h
  after_call-PeersBacked (beating port now id) t h =
      (heartbeat-PeersBacked nets port now id).after t h

  module _ (id : ℕ) where
    revoke_user_sessions-StaysOver :
        (user_id : ℕ) → Keeps (StaysOver id) (revoke_user_sessions user_id)
    unfolding revoke_user_sessions
    revoke_user_sessions-StaysOver user_id = search (keeps_rules, revoke_all-StaysOver)

    revoke_device_sessions-StaysOver :
        (device_id : ℕ) → Keeps (StaysOver id) (revoke_device_sessions device_id)
    unfolding revoke_device_sessions
    revoke_device_sessions-StaysOver device_id = search (keeps_rules, revoke_all-StaysOver)

    after_call-StaysOver :
        (call : Call) (t : Database) → StaysOver id t → StaysOver id (after_call nets call t)
    after_call-StaysOver (creating now session_id peer_id user_id email req) t h =
        (create-StaysOver id nets now session_id peer_id user_id email req).after t h
    after_call-StaysOver (revoking other) t h = (revoke-StaysOver id other).after t h
    after_call-StaysOver (revoking_user user_id) t h =
        (revoke_user_sessions-StaysOver user_id).after t h
    after_call-StaysOver (revoking_device device_id) t h =
        (revoke_device_sessions-StaysOver device_id).after t h
    after_call-StaysOver (configuring port now gateway_id) t h =
        (config-StaysOver id nets port now gateway_id).after t h
    after_call-StaysOver (beating port now gateway_id) t h =
        (heartbeat-StaysOver id nets port now gateway_id).after t h

    still-Unserved :
        (calls : List Call) (default_port : ℕ) (now : ℤ) (gateway_id : ℕ) (t : Database)
        → PeersBacked t
        → StaysOver id t
        → Post {A = GatewayConfig}
            (λ answer after. Unserved id answer)
            (λ after. Unit)
            (heartbeat nets default_port now gateway_id (after_calls nets calls t)).0
            (heartbeat nets default_port now gateway_id (after_calls nets calls t)).1
    still-Unserved [] default_port now gateway_id t backed over =
        Unserved-after nets default_port now gateway_id id t backed over.1
    still-Unserved (call ∷ calls) default_port now gateway_id t backed over =
        still-Unserved calls default_port now gateway_id (after_call nets call t)
          (after_call-PeersBacked call t backed) (after_call-StaysOver call t over)

-- After a session in the tables is revoked, no configuration that a heartbeat answers with ever has a peer
-- of it, whichever gateway asks and whatever the time is, and whatever calls came in between, in any
-- number and order: creating sessions, revoking one, all of a user or all of a device, configurations
-- and heartbeats, whether they answered or failed. Every peer had an active session before.
pub revoke-after_calls :
    (nets : Networks) (session_id : ℕ) (calls : List Call) (default_port : ℕ) (now : ℤ)
    (gateway_id : ℕ) (t : Database)
    → PeersBacked t
    → Any (λ s. s.id ≡ session_id) t.sessions
    → let later = after_calls nets calls (revoke session_id t).1 in
      Post {A = GatewayConfig}
        (λ answer after. Unserved session_id answer)
        (λ after. Unit)
        (heartbeat nets default_port now gateway_id later).0
        (heartbeat nets default_port now gateway_id later).1
revoke-after_calls nets session_id calls default_port now gateway_id t backed there =
    still-Unserved nets session_id calls default_port now gateway_id (revoke session_id t).1
      ((revoke-PeersBacked session_id).after t backed)
      (
        (revoke-HasRow session_id session_id).after t there,
        (revoke-IsWithdrawn session_id t backed).1,
      )
