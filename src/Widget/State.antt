-- ===== src/Widget/State.antt =====
-- The state of the widget's daemon, `Daemon` of apps/gpwidget/src/daemon/mod.rs, with the tracker
-- of daemon/stats.rs, the notifier of daemon/notify.rs and the context that daemon/connect_flow.rs
-- is started with. What the daemon does to its surroundings is a list of effects, the newest first;
-- what it reads of them, at one step, is a record. A cancellation token is the number of its
-- flow, a one-shot sender the number of its prompt. Generations are 64-bit counters that wrap.
-- A request is sent at once; the code sends some from tasks of their own, which may be later.
use Prim.Native.String.{String}
use global_protect_openconne.Prelude.{
  ℕ, ◌+◌, ◌%◌, ◌^◌, Bool, true, false, Option, none, some, List, [], ◌∷◌, if◌then◌else◌,
}
use global_protect_openconne.VpnState.{
  ConnectInfo, VpnState, disconnected, connected, connecting, disconnecting, reconnect_required,
}
use global_protect_openconne.Broadcast.{VpnEnv}
use global_protect_openconne.Widget.{ConnectView, Model, new_model, snapshot}
use global_protect_openconne.Widget.Messages.{
  Config, StatusMsg, ServerMsg, status, toast, ack, ToastLevel,
}

-- What the daemon reads of a request to connect; the rest of it is passed on unread.
pub record ConnectRequest : Type 0 where
  pub info : ConnectInfo
  pub restart_of : Option ℕ

-- The requests that the daemon sends.
pub data Request : Type 0 where
  connect_request : ConnectRequest → Request
  disconnect_request : Request

pub data Urgency : Type 0 where
  low normal critical : Urgency

-- The ticker of statistics; it reports the given time of connection.
pub record Ticker : Type 0 where
  pub baseline : List String
  pub since : ℕ
  pub interval : ℕ

pub record StatsTracker : Type 0 where
  pub baseline : List String
  pub task : Option Ticker

abbrev pub new_tracker : StatsTracker
new_tracker = record { baseline = []; task = none }

abbrev pub stop : StatsTracker → StatsTracker
stop t = record t { task = none }

abbrev pub on_connecting : List String → StatsTracker → StatsTracker
on_connecting interfaces t = record { baseline = interfaces; task = none }

abbrev pub on_connected : (since interval : ℕ) → StatsTracker → StatsTracker
on_connected since interval t = record t {
  task = some (record { baseline = t.baseline; since = since; interval = interval });
}

-- The time, the names of the network interfaces, the configuration if it could be read again,
-- whether a client listens to broadcasts, and whether the prompt still waits for its answer.
pub record Surroundings : Type 0 where
  pub now : ℕ
  pub interfaces : List String
  pub loaded : Option Config
  pub listening : Bool
  pub prompt_waits : Bool

abbrev pub is_disconnected : VpnState → Bool
is_disconnected disconnected = true
is_disconnected _ = false

abbrev pub is_connected : VpnState → Bool
is_connected (connected _) = true
is_connected _ = false

-- `VpnState::Connecting(_) | VpnState::Connected(_)`.
abbrev pub is_starting_or_connected : VpnState → Bool
is_starting_or_connected (connecting _) = true
is_starting_or_connected (connected _) = true
is_starting_or_connected _ = false

-- The states in which `disconnect` asks the service.
abbrev pub is_under_way : VpnState → Bool
is_under_way (connecting _) = true
is_under_way (connected _) = true
is_under_way (reconnect_required _) = true
is_under_way _ = false

abbrev pub is_connected_or_disconnecting : VpnState → Bool
is_connected_or_disconnecting (connected _) = true
is_connected_or_disconnecting disconnecting = true
is_connected_or_disconnecting _ = false

abbrev pub next_generation : ℕ → ℕ
next_generation n = (n + 1) % 2 ^ 64

module _ (C H : Type 0) (connect_view : ConnectInfo → Option ConnectView) where
  pub record FlowCtx : Type 0 where
    pub portal : String
    pub gateway_override : Option String
    pub config : Config
    pub vpn_env : VpnEnv C H

  pub data Effect : Type 0 where
    publish : ServerMsg → Effect
    answer : ServerMsg → Effect
    send : Request → Effect
    spawn_flow : (token : ℕ) → FlowCtx → Effect
    cancel_flow : (token : ℕ) → Effect
    start_watchdog : (generation : ℕ) → Effect
    start_expiry_warning : (generation delay : ℕ) → Effect
    start_quit_timeout : Effect
    notify : Urgency → (summary body : String) → Effect
    save_config : Config → Effect
    answer_prompt : (prompt : ℕ) (otp : String) → Effect
    popup : Effect

  -- `flows` counts the tokens made; `latest` is the line that new clients are given.
  pub record Daemon : Type 0 where
    pub model : Model C H connect_view
    pub latest : StatusMsg
    pub notifications : Bool
    pub effects : List Effect
    pub flows : ℕ
    pub connect_cancel : Option ℕ
    pub pending_otp : Option ℕ
    pub resume_gateway : Option String
    pub submitted_connect : Option ConnectRequest
    pub disconnect_requested : Bool
    pub quitting : Bool
    pub watchdog_generation : ℕ
    pub expiry_generation : ℕ
    pub stats : StatsTracker

  -- The daemon as `run` starts it.
  unfoldable pub new_daemon : Config → Daemon
  new_daemon config = record {
    model = new_model C H connect_view config;
    latest = snapshot C H connect_view (new_model C H connect_view config);
    notifications = config.notifications;
    effects = [];
    flows = 0;
    connect_cancel = none;
    pending_otp = none;
    resume_gateway = none;
    submitted_connect = none;
    disconnect_requested = false;
    quitting = false;
    watchdog_generation = 0;
    expiry_generation = 0;
    stats = new_tracker;
  }

  abbrev pub emit : Effect → Daemon → Daemon
  emit e d = record d { effects = e ∷ d.effects }

  abbrev pub with_model : Model C H connect_view → Daemon → Daemon
  with_model m d = record d { model = m }

  unfoldable pub publish_snapshot : Daemon → Daemon
  publish_snapshot d =
      let s = snapshot C H connect_view d.model in
      record d { latest = s; effects = publish (status s) ∷ d.effects }

  abbrev pub show_toast : ToastLevel → String → String → Daemon → Daemon
  show_toast level title message d = emit (publish (toast level title message)) d

  -- `Notifier::send`.
  abbrev pub notified : Urgency → String → String → Daemon → Daemon
  notified urgency summary body d =
      if d.notifications then emit (notify urgency summary body) d else d

  -- A toast and a notification of the same problem.
  abbrev pub alert : ToastLevel → String → String → Daemon → Daemon
  alert level title message d = notified critical title message (show_toast level title message d)

  abbrev pub acknowledge : Option ℕ → (ok : Bool) (error : Option String) → Daemon → Daemon
  acknowledge none b e d = d
  acknowledge (some n) b e d = emit (answer (ack n b e)) d
