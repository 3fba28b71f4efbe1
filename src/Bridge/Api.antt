-- ===== src/Bridge/Api.antt =====
-- What a bridge uses: the interface IBridgeAPI of the bus behind it and a Filter, each as a record
-- of operations on a state of its own, and the data of AbstractBridge (src/zerobus/bridge.h).
use zerobus.Prelude.{ℕ, Bool, true, false, List, [], ◌∷◌, ◌++◌, Option, none}
use zerobus.Messages.{ChannelId, Message, Operation, Msg}
use zerobus.Bus.Routing.{Outcome}

-- The calls of IBridgeAPI that a bridge makes. The first argument is the listener.
pub record BusApi : Type 1 where
  pub State : Type 0
  pub get_serial : ℕ → State → ChannelId
  pub set_serial : ℕ → ChannelId → State → Bool × State
  pub get_active_channels : ℕ → State → List ChannelId
  pub get_subscribed_channels : ℕ → State → List ChannelId
  pub is_channel : ChannelId → State → Bool
  pub update_subscription : ℕ → Operation → List ChannelId → State → State
  pub unsubscribe : ℕ → ChannelId → State → State
  pub unsubscribe_all_channels : ℕ → Bool → State → State
  pub unsubscribe_all : ℕ → State → State
  pub close_group : ℕ → ChannelId → State → State
  pub add_to_group : ℕ → ChannelId → ChannelId → State → Bool × State
  pub clear_return_path : ℕ → ChannelId → ChannelId → State → Bool × State
  pub dispatch_message : ℕ → Message → Bool → State → Outcome (Bool × State)

-- The virtual functions of Filter, and commit_rule_changed.
pub record FilterApi : Type 1 where
  pub Rules : Type 0
  pub on_incoming : ChannelId → Rules → Bool × Rules
  pub on_outgoing : ChannelId → Rules → Bool × Rules
  pub on_incoming_add_to_group : ChannelId → ChannelId → Rules → Bool × Rules
  pub on_outgoing_add_to_group : ChannelId → ChannelId → Rules → Bool × Rules
  pub on_incoming_close_group : ChannelId → Rules → Bool × Rules
  pub on_outgoing_close_group : ChannelId → Rules → Bool × Rules
  pub commit_rule_changed : Rules → Bool × Rules

-- Class Filter itself: every function returns true. Its state is `_clean`, which
-- commit_rule_changed tests and sets.
abbrev pub open_filter : FilterApi
open_filter = record {
  Rules = Bool;
  on_incoming = λ id clean. (true, clean);
  on_outgoing = λ id clean. (true, clean);
  on_incoming_add_to_group = λ group target clean. (true, clean);
  on_outgoing_add_to_group = λ group target clean. (true, clean);
  on_incoming_close_group = λ group clean. (true, clean);
  on_outgoing_close_group = λ group clean. (true, clean);
  commit_rule_changed = λ clean. (elim clean [ true ↦ false | false ↦ true ], true);
}

-- What a bridge stands on: the bus, the filter, std::hash on strings, and the bridge's own
-- address as a listener.
pub record Env : Type 1 where
  pub api : BusApi
  pub flt : FilterApi
  pub hash : ChannelId → ℕ
  pub self : ℕ

-- The data of AbstractBridge with the state of its bus and its filter. What it passes to `send`
-- and to `cycle_detection` is recorded, oldest first.
pub record Bridge (S F : Type 0) : Type 0 where
  pub bus : S
  pub filter : Option F
  pub cur_channels : List ChannelId
  pub send_mine_channels_lock : ℕ
  pub cycle_detected : Bool
  pub srl_hash : ℕ
  pub version : ℕ
  pub sent : List Msg
  pub cycle_reports : List Bool

abbrev pub BridgeOf : Env → Type 0
BridgeOf e = Bridge e.api.State e.flt.Rules

-- AbstractBridge::AbstractBridge, on a bus.
abbrev pub new_bridge : {S F : Type 0} → S → Bridge S F
new_bridge bus = record {
  bus = bus;
  filter = none;
  cur_channels = [];
  send_mine_channels_lock = 0;
  cycle_detected = false;
  srl_hash = 0;
  version = 0;
  sent = [];
  cycle_reports = [];
}

abbrev pub send : {S F : Type 0} → Msg → Bridge S F → Bridge S F
send m b = record b { sent = b.sent ++ (m ∷ []) }
