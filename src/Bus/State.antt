-- ===== src/Bus/State.antt =====
-- The state of LocalBus (src/zerobus/local_bus.h) with the thread's TLState
-- (src/zerobus/local_bus.cpp). shared_ptr objects live on a heap: a channel or a mailbox is
-- named by its number there, so that a queued item and the maps can mean the same object. What
-- the bus calls on listeners and monitors is recorded in `events`, oldest first.
use zerobus.Prelude.{ℕ, ◌+◌, ◌-◌, Bool, false, ◌||◌, List, [], ◌∷◌, ◌++◌, map, ◌==◌, if◌then◌else◌}
pub use zerobus.Prelude.{update}
use zerobus.Messages.{ChannelId, Message}
use zerobus.Bus.Channel.{ChanDef, nullptr, new_channel}
use zerobus.Bus.BackPath.{Paths, default_limit}

pub record MbxDef : Type 0 where
  pub owner : ℕ
  pub id : ChannelId
  pub disabled : Bool

-- shared_ptr<ITargetDef>: what a message can be broadcast to.
pub data Target : Type 0 where
  channel mailbox : ℕ → Target

-- TLSMsgQueueItem.
pub record MsgItem : Type 0 where
  pub target : Target
  pub message : Message
  pub listener : ℕ

-- TLSLsnQueueItem, by the three cases of its execute: with no owner, with a channel, without.
pub data LsnItem : Type 0 where
  add_to remove_from : ℕ → ℕ → LsnItem
  drop_mailbox : ℕ → LsnItem

pub data Event : Type 0 where
  on_message : ℕ → Message → Bool → Event
  on_close_group on_group_empty : ℕ → ChannelId → Event
  on_no_route on_add_to_group : ℕ → ChannelId → ChannelId → Event
  on_channels_update : ℕ → Event

pub record Bus : Type 0 where
  pub chan : ℕ → ChanDef
  pub next_chan : ℕ
  pub mbx : ℕ → MbxDef
  pub next_mbx : ℕ
  pub channels : List (ChannelId × ℕ)
  pub mailboxes_by_ptr : List (ℕ × ℕ)
  pub mailboxes_by_name : List (ChannelId × ℕ)
  pub back_path : Paths
  pub limit : ℕ
  pub monitors : List ℕ
  pub this_serial : ChannelId
  pub cur_serial : ChannelId
  pub serial_source : ℕ
  pub channels_change : Bool
  pub recursion : ℕ
  -- TLState, and the channels that a local variable of a running call still holds.
  pub running : Bool
  pub msg_queue : List MsgItem
  pub lsn_queue : List LsnItem
  pub held : List ℕ
  -- The names that get_mailbox will generate, in turn, and how many it has generated.
  pub names : ℕ → ChannelId
  pub generated : ℕ
  pub events : List Event

unfoldable pub emit : List Event → Bus → Bus
emit es s = record s { events = s.events ++ es }

-- lock and unlock of the bus. The last unlock tells the monitors about a change.
unfoldable pub lock : Bus → Bus
lock s = record s { recursion = s.recursion + 1 }

unfoldable pub notify : Bus → Bus
notify s =
    if s.channels_change
    then emit (map on_channels_update s.monitors) (record s { channels_change = false })
    else s

unfoldable pub unlock : Bus → Bus
unlock s =
    let told = if s.recursion == 1 then notify s else s in
    record told { recursion = told.recursion - 1 }

abbrev pub names_channel : ℕ → List (ChannelId × ℕ) → Bool
names_channel c [] = false
names_channel c ((name, d) ∷ m) = (d == c) || names_channel c m

abbrev targets_channel : ℕ → List MsgItem → Bool
targets_channel c [] = false
targets_channel c (i ∷ is) = elim i.target [
  | channel d ↦ (d == c) || targets_channel c is
  | mailbox d ↦ targets_channel c is
]

abbrev queues_channel : ℕ → List LsnItem → Bool
queues_channel c [] = false
queues_channel c (add_to d l ∷ is) = (d == c) || queues_channel c is
queues_channel c (remove_from d l ∷ is) = (d == c) || queues_channel c is
queues_channel c (drop_mailbox l ∷ is) = queues_channel c is

abbrev member : ℕ → List ℕ → Bool
member c [] = false
member c (d ∷ ds) = (d == c) || member c ds

-- Whether a shared_ptr to the channel is left: in the map, in a queue, or on the stack.
unfoldable pub is_referenced : ℕ → Bus → Bool
is_referenced c s =
    names_channel c s.channels
    || targets_channel c s.msg_queue
    || queues_channel c s.lsn_queue
    || member c s.held

-- ChanDef::~ChanDef.
abbrev pub destructor_events : ChanDef → List Event
destructor_events ch =
    map (λ l. on_close_group l ch.name) ch.listeners
    ++ (if ch.owner == nullptr then [] else on_group_empty ch.owner ch.name ∷ [])

-- A shared_ptr to the channel goes away, and the last one takes the channel with it.
unfoldable pub drop_channel : ℕ → Bus → Bus
drop_channel c s = if is_referenced c s then s else emit (destructor_events (s.chan c)) s

-- LocalBus::LocalBus, with the serial number and the mailbox names that it will generate.
abbrev pub new_bus : ChannelId → (ℕ → ChannelId) → Bus
new_bus serial names = record {
  chan = λ c. new_channel [];
  next_chan = 0;
  mbx = λ m. record { owner = nullptr; id = []; disabled = false };
  next_mbx = 0;
  channels = [];
  mailboxes_by_ptr = [];
  mailboxes_by_name = [];
  back_path = [];
  limit = default_limit;
  monitors = [];
  this_serial = serial;
  cur_serial = [];
  serial_source = nullptr;
  channels_change = false;
  recursion = 0;
  running = false;
  msg_queue = [];
  lsn_queue = [];
  held = [];
  names = names;
  generated = 0;
  events = [];
}
