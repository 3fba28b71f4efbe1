-- ===== src/Bus/Effect/Idle.antt =====
-- The steps of LocalBus while nothing is delivered on the thread.
use zerobus.Prelude.{
  ℕ, ◌≡◌, refl, ap, ◌∙◌, Bool, true, false, List, [], ◌∷◌, ◌++◌, some, ◌==◌, if◌then◌else◌, inl,
  inr, Option-cases,
}
use zerobus.Prelude.Keys.{nat_eq, bytes_eq, =?_self}
use zerobus.Prelude.Assoc.{lookup}
use zerobus.Prelude.Sorted.{lookup-insert_sorted}
use zerobus.Messages.{ChannelId}
use zerobus.Bus.Channel.{add_listener}
use zerobus.Bus.State.{
  Bus, LsnItem, add_to, update, emit, lock, notify, unlock, drop_channel, is_referenced,
  destructor_events, Event,
}
use zerobus.Bus.Deferred.{
  get_channel_lk, execute_lsn, release_item, drain, run_lsn_queue, enqueue_lsn, item_channels,
}

-- No delivery runs on the thread and nothing waits.
pub record IsIdle (s : Bus) : Type 0 where
  pub quiet : s.running ≡ false
  pub no_change : s.lsn_queue ≡ []
  pub no_message : s.msg_queue ≡ []

-- The parts of the bus that a destructor or a notification leaves alone.
pub record SameMaps (s t : Bus) : Type 0 where
  pub chan : t.chan ≡ s.chan
  pub channels : t.channels ≡ s.channels
  pub next_chan : t.next_chan ≡ s.next_chan
  pub running : t.running ≡ s.running
  pub lsn_queue : t.lsn_queue ≡ s.lsn_queue
  pub msg_queue : t.msg_queue ≡ s.msg_queue

SameMaps-refl : (s : Bus) → SameMaps s s
SameMaps-refl s = record {
  chan = refl;
  channels = refl;
  next_chan = refl;
  running = refl;
  lsn_queue = refl;
  msg_queue = refl;
}

pub emit-SameMaps : (es : List Event) (s : Bus) → SameMaps s (emit es s)
unfolding emit
emit-SameMaps es s = record {
  chan = refl;
  channels = refl;
  next_chan = refl;
  running = refl;
  lsn_queue = refl;
  msg_queue = refl;
}

if-SameMaps :
    (b : Bool) (s t u : Bus) → SameMaps s t → SameMaps s u → SameMaps s (if b then t else u)
if-SameMaps true s t u h k = h
if-SameMaps false s t u h k = k

pub drop_channel-SameMaps : (c : ℕ) (s : Bus) → SameMaps s (drop_channel c s)
unfolding drop_channel
drop_channel-SameMaps c s =
    if-SameMaps (is_referenced c s) s _ _ (SameMaps-refl s)
      (emit-SameMaps (destructor_events (s.chan c)) s)

notify-SameMaps : (s : Bus) → SameMaps s (notify s)
unfolding notify emit
notify-SameMaps s =
    if-SameMaps s.channels_change s _ _
      (record {
        chan = refl;
        channels = refl;
        next_chan = refl;
        running = refl;
        lsn_queue = refl;
        msg_queue = refl;
      })
      (SameMaps-refl s)

pub unlock-SameMaps : (s : Bus) → SameMaps s (unlock s)
unfolding unlock
unlock-SameMaps s =
    let h = if-SameMaps (s.recursion == 1) s _ _ (notify-SameMaps s) (SameMaps-refl s) in
    record {
      chan = h.chan;
      channels = h.channels;
      next_chan = h.next_chan;
      running = h.running;
      lsn_queue = h.lsn_queue;
      msg_queue = h.msg_queue;
    }

run_empty : (s : Bus) → s.lsn_queue ≡ [] → run_lsn_queue s ≡ s
unfolding run_lsn_queue drain
run_empty s e = ap (λ q. drain q s) e

abbrev pub started : LsnItem → Bus → Bus
started i s = record s { running = true; held = item_channels i ++ s.held }

pub enqueue_idle :
    (i : LsnItem) (s : Bus)
    → IsIdle s
    → (execute_lsn i (started i s)).lsn_queue ≡ []
    → enqueue_lsn i s
      ≡ release_item i (record (execute_lsn i (started i s)) { running = false; held = s.held })
unfolding enqueue_lsn
enqueue_idle i s idle e =
    ap
      (λ b.
        if b
        then record s { lsn_queue = s.lsn_queue ++ (i ∷ []) }
        else release_item i (record (run_lsn_queue (execute_lsn i (started i s))) {
          running = false;
          held = s.held;
        }))
      idle.quiet
    ∙ ap (λ t. release_item i (record t { running = false; held = s.held })) (run_empty _ e)

-- The listener joins the channel at once.
pub enqueue_add :
    (c l : ℕ) (s : Bus)
    → IsIdle s
    → enqueue_lsn (add_to c l) s
      ≡ drop_channel c
          (record s { chan = update s.chan c (add_listener l (s.chan c)); running = false })
unfolding execute_lsn release_item
enqueue_add c l s idle = enqueue_idle (add_to c l) s idle idle.no_change

pub get_channel_lk-lookup :
    (name : ChannelId) (s : Bus)
    → let (c, t) = get_channel_lk name s in lookup name t.channels ≡ some c
unfolding get_channel_lk
get_channel_lk-lookup name s = elim (Option-cases (lookup name s.channels)) [
  | inl e ↦
      rw (e, get_channel_lk)
        (lookup-insert_sorted name name s.next_chan s.channels e ∙ rw (=?_self name))
  | inr (c, e) ↦ rw (e, get_channel_lk) e
]

pub get_channel_lk-IsIdle :
    (name : ChannelId) (s : Bus) → IsIdle s → IsIdle (get_channel_lk name s).1
unfolding get_channel_lk
get_channel_lk-IsIdle name s idle = elim (Option-cases (lookup name s.channels)) [
  | inl e ↦
      rw (e, get_channel_lk)
        (record { quiet = idle.quiet; no_change = idle.no_change; no_message = idle.no_message })
  | inr (c, e) ↦ rw (e, get_channel_lk) idle
]

pub lock-IsIdle : (s : Bus) → IsIdle s → IsIdle (lock s)
unfolding lock
lock-IsIdle s idle = record {
  quiet = idle.quiet;
  no_change = idle.no_change;
  no_message = idle.no_message;
}
