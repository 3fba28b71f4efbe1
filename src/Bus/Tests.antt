-- ===== src/Bus/Tests.antt =====
-- The theorems on the bus at concrete inputs. Channels `a` and `b` have the names of one byte
-- 97 and 98.
use zerobus.Bus.Effect.Posting.{has_route, Returns, forward-has_route, silent, forward-silent}
use zerobus.Bus.Routing.{Outcome, done, open_channel, forward_message_internal}
use zerobus.Prelude.{
  none, some, true, false, ◌++◌, map, ℕ, ◌≡◌, refl, ap, not, ◌&&◌, ◌||◌, List, [], ◌∷◌, ◌==◌,
  if◌then◌else◌, arith, take,
}
use zerobus.Prelude.Keys.{bytes_eq, ◌=?◌}
use zerobus.Prelude.Assoc.{erase, lookup}
use zerobus.Messages.{ChannelId, Message}
use zerobus.Bus.Channel.{ChanDef, nullptr}
use zerobus.Bus.Channel.Listeners.{listens, others}
use zerobus.Bus.BackPath.{Paths, find_path, store_path}
use zerobus.Bus.BackPath.Lru.{IsCache, store_path-take, store_path-IsCache, find_path-store_path}
use zerobus.Bus.State.{
  MsgItem, on_message, Bus, new_bus, unlock, lock, drop_channel, is_referenced, notify, emit,
}
use zerobus.Bus.Deferred.{
  get_channel_lk, enqueue_lsn, release_item, run_lsn_queue, drain, execute_lsn,
}
use zerobus.Prelude.Sorted.{insert_sorted}
use zerobus.Bus.Subscriptions.{
  get_subscribed_channels, get_active_channels, unsubscribe_all_channels, subscribe, subscribe_lk,
  unsubscribe,
}
use zerobus.Bus.Delivery.{push_msg, call_back, enqueue_msg, unsubscribes, sends, Reaction, call}
use zerobus.Bus.Valid.State.{IsValid}
use zerobus.Bus.Valid.Initial.{new_bus-IsValid}
use zerobus.Bus.Valid.Subscriptions.{subscribe-IsValid}
use zerobus.Bus.Valid.Routing.{Keeps}
use zerobus.Bus.Valid.Delivery.{call-IsValid}
use zerobus.Bus.Effect.Idle.{IsIdle}
use zerobus.Bus.Effect.Members.{is_member, subscribe-is_member}
use zerobus.Bus.Effect.Listing.{
  listed, found_with, reaches, get_subscribed_channels-listens, get_active_channels-reaches,
}
use zerobus.Bus.Effect.Running.{unsubscribe-waits}
use zerobus.Bus.Effect.Leaving.{unsubscribe-is_member}

abbrev a : ChannelId
a = 97 ∷ []

abbrev b : ChannelId
b = 98 ∷ []

abbrev head : List ℕ → ℕ
head [] = 0
head (x ∷ xs) = x

abbrev pair_channel : ChanDef
pair_channel = record { name = a; owner = nullptr; listeners = 3 ∷ 5 ∷ [] }

abbrev two_paths : Paths
two_paths = (a, 3) ∷ (b, 4) ∷ []

two_paths-IsCache : IsCache 2 two_paths
two_paths-IsCache = record {
  distinct = ((λ e. ground (arith, ap head e), tt), (tt, tt));
  bounded = omega arith;
}

store_path-take_example :
    store_path 2 [] 5 two_paths
    ≡ (if 5 == nullptr then erase [] two_paths else take 2 (([], 5) ∷ erase [] two_paths))
store_path-take_example = store_path-take 2 [] 5 two_paths two_paths-IsCache

store_path-IsCache_example : IsCache 2 (store_path 2 [] 5 two_paths)
store_path-IsCache_example = store_path-IsCache 2 [] 5 two_paths two_paths-IsCache

find_path-store_path_example : find_path b (store_path 2 b 5 two_paths) ≡ 5
find_path-store_path_example = find_path-store_path 2 b 5 two_paths two_paths-IsCache (omega arith)

abbrev names : ℕ → ChannelId
names i = i ∷ []

abbrev fresh : Bus
fresh = new_bus [] names

fresh-IsValid : IsValid fresh
fresh-IsValid = new_bus-IsValid [] names (λ i j e. ap head e)

fresh-IsIdle : IsIdle fresh
fresh-IsIdle = record { quiet = refl; no_change = refl; no_message = refl }

subscribe-is_member_example :
    let (r, t) = subscribe 3 a fresh in
    is_member 3 a t ≡ ((r && (a =? a && (3 == 3))) || is_member 3 a fresh)
subscribe-is_member_example = subscribe-is_member 3 3 a a fresh fresh-IsValid fresh-IsIdle

abbrev one_in : Bus
one_in = (subscribe 3 a fresh).1

one_in-IsIdle : IsIdle one_in
unfolding subscribe unlock subscribe_lk get_channel_lk lookup lock enqueue_lsn release_item
    drop_channel is_referenced run_lsn_queue drain execute_lsn insert_sorted notify emit
one_in-IsIdle = record { quiet = refl; no_change = refl; no_message = refl }

unsubscribe-is_member_example :
    is_member 3 a (unsubscribe 3 a one_in) ≡ (not (a =? a && (3 == 3)) && is_member 3 a one_in)
unsubscribe-is_member_example =
    unsubscribe-is_member 3 3 a a one_in (subscribe-IsValid 3 a fresh fresh-IsValid) one_in-IsIdle

-- Every listener leaves the channel with the first message.
abbrev leaving : Reaction
leaving es l msg pm = unsubscribes l msg.channel ∷ []

call-IsValid_example : Keeps (call leaving 2 3 (sends 4 a (1 ∷ []) 7) one_in)
call-IsValid_example =
    call-IsValid leaving 2 3 (sends 4 a (1 ∷ []) 7) one_in
      (subscribe-IsValid 3 a fresh fresh-IsValid)

-- A message for channel `a`, which listener 4 posts.
abbrev hello : Message
hello = record { sender = []; channel = a; content = 1 ∷ []; conversation = 7 }

push_msg-total : (i : MsgItem) (s : Bus) → (t : Bus) × (push_msg i s ≡ done t)
unfolding push_msg
push_msg-total i s = (_, refl)

-- A return path whose listener makes no calls.
abbrev heard : ℕ → Message → Bus → Outcome Bus
heard l msg s = done (emit (on_message l msg true ∷ []) s)

heard-total : (l : ℕ) (msg : Message) (s : Bus) → (t : Bus) × (heard l msg s ≡ done t)
heard-total l msg s = (_, refl)

forward-has_route_example :
    Returns (has_route 4 a one_in) (forward_message_internal push_msg heard 4 hello one_in)
forward-has_route_example =
    forward-has_route push_msg push_msg-total heard heard-total 4 hello one_in

one_in-no_box : lookup a one_in.mailboxes_by_name ≡ none
unfolding subscribe unlock subscribe_lk get_channel_lk lookup lock enqueue_lsn release_item
    drop_channel is_referenced run_lsn_queue drain execute_lsn insert_sorted notify emit
one_in-no_box = refl

one_in-open : open_channel 4 a one_in ≡ some 0
unfolding subscribe unlock subscribe_lk get_channel_lk lookup lock enqueue_lsn release_item
    drop_channel is_referenced run_lsn_queue drain execute_lsn insert_sorted notify emit
    open_channel
one_in-open = refl

forward-silent_example :
    (t : Bus) × (forward_message_internal
        (enqueue_msg silent 0 0)
        (call_back silent (enqueue_msg silent 0 0) 0)
        4
        hello
        one_in
      ≡ done (true, t))
    × (t.events
        ≡ (unlock (lock one_in)).events
          ++ map (λ k. on_message k hello false) (others 4 (one_in.chan 0).listeners))
    × (t.channels ≡ one_in.channels)
    × (t.chan ≡ one_in.chan)
forward-silent_example = forward-silent 0 0 4 0 hello one_in one_in-IsIdle one_in-no_box one_in-open

one_in-IsValid : IsValid one_in
one_in-IsValid = subscribe-IsValid 3 a fresh fresh-IsValid

get_subscribed_channels-listens_example :
    listed a (get_subscribed_channels 3 one_in)
    ≡ found_with (λ ch. listens 3 ch.listeners) a one_in.chan one_in.channels
get_subscribed_channels-listens_example = get_subscribed_channels-listens 3 a one_in one_in-IsValid

get_active_channels-reaches_example :
    listed a (get_active_channels 4 one_in) ≡ found_with (reaches 4) a one_in.chan one_in.channels
get_active_channels-reaches_example = get_active_channels-reaches 4 a one_in one_in-IsValid

-- The bus inside a callback.
abbrev inside : Bus
inside = record one_in { running = true }

unsubscribe-waits_example :
    (is_member 3 a (unsubscribe 3 a inside) ≡ is_member 3 a inside)
    × (is_member 3 a (unsubscribe_all_channels 3 true inside) ≡ is_member 3 a inside)
unsubscribe-waits_example = unsubscribe-waits 3 3 a a true inside refl
