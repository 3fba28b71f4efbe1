-- ===== src/Bridge/Channels.antt =====
-- process_mine_channels and send_mine_channels of src/zerobus/bridge.cpp: the list of channels
-- that the bridge announces to the other side, and how changes to it are sent.
use zerobus.Prelude.{
  ℕ, zero, suc, ◌+◌, ◌-◌, ◌/◌, ◌%◌, ◌^◌, bit_and, Bool, true, false, ◌&&◌, ◌||◌, List, [], ◌∷◌,
  Option, none, some, ◌==◌, if◌then◌else◌, ltb,
}
use zerobus.Prelude.Keys.{bytes_ltb}
use zerobus.Messages.{ChannelId, Operation, Msg}
use zerobus.Bus.Routing.{Outcome, done, unfinished, bytes_empty}
use zerobus.Bridge.Api.{Env, Bridge, BridgeOf, send}

-- std::set_difference over two ascending ranges.
unfoldable pub set_difference : List ChannelId → List ChannelId → List ChannelId
set_difference [] ys = []
set_difference (x ∷ xs) [] = x ∷ xs
set_difference (x ∷ xs) (y ∷ ys) = elim (bytes_ltb x y) [
  | true ↦ x ∷ set_difference xs (y ∷ ys)
  | false ↦ elim (bytes_ltb y x) [
    | true ↦ set_difference (x ∷ xs) ys
    | false ↦ set_difference xs ys
  ]
]

abbrev pub no_names : List ChannelId → Bool
no_names [] = true
no_names (n ∷ names) = false

abbrev pub reset_flag : ℕ
reset_flag = 1024

abbrev pub lock_flag : ℕ
lock_flag = 1

-- `fetch_add(lock_flag + (reset?reset_flag:0))` on an unsigned int.
abbrev pub fetch_add : Bool → ℕ → ℕ
fetch_add reset lock = (lock + (lock_flag + (if reset then reset_flag else 0))) % 2 ^ 32

-- `rep` and the next `reset`, from the value that `exchange(0)` returned.
abbrev pub asked_again : ℕ → Bool × Bool
asked_again r = (ltb 1 (bit_and r (reset_flag - 1)), ltb 1 (r / reset_flag))

-- `send(ChannelUpdate{names, op}); p = true`, unless there is nothing to send.
abbrev pub send_update : {S F : Type 0} → Operation → List ChannelId → Bridge S F → Bridge S F
send_update op names b = if no_names names then b else send (Msg.channel_update names op) b

-- What is sent for the new list, and the list that is kept.
unfoldable pub announce : {S F : Type 0} → List ChannelId → Bool → Bridge S F → Bridge S F
announce lst reset b =
    if no_names b.cur_channels || reset
    then record (send_update Operation.replace lst b) { cur_channels = lst }
    else if no_names lst
    then record (send (Msg.channel_update lst Operation.replace) b) { cur_channels = lst }
    else let added = set_difference lst b.cur_channels in
      let erased = set_difference b.cur_channels lst in
      if no_names added && no_names erased
      then b
      else record (send_update Operation.erase erased (send_update Operation.add added b)) {
        cur_channels = lst;
      }

module _ (e : Env) where
  -- The channels that a filter lets pass, in order, and the filter after it was asked.
  unfoldable pub keep_names :
      (ChannelId → e.flt.Rules → Bool × e.flt.Rules)
      → List ChannelId
      → e.flt.Rules
      → (List ChannelId) × e.flt.Rules
  keep_names test [] f = ([], f)
  keep_names test (n ∷ names) f =
      let (ok, g) = test n f in
      let (rest, h) = keep_names test names g in (if ok then n ∷ rest else rest, h)

  -- The loop of check_rules over the subscribed channels.
  unfoldable pub unsubscribe_rejected : List ChannelId → e.flt.Rules → BridgeOf e → BridgeOf e
  unsubscribe_rejected [] f b = record b { filter = some f }
  unsubscribe_rejected (n ∷ names) f b =
      let (ok, g) = e.flt.on_outgoing n f in
      unsubscribe_rejected names g
        (if ok then b else record b { bus = e.api.unsubscribe e.self n b.bus })

  -- check_rules up to its call of send_mine_channels, which it makes if the result is true.
  abbrev pub commit_rules : Bool × e.flt.Rules → BridgeOf e → Bool × BridgeOf e
  commit_rules (false, f) b = (false, record b { filter = some f })
  commit_rules (true, f) b =
      (true, unsubscribe_rejected (e.api.get_subscribed_channels e.self b.bus) f b)

  abbrev pub apply_filter : Option e.flt.Rules → BridgeOf e → Bool × BridgeOf e
  apply_filter none b = (false, b)
  apply_filter (some f) b = commit_rules (e.flt.commit_rule_changed f) b

  unfoldable pub apply_rules : BridgeOf e → Bool × BridgeOf e
  apply_rules b = apply_filter b.filter b

  -- check_rules inside process_mine_channels: the lock is taken, and send_mine_channels only adds
  -- its request to it.
  abbrev pub check_rules_locked : BridgeOf e → BridgeOf e
  check_rules_locked b =
      let (changed, c) = apply_rules b in
      if changed
      then record c { send_mine_channels_lock = fetch_add false c.send_mine_channels_lock }
      else c

  -- The filter over the list, at the start of process_mine_channels.
  abbrev pub filter_names :
      Option e.flt.Rules → List ChannelId → BridgeOf e → (List ChannelId) × BridgeOf e
  filter_names none lst b = (lst, b)
  filter_names (some f) lst b =
      let (kept, g) = keep_names e.flt.on_incoming lst f in
      (kept, check_rules_locked (record b { filter = some g }))

  unfoldable pub filter_incoming : List ChannelId → BridgeOf e → (List ChannelId) × BridgeOf e
  filter_incoming lst b = filter_names b.filter lst b

  -- The serial number is sent when its hash has changed.
  unfoldable pub announce_serial : BridgeOf e → BridgeOf e
  announce_serial b =
      let srl = e.api.get_serial e.self b.bus in
      let h = e.hash srl in
      if h == b.srl_hash
      then b
      else let c = record b { srl_hash = h } in
        if bytes_empty srl then c else send (Msg.update_serial srl) c

  unfoldable pub process_mine_channels : List ChannelId → Bool → BridgeOf e → BridgeOf e
  process_mine_channels lst reset b =
      let (kept, c) = filter_incoming lst b in
      let d = announce_serial c in announce (if d.cycle_detected then [] else kept) reset d

  -- A round of the loop of send_mine_channels, with the lock taken.
  unfoldable pub send_round : Bool → BridgeOf e → BridgeOf e
  send_round reset b =
      process_mine_channels
        (if b.cycle_detected then [] else e.api.get_active_channels e.self b.bus) reset b

  -- send_mine_channels, with a bound on the rounds: a filter that changes its rules every time it
  -- is asked keeps it going.
  unfoldable pub send_mine_channels : ℕ → Bool → BridgeOf e → Outcome (BridgeOf e)
  send_mine_channels zero reset b = unfinished
  send_mine_channels (suc rounds) reset b =
      let held = record b { send_mine_channels_lock = fetch_add reset b.send_mine_channels_lock } in
      let c = send_round reset held in
      let free = record c { send_mine_channels_lock = 0 } in
      let (rep, again) = asked_again c.send_mine_channels_lock in
      let rest = send_mine_channels rounds again free in
      if b.send_mine_channels_lock == 0 then (if rep then rest else done free) else done held

  unfoldable pub check_rules : ℕ → BridgeOf e → Outcome (BridgeOf e)
  check_rules rounds b =
      let (changed, c) = apply_rules b in
      elim changed [ false ↦ done c | true ↦ send_mine_channels rounds false c ]
