-- ===== src/Bridge/View/Rounds.antt =====
-- The loop of send_mine_channels (src/zerobus/bridge.cpp): that it ends, and what the other side
-- knows then.
use zerobus.Prelude.{
  ℕ, zero, suc, ◌+◌, ◌≤◌, ◌<◌, ◌≡◌, refl, sym, ap, ◌∙◌, Bool, true, false, List, [], ◌∷◌, none, inl,
  inr, Bool-cases, arith, if◌then◌else◌, ◌==◌, ◌&&◌, ◌||◌,
}
use mathlib.Core.Path.{subst}
use zerobus.Messages.{ChannelId, Operation, Msg}
use zerobus.Bus.Routing.{done, bytes_empty}
use zerobus.Bus.Effect.Listing.{listed}
use zerobus.Bridge.Api.{Env, Bridge, BridgeOf}
use zerobus.Bridge.Channels.{
  filter_incoming, filter_names, announce_serial, announce, set_difference, send_update, no_names,
  process_mine_channels, send_mine_channels, send_round, fetch_add, asked_again,
}
use zerobus.Bridge.View.Difference.{Ascending}
use zerobus.Bridge.View.Announce.{
  view, view_from, view-send, Synced, Announced, Announced-Synced, announce-Announced,
}
use zerobus.Bridge.View.Rules.{BusLaws, Settles, left, relock, Kept, filter_names-Filtered}

-- The parts of a bridge that sending leaves alone.
pub record Sends {S F : Type 0} (b c : Bridge S F) : Type 0 where
  pub bus : c.bus ≡ b.bus
  pub filter : c.filter ≡ b.filter
  pub lock : c.send_mine_channels_lock ≡ b.send_mine_channels_lock
  pub cycle_detected : c.cycle_detected ≡ b.cycle_detected

Sends-refl : {S F : Type 0} (b : Bridge S F) → Sends b b
Sends-refl b = record { bus = refl; filter = refl; lock = refl; cycle_detected = refl }

send_update-Sends :
    {S F : Type 0} (op : Operation) (names lst : List ChannelId) (b : Bridge S F)
    → Sends b (record (send_update op names b) { cur_channels = lst })
send_update-Sends op [] lst b = record {
  bus = refl;
  filter = refl;
  lock = refl;
  cycle_detected = refl;
}
send_update-Sends op (n ∷ names) lst b = record {
  bus = refl;
  filter = refl;
  lock = refl;
  cycle_detected = refl;
}

send_both-Sends :
    {S F : Type 0} (added erased lst : List ChannelId) (b : Bridge S F)
    → Sends b (record (send_update Operation.erase erased (send_update Operation.add added b)) {
      cur_channels = lst;
    })
send_both-Sends [] erased lst b = send_update-Sends Operation.erase erased lst b
send_both-Sends (n ∷ added) [] lst b = record {
  bus = refl;
  filter = refl;
  lock = refl;
  cycle_detected = refl;
}
send_both-Sends (n ∷ added) (m ∷ erased) lst b = record {
  bus = refl;
  filter = refl;
  lock = refl;
  cycle_detected = refl;
}

if-Sends :
    {S F : Type 0} (t : Bool) (b c d : Bridge S F)
    → Sends b c
    → Sends b d
    → Sends b (if t then c else d)
if-Sends true b c d h k = h
if-Sends false b c d h k = k

announce-Sends :
    {S F : Type 0} (lst : List ChannelId) (reset : Bool) (b : Bridge S F)
    → Sends b (announce lst reset b)
unfolding announce
announce-Sends lst reset b =
    if-Sends (no_names b.cur_channels || reset) b _ _
      (send_update-Sends Operation.replace lst lst b)
      (if-Sends (no_names lst) b _ _
        (record { bus = refl; filter = refl; lock = refl; cycle_detected = refl })
        (if-Sends
          (no_names (set_difference lst b.cur_channels)
            && no_names (set_difference b.cur_channels lst))
          b _ _ (Sends-refl b)
          (send_both-Sends (set_difference lst b.cur_channels) (set_difference b.cur_channels lst)
            lst b)))

module _ (e : Env) where
  -- The serial number is no news of channels.
  record Told (b c : BridgeOf e) : Type 0 where
    sends : Sends b c
    cur_channels : c.cur_channels ≡ b.cur_channels
    known : (n : ChannelId) → view n c ≡ view n b

  Told-refl : (b : BridgeOf e) → Told b b
  Told-refl b = record { sends = Sends-refl b; cur_channels = refl; known = λ n. refl }

  announce_serial-Told : (b : BridgeOf e) → Told b (announce_serial e b)
  unfolding announce_serial
  announce_serial-Told b =
      let srl = e.api.get_serial e.self b.bus in
      let c = record b { srl_hash = e.hash srl } in
      elim (Bool-cases (e.hash srl == b.srl_hash)) [
        | inl h ↦ rw h (Told-refl b)
        | inr h ↦ rw h (elim (Bool-cases (bytes_empty srl)) [
          | inl k ↦ rw k (record {
            sends = record { bus = refl; filter = refl; lock = refl; cycle_detected = refl };
            cur_channels = refl;
            known = λ n. refl;
          })
          | inr k ↦ rw k (record {
            sends = record { bus = refl; filter = refl; lock = refl; cycle_detected = refl };
            cur_channels = refl;
            known = λ n. view-send n (Msg.update_serial srl) c;
          })
        ])
      ]

  -- The list that is announced: nothing in a cycle.
  unfoldable pub mine : List ChannelId → BridgeOf e → List ChannelId
  mine lst b = if b.cycle_detected then [] else (filter_incoming e lst b).0

  if-empty-Ascending :
      (cycle : Bool) (names : List ChannelId)
      → Ascending names
      → Ascending (if cycle then [] else names)
  if-empty-Ascending true names a = tt
  if-empty-Ascending false names a = a

module _ (e : Env) (laws : BusLaws e.api e.self) (settles : Settles e.flt) where
  -- What process_mine_channels comes to.
  record Processed (lst : List ChannelId) (reset : Bool) (b c : BridgeOf e) : Type 0 where
    changed : Bool
    lock : c.send_mine_channels_lock ≡ relock e laws settles changed b.send_mine_channels_lock
    left : (if changed then 1 else 0) + left e laws settles c.filter ≤ left e laws settles b.filter
    cycle_detected : c.cycle_detected ≡ b.cycle_detected
    ok : laws.Ok b.bus → laws.Ok c.bus
    news :
        reset ≡ false
        → Ascending lst
        → Ascending b.cur_channels
        → Synced b
        → Announced (mine e lst b) c

  sent_news :
      (kept : List ChannelId) (reset : Bool) (b c d : BridgeOf e)
      → Kept e laws settles b c
      → Told e c d
      → reset ≡ false
      → Ascending kept
      → Ascending b.cur_channels
      → Synced b
      → Announced
          (if b.cycle_detected then [] else kept)
          (announce (if d.cycle_detected then [] else kept) reset d)
  sent_news kept reset b c d k t er al ac sy =
      let names = if d.cycle_detected then [] else kept in
      let cur = t.cur_channels ∙ k.cur_channels in
      subst (λ r. Announced (if b.cycle_detected then [] else kept) (announce names r d)) (sym er)
        (subst (λ x. Announced (if x then [] else kept) (announce names false d))
          (t.sends.cycle_detected ∙ k.cycle_detected)
          (announce-Announced names d (if-empty-Ascending e d.cycle_detected kept al)
            (subst Ascending (sym cur) ac)
            (λ n. t.known n ∙ ap (view_from n false) k.sent ∙ sy n ∙ ap (listed n) (sym cur))))

  process_mine_channels-Processed :
      (lst : List ChannelId) (reset : Bool) (b : BridgeOf e)
      → Processed lst reset b (process_mine_channels e lst reset b)
  unfolding process_mine_channels filter_incoming mine
  process_mine_channels-Processed lst reset b =
      let kept = (filter_incoming e lst b).0 in
      let c = (filter_incoming e lst b).1 in
      let d = announce_serial e c in
      let names = if d.cycle_detected then [] else kept in
      let f = filter_names-Filtered e laws settles b.filter lst b refl in
      let t = announce_serial-Told e c in
      let s = announce-Sends names reset d in
      record {
        changed = f.changed;
        lock = s.lock ∙ t.sends.lock ∙ f.applied.lock;
        left = rw (s.filter, t.sends.filter) f.applied.left;
        cycle_detected = s.cycle_detected ∙ t.sends.cycle_detected ∙ f.applied.kept.cycle_detected;
        ok = λ o. subst laws.Ok (sym (s.bus ∙ t.sends.bus)) (f.applied.kept.ok o);
        news = λ er al ac sy. sent_news kept reset b c d f.applied.kept t er (f.ascending al) ac sy;
      }

  is_zero : (n : ℕ) → n ≡ 0 → (n == 0) ≡ true
  is_zero n h = ground arith

  -- The value of the lock after a round says whether the rules changed in it.
  asked_relock :
      (changed reset : Bool)
      → asked_again (relock e laws settles changed (fetch_add reset 0)) ≡ (changed, false)
  asked_relock true true = refl
  asked_relock true false = refl
  asked_relock false true = refl
  asked_relock false false = refl

  more :
      (changed : Bool) (n m rounds : ℕ)
      → changed ≡ true
      → (if changed then 1 else 0) + n ≤ m
      → m < suc rounds
      → n < rounds
  more true n m rounds h k l = omega (arith, k, l)
  more false n m rounds h k l = absurd cc

  no_more :
      (changed : Bool) (n m : ℕ) → (if changed then 1 else 0) + n ≤ m → m ≡ 0 → changed ≡ false
  no_more true n m k l = absurd (omega (arith, k, l))
  no_more false n m k l = refl

  -- How send_mine_channels ends.
  pub record Finished (reset : Bool) (b c : BridgeOf e) : Type 0 where
    pub lock : c.send_mine_channels_lock ≡ 0
    pub cycle_detected : c.cycle_detected ≡ b.cycle_detected
    pub ok : laws.Ok c.bus
    pub synced :
        reset ≡ false → Ascending b.cur_channels → Synced b → Synced c × Ascending c.cur_channels

  abbrev held : Bool → BridgeOf e → BridgeOf e
  held reset b = record b { send_mine_channels_lock = fetch_add reset b.send_mine_channels_lock }

  abbrev free : BridgeOf e → BridgeOf e
  free c = record c { send_mine_channels_lock = 0 }

  -- One round of the loop that takes the lock.
  send_mine_channels_step :
      (rounds : ℕ) (changed reset : Bool) (b : BridgeOf e)
      → b.send_mine_channels_lock ≡ 0
      → asked_again (send_round e reset (held reset b)).send_mine_channels_lock ≡ (changed, false)
      → send_mine_channels e (suc rounds) reset b ≡ (
          if changed
          then send_mine_channels e rounds false (free (send_round e reset (held reset b)))
          else done (free (send_round e reset (held reset b))))
  unfolding send_mine_channels
  send_mine_channels_step rounds changed reset b z h =
      let c = send_round e reset (held reset b) in
      rw (is_zero b.send_mine_channels_lock z)
        (ap (λ r. if r.0 then send_mine_channels e rounds r.1 (free c) else done (free c)) h)

  send_round-Processed :
      (reset : Bool) (b : BridgeOf e)
      → Processed
          (if b.cycle_detected then [] else e.api.get_active_channels e.self b.bus)
          reset
          b
          (send_round e reset b)
  unfolding send_round
  send_round-Processed reset b =
      process_mine_channels-Processed
        (if b.cycle_detected then [] else e.api.get_active_channels e.self b.bus) reset b

  -- The channels that are announced without a filter.
  abbrev pub own_channels : BridgeOf e → List ChannelId
  own_channels b = if b.cycle_detected then [] else e.api.get_active_channels e.self b.bus

  twice :
      (cycle : Bool) (names : List ChannelId)
      → (if cycle then [] else (if cycle then [] else names)) ≡ (if cycle then [] else names)
  twice true names = refl
  twice false names = refl

  mine_unfiltered : (b : BridgeOf e) → b.filter ≡ none → mine e (own_channels b) b ≡ own_channels b
  unfolding mine filter_incoming
  mine_unfiltered b h =
      ap (λ f. if b.cycle_detected then [] else (filter_names e f (own_channels b) b).0) h
      ∙ twice b.cycle_detected (e.api.get_active_channels e.self b.bus)

  -- What is known after one round with the lock taken.
  record Round (changed reset : Bool) (b c : BridgeOf e) : Type 0 where
    step :
        (rounds : ℕ)
        → send_mine_channels e (suc rounds) reset b
          ≡ (if changed then send_mine_channels e rounds false c else done c)
    finished : Finished reset b c
    news :
        reset ≡ false
        → Ascending b.cur_channels
        → Synced b
        → Announced (mine e (own_channels b) (held reset b)) c
    left : (if changed then 1 else 0) + left e laws settles c.filter ≤ left e laws settles b.filter

  send_mine_channels-Round :
      (reset : Bool) (b : BridgeOf e)
      → laws.Ok b.bus
      → b.send_mine_channels_lock ≡ 0
      → (changed : Bool) × (c : BridgeOf e) × Round changed reset b c
  send_mine_channels-Round reset b o z =
      let p = send_round-Processed reset (held reset b) in
      let again =
        ap asked_again (p.lock ∙ ap (λ l. relock e laws settles p.changed (fetch_add reset l)) z)
        ∙ asked_relock p.changed reset in
      let c = send_round e reset (held reset b) in
      let news = λ (er : reset ≡ false) (ac : Ascending b.cur_channels) (sy : Synced b).
        p.news er
          (if-empty-Ascending e b.cycle_detected (e.api.get_active_channels e.self b.bus)
            (laws.active-Ascending b.bus o))
          ac sy in
      (
        p.changed,
        free c,
        record {
          step = λ rounds. send_mine_channels_step rounds p.changed reset b z again;
          finished = record {
            lock = refl;
            cycle_detected = p.cycle_detected;
            ok = p.ok o;
            synced = λ er ac sy.
                let a = news er ac sy in
                (Announced-Synced (mine e (own_channels b) (held reset b)) c a, a.ascending);
          };
          news = λ er ac sy.
              let a = news er ac sy in
              record { known = a.known; kept = a.kept; ascending = a.ascending };
          left = p.left;
        },
      )

  Finished-after :
      (reset : Bool) (a b c : BridgeOf e)
      → Finished reset a b
      → Finished false b c
      → Finished reset a c
  Finished-after reset a b c h k = record {
    lock = k.lock;
    cycle_detected = k.cycle_detected ∙ h.cycle_detected;
    ok = k.ok;
    synced = λ er ac sy. let (s, d) = h.synced er ac sy in k.synced refl d s;
  }

  -- send_mine_channels, which nobody else is running, returns within any bound on the rounds
  -- that is above the number of times that the filter's rules can still change, if the bus
  -- lists its channels in order and stays well formed when the bridge unsubscribes; then the
  -- lock is free, the flag for cycles is as before, the bus is well formed, and, for a call
  -- without reset, the list that is kept is still in order and what the other side knows if it
  -- was so before.
  pub send_mine_channels_ends :
      (rounds : ℕ) (reset : Bool) (b : BridgeOf e)
      → laws.Ok b.bus
      → b.send_mine_channels_lock ≡ 0
      → left e laws settles b.filter < rounds
      → (c : BridgeOf e) × (send_mine_channels e rounds reset b ≡ done c) × Finished reset b c
  send_mine_channels_ends zero reset b o z h = absurd (omega (arith, h))
  send_mine_channels_ends (suc rounds) reset b o z h =
      let (changed, c, r) = send_mine_channels-Round reset b o z in
      elim (Bool-cases changed) [
        | inl k ↦
            let (d, s, f) = send_mine_channels_ends rounds false c r.finished.ok r.finished.lock (
              more changed (left e laws settles c.filter) (left e laws settles b.filter) rounds k
                r.left h) in
            (
              d,
              r.step rounds
                  ∙ ap (λ x. if x then send_mine_channels e rounds false c else done c) k
                  ∙ s,
              Finished-after reset b c d r.finished f,
            )
        | inr k ↦ (
          c,
          r.step rounds ∙ ap (λ x. if x then send_mine_channels e rounds false c else done c) k,
          r.finished,
        )
      ]

  -- Without a filter one round is enough, and the other side knows exactly the bus's channels.
  pub send_mine_channels_unfiltered :
      (rounds : ℕ) (b : BridgeOf e)
      → laws.Ok b.bus
      → b.send_mine_channels_lock ≡ 0
      → b.filter ≡ none
      → Ascending b.cur_channels
      → Synced b
      → (c : BridgeOf e) × (send_mine_channels e (suc rounds) false b ≡ done c)
        × Announced (own_channels b) c
  send_mine_channels_unfiltered rounds b o z h ac sy =
      let (changed, c, r) = send_mine_channels-Round false b o z in
      let stop =
        no_more changed (left e laws settles c.filter) (left e laws settles b.filter) r.left
          (ap (left e laws settles) h) in
      (
        c,
        r.step rounds ∙ ap (λ x. if x then send_mine_channels e rounds false c else done c) stop,
        subst (λ names. Announced names c) (mine_unfiltered (held false b) h) (r.news refl ac sy),
      )
