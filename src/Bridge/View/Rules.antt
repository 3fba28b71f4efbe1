-- ===== src/Bridge/View/Rules.antt =====
-- What a bridge asks its filter while it computes the list of channels to announce
-- (check_rules in src/zerobus/bridge.cpp), for filters whose rules can change only so often.
use zerobus.Prelude.{
  ℕ, ◌+◌, ◌≤◌, ◌≡◌, refl, ap, ◌∙◌, Bool, true, false, List, [], ◌∷◌, Option, none, some, arith,
  if◌then◌else◌,
}
use zerobus.Prelude.Keys.{bytes_ltb}
use zerobus.Messages.{ChannelId}
use zerobus.Bridge.Api.{BusApi, FilterApi, Env, BridgeOf}
use zerobus.Bridge.Channels.{
  keep_names, unsubscribe_rejected, apply_rules, apply_filter, filter_names, commit_rules,
  check_rules_locked, fetch_add,
}
use zerobus.Bridge.View.Difference.{AllAbove, Ascending}

-- What a bridge relies on in its bus: in the states that are well formed, the list of active
-- channels is in order, and a state stays well formed when the bridge unsubscribes a channel or
-- passes a serial number on.
pub record BusLaws (api : BusApi) (self : ℕ) : Type 1 where
  pub Ok : api.State → Type 0
  pub unsubscribe-Ok : (n : ChannelId) (s : api.State) → Ok s → Ok (api.unsubscribe self n s)
  pub set_serial-Ok :
      (serial : ChannelId) (s : api.State) → Ok s → Ok (api.set_serial self serial s).1
  pub active-Ascending : (s : api.State) → Ok s → Ascending (api.get_active_channels self s)

-- A filter whose rules can change only so many times more.
pub record Settles (flt : FilterApi) : Type 0 where
  pub changes : flt.Rules → ℕ
  pub on_incoming : (n : ChannelId) (f : flt.Rules) → changes (flt.on_incoming n f).1 ≤ changes f
  pub on_outgoing : (n : ChannelId) (f : flt.Rules) → changes (flt.on_outgoing n f).1 ≤ changes f
  pub commit :
      (f : flt.Rules)
      → (if (flt.commit_rule_changed f).0 then 1 else 0) + changes (flt.commit_rule_changed f).1
        ≤ changes f

if-AllAbove :
    (k : ChannelId) (ok : Bool) (n : ChannelId) (names : List ChannelId)
    → bytes_ltb k n ≡ true
    → AllAbove k names
    → AllAbove k (if ok then n ∷ names else names)
if-AllAbove k true n names h a = (h, a)
if-AllAbove k false n names h a = a

if-Ascending :
    (ok : Bool) (n : ChannelId) (names : List ChannelId)
    → AllAbove n names
    → Ascending names
    → Ascending (if ok then n ∷ names else names)
if-Ascending true n names a c = (a, c)
if-Ascending false n names a c = c

module _ (e : Env) (laws : BusLaws e.api e.self) (settles : Settles e.flt) where
  abbrev pub left : Option e.flt.Rules → ℕ
  left none = 0
  left (some f) = settles.changes f

  -- The parts of a bridge that the questions to a filter leave alone.
  pub record Kept (b c : BridgeOf e) : Type 0 where
    pub sent : c.sent ≡ b.sent
    pub cur_channels : c.cur_channels ≡ b.cur_channels
    pub cycle_detected : c.cycle_detected ≡ b.cycle_detected
    pub ok : laws.Ok b.bus → laws.Ok c.bus

  -- What a bridge comes to when its rules are applied: whether they had changed, with the bound
  -- that is left.
  pub record Applied (changed : Bool) (bound held : ℕ) (b c : BridgeOf e) : Type 0 where
    pub kept : Kept b c
    pub lock : c.send_mine_channels_lock ≡ held
    pub left : (if changed then 1 else 0) + left c.filter ≤ bound

  Kept-refl : (b : BridgeOf e) → Kept b b
  Kept-refl b = record { sent = refl; cur_channels = refl; cycle_detected = refl; ok = λ o. o }

  keep_names-left :
      (test : ChannelId → e.flt.Rules → Bool × e.flt.Rules)
      → ((n : ChannelId) (f : e.flt.Rules) → settles.changes (test n f).1 ≤ settles.changes f)
      → (names : List ChannelId) (f : e.flt.Rules)
      → settles.changes (keep_names e test names f).1 ≤ settles.changes f
  unfolding keep_names
  keep_names-left test h [] f = omega arith
  keep_names-left test h (n ∷ names) f =
      omega (arith, h n f, keep_names-left test h names (test n f).1)

  pub Applied-after :
      (changed : Bool) (n m k l : ℕ) (a b c : BridgeOf e)
      → Kept a b
      → n ≤ m
      → k ≡ l
      → Applied changed n k b c
      → Applied changed m l a c
  Applied-after changed n m k l a b c h le eq r = record {
    kept = record {
      sent = r.kept.sent ∙ h.sent;
      cur_channels = r.kept.cur_channels ∙ h.cur_channels;
      cycle_detected = r.kept.cycle_detected ∙ h.cycle_detected;
      ok = λ o. r.kept.ok (h.ok o);
    };
    lock = r.lock ∙ eq;
    left = omega (arith, r.left, le);
  }

  abbrev skip : Bool → ChannelId → BridgeOf e → BridgeOf e
  skip ok n b = if ok then b else record b { bus = e.api.unsubscribe e.self n b.bus }

  skip-Kept : (ok : Bool) (n : ChannelId) (b : BridgeOf e) → Kept b (skip ok n b)
  skip-Kept true n b = Kept-refl b
  skip-Kept false n b = record {
    sent = refl;
    cur_channels = refl;
    cycle_detected = refl;
    ok = laws.unsubscribe-Ok n b.bus;
  }

  skip-lock :
      (ok : Bool) (n : ChannelId) (b : BridgeOf e)
      → (skip ok n b).send_mine_channels_lock ≡ b.send_mine_channels_lock
  skip-lock true n b = refl
  skip-lock false n b = refl

  unsubscribe_rejected-Applied :
      (names : List ChannelId) (f : e.flt.Rules) (b : BridgeOf e)
      → Applied false
          (settles.changes f)
          b.send_mine_channels_lock
          b
          (unsubscribe_rejected e names f b)
  unfolding unsubscribe_rejected
  unsubscribe_rejected-Applied [] f b = record {
    kept = record { sent = refl; cur_channels = refl; cycle_detected = refl; ok = λ o. o };
    lock = refl;
    left = omega arith;
  }
  unsubscribe_rejected-Applied (n ∷ names) f b =
      let (ok, g) = e.flt.on_outgoing n f in
      let c = skip ok n b in
      Applied-after false (settles.changes g) (settles.changes f) c.send_mine_channels_lock
        b.send_mine_channels_lock b c (unsubscribe_rejected e names g c) (skip-Kept ok n b)
        (settles.on_outgoing n f) (skip-lock ok n b) (unsubscribe_rejected-Applied names g c)

  commit_rules-Applied :
      (changed : Bool) (f : e.flt.Rules) (bound : ℕ) (b : BridgeOf e)
      → (if changed then 1 else 0) + settles.changes f ≤ bound
      → Applied changed bound b.send_mine_channels_lock b (commit_rules e (changed, f) b).1
  commit_rules-Applied false f bound b h = record {
    kept = record { sent = refl; cur_channels = refl; cycle_detected = refl; ok = λ o. o };
    lock = refl;
    left = h;
  }
  commit_rules-Applied true f bound b h =
      let r = unsubscribe_rejected-Applied (e.api.get_subscribed_channels e.self b.bus) f b in
      record { kept = r.kept; lock = r.lock; left = omega (arith, r.left, h) }

  commit_rules-changed : (r : Bool × e.flt.Rules) (b : BridgeOf e) → (commit_rules e r b).0 ≡ r.0
  commit_rules-changed (false, f) b = refl
  commit_rules-changed (true, f) b = refl

  apply_filter-Applied :
      (flt : Option e.flt.Rules) (b : BridgeOf e)
      → b.filter ≡ flt
      → Applied
          (apply_filter e flt b).0
          (left flt)
          b.send_mine_channels_lock
          b
          (apply_filter e flt b).1
  apply_filter-Applied none b h = record {
    kept = Kept-refl b;
    lock = refl;
    left = rw h (omega arith);
  }
  apply_filter-Applied (some f) b h = rw (commit_rules-changed (e.flt.commit_rule_changed f) b) (
      commit_rules-Applied (e.flt.commit_rule_changed f).0 (e.flt.commit_rule_changed f).1
        (settles.changes f) b (settles.commit f))

  abbrev pub relock : Bool → ℕ → ℕ
  relock changed lock = if changed then fetch_add false lock else lock

  locked :
      (changed : Bool) (bound : ℕ) (b c : BridgeOf e)
      → Applied changed bound b.send_mine_channels_lock b c
      → Applied changed bound (relock changed b.send_mine_channels_lock) b (
          if changed
          then record c { send_mine_channels_lock = fetch_add false c.send_mine_channels_lock }
          else c)
  locked true bound b c r = record {
    kept = record {
      sent = r.kept.sent;
      cur_channels = r.kept.cur_channels;
      cycle_detected = r.kept.cycle_detected;
      ok = r.kept.ok;
    };
    lock = ap (fetch_add false) r.lock;
    left = r.left;
  }
  locked false bound b c r = r

  check_rules_locked-Applied :
      (b : BridgeOf e)
      → Applied
          (apply_rules e b).0
          (left b.filter)
          (relock (apply_rules e b).0 b.send_mine_channels_lock)
          b
          (check_rules_locked e b)
  unfolding apply_rules
  check_rules_locked-Applied b =
      locked (apply_rules e b).0 (left b.filter) b (apply_rules e b).1
        (apply_filter-Applied b.filter b refl)

  -- What the filter does at the start of process_mine_channels.
  pub record Filtered (lst : List ChannelId) (b : BridgeOf e) (kept : List ChannelId)
      (c : BridgeOf e) : Type 0 where
    pub changed : Bool
    pub applied : Applied changed (left b.filter) (relock changed b.send_mine_channels_lock) b c
    pub ascending : Ascending lst → Ascending kept

  keep_names-AllAbove :
      (test : ChannelId → e.flt.Rules → Bool × e.flt.Rules) (k : ChannelId) (names : List ChannelId)
      (f : e.flt.Rules)
      → AllAbove k names
      → AllAbove k (keep_names e test names f).0
  unfolding keep_names
  keep_names-AllAbove test k [] f a = tt
  keep_names-AllAbove test k (n ∷ names) f a =
      if-AllAbove k (test n f).0 n (keep_names e test names (test n f).1).0 a.0
        (keep_names-AllAbove test k names (test n f).1 a.1)

  keep_names-Ascending :
      (test : ChannelId → e.flt.Rules → Bool × e.flt.Rules) (names : List ChannelId)
      (f : e.flt.Rules)
      → Ascending names
      → Ascending (keep_names e test names f).0
  unfolding keep_names
  keep_names-Ascending test [] f a = tt
  keep_names-Ascending test (n ∷ names) f a =
      if-Ascending (test n f).0 n (keep_names e test names (test n f).1).0
        (keep_names-AllAbove test n names (test n f).1 a.0)
        (keep_names-Ascending test names (test n f).1 a.1)

  pub filter_names-Filtered :
      (flt : Option e.flt.Rules) (lst : List ChannelId) (b : BridgeOf e)
      → b.filter ≡ flt
      → Filtered lst b (filter_names e flt lst b).0 (filter_names e flt lst b).1
  filter_names-Filtered none lst b h = record {
    changed = false;
    applied = record { kept = Kept-refl b; lock = refl; left = omega arith };
    ascending = λ a. a;
  }
  filter_names-Filtered (some f) lst b h =
      let g = (keep_names e e.flt.on_incoming lst f).1 in
      let c = record b { filter = some g } in
      record {
        changed = (apply_rules e c).0;
        applied =
            Applied-after (apply_rules e c).0 (settles.changes g) (left b.filter)
              (relock (apply_rules e c).0 b.send_mine_channels_lock)
              (relock (apply_rules e c).0 b.send_mine_channels_lock) b c (check_rules_locked e c)
              (record { sent = refl; cur_channels = refl; cycle_detected = refl; ok = λ o. o })
              (rw h (keep_names-left e.flt.on_incoming settles.on_incoming lst f)) refl
              (check_rules_locked-Applied c);
        ascending = keep_names-Ascending e.flt.on_incoming lst f;
      }
