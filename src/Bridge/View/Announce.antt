-- ===== src/Bridge/View/Announce.antt =====
-- What the updates that process_mine_channels sends (src/zerobus/bridge.cpp) let the other side
-- know.
use zerobus.Prelude.{
  ◌≡◌, refl, sym, ap, ◌∙◌, Bool, ◌⊎◌, true, false, not, inl, inr, Bool-cases, ◌&&◌, ◌||◌, List, [],
  ◌∷◌, ◌++◌, arith, if◌then◌else◌,
}
use zerobus.Messages.{ChannelId, Operation, Msg}
use zerobus.Bus.Effect.Listing.{listed}
use zerobus.Bridge.Api.{Bridge, send}
use zerobus.Bridge.Channels.{set_difference, no_names, send_update, announce}
use zerobus.Bridge.View.Difference.{Ascending, listed-set_difference}

-- Whether the other side takes the name for a channel of this side, after a message. A new
-- session makes it forget all.
abbrev pub see : ChannelId → Bool → Msg → Bool
see n known (Msg.channel_update names Operation.replace) = listed n names
see n known (Msg.channel_update names Operation.add) = known || listed n names
see n known (Msg.channel_update names Operation.erase) = known && not (listed n names)
see n known (Msg.new_session version) = false
see n known (Msg.user_msg type content) = known
see n known (Msg.message msg) = known
see n known Msg.channel_reset = known
see n known (Msg.no_route sender receiver) = known
see n known (Msg.add_to_group group target) = known
see n known (Msg.close_group group) = known
see n known (Msg.group_empty group) = known
see n known (Msg.update_serial serial) = known

abbrev pub view_from : ChannelId → Bool → List Msg → Bool
view_from n known [] = known
view_from n known (m ∷ ms) = view_from n (see n known m) ms

abbrev pub view : {S F : Type 0} → ChannelId → Bridge S F → Bool
view n b = view_from n false b.sent

view_from-append :
    (n : ChannelId) (known : Bool) (ms : List Msg) (m : Msg)
    → view_from n known (ms ++ (m ∷ [])) ≡ see n (view_from n known ms) m
view_from-append n known [] m = refl
view_from-append n known (k ∷ ms) m = view_from-append n (see n known k) ms m

pub view-send :
    {S F : Type 0} (n : ChannelId) (m : Msg) (b : Bridge S F)
    → view n (send m b) ≡ see n (view n b) m
view-send n m b = view_from-append n false b.sent m

-- The other side knows the list that this side has kept.
abbrev pub Synced : {S F : Type 0} → Bridge S F → Type 0
Synced b = (n : ChannelId) → view n b ≡ listed n b.cur_channels

or_nothing : (b : Bool) → b ≡ (b || false)
or_nothing b = ground arith

and_all : (b : Bool) → b ≡ (b && true)
and_all b = ground arith

view-send_add :
    {S F : Type 0} (n : ChannelId) (names : List ChannelId) (b : Bridge S F)
    → view n (send_update Operation.add names b) ≡ (view n b || listed n names)
view-send_add n [] b = or_nothing (view n b)
view-send_add n (x ∷ names) b = view-send n (Msg.channel_update (x ∷ names) Operation.add) b

view-send_erase :
    {S F : Type 0} (n : ChannelId) (names : List ChannelId) (b : Bridge S F)
    → view n (send_update Operation.erase names b) ≡ (view n b && not (listed n names))
view-send_erase n [] b = and_all (view n b)
view-send_erase n (x ∷ names) b = view-send n (Msg.channel_update (x ∷ names) Operation.erase) b

no_names-listed :
    (n : ChannelId) (names : List ChannelId) → no_names names ≡ true → listed n names ≡ false
no_names-listed n [] h = refl
no_names-listed n (x ∷ names) h = cc

both : (a b : Bool) → (a && b) ≡ true → (a ≡ true) × (b ≡ true)
both a b h = ground arith

-- The last branch of announce, for the lists of what is new and what is gone.
abbrev delta :
    {S F : Type 0} → List ChannelId → List ChannelId → List ChannelId → Bridge S F → Bridge S F
delta lst added erased b =
    if no_names added && no_names erased
    then b
    else record (send_update Operation.erase erased (send_update Operation.add added b)) {
      cur_channels = lst;
    }

-- What holds after the list was announced.
pub record Announced {S F : Type 0} (lst : List ChannelId) (b : Bridge S F) : Type 0 where
  pub known : (n : ChannelId) → view n b ≡ listed n lst
  pub kept : (n : ChannelId) → listed n b.cur_channels ≡ listed n lst
  pub ascending : Ascending b.cur_channels

pub Announced-Synced :
    {S F : Type 0} (lst : List ChannelId) (b : Bridge S F) → Announced lst b → Synced b
Announced-Synced lst b a n = a.known n ∙ sym (a.kept n)

same_sets : (k l : Bool) → (l && not k) ≡ false → (k && not l) ≡ false → k ≡ l
same_sets k l g h = ground arith

step_sets : (k l : Bool) → ((k || (l && not k)) && not (k && not l)) ≡ l
step_sets k l = ground arith

module _ {S F : Type 0} (lst : List ChannelId) (b : Bridge S F) where
  nothing_new :
      (added erased : List ChannelId)
      → ((n : ChannelId) → listed n added ≡ (listed n lst && not (listed n b.cur_channels)))
      → ((n : ChannelId) → listed n erased ≡ (listed n b.cur_channels && not (listed n lst)))
      → no_names added ≡ true
      → no_names erased ≡ true
      → (n : ChannelId) → listed n b.cur_channels ≡ listed n lst
  nothing_new added erased ha he ea ee n =
      same_sets (listed n b.cur_channels) (listed n lst) (sym (ha n) ∙ no_names-listed n added ea)
        (sym (he n) ∙ no_names-listed n erased ee)

  delta-view :
      (added erased : List ChannelId)
      → ((n : ChannelId) → listed n added ≡ (listed n lst && not (listed n b.cur_channels)))
      → ((n : ChannelId) → listed n erased ≡ (listed n b.cur_channels && not (listed n lst)))
      → Synced b
      → (n : ChannelId)
      → view n (send_update Operation.erase erased (send_update Operation.add added b))
        ≡ listed n lst
  delta-view added erased ha he s n =
      view-send_erase n erased (send_update Operation.add added b)
      ∙ ap (λ x. x && not (listed n erased)) (view-send_add n added b)
      ∙ rw (ha n, he n, s n) (step_sets (listed n b.cur_channels) (listed n lst))

  delta-Announced :
      (added erased : List ChannelId)
      → ((n : ChannelId) → listed n added ≡ (listed n lst && not (listed n b.cur_channels)))
      → ((n : ChannelId) → listed n erased ≡ (listed n b.cur_channels && not (listed n lst)))
      → Ascending lst
      → Ascending b.cur_channels
      → Synced b
      → Announced lst (delta lst added erased b)
  delta-Announced added erased ha he al ac s =
      elim (Bool-cases (no_names added && no_names erased)) [
        | inl h ↦ rw h (
            let (ea, ee) = both (no_names added) (no_names erased) h in
            let same = nothing_new added erased ha he ea ee in
            record { known = λ n. s n ∙ same n; kept = same; ascending = ac })
        | inr h ↦
            rw h
              (record { known = delta-view added erased ha he s; kept = λ n. refl; ascending = al })
      ]

  -- The whole list is sent: whatever the other side knew, it knows this list.
  replaced-Announced :
      Ascending lst
      → Announced lst
          (record (send (Msg.channel_update lst Operation.replace) b) { cur_channels = lst })
  replaced-Announced al = record {
    known = λ n. view-send n (Msg.channel_update lst Operation.replace) b;
    kept = λ n. refl;
    ascending = al;
  }

-- The whole list, if it is not empty; nothing is sent where nothing was known.
send_all-Announced :
    {S F : Type 0} (lst : List ChannelId) (b : Bridge S F)
    → Ascending lst
    → ((n : ChannelId) → view n b ≡ false) ⊎ (no_names lst ≡ false)
    → Announced lst (record (send_update Operation.replace lst b) { cur_channels = lst })
send_all-Announced [] b al (inl h) = record { known = h; kept = λ n. refl; ascending = tt }
send_all-Announced [] b al (inr h) = absurd cc
send_all-Announced (x ∷ lst) b al h = replaced-Announced (x ∷ lst) b al

-- If the kept list is in order and is what the other side knows, then after the list was
-- announced without reset, in order itself, by an update that replaces all or by one that adds
-- and one that erases, the other side knows exactly the new list, and the kept list has the
-- same names, in order.
pub announce-Announced :
    {S F : Type 0} (lst : List ChannelId) (b : Bridge S F)
    → Ascending lst
    → Ascending b.cur_channels
    → Synced b
    → Announced lst (announce lst false b)
unfolding announce
announce-Announced lst b al ac s = elim (Bool-cases (no_names b.cur_channels)) [
  | inl h ↦ rw h (send_all-Announced lst b al (inl (λ n. s n ∙ no_names-listed n b.cur_channels h)))
  | inr h ↦ rw h (elim (Bool-cases (no_names lst)) [
    | inl k ↦ rw k (replaced-Announced lst b al)
    | inr k ↦ rw k (
        delta-Announced lst b (set_difference lst b.cur_channels)
          (set_difference b.cur_channels lst)
          (λ n. listed-set_difference n lst b.cur_channels al ac)
          (λ n. listed-set_difference n b.cur_channels lst ac al) al ac s)
  ])
]

-- A list in order that is not empty and is announced with reset is what the other side knows
-- then, whatever it knew before.
pub announce_reset-Announced :
    {S F : Type 0} (lst : List ChannelId) (b : Bridge S F)
    → Ascending lst
    → no_names lst ≡ false
    → Announced lst (announce lst true b)
unfolding announce
announce_reset-Announced lst b al h = elim (Bool-cases (no_names b.cur_channels)) [
  | inl k ↦ rw k (send_all-Announced lst b al (inr h))
  | inr k ↦ rw k (send_all-Announced lst b al (inr h))
]
