-- ===== src/Bus/Valid/Boxes.antt =====
-- The two maps of mailboxes and the mailboxes that they name.
use zerobus.Prelude.{ℕ, suc, ◌≤◌, ◌<◌, ◌≡◌, refl, Bool, List, none, some, arith}
use zerobus.Prelude.Keys.{nat_eq, bytes_eq, =?_iff, =?_self}
use zerobus.Prelude.Assoc.{
  lookup, erase, emplace, Distinct, Distinct-erase, Fresh-lookup, lookup-erase,
}
use zerobus.Messages.{ChannelId}
use zerobus.Bus.State.{MbxDef, update}

-- A listener has at most one mailbox, the two maps name the same ones, each mailbox knows its
-- owner and its address, and all addresses have come from the generator, which never repeats.
pub record BoxesOk (mbx : ℕ → MbxDef) (next : ℕ) (by_ptr : List (ℕ × ℕ))
    (by_name : List (ChannelId × ℕ)) (names : ℕ → ChannelId) (generated : ℕ) : Type 0 where
  pub ptr_distinct : Distinct by_ptr
  pub name_distinct : Distinct by_name
  pub owned :
      (l m : ℕ)
      → lookup l by_ptr ≡ some m
      → ((mbx m).owner ≡ l) × (lookup (mbx m).id by_name ≡ some m) × (m < next)
  pub addressed :
      (name : ChannelId) (m : ℕ)
      → lookup name by_name ≡ some m
      → ((mbx m).id ≡ name) × (lookup (mbx m).owner by_ptr ≡ some m)
  pub issued :
      (name : ChannelId) (i : ℕ) → names i ≡ name → generated ≤ i → lookup name by_name ≡ none
  pub unique : (i j : ℕ) → names i ≡ names j → i ≡ j

module _ {mbx : ℕ → MbxDef} {next : ℕ} {by_ptr : List (ℕ × ℕ)} {by_name : List (ChannelId × ℕ)}
    {names : ℕ → ChannelId} {generated : ℕ}
    (v : BoxesOk mbx next by_ptr by_name names generated) where
  -- A mailbox is disabled.
  pub BoxesOk-update :
      (m : ℕ) (box : MbxDef)
      → box.owner ≡ (mbx m).owner
      → box.id ≡ (mbx m).id
      → BoxesOk (update mbx m box) next by_ptr by_name names generated
  BoxesOk-update m box eo ei = record {
    ptr_distinct = v.ptr_distinct;
    name_distinct = v.name_distinct;
    owned = λ l k e. ground (arith, v.owned l k e);
    addressed = λ name k e. ground (arith, v.addressed name k e);
    issued = v.issued;
    unique = v.unique;
  }

  unclaimed : lookup (names generated) by_name ≡ none
  unclaimed = v.issued (names generated) generated refl (omega arith)

  -- A listener with no mailbox gets one under the next name.
  pub BoxesOk-insert :
      (l : ℕ)
      → lookup l by_ptr ≡ none
      → BoxesOk
          (update mbx next (record { owner = l; id = names generated; disabled = Bool.false }))
          (suc next)
          (emplace l next by_ptr)
          (emplace (names generated) next by_name)
          names
          (suc generated)
  unfolding lookup
  BoxesOk-insert l new = record {
    ptr_distinct = (Fresh-lookup l by_ptr new, v.ptr_distinct);
    name_distinct = (Fresh-lookup (names generated) by_name unclaimed, v.name_distinct);
    owned = λ k m e. ground (
      arith,
      =?_iff (names generated) (mbx m).id,
      =?_self (names generated),
      =?_iff (names generated)
          (update mbx next (record { owner = l; id = names generated; disabled = Bool.false })
            m).id,
      unclaimed,
      v.owned k m,
    );
    addressed = λ name m e. ground (
      arith,
      =?_iff (names generated) name,
      unclaimed,
      new,
      v.addressed name m,
      v.owned (mbx m).owner m,
    );
    issued = λ name i e h.
        ground (arith, =?_iff (names generated) name, v.unique generated i, v.issued name i e);
    unique = v.unique;
  }

  -- A listener loses its mailbox.
  pub BoxesOk-erase :
      (l m : ℕ)
      → lookup l by_ptr ≡ some m
      → BoxesOk mbx next (erase l by_ptr) (erase (mbx m).id by_name) names generated
  BoxesOk-erase l m found = record {
    ptr_distinct = Distinct-erase l by_ptr v.ptr_distinct;
    name_distinct = Distinct-erase (mbx m).id by_name v.name_distinct;
    owned = λ k n e. ground (
      arith,
      lookup-erase k l by_ptr v.ptr_distinct,
      lookup-erase (mbx n).id (mbx m).id by_name v.name_distinct,
      =?_iff (mbx m).id (mbx n).id,
      v.owned l m found,
      v.owned k n,
    );
    addressed = λ name n e. ground (
      arith,
      lookup-erase name (mbx m).id by_name v.name_distinct,
      lookup-erase (mbx n).owner l by_ptr v.ptr_distinct,
      =?_iff (mbx m).id name,
      v.owned l m found,
      v.addressed name n,
    );
    issued = λ name i e h.
        ground (arith, lookup-erase name (mbx m).id by_name v.name_distinct, v.issued name i e h);
    unique = v.unique;
  }
