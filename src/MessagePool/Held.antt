-- ===== src/MessagePool/Held.antt =====
-- The pool as a map from sender and nonce to message, and its operations on that map.
pub mod Operations
use filecoin.Base.{
  ℕ, ◌≡◌, refl, ap, sym, ◌∙◌, subst, List, [], ◌∷◌, Bool, true, false, not, ◌&&◌, ◌||◌, ◌==◌,
  ==_refl, ==_iff, if◌then◌else◌, Option, none, some, nat_eq, arith, inl, inr, Bool-cases,
  Option-cases,
}
use filecoin.Base.Map.{Map, find, put, erase, find-put, find-erase}
use filecoin.Base.Int.{ltb_ℤ, leb_ℤ}
use filecoin.ChainTypes.Message.{Message, SignedMessage, block_gas_limit}
use filecoin.MessagePool.MsgSet.{
  Codec, MsgSet, cid, add, advance, store, add_over, Added, added, price_too_low, min_price,
  after_removal, is_empty,
}
use filecoin.MessagePool.State.{
  Provider, MessagePool, Result, ok, err, PoolError, replace_fee_too_low,
}
use filecoin.MessagePool.Pool.{
  set_or_new, after_add, add_to_set, add_locked, cache_signature, remove, remove_from, put_back,
}

abbrev pub held_in : Option MsgSet → ℕ → Option SignedMessage
held_in none nonce = none
held_in (some ms) nonce = find nonce ms.msgs

-- The pending message of a sender with a nonce.
abbrev pub held : MessagePool → ℕ → ℕ → Option SignedMessage
held mp from nonce = held_in (find from mp.pending) nonce

abbrev pub is_ok : Result (Unit {0}) → Bool
is_ok (ok _) = true
is_ok (err e) = false

abbrev pub accepts : Added → Bool
accepts (added b) = true
accepts price_too_low = false

pub msgs-advance_eq : (ms : MsgSet) (n : ℕ) → (advance ms n).msgs ≡ ms.msgs
unfolding advance
msgs-advance_eq ms n = ground arith

-- The messages of a set after an accepted or refused addition.
pub msgs-add :
    (c : Codec) (ms : MsgSet) (m : SignedMessage)
    → (add c ms m).0.msgs
      ≡ (if accepts (add c ms m).1 then put m.message.nonce m ms.msgs else ms.msgs)
unfolding add
msgs-add c ms m = elim (Option-cases (find m.message.nonce ms.msgs)) [
  | inl e ↦ rw e (ap (put m.message.nonce m) (msgs-advance_eq ms m.message.nonce))
  | inr (ex, e) ↦
      rw e
        (elim (Bool-cases
          (cid c m == cid c ex || leb_ℤ (min_price ex.message.gas_price) m.message.gas_price)) [
            | inl f ↦ rw f (ap (put m.message.nonce m) (msgs-advance_eq ms m.message.nonce))
            | inr f ↦ rw f (msgs-advance_eq ms m.message.nonce)
          ])
]

msgs-set_or_new : (s : Option MsgSet) (n : ℕ) → find n (set_or_new s).msgs ≡ held_in s n
unfolding set_or_new find
msgs-set_or_new none n = refl
msgs-set_or_new (some ms) n = refl

-- after `addLocked` has called `mset.add`
after_add-ok :
    (mp : MessagePool) (m : SignedMessage) (ms : MsgSet) (r : Added)
    → is_ok (after_add mp m (ms, r)).1 ≡ accepts r
unfolding after_add
after_add-ok mp m ms (added true) = refl
after_add-ok mp m ms (added false) = refl
after_add-ok mp m ms price_too_low = refl

pub after_add-pending :
    (mp : MessagePool) (m : SignedMessage) (ms : MsgSet) (r : Added)
    → (after_add mp m (ms, r)).0.pending ≡ put m.message.from ms mp.pending
unfolding after_add
after_add-pending mp m ms (added true) = refl
after_add-pending mp m ms (added false) = refl
after_add-pending mp m ms price_too_low = refl

-- what is looked up in a set to which a message was or was not added
looked_up :
    (taken : Bool) (nonce n : ℕ) (m : SignedMessage) (l l' : Map ℕ SignedMessage)
    (old : Option SignedMessage)
    → l' ≡ (if taken then put nonce m l else l)
    → find n l ≡ old
    → find n l' ≡ (if taken && (nonce == n) then some m else old)
looked_up taken nonce n m l l' old e o = elim (Bool-cases taken) [
  | inl y ↦ ground (arith, find-put nonce n m l, ap (find n) e)
  | inr y ↦ ground (arith, ap (find n) e)
]

held-put :
    (from a n : ℕ) (s : MsgSet) (l : Map ℕ MsgSet) (taken : Bool) (nonce : ℕ) (m : SignedMessage)
    → find n s.msgs ≡ (if taken && (nonce == n) then some m else held_in (find from l) n)
    → held_in (find a (put from s l)) n
      ≡ (if taken && (from == a) && (nonce == n) then some m else held_in (find a l) n)
held-put from a n s l taken nonce m e = elim (Bool-cases (from == a)) [
  | inl y ↦
      rw (find-put from a s l, y)
        (ground (arith, ap (λ k. held_in (find k l) n) ((==_iff from a).0 y)))
  | inr y ↦ rw (find-put from a s l, y) (ground arith)
]

module _ (p : Provider) (mp : MessagePool) (m : SignedMessage) (a n : ℕ) where
  pub held-add_to_set : held (add_to_set p mp m).0 a n ≡ (
      if is_ok (add_to_set p mp m).1 && (m.message.from == a) && (m.message.nonce == n)
      then some m
      else held mp a n)
  unfolding add_to_set
  held-add_to_set =
      let s = set_or_new (find m.message.from mp.pending) in
      let (ms, r) = add p.codec s m in
      rw (after_add-pending mp m ms r, after_add-ok mp m ms r)
        (held-put m.message.from a n ms mp.pending (accepts r) m.message.nonce m (
          looked_up (accepts r) m.message.nonce n m s.msgs ms.msgs _ (msgs-add p.codec s m)
            (msgs-set_or_new (find m.message.from mp.pending) n)))

  pub pending-cache_signature : (cache_signature p mp m).pending ≡ mp.pending
  unfolding cache_signature
  pending-cache_signature = ground arith
