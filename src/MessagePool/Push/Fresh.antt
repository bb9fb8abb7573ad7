-- ===== src/MessagePool/Push/Fresh.antt =====
-- A message pushed by PushWithNonce of chain/messagepool/messagepool.go is new.
use filecoin.Base.{
  ℕ, ◌<◌, ◌≡◌, refl, sym, subst, ◌&&◌, ◌==◌, if◌then◌else◌, Option, none, some, nat_eq, arith, [],
  ◌∷◌, Bool-cases, inl, inr,
}
use filecoin.Base.Map.{Map, find, AllEntries, find-put_self}
use filecoin.ChainTypes.TipSet.{TipSet}
use filecoin.ChainTypes.Message.{SignedMessage, Invalid}
use filecoin.MessagePool.MsgSet.{MsgSet}
use filecoin.MessagePool.State.{Provider, MessagePool, Result, ok, err}
use filecoin.MessagePool.Nonce.{get_state_nonce, get_nonce_locked}
use filecoin.MessagePool.Nonce.Fresh.{IsFresh, msgs_of, get_nonce_locked-IsFresh}
use filecoin.MessagePool.Invariant.{IsPool}
use filecoin.MessagePool.Pool.{add_locked}
use filecoin.MessagePool.Held.{held, held_in, is_ok}
use filecoin.MessagePool.Held.Operations.{add_locked_stores}
use filecoin.MessagePool.Push.{
  Pushed, pushed, failed, add_local, verify_msg_before_push, published, nonce_added, nonce_checked,
  signed_at, with_signed, with_nonce, account_key, with_key, push_with_nonce,
}

-- The message is new for its sender, whose address is a local one from now on, and is all that has
-- been added.
pub record Adds (p : Provider) (mp mp' : MessagePool) (m : SignedMessage) : Type 0 where
  pub fresh :
      IsFresh
        (get_state_nonce p m.message.from mp.cur_ts)
        (msgs_of (find m.message.from mp.pending))
        m.message.nonce
  pub nothing_there : held mp m.message.from m.message.nonce ≡ none
  pub stored_there :
      (a n : ℕ)
      → held mp' a n
        ≡ (if (m.message.from == a) && (m.message.nonce == n) then some m else held mp a n)
  pub local_addr : find m.message.from mp'.local_addrs ≡ some tt

not_found_above :
    (n : ℕ) (msgs : Map ℕ SignedMessage) → AllEntries (λ k m. k < n) msgs → find n msgs ≡ none
unfolding find
not_found_above n [] h = refl
not_found_above n ((k, m) ∷ msgs) h = ground (arith, not_found_above n msgs h.1)

held_none : (o : Option MsgSet) (n : ℕ) → AllEntries (λ k m. k < n) (msgs_of o) → held_in o n ≡ none
held_none none n h = refl
held_none (some ms) n h = not_found_above n ms.msgs h

module _ (p : Provider) (mp : MessagePool) (pool : IsPool mp) where
  abbrev AddsIf : Option (MessagePool × Pushed) → Type 0
  AddsIf none = Unit
  AddsIf (some (mp', failed e)) = Unit
  AddsIf (some (mp', pushed m)) = Adds p mp mp' m

  module _ (m : SignedMessage)
      (fresh : IsFresh
        (get_state_nonce p m.message.from mp.cur_ts)
        (msgs_of (find m.message.from mp.pending))
        m.message.nonce) where
    published-AddsIf : (mp' : MessagePool) → Adds p mp mp' m → AddsIf (some (mp', published p m))
    unfolding published
    published-AddsIf mp' h = ground (arith, h)

    nonce_added-AddsIf :
        (mp' : MessagePool) (r : Result (Unit {0}))
        → ((a n : ℕ)
            → held mp' a n ≡ (
                if is_ok r && (m.message.from == a) && (m.message.nonce == n)
                then some m
                else held mp a n))
        → AddsIf (some (nonce_added p m (mp', r)))
    unfolding nonce_added add_local
    nonce_added-AddsIf mp' (err e) h = tt
    nonce_added-AddsIf mp' (ok u) h = published-AddsIf (add_local p mp' m).0 (record {
      fresh = fresh;
      nothing_there = held_none (find m.message.from mp.pending) m.message.nonce fresh.above;
      stored_there = λ a n. h a n;
      local_addr = find-put_self m.message.from tt mp'.local_addrs;
    })

    nonce_checked-AddsIf : (o : Option Invalid) → AddsIf (some (nonce_checked p mp m o))
    unfolding nonce_checked
    nonce_checked-AddsIf (some e) = tt
    nonce_checked-AddsIf none = elim (Bool-cases (p.serializes m)) [
      | inr n ↦ rw n tt
      | inl y ↦ rw y (
          nonce_added-AddsIf (add_locked p mp m).0 (add_locked p mp m).1
            (λ a n. add_locked_stores p mp m a n))
    ]

    signed_at-AddsIf : (o : Option TipSet) → AddsIf (signed_at p mp m o)
    unfolding signed_at
    signed_at-AddsIf none = tt
    signed_at-AddsIf (some ts) = nonce_checked-AddsIf (verify_msg_before_push p m ts.height)

  module _ (cb : ℕ → ℕ → Option SignedMessage)
      (signs : (key n : ℕ) (m : SignedMessage)
        → cb key n ≡ some m
        → (m.message.from ≡ key) × (m.message.nonce ≡ n)) where
    with_signed-AddsIf :
        (key n : ℕ) (o : Option SignedMessage)
        → cb key n ≡ o
        → IsFresh (get_state_nonce p key mp.cur_ts) (msgs_of (find key mp.pending)) n
        → AddsIf (with_signed p mp o)
    unfolding with_signed
    with_signed-AddsIf key n none q f = tt
    with_signed-AddsIf key n (some m) q f =
        let (s, t) = signs key n m q in
        signed_at-AddsIf m
          (subst
            (λ k.
              IsFresh (get_state_nonce p k mp.cur_ts) (msgs_of (find k mp.pending)) m.message.nonce)
            (sym s)
            (subst (IsFresh (get_state_nonce p key mp.cur_ts) (msgs_of (find key mp.pending)))
              (sym t) f))
          mp.cur_ts

    with_nonce-AddsIf :
        (key : ℕ) (r : Result ℕ) → get_nonce_locked p mp key ≡ r → AddsIf (with_nonce p mp key cb r)
    unfolding with_nonce
    with_nonce-AddsIf key (err e) q = tt
    with_nonce-AddsIf key (ok n) q =
        with_signed-AddsIf key n (cb key n) refl (get_nonce_locked-IsFresh p mp key n pool q)

    with_key-AddsIf : (o : Option ℕ) → AddsIf (with_key p mp cb o)
    unfolding with_key
    with_key-AddsIf none = tt
    with_key-AddsIf (some key) = with_nonce-AddsIf key (get_nonce_locked p mp key) refl

    -- A message that PushWithNonce returns without an error stands in the pool under its sender
    -- and its nonce, where nothing was; its nonce is at least the chain's and above those of all
    -- the sender's pending messages, every other message of the pool is as it was, and its sender
    -- is a local address. The pool is well formed, and the message that the callback signs has
    -- the key and the nonce that it was given.
    pub push_with_nonce-Adds :
        (addr : ℕ) (mp' : MessagePool) (m : SignedMessage)
        → push_with_nonce p mp addr cb ≡ some (mp', pushed m)
        → Adds p mp mp' m
    unfolding push_with_nonce
    push_with_nonce-Adds addr mp' m q = subst AddsIf q (with_key-AddsIf (account_key p mp addr))
