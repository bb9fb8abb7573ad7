-- ===== src/MessagePool/Push/Republish.antt =====
-- What runLoop of chain/messagepool/messagepool.go sends again for a local address.
use filecoin.Base.{
  ◌++◌, ℕ, suc, ◌+◌, ◌^◌, ◌≤◌, ◌<◌, ◌≡◌, ◌≢◌, refl, sym, subst, List, [], ◌∷◌, ltb, ◌==◌, ==_iff,
  Option, none, some, nat_eq, arith, Bool-cases, inl, inr,
}
use filecoin.Base.Lists.{take, length, All, In, here, there}
use filecoin.Base.Map.{Map, find, values, AllEntries, find-AllEntries}
use filecoin.Base.Sort.{sort_by, sort_by-All}
use filecoin.ChainTypes.Actor.{Actor}
use filecoin.ChainTypes.Message.{SignedMessage, u64}
use filecoin.MessagePool.MsgSet.{MsgSet}
use filecoin.MessagePool.MsgSet.Invariant.{Under}
use filecoin.MessagePool.State.{Provider, MessagePool}
use filecoin.MessagePool.Pool.{nonce_less, pending_of, pending_for}
use filecoin.MessagePool.Pool.Pending.{Rising, sort_by-Rising}
use filecoin.MessagePool.Invariant.{IsSenderSet, IsPool, Fits}
use filecoin.MessagePool.Push.{from_nonce, republish_of, republish_from, republish_msgs}

-- The nonces of the list are `n` and those that follow it.
abbrev pub Consecutive : ℕ → List SignedMessage → Type 0
Consecutive n [] = Unit
Consecutive n (m ∷ ms) = (m.message.nonce ≡ n) × Consecutive (n + 1) ms

-- `out` is what the list has from the nonce `n` on, up to the first nonce that it lacks.
pub record Run (n : ℕ) (l out : List SignedMessage) : Type 0 where
  pub in_order : Consecutive n out
  pub from_list : All (λ m. In m l) out
  pub gap_after : All (λ m. m.message.nonce ≢ n + length out) l

deeper :
    (m : SignedMessage) (l out : List SignedMessage)
    → All (λ k. In k l) out
    → All (λ k. In k (m ∷ l)) out
deeper m l [] h = tt
deeper m l (k ∷ out) h = (there h.0, deeper m l out h.1)

above_gap :
    (n b : ℕ) (l : List SignedMessage)
    → n < b
    → All (λ k. b ≤ k.message.nonce) l
    → All (λ k. k.message.nonce ≢ n + 0) l
above_gap n b [] h a = tt
above_gap n b (k ∷ l) h a = (λ q. omega (arith, h, a.0, q), above_gap n b l h a.1)

from_nonce-Run : (n : ℕ) (l : List SignedMessage) → Rising l → All Fits l → Run n l (from_nonce n l)
unfolding from_nonce
from_nonce-Run n [] r f = record { in_order = tt; from_list = tt; gap_after = tt }
from_nonce-Run n (m ∷ l) r f = elim (Bool-cases (ltb m.message.nonce n)) [
  | inl y ↦ rw y (
      let s = from_nonce-Run n l r.1 f.1 in
      record {
        in_order = s.in_order;
        from_list = deeper m l (from_nonce n l) s.from_list;
        gap_after = (λ q. absurd (ground (arith, y, q)), s.gap_after);
      })
  | inr z ↦ rw z (elim (Bool-cases (m.message.nonce == n)) [
    | inr w ↦ rw w (record {
      in_order = tt;
      from_list = tt;
      gap_after =
          let over : n < m.message.nonce = ground (arith, z, w) in
          (λ q. absurd (omega (arith, over, q)), above_gap n m.message.nonce l over r.0);
    })
    | inl w ↦ rw w (
        let same : m.message.nonce ≡ n = (==_iff m.message.nonce n).0 w in
        let next : u64 (n + 1) ≡ n + 1 = ground (arith, same, f.0) in
        let s : Run (n + 1) l (from_nonce (u64 (n + 1)) l) =
          subst (λ k. Run (n + 1) l (from_nonce k l)) (sym next)
            (from_nonce-Run (n + 1) l r.1 f.1) in
        let out = from_nonce (u64 (n + 1)) l in
        let one : n + 1 + length out ≡ n + suc (length out) = omega arith in
        record {
          in_order = (same, s.in_order);
          from_list = (here, deeper m l out s.from_list);
          gap_after = (
            λ q. absurd (omega (arith, same, q)),
            subst (λ k. All (λ x. x.message.nonce ≢ k) l) one s.gap_after,
          );
        })
  ])
]

values-Fits :
    (b : ℕ) (msgs : Map ℕ SignedMessage)
    → b < 2 ^ 64
    → AllEntries (Under b) msgs
    → All Fits (values msgs)
values-Fits b [] h a = tt
values-Fits b ((k, m) ∷ msgs) h a = (omega (arith, h, a.0.0, a.0.1), values-Fits b msgs h a.1)

module _ (mp : MessagePool) (pool : IsPool mp) where
  pending_of-Run :
      (a n : ℕ) (o : Option MsgSet)
      → find a mp.pending ≡ o
      → Run n (pending_of o) (from_nonce n (pending_of o))
  unfolding pending_of
  pending_of-Run a n none q = from_nonce-Run n [] tt tt
  pending_of-Run a n (some ms) q =
      let i = find-AllEntries IsSenderSet a mp.pending ms pool.sets q in
      from_nonce-Run n (sort_by nonce_less (values ms.msgs)) (sort_by-Rising (values ms.msgs)) (
        sort_by-All nonce_less Fits (values ms.msgs)
          (values-Fits ms.next_nonce ms.msgs i.bound i.formed.under))

  -- What is sent again for an address, by its actor.
  abbrev pub RunFrom : ℕ → Option Actor → List SignedMessage → Type 0
  RunFrom a none out = out ≡ []
  RunFrom a (some act) out = Run act.nonce (pending_for mp a) out

  republish_of-RunFrom : (a : ℕ) (o : Option Actor) → RunFrom a o (republish_of mp a o)
  unfolding republish_of pending_for
  republish_of-RunFrom a none = refl
  republish_of-RunFrom a (some act) = pending_of-Run a act.nonce (find a mp.pending) refl

  -- What is sent again for the addresses, in turn, is the messages of each one behind another.
  abbrev pub RunsFrom : Provider → Map ℕ (Unit {0}) → List SignedMessage → Type 0
  RunsFrom p [] out = out ≡ []
  RunsFrom p ((a, _) ∷ addrs) out =
      (run : List SignedMessage) × (rest : List SignedMessage) × (out ≡ run ++ rest)
      × RunFrom a (p.state_get_actor a none) run
      × RunsFrom p addrs rest

  republish_from-RunsFrom :
      (p : Provider) (addrs : Map ℕ (Unit {0})) → RunsFrom p addrs (republish_from p mp addrs)
  unfolding republish_from
  republish_from-RunsFrom p [] = refl
  republish_from-RunsFrom p ((a, u) ∷ addrs) = (
    republish_of mp a (p.state_get_actor a none),
    republish_from p mp addrs,
    refl,
    republish_of-RunFrom a (p.state_get_actor a none),
    republish_from-RunsFrom p addrs,
  )

  -- In a well-formed pool, what a round of the republish loop sends again is the first 5 of the
  -- messages for the local addresses, one address behind another: for an address with an actor
  -- the pending messages of the address with the actor's nonce and those that follow it, one
  -- each, up to the first nonce that is not pending; for an address without an actor none.
  pub republish_msgs-RunsFrom :
      (p : Provider)
      → (runs : List SignedMessage) × RunsFrom p mp.local_addrs runs
        × (republish_msgs p mp ≡ take 5 runs)
  unfolding republish_msgs
  republish_msgs-RunsFrom p =
      (republish_from p mp mp.local_addrs, republish_from-RunsFrom p mp.local_addrs, refl)
