-- ===== src/MessagePool/Pool/Pending.antt =====
-- The lists of pending messages: Pending and PendingFor of chain/messagepool/messagepool.go.
use mathlib.Core.List.{Perm}
use filecoin.Base.{ℕ, ◌≤◌, ◌≡◌, List, [], ◌∷◌, some, nat_eq, arith, Bool-cases, inl, inr}
use filecoin.Base.Lists.{All}
use filecoin.Base.Map.{find, values}
use filecoin.Base.Sort.{insert_by, sort_by, sort_by-perm}
use filecoin.ChainTypes.Message.{SignedMessage}
use filecoin.MessagePool.MsgSet.{MsgSet}
use filecoin.MessagePool.State.{MessagePool}
use filecoin.MessagePool.Pool.{nonce_less, pending_of, pending_for}

-- Nonces do not fall along the list.
abbrev pub Rising : List SignedMessage → Type 0
Rising [] = Unit
Rising (m ∷ l) = All (λ k. m.message.nonce ≤ k.message.nonce) l × Rising l

insert_by-lower :
    (n : ℕ) (m : SignedMessage) (l : List SignedMessage)
    → n ≤ m.message.nonce
    → All (λ k. n ≤ k.message.nonce) l
    → All (λ k. n ≤ k.message.nonce) (insert_by nonce_less m l)
unfolding insert_by
insert_by-lower n m [] h a = (h, tt)
insert_by-lower n m (k ∷ l) h a = elim (Bool-cases (nonce_less k m)) [
  | inl e ↦ rw e (a.0, insert_by-lower n m l h a.1)
  | inr e ↦ rw e (h, a)
]

lower :
    (a b : ℕ) (l : List SignedMessage)
    → a ≤ b
    → All (λ k. b ≤ k.message.nonce) l
    → All (λ k. a ≤ k.message.nonce) l
lower a b [] h t = tt
lower a b (k ∷ l) h t = (omega (arith, h, t.0), lower a b l h t.1)

insert_by-Rising :
    (m : SignedMessage) (l : List SignedMessage) → Rising l → Rising (insert_by nonce_less m l)
unfolding insert_by
insert_by-Rising m [] r = (tt, tt)
insert_by-Rising m (k ∷ l) r = elim (Bool-cases (nonce_less k m)) [
  | inl e ↦
      rw e (insert_by-lower k.message.nonce m l (ground (arith, e)) r.0, insert_by-Rising m l r.1)
  | inr e ↦
      let below : m.message.nonce ≤ k.message.nonce = ground (arith, e) in
      rw e ((below, lower m.message.nonce k.message.nonce l below r.0), r)
]

pub sort_by-Rising : (l : List SignedMessage) → Rising (sort_by nonce_less l)
unfolding sort_by
sort_by-Rising [] = tt
sort_by-Rising (m ∷ l) = insert_by-Rising m (sort_by nonce_less l) (sort_by-Rising l)

-- The messages pending for an address that has a set are those of the set, each once, by rising
-- nonce.
pub pending_for-Rising :
    (mp : MessagePool) (a : ℕ) (ms : MsgSet)
    → find a mp.pending ≡ some ms
    → Rising (pending_for mp a) × Perm (pending_for mp a) (values ms.msgs)
unfolding pending_for pending_of
pending_for-Rising mp a ms e =
    rw e (sort_by-Rising (values ms.msgs), sort_by-perm nonce_less (values ms.msgs))
