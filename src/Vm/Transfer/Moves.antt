-- ===== src/Vm/Transfer/Moves.antt =====
-- What transfer of chain/vm/vm.go moves.
use filecoin.Base.{
  ℕ, ◌≡◌, refl, ap, ◌∙◌, inl, inr, false, if◌then◌else◌, ◌==◌, ==_iff, Option, none, some, nat_eq,
  arith, Bool-cases,
}
use filecoin.Base.Int.{ℤ, pos, ◌+ℤ◌, ◌-ℤ◌, ltb_ℤ}
use filecoin.ChainTypes.Actor.{Actor}
use filecoin.StateTree.{StateTree, Found, actor, not_found, get_actor, set_actor}
use filecoin.StateTree.View.{view, result, view-set_actor, get_actor_lem}
use filecoin.Vm.Transfer.{
  Outcome, done, deduct_funds, deposit_funds, write_both, transfer_to, transfer_from, transfer_ids,
  transfer,
}

abbrev with_balance : Actor → ℤ → Actor
with_balance act n = record act { balance = n }

-- The amount has gone from the actor `f` to the actor `t`, and the actor `j` is what it was unless it
-- is one of them.
pub record Moved (f t : ℕ) (amt : ℤ) (old new : ℕ → Option Actor) (j : ℕ) : Type 0 where
  pub sender : Actor
  pub receiver : Actor
  pub sender_of : old f ≡ some sender
  pub receiver_of : old t ≡ some receiver
  pub not_negative : ltb_ℤ amt (pos 0) ≡ false
  pub covered : ltb_ℤ sender.balance amt ≡ false
  pub after : new j ≡ (
      if t == j
      then some (with_balance receiver (receiver.balance +ℤ amt))
      else if f == j
      then some (with_balance sender (sender.balance -ℤ amt))
      else old j)

-- What becomes of the actor `j` in a transfer between the actors `f` and `t`.
abbrev pub Transferred : ℕ → ℕ → ℤ → (ℕ → Option Actor) → StateTree × Outcome → ℕ → Type 0
Transferred f t amt old (st, done) j = Moved f t amt old (view st) j
Transferred f t amt old (st, _) j = view st j ≡ old j

found : {b : Actor} (o : Option Actor) → actor b ≡ result o → o ≡ some b
found none e = absurd (cc)
found (some c) e = cc

module _ (f t : ℕ) (amt : ℤ) (old : ℕ → Option Actor) (j : ℕ) (fine : ltb_ℤ amt (pos 0) ≡ false)
    (apart : f == t ≡ false) where
  write_both-Transferred :
      (a b : Actor) (st : StateTree) (o : Option Actor)
      → deduct_funds a amt ≡ o
      → old f ≡ some a
      → old t ≡ some b
      → ((k : ℕ) → view st k ≡ old k)
      → Transferred f t amt old (write_both f t amt o b st) j
  unfolding write_both deduct_funds deposit_funds
  write_both-Transferred a b st none d e g v = v j
  write_both-Transferred a b st (some a') d e g v = record {
    sender = a;
    receiver = b;
    sender_of = e;
    receiver_of = g;
    not_negative = fine;
    covered = enough;
    after =
        view-set_actor (set_actor f a' st) t j (deposit_funds b amt)
        ∙ ap (λ o. if t == j then some (deposit_funds b amt) else o)
            (view-set_actor st f j a' ∙ ground (arith, v j, left enough));
  }
    where
      enough : ltb_ℤ a.balance amt ≡ false
      enough = elim (Bool-cases (ltb_ℤ a.balance amt)) [
        | inr n ↦ n
        | inl n ↦ absurd (ground (arith, n, d))
      ]

      left : ltb_ℤ a.balance amt ≡ false → some (with_balance a (a.balance -ℤ amt)) ≡ some a'
      left n = rw n at d

  transfer_to-Transferred :
      (a : Actor) (r : Found) (st : StateTree)
      → r ≡ result (old t)
      → old f ≡ some a
      → ((k : ℕ) → view st k ≡ old k)
      → Transferred f t amt old (transfer_to f t amt a (r, st)) j
  unfolding transfer_to
  transfer_to-Transferred a not_found st g e v = v j
  transfer_to-Transferred a (actor b) st g e v =
      write_both-Transferred a b st (deduct_funds a amt) refl e (found (old t) g) v

  transfer_from-Transferred :
      (r : Found) (st : StateTree)
      → r ≡ result (old f)
      → ((k : ℕ) → view st k ≡ old k)
      → Transferred f t amt old (transfer_from f t amt (r, st)) j
  unfolding transfer_from
  transfer_from-Transferred not_found st e v = v j
  transfer_from-Transferred (actor a) st e v =
      transfer_to-Transferred a (get_actor t st).0 (get_actor t st).1
        ((get_actor_lem st t t).0 ∙ ap result (v t)) (found (old f) e)
        (λ k. (get_actor_lem st t k).1 ∙ v k)

-- A transfer between addresses of two actors that succeeds moves the amount, which is not
-- negative and which the sender has, and changes nothing else; one that fails changes no actor.
pub transfer_moves :
    (resolve : ℕ → Option ℕ) (from to : ℕ) (amt : ℤ) (st : StateTree) (f t j : ℕ)
    → resolve from ≡ some f
    → resolve to ≡ some t
    → f == t ≡ false
    → Transferred f t amt (view st) (transfer resolve from to amt st) j
unfolding transfer transfer_ids
transfer_moves resolve from to amt st f t j e g d = elim (Bool-cases (from == to)) [
  | inl q ↦ absurd (ground (arith, ap resolve ((==_iff from to).0 q), e, g, d, ==_iff f t))
  | inr q ↦
      rw (q, e, g)
        (rw d (elim (Bool-cases (ltb_ℤ amt (pos 0))) [
          | inl n ↦ rw n refl
          | inr n ↦ rw n (
              transfer_from-Transferred f t amt (view st) j n d (get_actor f st).0
                (get_actor f st).1 (get_actor_lem st f f).0 (λ k. (get_actor_lem st f k).1))
        ]))
]
