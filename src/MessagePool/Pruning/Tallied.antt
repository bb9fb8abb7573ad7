-- ===== src/MessagePool/Pruning/Tallied.antt =====
-- The tally of pruneMessages of chain/messagepool/pruning.go has each sender once, and the loop
-- that chooses goes over all of them.
use filecoin.Base.{
  ℕ, sym, subst, List, [], ◌∷◌, map, Option, none, some, nat_eq, Bool-cases, inl, inr,
}
use filecoin.Base.Int.{ℤ}
use filecoin.Base.Lists.{In, here, there}
use filecoin.Base.Map.{Map, find, put, Distinct, put-Distinct, AllEntries, AllEntries-mono}
use filecoin.Base.Sort.Canonical.{sort_by-In}
use filecoin.ChainTypes.BlockHeader.{bytes_less}
use filecoin.ChainTypes.Actor.{Actor}
use filecoin.ChainTypes.TipSet.{TipSet}
use filecoin.ChainTypes.Message.{SignedMessage, valid_for_block_inclusion}
use filecoin.MessagePool.State.{Provider}
use filecoin.MessagePool.GasGuess.{guess_gas_used}
use filecoin.MessagePool.Tally.{
  Library, SenderMeta, Tally, meta_or_new, append_message, may_be_included, look_up_sender, include,
  include_known, tally_one, tally_all,
}
use filecoin.MessagePool.Pruning.{ordered_senders}
use filecoin.MessagePool.Pruning.Origin.{include_outs}

include-Distinct :
    (m : SignedMessage) (guess : ℤ) (t : Tally)
    → Distinct t.out_by_sender
    → Distinct (include m guess t).out_by_sender
include-Distinct m guess t d = elim (include_outs m guess t) [
  | inl e ↦ subst Distinct (sym e) d
  | inr e ↦
      let sm = append_message m guess (meta_or_new (find m.message.from t.out_by_sender)) in
      subst Distinct (sym e) (put-Distinct m.message.from sm t.out_by_sender d)
]

known-Distinct :
    (m : SignedMessage) (guess : ℤ) (t : Tally) (o : Option ℕ) (act : Option Actor)
    → Distinct t.out_by_sender
    → Distinct (include_known m guess t (look_up_sender t m.message.from o act)).out_by_sender
unfolding include_known look_up_sender
known-Distinct m guess t (some n) act d = include-Distinct m guess t d
known-Distinct m guess t none none d = d
known-Distinct m guess t none (some act) d =
    let looked : Tally = record t {
      incl_nonces = put m.message.from act.nonce t.incl_nonces;
      incl_balances = put m.message.from act.balance t.incl_balances;
    } in
    include-Distinct m guess looked d

module _ (lib : Library) (p : Provider) (ts : TipSet) where
  tally_one-Distinct :
      (m : SignedMessage) (t : Tally)
      → Distinct t.out_by_sender
      → Distinct (tally_one lib p ts m t).out_by_sender
  unfolding tally_one
  tally_one-Distinct m t d =
      let min_gas = p.min_gas (p.codec.sealed_len m) ts.height in
      let guess = (guess_gas_used lib.builtin (λ a. p.state_get_actor a (some ts)) m).0 in
      elim (Bool-cases (may_be_included (valid_for_block_inclusion m.message min_gas) m)) [
        | inl e ↦ rw e (
            known-Distinct m guess t (find m.message.from t.incl_nonces)
              (p.state_get_actor m.message.from none) d)
        | inr e ↦ rw e d
      ]

  pub tally_all-Distinct :
      (ms : List SignedMessage) (t : Tally)
      → Distinct t.out_by_sender
      → Distinct (tally_all lib p ts ms t).out_by_sender
  unfolding tally_all
  tally_all-Distinct [] t d = d
  tally_all-Distinct (m ∷ ms) t d =
      tally_all-Distinct ms (tally_one lib p ts m t) (tally_one-Distinct m t d)

keys_cover : (outs : Map ℕ SenderMeta) → AllEntries (λ s sm. In s (map (λ e. e.0) outs)) outs
keys_cover [] = tt
keys_cover ((s, sm) ∷ outs) = (here, AllEntries-mono _ _ outs (λ k x i. there i) (keys_cover outs))

pub ordered_senders_cover :
    (lib : Library) (outs : Map ℕ SenderMeta)
    → AllEntries (λ s sm. In s (ordered_senders lib outs)) outs
unfolding ordered_senders
ordered_senders_cover lib outs =
    AllEntries-mono _ _ outs
      (λ s sm i.
        sort_by-In (λ a b. bytes_less (lib.address_bytes a) (lib.address_bytes b))
          (map (λ e. e.0) outs) i)
      (keys_cover outs)
