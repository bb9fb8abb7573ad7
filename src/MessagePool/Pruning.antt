-- ===== src/MessagePool/Pruning.antt =====
-- chain/messagepool/pruning.go: which messages are kept when the pool has grown too large.
pub mod Choice
pub mod Listed
pub mod Origin
pub mod Tallied
pub mod Rated
pub mod Exhausted
pub mod Kept
pub mod Cids
pub mod Size
use filecoin.Base.{
  ℕ, zero, suc, ◌+◌, List, [], ◌∷◌, ◌++◌, map, Bool, true, false, not, ◌&&◌, ltb, leb, ◌==◌,
  if◌then◌else◌, Option, none, some, nat_eq,
}
use filecoin.Base.Lists.{length, take, drop, any}
use filecoin.Base.Map.{Map, find, put, erase}
use filecoin.Base.Sort.{sort_by}
use filecoin.Base.Int.{ℤ, pos, ◌+ℤ◌, ◌-ℤ◌, ◌*ℤ◌, ltb_ℤ}
use filecoin.ChainTypes.BlockHeader.{bytes_less}
use filecoin.ChainTypes.TipSet.{TipSet}
use filecoin.ChainTypes.Actor.{Actor}
use filecoin.ChainTypes.Message.{
  SignedMessage, Invalid, valid_for_block_inclusion, block_gas_limit, undef, required_funds, u64,
  u64_of_int,
}
use filecoin.MessagePool.MsgSet.{Codec, cid}
use filecoin.MessagePool.State.{Provider, MessagePool}
use filecoin.MessagePool.Pool.{nonce_less, pending_all, remove}
use filecoin.MessagePool.GasGuess.{Builtin, guess_gas_used}
use filecoin.MessagePool.Tally.{Library, Entry, SenderMeta, Tally, tally_all}

unfoldable pub ordered_senders : Library → Map ℕ SenderMeta → List ℕ
unfolding sort_by bytes_less
ordered_senders lib outs =
    sort_by (λ a b. bytes_less (lib.address_bytes a) (lib.address_bytes b)) (map (λ e. e.0) outs)

pub record BestChoice : Type 0 where
  pub sender : ℕ
  pub n_best : ℕ
  pub gas_to_reward : ℕ

-- the loop over a sender's messages from the one at `n` on, with `len` messages chosen before
unfoldable pub best_of : Library → ℕ → ℕ → ℕ → ℕ → List Entry → BestChoice → BestChoice
best_of lib lo len sender n [] b = b
best_of lib lo len sender n (e ∷ es) b =
    let gas_to_reward = lib.ratio e.gas_reward e.gas_limit in
    let better =
      if lib.at_least gas_to_reward b.gas_to_reward
      then record { sender = sender; n_best = n + 1; gas_to_reward = gas_to_reward }
      else b in
    let next = best_of lib lo len sender (n + 1) es better in if leb lo (n + len) then b else next

unfoldable pub best_of_sender : Library → ℕ → ℕ → ℕ → Option SenderMeta → BestChoice → BestChoice
unfolding best_of
best_of_sender lib lo len sender none b = b
best_of_sender lib lo len sender (some sm) b = best_of lib lo len sender 0 sm.entries b

unfoldable pub best_of_all : Library → ℕ → ℕ → Map ℕ SenderMeta → List ℕ → BestChoice → BestChoice
unfolding best_of_sender find
best_of_all lib lo len outs [] b = b
best_of_all lib lo len outs (s ∷ senders) b =
    best_of_all lib lo len outs senders (best_of_sender lib lo len s (find s outs) b)

abbrev pub no_best : BestChoice
no_best = record { sender = undef; n_best = 0; gas_to_reward = 0 }

-- what has been chosen, and what is left
pub record Chosen : Type 0 where
  pub out : List SignedMessage
  pub out_by_sender : Map ℕ SenderMeta

unfoldable pub put_rest : ℕ → SenderMeta → List Entry → Map ℕ SenderMeta → Map ℕ SenderMeta
unfolding put erase
put_rest sender sm [] outs = erase sender outs
put_rest sender sm (e ∷ es) outs = put sender (record sm { entries = e ∷ es }) outs

-- `none` is the panic at a sender that is not there
unfoldable pub cut : BestChoice → Chosen → Option SenderMeta → Option Chosen
unfolding put_rest
cut b c none = none
cut b c (some sm) = some (record {
  out = c.out ++ map (λ e. e.msg) (take b.n_best sm.entries);
  out_by_sender = put_rest b.sender sm (drop b.n_best sm.entries) c.out_by_sender;
})

unfoldable pub after_cut :
    ℕ → (Chosen → Option (List SignedMessage)) → Option Chosen → Option (List SignedMessage)
after_cut lo go none = none
after_cut lo go (some c) = let more = go c in if leb lo (length c.out) then some c.out else more

unfoldable pub after_best :
    ℕ → (Chosen → Option (List SignedMessage)) → Chosen → BestChoice → Option (List SignedMessage)
unfolding after_cut cut find
after_best lo go c b =
    let more = after_cut lo go (cut b c (find b.sender c.out_by_sender)) in
    if b.n_best == 0 then some c.out else more

-- the loop that chooses, with a number of rounds
unfoldable pub choose : Library → ℕ → List ℕ → ℕ → Chosen → Option (List SignedMessage)
unfolding after_best best_of_all
choose lib lo senders zero c = none
choose lib lo senders (suc rounds) c =
    after_best lo (λ c'. choose lib lo senders rounds c') c
      (best_of_all lib lo (length c.out) c.out_by_sender senders no_best)

unfoldable pub is_good : Codec → List SignedMessage → SignedMessage → Bool
unfolding cid
is_good codec out m = any (λ k. cid codec k == cid codec m) out

unfoldable pub remove_unless : Bool → SignedMessage → MessagePool → MessagePool
unfolding remove
remove_unless true m mp = mp
remove_unless false m mp = remove mp m.message.from m.message.nonce

unfoldable pub remove_bad :
    Codec → List SignedMessage → List SignedMessage → MessagePool → MessagePool
unfolding is_good remove_unless
remove_bad codec out [] mp = mp
remove_bad codec out (m ∷ ms) mp =
    remove_bad codec out ms (remove_unless (is_good codec out m) m mp)

-- the messages of the pool, by nonce
unfoldable pub msgs_by_nonce : MessagePool → List SignedMessage
unfolding sort_by pending_all
msgs_by_nonce mp = sort_by nonce_less (pending_all mp mp.pending)

unfoldable pub remove_unchosen :
    Provider → MessagePool → List SignedMessage → Option (List SignedMessage) → Option MessagePool
unfolding remove_bad
remove_unchosen p mp msgs none = none
remove_unchosen p mp msgs (some out) = some (remove_bad p.codec out msgs mp)

-- Each round of the loop chooses a message, so that the low limit bounds them.
unfoldable pub prune_listed :
    Library → Provider → MessagePool → TipSet → List SignedMessage → Option MessagePool
unfolding remove_unchosen choose tally_all ordered_senders
prune_listed lib p mp ts msgs =
    let start : Tally = record { incl_nonces = []; incl_balances = []; out_by_sender = [] } in
    let outs = (tally_all lib p ts msgs start).out_by_sender in
    remove_unchosen p mp msgs (
      choose lib mp.max_tx_pool_size_lo (ordered_senders lib outs) (suc mp.max_tx_pool_size_lo)
        (record { out = []; out_by_sender = outs }))

-- `none` is a panic: without a current tipset its height is read if there are messages
unfoldable pub prune_at :
    Library → Provider → MessagePool → Option TipSet → List SignedMessage → Option MessagePool
unfolding prune_listed
prune_at lib p mp none [] = some mp
prune_at lib p mp none (m ∷ ms) = none
prune_at lib p mp (some ts) msgs = prune_listed lib p mp ts msgs

unfoldable pub prune_messages :
    Library → Provider → MessagePool → Option TipSet → Option MessagePool
unfolding prune_at msgs_by_nonce
prune_messages lib p mp ts = prune_at lib p mp ts (msgs_by_nonce mp)

unfoldable pub prune_excess_messages : Library → Provider → MessagePool → Option MessagePool
unfolding prune_messages
prune_excess_messages lib p mp =
    let pruned = prune_messages lib p mp mp.cur_ts in
    if ltb mp.current_size mp.max_tx_pool_size_hi then some mp else pruned
