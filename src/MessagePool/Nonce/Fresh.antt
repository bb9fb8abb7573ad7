-- ===== src/MessagePool/Nonce/Fresh.antt =====
-- The nonce that getNonceLocked gives a sender is new.
use filecoin.Base.{ℕ, ◌≤◌, ◌<◌, ◌≡◌, refl, Option, none, some, nat_eq, arith, [], subst}
use filecoin.Base.Map.{Map, find, AllEntries, AllEntries-mono, find-AllEntries}
use filecoin.ChainTypes.Message.{SignedMessage}
use filecoin.MessagePool.MsgSet.{MsgSet}
use filecoin.MessagePool.MsgSet.Invariant.{Under}
use filecoin.MessagePool.State.{Provider, MessagePool, Result, ok, err, ◌>>=◌}
use filecoin.MessagePool.Nonce.{get_state_nonce, get_nonce_locked, nonce_over}
use filecoin.MessagePool.Invariant.{IsSenderSet, IsPool}

abbrev pub msgs_of : Option MsgSet → Map ℕ SignedMessage
msgs_of none = []
msgs_of (some ms) = ms.msgs

-- Above the chain's nonce and every pending nonce.
pub record IsFresh (state : Result ℕ) (msgs : Map ℕ SignedMessage) (n : ℕ) : Type 0 where
  pub state_nonce : ℕ
  pub nonce_known : state ≡ ok state_nonce
  pub unused : state_nonce ≤ n
  pub above : AllEntries (λ k m. k < n) msgs

over-IsFresh :
    (from s : ℕ) (pending : Map ℕ MsgSet) (o : Option MsgSet)
    → find from pending ≡ o
    → AllEntries IsSenderSet pending
    → IsFresh (ok s) (msgs_of o) (nonce_over s o)
unfolding nonce_over
over-IsFresh from s pending none f h = record {
  state_nonce = s;
  nonce_known = refl;
  unused = omega arith;
  above = tt;
}
over-IsFresh from s pending (some ms) f h =
    let i = find-AllEntries IsSenderSet from pending ms h f in
    record {
      state_nonce = s;
      nonce_known = refl;
      unused = ground arith;
      above =
          AllEntries-mono (Under ms.next_nonce) _ ms.msgs (λ k m u. ground (arith, u.1))
            i.formed.under;
    }

-- The nonce that getNonceLocked gives a sender is at least the chain's and above those of all its
-- pending messages, so that a message with it replaces none. The pool is well formed.
pub get_nonce_locked-IsFresh :
    (p : Provider) (mp : MessagePool) (addr n : ℕ)
    → IsPool mp
    → get_nonce_locked p mp addr ≡ ok n
    → IsFresh (get_state_nonce p addr mp.cur_ts) (msgs_of (find addr mp.pending)) n
unfolding get_nonce_locked
get_nonce_locked-IsFresh p mp addr n s h = by_state (get_state_nonce p addr mp.cur_ts) h
  where
    by_state :
        (r : Result ℕ)
        → (r >>= (λ k. ok (nonce_over k (find addr mp.pending)))) ≡ ok n
        → IsFresh r (msgs_of (find addr mp.pending)) n
    by_state (err e) h = absurd (cc)
    by_state (ok k) h =
        subst (IsFresh (ok k) (msgs_of (find addr mp.pending))) (cc)
          (over-IsFresh addr k mp.pending (find addr mp.pending) refl s.sets)
