-- ===== src/SyncManager/Invariant.antt =====
-- What holds of the scheduler between two rounds of its loop, and that no round panics.
pub mod Incoming
pub mod Result
pub mod Sent
use filecoin.Base.{
  ℕ, ◌≡◌, refl, subst, ap, List, [], ◌∷◌, ◌++◌, Bool, true, false, if◌then◌else◌, ◌||◌, Option,
  none, some, nat_eq, arith, Bool-cases, Option-cases, inl, inr, ◌>>=◌,
}
use filecoin.Base.Lists.{All, All-append}
use filecoin.ChainTypes.BlockHeader.{Hashes}
use filecoin.ChainTypes.TipSet.{TipSet}
use filecoin.SyncManager.Bucket.{
  Bucket, same_chain_as, add, new_bucket, insert, pop, pop_related, heaviest_tip_set,
  related_to_any,
}
use filecoin.SyncManager.Bucket.Weight.{HasTip}
use filecoin.SyncManager.Bucket.Pop.{Popped, pop-Popped}
use filecoin.SyncManager.Bucket.Tips.{add-HasTip, insert-HasTip, pop_related-HasTip}
use filecoin.SyncManager.State.{SyncManager, BsState, scheduled, new_sync_manager}
use filecoin.SyncManager.Schedule.{
  is_scheduled, is_selected, related_to_active, pop_next, add_or_queue, schedule_incoming,
  wake_next, take_related, with_related, schedule_process_result, after_sent, sent,
  schedule_work_sent,
}

abbrev pub is_some : Option Bucket → Bool
is_some none = false
is_some (some b) = true

pub record Inv (sm : SyncManager) : Type 0 where
  pub queue_tips : All HasTip sm.sync_queue
  pub active_tips : All HasTip sm.active_sync_tips
  pub next_tip : (b : Bucket) → sm.next_sync_target ≡ some b → HasTip b
  -- workers are offered a target exactly if there is one
  pub wired : sm.worker_chan ≡ is_some sm.next_sync_target
  -- no work waits without a target on offer, but for that which waits for the bootstrap sync
  pub awake :
      sm.next_sync_target ≡ none → is_scheduled sm.bootstrap_state ≡ false → sm.sync_queue ≡ []

-- A step that does not panic and keeps the invariant.
abbrev pub Safe : Option SyncManager → Type 0
Safe r = (sm : SyncManager) × (r ≡ some sm) × Inv sm

pub new_sync_manager-Inv : Inv new_sync_manager
unfolding new_sync_manager
new_sync_manager-Inv = record {
  queue_tips = tt;
  active_tips = tt;
  next_tip = λ b e. absurd (cc);
  wired = refl;
  awake = λ e f. refl;
}

pub pop_next-Safe :
    (sm : SyncManager) (b : Bucket) (bs : List Bucket)
    → All HasTip (b ∷ bs)
    → All HasTip sm.active_sync_tips
    → Safe (pop_next sm (b ∷ bs))
unfolding pop_next
pop_next-Safe sm b bs q a =
    let (x, rest, g, popped) = pop-Popped b bs q in
    (
      record sm { next_sync_target = some x; sync_queue = rest; worker_chan = true },
      rw g,
      record {
        queue_tips = popped.rest_tips;
        active_tips = a;
        next_tip = λ c i. subst HasTip (ground arith) (popped.tip, popped.tip_of);
        wired = refl;
        awake = λ i. absurd (cc);
      },
    )
