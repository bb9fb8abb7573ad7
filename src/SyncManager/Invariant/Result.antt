-- ===== src/SyncManager/Invariant/Result.antt =====
-- scheduleProcessResult keeps the scheduler's invariant and does not panic.
use filecoin.Base.{
  ◌≡◌, refl, subst, List, [], ◌∷◌, Bool, true, false, Option, none, some, nat_eq, arith,
}
use filecoin.Base.Lists.{All, All-append}
use filecoin.ChainTypes.BlockHeader.{Hashes}
use filecoin.ChainTypes.TipSet.{TipSet}
use filecoin.SyncManager.Bucket.{Bucket, pop_related}
use filecoin.SyncManager.Bucket.Weight.{HasTip}
use filecoin.SyncManager.Bucket.Tips.{pop_related-HasTip}
use filecoin.SyncManager.State.{SyncManager}
use filecoin.SyncManager.Schedule.{
  is_scheduled, wake_next, take_related, with_related, schedule_process_result,
}
use filecoin.SyncManager.Invariant.{Inv, Safe, is_some, pop_next-Safe}

-- The manager once a result has been taken off the active syncs; all but the last field of the
-- invariant stands.
record Removed (sm : SyncManager) : Type 0 where
  queue_tips : All HasTip sm.sync_queue
  active_tips : All HasTip sm.active_sync_tips
  next_tip : (b : Bucket) → sm.next_sync_target ≡ some b → HasTip b
  wired : sm.worker_chan ≡ is_some sm.next_sync_target

wake_next-Safe :
    (sm : SyncManager) (o : Option Bucket) (q : List Bucket)
    → Removed sm
    → sm.next_sync_target ≡ o
    → sm.sync_queue ≡ q
    → Safe (wake_next sm o q)
unfolding wake_next
wake_next-Safe sm (some n) q v e f = (
  sm,
  refl,
  record {
    queue_tips = v.queue_tips;
    active_tips = v.active_tips;
    next_tip = v.next_tip;
    wired = v.wired;
    awake = λ i. absurd (cc);
  },
)
wake_next-Safe sm none [] v e f = (
  sm,
  refl,
  record {
    queue_tips = v.queue_tips;
    active_tips = v.active_tips;
    next_tip = v.next_tip;
    wired = v.wired;
    awake = λ i j. f;
  },
)
wake_next-Safe sm none (b ∷ bs) v e f =
    pop_next-Safe sm b bs (subst (All HasTip) f v.queue_tips) v.active_tips

take_related-Inv :
    (sm : SyncManager) (o : Option Bucket) (b : Bucket)
    → Removed sm
    → sm.next_sync_target ≡ o
    → HasTip b
    → is_scheduled sm.bootstrap_state ≡ false
    → Inv (take_related sm o b)
unfolding take_related
take_related-Inv sm none b v e t g = record {
  queue_tips = v.queue_tips;
  active_tips = v.active_tips;
  next_tip = λ c i. subst HasTip (ground arith) t;
  wired = refl;
  awake = λ i. absurd (cc);
}
take_related-Inv sm (some n) b v e t g = record {
  queue_tips = All-append HasTip sm.sync_queue (b ∷ []) v.queue_tips (t, tt);
  active_tips = v.active_tips;
  next_tip = v.next_tip;
  wired = v.wired;
  awake = λ i. absurd (cc);
}

with_related-Safe :
    (sm : SyncManager) (o : Option Bucket) (success : Bool)
    → Removed sm
    → ((b : Bucket) → o ≡ some b → HasTip b)
    → (success ≡ true → is_scheduled sm.bootstrap_state ≡ false)
    → Safe (with_related sm o success)
unfolding with_related
with_related-Safe sm (some b) true v t s = (
  take_related sm sm.next_sync_target b,
  refl,
  take_related-Inv sm sm.next_sync_target b v refl (t b refl) (s refl),
)
with_related-Safe sm (some b) false v t s =
    wake_next-Safe sm sm.next_sync_target sm.sync_queue v refl refl
with_related-Safe sm none _ v t s = wake_next-Safe sm sm.next_sync_target sm.sync_queue v refl refl

-- A sync's result, good or bad, is always processed: the step does not panic, and keeps the
-- invariant.
pub schedule_process_result-Safe :
    (h : Hashes) (sm : SyncManager) (ts : TipSet) (success : Bool)
    → Inv sm
    → Safe (schedule_process_result h sm ts success)
unfolding schedule_process_result
schedule_process_result-Safe h sm ts success v =
    let related = pop_related-HasTip h sm.active_sync_tips ts v.active_tips in
    with_related-Safe _ (pop_related h sm.active_sync_tips ts).0 success
      (record {
        queue_tips = v.queue_tips;
        active_tips = related.1;
        next_tip = v.next_tip;
        wired = v.wired;
      })
      related.0 (λ e. rw e refl)
