-- ===== src/SyncManager/Invariant/Sent.antt =====
-- scheduleWorkSent keeps the scheduler's invariant and does not panic.
use filecoin.Base.{
  ◌≡◌, refl, subst, ap, List, [], ◌∷◌, true, false, Option, none, some, nat_eq, arith, ◌>>=◌,
}
use filecoin.Base.Lists.{All}
use filecoin.SyncManager.Bucket.{Bucket, heaviest_tip_set}
use filecoin.SyncManager.Bucket.Weight.{HasTip}
use filecoin.SyncManager.Bucket.Pop.{pop-Popped}
use filecoin.SyncManager.State.{SyncManager}
use filecoin.SyncManager.Schedule.{after_sent, sent, schedule_work_sent}
use filecoin.SyncManager.Invariant.{Inv, Safe, is_some}

after_sent-Safe :
    (sm : SyncManager) (q : List Bucket)
    → sm.sync_queue ≡ q
    → All HasTip sm.sync_queue
    → All HasTip sm.active_sync_tips
    → sm.worker_chan ≡ true
    → Safe (after_sent sm q)
unfolding after_sent
after_sent-Safe sm [] e q a w = (
  record sm { next_sync_target = none; worker_chan = false },
  refl,
  record {
    queue_tips = q;
    active_tips = a;
    next_tip = λ c i. absurd (cc);
    wired = refl;
    awake = λ i j. e;
  },
)
after_sent-Safe sm (b ∷ bs) e q a w =
    let (x, rest, g, popped) = pop-Popped b bs (subst (All HasTip) e q) in
    (
      record sm { next_sync_target = some x; sync_queue = rest },
      rw g,
      record {
        queue_tips = popped.rest_tips;
        active_tips = a;
        next_tip = λ c i. subst HasTip (ground arith) (popped.tip, popped.tip_of);
        wired = w;
        awake = λ i. absurd (cc);
      },
    )

hand_out-Safe :
    (sm : SyncManager) (o : Option Bucket)
    → Inv sm
    → sm.next_sync_target ≡ o
    → sm.worker_chan ≡ true
    → Safe (do target ← o; hts ← heaviest_tip_set target; after_sent (sent sm hts) sm.sync_queue)
unfolding sent
hand_out-Safe sm none v e w = absurd (cc (v.wired, ap is_some e))
hand_out-Safe sm (some b) v e w =
    let (t, f) = v.next_tip b e in
    rw f (after_sent-Safe (sent sm t) sm.sync_queue refl v.queue_tips v.active_tips w)

-- Where a target is on offer, handing it out does not panic, and keeps the invariant.
pub schedule_work_sent-Safe :
    (sm : SyncManager) → Inv sm → sm.worker_chan ≡ true → Safe (schedule_work_sent sm)
unfolding schedule_work_sent
schedule_work_sent-Safe sm v w = hand_out-Safe sm sm.next_sync_target v refl w
