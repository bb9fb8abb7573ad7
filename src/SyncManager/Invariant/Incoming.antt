-- ===== src/SyncManager/Invariant/Incoming.antt =====
-- scheduleIncoming keeps the scheduler's invariant and does not panic.
use filecoin.Base.{
  ◌≡◌, refl, subst, List, [], ◌∷◌, ◌++◌, false, ◌||◌, Option, none, some, nat_eq, arith, Bool-cases,
  inl, inr,
}
use filecoin.Base.Lists.{All}
use filecoin.ChainTypes.BlockHeader.{Hashes}
use filecoin.ChainTypes.TipSet.{TipSet}
use filecoin.SyncManager.Bucket.{Bucket, same_chain_as, add, new_bucket, insert, related_to_any}
use filecoin.SyncManager.Bucket.Weight.{HasTip}
use filecoin.SyncManager.Bucket.Tips.{add-HasTip, insert-HasTip}
use filecoin.SyncManager.State.{SyncManager, scheduled}
use filecoin.SyncManager.Schedule.{
  is_scheduled, is_selected, related_to_active, add_or_queue, schedule_incoming,
}
use filecoin.SyncManager.Invariant.{Inv, Safe, pop_next-Safe}

insert-cons :
    (h : Hashes) (bs : List Bucket) (ts : TipSet)
    → (c : Bucket) × (cs : List Bucket) × (insert h bs ts ≡ c ∷ cs)
unfolding insert
insert-cons h [] ts = (new_bucket h ts, [], refl)
insert-cons h (b ∷ bs) ts = elim (Bool-cases (same_chain_as h b ts)) [
  | inl e ↦ (add h b ts, bs, rw e)
  | inr e ↦ (b, insert h bs ts, rw e)
]

add_or_queue-Safe :
    (h : Hashes) (sm : SyncManager) (o : Option Bucket) (ts : TipSet)
    → Inv sm
    → sm.next_sync_target ≡ o
    → Safe (add_or_queue h sm o ts)
unfolding add_or_queue
add_or_queue-Safe h sm none ts v e =
    let (c, cs, f) = insert-cons h sm.sync_queue ts in
    let tips = insert-HasTip h sm.sync_queue ts v.queue_tips in
    rw f (pop_next-Safe sm c cs (subst (All HasTip) f tips) v.active_tips)
add_or_queue-Safe h sm (some b) ts v e = elim (Bool-cases (same_chain_as h b ts)) [
  | inl f ↦ (
    record sm { next_sync_target = some (add h b ts) },
    rw f,
    record {
      queue_tips = v.queue_tips;
      active_tips = v.active_tips;
      next_tip = λ c i. subst HasTip (ground arith) (add-HasTip h b ts);
      wired = ground arith;
      awake = λ i. absurd (cc);
    },
  )
  | inr f ↦ (
    record sm { sync_queue = insert h sm.sync_queue ts },
    rw f,
    record {
      queue_tips = insert-HasTip h sm.sync_queue ts v.queue_tips;
      active_tips = v.active_tips;
      next_tip = v.next_tip;
      wired = v.wired;
      awake = λ i. absurd (cc);
    },
  )
]

-- A tipset that arrives is always scheduled: the step does not panic, and keeps the invariant.
pub schedule_incoming-Safe :
    (h : Hashes) (sm : SyncManager) (ts : TipSet) → Inv sm → Safe (schedule_incoming h sm ts)
unfolding schedule_incoming
schedule_incoming-Safe h sm ts v = elim (Bool-cases (is_selected sm.bootstrap_state)) [
  | inl e ↦ (
    record sm { bootstrap_state = scheduled; sync_targets = sm.sync_targets ++ ts ∷ [] },
    rw e,
    record {
      queue_tips = v.queue_tips;
      active_tips = v.active_tips;
      next_tip = v.next_tip;
      wired = v.wired;
      awake = λ i j. absurd (cc);
    },
  )
  | inr e ↦
      rw e
        (elim (Bool-cases (
          related_to_active h ts sm.active_syncs false
          || related_to_any h sm.active_sync_tips ts)) [
            | inl f ↦ (
              record sm { active_sync_tips = insert h sm.active_sync_tips ts },
              rw f,
              record {
                queue_tips = v.queue_tips;
                active_tips = insert-HasTip h sm.active_sync_tips ts v.active_tips;
                next_tip = v.next_tip;
                wired = v.wired;
                awake = v.awake;
              },
            )
            | inr f ↦ rw f (elim (Bool-cases (is_scheduled sm.bootstrap_state)) [
              | inl g ↦ (
                record sm { sync_queue = insert h sm.sync_queue ts },
                rw g,
                record {
                  queue_tips = insert-HasTip h sm.sync_queue ts v.queue_tips;
                  active_tips = v.active_tips;
                  next_tip = v.next_tip;
                  wired = v.wired;
                  awake = λ i j. absurd (cc);
                },
              )
              | inr g ↦ rw g (add_or_queue-Safe h sm sm.next_sync_target ts v refl)
            ])
          ])
]
