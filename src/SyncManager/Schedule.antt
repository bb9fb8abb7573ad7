-- ===== src/SyncManager/Schedule.antt =====
-- scheduleIncoming, scheduleProcessResult and scheduleWorkSent of chain/sync_manager.go.
use filecoin.Base.{
  List, [], ◌∷◌, ◌++◌, Bool, true, false, if◌then◌else◌, ◌||◌, Option, none, some, ◌>>=◌,
}
use filecoin.Base.Lists.{list_eq, key_eq}
use filecoin.Base.Map.{Map, put, erase}
use filecoin.ChainTypes.BlockHeader.{Hashes}
use filecoin.ChainTypes.TipSet.{TipSet, Key, equals, key, parents}
use filecoin.SyncManager.Bucket.{
  Bucket, same_chain_as, add, heaviest_tip_set, related_to_any, insert, pop, pop_related,
}
use filecoin.SyncManager.State.{SyncManager, BsState, selected, scheduled, complete}

abbrev pub is_scheduled : BsState → Bool
is_scheduled scheduled = true
is_scheduled _ = false

abbrev pub is_selected : BsState → Bool
is_selected selected = true
is_selected _ = false

-- the loop over activeSyncs, left by `break` at a tipset that equals `ts`
unfoldable pub related_to_active : Hashes → TipSet → Map Key TipSet → Bool → Bool
related_to_active h ts [] r = r
related_to_active h ts ((k, acts) ∷ m) r =
    let rest = related_to_active h ts m (r || list_eq (parents ts) (key acts)) in
    if equals h ts acts then r else rest

-- sm.nextSyncTarget = sm.syncQueue.Pop(); sm.workerChan = sm.syncTargets, for the queue given
unfoldable pub pop_next : SyncManager → List Bucket → Option SyncManager
pop_next sm queue = do
  popped ← pop queue
  some (record sm { next_sync_target = some popped.0; sync_queue = popped.1; worker_chan = true })

-- the end of scheduleIncoming, by sm.nextSyncTarget
unfoldable pub add_or_queue : Hashes → SyncManager → Option Bucket → TipSet → Option SyncManager
unfolding pop_next
add_or_queue h sm none ts = pop_next sm (insert h sm.sync_queue ts)
add_or_queue h sm (some b) ts =
    if same_chain_as h b ts
    then some (record sm { next_sync_target = some (add h b ts) })
    else some (record sm { sync_queue = insert h sm.sync_queue ts })

unfoldable pub schedule_incoming : Hashes → SyncManager → TipSet → Option SyncManager
unfolding add_or_queue related_to_active
schedule_incoming h sm ts =
    if is_selected sm.bootstrap_state
    then some (record sm { bootstrap_state = scheduled; sync_targets = sm.sync_targets ++ ts ∷ [] })
    else if related_to_active h ts sm.active_syncs false || related_to_any h sm.active_sync_tips ts
    then some (record sm { active_sync_tips = insert h sm.active_sync_tips ts })
    else if is_scheduled sm.bootstrap_state
    then some (record sm { sync_queue = insert h sm.sync_queue ts })
    else add_or_queue h sm sm.next_sync_target ts

-- the end of scheduleProcessResult, by sm.nextSyncTarget and sm.syncQueue
unfoldable pub wake_next : SyncManager → Option Bucket → List Bucket → Option SyncManager
unfolding pop_next
wake_next sm (some n) queue = some sm
wake_next sm none [] = some sm
wake_next sm none (b ∷ bs) = pop_next sm (b ∷ bs)

-- a result for which a bucket of related tipsets waits, by sm.nextSyncTarget
unfoldable pub take_related : SyncManager → Option Bucket → Bucket → SyncManager
take_related sm none b = record sm { next_sync_target = some b; worker_chan = true }
take_related sm (some n) b = record sm { sync_queue = sm.sync_queue ++ b ∷ [] }

-- on failure the related bucket is dropped
unfoldable pub with_related : SyncManager → Option Bucket → Bool → Option SyncManager
unfolding wake_next take_related
with_related sm (some b) true = some (take_related sm sm.next_sync_target b)
with_related sm _ success = wake_next sm sm.next_sync_target sm.sync_queue

unfoldable pub schedule_process_result : Hashes → SyncManager → TipSet → Bool → Option SyncManager
unfolding with_related
schedule_process_result h sm ts success =
    let (related, rest) = pop_related h sm.active_sync_tips ts in
    with_related
      (record sm {
        bootstrap_state = if success then complete else sm.bootstrap_state;
        active_syncs = erase (key ts) sm.active_syncs;
        active_sync_tips = rest;
      })
      related success

-- the end of scheduleWorkSent, by sm.syncQueue
unfoldable pub after_sent : SyncManager → List Bucket → Option SyncManager
after_sent sm [] = some (record sm { next_sync_target = none; worker_chan = false })
after_sent sm (b ∷ bs) = do
  popped ← pop (b ∷ bs)
  some (record sm { next_sync_target = some popped.0; sync_queue = popped.1 })

-- nextSyncTarget.heaviestTipSet() has been sent on workerChan
unfoldable pub sent : SyncManager → TipSet → SyncManager
sent sm hts = record sm {
  active_syncs = put (key hts) hts sm.active_syncs;
  sync_targets = sm.sync_targets ++ hts ∷ [];
}

-- The round in which the scheduler hands out its target. A nil target, or one with no tip, would
-- hand out a nil tipset: `none` stands for that too.
unfoldable pub schedule_work_sent : SyncManager → Option SyncManager
unfolding after_sent sent
schedule_work_sent sm = do
  target ← sm.next_sync_target
  hts ← heaviest_tip_set target
  after_sent (sent sm hts) sm.sync_queue
