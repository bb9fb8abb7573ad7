-- ===== src/Tests/Sync.antt =====
-- A sync manager that has seen one or two peers.
use filecoin.Base.{
  ℕ, ◌+◌, ◌*◌, ◌≡◌, refl, ap, ◌⊎◌, ◌++◌, if◌then◌else◌, List, [], ◌∷◌, true, false, none, some,
  arith, nat_eq,
}
use filecoin.Base.Int.{ℤ, pos, negsuc}
use filecoin.Base.Lists.{All, here, key_eq, list_eq}
use filecoin.Base.Map.{values, find, put, erase}
use filecoin.ChainTypes.BlockHeader.{Hashes}
use filecoin.ChainTypes.TipSet.{TipSet, equals, key, parents, parent_weight}
use filecoin.SyncManager.Bucket.{
  add, related, same_chain_as, related_to_any, Bucket, heaviest_tip_set, pop, pop_related,
}
use filecoin.SyncManager.Bucket.Weight.{Outweighs}
use filecoin.SyncManager.Bucket.Pop.{Popped, pop-Popped}
use filecoin.SyncManager.State.{
  SyncManager, complete, new_sync_manager, select_sync_target, set_peer_head,
}
use filecoin.SyncManager.Schedule.{
  schedule_incoming, schedule_process_result, schedule_work_sent, is_scheduled,
}
use filecoin.SyncManager.Tracking.{has, waiting}
use filecoin.SyncManager.Tracking.Incoming.{Arrives, schedule_incoming_tracks}
use filecoin.SyncManager.Tracking.Result.{
  Ended, Dropped, schedule_process_result_tracks, schedule_process_result_drops,
  schedule_work_sent_tracks,
}
use filecoin.SyncManager.Select.{select_sync_target_max}
use filecoin.SyncManager.Run.{peer_head, start, run_never_panics}
use filecoin.Tests.{hashes, tip_set}

abbrev parent : TipSet
parent = tip_set 1 0 10 1

abbrev child : TipSet
child = tip_set 2 1 20 2

-- another chain
abbrev fork : TipSet
fork = tip_set 3 9 30 2

abbrev chain : Bucket
chain = record { tips = parent ∷ child ∷ []; count = 2 }

abbrev other : Bucket
other = record { tips = fork ∷ []; count = 1 }

abbrev idle : SyncManager
idle = record {
  peer_heads = [];
  bootstrap_state = complete;
  bsp_thresh = 1;
  incoming_tip_sets = [];
  sync_targets = [];
  active_syncs = [];
  sync_queue = [];
  active_sync_tips = [];
  next_sync_target = none;
  worker_chan = false;
}

-- a target is on offer and another bucket waits
abbrev busy : SyncManager
busy = record idle { sync_queue = other ∷ []; next_sync_target = some chain; worker_chan = true }

-- a sync of `parent` runs, with `child` waiting for it
abbrev syncing : SyncManager
syncing = record idle {
  active_syncs = ((1 ∷ []), parent) ∷ [];
  active_sync_tips = record { tips = child ∷ []; count = 1 } ∷ other ∷ [];
}

heaviest_chain : heaviest_tip_set chain ≡ some child
unfolding heaviest_tip_set parent_weight
heaviest_chain = refl

heaviest_fork : heaviest_tip_set other ≡ some fork
unfolding heaviest_tip_set
heaviest_fork = refl

pop-Popped_example :
    (x : Bucket) × (rest : List Bucket) × (pop (chain ∷ other ∷ []) ≡ some (x, rest))
    × Popped (chain ∷ other ∷ []) x rest
pop-Popped_example =
    pop-Popped chain (other ∷ []) ((child, heaviest_chain), ((fork, heaviest_fork), tt))

abbrev queued : SyncManager
queued = record busy { next_sync_target = some (record { tips = parent ∷ child ∷ []; count = 3 }) }

arrives : schedule_incoming hashes busy child ≡ some queued
unfolding schedule_incoming equals key parents related_to_any same_chain_as related add
arrives = refl

schedule_incoming_tracks_example :
    Arrives hashes busy queued child
    × ((waiting hashes busy fork ≡ false) ⊎ (waiting hashes queued fork ≡ true))
    × (queued.active_syncs ≡ busy.active_syncs)
schedule_incoming_tracks_example = schedule_incoming_tracks hashes busy queued child fork arrives

abbrev synced : SyncManager
synced = record idle {
  active_sync_tips = other ∷ [];
  next_sync_target = some (record { tips = child ∷ []; count = 1 });
  worker_chan = true;
}

abbrev failed : SyncManager
failed = record idle { active_sync_tips = other ∷ [] }

succeeds : schedule_process_result hashes syncing parent true ≡ some synced
unfolding schedule_process_result equals key parents erase pop_related same_chain_as related
succeeds = refl

fails : schedule_process_result hashes syncing parent false ≡ some failed
unfolding schedule_process_result equals key parents erase pop_related same_chain_as related
fails = refl

schedule_process_result_tracks_example :
    ((waiting hashes syncing child ≡ false) ⊎ (waiting hashes synced child ≡ true))
    × Ended syncing synced parent
schedule_process_result_tracks_example =
    schedule_process_result_tracks hashes syncing synced parent child succeeds

schedule_process_result_drops_example :
    ((waiting hashes syncing child ≡ false)
      ⊎ (waiting hashes failed child ≡ true)
      ⊎ Dropped hashes syncing failed parent child)
    × Ended syncing failed parent
schedule_process_result_drops_example =
    schedule_process_result_drops hashes syncing failed parent child fails

abbrev handed : SyncManager
handed = record idle {
  next_sync_target = some other;
  worker_chan = true;
  sync_targets = child ∷ [];
  active_syncs = ((2 ∷ []), child) ∷ [];
}

hands_out : schedule_work_sent busy ≡ some handed
unfolding schedule_work_sent key parent_weight put erase heaviest_tip_set pop
hands_out = refl

schedule_work_sent_tracks_example :
    (handed.sync_targets ≡ [] ++ child ∷ [])
    × (find (2 ∷ []) handed.active_syncs
        ≡ (if list_eq (key child) (2 ∷ []) then some child else find (2 ∷ []) busy.active_syncs))
    × ((waiting hashes busy fork ≡ false)
        ⊎ (waiting hashes handed fork ≡ true)
        ⊎ (has hashes chain fork ≡ true))
schedule_work_sent_tracks_example =
    schedule_work_sent_tracks hashes busy handed chain child fork (2 ∷ []) refl heaviest_chain
      hands_out

-- The CID of a block is a number for its parents' weight.
abbrev weight_code : ℤ → ℕ
weight_code (pos n) = 2 * n
weight_code (negsuc n) = 2 * n + 1

abbrev by_weight : Hashes
by_weight = record {
  cid_of = λ b. weight_code b.parent_weight;
  cid_bytes = λ c. c ∷ [];
  digest = λ bytes. bytes;
}

weight_code-injective : (a b : ℤ) → weight_code a ≡ weight_code b → a ≡ b
weight_code-injective (pos m) (pos n) e = ap pos (omega arith)
weight_code-injective (pos m) (negsuc n) e = absurd (omega arith)
weight_code-injective (negsuc m) (pos n) e = absurd (omega arith)
weight_code-injective (negsuc m) (negsuc n) e = ap negsuc (omega arith)

weighs : (a b : TipSet) → equals by_weight a b ≡ true → parent_weight a ≡ parent_weight b
unfolding equals parent_weight
weighs a b e = weight_code-injective a.blk0.parent_weight b.blk0.parent_weight (ground arith)

abbrev two_peers : SyncManager
two_peers = record idle { peer_heads = (7, child) ∷ (8, fork) ∷ [] }

select_sync_target_max_example :
    (target : TipSet) × (select_sync_target by_weight two_peers ≡ some (some target))
    × All (Outweighs target) (values two_peers.peer_heads)
select_sync_target_max_example = select_sync_target_max by_weight weighs two_peers child here

run_never_panics_example :
    ((sm' : SyncManager) × (set_peer_head by_weight new_sync_manager 7 child ≡ some sm'))
    × ((is_scheduled new_sync_manager.bootstrap_state ≡ true)
        ⊎ (new_sync_manager.worker_chan ≡ true)
        ⊎ (new_sync_manager.sync_queue ≡ []))
run_never_panics_example =
    run_never_panics by_weight weighs new_sync_manager
      (set_peer_head by_weight new_sync_manager 7 child) start (peer_head 7 child)
