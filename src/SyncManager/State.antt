-- ===== src/SyncManager/State.antt =====
-- The fields of SyncManager and the calls of its peers, chain/sync_manager.go. A channel to which
-- the manager sends is the list of what it has sent; workerChan is nil or syncTargets.
use filecoin.Base.{
  ℕ, suc, List, [], ◌∷◌, ◌++◌, Bool, true, false, ltb, leb, if◌then◌else◌, Option, none, some,
  nat_eq, ◌>>=◌,
}
use filecoin.Base.Map.{Map, put, values}
use filecoin.Base.Sort.{sort_by}
use filecoin.ChainTypes.BlockHeader.{Hashes}
use filecoin.ChainTypes.TipSet.{TipSet, Key}
use filecoin.SyncManager.Bucket.{Bucket, insert, heaviest}

pub data BsState : Type 0 where
  init selected scheduled complete : BsState

pub record SyncManager : Type 0 where
  pub peer_heads : Map ℕ TipSet
  pub bootstrap_state : BsState
  pub bsp_thresh : ℕ
  pub incoming_tip_sets : List TipSet
  pub sync_targets : List TipSet
  pub active_syncs : Map Key TipSet
  pub sync_queue : List Bucket
  pub active_sync_tips : List Bucket
  pub next_sync_target : Option Bucket
  pub worker_chan : Bool

unfoldable pub new_sync_manager : SyncManager
new_sync_manager = record {
  peer_heads = [];
  bootstrap_state = init;
  bsp_thresh = 1;
  incoming_tip_sets = [];
  sync_targets = [];
  active_syncs = [];
  sync_queue = [];
  active_sync_tips = [];
  next_sync_target = none;
  worker_chan = false;
}

unfoldable pub synced_peer_count : List TipSet → ℕ
synced_peer_count [] = 0
synced_peer_count (ts ∷ rest) =
    let n = synced_peer_count rest in if ltb 0 ts.height then suc n else n

unfoldable pub insert_all : Hashes → List Bucket → List TipSet → List Bucket
insert_all h bs [] = bs
insert_all h bs (ts ∷ rest) = insert_all h (insert h bs ts) rest

unfoldable pub select_sync_target : Hashes → SyncManager → Option (Option TipSet)
unfolding insert_all
select_sync_target h sm =
    heaviest (insert_all h [] (sort_by (λ a b. ltb a.height b.height) (values sm.peer_heads)))

unfoldable pub send_incoming : SyncManager → TipSet → SyncManager
send_incoming sm ts = record sm { incoming_tip_sets = sm.incoming_tip_sets ++ ts ∷ [] }

-- a nil target makes the scheduler panic when it logs ts.Cids()
unfoldable pub start_bootstrap : SyncManager → Option TipSet → Option SyncManager
unfolding send_incoming
start_bootstrap sm none = none
start_bootstrap sm (some target) =
    some (send_incoming (record sm { bootstrap_state = selected }) target)

-- the branch of SetPeerHead in the state BSStateInit, after the head is stored
unfoldable pub peer_head_init : Hashes → SyncManager → Option SyncManager
unfolding select_sync_target start_bootstrap send_incoming synced_peer_count
peer_head_init h sm =
    if leb sm.bsp_thresh (synced_peer_count (values sm.peer_heads))
    then select_sync_target h sm >>= start_bootstrap sm
    else some sm

-- the rest of SetPeerHead, by the bootstrap state
unfoldable pub deliver : Hashes → SyncManager → BsState → TipSet → Option SyncManager
unfolding peer_head_init
deliver h sm init ts = peer_head_init h sm
deliver h sm _ ts = some (send_incoming sm ts)

unfoldable pub set_peer_head : Hashes → SyncManager → ℕ → TipSet → Option SyncManager
unfolding deliver
set_peer_head h sm p ts =
    deliver h (record sm { peer_heads = put p ts sm.peer_heads }) sm.bootstrap_state ts

unfoldable pub is_bootstrapped : SyncManager → Bool
is_bootstrapped sm = elim sm.bootstrap_state [ complete ↦ true | _ ↦ false ]
