-- ===== src/Vm/Machine.antt =====
-- What the virtual machine of chain/vm takes from libraries: addresses, the builtin actors and the
-- state of the init actor. chain/state/statetree.go looks addresses up in that state: LookupID,
-- RegisterNewAddress, and GetActor, SetActor and DeleteActor on addresses that are no IDs.
pub mod Lookups
use filecoin.Base.{ℕ, List, Bool, true, false, Option, none, some, if◌then◌else◌, ◌==◌, nat_eq}
use filecoin.ChainTypes.Actor.{Actor}
use filecoin.ChainTypes.Message.{Message, undef}
use filecoin.StateTree.{StateTree, Found, actor, not_found, get_actor, set_actor, delete_actor}
use filecoin.Vm.Gas.{PricelistV0, Numbers}

pub data Protocol : Type 0 where
  id secp256k1 actor_protocol bls other_protocol : Protocol

-- `no_address` is init_.ErrAddressNotFound, `failed` any other error.
pub data Lookup : Type 0 where
  resolved : ℕ → Lookup
  no_address failed : Lookup

-- go-address and specs-actors. `resolve_in` and `map_to_new_id` read and extend the address map
-- of the init actor with the given head, `empty_object` is the head of an actor without state,
-- `account_address` reads the address in the state of an account actor by its head, and
-- `new_actor_address` is the address made of an origin, its nonce and a count, if the origin can be
-- written.
pub record Machine : Type 0 where
  pub protocol : ℕ → Protocol
  pub resolve_in : ℕ → ℕ → Lookup
  pub map_to_new_id : ℕ → ℕ → Option (ℕ × ℕ)
  pub init_address : ℕ
  pub system_address : ℕ
  pub reward_address : ℕ
  pub burnt_funds_address : ℕ
  pub account_code : ℕ
  pub empty_object : ℕ
  pub is_builtin : ℕ → Bool
  pub is_singleton : ℕ → Bool
  pub constructor_method : ℕ
  pub account_params : ℕ → List ℕ
  pub account_address : ℕ → Option ℕ
  pub new_actor_address : ℕ → ℕ → ℕ → Option ℕ
  pub numbers : Numbers
  pub prices : PricelistV0

abbrev pub is_id : Protocol → Bool
is_id id = true
is_id _ = false

abbrev pub known_id : Lookup → Option ℕ
known_id (resolved a) = some a
known_id _ = none

-- GetActor on an address: an actor, none at the ID, or what the lookup of the address says.
pub data FoundAt : Type 0 where
  found : Actor → FoundAt
  no_actor unknown lookup_failed : FoundAt

abbrev pub found_at : Found × StateTree → FoundAt × StateTree
found_at (actor act, st) = (found act, st)
found_at (not_found, st) = (no_actor, st)

module _ (m : Machine) where
  unfoldable pub resolve_by : ℕ → Found → Lookup
  resolve_by addr not_found = failed
  resolve_by addr (actor act) = m.resolve_in act.head addr

  -- LookupID. The resolution that the source keeps with the layer says the same; the copy of the
  -- init actor that it leaves in the top layer shows nothing new and is left out.
  unfoldable pub lookup_id : StateTree → ℕ → Lookup
  unfolding resolve_by get_actor
  lookup_id st addr =
      if is_id (m.protocol addr)
      then resolved addr
      else resolve_by addr (get_actor m.init_address st).0

  -- LookupID where its kind of error makes no difference
  unfoldable pub id_of : StateTree → ℕ → Option ℕ
  unfolding lookup_id
  id_of st addr = known_id (lookup_id st addr)

  unfoldable pub get_resolved : StateTree → Lookup → FoundAt × StateTree
  unfolding get_actor
  get_resolved st (resolved a) = found_at (get_actor a st)
  get_resolved st no_address = (unknown, st)
  get_resolved st failed = (lookup_failed, st)

  unfoldable pub actor_at : ℕ → StateTree → FoundAt × StateTree
  unfolding get_resolved lookup_id
  actor_at addr st =
      if addr == undef then (lookup_failed, st) else get_resolved st (lookup_id st addr)

  -- SetActor on an address; `none` is its error
  unfoldable pub set_resolved : Actor → StateTree → Option ℕ → Option StateTree
  unfolding set_actor
  set_resolved act st none = none
  set_resolved act st (some a) = some (set_actor a act st)

  unfoldable pub set_actor_at : ℕ → Actor → StateTree → Option StateTree
  unfolding set_resolved id_of
  set_actor_at addr act st = set_resolved act st (id_of st addr)

  unfoldable pub delete_resolved : StateTree → Option ℕ → Option StateTree
  unfolding delete_actor
  delete_resolved st none = none
  delete_resolved st (some a) = delete_actor a st

  -- DeleteActor on an address
  unfoldable pub delete_actor_at : ℕ → StateTree → Option StateTree
  unfolding delete_resolved id_of
  delete_actor_at addr st = if addr == undef then none else delete_resolved st (id_of st addr)

  -- RegisterNewAddress after the init actor is read, by the ID and the new head of the init actor
  unfoldable pub register_by : StateTree → Actor → Option (ℕ × ℕ) → Option ℕ × StateTree
  unfolding set_actor
  register_by st act none = (none, st)
  register_by st act (some (a, head)) =
      (some a, set_actor m.init_address (record act { head = head }) st)

  unfoldable pub register_in : ℕ → Found × StateTree → Option ℕ × StateTree
  unfolding register_by
  register_in addr (not_found, st) = (none, st)
  register_in addr (actor act, st) = register_by st act (m.map_to_new_id act.head addr)

  unfoldable pub register_new_address : ℕ → StateTree → Option ℕ × StateTree
  unfolding register_in get_actor
  register_new_address addr st = register_in addr (get_actor m.init_address st)
