-- ===== src/Vm/Machine/Lookups.antt =====
-- What LookupID and GetActor of chain/state/statetree.go find, by what the tree shows.
use filecoin.Base.{
  ℕ, ◌≡◌, refl, ap, ◌∙◌, sym, true, false, Option, none, some, if◌then◌else◌, ◌==◌, nat_eq, arith,
  Bool-cases, ==_iff, ◌⊎◌, inl, inr,
}
use filecoin.ChainTypes.Actor.{Actor}
use filecoin.StateTree.{StateTree, Found, actor, not_found, get_actor}
use filecoin.StateTree.View.{view, result, get_actor_lem}
use filecoin.Vm.Machine.{
  Machine, id, Lookup, resolved, no_address, failed, found, found_at, is_id, known_id, resolve_by,
  lookup_id, id_of, get_resolved, actor_at,
}

-- By the head of the init actor.
abbrev pub resolve_head : Machine → Option Actor → ℕ → Lookup
resolve_head m none addr = failed
resolve_head m (some act) addr = m.resolve_in act.head addr

abbrev pub lookup_shown : Machine → Option Actor → ℕ → Lookup
lookup_shown m o addr = if is_id (m.protocol addr) then resolved addr else resolve_head m o addr

abbrev pub head_shown : Option Actor → Option ℕ
head_shown none = none
head_shown (some act) = some act.head

module _ (m : Machine) where
  resolve_by-head :
      (addr : ℕ) (r : Found) (o : Option Actor)
      → r ≡ result o
      → resolve_by m addr r ≡ resolve_head m o addr
  unfolding resolve_by
  resolve_by-head addr not_found none q = refl
  resolve_by-head addr not_found (some act) q = absurd (cc)
  resolve_by-head addr (actor b) none q = absurd (cc)
  resolve_by-head addr (actor b) (some act) q = cc

  pub lookup_id-shown :
      (st : StateTree) (addr : ℕ)
      → lookup_id m st addr ≡ lookup_shown m (view st m.init_address) addr
  unfolding lookup_id
  lookup_id-shown st addr = ground (
    arith,
    resolve_by-head addr (get_actor m.init_address st).0 (view st m.init_address)
        (get_actor_lem st m.init_address 0).0,
  )

  lookup_shown-head :
      (o p : Option Actor) (addr : ℕ)
      → head_shown o ≡ head_shown p
      → lookup_shown m o addr ≡ lookup_shown m p addr
  lookup_shown-head none none addr q = refl
  lookup_shown-head none (some b) addr q = absurd (cc)
  lookup_shown-head (some a) none addr q = absurd (cc)
  lookup_shown-head (some a) (some b) addr q =
      let heads : a.head ≡ b.head = cc in ground (arith, ap (λ h. m.resolve_in h addr) heads)

  -- Two trees that show the same state of the init actor resolve an address to the same.
  pub lookup_id-same :
      (st st' : StateTree) (addr : ℕ)
      → head_shown (view st m.init_address) ≡ head_shown (view st' m.init_address)
      → lookup_id m st addr ≡ lookup_id m st' addr
  lookup_id-same st st' addr q =
      lookup_id-shown st addr
      ∙ lookup_shown-head (view st m.init_address) (view st' m.init_address) addr q
      ∙ sym (lookup_id-shown st' addr)

  pub id_of-resolved :
      (st : StateTree) (addr a : ℕ) → lookup_id m st addr ≡ resolved a → id_of m st addr ≡ some a
  unfolding id_of
  id_of-resolved st addr a q = ap known_id q

  -- An actor found at an address is the one shown at the address's ID.
  pub record Stands (addr : ℕ) (st : StateTree) (act : Actor) : Type 0 where
    pub at : ℕ
    pub looked_up : lookup_id m st addr ≡ resolved at
    pub shown_there : view st at ≡ some act

  found_at-shown :
      (r : Found) (st : StateTree) (o : Option Actor) (act : Actor)
      → r ≡ result o
      → (found_at (r, st)).0 ≡ found act
      → o ≡ some act
  found_at-shown not_found st o act q e = absurd (cc)
  found_at-shown (actor b) st none act q e = absurd (cc)
  found_at-shown (actor b) st (some c) act q e = cc

  get_resolved-Stands :
      (addr : ℕ) (st : StateTree) (l : Lookup) (act : Actor)
      → lookup_id m st addr ≡ l
      → (get_resolved m st l).0 ≡ found act
      → Stands addr st act
  unfolding get_resolved
  get_resolved-Stands addr st (resolved a) act q e = record {
    at = a;
    looked_up = q;
    shown_there =
        found_at-shown (get_actor a st).0 (get_actor a st).1 (view st a) act
          (get_actor_lem st a a).0 e;
  }
  get_resolved-Stands addr st no_address act q e = absurd (cc)
  get_resolved-Stands addr st failed act q e = absurd (cc)

  pub actor_at-Stands :
      (addr : ℕ) (st : StateTree) (act : Actor)
      → (actor_at m addr st).0 ≡ found act
      → Stands addr st act
  unfolding actor_at
  actor_at-Stands addr st act e =
      ground (arith, get_resolved-Stands addr st (lookup_id m st addr) act refl)

  found_at-view : (r : Found) (st : StateTree) (j : ℕ) → view (found_at (r, st)).1 j ≡ view st j
  found_at-view not_found st j = refl
  found_at-view (actor act) st j = refl

  get_resolved-view :
      (st : StateTree) (l : Lookup) (j : ℕ) → view (get_resolved m st l).1 j ≡ view st j
  unfolding get_resolved
  get_resolved-view st (resolved a) j =
      found_at-view (get_actor a st).0 (get_actor a st).1 j ∙ (get_actor_lem st a j).1
  get_resolved-view st no_address j = refl
  get_resolved-view st failed j = refl

  pub actor_at-view :
      (addr : ℕ) (st : StateTree) (j : ℕ) → view (actor_at m addr st).1 j ≡ view st j
  unfolding actor_at
  actor_at-view addr st j = ground (arith, get_resolved-view st (lookup_id m st addr) j)

  -- An ID is resolved to itself by every tree.
  pub id_of-id : (st : StateTree) (a : ℕ) → m.protocol a ≡ id → id_of m st a ≡ some a
  unfolding id_of lookup_id
  id_of-id st a q = rw q refl

  -- A change of an actor that keeps its head keeps what addresses are resolved to.
  pub lookup-changed :
      (st st' : StateTree) (f addr : ℕ) (act b : Actor)
      → view st f ≡ some act
      → b.head ≡ act.head
      → view st' m.init_address ≡ (if f == m.init_address then some b else view st m.init_address)
      → lookup_id m st' addr ≡ lookup_id m st addr
  lookup-changed st st' f addr act b e q after =
      lookup_id-same st' st addr (ap head_shown after ∙ kept (Bool-cases (f == m.init_address)))
    where
      kept :
          ((f == m.init_address) ≡ true) ⊎ ((f == m.init_address) ≡ false)
          → head_shown (if f == m.init_address then some b else view st m.init_address)
            ≡ head_shown (view st m.init_address)
      kept (inr n) = rw n refl
      kept (inl y) = rw y (
          ap some q
          ∙ sym (ap head_shown e)
          ∙ ap (λ i. head_shown (view st i)) ((==_iff f m.init_address).0 y))
