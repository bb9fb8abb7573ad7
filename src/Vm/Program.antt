-- ===== src/Vm/Program.antt =====
-- The code of actors as programs of calls of the runtime, and how chain/vm runs them: shimCall, Send
-- and the calls that look at the message of chain/vm/runtime.go, and Invoke of chain/vm/invoker.go.
use filecoin.Base.{
  ℕ, ◌+◌, List, [], ◌∷◌, Bool, true, false, Option, none, some, if◌then◌else◌, ◌==◌, nat_eq, not,
}
use filecoin.Base.Int.{ℤ}
use filecoin.ChainTypes.Message.{Message, u64, undef}
use filecoin.StateTree.{StateTree}
use filecoin.Vm.Gas.{GasCharge, new_gas_charge}
use filecoin.Vm.ActorError.{
  ExitCode, ok, invalid_method, illegal_actor, forbidden, numbered, ActorError, fatal_error,
  new_error, is_fatal, ret_code, absorb,
}
use filecoin.Vm.Machine.{Machine, bls, secp256k1, FoundAt, found, actor_at}
use filecoin.Vm.Runtime.{
  Exec, Runtime, Context, Result, value, raised, abort, charge_dropped, gas_on_actor_exec, charge,
  answer_as, resolve_address, get_actor_code_cid, current_balance, read_head, state_commit,
  create_actor, delete_receiver,
}

-- The calls of the runtime. `head_or` is the read of the receiver's head in Readonly and
-- Transaction, by the code that each aborts with; `allow` sets whether Send is allowed, which
-- Transaction forbids while it runs its function.
pub data Op : Type 0 where
  charging : GasCharge → Op
  resolve code_of : ℕ → Op
  balance new_address delete validate_any : Op
  head_or : ExitCode → Op
  allow : Bool → Op
  commit : ℕ → ℕ → Op
  validate_is validate_type : List ℕ → Op
  create : ℕ → ℕ → Op
  send_to : ℕ → ℕ → ℤ → List ℕ → Op

abbrev pub Answer : Op → Type 0
Answer (charging g) = Unit
Answer (resolve a) = Option ℕ
Answer (code_of a) = Option ℕ
Answer balance = ℤ
Answer new_address = ℕ
Answer delete = Unit
Answer validate_any = Unit
Answer (head_or c) = ℕ
Answer (allow b) = Unit
Answer (commit old new) = Unit
Answer (validate_is l) = Unit
Answer (validate_type l) = Unit
Answer (create code a) = Unit
Answer (send_to a method v params) = List ℕ × ExitCode

-- `finish none` is a value that cannot be serialised, `stop` a panic with an exit code, `fail` one
-- with a fatal error; a panic of another kind has the code 1.
pub data Program : Type 0 where
  finish : Option (List ℕ) → Program
  stop : ExitCode → Program
  fail : Program
  call : (o : Op) → (Answer o → Program) → Program

-- What a message returns: bytes, an error, or a panic that goes on to the calling actor.
pub data Reply : Type 0 where
  returned : List ℕ → Reply
  errored : ActorError → Reply
  panicked : ActorError → Reply

-- an error of a program's run, caught by shimCall
abbrev pub caught : {A : Type 0} → Result A → Option ActorError
caught (value a) = none
caught (raised err) = some err

abbrev pub listed : ℕ → List ℕ → Bool
listed a [] = false
listed a (b ∷ bs) = let rest = listed a bs in if b == a then true else rest

abbrev pub listed_code : Option ℕ → List ℕ → Result Unit
listed_code none l = raised fatal_error
listed_code (some code) l = if listed code l then value tt else abort forbidden

module _ (m : Machine) (c : Context) where
  abbrev kept : {A : Type 0} → Runtime → Result A × Exec → Result A × Runtime
  kept rt (a, e) = (a, record rt { exec = e })

  -- abortIfAlreadyValidated
  unfoldable pub validate : Runtime → Result Unit × Runtime
  unfolding new_error
  validate rt =
      if rt.caller_validated
      then (abort illegal_actor, rt)
      else (value tt, record rt { caller_validated = true })

  -- ValidateImmediateCallerIs
  unfoldable pub validate_caller_is : List ℕ → Result Unit × Runtime → Result Unit × Runtime
  unfolding new_error
  validate_caller_is l (raised err, rt) = (raised err, rt)
  validate_caller_is l (value _, rt) =
      (if listed c.vmsg.from l then value tt else abort forbidden, rt)

  -- ValidateImmediateCallerType, by the code of the caller's actor
  unfoldable pub check_code : List ℕ → Runtime → Result (Option ℕ) × Exec → Result Unit × Runtime
  unfolding new_error
  check_code l rt (raised err, e) = (raised err, record rt { exec = e })
  check_code l rt (value code, e) = (listed_code code l, record rt { exec = e })

  unfoldable pub validate_caller_type : List ℕ → Result Unit × Runtime → Result Unit × Runtime
  unfolding check_code get_actor_code_cid
  validate_caller_type l (raised err, rt) = (raised err, rt)
  validate_caller_type l (value _, rt) =
      check_code l rt (get_actor_code_cid m c c.vmsg.from rt.exec)

  -- ResolveToKeyAddr; the empty address with an error, which the caller drops
  unfoldable pub key_found : FoundAt × StateTree → ℕ × StateTree
  key_found (found act, st) = (
    if act.code == m.account_code
        then elim (m.account_address act.head) [ some a ↦ a | none ↦ undef ]
        else undef,
    st,
  )
  key_found (_, st) = (undef, st)

  unfoldable pub resolve_to_key_addr : ℕ → StateTree → ℕ × StateTree
  unfolding key_found actor_at
  resolve_to_key_addr addr st = elim (m.protocol addr) [
    | bls ↦ (addr, st)
    | secp256k1 ↦ (addr, st)
    | _ ↦ key_found (actor_at m addr st)
  ]

  -- NewActorAddress after the origin's key address is known
  unfoldable pub address_given : Exec → StateTree → Option ℕ → Result ℕ × Exec
  address_given e st none = (raised fatal_error, answer_as e st)
  address_given e st (some a) = (value a, record e { tree = st; created = u64 (e.created + 1) })

  unfoldable pub address_from : Exec → ℕ × StateTree → Result ℕ × Exec
  unfolding address_given
  address_from e (oa, st) = address_given e st (m.new_actor_address oa c.origin_nonce e.created)

  unfoldable pub new_actor_address : Exec → Result ℕ × Exec
  unfolding address_from resolve_to_key_addr
  new_actor_address e = address_from e (resolve_to_key_addr c.origin e.tree)

  -- Send after internalSend
  unfoldable pub sent : Runtime → Reply × Exec → Result (List ℕ × ExitCode) × Runtime
  unfolding is_fatal ret_code charge_dropped new_gas_charge
  sent rt (returned ret, e) =
      (value (ret, ok), record rt { exec = charge_dropped gas_on_actor_exec e })
  sent rt (errored err, e) =
      (if is_fatal err then raised err else value ([], ret_code (some err)), record rt { exec = e })
  sent rt (panicked err, e) = (raised err, record rt { exec = e })

  -- Send, with internalSend from the receiver
  unfoldable pub send :
      (ℕ → ℕ → ℤ → List ℕ → Exec → Reply × Exec)
      → ℕ
      → ℕ
      → ℤ
      → List ℕ
      → Runtime
      → Result (List ℕ × ExitCode) × Runtime
  unfolding sent new_error
  send internal_send to method v params rt =
      if not rt.allow_internal
      then (abort illegal_actor, rt)
      else sent rt (internal_send to method v params rt.exec)

  module _ (internal_send : ℕ → ℕ → ℤ → List ℕ → Exec → Reply × Exec) where
    unfoldable pub perform : (o : Op) → Runtime → Result (Answer o) × Runtime
    unfolding charge resolve_address get_actor_code_cid current_balance read_head state_commit
        create_actor delete_receiver validate validate_caller_is validate_caller_type
        new_actor_address send
    perform (charging g) rt = kept rt (charge g rt.exec)
    perform (resolve a) rt = kept rt (resolve_address m c a rt.exec)
    perform (code_of a) rt = kept rt (get_actor_code_cid m c a rt.exec)
    perform balance rt = kept rt (current_balance m c rt.exec)
    perform new_address rt = kept rt (new_actor_address rt.exec)
    perform delete rt = kept rt (delete_receiver m c rt.exec)
    perform validate_any rt = validate rt
    perform (head_or code) rt = kept rt (read_head m c code rt.exec)
    perform (allow b) rt = (value tt, record rt { allow_internal = b })
    perform (commit old new) rt = (value tt, record rt { exec = state_commit m c old new rt.exec })
    perform (validate_is l) rt = validate_caller_is l (validate rt)
    perform (validate_type l) rt = validate_caller_type l (validate rt)
    perform (create code a) rt = kept rt (create_actor m c code a rt.exec)
    perform (send_to a method v params) rt = send internal_send a method v params rt

    -- shimCall: the end of a program, or of a call that panicked
    unfoldable pub finished : Option (List ℕ) → Runtime → Reply × Exec
    unfolding new_error absorb
    finished ret rt =
        if not rt.caller_validated then (errored (new_error illegal_actor), rt.exec) else elim ret [
          | some bytes ↦ (returned bytes, rt.exec)
          | none ↦ (errored (absorb false (numbered 1)), rt.exec)
        ]

    -- A call that panicked ends the program.
    unfoldable pub go_on :
        {A : Type 0} → Result A × Runtime → (A → Runtime → Reply × Exec) → Reply × Exec
    go_on (raised err, rt) next = (errored err, rt.exec)
    go_on (value a, rt) next = next a rt

    unfoldable pub run : Program → Runtime → Reply × Exec
    unfolding finished perform go_on new_error
    run (finish ret) rt = finished ret rt
    run (stop code) rt = (errored (new_error code), rt.exec)
    run fail rt = (errored fatal_error, rt.exec)
    run (call o k) rt = go_on (perform o rt) (λ a. run (k a))

    unfoldable pub invoke_method : Option (Message → Program) → Exec → Reply × Exec
    unfolding run new_error
    invoke_method none e = (errored (new_error invalid_method), e)
    invoke_method (some program) e =
        run (program c.vmsg) (record { exec = e; allow_internal = true; caller_validated = false })

    -- Invoker.Invoke, by the methods of the code of the actor
    unfoldable pub invoke : Option (ℕ → Option (Message → Program)) → ℕ → Exec → Reply × Exec
    unfolding invoke_method new_error
    invoke none method e = (errored (new_error illegal_actor), e)
    invoke (some methods) method e = invoke_method (methods method) e
