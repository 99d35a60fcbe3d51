-- ===== src/Defaults/Store.antt =====
-- What a round does with the default store.
use raft_capnp.Prelude.{⊤, refl, ◌≡◌, Bool, true, false, arith}
use raft_capnp.Data.{cast_failed, Ready}
use raft_capnp.Effect.{Trace, Env, Node, Action, raise, check, ◌>>=◌, ◌>>◌}
use raft_capnp.Apply.{after_store, do_ready}
use raft_capnp.Apply.Entries.{storing}
use raft_capnp.Defaults.{Memory, Storage, memory, other, default_raft_store}

module _ {S : Type 0} (mem : Memory S) (storage : Trace → Storage S) (env : Env) where
  -- A node that was given `DefaultRaftStore`, whose storage depends on what was called.
  abbrev pub with_default : Env
  with_default = record env {
    store = λ t hard entries snapshot. (default_raft_store mem (storage t) hard entries snapshot).0;
  }

  -- The rest of a round over a storage: over the memory storage all of it, whatever it holds.
  abbrev pub by_storage : Storage S → Ready → Action ⊤
  by_storage (memory s) ready = after_store with_default ready
  by_storage other ready = raise cast_failed

  by_storage_lem :
      (st : Storage S) (ready : Ready) (n : Node)
      → (check (default_raft_store mem st ready.hard_state ready.entries ready.snapshot).0
            >> after_store with_default ready)
          n
        ≡ by_storage st ready n
  unfolding default_raft_store ◌>>=◌
  by_storage_lem (memory s) ready n = refl
  by_storage_lem other ready n = refl

  -- What a memory storage holds once entries are appended to it, by whether the hard state and the
  -- snapshot of the round are empty.
  abbrev pub after_writes : Bool → Bool → Ready → S → S
  after_writes true true ready s = s
  after_writes false true ready s = (mem.set_hard_state ready.hard_state s).1
  after_writes true false ready s = (mem.apply_snapshot ready.snapshot s).1
  after_writes false false ready s =
      (mem.apply_snapshot ready.snapshot (mem.set_hard_state ready.hard_state s).1).1

  -- The storage after the default store was called with a round.
  abbrev pub stored : Storage S → Ready → Storage S
  stored (memory s) ready = memory (
      after_writes (mem.is_empty_hard_state ready.hard_state) (mem.is_empty_snap ready.snapshot)
        ready (mem.append ready.entries s).1)
  stored other ready = other

  stored_lem :
      (st : Storage S) (ready : Ready)
      → (default_raft_store mem st ready.hard_state ready.entries ready.snapshot).1
        ≡ stored st ready
  unfolding default_raft_store
  stored_lem (memory s) ready = ground arith
  stored_lem other ready = refl

  -- With the default store over a memory storage, a round goes on to send and to apply whatever the
  -- writes of the storage answer, errors of each of them included; over any other storage it does
  -- nothing but fail. The storage gets the entries of the round, then its hard state unless that is
  -- empty, then its snapshot unless that is empty; any other storage stays as it was.
  pub default_store_round :
      (ready : Ready) (n : Node)
      → (do_ready with_default ready n ≡ by_storage (storage n.trace) ready (storing ready n))
        × ((default_raft_store mem
              (storage n.trace)
              ready.hard_state
              ready.entries
              ready.snapshot).1
            ≡ stored (storage n.trace) ready)
  unfolding do_ready ◌>>=◌
  default_store_round ready n =
      (by_storage_lem (storage n.trace) ready (storing ready n), stored_lem (storage n.trace) ready)
