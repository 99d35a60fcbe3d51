-- ===== src/Rpc/Replies.antt =====
-- What the served `Put` answers, and what it asks of etcd.
use raft_capnp.Prelude.{refl, ◌≡◌, Option, none, some, List, [], ◌∷◌, ◌++◌, arith}
use raft_capnp.Data.{Error, Item}
use raft_capnp.Effect.{Act, Trace, Env, Node, Result, ok, err, done, ◌>>=◌}
use raft_capnp.Rpc.{Reply, put_item, handle_put}

-- The first of the things that `Put` does that goes wrong: reading the argument, reading the item,
-- encoding it, or proposing it.
abbrev pub first_failure : Env → Trace → Option Error → Result Item → Option Error
first_failure env t (some e) item = some e
first_failure env t none (err e) = some e
first_failure env t none (ok item) = elim (env.marshal_item item) [
  | ok encoded ↦ env.propose t encoded
  | err e ↦ some e
]

-- That failure, unless it is the one of reading the item.
abbrev pub told_failure : Env → Trace → Option Error → Result Item → Option Error
told_failure env t none (err e) = none
told_failure env t arg item = first_failure env t arg item

-- What `Put` proposes: the encoding of the item, if both reads and the encoding succeed.
abbrev pub proposals_of_put : Env → Option Error → Result Item → List Act
proposals_of_put env none (ok item) = elim (env.marshal_item item) [
  | ok encoded ↦ Act.propose encoded ∷ []
  | err e ↦ []
]
proposals_of_put env _ _ = []

-- `Put`, once its results are allocated, always replies. It returns the first failure of reading its
-- argument, reading the item, encoding it and proposing it, and no error if there is none. Its
-- results hold that same failure, but for one: if the item cannot be read, they hold no error,
-- although `Put` returns one. It proposes the encoding of the item, once, if it gets as far as that,
-- and leaves the node otherwise as it was.
pub handle_put-replies :
    (env : Env) (arg : Option Error) (item : Result Item) (n : Node)
    → (reply : Reply) × ((handle_put env none arg item n).0 ≡ done reply)
      × (reply.1 ≡ first_failure env n.trace arg item)
      × (reply.0.error ≡ told_failure env n.trace arg item)
      × (reply.0.nodes ≡ none)
      × ((handle_put env none arg item n).1
          ≡ record n { trace = proposals_of_put env arg item ++ n.trace })
unfolding handle_put put_item ◌>>=◌
handle_put-replies env (some e) item n = (_, refl, refl, refl, refl, ground arith)
handle_put-replies env none (err e) n = (_, refl, refl, refl, refl, ground arith)
handle_put-replies env none (ok item) n =
    let failure = first_failure env n.trace none (ok item) in
    (
      (record { nodes = none; error = failure }, failure),
      ground arith,
      refl,
      refl,
      refl,
      ground arith,
    )
