-- ===== src/Effect/Frames.antt =====
-- Relations between the node before and after an action, with the rules of `Keeps` for them.
use mathlib.Core.List.{append_assoc}
use raft_capnp.Prelude.{
  ℕ, ◌≡◌, refl, ◌∙◌, List, [], ◌∷◌, ◌++◌, Option, none, some, ⊤, arith, Bool, true, false,
}
use raft_capnp.Prelude.Assoc.{Assoc}
use raft_capnp.Data.{Bytes, Error, Message, Raft, null, client, Item, ConfChange}
use raft_capnp.Effect.{Act, Trace, Node, call, emit, modify, ◌>>=◌, take_ref, drop_ref}
use raft_capnp.Effect.Keeps.{IsPreorder, Keeps, keeps_rules, Returns, returns_rules}

-- The trace only grows.
abbrev pub Grows : Node → Node → Type 0
Grows n n' = (acts : Trace) × (n'.trace ≡ acts ++ n.trace)

Grows-trans : (n m k : Node) → Grows n m → Grows m k → Grows n k
Grows-trans n m k (xs, p) (ys, q) = (ys ++ xs, simp (q, p, append_assoc))

pub Grows-IsPreorder : IsPreorder Grows
Grows-IsPreorder = record { refl_at = λ n. ([], refl); trans_at = Grows-trans }

pub Grows-call : {A : Type 0} (a : Act) (f : Trace → A) → Keeps Grows (call a f)
unfolding ◌>>=◌
Grows-call a f = record { at = λ n. (a ∷ [], refl) }

-- Nothing but the trace changes.
pub record OnlyTrace (n n' : Node) : Type 0 where
  pub same_id : n'.id ≡ n.id
  pub same_peers : n'.peers ≡ n.peers
  pub same_items : n'.items ≡ n.items
  pub same_paused : n'.paused ≡ n.paused
  pub same_locked : n'.locked ≡ n.locked
  pub same_queue_cap : n'.queue_cap ≡ n.queue_cap
  pub same_queue : n'.queue ≡ n.queue

pub OnlyTrace-IsPreorder : IsPreorder OnlyTrace
OnlyTrace-IsPreorder = record { refl_at = λ n. ground arith; trans_at = λ n m k p q. ground arith }

pub OnlyTrace-call : {A : Type 0} (a : Act) (f : Trace → A) → Keeps OnlyTrace (call a f)
unfolding ◌>>=◌
OnlyTrace-call a f = record { at = λ n. ground arith }

module _ {R : Node → Node → Type 0} where
  pub Keeps-take_ref :
      IsPreorder R
      → ((c : ℕ) → Keeps R (call (Act.add_ref (client c)) (λ t. tt)))
      → (c : Raft) → Keeps R (take_ref c)
  unfolding take_ref
  Keeps-take_ref p k null = search (keeps_rules, p)
  Keeps-take_ref p k (client c) = search (keeps_rules, p, k)

  pub Keeps-drop_ref :
      IsPreorder R
      → ((c : ℕ) → Keeps R (call (Act.release (client c)) (λ t. tt)))
      → (c : Raft) → Keeps R (drop_ref c)
  unfolding drop_ref
  Keeps-drop_ref p k null = search (keeps_rules, p)
  Keeps-drop_ref p k (client c) = k c

pub Returns-take_ref : (c : Raft) → Returns (take_ref c)
unfolding take_ref
Returns-take_ref null = search returns_rules
Returns-take_ref (client c) = search returns_rules

pub Returns-drop_ref : (c : Raft) → Returns (drop_ref c)
unfolding drop_ref
Returns-drop_ref null = search returns_rules
Returns-drop_ref (client c) = search returns_rules

-- The acts of a started node that are not the frame of `doReady`: all but those of storing,
-- of applying a membership change, of passing on a message, and of going on to the next round.
abbrev pub quiet : Act → Bool
quiet Act.advance = false
quiet (Act.apply_conf_change cc) = false
quiet (Act.step msg) = false
quiet (Act.send_msg peer encoded) = false
quiet (Act.store hs es sn) = false
quiet _ = true

-- A relation that quiet acts keep.
pub record IsFrame (R : Node → Node → Type 0) : Type 1 where
  pub preorder : IsPreorder R
  pub quiet_call : (A : Type 0) (a : Act) (f : Trace → A) → quiet a ≡ true → Keeps R (call a f)

-- A relation that says nothing of the peers, or nothing of the items.
abbrev pub PeersFree : (Node → Node → Type 0) → Type 0
PeersFree R = (f : Node → Assoc ℕ Raft) → Keeps R (modify (λ n. record n { peers = f n }))

-- A relation that messages keep, given to etcd or sent.
pub record MessageFree (R : Node → Node → Type 0) : Type 0 where
  pub step_free : (msg : Message) (f : Trace → Option Error) → Keeps R (call (Act.step msg) f)
  pub send_free :
      (peer : Raft) (encoded : Bytes) (f : Trace → Option Error)
      → Keeps R (call (Act.send_msg peer encoded) f)

-- A relation that every call keeps.
pub any_call-MessageFree :
    {R : Node → Node → Type 0}
    → ((A : Type 0) (a : Act) (f : Trace → A) → Keeps R (call a f))
    → MessageFree R
any_call-MessageFree any_call = record {
  step_free = λ msg f. any_call (Option Error) (Act.step msg) f;
  send_free = λ peer encoded f. any_call (Option Error) (Act.send_msg peer encoded) f;
}

abbrev pub ItemsFree : (Node → Node → Type 0) → Type 0
ItemsFree R = (f : Node → Assoc Bytes Item) → Keeps R (modify (λ n. record n { items = f n }))

module _ {R : Node → Node → Type 0} (fr : IsFrame R) where
  pub Frame-take_ref : (c : Raft) → Keeps R (take_ref c)
  Frame-take_ref c =
      Keeps-take_ref fr.preorder (λ x. fr.quiet_call ⊤ (Act.add_ref (client x)) (λ t. tt) refl) c

  pub Frame-drop_ref : (c : Raft) → Keeps R (drop_ref c)
  Frame-drop_ref c =
      Keeps-drop_ref fr.preorder (λ x. fr.quiet_call ⊤ (Act.release (client x)) (λ t. tt) refl) c

pub Grows-IsFrame : IsFrame Grows
unfolding ◌>>=◌
Grows-IsFrame = record { preorder = Grows-IsPreorder; quiet_call = λ A a f q. Grows-call a f }

-- The acts of a trace that `p` selects.
abbrev pub select {ℓ} : {A : Type ℓ} → (Act → Option A) → Trace → List A
select p [] = []
select p (a ∷ t) = elim (p a) [ none ↦ select p t | some x ↦ x ∷ select p t ]

-- The node's selected acts stay as they are.
abbrev pub Same : {A : Type 0} → (Act → Option A) → Node → Node → Type 0
Same p n n' = select p n'.trace ≡ select p n.trace

module _ {B : Type 0} (p : Act → Option B) where
  pub Same-IsPreorder : IsPreorder (Same p)
  Same-IsPreorder = record { refl_at = λ n. refl; trans_at = λ n m k x y. y ∙ x }

  pub Same-call : {A : Type 0} (a : Act) (f : Trace → A) → p a ≡ none → Keeps (Same p) (call a f)
  unfolding ◌>>=◌
  Same-call a f h = record { at = λ n. rw h }

  pub Same-IsFrame : ((a : Act) → quiet a ≡ true → p a ≡ none) → IsFrame (Same p)
  unfolding ◌>>=◌
  Same-IsFrame h = record {
    preorder = Same-IsPreorder;
    quiet_call = λ A a f q. Same-call a f (h a q);
  }

pub Grows-PeersFree : PeersFree Grows
unfolding ◌>>=◌
Grows-PeersFree f = record { at = λ n. ([], refl) }

pub Grows-MessageFree : MessageFree Grows
Grows-MessageFree = any_call-MessageFree (λ A. Grows-call)

pub Grows-ItemsFree : ItemsFree Grows
unfolding ◌>>=◌
Grows-ItemsFree f = record { at = λ n. ([], refl) }

pub Same-PeersFree : {B : Type 0} (p : Act → Option B) → PeersFree (Same p)
unfolding ◌>>=◌
Same-PeersFree p f = record { at = λ n. refl }

pub Same-MessageFree :
    {B : Type 0} (p : Act → Option B)
    → ((msg : Message) → p (Act.step msg) ≡ none)
    → ((peer : Raft) (encoded : Bytes) → p (Act.send_msg peer encoded) ≡ none)
    → MessageFree (Same p)
Same-MessageFree p h k = record {
  step_free = λ msg f. Same-call p (Act.step msg) f (h msg);
  send_free = λ peer encoded f. Same-call p (Act.send_msg peer encoded) f (k peer encoded);
}

pub Same-ItemsFree : {B : Type 0} (p : Act → Option B) → ItemsFree (Same p)
unfolding ◌>>=◌
Same-ItemsFree p f = record { at = λ n. refl }

pub OnlyTrace-IsFrame : IsFrame OnlyTrace
OnlyTrace-IsFrame = record {
  preorder = OnlyTrace-IsPreorder;
  quiet_call = λ A a f q. OnlyTrace-call a f;
}

pub OnlyTrace-MessageFree : MessageFree OnlyTrace
OnlyTrace-MessageFree = any_call-MessageFree (λ A. OnlyTrace-call)

-- The items stay as they are.
abbrev pub SameItems : Node → Node → Type 0
SameItems n n' = n'.items ≡ n.items

pub SameItems-IsFrame : IsFrame SameItems
unfolding ◌>>=◌
SameItems-IsFrame = record {
  preorder = record { refl_at = λ n. refl; trans_at = λ n m k x y. y ∙ x };
  quiet_call = λ A a f q. record { at = λ n. refl };
}

pub SameItems-MessageFree : MessageFree SameItems
unfolding ◌>>=◌
SameItems-MessageFree = any_call-MessageFree (λ A a f. record { at = λ n. refl })

pub SameItems-PeersFree : PeersFree SameItems
unfolding ◌>>=◌
SameItems-PeersFree f = record { at = λ n. refl }

pub SameItems-apply : (cc : ConfChange) → Keeps SameItems (emit (Act.apply_conf_change cc))
unfolding ◌>>=◌
SameItems-apply cc = record { at = λ n. refl }

pub Grows-apply : (cc : ConfChange) → Keeps Grows (emit (Act.apply_conf_change cc))
Grows-apply cc = Grows-call (Act.apply_conf_change cc) (λ t. tt)
