-- ===== src/Vr/State.antt =====
-- The state of a replica and the messages between replicas (vr/vr.go, vr/vrviewchange.go,
-- vr/vrrecovery.go, vr/vrstatetransfer.go). `C` is the type behind the `Command` interface.
-- Locks, listeners, connections and codecs are left out: a handler runs as one step.
use go_phat.Prelude.{ℕ, List, Option, Bool}
use go_phat.Phatlog.{Log}

-- NREPLICAS and F, set by `RunAsReplica`.
pub record Globals : Type 0 where
  pub nreplicas : ℕ
  pub f : ℕ

pub data Status : Type 0 where
  normal recovery view_change : Status

pub Status-discrete : Discrete Status
Status-discrete = hlevel

-- `done` is the number of a channel, or nil.
pub record VrCommand (C : Type 0) : Type 0 where
  pub c : C
  pub done : Option ℕ

pub record ReplicaState : Type 0 where
  pub view : ℕ
  pub op_number : ℕ
  pub commit_number : ℕ
  pub replica_number : ℕ
  pub status : Status
  pub normal_view : ℕ
  pub view_change_msgs : ℕ
  pub timer : ℕ  -- the time at which it fires

-- `made` says that `Reset` has made the two maps. Before that they are nil: empty, and a write panics.
pub record MasterState : Type 0 where
  pub made : Bool
  pub highest_op : List (ℕ × ℕ)
  pub timer : Option ℕ  -- the time at which it fires, unless it is stopped
  pub heartbeats : List (ℕ × ℕ)

pub record PrepareArgs (C : Type 0) : Type 0 where
  pub view : ℕ
  pub command : VrCommand C
  pub op_number : ℕ
  pub commit_number : ℕ

pub record PrepareReply : Type 0 where
  pub view : ℕ
  pub op_number : ℕ
  pub replica_number : ℕ
  pub lease : ℕ

pub record CommitArgs : Type 0 where
  pub view : ℕ
  pub commit_number : ℕ

pub record HeartbeatReply : Type 0 where
  pub replica_number : ℕ
  pub lease : ℕ

pub record StartViewChangeArgs : Type 0 where
  pub view : ℕ
  pub replica_number : ℕ

-- A `*phatlog.Log` is an option: it can be nil.
pub record StartViewArgs (C : Type 0) : Type 0 where
  pub view : ℕ
  pub log : Option (Log (VrCommand C))
  pub op_number : ℕ
  pub commit_number : ℕ

pub record DoViewChangeArgs (C : Type 0) : Type 0 where
  pub view : ℕ
  pub replica_number : ℕ
  pub log : Option (Log (VrCommand C))
  pub normal_view : ℕ
  pub op_number : ℕ
  pub commit_number : ℕ

pub record ViewChangeState (C : Type 0) : Type 0 where
  pub do_view_change_msgs : List (DoViewChangeArgs C)
  pub do_view_replies : ℕ
  pub start_view_replies : ℕ
  pub start_views : ℕ
  pub do_views : ℕ
  pub normal_view : ℕ

pub record GetStateArgs : Type 0 where
  pub view : ℕ
  pub op_number : ℕ

pub record GetStateResponse (C : Type 0) : Type 0 where
  pub view : ℕ
  pub log : Option (Log (VrCommand C))
  pub op_number : ℕ
  pub commit_number : ℕ

pub record RecoveryArgs : Type 0 where
  pub replica_number : ℕ
  pub nonce : ℕ
  pub snapshot_index : ℕ

pub record RecoveryResponse (C : Type 0) : Type 0 where
  pub view : ℕ
  pub nonce : ℕ
  pub log : Option (Log (VrCommand C))
  pub snapshot : List ℕ
  pub op_number : ℕ
  pub commit_number : ℕ
  pub replica_number : ℕ
  pub normal : Bool

pub record RecoveryState (C : Type 0) : Type 0 where
  pub recovery_response_msgs : List (RecoveryResponse C)
  pub recovery_response_replies : ℕ
  pub empty_logs : ℕ
  pub recovery_responses : ℕ
  pub nonce : ℕ

-- `context` is opaque to this package: the commands whose `CommitFunc` was called on it, in order.
pub record Replica (C : Type 0) : Type 0 where
  pub rstate : ReplicaState
  pub mstate : MasterState
  pub vcstate : ViewChangeState C
  pub rcvstate : RecoveryState C
  pub phatlog : Option (Log (VrCommand C))
  pub context : List C
  pub snapshot_index : ℕ
  pub is_shutdown : Bool

-- The RPCs that a replica sends.
pub data Message (C : Type 0) : Type 0 where
  prepare : PrepareArgs C → Message C
  commit : CommitArgs → Message C
  start_view_change : StartViewChangeArgs → Message C
  do_view_change : DoViewChangeArgs C → Message C
  start_view : StartViewArgs C → Message C
  get_state : GetStateArgs → Message C
  recover : RecoveryArgs → Message C

-- What a handler does beside changing the replica: an RPC to the given replicas, a signal on a
-- channel, and the start of `TakeSnapshot`.
pub data Effect (C : Type 0) : Type 0 where
  send : List ℕ → Message C → Effect C
  signal : ℕ → Effect C
  take_snapshot : Effect C
