-- ===== src/Replication/Lifecycle.antt =====
-- `Start`, `Stop`, `run`, `connectAndFollow` and `processStream` of
-- internal/replication/follower.go. What `Start` waits for is what `answers` holds for its channel.
use text.Mathlib.Text.{◌==◌ as str_eq}
use netsy.Base.{
  ℕ, ◌+◌, Bool, true, false, not, Option, none, some, List, [], ◌∷◌, ◌&&◌, ◌||◌, ◌==◌,
  if◌then◌else◌,
}
use netsy.NodeState.{PrimaryState, replica, primary_eq}
use netsy.Watch.Manager.{reset_pending}
use netsy.Replication.{
  Follower, PrimaryMessage, initial, broadcast, FollowError, canceled, get_node_state_failed,
  not_acting_as_primary, not_connected, follow_failed, recv_failed, ended_before_initial,
}
use netsy.Replication.Degradation.{cancel_committed_revision_lag_check}
use netsy.Replication.Stream.{Outside, Handled, going, failed, panicked, handle}

abbrev pub require_initial : Follower → Follower
require_initial f = record f { require_initial_sync = true }

-- Go compares the channels; a nil channel is `none`.
abbrev same_channel : Option ℕ → ℕ → Bool
same_channel none c = false
same_channel (some b) c = b == c

unfoldable pub finish_initial_sync_wait : Follower → (wait_ch : ℕ) → Option FollowError → Follower
finish_initial_sync_wait f wait_ch e = record f {
  initial_sync_waiter =
      if same_channel f.initial_sync_waiter wait_ch then none else f.initial_sync_waiter;
  answers = (wait_ch, e) ∷ f.answers;
}

-- The follower, the channel that the caller waits on, and whether the loop was started.
unfoldable pub start : Follower → Follower × Option ℕ × Bool
start f =
    if f.cancel
    then (f, f.initial_sync_waiter, false)
    else if f.require_initial_sync
    then (
      record f {
        cancel = true;
        require_initial_sync = false;
        initial_sync_waiter = some f.next_channel;
        next_channel = f.next_channel + 1;
      },
      some f.next_channel,
      true,
    )
    else (record f { cancel = true }, f.initial_sync_waiter, true)

abbrev pub answer_waiter : Follower → Option ℕ → Option FollowError → Follower
answer_waiter f none e = f
answer_waiter f (some c) e = finish_initial_sync_wait f c e

unfoldable pub stop : Follower → Follower
unfolding finish_initial_sync_wait cancel_committed_revision_lag_check
stop f =
    if not f.cancel
    then f
    else answer_waiter
        (cancel_committed_revision_lag_check
          (record f { cancel = false; initial_sync_waiter = none }))
        f.initial_sync_waiter (some canceled)

-- What `stream.Recv` returns.
pub data Received : Type 0 where
  message : PrimaryMessage → Outside → Received
  eof recv_error : Received

-- A stream that still waits for a message, one that has returned, with whether the initial result
-- was delivered, and a panic.
pub data Session : Type 0 where
  waiting : Follower → (initial_pending : Bool) → Session
  returned : Follower → (initial_delivered : Bool) → Option FollowError → Session
  crashed : Session

abbrev pub is_initial : PrimaryMessage → Bool
is_initial (initial _ _) = true
is_initial (broadcast _) = false

-- The answer to the caller of a bootstrap start, at its first Initial message.
abbrev pub answered : (initial_result : ℕ) → Bool → Follower → Option FollowError → Follower
answered ch true f e = finish_initial_sync_wait f ch e
answered ch false f e = f

-- What one message makes of the session.
abbrev pub after_message :
    (initial_result : ℕ) → (is_initial initial_pending : Bool) → Handled → Session
after_message ch first pending (going f) =
    waiting (answered ch (first && pending) f none) (not first && pending)
after_message ch first pending (failed f e) =
    returned (answered ch (first && pending) f (some e)) (first || not pending) (some e)
after_message ch first pending panicked = crashed

unfoldable pub receive :
    (initial_result : ℕ) → Follower → (initial_pending : Bool) → Received → Session
unfolding finish_initial_sync_wait handle
receive ch f pending (message msg o) = after_message ch (is_initial msg) pending (handle f msg o)
receive ch f pending eof =
    if pending then returned f false (some ended_before_initial) else returned f true none
receive ch f pending recv_error = returned f (not pending) (some recv_failed)

-- Once the stream has returned, what comes on it is not read.
unfoldable pub continue_with : (initial_result : ℕ) → Session → List Received → Session
unfolding receive
continue_with ch session [] = session
continue_with ch (waiting f pending) (r ∷ rs) = continue_with ch (receive ch f pending r) rs
continue_with ch (returned f delivered e) (r ∷ rs) = returned f delivered e
continue_with ch crashed (r ∷ rs) = crashed

abbrev pub process_stream :
    (initial_result : ℕ) → Follower → (initial_pending : Bool) → List Received → Session
process_stream ch f pending events = continue_with ch (waiting f pending) events

-- What the Primary's node and the connections answer: `node_state` is the remote Primary State.
pub record Remote : Type 0 where
  pub node_state : Option PrimaryState
  pub connected : Bool
  pub follow_fails : Bool

abbrev pub follow_remote :
    (initial_result : ℕ)
    → Follower
    → (initial_pending : Bool) → Remote
    → List Received
    → (node_state : Option PrimaryState) → Session
follow_remote ch f pending remote events none = returned f false (some get_node_state_failed)
follow_remote ch f pending remote events (some s) =
    if primary_eq s replica
    then returned f false (some not_acting_as_primary)
    else if not remote.connected
    then returned f false (some not_connected)
    else if remote.follow_fails
    then returned f false (some follow_failed)
    else process_stream ch (record f { watch_manager = reset_pending f.watch_manager }) pending
        events

unfoldable pub connect_and_follow :
    (initial_result : ℕ) → Follower → (initial_pending : Bool) → Remote → List Received → Session
unfolding continue_with finish_initial_sync_wait
connect_and_follow ch f pending remote events =
    let primary = f.state.cluster.primary.node_id in
    if str_eq primary "" || str_eq primary f.node_id
    then returned (answered ch pending f none) pending none
    else follow_remote ch f pending remote events remote.node_state

-- What a round of `run` meets: whether the context is cancelled before the connection and during
-- the delay after it.
pub record Round : Type 0 where
  pub cancelled : Bool
  pub remote : Remote
  pub events : List Received
  pub cancelled_in_delay : Bool

-- The loop before its next round, in a stream that goes on, and when it has returned.
pub data Loop : Type 0 where
  looping streaming stopped : Follower → (initial_pending : Bool) → Loop
  dead : Loop

abbrev pub after_session : (cancelled_in_delay initial_pending : Bool) → Session → Loop
after_session cancelled pending (waiting f pending') = streaming f pending'
after_session cancelled pending crashed = dead
after_session cancelled pending (returned f delivered e) =
    if cancelled then stopped f (pending && not delivered) else looping f (pending && not delivered)

unfoldable pub run_round : (initial_result : ℕ) → Follower → (initial_pending : Bool) → Round → Loop
unfolding finish_initial_sync_wait connect_and_follow
run_round ch f pending r =
    if r.cancelled
    then stopped (answered ch pending f (some canceled)) false
    else after_session r.cancelled_in_delay pending
        (connect_and_follow ch f pending r.remote r.events)

unfoldable pub run_loop : (initial_result : ℕ) → Loop → List Round → Loop
unfolding run_round
run_loop ch loop [] = loop
run_loop ch (looping f pending) (r ∷ rs) = run_loop ch (run_round ch f pending r) rs
run_loop ch (streaming f pending) (r ∷ rs) = streaming f pending
run_loop ch (stopped f pending) (r ∷ rs) = stopped f pending
run_loop ch dead (r ∷ rs) = dead

-- Without an initial waiter nothing is pending, and the channel is not used.
abbrev pub begin_loop : Follower → List Round → (initial_result : Option ℕ) → Loop
begin_loop f rounds none = run_loop 0 (looping f false) rounds
begin_loop f rounds (some ch) = run_loop ch (looping f true) rounds

unfoldable pub run : Follower → List Round → Loop
unfolding run_loop
run f rounds = begin_loop f rounds f.initial_sync_waiter
