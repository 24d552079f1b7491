-- ===== src/Replication/SoundLoop.antt =====
-- The revisions of the table along the loop of a follower.
use netsy.Base.{
  ℕ, Bool, true, false, Option, none, some, List, [], ◌∷◌, All, inl, inr, ◌||◌, Bool-cases, str_eq,
}
use netsy.NodeState.{PrimaryState, replica, primary_eq}
use netsy.Replication.{Follower, PrimaryMessage, FollowError, canceled}
use netsy.Replication.Lifecycle.{
  Received, message, eof, recv_error, Session, waiting, returned, crashed, Remote, Round, Loop,
  looping, streaming, stopped, dead, start, stop, run, run_loop, run_round, answered, after_session,
  connect_and_follow, follow_remote, finish_initial_sync_wait, answer_waiter, begin_loop,
}
use netsy.Replication.StreamLaws.{cancel-Rest}
use netsy.Replication.SessionLaws.{OnSession, Allowed, continue_with-OnSession}
use netsy.Replication.Sound.{HasSound, Rest-HasSound, handle-HasSound}

abbrev OnStream : Session → Type 0
OnStream = OnSession HasSound HasSound

any_message : (events : List Received) → All (Allowed (λ (msg : PrimaryMessage). Unit {0})) events
any_message [] = tt
any_message (message msg o ∷ rs) = (tt, any_message rs)
any_message (eof ∷ rs) = (tt, any_message rs)
any_message (recv_error ∷ rs) = (tt, any_message rs)

abbrev pub OnLoop : Loop → Type 0
OnLoop (looping f pending) = HasSound f
OnLoop (streaming f pending) = HasSound f
OnLoop (stopped f pending) = HasSound f
OnLoop dead = Unit

after_session-OnLoop :
    (cancelled pending : Bool) (session : Session)
    → OnStream session
    → OnLoop (after_session cancelled pending session)
after_session-OnLoop cancelled pending (waiting f p) h = h
after_session-OnLoop true pending (returned f delivered e) h = h
after_session-OnLoop false pending (returned f delivered e) h = h
after_session-OnLoop cancelled pending crashed h = tt

module _ (ch : ℕ) where
  answered-HasSound :
      (b : Bool) (f : Follower) (e : Option FollowError) → HasSound f → HasSound (answered ch b f e)
  unfolding finish_initial_sync_wait
  answered-HasSound true f e w = w
  answered-HasSound false f e w = w

  follow_remote-OnStream :
      (f : Follower) (pending : Bool) (remote : Remote) (events : List Received)
      (node_state : Option PrimaryState)
      → HasSound f
      → OnStream (follow_remote ch f pending remote events node_state)
  follow_remote-OnStream f pending remote events none w = w
  follow_remote-OnStream f pending remote events (some s) w =
      elim (Bool-cases (primary_eq s replica)) [
        | inl e ↦ simp e w
        | inr acting ↦ elim (Bool-cases remote.connected) [
          | inr e ↦ simp (acting, e) w
          | inl there ↦ elim (Bool-cases remote.follow_fails) [
            | inl e ↦ simp (acting, there, e) w
            | inr open_stream ↦
                simp (acting, there, open_stream)
                  (continue_with-OnSession HasSound HasSound (λ msg. Unit {0}) ch (λ g a b h. h)
                    (λ g a b h. h) (λ g h. h) (λ g msg o h q. handle-HasSound g msg o h) _ events w
                    (any_message events))
          ]
        ]
      ]

  connect-OnStream :
      (f : Follower) (pending : Bool) (remote : Remote) (events : List Received)
      → HasSound f
      → OnStream (connect_and_follow ch f pending remote events)
  unfolding connect_and_follow
  connect-OnStream f pending remote events w =
      let primary = f.state.cluster.primary.node_id in
      elim (Bool-cases (str_eq primary "" || str_eq primary f.node_id)) [
        | inr other ↦
            simp other (follow_remote-OnStream f pending remote events remote.node_state w)
        | inl none_needed ↦ simp none_needed (answered-HasSound pending f none w)
      ]

  run_loop-OnLoop :
      (rounds : List Round) (loop : Loop) → OnLoop loop → OnLoop (run_loop ch loop rounds)
  unfolding run_loop run_round
  run_loop-OnLoop [] loop w = w
  run_loop-OnLoop (r ∷ rs) (looping f pending) w =
      run_loop-OnLoop rs _ (elim (Bool-cases r.cancelled) [
        | inl e ↦ simp e (answered-HasSound pending f (some canceled) w)
        | inr e ↦ simp e (
            after_session-OnLoop r.cancelled_in_delay pending _
              (connect-OnStream f pending r.remote r.events w))
      ])
  run_loop-OnLoop (r ∷ rs) (streaming f pending) w = w
  run_loop-OnLoop (r ∷ rs) (stopped f pending) w = w
  run_loop-OnLoop (r ∷ rs) dead w = tt

begin_loop-OnLoop :
    (f : Follower) (rounds : List Round) (ch : Option ℕ)
    → HasSound f
    → OnLoop (begin_loop f rounds ch)
begin_loop-OnLoop f rounds none w = run_loop-OnLoop 0 rounds (looping f false) w
begin_loop-OnLoop f rounds (some ch) w = run_loop-OnLoop ch rounds (looping f true) w

pub run-OnLoop_sound : (f : Follower) (rounds : List Round) → HasSound f → OnLoop (run f rounds)
unfolding run
run-OnLoop_sound f rounds w = begin_loop-OnLoop f rounds f.initial_sync_waiter w

pub start-HasSound : (f : Follower) → HasSound f → HasSound (start f).0
unfolding start
start-HasSound f w = elim (Bool-cases f.cancel) [
  | inl e ↦ simp e w
  | inr e ↦ elim (Bool-cases f.require_initial_sync) [
    | inl r ↦ simp (e, r) w
    | inr r ↦ simp (e, r) w
  ]
]

answer_waiter-HasSound :
    (f : Follower) (ch : Option ℕ) (e : Option FollowError)
    → HasSound f
    → HasSound (answer_waiter f ch e)
unfolding finish_initial_sync_wait
answer_waiter-HasSound f none e w = w
answer_waiter-HasSound f (some ch) e w = w

pub stop-HasSound : (f : Follower) → HasSound f → HasSound (stop f)
unfolding stop
stop-HasSound f w = elim (Bool-cases f.cancel) [
  | inr e ↦ simp e w
  | inl e ↦ simp e (
      answer_waiter-HasSound _ f.initial_sync_waiter (some canceled) (
        Rest-HasSound (record f { cancel = false; initial_sync_waiter = none }) _ (cancel-Rest _)
          w))
]
