-- ===== src/Replication/AnswerLaws.antt =====
-- The answers of a follower along its streams and its loop (follower.go).
use netsy.Base.{
  ℕ, ◌+◌, ◌≡◌, refl, Bool, true, false, not, Option, none, some, List, [], ◌∷◌, arith, inl, inr,
  ◌&&◌, ◌||◌, Bool-cases, if◌then◌else◌, str_eq,
}
use netsy.NodeState.{PrimaryState, primary_eq, replica}
use netsy.Replication.{Follower, FollowError, canceled}
use netsy.Replication.Stream.{Handled, going, failed, panicked, handle}
use netsy.Replication.Lifecycle.{
  Session, waiting, returned, crashed, Received, message, eof, recv_error, receive, continue_with,
  after_message, answered, is_initial, finish_initial_sync_wait, Remote, follow_remote,
  connect_and_follow, Round, Loop, looping, streaming, stopped, dead, after_session, run_round,
  run_loop, run,
}
use netsy.Replication.StreamLaws.{OnLeft}
use netsy.Replication.Answers.{count_answers, handle-Same}

failed_flag :
    (began first pending : Bool)
    → pending && not began ≡ false
    → (not first && pending) ≡ (began && not (first || not pending))
failed_flag began first pending h = ground arith

-- In a stream `pending` only falls.
eof_flag : (began : Bool) → true && not began ≡ false → (began && not false) ≡ true
eof_flag began h = ground arith

module _ (ch n : ℕ) where
  -- The channel has had its answer unless it is pending.
  abbrev pub Owed : Follower → Bool → Type 0
  Owed f pending = count_answers ch f.answers ≡ n + (if pending then 0 else 1)

  abbrev OnStream : (began : Bool) → Session → Type 0
  OnStream began (waiting f pending) = Owed f pending × (pending && not began ≡ false)
  OnStream began (returned f delivered e) = Owed f (began && not delivered)
  OnStream began crashed = Unit

  answered-Owed :
      (f : Follower) (first pending : Bool) (e : Option FollowError)
      → Owed f pending
      → Owed (answered ch (first && pending) f e) (not first && pending)
  unfolding finish_initial_sync_wait count_answers
  answered-Owed f true true e h = ground arith
  answered-Owed f true false e h = h
  answered-Owed f false pending e h = h

  after_message-OnStream :
      (began first pending : Bool) (a : List (ℕ × Option FollowError)) (out : Handled)
      → count_answers ch a ≡ n + (if pending then 0 else 1)
      → pending && not began ≡ false
      → OnLeft (λ g. g.answers ≡ a) out
      → OnStream began (after_message ch first pending out)
  after_message-OnStream began first pending a (going f) h b same =
      (answered-Owed f first pending none (rw same h), ground arith)
  after_message-OnStream began first pending a (failed f e) h b same =
      rw (← failed_flag began first pending b) (answered-Owed f first pending (some e) (rw same h))
  after_message-OnStream began first pending a panicked h b same = tt

  receive-OnStream :
      (began : Bool) (f : Follower) (pending : Bool) (r : Received)
      → Owed f pending
      → pending && not began ≡ false
      → OnStream began (receive ch f pending r)
  unfolding receive
  receive-OnStream began f pending (message msg o) h b =
      after_message-OnStream began (is_initial msg) pending f.answers (handle f msg o) h b
        (handle-Same f.answers f msg o refl)
  receive-OnStream began f true eof h b = rw (eof_flag began b) h
  receive-OnStream true f false eof h b = h
  receive-OnStream false f false eof h b = h
  receive-OnStream true f true recv_error h b = h
  receive-OnStream true f false recv_error h b = h
  receive-OnStream false f true recv_error h b = cc
  receive-OnStream false f false recv_error h b = h

  continue_with-OnStream :
      (began : Bool) (session : Session) (events : List Received)
      → OnStream began session
      → OnStream began (continue_with ch session events)
  unfolding continue_with
  continue_with-OnStream began session [] h = h
  continue_with-OnStream began (waiting f pending) (r ∷ rs) h =
      continue_with-OnStream began (receive ch f pending r) rs
        (receive-OnStream began f pending r h.0 h.1)
  continue_with-OnStream began (returned f delivered e) (r ∷ rs) h = h
  continue_with-OnStream began crashed (r ∷ rs) h = tt

  not_delivered : (f : Follower) (pending : Bool) → Owed f pending → Owed f (pending && not false)
  not_delivered f true h = h
  not_delivered f false h = h

  -- A caller for whom no stream is needed is answered.
  skipped :
      (f : Follower) (pending : Bool)
      → Owed f pending
      → Owed (answered ch pending f none) (pending && not pending)
  unfolding finish_initial_sync_wait count_answers
  skipped f true h = ground arith
  skipped f false h = h

  follow_remote-OnStream :
      (f : Follower) (pending : Bool) (remote : Remote) (events : List Received)
      (node_state : Option PrimaryState)
      → Owed f pending
      → OnStream pending (follow_remote ch f pending remote events node_state)
  follow_remote-OnStream f pending remote events none h = not_delivered f pending h
  follow_remote-OnStream f pending remote events (some s) h =
      let still = not_delivered f pending h in
      elim (Bool-cases (primary_eq s replica)) [
        | inl e ↦ simp e still
        | inr acting ↦ elim (Bool-cases remote.connected) [
          | inr e ↦ simp (acting, e) still
          | inl there ↦ elim (Bool-cases remote.follow_fails) [
            | inl e ↦ simp (acting, there, e) still
            | inr open_stream ↦
                simp (acting, there, open_stream)
                  (continue_with-OnStream pending _ events (h, ground arith))
          ]
        ]
      ]

  connect-OnStream :
      (f : Follower) (pending : Bool) (remote : Remote) (events : List Received)
      → Owed f pending
      → OnStream pending (connect_and_follow ch f pending remote events)
  unfolding connect_and_follow
  connect-OnStream f pending remote events h =
      let primary = f.state.cluster.primary.node_id in
      elim (Bool-cases (str_eq primary "" || str_eq primary f.node_id)) [
        | inr other ↦
            simp other (follow_remote-OnStream f pending remote events remote.node_state h)
        | inl none_needed ↦ simp none_needed (skipped f pending h)
      ]

  abbrev pub OnLoop : Loop → Type 0
  OnLoop (looping f pending) = Owed f pending
  OnLoop (streaming f pending) = Owed f pending
  OnLoop (stopped f pending) = Owed f pending
  OnLoop dead = Unit

  after_session-OnLoop :
      (cancelled pending : Bool) (session : Session)
      → OnStream pending session
      → OnLoop (after_session cancelled pending session)
  after_session-OnLoop cancelled pending (waiting f p) h = h.0
  after_session-OnLoop true pending (returned f delivered e) h = h
  after_session-OnLoop false pending (returned f delivered e) h = h
  after_session-OnLoop cancelled pending crashed h = tt

  stopped_early :
      (f : Follower) (pending : Bool)
      → Owed f pending
      → Owed (answered ch pending f (some canceled)) false
  unfolding finish_initial_sync_wait count_answers
  stopped_early f true h = ground arith
  stopped_early f false h = h

  run_loop-OnLoop :
      (loop : Loop) (rounds : List Round) → OnLoop loop → OnLoop (run_loop ch loop rounds)
  unfolding run_loop run_round
  run_loop-OnLoop loop [] h = h
  run_loop-OnLoop (looping f pending) (r ∷ rs) h =
      run_loop-OnLoop (run_round ch f pending r) rs (elim (Bool-cases r.cancelled) [
        | inl e ↦ simp e (stopped_early f pending h)
        | inr e ↦ simp e (
            after_session-OnLoop r.cancelled_in_delay pending _
              (connect-OnStream f pending r.remote r.events h))
      ])
  run_loop-OnLoop (streaming f pending) (r ∷ rs) h = h
  run_loop-OnLoop (stopped f pending) (r ∷ rs) h = h
  run_loop-OnLoop dead (r ∷ rs) h = tt

-- The loop of a follower answers the caller of a bootstrap start once, or not yet: whatever comes on
-- its streams, however many of them fail, and whenever the context is cancelled, its channel has one
-- answer more than before if no result is owed any more, and as many as before if it is.
pub run-OnLoop :
    (f : Follower) (ch : ℕ) (rounds : List Round)
    → f.initial_sync_waiter ≡ some ch
    → OnLoop ch (count_answers ch f.answers) (run f rounds)
unfolding run
run-OnLoop f ch rounds h =
    simp h (run_loop-OnLoop ch (count_answers ch f.answers) (looping f true) rounds (omega arith))
