-- ===== src/Replication/SessionLaws.antt =====
-- A session on a Follow stream keeps what each of its messages keeps.
use netsy.Base.{ℕ, Bool, true, false, Option, none, some, List, [], ◌∷◌, All, ◌&&◌}
use netsy.Replication.{Follower, PrimaryMessage, FollowError}
use netsy.Replication.Stream.{Outside, Handled, going, failed, panicked, handle}
use netsy.Replication.Lifecycle.{
  Session, waiting, returned, crashed, Received, message, eof, recv_error, receive, continue_with,
  after_message, answered, is_initial, finish_initial_sync_wait,
}
use netsy.Replication.StreamLaws.{OnHandled}

-- What holds of the follower of a session that goes on, and of one that has returned.
abbrev pub OnSession : (P R : Follower → Type 0) → Session → Type 0
OnSession P R (waiting f pending) = P f
OnSession P R (returned f delivered e) = R f
OnSession P R crashed = Unit

-- A predicate that an answer to the initial waiter leaves alone.
abbrev pub IsBlind : (Follower → Type 0) → Type 0
IsBlind P =
    (f : Follower) (w : Option ℕ) (a : List (ℕ × Option FollowError))
    → P f
    → P (record f { initial_sync_waiter = w; answers = a })

-- What is asked of the messages of the stream.
abbrev pub Allowed : (PrimaryMessage → Type 0) → Received → Type 0
Allowed Q (message msg o) = Q msg
Allowed Q eof = Unit
Allowed Q recv_error = Unit

module _ (P R : Follower → Type 0) (Q : PrimaryMessage → Type 0) (ch : ℕ) (blind_P : IsBlind P)
    (blind_R : IsBlind R) (weaken : (f : Follower) → P f → R f)
    (step : (f : Follower) (msg : PrimaryMessage) (o : Outside)
      → P f
      → Q msg
      → OnHandled P R (handle f msg o)) where
  answered-P :
      (T : Follower → Type 0)
      → IsBlind T
      → (b : Bool) (f : Follower) (e : Option FollowError) → T f
      → T (answered ch b f e)
  unfolding finish_initial_sync_wait
  answered-P T blind true f e h = blind f _ _ h
  answered-P T blind false f e h = h

  after_message-OnSession :
      (first pending : Bool) (out : Handled)
      → OnHandled P R out
      → OnSession P R (after_message ch first pending out)
  after_message-OnSession first pending (going f) h =
      answered-P P blind_P (first && pending) f none h
  after_message-OnSession first pending (failed f e) h =
      answered-P R blind_R (first && pending) f (some e) h
  after_message-OnSession first pending panicked h = tt

  receive-OnSession :
      (f : Follower) (pending : Bool) (r : Received)
      → P f
      → Allowed Q r
      → OnSession P R (receive ch f pending r)
  unfolding receive
  receive-OnSession f pending (message msg o) h q =
      after_message-OnSession (is_initial msg) pending (handle f msg o) (step f msg o h q)
  receive-OnSession f true eof h q = weaken f h
  receive-OnSession f false eof h q = weaken f h
  receive-OnSession f pending recv_error h q = weaken f h

  -- What one message keeps, a whole session keeps.
  pub continue_with-OnSession :
      (session : Session) (events : List Received)
      → OnSession P R session
      → All (Allowed Q) events
      → OnSession P R (continue_with ch session events)
  unfolding continue_with
  continue_with-OnSession session [] h q = h
  continue_with-OnSession (waiting f pending) (r ∷ rs) h q =
      continue_with-OnSession (receive ch f pending r) rs (receive-OnSession f pending r h q.0) q.1
  continue_with-OnSession (returned f delivered e) (r ∷ rs) h q = h
  continue_with-OnSession crashed (r ∷ rs) h q = tt
