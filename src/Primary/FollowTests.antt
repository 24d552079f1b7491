-- ===== src/Primary/FollowTests.antt =====
-- A Replica that connects again: its first session is closed, and the removal of that one does nothing.
use netsy.Base.{◌≡◌, refl, true, false, some, List, [], ◌∷◌}
use netsy.Primary.LeaderTxn.{commit_message}
use netsy.Primary.Follow.{Streams, no_streams, Call, adds, removes, broadcasts, receives, call_all}
use netsy.Primary.FollowChannels.{IsSafe}
use netsy.Primary.FollowLaws.{OnStreams, call_all-IsSafe}

abbrev calls : List Call
calls =
    adds "n2"
    ∷ broadcasts (commit_message 1)
    ∷ adds "n2"
    ∷ broadcasts (commit_message 2)
    ∷ removes "n2" 0
    ∷ receives 0
    ∷ []

abbrev left : Streams
left = record {
  follow_streams = record { node_id = "n2"; session = 1 } ∷ [];
  channels =
      record { session = 1; waiting = commit_message 2 ∷ []; closed = false }
      ∷ record { session = 0; waiting = []; closed = true }
      ∷ [];
  next_session = 2;
}

replaced : call_all calls no_streams ≡ some left
unfolding call_all
replaced = refl

call_all-IsSafe_example : OnStreams IsSafe (call_all calls no_streams)
call_all-IsSafe_example =
    call_all-IsSafe calls no_streams (record { opened = tt; separate = tt; older = tt })
