-- ===== src/Primary/Follow.antt =====
-- The Primary's side of the Follow streams: the sessions and their channels (follow.go of
-- internal/primary). Each call holds `followMu`, so a run is a sequence of calls. A session is a number,
-- which stands for its pointer and for its channel; a panic of the runtime is `none`.
use netsy.Base.{
  ℕ, suc, String, Bool, true, false, not, Option, none, some, List, [], ◌∷◌, ◌++◌, ltb, ◌==◌,
  if◌then◌else◌, length, str_eq, select, drop,
}
use netsy.Primary.LeaderTxn.{Message}

-- A channel with what waits in it, the oldest first.
pub record Channel : Type 0 where
  pub session : ℕ
  pub waiting : List Message
  pub closed : Bool

-- An entry of the map `followStreams`.
pub record FollowSession : Type 0 where
  pub node_id : String
  pub session : ℕ

-- The map, the channels that were ever made, the newest first, and the next session.
pub record Streams : Type 0 where
  pub follow_streams : List FollowSession
  pub channels : List Channel
  pub next_session : ℕ

abbrev pub no_streams : Streams
no_streams = record { follow_streams = []; channels = []; next_session = 0 }

abbrev pub stream_buffer_size : ℕ
stream_buffer_size = 256

abbrev pub in_front : Channel → Option (List Channel) → Option (List Channel)
in_front c none = none
in_front c (some cs) = some (c ∷ cs)

-- `close`, which panics on a channel that is closed or nil.
unfoldable pub close_channel : (session : ℕ) → List Channel → Option (List Channel)
close_channel session [] = none
close_channel session (c ∷ cs) =
    let rest = in_front c (close_channel session cs) in
    if c.session == session
    then if c.closed then none else some (record c { closed = true } ∷ cs)
    else rest

-- The send of `broadcastToFollowers`: it panics on a closed channel, and if the buffer is full the
-- message is dropped.
unfoldable pub send_message : (session : ℕ) → Message → List Channel → Option (List Channel)
send_message session msg [] = none
send_message session msg (c ∷ cs) =
    let rest = in_front c (send_message session msg cs) in
    if c.session == session
    then if c.closed
      then none
      else if ltb (length c.waiting) stream_buffer_size
      then some (record c { waiting = c.waiting ++ (msg ∷ []) } ∷ cs)
      else some (c ∷ cs)
    else rest

unfoldable pub lookup_stream : (node_id : String) → List FollowSession → Option ℕ
lookup_stream node_id [] = none
lookup_stream node_id (e ∷ es) =
    let rest = lookup_stream node_id es in if str_eq e.node_id node_id then some e.session else rest

abbrev pub without_stream : (node_id : String) → List FollowSession → List FollowSession
without_stream node_id es = select (λ (e : FollowSession). not (str_eq e.node_id node_id)) es

abbrev pub with_new : Streams → (node_id : String) → Option (List Channel) → Option Streams
with_new f node_id none = none
with_new f node_id (some cs) = some (record {
  follow_streams =
      record { node_id = node_id; session = f.next_session }
      ∷ without_stream node_id f.follow_streams;
  channels = record { session = f.next_session; waiting = []; closed = false } ∷ cs;
  next_session = suc f.next_session;
})

abbrev pub close_old : List Channel → Option ℕ → Option (List Channel)
close_old cs none = some cs
close_old cs (some session) = close_channel session cs

unfoldable pub add_follow_stream : Streams → (node_id : String) → Option Streams
unfolding close_channel lookup_stream
add_follow_stream f node_id =
    with_new f node_id (close_old f.channels (lookup_stream node_id f.follow_streams))

abbrev pub with_channels : Streams → List FollowSession → Option (List Channel) → Option Streams
with_channels f es none = none
with_channels f es (some cs) = some (record f { follow_streams = es; channels = cs })

abbrev pub remove_found : Streams → (node_id : String) → (session : ℕ) → Option ℕ → Option Streams
remove_found f node_id session none = some f
remove_found f node_id session (some current) =
    if current == session
    then with_channels f (without_stream node_id f.follow_streams)
        (close_channel current f.channels)
    else some f

unfoldable pub remove_follow_stream : Streams → (node_id : String) → (session : ℕ) → Option Streams
unfolding close_channel lookup_stream
remove_follow_stream f node_id session =
    remove_found f node_id session (lookup_stream node_id f.follow_streams)

abbrev pub then_all :
    (List Channel → Option (List Channel)) → Option (List Channel) → Option (List Channel)
then_all rest none = none
then_all rest (some cs) = rest cs

unfoldable pub send_all : List FollowSession → Message → List Channel → Option (List Channel)
unfolding send_message
send_all [] msg cs = some cs
send_all (e ∷ es) msg cs = then_all (send_all es msg) (send_message e.session msg cs)

unfoldable pub broadcast_to_followers : Streams → Message → Option Streams
unfolding send_all
broadcast_to_followers f msg =
    with_channels f f.follow_streams (send_all f.follow_streams msg f.channels)

unfoldable pub close_all : List FollowSession → List Channel → Option (List Channel)
unfolding close_channel
close_all [] cs = some cs
close_all (e ∷ es) cs = then_all (close_all es) (close_channel e.session cs)

unfoldable pub reset_follow_streams : Streams → Option Streams
unfolding close_all
reset_follow_streams f = with_channels f [] (close_all f.follow_streams f.channels)

-- The receive of `followSendLoop`.
unfoldable pub receive_next : (session : ℕ) → List Channel → List Channel
receive_next session [] = []
receive_next session (c ∷ cs) =
    let rest = receive_next session cs in
    if c.session == session then record c { waiting = drop 1 c.waiting } ∷ cs else c ∷ rest

-- The calls, with what `Follow` calls them with.
pub data Call : Type 0 where
  adds : (node_id : String) → Call
  removes : (node_id : String) → (session : ℕ) → Call
  broadcasts : Message → Call
  resets : Call
  receives : (session : ℕ) → Call

unfoldable pub call : Streams → Call → Option Streams
unfolding add_follow_stream remove_follow_stream broadcast_to_followers reset_follow_streams
    receive_next
call f (adds node_id) = add_follow_stream f node_id
call f (removes node_id session) = remove_follow_stream f node_id session
call f (broadcasts msg) = broadcast_to_followers f msg
call f resets = reset_follow_streams f
call f (receives session) = some (record f { channels = receive_next session f.channels })

abbrev pub and_calls : (Streams → Option Streams) → Option Streams → Option Streams
and_calls rest none = none
and_calls rest (some f) = rest f

unfoldable pub call_all : List Call → Streams → Option Streams
unfolding call
call_all [] f = some f
call_all (c ∷ cs) f = and_calls (call_all cs) (call f c)
