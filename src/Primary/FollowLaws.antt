-- ===== src/Primary/FollowLaws.antt =====
-- The calls of the Follow streams (follow.go).
use netsy.Base.{
  ℕ, suc, ◌<◌, ◌≡◌, refl, ◌≢◌, String, true, false, not, Option, none, some, List, [], ◌∷◌, arith,
  All, sym, ◌==◌, Bool-cases, inl, inr, str_eq, select-All,
}
use netsy.Primary.Follow.{
  Channel, FollowSession, Streams, close_channel, lookup_stream, without_stream, with_new,
  close_old, add_follow_stream, with_channels, remove_found, remove_follow_stream,
  broadcast_to_followers, reset_follow_streams, Call, adds, removes, broadcasts, resets, receives,
  call, and_calls, call_all,
}
use netsy.Primary.FollowChannels.{
  is_open, OnChannels, Others, close_channel-Others, receive_next-Same, Absent, Separate, AllOpen,
  IsSafe, AllOpen-Same, AllOpen-Others, send_all-AllOpen, close_all-runs,
}

-- The calls.
abbrev pub OnStreams : (Streams → Type 0) → Option Streams → Type 0
OnStreams P none = ⊥
OnStreams P (some f) = P f

without-All :
    (P : FollowSession → Type 0) (node_id : String) (es : List FollowSession)
    → All P es
    → All P (without_stream node_id es)
without-All P node_id es h =
    select-All P (λ (e : FollowSession). not (str_eq e.node_id node_id)) es h

without-Separate :
    (node_id : String) (es : List FollowSession)
    → Separate es
    → Separate (without_stream node_id es)
without-Separate node_id [] h = tt
without-Separate node_id (e ∷ es) h =
    let rest = without-Separate node_id es h.1 in
    elim (Bool-cases (str_eq e.node_id node_id)) [
      | inl same ↦ simp same rest
      | inr other ↦
          simp other
            (without-All (λ (q : FollowSession). q.session ≢ e.session) node_id es h.0, rest)
    ]

found_All :
    (P : ℕ → Type 0) (node_id : String) (es : List FollowSession) (session : ℕ)
    → lookup_stream node_id es ≡ some session
    → All (λ (e : FollowSession). P e.session) es
    → P session
unfolding lookup_stream
found_All P node_id [] session h all = cc
found_All P node_id (e ∷ es) session h all = elim (Bool-cases (str_eq e.node_id node_id)) [
  | inl same ↦ let it : e.session ≡ session = ground arith in rw (sym it) (all.0)
  | inr other ↦ found_All P node_id es session (simp other at h) all.1
]

found-Absent :
    (node_id : String) (es : List FollowSession) (session : ℕ)
    → lookup_stream node_id es ≡ some session
    → Separate es
    → Absent session (without_stream node_id es)
unfolding lookup_stream
found-Absent node_id [] session h apart = tt
found-Absent node_id (e ∷ es) session h apart = elim (Bool-cases (str_eq e.node_id node_id)) [
  | inl same ↦
      let it : e.session ≡ session = ground arith in
      simp same (
        without-All (λ (q : FollowSession). q.session ≢ session) node_id es (rw (sym it) (apart.0)))
  | inr other ↦
      let there : lookup_stream node_id es ≡ some session = simp other at h in
      simp other (
        (λ same. found_All (λ n. n ≢ e.session) node_id es session there apart.0 (sym same)),
        found-Absent node_id es session there apart.1,
      )
]

on_channels :
    (P Q : List Channel → Type 0) (out : Option (List Channel))
    → OnChannels P out
    → ((after : List Channel) → P after → Q after)
    → OnChannels Q out
on_channels P Q none h k = h
on_channels P Q (some after) h k = k after h

with_channels-OnStreams :
    (f : Streams) (es : List FollowSession) (out : Option (List Channel))
    (P : List Channel → Type 0) (Q : Streams → Type 0)
    → OnChannels P out
    → ((cs : List Channel) → P cs → Q (record f { follow_streams = es; channels = cs }))
    → OnStreams Q (with_channels f es out)
with_channels-OnStreams f es none P Q h k = h
with_channels-OnStreams f es (some cs) P Q h k = k cs h

newer-AllOpen :
    (next : ℕ) (cs : List Channel) (es : List FollowSession)
    → All (λ (e : FollowSession). e.session < next) es
    → AllOpen cs es
    → AllOpen (record { session = next; waiting = []; closed = false } ∷ cs) es
unfolding is_open
newer-AllOpen next cs [] older w = tt
newer-AllOpen next cs (e ∷ es) older w =
    let open_before = w.0 in
    let below = older.0 in (ground arith, newer-AllOpen next cs es older.1 w.1)

older-Absent :
    (next : ℕ) (es : List FollowSession)
    → All (λ (e : FollowSession). e.session < next) es
    → Absent next es
older-Absent next [] h = tt
older-Absent next (e ∷ es) h = (λ same. omega (arith, h.0, same), older-Absent next es h.1)

older-suc :
    (next : ℕ) (es : List FollowSession)
    → All (λ (e : FollowSession). e.session < next) es
    → All (λ (e : FollowSession). e.session < suc next) es
older-suc next [] h = tt
older-suc next (e ∷ es) h = (omega (arith, h.0), older-suc next es h.1)

module _ (f : Streams) (w : IsSafe f) (node_id : String) where
  close_old-AllOpen :
      (old : Option ℕ)
      → lookup_stream node_id f.follow_streams ≡ old
      → OnChannels
          (λ after. AllOpen after (without_stream node_id f.follow_streams))
          (close_old f.channels old)
  close_old-AllOpen none h =
      without-All (λ (e : FollowSession). is_open e.session f.channels ≡ true) node_id
        f.follow_streams w.opened
  close_old-AllOpen (some session) h =
      on_channels (Others session f.channels)
        (λ after. AllOpen after (without_stream node_id f.follow_streams))
        (close_channel session f.channels)
        (close_channel-Others session f.channels (
          found_All (λ n. is_open n f.channels ≡ true) node_id f.follow_streams session h w.opened))
        (λ after others.
          AllOpen-Others session f.channels after (without_stream node_id f.follow_streams) others
            (found-Absent node_id f.follow_streams session h w.separate)
            (without-All (λ (e : FollowSession). is_open e.session f.channels ≡ true) node_id
              f.follow_streams w.opened))

  remaining-IsSafe :
      (cs : List Channel)
      → AllOpen cs (without_stream node_id f.follow_streams)
      → IsSafe
          (record f { follow_streams = without_stream node_id f.follow_streams; channels = cs })
  remaining-IsSafe cs h = record {
    opened = h;
    separate = without-Separate node_id f.follow_streams w.separate;
    older =
        without-All (λ (e : FollowSession). e.session < f.next_session) node_id f.follow_streams
          w.older;
  }

  with_new-IsSafe :
      (out : Option (List Channel))
      → OnChannels (λ after. AllOpen after (without_stream node_id f.follow_streams)) out
      → OnStreams IsSafe (with_new f node_id out)
  unfolding is_open
  with_new-IsSafe none h = h
  with_new-IsSafe (some cs) h =
      let left = remaining-IsSafe cs h in
      record {
        opened = (ground arith, newer-AllOpen f.next_session cs _ left.older h);
        separate = (older-Absent f.next_session _ left.older, left.separate);
        older = (omega arith, older-suc f.next_session _ left.older);
      }

  pub add-IsSafe : OnStreams IsSafe (add_follow_stream f node_id)
  unfolding add_follow_stream
  add-IsSafe = with_new-IsSafe _ (close_old-AllOpen (lookup_stream node_id f.follow_streams) refl)

  remove_found-IsSafe :
      (session : ℕ) (found : Option ℕ)
      → lookup_stream node_id f.follow_streams ≡ found
      → OnStreams IsSafe (remove_found f node_id session found)
  remove_found-IsSafe session none h = w
  remove_found-IsSafe session (some current) h = elim (Bool-cases (current == session)) [
    | inr e ↦ simp e w
    | inl e ↦ simp e (
        with_channels-OnStreams f _ _ _ IsSafe (close_old-AllOpen (some current) h)
          remaining-IsSafe)
  ]

  pub remove-IsSafe : (session : ℕ) → OnStreams IsSafe (remove_follow_stream f node_id session)
  unfolding remove_follow_stream
  remove-IsSafe session = remove_found-IsSafe session _ refl

-- Any call.
call-IsSafe : (f : Streams) (c : Call) → IsSafe f → OnStreams IsSafe (call f c)
unfolding call broadcast_to_followers reset_follow_streams
call-IsSafe f (adds node_id) w = add-IsSafe f w node_id
call-IsSafe f (removes node_id session) w = remove-IsSafe f w node_id session
call-IsSafe f (broadcasts msg) w =
    with_channels-OnStreams f f.follow_streams _ (λ after. AllOpen after f.follow_streams) IsSafe
      (send_all-AllOpen f.follow_streams f.follow_streams msg f.channels w.opened w.opened)
      (λ cs h. record { opened = h; separate = w.separate; older = w.older })
call-IsSafe f resets w =
    with_channels-OnStreams f [] _ (λ after. Unit {0}) IsSafe
      (close_all-runs f.follow_streams f.channels w.opened w.separate)
      (λ cs h. record { opened = tt; separate = tt; older = tt })
call-IsSafe f (receives session) w = record {
  opened =
      AllOpen-Same f.channels _ f.follow_streams (receive_next-Same session f.channels) w.opened;
  separate = w.separate;
  older = w.older;
}

and_calls-OnStreams :
    (rest : Streams → Option Streams) (out : Option Streams)
    → OnStreams IsSafe out
    → ((f : Streams) → IsSafe f → OnStreams IsSafe (rest f))
    → OnStreams IsSafe (and_calls rest out)
and_calls-OnStreams rest none h k = h
and_calls-OnStreams rest (some f) h k = k f h

-- Whatever calls come to the Follow streams, in whatever order, and whatever sessions the removals
-- name: from a state in which the map's entries have open channels of their own none of them panics,
-- so no channel is closed twice or sent on after it was closed; and the state stays such a one.
pub call_all-IsSafe :
    (calls : List Call) (f : Streams) → IsSafe f → OnStreams IsSafe (call_all calls f)
unfolding call_all
call_all-IsSafe [] f w = w
call_all-IsSafe (c ∷ cs) f w =
    and_calls-OnStreams (call_all cs) (call f c) (call-IsSafe f c w) (call_all-IsSafe cs)
