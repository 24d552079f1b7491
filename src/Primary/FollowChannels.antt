-- ===== src/Primary/FollowChannels.antt =====
-- The channels of the Follow streams along one operation (follow.go).
use netsy.Base.{
  ℕ, ◌<◌, ◌≡◌, refl, ◌≢◌, Bool, true, false, not, Option, none, some, List, [], ◌∷◌, arith, All,
  sym, ◌∙◌, ◌==◌, if◌then◌else◌, Bool-cases, inl, inr, ltb, length,
}
use netsy.Primary.LeaderTxn.{Message}
use netsy.Primary.Follow.{
  Channel, FollowSession, Streams, in_front, close_channel, send_message, then_all, send_all,
  close_all, receive_next,
}

unfoldable pub is_open : ℕ → List Channel → Bool
is_open j [] = false
is_open j (c ∷ cs) = let rest = is_open j cs in if c.session == j then not c.closed else rest

-- After the call of a channel's operation: no panic, and which channels are open.
abbrev pub OnChannels : (List Channel → Type 0) → Option (List Channel) → Type 0
OnChannels P none = ⊥
OnChannels P (some cs) = P cs

-- The other channels are open as before.
abbrev pub Others : ℕ → List Channel → List Channel → Type 0
Others session before after = (j : ℕ) → session ≢ j → is_open j after ≡ is_open j before

in_front-Others :
    (session : ℕ) (c : Channel) (cs : List Channel) (out : Option (List Channel))
    → OnChannels (Others session cs) out
    → OnChannels (Others session (c ∷ cs)) (in_front c out)
unfolding is_open
in_front-Others session c cs none h = h
in_front-Others session c cs (some after) h = λ j differ. rw (h j differ) refl

pub close_channel-Others :
    (session : ℕ) (cs : List Channel)
    → is_open session cs ≡ true
    → OnChannels (Others session cs) (close_channel session cs)
unfolding is_open close_channel
close_channel-Others session [] h = cc
close_channel-Others session (c ∷ cs) h = elim (Bool-cases (c.session == session)) [
  | inl e ↦
      let opened : c.closed ≡ false = ground arith in simp (e, opened) (λ j differ. ground arith)
  | inr e ↦ simp e (
      in_front-Others session c cs (close_channel session cs)
        (close_channel-Others session cs (simp e at h)))
]

-- All channels are open as before.
abbrev Same : List Channel → List Channel → Type 0
Same before after = (j : ℕ) → is_open j after ≡ is_open j before

in_front-Same :
    (c : Channel) (cs : List Channel) (out : Option (List Channel))
    → OnChannels (Same cs) out
    → OnChannels (Same (c ∷ cs)) (in_front c out)
unfolding is_open
in_front-Same c cs none h = h
in_front-Same c cs (some after) h = λ j. rw (h j) refl

send_message-Same :
    (session : ℕ) (msg : Message) (cs : List Channel)
    → is_open session cs ≡ true
    → OnChannels (Same cs) (send_message session msg cs)
unfolding is_open send_message
send_message-Same session msg [] h = cc
send_message-Same session msg (c ∷ cs) h = elim (Bool-cases (c.session == session)) [
  | inl e ↦
      let opened : c.closed ≡ false = ground arith in
      elim (Bool-cases (ltb (length c.waiting) 256)) [
        | inl room ↦ simp (e, opened, room) (λ j. refl)
        | inr full ↦ simp (e, opened, full) (λ j. refl)
      ]
  | inr e ↦ simp e (
      in_front-Same c cs (send_message session msg cs)
        (send_message-Same session msg cs (simp e at h)))
]

pub receive_next-Same : (session : ℕ) (cs : List Channel) → Same cs (receive_next session cs)
unfolding is_open receive_next
receive_next-Same session [] j = refl
receive_next-Same session (c ∷ cs) j = let rest = receive_next-Same session cs j in ground arith

-- The entries of the map have open channels, one each.
abbrev pub Absent : ℕ → List FollowSession → Type 0
Absent session = All (λ (e : FollowSession). e.session ≢ session)

abbrev pub Separate : List FollowSession → Type 0
Separate [] = Unit
Separate (e ∷ es) = Absent e.session es × Separate es

abbrev pub AllOpen : List Channel → List FollowSession → Type 0
AllOpen cs = All (λ (e : FollowSession). is_open e.session cs ≡ true)

pub record IsSafe (f : Streams) : Type 0 where
  pub opened : AllOpen f.channels f.follow_streams
  pub separate : Separate f.follow_streams
  pub older : All (λ (e : FollowSession). e.session < f.next_session) f.follow_streams

pub AllOpen-Same :
    (before after : List Channel) (es : List FollowSession)
    → Same before after
    → AllOpen before es
    → AllOpen after es
AllOpen-Same before after [] h w = tt
AllOpen-Same before after (e ∷ es) h w = (h e.session ∙ w.0, AllOpen-Same before after es h w.1)

pub AllOpen-Others :
    (session : ℕ) (before after : List Channel) (es : List FollowSession)
    → Others session before after
    → Absent session es
    → AllOpen before es
    → AllOpen after es
AllOpen-Others session before after [] h absent w = tt
AllOpen-Others session before after (e ∷ es) h absent w = (
  h e.session (λ same. absent.0 (sym same)) ∙ w.0,
  AllOpen-Others session before after es h absent.1 w.1,
)

then_all-OnChannels :
    (P Q : List Channel → Type 0) (rest : List Channel → Option (List Channel))
    (out : Option (List Channel))
    → OnChannels P out
    → ((after : List Channel) → P after → OnChannels Q (rest after))
    → OnChannels Q (then_all rest out)
then_all-OnChannels P Q rest none h k = h
then_all-OnChannels P Q rest (some after) h k = k after h

-- All entries are sent to, and all are closed.
pub send_all-AllOpen :
    (es all : List FollowSession) (msg : Message) (cs : List Channel)
    → AllOpen cs es
    → AllOpen cs all
    → OnChannels (λ after. AllOpen after all) (send_all es msg cs)
unfolding send_all
send_all-AllOpen [] all msg cs w keep = keep
send_all-AllOpen (e ∷ es) all msg cs w keep =
    then_all-OnChannels (Same cs) (λ after. AllOpen after all) (send_all es msg)
      (send_message e.session msg cs) (send_message-Same e.session msg cs w.0)
      (λ after h.
        send_all-AllOpen es all msg after (AllOpen-Same cs after es h w.1)
          (AllOpen-Same cs after all h keep))

pub close_all-runs :
    (es : List FollowSession) (cs : List Channel)
    → AllOpen cs es
    → Separate es
    → OnChannels (λ after. Unit {0}) (close_all es cs)
unfolding close_all
close_all-runs [] cs w apart = tt
close_all-runs (e ∷ es) cs w apart =
    then_all-OnChannels (Others e.session cs) (λ after. Unit {0}) (close_all es)
      (close_channel e.session cs) (close_channel-Others e.session cs w.0)
      (λ after h.
        close_all-runs es after (AllOpen-Others e.session cs after es h apart.0 w.1) apart.1)
