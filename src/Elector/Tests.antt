-- ===== src/Elector/Tests.antt =====
-- An election in a concrete cluster, and the laws applied to it.
use std.Path.{subst}
use mathlib.Core.List.{Memᴰ}
use netsy.Base.{ℕ, ◌≤◌, ◌≡◌, ◌⊎◌, refl, String, true, none, some, List, [], ◌∷◌, All, arith, negsuc}
use netsy.NodeState.{healthy, replica}
use netsy.Primary.Quorum.{contains}
use netsy.Primary.Receipts.{NoRepeat, AllIn}
use netsy.Elector.Election.{
  Candidate, Entry, none_known, ok, contacted, filter_candidates, is_active, is_healthy,
  choose_primary, elect_primary_once,
}
use netsy.Elector.ElectionLaws.{IsElected, choose_primary_lem}
use netsy.Elector.MajorityLaws.{Answers, elect_primary_once-majority}

abbrev node : String → (latest : ℕ) → Candidate
node id latest = record {
  info = record { node_id = id; member_id = 1; peer_advertise_addr = "a:1" };
  health_state = healthy;
  primary_state = replica;
  latest_revision = latest;
  start_time = 1;
}

-- Two of three nodes hold revision 5, and one of them answers.
abbrev entries : List Entry
entries =
    record { from_map = node "n1" 5; contact = none }
    ∷ record { from_map = node "n2" 5; contact = some (node "n2" 5) }
    ∷ record { from_map = node "n3" 4; contact = some (node "n3" 4) }
    ∷ []

abbrev answers : List Candidate
answers = node "n2" 5 ∷ node "n3" 4 ∷ []

chosen : choose_primary answers ≡ ok (node "n2" 5)
unfolding choose_primary
chosen = refl

choose_primary_lem_example : IsElected answers (node "n2" 5)
choose_primary_lem_example = choose_primary_lem answers (node "n2" 5) chosen

elected : elect_primary_once none_known (negsuc 0) entries ≡ ok (node "n2" 5)
unfolding elect_primary_once
elected = refl

ids_once : NoRepeat ("n1" ∷ "n2" ∷ "n3" ∷ [])
unfolding contains
ids_once = (refl, (refl, (refl, tt)))

holders_once : NoRepeat ("n1" ∷ "n2" ∷ [])
unfolding contains
holders_once = (refl, (refl, tt))

holders_known : AllIn ("n1" ∷ "n2" ∷ []) ("n1" ∷ "n2" ∷ "n3" ∷ [])
unfolding contains
holders_known = (refl, (refl, tt))

all_answer : All Answers entries
all_answer = (λ c h. cc, (λ c h. ground (arith, h), (λ c h. ground (arith, h), tt)))

holders_fresh :
    (d : Candidate)
    → Memᴰ d answers
    → contains d.info.node_id ("n1" ∷ "n2" ∷ []) ≡ true
    → (is_healthy d ≡ true) × (5 ≤ d.latest_revision)
unfolding contains
holders_fresh d (Memᴰ.head e) held = ground (arith, e)
holders_fresh d (Memᴰ.tail (Memᴰ.head e)) held =
    let no_holder : contains "n3" ("n1" ∷ "n2" ∷ []) ≡ true =
      subst (λ (c : Candidate). contains c.info.node_id ("n1" ∷ "n2" ∷ []) ≡ true) e held in
    cc
holders_fresh d (Memᴰ.tail (Memᴰ.tail m)) held = elim m [ ]

elect_primary_once-majority_example :
    (filter_candidates is_active (contacted entries) ≡ node "n2" 5 ∷ []) ⊎ (5 ≤ 5)
unfolding contacted
elect_primary_once-majority_example =
    elect_primary_once-majority none_known entries ("n1" ∷ "n2" ∷ []) 5 (node "n2" 5) ids_once
      all_answer holders_once holders_known (omega arith) holders_fresh elected
