-- ===== src/PeerClient/Connections.antt =====
-- The connection of a node to its Primary (manager.go).
use netsy.Base.{
  String, ◌≡◌, refl, sym, ◌≢◌, ◌⊎◌, inl, inr, Bool, true, false, not, none, some, arith, ◌&&◌, ◌||◌,
  Bool-cases, str_eq, eq_iff,
}
use netsy.NodeState.{NodeInfo, ClusterState}
use netsy.PeerClient.{
  Manager, update_elector, update_primary, elector_turn, primary_turn, update_connections,
}

-- The connection to a Primary: none to the node itself or to a Primary without a node or an address,
-- and none or that of its address to any other.
abbrev pub IsConnected : Manager → NodeInfo → Type 0
IsConnected m primary =
    (m.primary_conn ≡ none)
    ⊎ ((m.primary_conn ≡ some primary.peer_advertise_addr)
        × (primary.node_id ≢ m.node_id)
        × (primary.node_id ≢ "")
        × (m.primary_addr ≡ primary.peer_advertise_addr))

str_eq-true : (a b : String) → str_eq a b ≡ true → a ≡ b
str_eq-true a b h = (eq_iff a b).0 h

pub str_eq-false : (a b : String) → str_eq a b ≡ false → a ≢ b
str_eq-false a b h same = let e = (eq_iff a b).1 same in cc

-- The address of the connection is that of the new Primary.
kept_connection :
    (m : Manager) (old primary : NodeInfo)
    → IsConnected m old
    → (primary.node_id ≡ m.node_id → m.primary_conn ≢ some primary.peer_advertise_addr)
    → primary.peer_advertise_addr ≡ m.primary_addr
    → primary.node_id ≢ ""
    → IsConnected m primary
kept_connection m old primary (inl gone) distinct same known = inl gone
kept_connection m old primary (inr (conn, other, there, addr)) distinct same known =
    let now : m.primary_conn ≡ some primary.peer_advertise_addr = rw (same, addr) conn in
    inr (now, λ self. distinct self now, known, sym same)

update_primary-IsConnected :
    (m : Manager) (old primary : NodeInfo) (fails : Bool)
    → IsConnected m old
    → (primary.node_id ≡ m.node_id → m.primary_conn ≢ some primary.peer_advertise_addr)
    → IsConnected (update_primary m primary fails) primary
unfolding update_primary
update_primary-IsConnected m old primary fails h distinct =
    elim (Bool-cases
      (str_eq primary.peer_advertise_addr m.primary_addr && not (str_eq primary.node_id ""))) [
        | inl e ↦ simp e (
            kept_connection m old primary h distinct (str_eq-true _ _ (ground arith))
              (str_eq-false _ _ (ground arith)))
        | inr e ↦ elim (Bool-cases (str_eq primary.node_id m.node_id)) [
          | inl self ↦ simp (e, self) (inl refl)
          | inr other ↦
              elim (Bool-cases
                (str_eq primary.peer_advertise_addr "" || str_eq primary.node_id "")) [
                  | inl none_there ↦ simp (e, other, none_there) (inl refl)
                  | inr there ↦ elim (Bool-cases fails) [
                    | inl f ↦ simp (e, other, there, f) (inl refl)
                    | inr f ↦
                        simp (e, other, there, f)
                          (inr
                            (refl, str_eq-false _ _ other, str_eq-false _ _ (ground arith), refl))
                  ]
                ]
        ]
      ]

-- What the turn of the Elector's connection leaves alone.
pub record SamePrimary (m m' : Manager) : Type 0 where
  pub conn : m'.primary_conn ≡ m.primary_conn
  pub addr : m'.primary_addr ≡ m.primary_addr
  pub id : m'.node_id ≡ m.node_id

pub elector_turn-SamePrimary :
    (m : Manager) (old cs : ClusterState) (fails : Bool)
    → SamePrimary m (elector_turn m old cs fails)
unfolding update_elector
elector_turn-SamePrimary m old cs fails = ground arith

pub SamePrimary-IsConnected :
    (m m' : Manager) (primary : NodeInfo)
    → SamePrimary m m'
    → IsConnected m primary
    → IsConnected m' primary
SamePrimary-IsConnected m m' primary e h = rw (e.conn, e.addr, e.id) h

primary_turn-IsConnected :
    (m : Manager) (old cs : ClusterState) (fails : Bool)
    → IsConnected m old.primary
    → (cs.primary.node_id ≡ m.node_id → m.primary_conn ≢ some cs.primary.peer_advertise_addr)
    → IsConnected (primary_turn m old cs fails) cs.primary
primary_turn-IsConnected m old cs fails h distinct =
    elim (Bool-cases (
      str_eq cs.primary.peer_advertise_addr old.primary.peer_advertise_addr
      && str_eq cs.primary.node_id old.primary.node_id)) [
        | inl e ↦
            let addr =
              str_eq-true cs.primary.peer_advertise_addr old.primary.peer_advertise_addr
                (ground arith) in
            let id = str_eq-true cs.primary.node_id old.primary.node_id (ground arith) in
            simp e (rw (addr, id) h)
        | inr e ↦ simp e (update_primary-IsConnected m old.primary cs.primary fails h distinct)
      ]

pub update_connections-IsConnected :
    (m : Manager) (old cs : ClusterState) (elector_fails primary_fails : Bool)
    → IsConnected m old.primary
    → (cs.primary.node_id ≡ m.node_id → m.primary_conn ≢ some cs.primary.peer_advertise_addr)
    → IsConnected (update_connections m old cs elector_fails primary_fails) cs.primary
unfolding update_connections
update_connections-IsConnected m old cs elector_fails primary_fails h distinct =
    let same = elector_turn-SamePrimary m old cs elector_fails in
    primary_turn-IsConnected (elector_turn m old cs elector_fails) old cs primary_fails
      (SamePrimary-IsConnected m _ old.primary same h) (rw (same.id, same.conn) distinct)
