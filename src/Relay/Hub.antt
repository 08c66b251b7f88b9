-- ===== src/Relay/Hub.antt =====
-- The hub of internal/relay/production.go. A peer is a connection, which its number tells from the
-- others (Go compares pointers), and what changes of it, its queue and whether it was stopped, is a
-- function of the number. Each operation holds the mutex where it reads or writes the map of peers,
-- so the operations follow one another; a socket that sends its queue is not a step of the hub.
pub mod Disconnects
pub mod Routes
pub mod Registered
pub mod Runs
use openremotecode_api.Prelude.{
  ℕ, zero, suc, ◌+◌, Bool, true, false, ◌&&◌, ◌||◌, not, Option, some, none, List, [], ◌∷◌, ◌++◌,
  map, keep, ltb, nat_eq, length, if◌then◌else◌,
}
use openremotecode_api.Bytes.{Bytes, text, ◌==◌}
use openremotecode_api.Database.Rows.{any}
use openremotecode_api.Connectors.Types.{
  PublicIdentity, Admission, Revocation, Role, client, connector, other_role, is_connector, covers,
}

abbrev pub outbound_queue_capacity : ℕ
outbound_queue_capacity = 64

-- `securePeer`, without what changes
pub record Peer : Type 0 where
  pub number : ℕ
  pub admission : Admission
  pub user_id : Bytes
  pub role : Role
  pub key_id : Bytes
  pub hello : Bytes
  pub trusted : List Bytes

-- The queue `send`, and whether `done` is closed.
pub record Link : Type 0 where
  pub send : List Bytes
  pub done : Bool

-- `secureHub`, the map of peers as a list of them: each is stored under its own identifier. What the
-- runtime takes, of two cases of a `select` that are ready, is `chance 0` first and the rest after it.
pub record Hub : Type 0 where
  pub peers : List Peer
  pub links : ℕ → Link
  pub chance : ℕ → Bool

abbrev pub drawn : Hub → Hub
drawn hub = record hub { chance = λ n. hub.chance (suc n) }

-- `newSecurePeer`, of a hello that is serialized
unfoldable pub new_secure_peer : ℕ → Admission → Bytes → Peer
new_secure_peer number admission hello = record {
  number = number;
  admission = admission;
  user_id = admission.user_id;
  role = admission.role;
  key_id = admission.identity.key_id;
  hello = hello;
  trusted = map (λ (i : PublicIdentity). i.key_id) admission.trusted_identities;
}

abbrev pub secure_peer_id : Bytes → Bytes → Bytes
secure_peer_id user_id key_id = user_id ++ (b':' ∷ key_id)

abbrev pub id_of : Peer → Bytes
id_of p = secure_peer_id p.user_id p.key_id

abbrev pub same_role : Role → Role → Bool
same_role client client = true
same_role connector connector = true
same_role other_role other_role = true
same_role _ _ = false

unfoldable pub trusts : Peer → Bytes → Bool
trusts p key_id = any (λ k. k == key_id) p.trusted

-- `hub.peers[id]`
unfoldable pub registered_as : Bytes → List Peer → Option Peer
registered_as id [] = none
registered_as id (p ∷ l) = if id_of p == id then some p else registered_as id l

abbrev pub without : Bytes → List Peer → List Peer
without id l = keep (λ p. not (id_of p == id)) l

abbrev pub with_link : ℕ → Link → Hub → Hub
with_link n link hub = record hub { links = λ m. if nat_eq m n then link else hub.links m }

unfoldable pub stop : ℕ → Hub → Hub
stop n hub = with_link n (record (hub.links n) { done = true }) hub

abbrev pub push : ℕ → Bytes → Hub → Hub
push n message hub =
    with_link n (record (hub.links n) { send = (hub.links n).send ++ (message ∷ []) }) hub

-- A full queue ends the connection of a peer that is too slow. For a peer that was stopped and has
-- room, both cases of the `select` are ready, and the runtime takes either.
unfoldable pub enqueue : ℕ → Bytes → Hub → Bool × Hub
enqueue n message hub =
    let room = ltb (length (hub.links n).send) outbound_queue_capacity in
    if (hub.links n).done
    then if room && hub.chance 0 then (true, push n message (drawn hub)) else (false, drawn hub)
    else if room
    then (true, push n message hub)
    else (false, stop n hub)

unfoldable pub enqueue_all : List (ℕ × Bytes) → Hub → Hub
enqueue_all [] hub = hub
enqueue_all ((n, message) ∷ l) hub = enqueue_all l (enqueue n message hub).1

unfoldable pub stop_all : List Peer → Hub → Hub
stop_all [] hub = hub
stop_all (p ∷ l) hub = stop_all l (stop p.number hub)

-- Peers of one account, of different roles, that trust each other.
unfoldable pub partners : Peer → Peer → Bool
partners connected p =
    not (nat_eq p.number connected.number)
    && (p.user_id == connected.user_id)
    && not (same_role p.role connected.role)
    && trusts p connected.key_id
    && trusts connected p.key_id

-- Both sides of each pair are told of the other.
unfoldable pub greetings : Peer → List Peer → List (ℕ × Bytes)
greetings connected [] = []
greetings connected (p ∷ l) =
    let rest = greetings connected l in
    if partners connected p
    then (p.number, connected.hello) ∷ (connected.number, p.hello) ∷ rest
    else rest

abbrev pub stop_existing : Option Peer → Hub → Hub
stop_existing none hub = hub
stop_existing (some existing) hub = stop existing.number hub

unfoldable pub register : Peer → Hub → Hub
register connected hub =
    let peers = without (id_of connected) hub.peers ++ (connected ∷ []) in
    enqueue_all (greetings connected peers)
      (stop_existing (registered_as (id_of connected) hub.peers) (record hub { peers = peers }))

abbrev pub is_number : ℕ → Option Peer → Bool
is_number n none = false
is_number n (some p) = nat_eq p.number n

abbrev pub other_side : Role → Role
other_side role = if is_connector role then client else connector

-- The message of `json.Marshal`, of a type and a key identifier, is a parameter.
module _ (offline_message : Bytes → Bytes → Bytes) where
  unfoldable pub farewells : Peer → List Peer → List (ℕ × Bytes)
  farewells connected peers =
      let kind =
        if is_connector connected.role then text "connector.offline" else text "client.offline" in
      map (λ p. (p.number, offline_message kind connected.key_id))
        (keep
          (λ p.
            (p.user_id == connected.user_id)
            && same_role p.role (other_side connected.role)
            && trusts p connected.key_id)
          peers)

  unfoldable pub unregister : Peer → Hub → Hub
  unregister connected hub =
      if not (is_number connected.number (registered_as (id_of connected) hub.peers))
      then hub
      else let peers = without (id_of connected) hub.peers in
        enqueue_all (farewells connected peers) (record hub { peers = peers })

-- A recipient that is not connected loses the message; one that may not have it ends the sender.
abbrev pub route_to : Peer → Bytes → Option Peer → Hub → Bool × Hub
route_to sender message none hub = (true, hub)
route_to sender message (some recipient) hub =
    if same_role recipient.role sender.role || not (trusts recipient sender.key_id)
    then (false, hub)
    else (true, (enqueue recipient.number message hub).1)

unfoldable pub route : Peer → Bytes → Bytes → Hub → Bool × Hub
route sender recipient_key_id message hub =
    if not (trusts sender recipient_key_id)
    then (false, hub)
    else route_to sender message
        (registered_as (secure_peer_id sender.user_id recipient_key_id) hub.peers) hub

-- How many peers match, and the hub with them stopped.
unfoldable pub disconnect_where : (Admission → Bool) → Hub → ℕ × Hub
disconnect_where matches hub =
    let matched = keep (λ (p : Peer). matches p.admission) hub.peers in
    (length matched, stop_all matched hub)

-- `Hub.Disconnect`
unfoldable pub disconnect : Revocation → Hub → ℕ × Hub
disconnect revocation hub = disconnect_where (covers revocation) hub

-- `secureHub.close`
unfoldable pub shut : Hub → Hub
shut hub = stop_all hub.peers (record hub { peers = [] })
