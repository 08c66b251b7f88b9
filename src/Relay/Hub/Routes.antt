-- ===== src/Relay/Hub/Routes.antt =====
-- Whom `route` of internal/relay/production.go reaches.
use openremotecode_api.Prelude.{
  ℕ, ◌≡◌, ◌≢◌, refl, Bool, true, false, not, Option, some, none, arith, nat_eq_iff, inl, inr,
  Bool-cases, ◌⊎◌, ◌||◌, sym, nat_eq,
}
use openremotecode_api.Bytes.{Bytes}
use openremotecode_api.Relay.Hub.{
  Peer, Hub, trusts, same_role, secure_peer_id, registered_as, stop, enqueue, route, route_to,
}
use openremotecode_api.Relay.Hub.Registered.{enqueue-peers}

enqueue-other :
    (n m : ℕ) (message : Bytes) (hub : Hub)
    → m ≢ n
    → (enqueue n message hub).1.links m ≡ hub.links m
unfolding enqueue stop
enqueue-other n m message hub h = ground arith

-- The peer of the sender's account that is registered under a key, if the two trust each other and
-- have different roles.
pub Reachable : Peer → Bytes → Peer → Hub → Type 0
Reachable sender key recipient hub =
    (registered_as (secure_peer_id sender.user_id key) hub.peers ≡ some recipient)
    × (trusts sender key ≡ true)
    × (trusts recipient sender.key_id ≡ true)
    × (same_role recipient.role sender.role ≡ false)

reach :
    (sender : Peer) (key : Bytes) (p : Peer) (hub : Hub)
    → registered_as (secure_peer_id sender.user_id key) hub.peers ≡ some p
    → trusts sender key ≡ true
    → trusts p sender.key_id ≡ true
    → same_role p.role sender.role ≡ false
    → Reachable sender key p hub
unfolding Reachable
reach sender key p hub a b c d = (a, b, c, d)

number_apart : (a b : ℕ) → nat_eq a b ≡ false → a ≢ b
number_apart a b h = ground arith

refused_parts : (a b : Bool) → (a || not b) ≡ false → (a ≡ false) × (b ≡ true)
refused_parts a b h = ground arith

route_to-other :
    (sender : Peer) (message : Bytes) (o : Option Peer) (hub : Hub) (n : ℕ)
    → ((route_to sender message o hub).1.links n ≡ hub.links n)
      ⊎ ((p : Peer) × (o ≡ some p)
          × (p.number ≡ n)
          × (trusts p sender.key_id ≡ true)
          × (same_role p.role sender.role ≡ false))
route_to-other sender message none hub n = inl refl
route_to-other sender message (some p) hub n =
    elim (Bool-cases (same_role p.role sender.role || not (trusts p sender.key_id))) [
      | inl e ↦ inl (rw e refl)
      | inr e ↦
          let (apart, trusted) =
            refused_parts (same_role p.role sender.role) (trusts p sender.key_id) e in
          elim (Bool-cases (nat_eq p.number n)) [
            | inl same ↦ inr (p, refl, (nat_eq_iff p.number n).0 same, trusted, apart)
            | inr other ↦ inl (
                rw e (
                  enqueue-other p.number n message hub
                    (λ q. number_apart p.number n other (sym q))))
          ]
    ]

route_to-peers :
    (sender : Peer) (message : Bytes) (o : Option Peer) (hub : Hub)
    → ((route_to sender message o hub).1.peers ≡ hub.peers)
      × (((route_to sender message o hub).0 ≡ true) ⊎ ((route_to sender message o hub).1 ≡ hub))
route_to-peers sender message none hub = (refl, inl refl)
route_to-peers sender message (some p) hub =
    elim (Bool-cases (same_role p.role sender.role || not (trusts p sender.key_id))) [
      | inl e ↦ rw e (refl, inr refl)
      | inr e ↦ rw e (enqueue-peers p.number message hub, inl refl)
    ]

-- `route` changes the connection of nobody but the one peer of the sender's account that is registered
-- under the recipient's key, has the other role, and trusts the sender as the sender trusts it.
-- Every other connection keeps its queue and its state, and the same peers stay registered. A message
-- that is refused changes nothing at all.
pub route_reaches_only_trusted :
    (sender : Peer) (key message : Bytes) (hub : Hub) (n : ℕ)
    → (((route sender key message hub).1.links n ≡ hub.links n)
        ⊎ ((recipient : Peer) × Reachable sender key recipient hub × (recipient.number ≡ n)))
      × ((route sender key message hub).1.peers ≡ hub.peers)
      × (((route sender key message hub).0 ≡ true) ⊎ ((route sender key message hub).1 ≡ hub))
unfolding route
route_reaches_only_trusted sender key message hub n =
    let found = registered_as (secure_peer_id sender.user_id key) hub.peers in
    elim (Bool-cases (trusts sender key)) [
      | inl e ↦
          let changed : ((route_to sender message found hub).1.links n ≡ hub.links n)
              ⊎ ((recipient : Peer) × Reachable sender key recipient hub × (recipient.number ≡ n)) =
            elim (route_to-other sender message found hub n) [
              | inl q ↦ inl q
              | inr (p, o, number, trusted, apart) ↦
                  inr (p, reach sender key p hub o e trusted apart, number)
            ] in
          let (peers, unchanged) = route_to-peers sender message found hub in
          rw e (changed, peers, unchanged)
      | inr e ↦ rw e (inl refl, refl, inr refl)
    ]
