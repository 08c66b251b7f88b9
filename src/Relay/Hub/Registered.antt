-- ===== src/Relay/Hub/Registered.antt =====
-- Which peers `register` and `unregister` of internal/relay/production.go leave registered, and the
-- length of the queues.
use openremotecode_api.Prelude.{
  ℕ, ◌≡◌, ◌≢◌, refl, true, false, Option, some, none, List, [], ◌∷◌, ◌++◌, arith, nat_eq,
  nat_eq_iff, inl, inr, Bool-cases, if◌then◌else◌, sym, subst, ap, ◌∙◌,
}
use openremotecode_api.Bytes.{Bytes, ◌==◌, eq_sound, eq_refl}
use openremotecode_api.Relay.Hub.{
  Peer, Hub, id_of, registered_as, without, stop, enqueue, enqueue_all, greetings, register,
  unregister, farewells, is_number, stop_existing,
}
use openremotecode_api.Relay.Hub.Disconnects.{stop_done}

pub eq_refuted : (a b : Bytes) → a ≢ b → (a == b) ≡ false
eq_refuted a b h = elim (Bool-cases (a == b)) [ inl e ↦ absurd (h (eq_sound a b e)) | inr e ↦ e ]

number_refuted : (a b : ℕ) → b ≢ a → nat_eq a b ≡ false
number_refuted a b h = elim (Bool-cases (nat_eq a b)) [
  | inl e ↦ absurd (h (sym ((nat_eq_iff a b).0 e)))
  | inr e ↦ e
]

pub registered-without : (id : Bytes) (l : List Peer) → registered_as id (without id l) ≡ none
unfolding registered_as
registered-without id [] = refl
registered-without id (p ∷ l) = elim (Bool-cases (id_of p == id)) [
  | inl h ↦ rw h (registered-without id l)
  | inr h ↦ rw h (rw h (registered-without id l))
]

pub registered-without_other :
    (id other : Bytes) (l : List Peer)
    → other ≢ id
    → registered_as other (without id l) ≡ registered_as other l
unfolding registered_as
registered-without_other id other [] h = refl
registered-without_other id other (p ∷ l) h = elim (Bool-cases (id_of p == id)) [
  | inl e ↦
      let apart : (id_of p == other) ≡ false =
        eq_refuted (id_of p) other (λ q. h (sym q ∙ eq_sound (id_of p) id e)) in
      rw (e, apart) (registered-without_other id other l h)
  | inr e ↦ rw (e, registered-without_other id other l h) refl
]

registered-append_own :
    (l : List Peer) (p : Peer)
    → registered_as (id_of p) l ≡ none
    → registered_as (id_of p) (l ++ (p ∷ [])) ≡ some p
unfolding registered_as
registered-append_own [] p h = rw (eq_refl (id_of p)) refl
registered-append_own (q ∷ l) p h = elim (Bool-cases (id_of q == id_of p)) [
  | inl e ↦ cc
  | inr e ↦ rw e (
      registered-append_own l p
        (subst (λ b. (if b then some q else registered_as (id_of p) l) ≡ none) e h))
]

registered-append_other :
    (id : Bytes) (l : List Peer) (p : Peer)
    → id ≢ id_of p
    → registered_as id (l ++ (p ∷ [])) ≡ registered_as id l
unfolding registered_as
registered-append_other id [] p h = rw (eq_refuted (id_of p) id (λ q. h (sym q))) refl
registered-append_other id (q ∷ l) p h = rw (registered-append_other id l p h) refl

pub enqueue-peers :
    (n : ℕ) (message : Bytes) (hub : Hub) → (enqueue n message hub).1.peers ≡ hub.peers
unfolding enqueue stop
enqueue-peers n message hub = ground arith

enqueue-Keeps_done :
    (n m : ℕ) (message : Bytes) (hub : Hub)
    → (hub.links m).done ≡ true
    → ((enqueue n message hub).1.links m).done ≡ true
unfolding enqueue stop
enqueue-Keeps_done n m message hub h = ground arith

enqueue_all-peers : (l : List (ℕ × Bytes)) (hub : Hub) → (enqueue_all l hub).peers ≡ hub.peers
unfolding enqueue_all
enqueue_all-peers [] hub = refl
enqueue_all-peers ((n, message) ∷ l) hub =
    enqueue_all-peers l (enqueue n message hub).1 ∙ enqueue-peers n message hub

enqueue_all-Keeps_done :
    (l : List (ℕ × Bytes)) (m : ℕ) (hub : Hub)
    → (hub.links m).done ≡ true
    → ((enqueue_all l hub).links m).done ≡ true
unfolding enqueue_all
enqueue_all-Keeps_done [] m hub h = h
enqueue_all-Keeps_done ((n, message) ∷ l) m hub h =
    enqueue_all-Keeps_done l m (enqueue n message hub).1 (enqueue-Keeps_done n m message hub h)

stop_existing-peers : (o : Option Peer) (hub : Hub) → (stop_existing o hub).peers ≡ hub.peers
unfolding stop
stop_existing-peers none hub = refl
stop_existing-peers (some p) hub = refl

register-peers :
    (connected : Peer) (hub : Hub)
    → (register connected hub).peers ≡ without (id_of connected) hub.peers ++ (connected ∷ [])
unfolding register
register-peers connected hub =
    let peers = without (id_of connected) hub.peers ++ (connected ∷ []) in
    enqueue_all-peers (greetings connected peers)
      (stop_existing (registered_as (id_of connected) hub.peers) (record hub { peers = peers }))
    ∙ stop_existing-peers (registered_as (id_of connected) hub.peers) (record hub { peers = peers })

register-stops :
    (connected existing : Peer) (hub : Hub)
    → registered_as (id_of connected) hub.peers ≡ some existing
    → ((register connected hub).links existing.number).done ≡ true
unfolding register
register-stops connected existing hub e =
    let peers = without (id_of connected) hub.peers ++ (connected ∷ []) in
    rw e (
      enqueue_all-Keeps_done (greetings connected peers) existing.number
        (stop existing.number (record hub { peers = peers }))
        (stop_done existing.number (record hub { peers = peers })))

pub register-own :
    (connected : Peer) (hub : Hub)
    → registered_as (id_of connected) (register connected hub).peers ≡ some connected
register-own connected hub =
    let id = id_of connected in
    ap (registered_as id) (register-peers connected hub)
    ∙ registered-append_own (without id hub.peers) connected (registered-without id hub.peers)

pub register-other :
    (connected : Peer) (hub : Hub) (id : Bytes)
    → id ≢ id_of connected
    → registered_as id (register connected hub).peers ≡ registered_as id hub.peers
register-other connected hub id h =
    ap (registered_as id) (register-peers connected hub)
    ∙ registered-append_other id (without (id_of connected) hub.peers) connected h
    ∙ registered-without_other (id_of connected) id hub.peers h

-- A peer that registers is the one under its identifier, the connection it replaces there is stopped,
-- and under every other identifier the same peer stays.
pub register_replaces :
    (connected existing : Peer) (hub : Hub) (id : Bytes)
    → registered_as (id_of connected) hub.peers ≡ some existing
    → id ≢ id_of connected
    → (registered_as (id_of connected) (register connected hub).peers ≡ some connected)
      × (((register connected hub).links existing.number).done ≡ true)
      × (registered_as id (register connected hub).peers ≡ registered_as id hub.peers)
register_replaces connected existing hub id found h = (
  register-own connected hub,
  register-stops connected existing hub found,
  register-other connected hub id h,
)

module _ (offline_message : Bytes → Bytes → Bytes) where
  pub unregister-stale :
      (p : Peer) (hub : Hub)
      → is_number p.number (registered_as (id_of p) hub.peers) ≡ false
      → unregister offline_message p hub ≡ hub
  unfolding unregister
  unregister-stale p hub e = rw e refl

  pub unregister-peers :
      (p : Peer) (hub : Hub)
      → is_number p.number (registered_as (id_of p) hub.peers) ≡ true
      → (unregister offline_message p hub).peers ≡ without (id_of p) hub.peers
  unfolding unregister
  unregister-peers p hub e =
      let peers = without (id_of p) hub.peers in
      rw e (enqueue_all-peers (farewells offline_message p peers) (record hub { peers = peers }))

  -- After a connection registers, another connection of the same identity, which it replaced, can
  -- unregister without any effect: the replacement stays registered and nobody is told that the peer
  -- went offline. When the replacement unregisters, nobody is left under its identifier, and under every
  -- other identifier the peer is the one that was there at first.
  pub unregister_is_guarded :
      (existing connected : Peer) (hub : Hub) (id : Bytes)
      → id_of existing ≡ id_of connected
      → existing.number ≢ connected.number
      → id ≢ id_of connected
      → (unregister offline_message existing (register connected hub) ≡ register connected hub)
        × (registered_as
              (id_of connected)
              (unregister offline_message connected (register connected hub)).peers
            ≡ none)
        × (registered_as id (unregister offline_message connected (register connected hub)).peers
            ≡ registered_as id hub.peers)
  unregister_is_guarded existing connected hub id same apart h =
      let own = register-own connected hub in
      let next = register connected hub in
      let left =
        unregister-peers connected next
          (rw own ((nat_eq_iff connected.number connected.number).1 refl)) in
      (
        unregister-stale existing next
            (rw (same, own) (number_refuted connected.number existing.number apart)),
        ap (registered_as (id_of connected)) left ∙ registered-without (id_of connected) next.peers,
        ap (registered_as id) left
            ∙ registered-without_other (id_of connected) id next.peers h
            ∙ register-other connected hub id h,
      )
