-- ===== src/Relay/Hub/Disconnects.antt =====
-- Whom `Disconnect` of internal/relay/production.go stops.
use openremotecode_api.Prelude.{
  ℕ, ◌≡◌, ◌≢◌, refl, Bool, true, List, [], ◌∷◌, arith, keep, length, inl, inr, Bool-cases, subst,
  ◌∙◌,
}
use openremotecode_api.Database.Rows.{Among, Among-keep}
use openremotecode_api.Connectors.Types.{Revocation, covers}
use openremotecode_api.Relay.Hub.{Peer, Hub, stop, stop_all, disconnect_where, disconnect}

-- A stop ends one connection, and touches nothing else.
pub stop_done : (n : ℕ) (hub : Hub) → ((stop n hub).links n).done ≡ true
unfolding stop
stop_done n hub = ground arith

pub stop_keeps :
    (n m : ℕ) (hub : Hub) → (hub.links m).done ≡ true → ((stop n hub).links m).done ≡ true
unfolding stop
stop_keeps n m hub h = ground arith

pub stop_other : (n m : ℕ) (hub : Hub) → m ≢ n → (stop n hub).links m ≡ hub.links m
unfolding stop
stop_other n m hub h = ground arith

stop_all_keeps :
    (l : List Peer) (m : ℕ) (hub : Hub)
    → (hub.links m).done ≡ true
    → ((stop_all l hub).links m).done ≡ true
unfolding stop_all
stop_all_keeps [] m hub h = h
stop_all_keeps (p ∷ l) m hub h =
    stop_all_keeps l m (stop p.number hub) (stop_keeps p.number m hub h)

pub stop_all_done :
    (l : List Peer) (p : Peer) (hub : Hub)
    → Among p l
    → ((stop_all l hub).links p.number).done ≡ true
unfolding stop_all
stop_all_done [] p hub m = absurd m
stop_all_done (q ∷ l) p hub (inl e) = stop_all_keeps l p.number (stop q.number hub) (
    subst (λ (q : Peer). ((stop q.number hub).links p.number).done ≡ true) e
      (stop_done p.number hub))
stop_all_done (q ∷ l) p hub (inr m) = stop_all_done l p (stop q.number hub) m

stop_all_other :
    (l : List Peer) (n : ℕ) (hub : Hub)
    → ((q : Peer) → Among q l → n ≢ q.number)
    → (stop_all l hub).links n ≡ hub.links n
unfolding stop_all
stop_all_other [] n hub h = refl
stop_all_other (q ∷ l) n hub h =
    stop_all_other l n (stop q.number hub) (λ x m. h x (inr m))
    ∙ stop_other q.number n hub (h q (inl refl))

pub stop_all_peers : (l : List Peer) (hub : Hub) → (stop_all l hub).peers ≡ hub.peers
unfolding stop_all stop
stop_all_peers [] hub = refl
stop_all_peers (q ∷ l) hub = stop_all_peers l (stop q.number hub)

Among-kept :
    {A : Type 0} (p : A → Bool) (l : List A) (x : A) → Among x l → p x ≡ true → Among x (keep p l)
Among-kept p [] x m e = absurd m
Among-kept p (y ∷ l) x (inl q) e =
    let e' : p y ≡ true = subst (λ z. p z ≡ true) q e in rw e' (inl q)
Among-kept p (y ∷ l) x (inr m) e = elim (Bool-cases (p y)) [
  | inl h ↦ rw h (inr (Among-kept p l x m e))
  | inr h ↦ rw h (Among-kept p l x m e)
]

pub disconnect_done :
    (revocation : Revocation) (hub : Hub) (p : Peer)
    → Among p hub.peers
    → covers revocation p.admission ≡ true
    → ((disconnect revocation hub).1.links p.number).done ≡ true
unfolding disconnect disconnect_where
disconnect_done revocation hub p m e =
    let test : Peer → Bool = λ p. covers revocation p.admission in
    stop_all_done (keep test hub.peers) p hub (Among-kept test hub.peers p m e)

-- `Disconnect` stops every registered peer whose admission the revocation covers, and no other
-- connection: one that is not the connection of such a peer keeps its queue and its state. The peers
-- stay registered until their own loops end, and the number returned is that of the peers stopped.
pub disconnect_stops_covered :
    (revocation : Revocation) (hub : Hub) (p : Peer) (n : ℕ)
    → Among p hub.peers
    → covers revocation p.admission ≡ true
    → ((q : Peer) → Among q hub.peers → covers revocation q.admission ≡ true → n ≢ q.number)
    → (((disconnect revocation hub).1.links p.number).done ≡ true)
      × ((disconnect revocation hub).1.links n ≡ hub.links n)
      × ((disconnect revocation hub).1.peers ≡ hub.peers)
      × ((disconnect revocation hub).0
          ≡ length (keep (λ (p : Peer). covers revocation p.admission) hub.peers))
unfolding disconnect disconnect_where
disconnect_stops_covered revocation hub p n m e apart =
    let test : Peer → Bool = λ p. covers revocation p.admission in
    (
      stop_all_done (keep test hub.peers) p hub (Among-kept test hub.peers p m e),
      stop_all_other (keep test hub.peers) n hub
          (λ q m. let (a, b) = Among-keep test hub.peers q m in apart q a b),
      stop_all_peers (keep test hub.peers) hub,
      refl,
    )
