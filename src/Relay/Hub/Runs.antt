-- ===== src/Relay/Hub/Runs.antt =====
-- Runs of the hub of internal/relay/production.go, against a directory of who is connected.
use openremotecode_api.Prelude.{
  ◌≡◌, ◌≢◌, arith, refl, true, false, ◌&&◌, keep, Option, some, none, List, [], ◌∷◌, inl, inr,
  Bool-cases, if◌then◌else◌, sym, ap, ◌∙◌,
}
use openremotecode_api.Bytes.{Bytes, ◌==◌, eq_sound, eq_iff}
use openremotecode_api.Connectors.Types.{Revocation, covers}
use openremotecode_api.Relay.Hub.{
  Peer, Hub, id_of, registered_as, register, unregister, route, disconnect, disconnect_where, shut,
  is_number, without,
}
use openremotecode_api.Relay.Hub.Disconnects.{stop_all_peers}
use openremotecode_api.Relay.Hub.Registered.{
  register-own, register-other, unregister-stale, unregister-peers, registered-without,
  registered-without_other,
}
use openremotecode_api.Relay.Hub.Routes.{route_reaches_only_trusted}

-- What the handlers, and the revocations, ask of the hub.
pub data Command : Type 0 where
  registers : Peer → Command
  unregisters : Peer → Command
  routes : Peer → Bytes → Bytes → Command
  disconnects : Revocation → Command
  shuts : Command

-- Who is connected, by identifier.
abbrev pub Directory : Type 0
Directory = Bytes → Option Peer

abbrev pub directory : Hub → Directory
directory hub id = registered_as id hub.peers

-- What each command does to the directory, whatever the hub holds besides.
unfoldable pub specified : Command → Directory → Directory
specified (registers p) d id = if id_of p == id then some p else d id
specified (unregisters p) d id =
    if is_number p.number (d (id_of p)) && (id_of p == id) then none else d id
specified (routes _ _ _) d id = d id
specified (disconnects _) d id = d id
specified shuts d id = none

unfoldable pub specified_run : List Command → Directory → Directory
specified_run [] d = d
specified_run (c ∷ l) d = specified_run l (specified c d)

apart_of : (a b : Bytes) → (a == b) ≡ false → b ≢ a
apart_of a b h e = let same : true ≡ false = sym ((eq_iff a b).1 (sym e)) ∙ h in ground arith

specified-registers :
    (p : Peer) (hub : Hub) (id : Bytes)
    → directory (register p hub) id ≡ specified (registers p) (directory hub) id
unfolding specified
specified-registers p hub id = elim (Bool-cases (id_of p == id)) [
  | inl e ↦
      rw e (ap (directory (register p hub)) (sym (eq_sound (id_of p) id e)) ∙ register-own p hub)
  | inr e ↦ rw e (register-other p hub id (apart_of (id_of p) id e))
]

module _ (offline_message : Bytes → Bytes → Bytes) where
  unfoldable pub perform : Command → Hub → Hub
  perform (registers p) hub = register p hub
  perform (unregisters p) hub = unregister offline_message p hub
  perform (routes sender key message) hub = (route sender key message hub).1
  perform (disconnects revocation) hub = (disconnect revocation hub).1
  perform shuts hub = shut hub

  unfoldable pub perform_all : List Command → Hub → Hub
  perform_all [] hub = hub
  perform_all (c ∷ l) hub = perform_all l (perform c hub)

  specified-unregisters :
      (p : Peer) (hub : Hub) (id : Bytes)
      → directory (unregister offline_message p hub) id
        ≡ specified (unregisters p) (directory hub) id
  unfolding specified
  specified-unregisters p hub id =
      elim (Bool-cases (is_number p.number (registered_as (id_of p) hub.peers))) [
        | inl e ↦ elim (Bool-cases (id_of p == id)) [
          | inl same ↦
              rw (e, same)
                (ap (registered_as id) (unregister-peers offline_message p hub e)
                  ∙ ap (λ i. registered_as id (without i hub.peers)) (eq_sound (id_of p) id same)
                  ∙ registered-without id hub.peers)
          | inr other ↦
              rw (e, other)
                (ap (registered_as id) (unregister-peers offline_message p hub e)
                  ∙ registered-without_other (id_of p) id hub.peers (apart_of (id_of p) id other))
        ]
        | inr e ↦
            rw e (
              ap (λ (h : Hub). registered_as id h.peers) (unregister-stale offline_message p hub e))
      ]

  specified-perform :
      (c : Command) (hub : Hub) → directory (perform c hub) ≡ specified c (directory hub)
  unfolding perform specified disconnect disconnect_where shut registered_as
  specified-perform (registers p) hub i id = specified-registers p hub id i
  specified-perform (unregisters p) hub i id = specified-unregisters p hub id i
  specified-perform (routes sender key message) hub i id =
      registered_as id ((route_reaches_only_trusted sender key message hub 0).1 i)
  specified-perform (disconnects revocation) hub i id =
      registered_as id
        (stop_all_peers (keep (λ (p : Peer). covers revocation p.admission) hub.peers) hub i)
  specified-perform shuts hub i id =
      registered_as id (stop_all_peers hub.peers (record hub { peers = [] }) i)

  -- The hub refines a directory: after any run of commands, the peer that it holds under each identifier
  -- is the one that the directory gives, where a registration sets an entry, an `unregister` clears the
  -- entry only if it is of that very connection, the closing of the hub clears them all, and a message
  -- or a revocation changes none.
  pub hub_refines_directory :
      (l : List Command) (hub : Hub)
      → directory (perform_all l hub) ≡ specified_run l (directory hub)
  unfolding perform_all specified_run
  hub_refines_directory [] hub = refl
  hub_refines_directory (c ∷ l) hub =
      hub_refines_directory l (perform c hub) ∙ ap (specified_run l) (specified-perform c hub)
