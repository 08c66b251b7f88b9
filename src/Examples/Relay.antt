-- ===== src/Examples/Relay.antt =====
-- The results on the hub at a client and a connector of one account that trust each other.
use openremotecode_api.Prelude.{
  ℕ, zero, suc, ◌≡◌, ◌≢◌, ◌⊎◌, refl, true, false, arith, ap, ◌∙◌, inl, inr, some, none, List, [],
  ◌∷◌,
}
use openremotecode_api.Bytes.{Bytes, text, ◌==◌}
use openremotecode_api.Database.Rows.{Among}
use openremotecode_api.Connectors.Types.{
  PublicIdentity, Admission, Revocation, Role, client, connector, covers,
}
use openremotecode_api.Relay.Hub.{
  Peer, Hub, new_secure_peer, id_of, registered_as, register, unregister, route, disconnect,
  enqueue, enqueue_all, greetings, partners, trusts,
}
use openremotecode_api.Relay.Hub.Disconnects.{disconnect_stops_covered}
use openremotecode_api.Relay.Hub.Registered.{register_replaces, unregister_is_guarded}
use openremotecode_api.Relay.Hub.Runs.{
  Command, registers, unregisters, routes, disconnects, directory, specified, specified_run,
  perform_all, hub_refines_directory,
}
use openremotecode_api.Relay.Hub.Routes.{Reachable, route_reaches_only_trusted}

abbrev identity : Bytes → PublicIdentity
identity key = record {
  version = 1;
  suite = text "suite";
  key_id = key;
  public_key = text "public";
}

abbrev pub admission : Role → Bytes → Bytes → Admission
admission role own other = record {
  user_id = text "user";
  role = role;
  subject_id = own;
  session_id = text "session";
  identity = identity own;
  trusted_identities = identity other ∷ [];
  authorization_expires_at = 60;
}

abbrev browser : ℕ → Peer
browser n = new_secure_peer n (admission client (text "c") (text "k")) (text "hello")

abbrev computer : Peer
computer = new_secure_peer 2 (admission connector (text "k") (text "c")) (text "here")

abbrev pub empty_hub : Hub
empty_hub = record {
  peers = [];
  links = λ _. record { send = []; done = false };
  chance = λ _. false;
}

-- A hub with one connection, of the admission.
abbrev pub connected_as : Admission → Peer
connected_as a = new_secure_peer 1 a (text "hello")

abbrev pub hub_of : Admission → Hub
hub_of a = record empty_hub { peers = connected_as a ∷ [] }

abbrev hub : Hub
hub = register (browser 1) (register computer empty_hub)

abbrev revocation : Revocation
revocation = record { user_id = text "user"; connector_id = []; device_id = []; session_id = [] }

offline : Bytes → Bytes → Bytes
offline kind key = kind

-- Each of the two is told of the other.
hub_greets : (hub.links 1).send ≡ (text "here" ∷ [])
unfolding register new_secure_peer greetings partners trusts enqueue enqueue_all registered_as
    openremotecode_api.Bytes.◌==◌ openremotecode_api.Database.Rows.any
hub_greets = refl

hub_routes :
    ((route (browser 1) (text "k") (text "hi") hub).1.links 2).send
    ≡ (text "hello" ∷ text "hi" ∷ [])
unfolding route register new_secure_peer greetings partners trusts enqueue enqueue_all registered_as
    openremotecode_api.Bytes.◌==◌ openremotecode_api.Database.Rows.any
hub_routes = refl

one_is_not_three : (suc zero) ≢ 3
one_is_not_three e = ground arith

abbrev IsThree : ℕ → Type 0
IsThree n = 3 ≡ n

all_covered : (q : Peer) → Among q hub.peers → covers revocation q.admission ≡ true → 3 ≢ q.number
unfolding register new_secure_peer greetings partners trusts enqueue enqueue_all registered_as
    openremotecode_api.Bytes.◌==◌ openremotecode_api.Database.Rows.any covers
all_covered q (inl e) _ same =
    let n : IsThree 2 = same ∙ ap (λ (q : Peer). q.number) e in ground arith
all_covered q (inr (inl e)) _ same =
    let n : IsThree 1 = same ∙ ap (λ (q : Peer). q.number) e in ground arith
all_covered q (inr (inr m)) _ same = absurd m

disconnect_stops_covered_example :
    (((disconnect revocation hub).1.links 1).done ≡ true)
    × ((disconnect revocation hub).1.links 3 ≡ hub.links 3)
    × ((disconnect revocation hub).1.peers ≡ hub.peers)
    × ((disconnect revocation hub).0 ≡ 2)
unfolding register new_secure_peer greetings partners trusts enqueue enqueue_all registered_as
    openremotecode_api.Bytes.◌==◌ openremotecode_api.Database.Rows.any covers
disconnect_stops_covered_example =
    disconnect_stops_covered revocation hub (browser 1) 3 (inr (inl refl)) refl all_covered

other_id : (text "user:k") ≢ id_of (browser 3)
unfolding new_secure_peer ◌==◌
other_id e = let same : true ≡ false = ap (λ s. s == text "user:k") e in ground arith

register_replaces_example :
    (registered_as (id_of (browser 3)) (register (browser 3) hub).peers ≡ some (browser 3))
    × (((register (browser 3) hub).links 1).done ≡ true)
    × (registered_as (text "user:k") (register (browser 3) hub).peers
        ≡ registered_as (text "user:k") hub.peers)
unfolding register new_secure_peer greetings partners trusts enqueue enqueue_all registered_as
    openremotecode_api.Bytes.◌==◌ openremotecode_api.Database.Rows.any
register_replaces_example =
    register_replaces (browser 3) (browser 1) hub (text "user:k") refl other_id

unregister_is_guarded_example :
    (unregister offline (browser 1) (register (browser 3) hub) ≡ register (browser 3) hub)
    × (registered_as
          (id_of (browser 3))
          (unregister offline (browser 3) (register (browser 3) hub)).peers
        ≡ none)
    × (registered_as
          (text "user:k")
          (unregister offline (browser 3) (register (browser 3) hub)).peers
        ≡ registered_as (text "user:k") hub.peers)
unfolding new_secure_peer
unregister_is_guarded_example =
    unregister_is_guarded offline (browser 1) (browser 3) hub (text "user:k") refl one_is_not_three
      other_id

route_reaches_only_trusted_example :
    (((route (browser 1) (text "k") (text "hi") hub).1.links 2 ≡ hub.links 2)
      ⊎ ((recipient : Peer) × Reachable (browser 1) (text "k") recipient hub
          × (recipient.number ≡ 2)))
    × ((route (browser 1) (text "k") (text "hi") hub).1.peers ≡ hub.peers)
    × (((route (browser 1) (text "k") (text "hi") hub).0 ≡ true)
        ⊎ ((route (browser 1) (text "k") (text "hi") hub).1 ≡ hub))
route_reaches_only_trusted_example =
    route_reaches_only_trusted (browser 1) (text "k") (text "hi") hub 2

abbrev run : List Command
run =
    registers computer
    ∷ registers (browser 1)
    ∷ registers (browser 3)
    ∷ unregisters (browser 1)
    ∷ routes (browser 3) (text "k") (text "hi")
    ∷ disconnects revocation
    ∷ []

hub_refines_directory_example :
    directory (perform_all offline run empty_hub) ≡ specified_run run (directory empty_hub)
hub_refines_directory_example = hub_refines_directory offline run empty_hub

-- The replacement is the one that stays.
run_ends : specified_run run (directory empty_hub) (id_of (browser 1)) ≡ some (browser 3)
unfolding specified specified_run new_secure_peer registered_as ◌==◌
run_ends = refl
