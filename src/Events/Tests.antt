-- ===== src/Events/Tests.antt =====
-- src/shyam/events on a bus with a handler that is subscribed to a class and to its base class.
use shyam.Base.{true, false, ◌≡◌, refl, none, List, [], ◌∷◌, str_discrete, ite}
use shyam.Events.Bus.{Classes, Event, wrap, event, envelope, envelope_class, publish}
use shyam.Events.Calls.{Call, subscribing, unsubscribing, run, received, inbox}
use shyam.Events.Delivery.{publish-run}

-- Every class is its own subclass and one of Event.
abbrev classes : Classes
classes = record {
  issubclass = λ a b. ite (str_discrete a b) true (ite (str_discrete b "Event") true false);
  name = λ t. t;
}

abbrev peer_lost : Event
peer_lost = record { class = "PeerLostEvent"; event_id = "e1"; timestamp = 5 }

abbrev calls : List Call
calls =
    subscribing "PeerLostEvent" "on_lost"
    ∷ subscribing "Event" "on_lost"
    ∷ subscribing "PeerLostEvent" "on_lost"
    ∷ subscribing envelope_class "on_any"
    ∷ subscribing "PeerLostEvent" "gone"
    ∷ unsubscribing "PeerLostEvent" "gone"
    ∷ []

is_given_twice :
    inbox classes "on_lost" calls (event peer_lost) ≡ event peer_lost ∷ event peer_lost ∷ []
unfolding inbox str_discrete
is_given_twice = refl

is_wrapped :
    inbox classes "on_any" calls (event peer_lost)
    ≡ envelope (wrap classes peer_lost none none) ∷ []
unfolding inbox str_discrete
is_wrapped = refl

publish-run_example :
    received "on_lost" (publish classes (event peer_lost) (run [] calls))
    ≡ inbox classes "on_lost" calls (event peer_lost)
publish-run_example = publish-run classes "on_lost" calls (event peer_lost)
