-- ===== src/Events/Bus.antt =====
-- src/shyam/events/bus.py and src/shyam/events/envelope.py. A class is its qualified name, a handler is
-- the text that tells it from others, and which classes are subclasses is the parameter `Classes`. The
-- lock makes each call one step. A bus is its dict of subscribers, and publishing gives the calls of
-- handlers that are then run concurrently, what one raises being caught.
use shyam.Base.{
  ℕ, String, Bool, true, false, ◌||◌, Option, none, some, List, [], ◌∷◌, ◌++◌, map, ite,
  if◌then◌else◌, str_discrete,
}
use shyam.Base.Dict
use shyam.Base.Dict.{Dict}
use shyam.Base.Sets.{elem}
use shyam.Values.{Value}

-- `issubclass(a, b)`, and the name of a class without its module.
pub record Classes : Type 0 where
  pub issubclass : String → String → Bool
  pub name : String → String

pub record Event : Type 0 where
  pub class : String
  pub event_id : String
  pub timestamp : ℕ

pub record EventEnvelope : Type 0 where
  pub event_id : String
  pub event_type : String
  pub occurred_at : ℕ
  pub payload : Event
  pub source_node_id : Option String
  pub metadata : Dict Value

abbrev pub or_empty : Option (Dict Value) → Dict Value
or_empty none = []
or_empty (some d) = d

unfoldable pub wrap : Classes → Event → Option String → Option (Dict Value) → EventEnvelope
wrap g e source_node_id metadata = record {
  event_id = e.event_id;
  event_type = g.name e.class;
  occurred_at = e.timestamp;
  payload = e;
  source_node_id = source_node_id;
  metadata = or_empty metadata;
}

pub data Message : Type 0 where
  event : Event → Message
  envelope : EventEnvelope → Message

abbrev pub EventBus : Type 0
EventBus = Dict (List String)

-- `self._subscribers[event_type]` of a defaultdict; the calls below put the empty list that it adds.
unfoldable pub handlers : String → EventBus → List String
handlers t b = elim (Dict.get t b) [ some hs ↦ hs | none ↦ [] ]

-- `if handler not in …: ….append(handler)`
unfoldable pub added : String → List String → List String
unfolding elem
added h hs = if elem h hs then hs else hs ++ (h ∷ [])

unfoldable pub subscribe : String → String → EventBus → EventBus
unfolding handlers added Dict.put
subscribe t h b = Dict.put t (added h (handlers t b)) b

-- `handlers.remove(h)`: the first that is equal
unfoldable pub remove : String → List String → List String
remove h [] = []
remove h (g ∷ hs) = ite (str_discrete g h) hs (g ∷ remove h hs)

unfoldable pub removed : String → List String → List String
unfolding elem remove
removed h hs = if elem h hs then remove h hs else hs

unfoldable pub unsubscribe : String → String → EventBus → EventBus × Bool
unfolding handlers elem Dict.put removed
unsubscribe t h b = (Dict.put t (removed h (handlers t b)) b, elem h (handlers t b))

abbrev pub envelope_class : String
envelope_class = "shyam.events.envelope.EventEnvelope"

-- Whether the class takes envelopes.
unfoldable pub takes_envelope : Classes → String → Bool
takes_envelope g t = ite (str_discrete t envelope_class) true false || g.issubclass t envelope_class

-- Whether the class takes an event.
unfoldable pub takes_event : Classes → Event → String → Bool
takes_event g e t = g.issubclass e.class t

-- The calls of one of the loops over the subscribers.
unfoldable pub dispatch : (String → Bool) → Message → EventBus → List (String × Message)
dispatch takes m [] = []
dispatch takes m ((t, hs) ∷ b) =
    let rest = dispatch takes m b in if takes t then map (λ h. (h, m)) hs ++ rest else rest

-- `publish(…)`: `handlers_to_invoke`
unfoldable pub publish : Classes → Message → EventBus → List (String × Message)
unfolding takes_envelope takes_event dispatch wrap
publish g (envelope v) b =
    dispatch (takes_envelope g) (envelope v) b
    ++ dispatch (takes_event g v.payload) (event v.payload) b
publish g (event e) b =
    dispatch (takes_event g e) (event e) b
    ++ dispatch (takes_envelope g) (envelope (wrap g e none none)) b
