-- ===== src/Events/Calls.antt =====
-- src/shyam/events/bus.py: calls of a bus, and what a handler is given, told without the
-- subscribers.
use shyam.Base.{
  String, Bool, true, false, ◌&&◌, List, [], ◌∷◌, ◌++◌, ite, if◌then◌else◌, str_discrete, none,
}
use shyam.Events.Bus.{
  Classes, wrap, Message, event, envelope, EventBus, subscribe, unsubscribe, takes_envelope,
  takes_event,
}
use shyam.Events.Lists.{noted}

pub data Call : Type 0 where
  subscribing : String → String → Call
  unsubscribing : String → String → Call

unfoldable pub step : EventBus → Call → EventBus
unfolding subscribe unsubscribe
step b (subscribing t h) = subscribe t h b
step b (unsubscribing t h) = (unsubscribe t h b).0

unfoldable pub run : EventBus → List Call → EventBus
unfolding step
run b [] = b
run b (c ∷ cs) = run (step b c) cs

-- The class that a call names, and the handler.
abbrev pub class_of : Call → String
class_of (subscribing t h) = t
class_of (unsubscribing t h) = t

-- Whether a handler is subscribed to a class: as the last call on both said.
unfoldable pub after : String → String → Call → Bool → Bool
after t h (subscribing u g) before =
    ite (str_discrete u t) (ite (str_discrete g h) true before) before
after t h (unsubscribing u g) before =
    ite (str_discrete u t) (ite (str_discrete g h) false before) before

unfoldable pub is_subscribed : String → String → List Call → Bool → Bool
unfolding after
is_subscribed t h [] before = before
is_subscribed t h (c ∷ cs) before = is_subscribed t h cs (after t h c before)

-- The classes that the calls name, in the order in which they are named first.
unfoldable pub named : List String → List Call → List String
unfolding noted
named ts [] = ts
named ts (c ∷ cs) = named (noted (class_of c) ts) cs

-- A message, once for each class with the property.
unfoldable pub once_each : (String → Bool) → Message → List String → List Message
once_each p m [] = []
once_each p m (t ∷ ts) = let rest = once_each p m ts in if p t then m ∷ rest else rest

-- The messages that a handler is given, in order.
unfoldable pub received : String → List (String × Message) → List Message
received h [] = []
received h ((g, m) ∷ ds) = let rest = received h ds in ite (str_discrete g h) (m ∷ rest) rest

-- What a handler is to be given after some calls when a message is published.
unfoldable pub inbox : Classes → String → List Call → Message → List Message
unfolding takes_envelope takes_event is_subscribed named once_each wrap
inbox g h cs (envelope v) =
    once_each (λ t. takes_envelope g t && is_subscribed t h cs false) (envelope v) (named [] cs)
    ++ once_each (λ t. takes_event g v.payload t && is_subscribed t h cs false) (event v.payload)
        (named [] cs)
inbox g h cs (event e) =
    once_each (λ t. takes_event g e t && is_subscribed t h cs false) (event e) (named [] cs)
    ++ once_each (λ t. takes_envelope g t && is_subscribed t h cs false)
        (envelope (wrap g e none none)) (named [] cs)
