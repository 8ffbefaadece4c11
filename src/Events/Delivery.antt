-- ===== src/Events/Delivery.antt =====
-- src/shyam/events/bus.py: publishing gives each handler what it is to be given.
use shyam.Base.{
  String, Bool, false, ◌&&◌, ◌≡◌, ◌≢◌, refl, sym, ◌∙◌, ap, ap₂, List, [], ◌∷◌, ◌++◌, map, ite,
  if◌then◌else◌, str_discrete, subst, arith, some, none, All,
}
use shyam.Base.Dict
use shyam.Base.Dict.{Dict, get-put}
use shyam.Base.Sets.{elem, IsDict, put-IsDict, All-entries}
use shyam.Events.Bus.{
  Classes, wrap, Message, event, envelope, EventBus, handlers, subscribe, added, removed,
  unsubscribe, takes_envelope, takes_event, dispatch, publish,
}
use shyam.Events.Calls.{
  Call, subscribing, unsubscribing, step, run, class_of, after, is_subscribed, named, once_each,
  received, inbox,
}
use shyam.Events.Lists.{
  IsDistinct, elem-added, added-IsDistinct, elem-removed, removed-IsDistinct, keys-put,
}

handlers-put :
    (t u : String) (hs : List String) (b : EventBus)
    → handlers t (Dict.put u hs b) ≡ ite (str_discrete u t) hs (handlers t b)
unfolding handlers
handlers-put t u hs b = ground (arith, get-put t u hs b)

-- What a call does to the handlers of its class.
abbrev changed : Call → List String → List String
changed (subscribing t h) = added h
changed (unsubscribing t h) = removed h

step-put :
    (b : EventBus) (c : Call)
    → step b c ≡ Dict.put (class_of c) (changed c (handlers (class_of c) b)) b
unfolding step subscribe unsubscribe
step-put b (subscribing t h) = refl
step-put b (unsubscribing t h) = refl

changed-IsDistinct : (c : Call) (hs : List String) → IsDistinct hs → IsDistinct (changed c hs)
changed-IsDistinct (subscribing t h) hs d = added-IsDistinct h hs d
changed-IsDistinct (unsubscribing t h) hs d = removed-IsDistinct h hs d

elem-changed :
    (c : Call) (t h : String) (hs : List String)
    → IsDistinct hs
    → t ≡ class_of c
    → elem h (changed c hs) ≡ after t h c (elem h hs)
unfolding after
elem-changed (subscribing u g) t h hs d e = ground (arith, elem-added h g hs, e)
elem-changed (unsubscribing u g) t h hs d e = ground (arith, elem-removed h g hs d, e)

after-other :
    (c : Call) (t h : String) (before : Bool) → class_of c ≢ t → after t h c before ≡ before
unfolding after
after-other (subscribing u g) t h before n = ground (arith, n)
after-other (unsubscribing u g) t h before n = ground (arith, n)

-- Each call leaves the lists of handlers without repetitions, and changes one answer.
step-IsDistinct :
    (b : EventBus) (c : Call)
    → ((t : String) → IsDistinct (handlers t b))
    → (t : String) → IsDistinct (handlers t (step b c))
step-IsDistinct b c h t =
    subst IsDistinct (sym (ap (handlers t) (step-put b c) ∙ handlers-put t (class_of c) _ b))
      (elim (str_discrete (class_of c) t)
        as (λ q. IsDistinct (ite q (changed c (handlers (class_of c) b)) (handlers t b))) [
          | yes p ↦ changed-IsDistinct c _ (h (class_of c))
          | no n ↦ h t
        ])

step-elem :
    (b : EventBus) (c : Call) (t h : String)
    → ((t : String) → IsDistinct (handlers t b))
    → elem h (handlers t (step b c)) ≡ after t h c (elem h (handlers t b))
step-elem b c t h d =
    ap (elem h) (ap (handlers t) (step-put b c) ∙ handlers-put t (class_of c) _ b)
    ∙ (elim (str_discrete (class_of c) t)
        as (λ q.
          elem h (ite q (changed c (handlers (class_of c) b)) (handlers t b))
          ≡ after t h c (elem h (handlers t b))) [
            | yes p ↦
                elem-changed c t h _ (d (class_of c)) (sym p)
                ∙ ap (λ u. after t h c (elem h (handlers u b))) p
            | no n ↦ sym (after-other c t h _ n)
          ])

received-append :
    (h : String) (ds es : List (String × Message))
    → received h (ds ++ es) ≡ received h ds ++ received h es
unfolding received
received-append h [] es = refl
received-append h ((g, m) ∷ ds) es = ground (arith, received-append h ds es)

received-handlers :
    (h : String) (m : Message) (hs : List String)
    → IsDistinct hs
    → received h (map (λ g. (g, m)) hs) ≡ (if elem h hs then m ∷ [] else [])
unfolding received elem
received-handlers h m [] d = refl
received-handlers h m (g ∷ hs) d = ground (arith, received-handlers h m hs d.1, d.0)

received-dispatch :
    (takes subscribed : String → Bool) (m : Message) (h : String) (b : EventBus)
    → All (λ e. IsDistinct e.1 × (elem h e.1 ≡ subscribed e.0)) b
    → received h (dispatch takes m b) ≡ once_each (λ t. takes t && subscribed t) m (Dict.keys b)
unfolding received dispatch once_each
received-dispatch takes subscribed m h [] a = refl
received-dispatch takes subscribed m h ((t, hs) ∷ b) a = ground (
  arith,
  received-append h (map (λ g. (g, m)) hs) (dispatch takes m b),
  received-handlers h m hs a.0.0,
  received-dispatch takes subscribed m h b a.1,
  a.0.1,
)

run-IsDistinct :
    (b : EventBus) (cs : List Call)
    → ((t : String) → IsDistinct (handlers t b))
    → (t : String) → IsDistinct (handlers t (run b cs))
unfolding run
run-IsDistinct b [] h = h
run-IsDistinct b (c ∷ cs) h = run-IsDistinct (step b c) cs (step-IsDistinct b c h)

run-elem :
    (b : EventBus) (cs : List Call) (t h : String)
    → ((t : String) → IsDistinct (handlers t b))
    → elem h (handlers t (run b cs)) ≡ is_subscribed t h cs (elem h (handlers t b))
unfolding run is_subscribed
run-elem b [] t h d = refl
run-elem b (c ∷ cs) t h d =
    run-elem (step b c) cs t h (step-IsDistinct b c d)
    ∙ ap (is_subscribed t h cs) (step-elem b c t h d)

run-IsDict : (b : EventBus) (cs : List Call) → IsDict b → IsDict (run b cs)
unfolding run
run-IsDict b [] i = i
run-IsDict b (c ∷ cs) i =
    run-IsDict (step b c) cs (subst IsDict (sym (step-put b c)) (put-IsDict (class_of c) _ b i))

keys-run : (b : EventBus) (cs : List Call) → Dict.keys (run b cs) ≡ named (Dict.keys b) cs
unfolding run named
keys-run b [] = refl
keys-run b (c ∷ cs) =
    keys-run (step b c) cs
    ∙ ap (λ ts. named ts cs) (ap Dict.keys (step-put b c) ∙ keys-put (class_of c) _ b)

handlers_of_get :
    (t : String) (hs : List String) (b : EventBus) → Dict.get t b ≡ some hs → handlers t b ≡ hs
unfolding handlers
handlers_of_get t hs b e = ground (arith, e)

new_bus : (t : String) → IsDistinct (handlers t [])
unfolding handlers Dict.get
new_bus t = tt

received-run :
    (takes : String → Bool) (m : Message) (h : String) (cs : List Call)
    → received h (dispatch takes m (run [] cs))
      ≡ once_each (λ t. takes t && is_subscribed t h cs false) m (named [] cs)
unfolding elem handlers Dict.get
received-run takes m h cs =
    received-dispatch takes (λ t. is_subscribed t h cs false) m h (run [] cs)
      (All-entries (run [] cs) (run-IsDict [] cs tt) (λ t hs e.
        let eq = handlers_of_get t hs (run [] cs) e in
        (
          subst IsDistinct eq (run-IsDistinct [] cs new_bus t),
          ap (elem h) (sym eq) ∙ run-elem [] cs t h new_bus,
        )))
    ∙ ap (once_each _ m) (keys-run [] cs)

-- After any subscriptions and removals on a new bus, publishing an event or an envelope gives each
-- handler the message once for each class that takes it and that the last call on the handler and the
-- class subscribed it to, and then, in the same way, the envelope or the payload that goes with it.
pub publish-run :
    (g : Classes) (h : String) (cs : List Call) (m : Message)
    → received h (publish g m (run [] cs)) ≡ inbox g h cs m
unfolding publish inbox
publish-run g h cs (event e) =
    received-append h (dispatch (takes_event g e) (event e) (run [] cs)) _
    ∙ ap₂ (λ x y. x ++ y) (received-run (takes_event g e) (event e) h cs)
        (received-run (takes_envelope g) (envelope (wrap g e none none)) h cs)
publish-run g h cs (envelope v) =
    received-append h (dispatch (takes_envelope g) (envelope v) (run [] cs)) _
    ∙ ap₂ (λ x y. x ++ y) (received-run (takes_envelope g) (envelope v) h cs)
        (received-run (takes_event g v.payload) (event v.payload) h cs)
