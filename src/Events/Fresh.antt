-- ===== src/Events/Fresh.antt =====
-- Which entries of the cache a flush of web/src/lib/events.ts renews, over all the keys of
-- web/src/lib/queryKeys.ts.
use quagenticus.Base.{
  String, Bool, true, false, Option, none, some, List, [], ◌∷◌, ◌++◌, ◌==◌, ◌&&◌, ◌||◌, string_eq,
  any, add, elem, ◌≡◌, refl, arith, eq_iff, if◌then◌else◌, Bool-cases, inl, inr,
}
use quagenticus.BoardPage.{truthy}
use quagenticus.Cache.{Key, Op, invalidate, renewed_by}
use quagenticus.Cache.Keys.{
  SpaceKey, GlobalKey, Resource, key, space_resource, requirement_resource, document_resource,
  global_resource, global,
}
use quagenticus.Events.{
  ChangeEvent, is_notification, document_ops, flush_events, flush_spaces, flush_ops,
}

-- The entries of a space that show its requirements and documents.
abbrev is_listing : SpaceKey → Bool
is_listing (SpaceKey.board _) = true
is_listing (SpaceKey.requirements _) = true
is_listing (SpaceKey.documents _) = true
is_listing SpaceKey.agent_queue = true
is_listing _ = false

abbrev in_space : Resource → String → Bool
in_space (space_resource t k) s = s == t && is_listing k
in_space _ s = false

abbrev is_about : Resource → Option String → Bool
is_about _ none = false
is_about (requirement_resource r k) (some id) = id == r
is_about (document_resource d k) (some id) = id == d
is_about _ (some id) = false

abbrev for_user : GlobalKey → Bool
for_user GlobalKey.notifications_all = true
for_user GlobalKey.notifications_list = true
for_user GlobalKey.notifications_count = true
for_user GlobalKey.my_work = true
for_user _ = false

abbrev is_for_user : Resource → Bool
is_for_user (global_resource k) = for_user k
is_for_user _ = false

-- What an event may have changed.
abbrev pub touches : Resource → ChangeEvent → Bool
touches r ev =
    if is_notification ev
    then is_for_user r
    else in_space r ev.space_id || is_about r (truthy ev.document_id)

pub renewed_by-append :
    (xs ys : List Op) (k : Key) → renewed_by (xs ++ ys) k ≡ renewed_by xs k || renewed_by ys k
renewed_by-append [] ys k = refl
renewed_by-append (x ∷ xs) ys k = ground (arith, renewed_by-append xs ys k)

any-elem :
    (p : String → Bool) (s : String) (xs : List String)
    → elem s xs ≡ true
    → any p xs ≡ p s || any p xs
any-elem p s [] h = ground arith
any-elem p s (x ∷ xs) h = elim (Bool-cases (x == s)) [
  | inl e ↦ let q : x ≡ s = (eq_iff x s).0 e in rw q (ground arith)
  | inr e ↦ ground (arith, e, any-elem p s xs (ground (arith, e)))
]

any-append : (p : String → Bool) (xs ys : List String) → any p (xs ++ ys) ≡ any p xs || any p ys
any-append p [] ys = refl
any-append p (x ∷ xs) ys = ground (arith, any-append p xs ys)

any-add : (p : String → Bool) (s : String) (xs : List String) → any p (add s xs) ≡ p s || any p xs
any-add p s xs = elim (Bool-cases (elem s xs)) [
  | inl e ↦ rw e (any-elem p s xs e)
  | inr e ↦ ground (arith, e, any-append p xs (s ∷ []))
]

module _ (s : String) (spaces : List String) where
  -- A flushed space renews its listings.
  renewed_by-space :
      (r : Resource)
      → renewed_by (flush_spaces (s ∷ spaces)) (key r)
        ≡ in_space r s || renewed_by (flush_spaces spaces) (key r)
  unfolding flush_spaces
  renewed_by-space (space_resource t (SpaceKey.requirements none)) = ground arith
  renewed_by-space (space_resource t (SpaceKey.requirements (some f))) = ground arith
  renewed_by-space (space_resource t (SpaceKey.documents none)) = ground arith
  renewed_by-space (space_resource t (SpaceKey.documents (some f))) = ground arith
  renewed_by-space (space_resource t _) = ground arith
  renewed_by-space (requirement_resource q k) = ground arith
  renewed_by-space (document_resource d k) = ground arith
  renewed_by-space (global_resource (GlobalKey.search q none)) = ground arith
  renewed_by-space (global_resource (GlobalKey.search q (some t))) = ground arith
  renewed_by-space (global_resource _) = ground arith

renewed_by-flush_spaces :
    (r : Resource) (spaces : List String)
    → renewed_by (flush_spaces spaces) (key r) ≡ any (in_space r) spaces
unfolding flush_spaces
renewed_by-flush_spaces r [] = refl
renewed_by-flush_spaces r (s ∷ spaces) =
    rw (renewed_by-space s spaces r, renewed_by-flush_spaces r spaces) refl

renewed_by-document_ops :
    (r : Resource) (id : Option String) → renewed_by (document_ops id) (key r) ≡ is_about r id
renewed_by-document_ops r none = refl
renewed_by-document_ops (space_resource t k) (some id) = ground arith
renewed_by-document_ops (requirement_resource q k) (some id) = ground arith
renewed_by-document_ops (document_resource d k) (some id) = ground arith
renewed_by-document_ops (global_resource (GlobalKey.search q none)) (some id) = ground arith
renewed_by-document_ops (global_resource (GlobalKey.search q (some t))) (some id) = ground arith
renewed_by-document_ops (global_resource _) (some id) = ground arith

-- The operations of a notification.
renewed_by-notification :
    (r : Resource) (ops : List Op)
    → renewed_by
        (invalidate (global GlobalKey.notifications_all)
          ∷ invalidate (global GlobalKey.my_work)
          ∷ ops)
        (key r)
      ≡ is_for_user r || renewed_by ops (key r)
renewed_by-notification (space_resource t k) ops = ground arith
renewed_by-notification (requirement_resource q k) ops = ground arith
renewed_by-notification (document_resource d k) ops = ground arith
renewed_by-notification (global_resource (GlobalKey.search q none)) ops = ground arith
renewed_by-notification (global_resource (GlobalKey.search q (some t))) ops = ground arith
renewed_by-notification (global_resource _) ops = ground arith

-- What the operations and the spaces of the first loop renew together.
abbrev renewed : Resource → List Op × List String → Bool
renewed r (ops, spaces) = renewed_by ops (key r) || any (in_space r) spaces

renewed-flush_events :
    (r : Resource) (events : List ChangeEvent) (spaces : List String)
    → renewed r (flush_events events spaces) ≡ any (touches r) events || any (in_space r) spaces
unfolding flush_events
renewed-flush_events r [] spaces = refl
renewed-flush_events r (ev ∷ events) spaces = elim (Bool-cases (is_notification ev)) [
  | inl e ↦ ground (
    arith,
    e,
    renewed_by-notification r (flush_events events spaces).0,
    renewed-flush_events r events spaces,
  )
  | inr e ↦ ground (
    arith,
    e,
    renewed_by-append (document_ops (truthy ev.document_id))
        (flush_events events (add ev.space_id spaces)).0 (key r),
    renewed_by-document_ops r (truthy ev.document_id),
    renewed-flush_events r events (add ev.space_id spaces),
    any-add (in_space r) ev.space_id spaces,
  )
]

-- A flush renews exactly the entries that one of the events may have changed: for a notification, the
-- notifications and the work of the user; for any other event, the boards, the requirements, the
-- documents and the agents' queue of its space, and every entry of its requirement or document.
pub renewed_by-flush_ops :
    (r : Resource) (events : List ChangeEvent)
    → renewed_by (flush_ops events) (key r) ≡ any (touches r) events
unfolding flush_ops
renewed_by-flush_ops r events = ground (
  arith,
  renewed_by-append (flush_events events []).0 (flush_spaces (flush_events events []).1) (key r),
  renewed_by-flush_spaces r (flush_events events []).1,
  renewed-flush_events r events [],
)
