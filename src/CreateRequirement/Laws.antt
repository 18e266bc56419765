-- ===== src/CreateRequirement/Laws.antt =====
-- That what web/src/components/requirement/CreateRequirementModal.tsx sends is well formed.
use quagenticus.Base.{
  String, Bool, true, false, Option, none, some, List, [], ◌∷◌, ◌++◌, ◌≡◌, refl, ◌==◌, ◌&&◌, ◌||◌,
  not, string_eq, if◌then◌else◌, elem, keep, arith, eq_iff, Bool-cases, inl, inr,
}
use mathlib.Core.Path.{subst}
use quagenticus.CreateRequirement.{
  Modal, start, is_lead, toggle_member, toggle_lead, reset, NewRequirement, before, out_of_order,
  request_of, submit, Event, defaults, changed, member_toggled, lead_toggled, label_toggled,
  uploaded, file_dropped, emptied, step, run,
}

-- The lead, if there is one, is a member.
abbrev pub IsLed : List String → Option String → Type 0
IsLed members none = Unit
IsLed members (some id) = elem id members ≡ true

elem-append : (a b : String) (xs : List String) → elem a xs ≡ true → elem a (xs ++ b ∷ []) ≡ true
elem-append a b [] h = absurd (cc h)
elem-append a b (x ∷ xs) h = ground (arith, h, elem-append a b xs)

elem-keep :
    (a b : String) (xs : List String)
    → elem a xs ≡ true
    → b == a ≡ false
    → elem a (keep (λ x. not (x == b)) xs) ≡ true
elem-keep a b [] h k = h
elem-keep a b (x ∷ xs) h k =
    ground (arith, eq_iff x b, eq_iff x a, eq_iff b a, h, k, elem-keep a b xs)

put-IsLed :
    (id : String) (members : List String) (o : Option String)
    → IsLed members o
    → IsLed (members ++ id ∷ []) o
put-IsLed id members none h = tt
put-IsLed id members (some lead) h = elem-append lead id members h

take-IsLed :
    (id : String) (members : List String) (o : Option String)
    → IsLed members o
    → IsLed (keep (λ x. not (x == id)) members) (if is_lead o id then none else o)
take-IsLed id members none h = tt
take-IsLed id members (some lead) h = elim (Bool-cases (lead == id)) [
  | inl e ↦ rw e tt
  | inr e ↦ rw e (elem-keep lead id members h (ground (arith, eq_iff lead id, eq_iff id lead, e)))
]

toggle_member-IsLed :
    (id : String) (on : Bool) (m : Modal)
    → IsLed m.members m.lead
    → IsLed (toggle_member id on m).members (toggle_member id on m).lead
unfolding toggle_member
toggle_member-IsLed id true m h = put-IsLed id m.members m.lead h
toggle_member-IsLed id false m h = take-IsLed id m.members m.lead h

-- the lead after the crown of a member
crown-IsLed :
    (id : String) (b : Bool) (members : List String)
    → elem id members ≡ true
    → IsLed members (if b then none else some id)
crown-IsLed id true members h = tt
crown-IsLed id false members h = h

choose-IsLed :
    (b : Bool) (m n : Modal)
    → (b ≡ true → IsLed m.members m.lead)
    → IsLed n.members n.lead
    → IsLed (if b then m else n).members (if b then m else n).lead
choose-IsLed true m n h k = h refl
choose-IsLed false m n h k = k

toggle_lead-IsLed :
    (id : String) (m : Modal)
    → IsLed m.members m.lead
    → IsLed (toggle_lead id m).members (toggle_lead id m).lead
unfolding toggle_lead
toggle_lead-IsLed id m h =
    choose-IsLed (elem id m.members)
      (record m { lead = if is_lead m.lead id then none else some id }) m
      (λ e. crown-IsLed id (is_lead m.lead id) m.members e) h

step-IsLed :
    (without_links : String → String → String) (e : Event) (m : Modal)
    → IsLed m.members m.lead
    → IsLed (step without_links e m).members (step without_links e m).lead
unfolding step reset
step-IsLed w (defaults trackers priorities default_status parent_id) m h = h
step-IsLed w (changed field v) m h = h
step-IsLed w (member_toggled id) m h = toggle_member-IsLed id (not (elem id m.members)) m h
step-IsLed w (lead_toggled id) m h = toggle_lead-IsLed id m h
step-IsLed w (label_toggled l on) m h = h
step-IsLed w (uploaded files) m h = h
step-IsLed w (file_dropped id) m h = h
step-IsLed w (emptied keep_type default_status parent_id) m h = tt

run-IsLed :
    (without_links : String → String → String) (es : List Event) (m : Modal)
    → IsLed m.members m.lead
    → IsLed (run without_links es m).members (run without_links es m).lead
unfolding run
run-IsLed w [] m h = h
run-IsLed w (e ∷ es) m h = run-IsLed w es (step w e m) (step-IsLed w e m h)

-- If both dates are given, the second is not before the first.
abbrev pub IsInOrder : Option String → Option String → Type 0
IsInOrder (some a) (some b) = before b a ≡ false
IsInOrder (some a) none = Unit
IsInOrder none o = Unit

-- A request that the server can take: with a tracker and a title, the dates not out of order, and no lead but
-- a member.
pub record IsSendable (r : NewRequirement) : Type 0 where
  has_tracker : r.tracker_id == "" ≡ false
  has_title : r.title == "" ≡ false
  in_order : IsInOrder r.start_date r.due_date
  led : IsLed r.member_ids r.lead_user_id

absent :
    (b c : Bool) (x y : String)
    → not b && not c && before y x ≡ false
    → IsInOrder (if b then none else some x) (if c then none else some y)
absent true c x y h = tt
absent false true x y h = tt
absent false false x y h = h

-- what comes out of two guards
guarded :
    {A : Type 0} (b c d : Bool) (x y : A)
    → (if b || c then none else if d then none else some x) ≡ some y
    → b ≡ false × c ≡ false × d ≡ false × x ≡ y
guarded true c d x y h = absurd (cc h)
guarded false true d x y h = absurd (cc h)
guarded false false true x y h = absurd (cc h)
guarded false false false x y h = (refl, refl, refl, cc h)

submit-IsSendable :
    (trim : String → String) (m : Modal) (r : NewRequirement)
    → IsLed m.members m.lead
    → submit trim m ≡ some r
    → IsSendable r
unfolding submit
submit-IsSendable trim m r h e =
    let g =
      guarded (m.form.tracker_id == "") (trim m.form.title == "") (out_of_order m.form)
        (request_of trim m) r e in
    subst IsSendable g.3 (record {
      has_tracker = g.0;
      has_title = g.1;
      in_order =
          absent (m.form.start_date == "") (m.form.due_date == "") m.form.start_date m.form.due_date
            g.2;
      led = h;
    })

-- Whatever the user does in the form and whatever arrives, a request that is then sent has a tracker, a title
-- that is not empty, a due date that is not before the start date where it has both, and a lead, if it has
-- one, that is one of its members.
pub sent-IsSendable :
    (trim : String → String) (without_links : String → String → String) (es : List Event)
    (r : NewRequirement)
    → submit trim (run without_links es start) ≡ some r
    → IsSendable r
sent-IsSendable trim w es r e =
    submit-IsSendable trim (run w es start) r (run-IsLed w es start tt) e
