-- ===== src/Tests/Editor.antt =====
-- The suggestions of the Markdown editor on a short text.
use quagenticus.Base.{ℕ, Bool, none, some, [], ◌∷◌, ◌≡◌, refl, Text, codes, leb, ◌&&◌, arith}
use quagenticus.Refs.Trigger.{detect_trigger, ActiveTrigger, hash, wiki}
use quagenticus.MarkdownEditor.{
  SuggestItem, requirement, suggestion_insert_text, Edited, pick, upload_text,
}
use quagenticus.MarkdownEditor.Laws.{pick-Replaces, Replaces}

-- the digits and the small letters of ASCII
abbrev letter : ℕ → Bool
letter c = leb 48 c && leb c 122

abbrev value : Text
value = codes "ver #12, ok"

abbrev trigger : ActiveTrigger
trigger = record { kind = hash; query = codes "12"; start = 4; end = 7 }

trigger_found : detect_trigger letter value 7 ≡ some trigger
unfolding detect_trigger
trigger_found = refl

wiki_found :
    detect_trigger letter (codes "a [[Plan de") 11
    ≡ some (record { kind = wiki; query = codes "Plan de"; start = 2; end = 11 })
unfolding detect_trigger
wiki_found = refl

none_found : detect_trigger letter (codes "a#12") 4 ≡ none
unfolding detect_trigger
none_found = refl

abbrev item : SuggestItem
item = record {
  kind = requirement;
  id = "r";
  ref_key = some (codes "QG-12");
  title = codes "Exportar";
  subtitle = none;
  space_id = "s";
  score = 1;
}

picked :
    pick value (some trigger) (item ∷ []) 0
    ≡ some (record { value = codes "ver #QG-12 , ok"; sel_start = 11; sel_end = 11 })
unfolding pick
picked = refl

uploaded :
    upload_text (codes "a") (
      record { id = codes "1"; filename = codes "f.png"; content_type = "image/png" }
      ∷ record { id = codes "2"; filename = codes "g.pdf"; content_type = "application/pdf" }
      ∷ [])
    ≡ codes "\n![f.png](attachment:1)\n[g.pdf](attachment:2)\n"
unfolding upload_text
uploaded = refl

pick-Replaces_example :
    (e : Edited) × (pick value (some trigger) (item ∷ []) 0 ≡ some e)
    × Replaces value trigger (suggestion_insert_text item) e
pick-Replaces_example =
    pick-Replaces letter value 7 trigger (item ∷ []) 0 item (omega arith) trigger_found refl
