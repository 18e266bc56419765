-- ===== src/MarkdownToolbar.antt =====
-- web/src/components/editor/MarkdownToolbar.tsx: the actions of the toolbar of the Markdown editors, on
-- a text and its selection, both by UTF-16 code units.
pub mod Laws
use quagenticus.Base.{
  ℕ, ◌+◌, Bool, true, false, Option, none, some, List, [], ◌∷◌, ◌++◌, ◌==◌, ◌&&◌, not, nat_eq,
  if◌then◌else◌, Text, codes, slice, newline, length, drop, take, ltb, get_elem?, ◌-◌, String,
}

pub record ToolbarAction : Type 0 where
  pub label : Text
  pub prefix : Text
  pub suffix : Text
  pub default_text : Text
  pub block : Bool

abbrev action : String → String → String → String → Bool → ToolbarAction
action label prefix suffix default_text block = record {
  label = codes label;
  prefix = codes prefix;
  suffix = codes suffix;
  default_text = codes default_text;
  block = block;
}

-- `TOOLBAR_ACTIONS`, without the icons and the separators
abbrev pub toolbar_actions : List ToolbarAction
toolbar_actions =
    action "Negrita" "**" "**" "negrita" false
    ∷ action "Cursiva" "*" "*" "cursiva" false
    ∷ action "Tachado" "~~" "~~" "texto" false
    ∷ action "Título 2" "## " "" "Título" true
    ∷ action "Título 3" "### " "" "Título" true
    ∷ action "Viñetas" "- " "" "ítem" true
    ∷ action "Lista numerada" "1. " "" "ítem" true
    ∷ action "Lista de tareas" "- [ ] " "" "tarea" true
    ∷ action "Código" "`" "`" "code" false
    ∷ action "Bloque de código" "```\n" "\n```" "código" true
    ∷ action "Cita" "> " "" "cita" true
    ∷ action "Enlace" "[" "](https://)" "texto" false
    ∷ action "Tabla" "| Columna 1 | Columna 2 |\n| --- | --- |\n| " " | valor |" "valor" true
    ∷ []

pub record Applied : Type 0 where
  pub value : Text
  pub sel_start : ℕ
  pub sel_end : ℕ

-- `a || b` for texts
abbrev or_default : Text → Text → Text
or_default [] d = d
or_default (c ∷ s) d = c ∷ s

abbrev is_newline : Option ℕ → Bool
is_newline none = false
is_newline (some c) = c == newline

-- `selection`
abbrev pub selection_of : Text → ℕ → ℕ → ToolbarAction → Text
selection_of value start end a = or_default (slice value start end) a.default_text

-- `needsNewline`
abbrev pub needs_newline : Text → ℕ → ToolbarAction → Bool
needs_newline value start a =
    a.block && ltb 0 start && not (is_newline (get_elem? value (start - 1)))

-- `prefix`
abbrev pub prefix_of : Text → ℕ → ToolbarAction → Text
prefix_of value start a = (if needs_newline value start a then newline ∷ [] else []) ++ a.prefix

unfoldable pub apply_action : Text → ℕ → ℕ → ToolbarAction → Applied
apply_action value start end a =
    let selection = selection_of value start end a in
    let prefix = prefix_of value start a in
    let sel_start = start + length prefix in
    record {
      value = take start value ++ (prefix ++ (selection ++ (a.suffix ++ drop end value)));
      sel_start = sel_start;
      sel_end = sel_start + length selection;
    }
