-- ===== src/Hooks/Search.antt =====
-- web/src/hooks/useSearch.ts.
use quagenticus.Base.{
  ℕ, leb, not, ◌==◌, string_eq, String, Bool, true, Option, none, some, List, [], ◌∷◌, ◌&&◌,
  if◌then◌else◌,
}
use quagenticus.Cache.{Query, nonempty, template}
use quagenticus.Cache.Keys.{space, global, SpaceKey, GlobalKey}

-- `types` is `types.join(',')`, and `encode` the browser's `encodeURIComponent`.
abbrev use_suggest : (String → String) → String → String → String → Bool → Query
use_suggest encode space_id q types enabled = record {
  key = space space_id (SpaceKey.suggest q types);
  path =
      template
        ("/spaces/" ∷ space_id ∷ "/suggest?q=" ∷ encode q ∷ "&types=" ∷ types ∷ "&limit=8" ∷ []);
  enabled = enabled && nonempty space_id;
}

abbrev use_my_work : Query
use_my_work = record { key = global GlobalKey.my_work; path = "/me/work"; enabled = true }

-- `requirements`, `wikilinks` and `users` of `refs`
pub record Refs : Type 0 where
  pub requirements : List String
  pub wikilinks : List String
  pub users : List String

-- `sorted_join sep xs` is `[...xs].sort().join(sep)`, of the browser's arrays.
abbrev use_resolved_refs :
    (String → List String → String) → (String → String) → String → Refs → Query
use_resolved_refs sorted_join encode space_id refs =
    let keys = sorted_join "," refs.requirements in
    let titles = sorted_join "|" refs.wikilinks in
    let handles = sorted_join "," refs.users in
    let cache_key = template (keys ∷ "#" ∷ titles ∷ "#" ∷ handles ∷ []) in
    record {
      key = space space_id (SpaceKey.refs cache_key);
      path = template (
          "/spaces/"
          ∷ space_id
          ∷ "/refs/resolve?keys="
          ∷ encode keys
          ∷ "&titles="
          ∷ encode titles
          ∷ "&handles="
          ∷ encode handles
          ∷ []);
      enabled = nonempty space_id && not (cache_key == "##");
    }

-- `trimmed_length` is the length of the browser's `q.trim()`.
abbrev use_search : (String → ℕ) → (String → String) → String → Option String → Query
use_search trimmed_length encode q space_id = record {
  key = global (GlobalKey.search q space_id);
  path = template (
      "/search?q="
      ∷ encode q
      ∷ (elim space_id [
        | none ↦ ""
        | some id ↦ if nonempty id then template ("&space_id=" ∷ id ∷ []) else ""
      ])
      ∷ "&limit=30"
      ∷ []);
  enabled = leb 2 (trimmed_length q);
}
