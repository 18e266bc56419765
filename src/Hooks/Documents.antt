-- ===== src/Hooks/Documents.antt =====
-- web/src/hooks/useDocuments.ts.
use quagenticus.Base.{
  ℕ, String, Bool, Option, none, some, [], ◌∷◌, ◌&&◌, if◌then◌else◌, Dict, or_else, not, ◌==◌,
  nat_eq,
}
use quagenticus.Api.Documents.{Document}
use quagenticus.Cache.{
  invalidate, set_data, document_value, Method, Query, Mutation, nonempty, template,
}
use quagenticus.Cache.Keys.{space, requirement, document, SpaceKey, RequirementKey, DocumentKey}
use quagenticus.Hooks.{below_space, send, call, Change}
use quagenticus.Hooks.Requirements.{given_filters}

-- `encode` is the browser's `URLSearchParams(…).toString`; a filter that is not given is no entry.
abbrev pub use_documents : (Dict String → String) → String → Dict String → Query
use_documents encode space_id filters =
    let qs = encode (given_filters filters) in
    record {
      key = space space_id (SpaceKey.documents (some filters));
      path = template (
          "/spaces/"
          ∷ space_id
          ∷ "/documents"
          ∷ (if nonempty qs then template ("?" ∷ qs ∷ []) else "")
          ∷ []);
      enabled = nonempty space_id;
    }

abbrev use_document : String → Query
use_document id = record {
  key = document id DocumentKey.detail;
  path = template ("/documents/" ∷ id ∷ []);
  enabled = nonempty id;
}

module _ {B : Type 0} where
  abbrev use_create_document : String → Mutation B B Document
  use_create_document space_id = record {
    request = send Method.post (template ("/spaces/" ∷ space_id ∷ "/documents" ∷ []));
    on_success = λ _ doc.
        set_data (document doc.id DocumentKey.detail) (document_value doc)
        ∷ invalidate (below_space space_id "documents")
        ∷ [];
  }

  abbrev use_update_document : Mutation (Change B) B Document
  use_update_document = record {
    request = λ v. send Method.patch (template ("/documents/" ∷ v.id ∷ [])) v.rest;
    on_success = λ _ doc.
        set_data (document doc.id DocumentKey.detail) (document_value doc)
        ∷ invalidate (below_space doc.space_id "documents")
        ∷ invalidate (document doc.id DocumentKey.history)
        ∷ invalidate (requirement doc.id RequirementKey.links)
        ∷ [];
  }

  abbrev use_move_document : String → Mutation (Change B) B Document
  use_move_document space_id = record {
    request = λ v. send Method.patch (template ("/documents/" ∷ v.id ∷ "/move" ∷ [])) v.rest;
    on_success = λ _ doc.
        set_data (document doc.id DocumentKey.detail) (document_value doc)
        ∷ invalidate (below_space space_id "documents")
        ∷ [];
  }

  abbrev use_restore_version : String → Mutation B B Document
  use_restore_version id = record {
    request = send Method.post (template ("/documents/" ∷ id ∷ "/restore-version" ∷ []));
    on_success = λ _ doc.
        set_data (document id DocumentKey.detail) (document_value doc)
        ∷ invalidate (document id DocumentKey.history)
        ∷ invalidate (requirement id RequirementKey.detail)
        ∷ [];
  }

  abbrev use_favorite : {R : Type 0} → String → String → Mutation Bool B R
  use_favorite id space_id = record {
    request = λ fav.
        call (if fav then Method.put else Method.delete)
          (template ("/documents/" ∷ id ∷ "/favorite" ∷ []));
    on_success = λ _ _.
        invalidate (document id DocumentKey.detail)
        ∷ invalidate (below_space space_id "documents")
        ∷ [];
  }

  abbrev use_promote_document : {R : Type 0} → String → Mutation (Change B) B R
  use_promote_document space_id = record {
    request = λ v. send Method.post (template ("/documents/" ∷ v.id ∷ "/promote" ∷ [])) v.rest;
    on_success = λ _ _. invalidate (space space_id SpaceKey.all) ∷ [];
  }

abbrev use_document_history : String → Bool → Query
use_document_history id enabled = record {
  key = document id DocumentKey.history;
  path = template ("/documents/" ∷ id ∷ "/history" ∷ []);
  enabled = nonempty id && enabled;
}

-- `print` writes a number in decimal; the version 0 is false, as a missing one is.
abbrev use_document_version : (ℕ → String) → String → Option ℕ → Query
use_document_version print id version = record {
  key = document id (DocumentKey.version (or_else version 0));
  path =
      template (
        "/documents/"
        ∷ id
        ∷ "/history/"
        ∷ (elim version [ none ↦ "null" | some v ↦ print v ])
        ∷ []);
  enabled = nonempty id && not (or_else version 0 == 0);
}
