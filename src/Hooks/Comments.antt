-- ===== src/Hooks/Comments.antt =====
-- web/src/hooks/useJournals.ts, useAttachments.ts, useLinks.ts and useNotifications.ts.
use quagenticus.Base.{
  string_eq, String, Bool, true, Option, none, some, List, [], ◌∷◌, ◌++◌, if◌then◌else◌,
}
use quagenticus.Api.Activity.{DocumentLink}
use quagenticus.Cache.{str, Op, invalidate, Method, Request, Query, Mutation, nonempty, template}
use quagenticus.Cache.Keys.{requirement, global, RequirementKey, GlobalKey}
use quagenticus.Hooks.{send, call, Change}

-- `kind` is "comment" or "history".
abbrev use_journals : String → String → Query
use_journals doc_id kind = record {
  key = requirement doc_id (RequirementKey.journals kind);
  path = template ("/documents/" ∷ doc_id ∷ "/journals?kind=" ∷ kind ∷ []);
  enabled = nonempty doc_id;
}

-- The `done` of `useCommentMutations`.
abbrev comments_done : String → List Op
comments_done doc_id =
    invalidate (requirement doc_id RequirementKey.journals_all)
    ∷ invalidate (requirement doc_id RequirementKey.attachments)
    ∷ invalidate (requirement doc_id RequirementKey.detail)
    ∷ []

module _ {B R : Type 0} (doc_id : String) where
  abbrev create_comment : Mutation B B R
  create_comment = record {
    request = send Method.post (template ("/documents/" ∷ doc_id ∷ "/journals" ∷ []));
    on_success = λ _ _. comments_done doc_id;
  }

  abbrev update_comment : Mutation (Change B) B R
  update_comment = record {
    request = λ v. send Method.patch (template ("/journals/" ∷ v.id ∷ [])) v.rest;
    on_success = λ _ _. comments_done doc_id;
  }

  abbrev remove_comment : Mutation String B R
  remove_comment = record {
    request = λ id. call Method.delete (template ("/journals/" ∷ id ∷ []));
    on_success = λ _ _. comments_done doc_id;
  }

abbrev use_attachments : String → String → Query
use_attachments doc_id scope = record {
  key = requirement doc_id RequirementKey.attachments ++ str scope ∷ [];
  path = template (
      "/documents/"
      ∷ doc_id
      ∷ "/attachments"
      ∷ (if nonempty scope then template ("?scope=" ∷ scope ∷ []) else "")
      ∷ []);
  enabled = nonempty doc_id;
}

abbrev invalidate_attachments : String → List Op
invalidate_attachments doc_id =
    invalidate (requirement doc_id RequirementKey.attachments)
    ∷ invalidate (requirement doc_id (RequirementKey.journals "history"))
    ∷ invalidate (requirement doc_id RequirementKey.detail)
    ∷ []

module _ {B R : Type 0} (doc_id : String) where
  -- The body is the form with the files.
  abbrev use_upload_to_document : Mutation B B R
  use_upload_to_document = record {
    request = send Method.post (template ("/documents/" ∷ doc_id ∷ "/attachments" ∷ []));
    on_success = λ _ _. invalidate_attachments doc_id;
  }

  abbrev use_delete_attachment : Mutation String B R
  use_delete_attachment = record {
    request = λ attach_id.
        call Method.delete (template ("/documents/" ∷ doc_id ∷ "/attachments/" ∷ attach_id ∷ []));
    on_success = λ _ _. invalidate_attachments doc_id;
  }

-- The requests of `uploadStaged` and `deleteStaged`.
abbrev upload_staged : {B : Type 0} → String → B → Option String → Request B
upload_staged space_id files document_id =
    let qs : String = elim document_id [
      | none ↦ ""
      | some id ↦ if nonempty id then template ("?document_id=" ∷ id ∷ []) else ""
    ] in
    send Method.post (template ("/spaces/" ∷ space_id ∷ "/uploads" ∷ qs ∷ [])) files

abbrev delete_staged : {B : Type 0} → String → Request B
delete_staged id = call Method.delete (template ("/uploads/" ∷ id ∷ []))

abbrev use_links : String → Query
use_links doc_id = record {
  key = requirement doc_id RequirementKey.links;
  path = template ("/documents/" ∷ doc_id ∷ "/links" ∷ []);
  enabled = nonempty doc_id;
}

abbrev use_backlinks : String → Query
use_backlinks doc_id = record {
  key = requirement doc_id RequirementKey.backlinks;
  path = template ("/documents/" ∷ doc_id ∷ "/backlinks" ∷ []);
  enabled = nonempty doc_id;
}

-- The `done` of `useLinkMutations`; the other end of a link, if it is known, shows it too.
abbrev target_links : Option String → List Op
target_links none = []
target_links (some target_id) =
    if nonempty target_id then invalidate (requirement target_id RequirementKey.links) ∷ [] else []

abbrev links_done : String → Option String → List Op
links_done doc_id target_id =
    (invalidate (requirement doc_id RequirementKey.links)
      ∷ invalidate (requirement doc_id (RequirementKey.journals "history"))
      ∷ [])
    ++ target_links target_id

abbrev create_link : {B : Type 0} → String → Mutation B B DocumentLink
create_link doc_id = record {
  request = send Method.post (template ("/documents/" ∷ doc_id ∷ "/links" ∷ []));
  on_success = λ _ link. links_done doc_id link.target_id;
}

abbrev remove_link : {B R : Type 0} → String → Mutation String B R
remove_link doc_id = record {
  request =
      λ link_id. call Method.delete (template ("/documents/" ∷ doc_id ∷ "/links/" ∷ link_id ∷ []));
  on_success = λ _ _. links_done doc_id none;
}

abbrev use_notification_count : Query
use_notification_count = record {
  key = global GlobalKey.notifications_count;
  path = "/notifications/count";
  enabled = true;
}

abbrev use_notifications : Bool → Query
use_notifications enabled = record {
  key = global GlobalKey.notifications_list;
  path = "/notifications?limit=50";
  enabled = enabled;
}

module _ {B R : Type 0} where
  abbrev read_notification : Mutation String B R
  read_notification = record {
    request = λ id. call Method.post (template ("/notifications/" ∷ id ∷ "/read" ∷ []));
    on_success = λ _ _. invalidate (global GlobalKey.notifications_all) ∷ [];
  }

  abbrev read_all_notifications : Mutation (Option String) B R
  read_all_notifications = record {
    request = λ document_id. call Method.post (
        template (
          "/notifications/read-all"
          ∷ (elim document_id [
            | none ↦ ""
            | some id ↦ if nonempty id then template ("?document_id=" ∷ id ∷ []) else ""
          ])
          ∷ []));
    on_success = λ _ _. invalidate (global GlobalKey.notifications_all) ∷ [];
  }
