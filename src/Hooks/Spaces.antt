-- ===== src/Hooks/Spaces.antt =====
-- web/src/hooks/useSpaces.ts, useBoard.ts, useViews.ts and useUsers.ts.
use quagenticus.Base.{ℕ, String, Bool, true, [], ◌∷◌, ◌++◌, ◌&&◌, if◌then◌else◌}
use quagenticus.Api.Documents.{Me}
use quagenticus.Api.Catalogs.{BoardSummary, SavedView, Space, SystemUser}
use quagenticus.Cache.{
  flag, num, invalidate, set_data, me_value, Method, Query, Mutation, nonempty, template,
}
use quagenticus.Cache.Keys.{space, global, SpaceKey, GlobalKey}
use quagenticus.Hooks.{send, call, Change}

abbrev use_spaces : Bool → Query
use_spaces archived = record {
  key = global GlobalKey.spaces ++ flag archived ∷ [];
  path = template ("/spaces" ∷ (if archived then "?archived=true" else "") ∷ []);
  enabled = true;
}

abbrev use_space : String → Query
use_space id = record {
  key = space id SpaceKey.detail;
  path = template ("/spaces/" ∷ id ∷ []);
  enabled = nonempty id;
}

abbrev use_space_members : String → Query
use_space_members space_id = record {
  key = space space_id SpaceKey.members;
  path = template ("/spaces/" ∷ space_id ∷ "/members" ∷ []);
  enabled = nonempty space_id;
}

abbrev use_boards : String → Query
use_boards space_id = record {
  key = space space_id SpaceKey.boards;
  path = template ("/spaces/" ∷ space_id ∷ "/boards" ∷ []);
  enabled = nonempty space_id;
}

-- `print` writes a number in decimal.
abbrev use_board : (ℕ → String) → String → String → ℕ → Query
use_board print space_id board_id closed_days = record {
  key = space space_id (SpaceKey.board board_id) ++ num closed_days ∷ [];
  path =
      template
        ("/spaces/" ∷ space_id ∷ "/boards/" ∷ board_id ∷ "?closed_days=" ∷ print closed_days ∷ []);
  enabled = nonempty space_id && nonempty board_id;
}

abbrev use_saved_views : String → Query
use_saved_views space_id = record {
  key = space space_id SpaceKey.views;
  path = template ("/spaces/" ∷ space_id ∷ "/views" ∷ []);
  enabled = nonempty space_id;
}

abbrev use_users : Query
use_users = record { key = global GlobalKey.users; path = "/users"; enabled = true }

module _ {B : Type 0} where
  abbrev use_create_space : Mutation B B Space
  use_create_space = record {
    request = send Method.post "/spaces";
    on_success = λ _ _. invalidate (global GlobalKey.spaces) ∷ [];
  }

  abbrev use_update_space : String → Mutation B B Space
  use_update_space space_id = record {
    request = send Method.patch (template ("/spaces/" ∷ space_id ∷ []));
    on_success = λ _ _.
        invalidate (space space_id SpaceKey.detail) ∷ invalidate (global GlobalKey.spaces) ∷ [];
  }

  abbrev use_add_space_member : {R : Type 0} → String → Mutation B B R
  use_add_space_member space_id = record {
    request = send Method.post (template ("/spaces/" ∷ space_id ∷ "/members" ∷ []));
    on_success = λ _ _. invalidate (space space_id SpaceKey.members) ∷ [];
  }

  abbrev use_update_space_member : {R : Type 0} → String → Mutation (Change B) B R
  use_update_space_member space_id = record {
    request =
        λ v. send Method.patch (template ("/spaces/" ∷ space_id ∷ "/members/" ∷ v.id ∷ [])) v.rest;
    on_success = λ _ _. invalidate (space space_id SpaceKey.members) ∷ [];
  }

  abbrev use_remove_space_member : {R : Type 0} → String → Mutation String B R
  use_remove_space_member space_id = record {
    request = λ user_id.
        call Method.delete (template ("/spaces/" ∷ space_id ∷ "/members/" ∷ user_id ∷ []));
    on_success = λ _ _. invalidate (space space_id SpaceKey.members) ∷ [];
  }

  abbrev use_create_board : String → Mutation B B BoardSummary
  use_create_board space_id = record {
    request = send Method.post (template ("/spaces/" ∷ space_id ∷ "/boards" ∷ []));
    on_success = λ _ _. invalidate (space space_id SpaceKey.boards) ∷ [];
  }

  -- `v.id` is the column's status.
  abbrev use_update_board_column : {R : Type 0} → String → String → Mutation (Change B) B R
  use_update_board_column space_id board_id = record {
    request =
        λ v. send Method.patch (template ("/boards/" ∷ board_id ∷ "/columns/" ∷ v.id ∷ [])) v.rest;
    on_success = λ _ _. invalidate (space space_id (SpaceKey.board board_id)) ∷ [];
  }

  abbrev create_saved_view : String → Mutation B B SavedView
  create_saved_view space_id = record {
    request = send Method.post (template ("/spaces/" ∷ space_id ∷ "/views" ∷ []));
    on_success = λ _ _. invalidate (space space_id SpaceKey.views) ∷ [];
  }

  abbrev remove_saved_view : {R : Type 0} → String → Mutation String B R
  remove_saved_view space_id = record {
    request = λ id. call Method.delete (template ("/views/" ∷ id ∷ []));
    on_success = λ _ _. invalidate (space space_id SpaceKey.views) ∷ [];
  }

  abbrev use_create_user : Mutation B B SystemUser
  use_create_user = record {
    request = send Method.post "/users";
    on_success = λ _ _. invalidate (global GlobalKey.users) ∷ [];
  }

  abbrev use_update_user : Mutation (Change B) B SystemUser
  use_update_user = record {
    request = λ v. send Method.patch (template ("/users/" ∷ v.id ∷ [])) v.rest;
    on_success = λ _ _. invalidate (global GlobalKey.users) ∷ [];
  }

  abbrev use_change_password : {R : Type 0} → Mutation (Change B) B R
  use_change_password = record {
    request = λ v. send Method.patch (template ("/users/" ∷ v.id ∷ "/password" ∷ [])) v.rest;
    on_success = λ _ _. [];
  }

  abbrev use_change_own_password : {R : Type 0} → Mutation B B R
  use_change_own_password = record {
    request = send Method.patch "/auth/password";
    on_success = λ _ _. [];
  }

abbrev use_update_me : {B : Type 0} → Mutation B B Me
use_update_me = record {
  request = send Method.patch "/auth/me";
  on_success = λ _ me. set_data (global GlobalKey.me) (me_value me) ∷ [];
}
