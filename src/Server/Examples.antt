-- ===== src/Server/Examples.antt =====
-- internal/server on small runs: one organisation, its admin, one agent and one operation.
use database_flashback.Base.{◌≡◌, refl, ◌⊎◌, true, false, none, some, [], ◌∷◌, text, Bytes}
use database_flashback.Pitr.State.{preflight}
use database_flashback.Server.Orgs.{
  new_org_store, create, create_checked, add_member, has_member, issued, with_member, admin,
  accept_checked,
}
use database_flashback.Server.Orgs.Steps.{
  Orgs, new_orgs, OrgReaches, begun, followed, creates, adds_admin, stored,
}
use database_flashback.Server.Orgs.Sound.{IsSound}
use database_flashback.Server.Orgs.Runs.{OrgReaches-IsSound}
use database_flashback.Server.Orgs.Twice.{accept_twice}
use database_flashback.Server.Guard.{is_member_of, is_admin_of}
use database_flashback.Server.Agents.{AgentRecord}
use database_flashback.Server.Operations.{StoredOperation}
use database_flashback.Server.Platform.{
  Platform, Surroundings, approve_request, status_request, answer_to,
}
use database_flashback.Server.Access.{answer_to-is_permitted}
use database_flashback.Server.Checks.{org_of, is_permitted}
use database_flashback.Server.Approval.{answer_to_approves}

abbrev one_created : Orgs
one_created = record new_orgs {
  store = create (text "o1") (text "Shop") new_org_store;
  creating = (text "ann", text "o1") ∷ [];
}

abbrev one_org : Orgs
one_org = record one_created {
  store = stored (add_member (text "o1") (text "ann") admin one_created.store) one_created.store;
  creating = [];
}

OrgReaches-one_org : OrgReaches new_orgs one_org
unfolding create_checked
OrgReaches-one_org =
    followed
      (followed begun
        (creates (text "o1") (text "ann") (text "Shop") (some (text "Shop")) refl refl))
      (adds_admin (text "ann") (text "o1") [] [] refl)

OrgReaches-IsSound_example : IsSound one_org
OrgReaches-IsSound_example = OrgReaches-IsSound one_org OrgReaches-one_org

-- Ann has issued the code "c1".
abbrev with_code : Orgs
with_code = record one_org {
  store =
      issued (text "c1") (text "o1") (text "ann")
        (with_member (text "o1") (text "ann") admin one_created.store);
}

accept_twice_example :
    (after : Orgs) × OrgReaches with_code after
    × (has_member (text "bob") (after.store.members (text "o1")) ≡ true)
    × (has_member (text "cid") (after.store.members (text "o1")) ≡ true)
unfolding accept_checked has_member
accept_twice_example =
    accept_twice with_code (text "bob") (text "cid") (text "o1") (text "c1") (some (text "c1"))
      (some (text "c1")) (record { id = text "o1"; name = text "Shop" })
      (record { id = text "o1"; name = text "Shop" }) refl refl refl refl refl refl

abbrev waiting_agent : AgentRecord
waiting_agent = record {
  id = text "a1";
  org_id = text "o1";
  hostname = text "db1";
  mysql_version = text "8.0.36";
  status = text "offline";
  cert_serial = [];
  registration_token = text "t";
  approved = false;
}

abbrev new_operation_of_ann : StoredOperation
new_operation_of_ann = record {
  id = text "p1";
  org_id = text "o1";
  agent_id = text "a1";
  target_table = text "shop.users";
  recovery_time = 5;
  mode = text "preview";
  binlog_files = [];
  start_time = none;
  start_pos = none;
  stop_pos = none;
  state = preflight;
  parse_result = none;
  progress = none;
  created_at = 1;
}

abbrev platform : Platform
platform = record {
  orgs = with_member (text "o1") (text "ann") admin one_created.store;
  agents = record { agents = λ k. some waiting_agent; ids = text "a1" ∷ [] };
  operations = record {
    ops = λ k. some new_operation_of_ann;
    op_ids = text "p1" ∷ [];
    launched = [];
  };
  audit = [];
}

abbrev by_ann : Surroundings
by_ann = record {
  user = text "ann";
  email = text "ann@shop";
  parse_time = λ s. none;
  time_text = λ t. [];
  connected = λ id. true;
  now = 9;
  fresh = text "s1";
  token = text "t1";
}

answer_to-is_permitted_example :
    (org : Bytes) × (org_of (status_request (text "p1")) platform ≡ some org)
    × (is_permitted (status_request (text "p1")) platform.orgs org (text "ann") ≡ true)
unfolding answer_to is_member_of has_member
answer_to-is_permitted_example =
    answer_to-is_permitted by_ann (status_request (text "p1")) platform 200 _ refl

answer_to_approves_example :
    ((b : AgentRecord) × (platform.agents.agents (text "a1") ≡ some b) × (b.approved ≡ true))
    ⊎ (is_admin_of platform.orgs (text "o1") (text "ann") ≡ true)
unfolding answer_to
answer_to_approves_example =
    answer_to_approves by_ann (approve_request (text "a1")) platform _ _ 200 (text "a1") _ refl refl
      refl
